-- ===== src/Db/Ops/Unlink.antt =====
-- The index file of apue.3e/db/db.c after the three writes of `_db_dodelete`.
use mathlib.Core.Path.{subst}
use play_apue.Prelude.{
  ℕ, ◌+◌, ◌≤◌, ◌≡◌, ap, sym, ◌∙◌, List, [], ◌∷◌, ◌++◌, arith, Bytes, length, inl, inr, All,
  All-append, All-split, length-append,
}
use play_apue.Db.Storage.{write_at}
use play_apue.Db.Storage.Laws.{Apart, length-write_at}
use play_apue.Db.Record.{ptr_sz, ptr_max, index_text}
use play_apue.Db.Record.Pointer.{
  ptr_at, field, length-field, ptr_at-write_at_self, ptr_at-write_at-Apart,
}
use play_apue.Db.Record.Index.{
  IndexRecord, IsSized, RecordAt, RecordAt-write_at, RecordAt-write_at-Apart, text_of, header_sz,
  record_bytes, length-record_bytes,
}
use play_apue.Db.Ops.{free_off}
use play_apue.Db.Ops.Insert.{Behind}
use play_apue.Db.Ops.Relink.{
  size_of, ApartFrom, Separate, relinked, last_ptr, first_ptr, Separate-remove, RecordAt-keep,
  Apart-Behind, last_ptr_inside, Apart-last_ptr, RecordAt-relinked, ptr_at-relinked,
}

-- The record as it stands on the free list.
abbrev pub freed : ℕ → Bytes → IndexRecord → IndexRecord
freed p key r = record r { ptrval = p; key = key }

-- The record is written, the free list leads to it, and its chain leads past it.
abbrev pub unlinked : Bytes → ℕ → List IndexRecord → IndexRecord → Bytes → Bytes
unlinked idx off xs r key = write_at (last_ptr off xs) (field r.ptrval) (
    write_at free_off (field r.off)
      (write_at r.off (record_bytes (freed (ptr_at idx free_off) key r)) idx))

pub same_size :
    (p : ℕ) (key : Bytes) (r : IndexRecord)
    → length key ≡ length r.key
    → length (text_of (freed p key r)) ≡ length (text_of r)
unfolding index_text
same_size p key r h = omega (arith, length-append key _, length-append r.key _)

-- What the records need to be told apart.
pub record IsPlaced (idx : Bytes) (off : ℕ) (xs : List IndexRecord) (r : IndexRecord)
    (ws : List IndexRecord) : Type 0 where
  pub fits : off + ptr_sz ≤ length idx
  pub after_free : free_off + ptr_sz ≤ off
  pub behind : Behind off (xs ++ r ∷ ws)
  pub separate : Separate (xs ++ r ∷ ws)
  pub there : All (RecordAt idx) (xs ++ r ∷ ws)
  pub low : r.off ≤ ptr_max
  pub free_low : ptr_at idx free_off ≤ ptr_max

module _ (idx : Bytes) (off : ℕ) (xs : List IndexRecord) (r : IndexRecord) (ws : List IndexRecord)
    (key : Bytes) (z : IsSized (freed (ptr_at idx free_off) key r))
    (same : length key ≡ length r.key) (c : IsPlaced idx off xs r ws) where
  abbrev r' : IndexRecord
  r' = freed (ptr_at idx free_off) key r

  abbrev idx1 : Bytes
  idx1 = write_at r.off (record_bytes r') idx

  abbrev idx2 : Bytes
  idx2 = write_at free_off (field r.off) idx1

  -- The record and the others.
  r_there : RecordAt idx r
  r_there = (All-split (RecordAt idx) xs (r ∷ ws) c.there).1.0

  others_there : All (RecordAt idx) (xs ++ ws)
  others_there =
      let (l, (m, n)) = All-split (RecordAt idx) xs (r ∷ ws) c.there in
      All-append (RecordAt idx) xs ws l n

  others-Behind : Behind off (xs ++ ws)
  others-Behind =
      let P = λ (q : IndexRecord). off + ptr_sz ≤ q.off in
      let (l, (m, n)) = All-split P xs (r ∷ ws) c.behind in All-append P xs ws l n

  r_behind : off + ptr_sz ≤ r.off
  r_behind = (All-split (λ q. off + ptr_sz ≤ q.off) xs (r ∷ ws) c.behind).1.0

  others_apart : All (ApartFrom r) (xs ++ ws)
  others_apart = (Separate-remove xs r ws c.separate).0

  bytes_size : length (record_bytes r') ≡ size_of r
  bytes_size = omega (arith, length-record_bytes r' z, same_size (ptr_at idx free_off) key r same)

  length-idx1 : length idx ≤ length idx1
  length-idx1 = omega (arith, length-write_at r.off (record_bytes r') idx, r_there.inside)

  length-idx2 : length idx ≤ length idx2
  length-idx2 = omega (arith, length-idx1, length-write_at free_off (field r.off) idx1)

  free-Behind : (qs : List IndexRecord) → Behind off qs → Behind free_off qs
  free-Behind [] h = tt
  free-Behind (q ∷ qs) (h, hs) = (omega arith, free-Behind qs hs)

  written-Apart :
      (qs : List IndexRecord)
      → All (ApartFrom r) qs
      → All (λ q. Apart q.off (size_of q) r.off (length (record_bytes r'))) qs
  written-Apart [] h = tt
  written-Apart (q ∷ qs) (h, hs) =
      (subst (λ n. Apart q.off (size_of q) r.off n) (sym bytes_size) h, written-Apart qs hs)

  -- After the first two writes the other records stand as before.
  others_kept : All (RecordAt idx2) (xs ++ ws)
  others_kept =
      RecordAt-keep idx1 (field r.off) free_off (xs ++ ws) (omega arith)
        (Apart-Behind free_off r.off (xs ++ ws) c.low (free-Behind (xs ++ ws) others-Behind))
        (RecordAt-keep idx (record_bytes r') r.off (xs ++ ws) (omega (arith, r_there.inside))
          (written-Apart (xs ++ ws) others_apart) others_there)

  Separate-others : Separate (xs ++ ws)
  Separate-others = (Separate-remove xs r ws c.separate).1

  fits2 : off + ptr_sz ≤ length idx2
  fits2 = omega (arith, c.fits, length-idx2)

  pub RecordAt-unlinked : All (RecordAt (unlinked idx off xs r key)) (relinked xs r.ptrval ++ ws)
  RecordAt-unlinked =
      RecordAt-relinked idx2 off r.ptrval xs ws r_there.sized.ptr_fits (omega (arith, fits2))
        others-Behind Separate-others others_kept

  -- The pointer of the chain is neither that of the free list nor in the record.
  last_ptr-Apart :
      Apart r.off (size_of r) (last_ptr off xs) (length (field r.ptrval))
      × (off ≤ last_ptr off xs)
      × (last_ptr off xs ≤ length idx)
  last_ptr-Apart = go xs others_apart others_there others-Behind
    where
      up :
          (y : IndexRecord) (ys : List IndexRecord)
          → Behind off (y ∷ ys ++ ws)
          → off ≤ last_ptr y.off ys
      up y [] (h, _) = omega arith
      up y (q ∷ ys) (_, h) = up q ys h

      go :
          (ys : List IndexRecord)
          → All (ApartFrom r) (ys ++ ws)
          → All (RecordAt idx) (ys ++ ws)
          → Behind off (ys ++ ws)
          → Apart r.off (size_of r) (last_ptr off ys) (length (field r.ptrval))
            × (off ≤ last_ptr off ys)
            × (last_ptr off ys ≤ length idx)
      go [] a t b = (
        inr (omega (arith, r_behind, length-field r.ptrval r_there.sized.ptr_fits)),
        omega arith,
        omega (arith, c.fits),
      )
      go (y ∷ ys) a t b =
          let (a', _) = All-split (ApartFrom r) (y ∷ ys) ws a in
          let (t', _) = All-split (RecordAt idx) (y ∷ ys) ws t in
          (
            Apart-last_ptr r y ys r.ptrval r_there.sized.ptr_fits a',
            up y ys b,
            omega (arith, last_ptr_inside idx y ys t'),
          )

  pub length-unlinked : length idx ≤ length (unlinked idx off xs r key)
  length-unlinked =
      let (_, _, h) = last_ptr-Apart in
      omega (arith, length-idx2, length-write_at (last_ptr off xs) (field r.ptrval) idx2)

  -- The record stands on the free list.
  pub RecordAt-freed : RecordAt (unlinked idx off xs r key) r'
  RecordAt-freed =
      let (a, _, h) = last_ptr-Apart in
      let size : size_of r' ≡ size_of r =
        ap (λ n. header_sz + n) (same_size (ptr_at idx free_off) key r same) in
      RecordAt-write_at-Apart r' (last_ptr off xs) (field r.ptrval) idx2
        (RecordAt-write_at-Apart r' free_off (field r.off) idx1
          (RecordAt-write_at r' idx z (omega (arith, r_there.inside)))
          (inr (omega (arith, length-field r.off c.low, r_behind))) (omega arith))
        (subst (λ n. Apart r.off n (last_ptr off xs) (length (field r.ptrval))) (sym size) a)
        (omega (arith, length-idx2))

  pub free-unlinked : ptr_at (unlinked idx off xs r key) free_off ≡ r.off
  free-unlinked =
      let (_, low, h) = last_ptr-Apart in
      ptr_at-write_at-Apart free_off (last_ptr off xs) (field r.ptrval) idx2
        (inl (omega (arith, c.after_free))) (omega (arith, fits2)) (omega (arith, length-idx2))
      ∙ ptr_at-write_at_self free_off r.off idx1 c.low

  -- The chain leads past the record.
  pub ptr_at-unlinked :
      ptr_at (unlinked idx off xs r key) off ≡ first_ptr (ptr_at idx off) xs r.ptrval
  ptr_at-unlinked =
      ptr_at-relinked idx2 off r.ptrval xs ws r_there.sized.ptr_fits fits2 others-Behind others_kept
      ∙ ap (λ p. first_ptr p xs r.ptrval)
          (ptr_at-write_at-Apart off free_off (field r.off) idx1
              (inr (omega (arith, c.after_free, length-field r.off c.low)))
              (omega (arith, length-idx1, c.fits)) (omega arith)
            ∙ ptr_at-write_at-Apart off r.off (record_bytes r') idx (inl r_behind) c.fits
                (omega (arith, r_there.inside)))
