-- ===== src/Db/Ops/Refill.antt =====
-- A record of the free list that `db_store` of apue.3e/db/db.c takes for a new record, as three writes of
-- the index file.
use mathlib.Core.Path.{subst}
use play_apue.Prelude.{
  ℕ, ◌+◌, ◌≤◌, ◌≡◌, sym, ◌∙◌, List, [], ◌∷◌, ◌++◌, arith, Bytes, length, inl, inr, All, All-append,
  All-split,
}
use play_apue.Db.Storage.{write_at}
use play_apue.Db.Storage.Laws.{Apart, length-write_at}
use play_apue.Db.Record.{ptr_sz, ptr_max}
use play_apue.Db.Record.Pointer.{
  ptr_at, field, length-field, ptr_at-write_at_self, ptr_at-write_at-Apart,
}
use play_apue.Db.Record.Index.{
  IndexRecord, IsSized, RecordAt, RecordAt-write_at, RecordAt-write_at-Apart, text_of, record_bytes,
  length-record_bytes,
}
use play_apue.Db.Ops.{free_off}
use play_apue.Db.Ops.Insert.{Behind}
use play_apue.Db.Ops.Relink.{
  size_of, ApartFrom, Separate, relinked, last_ptr, first_ptr, Separate-remove, RecordAt-keep,
  Apart-Behind, last_ptr_inside, RecordAt-relinked, ptr_at-relinked,
}

-- The free list leads past the record, the new one is written in its place, and the chain at `off`
-- leads to it.
abbrev pub refilled : Bytes → ℕ → List IndexRecord → IndexRecord → IndexRecord → Bytes
refilled idx off xs f n =
    write_at off (field f.off)
      (write_at f.off (record_bytes n) (write_at (last_ptr free_off xs) (field f.ptrval) idx))

-- The new record stands where the free one stood, and takes as many bytes.
pub record Fits (n f : IndexRecord) : Type 0 where
  pub sized : IsSized n
  pub same_off : n.off ≡ f.off
  pub same_length : length (text_of n) ≡ length (text_of f)

-- What the records need to be told apart.
pub record IsFree (idx : Bytes) (off : ℕ) (xs : List IndexRecord) (f : IndexRecord)
    (ws : List IndexRecord) : Type 0 where
  pub fits : off + ptr_sz ≤ length idx
  pub after_free : free_off + ptr_sz ≤ off
  pub behind : Behind off (xs ++ f ∷ ws)
  pub separate : Separate (xs ++ f ∷ ws)
  pub there : All (RecordAt idx) (xs ++ f ∷ ws)
  pub low : f.off ≤ ptr_max

-- A property of where a record stands holds of the records with other pointers.
All-relinked {ℓ} :
    (P : IndexRecord → Type ℓ) (p : ℕ) (xs : List IndexRecord)
    → ((r : IndexRecord) → P r → P (record r { ptrval = p }))
    → All P xs
    → All P (relinked xs p)
All-relinked P p [] same h = tt
All-relinked P p (x ∷ []) same (h, _) = (same x h, tt)
All-relinked P p (x ∷ y ∷ xs) same (h, k) = (h, All-relinked P p (y ∷ xs) same k)

module _ (idx : Bytes) (off : ℕ) (xs : List IndexRecord) (f : IndexRecord) (ws : List IndexRecord)
    (n : IndexRecord) (fit : Fits n f) (c : IsFree idx off xs f ws) where
  abbrev idx1 : Bytes
  idx1 = write_at (last_ptr free_off xs) (field f.ptrval) idx

  abbrev idx2 : Bytes
  idx2 = write_at f.off (record_bytes n) idx1

  f_there : RecordAt idx f
  f_there = (All-split (RecordAt idx) xs (f ∷ ws) c.there).1.0

  free-Behind : (qs : List IndexRecord) → Behind off qs → Behind free_off qs
  free-Behind [] h = tt
  free-Behind (q ∷ qs) (h, hs) = (omega (arith, c.after_free), free-Behind qs hs)

  ptr_fits : f.ptrval ≤ ptr_max
  ptr_fits = f_there.sized.ptr_fits

  -- After the first write.
  kept1 : All (RecordAt idx1) (relinked xs f.ptrval ++ f ∷ ws)
  kept1 =
      RecordAt-relinked idx free_off f.ptrval xs (f ∷ ws) ptr_fits (omega arith)
        (free-Behind (xs ++ f ∷ ws) c.behind) c.separate c.there

  last_inside : last_ptr free_off xs ≤ length idx
  last_inside = go xs (All-split (RecordAt idx) xs (f ∷ ws) c.there).0
    where
      go : (ys : List IndexRecord) → All (RecordAt idx) ys → last_ptr free_off ys ≤ length idx
      go [] h = omega arith
      go (y ∷ ys) h = omega (arith, last_ptr_inside idx y ys h)

  length-idx1 : length idx ≤ length idx1
  length-idx1 =
      omega (arith, last_inside, length-write_at (last_ptr free_off xs) (field f.ptrval) idx)

  bytes_size : length (record_bytes n) ≡ size_of f
  bytes_size = omega (arith, length-record_bytes n fit.sized, fit.same_length)

  length-idx2 : length idx ≤ length idx2
  length-idx2 =
      omega (arith, length-idx1, f_there.inside, length-write_at f.off (record_bytes n) idx1)

  written-Apart :
      (qs : List IndexRecord)
      → All (ApartFrom f) qs
      → All (λ q. Apart q.off (size_of q) f.off (length (record_bytes n))) qs
  written-Apart [] h = tt
  written-Apart (q ∷ qs) (h, hs) =
      (subst (λ m. Apart q.off (size_of q) f.off m) (sym bytes_size) h, written-Apart qs hs)

  others_kept : All (RecordAt idx1) (relinked xs f.ptrval ++ ws)
  others_kept =
      let (l, (_, m)) = All-split (RecordAt idx1) (relinked xs f.ptrval) (f ∷ ws) kept1 in
      All-append (RecordAt idx1) (relinked xs f.ptrval) ws l m

  others-ApartFrom : All (ApartFrom f) (relinked xs f.ptrval ++ ws)
  others-ApartFrom =
      let (l, m) = All-split (ApartFrom f) xs ws (Separate-remove xs f ws c.separate).0 in
      All-append (ApartFrom f) (relinked xs f.ptrval) ws
        (All-relinked (ApartFrom f) f.ptrval xs (λ r h. h) l) m

  others-Behind : Behind off (relinked xs f.ptrval ++ ws)
  others-Behind =
      let P = λ (q : IndexRecord). off + ptr_sz ≤ q.off in
      let (l, (_, m)) = All-split P xs (f ∷ ws) c.behind in
      All-append P (relinked xs f.ptrval) ws (All-relinked P f.ptrval xs (λ r h. h) l) m

  f_behind : off + ptr_sz ≤ f.off
  f_behind = (All-split (λ q. off + ptr_sz ≤ q.off) xs (f ∷ ws) c.behind).1.0

  pub RecordAt-refilled : All (RecordAt (refilled idx off xs f n)) (relinked xs f.ptrval ++ ws)
  RecordAt-refilled =
      RecordAt-keep idx2 (field f.off) off (relinked xs f.ptrval ++ ws)
        (omega (arith, length-idx2, c.fits))
        (Apart-Behind off f.off (relinked xs f.ptrval ++ ws) c.low others-Behind)
        (RecordAt-keep idx1 (record_bytes n) f.off (relinked xs f.ptrval ++ ws)
          (omega (arith, length-idx1, f_there.inside))
          (written-Apart (relinked xs f.ptrval ++ ws) others-ApartFrom) others_kept)

  pub RecordAt-filled : RecordAt (refilled idx off xs f n) n
  RecordAt-filled =
      RecordAt-write_at-Apart n off (field f.off) idx2
        (subst (λ o. RecordAt (write_at o (record_bytes n) idx1) n) fit.same_off
          (RecordAt-write_at n idx1 fit.sized
            (omega (arith, fit.same_off, length-idx1, f_there.inside))))
        (inr (omega (arith, length-field f.off c.low, f_behind, fit.same_off)))
        (omega (arith, length-idx2, c.fits))

  pub length-refilled : length idx ≤ length (refilled idx off xs f n)
  length-refilled = omega (arith, length-idx2, c.fits, length-write_at off (field f.off) idx2)

  pub ptr_at-refilled : ptr_at (refilled idx off xs f n) off ≡ f.off
  ptr_at-refilled = ptr_at-write_at_self off f.off idx2 c.low

  -- The free list leads past the record.
  pub free-refilled :
      ptr_at (refilled idx off xs f n) free_off ≡ first_ptr (ptr_at idx free_off) xs f.ptrval
  free-refilled =
      ptr_at-write_at-Apart free_off off (field f.off) idx2 (inl (omega (arith, c.after_free)))
        (omega (arith, length-idx2, c.fits, c.after_free)) (omega (arith, length-idx2, c.fits))
      ∙ ptr_at-write_at-Apart free_off f.off (record_bytes n) idx1
          (inl (omega (arith, c.after_free, f_behind)))
          (omega (arith, length-idx1, c.fits, c.after_free))
          (omega (arith, length-idx1, f_there.inside))
      ∙ ptr_at-relinked idx free_off f.ptrval xs (f ∷ ws) ptr_fits
          (omega (arith, c.fits, c.after_free)) (free-Behind (xs ++ f ∷ ws) c.behind) c.there
