-- ===== src/Db/Ops/Reused.antt =====
-- `db_store` of apue.3e/db/db.c where no record has the key and one on the free list has the sizes of the
-- new one: the record is written in its place.
use mathlib.Core.Path.{subst, subst₂, ap₂}
use play_apue.Prelude.{
  ℕ, ◌+◌, ◌*◌, ◌^◌, ◌≤◌, ◌<◌, ◌≡◌, refl, ap, sym, ◌∙◌, true, List, [], ◌∷◌, ◌++◌, some, none, arith,
  Bytes, length, Lacks, All, All-append, All-split, bytes_eq, if◌then◌else◌,
}
use play_apue.Db.Storage.{write_at}
use play_apue.Db.State.{Db, done}
use play_apue.Db.Record.{ptr_sz, ptr_max, sep}
use play_apue.Db.Record.Pointer.{ptr_at, field, at_idx}
use play_apue.Db.Record.Index.{IndexRecord, IsSized, RecordAt, record_bytes}
use play_apue.Db.Record.Data.{DataAt-write_at, line}
use play_apue.Db.Ops.{
  Flag, ok, db_store, store_new, db_findfree, valid_length, db_fetch, db_hash, free_off,
}
use play_apue.Db.Ops.Search.{
  chainoff_of, find_record, is_some, scanned, begun, db_find_and_lock_lem, scanned-Found, Found,
  IsCurrent,
}
use play_apue.Db.Ops.Chain.{Chain}
use play_apue.Db.Ops.Fetch.{Bucket, find_text, db_fetch-eq-find_text}
use play_apue.Db.Ops.Free.{has_sizes, walked, walked-Walks, Walks, free_begun}
use play_apue.Db.Ops.Insert.{Behind}
use play_apue.Db.Ops.Lookup.{Adds, store_new_end, unlocked}
use play_apue.Db.Ops.Replace.OneText.{ApartData, Texts-keep}
use play_apue.Db.Ops.Relink.{
  Separate, Chain-RecordAt, Chain-Links, chain_of_links, relinked, last_ptr, first_ptr,
  Links-relinked,
}
use play_apue.Db.Ops.Unlink.{freed, same_size}
use play_apue.Db.Ops.Delete.{freed-IsSized}
use play_apue.Db.Ops.Refill.{
  refilled, Fits, IsFree, RecordAt-refilled, RecordAt-filled, length-refilled, ptr_at-refilled,
  free-refilled,
}
use play_apue.Db.Ops.Reuse.{
  LacksSizes, find_free_first, walked-IsCurrent, taken, db_findfree-some, filling, count_stor2,
  filled, store_reuse_lem, store_new-reuse,
}

-- No record on the chain of the key has it, and `f` is the first on the free list with the sizes of the
-- new record; the records meet neither one another nor the pointers, and no text that of `f`.
pub record CanReuse (d : Db) (key text : Bytes) (rs : List IndexRecord) (ts : List Bytes)
    (xs : List IndexRecord) (f : IndexRecord) (ys : List IndexRecord) : Type 0 where
  pub valid : valid_length text ≡ true
  pub plain : Lacks 0 text
  pub key_plain : Lacks sep key
  pub key_string : Lacks 0 key
  pub bucket : Bucket d.idxfd.bytes d.datfd.bytes (chainoff_of d key) rs ts
  pub absent : find_record key rs ≡ none
  pub free : Chain d.idxfd.bytes (ptr_at d.idxfd.bytes free_off) (xs ++ f ∷ ys)
  pub first : LacksSizes (length key) (length text + 1) xs
  pub key_fits : length key ≡ length f.key
  pub text_fits : f.datlen ≡ length text + 1
  pub after_free : free_off + ptr_sz ≤ chainoff_of d key
  pub behind : Behind (chainoff_of d key) (xs ++ f ∷ (ys ++ rs))
  pub separate : Separate (xs ++ f ∷ (ys ++ rs))
  pub low : f.off ≤ ptr_max
  pub head_low : ptr_at d.idxfd.bytes (chainoff_of d key) ≤ ptr_max
  pub room : f.datoff ≤ length d.datfd.bytes
  pub elsewhere : All (ApartData f) rs

module _ (d : Db) (key text : Bytes) (rs : List IndexRecord) (ts : List Bytes)
    (xs : List IndexRecord) (f : IndexRecord) (ys : List IndexRecord)
    (c : CanReuse d key text rs ts xs f ys) where
  abbrev idx : Bytes
  idx = d.idxfd.bytes

  abbrev off : ℕ
  off = chainoff_of d key

  abbrev p : ℕ
  p = ptr_at idx off

  -- The new record.
  abbrev pub new : IndexRecord
  new = freed p key f

  free_there : All (RecordAt idx) (xs ++ f ∷ ys)
  free_there = Chain-RecordAt idx (ptr_at idx free_off) (xs ++ f ∷ ys) c.free

  f_at : RecordAt idx f
  f_at = (All-split (RecordAt idx) xs (f ∷ ys) free_there).1.0

  new-IsSized : IsSized new
  new-IsSized = freed-IsSized p key f c.head_low c.key_fits c.key_plain c.key_string f_at.sized

  new-Fits : Fits new f
  new-Fits = record {
    sized = new-IsSized;
    same_off = refl;
    same_length = same_size p key f c.key_fits;
  }

  free : IsFree idx off xs f (ys ++ rs)
  free =
      let (l, (_, m)) = All-split (RecordAt idx) xs (f ∷ ys) free_there in
      record {
        fits = c.bucket.fits;
        after_free = c.after_free;
        behind = c.behind;
        separate = c.separate;
        there =
            All-append (RecordAt idx) xs (f ∷ (ys ++ rs)) l
              (f_at, All-append (RecordAt idx) ys rs m (Chain-RecordAt idx p rs c.bucket.chain));
        low = c.low;
      }

  abbrev idx' : Bytes
  idx' = refilled idx off xs f new

  abbrev dat' : Bytes
  dat' = write_at f.datoff (line text) d.datfd.bytes

  rest_there :
      All (RecordAt idx') (relinked xs f.ptrval) × All (RecordAt idx') ys × All (RecordAt idx') rs
  rest_there =
      let (l, m) =
        All-split (RecordAt idx') (relinked xs f.ptrval) (ys ++ rs)
          (RecordAt-refilled idx off xs f (ys ++ rs) new new-Fits free) in
      let (u, v) = All-split (RecordAt idx') ys rs m in (l, u, v)

  Bucket-refilled : Bucket idx' dat' off (new ∷ rs) (text ∷ ts)
  Bucket-refilled = record {
    fits = omega (arith, c.bucket.fits, length-refilled idx off xs f (ys ++ rs) new new-Fits free);
    small = c.bucket.small;
    chain = (
      ptr_at-refilled idx off xs f (ys ++ rs) new new-Fits free,
      RecordAt-filled idx off xs f (ys ++ rs) new new-Fits free,
      chain_of_links idx' p rs rest_there.2 (Chain-Links idx p rs c.bucket.chain),
    );
    texts = (
      DataAt-write_at f.datoff text d.datfd.bytes c.plain f_at.sized.datoff_fits c.room,
      c.text_fits,
      Texts-keep d.datfd.bytes key text f c.plain c.text_fits rs ts c.bucket.texts c.elsewhere
          c.room,
    );
  }

  free-Chain : Chain idx' (ptr_at idx' free_off) (relinked xs f.ptrval ++ ys)
  free-Chain =
      subst (λ q. Chain idx' q (relinked xs f.ptrval ++ ys))
        (sym (free-refilled idx off xs f (ys ++ rs) new new-Fits free))
        (chain_of_links idx' (first_ptr (ptr_at idx free_off) xs f.ptrval)
          (relinked xs f.ptrval ++ ys)
          (All-append (RecordAt idx') (relinked xs f.ptrval) ys rest_there.0 rest_there.1)
          (Links-relinked (ptr_at idx free_off) xs f ys 0
            (Chain-Links idx (ptr_at idx free_off) (xs ++ f ∷ ys) c.free)))

  small_ptr : last_ptr free_off xs < 2 ^ 63
  small_ptr = go free_off xs (omega arith) (All-split (RecordAt idx) xs (f ∷ ys) free_there).0
    where
      go :
          (q : ℕ) (zs : List IndexRecord)
          → q < 2 ^ 63
          → All (RecordAt idx) zs
          → last_ptr q zs < 2 ^ 63
      go q [] h a = h
      go q (z ∷ zs) h (at, a) = go z.off zs at.sized.off_small a

  has_f : has_sizes (length key) (length text + 1) f ≡ true
  has_f = ground (arith, c.key_fits, c.text_fits)

  -- The states of the store: behind the search of the chain, and behind that of the free list.
  abbrev s : Db
  s = scanned key rs (begun key true d)

  abbrev w : Db
  w =
      walked (length key) (length text + 1) (xs ++ f ∷ ys)
        (free_begun (at_idx (s.chainoff + ptr_sz) s))

  abbrev v : Db
  v = taken (last_ptr free_off xs) w

  s-Found : Found key rs off (begun key true d) s
  s-Found = scanned-Found key rs (begun key true d)

  w-Walks : Walks (free_begun (at_idx (s.chainoff + ptr_sz) s)) w
  w-Walks =
      walked-Walks (length key) (length text + 1) (xs ++ f ∷ ys)
        (free_begun (at_idx (s.chainoff + ptr_sz) s))

  w-IsCurrent : IsCurrent f w
  w-IsCurrent =
      walked-IsCurrent (length key) (length text + 1) xs f ys
        (free_begun (at_idx (s.chainoff + ptr_sz) s)) c.first has_f

  same_idx : w.idxfd.bytes ≡ idx
  same_idx = w-Walks.same_idx ∙ s-Found.same_idx

  same_dat : w.datfd.bytes ≡ d.datfd.bytes
  same_dat = ap (λ x. x.bytes) (w-Walks.same_dat ∙ s-Found.same_dat)

  same_chainoff : w.chainoff ≡ off
  same_chainoff = w-Walks.same_chainoff ∙ s-Found.same_chainoff

  same_new : filling key text p v ≡ new
  same_new = grind (arith, w-IsCurrent.cur_idxoff, w-IsCurrent.cur_datoff, c.text_fits)

  searched_free :
      db_findfree (length key) (length text + 1) (at_idx (s.chainoff + ptr_sz) s) ≡ done true v
  searched_free =
      db_findfree-some (length key) (length text + 1) (last_ptr free_off xs) (xs ++ f ∷ ys)
        (at_idx (s.chainoff + ptr_sz) s) (omega (arith, c.bucket.fits, ap length s-Found.same_idx))
        (subst (λ b. Chain b (ptr_at b free_off) (xs ++ f ∷ ys)) (sym s-Found.same_idx) c.free)
        (find_free_first (length key) (length text + 1) free_off xs f ys c.first has_f)
        (omega (arith, w-IsCurrent.cur_ptrval, f_at.sized.ptr_fits)) small_ptr

  stored_there : store_new key text s ≡ done tt (filled key text p v)
  stored_there =
      store_new-reuse key text p s v (filled key text p v)
        (omega (arith, c.bucket.fits, ap length s-Found.same_idx, s-Found.same_chainoff))
        (omega (arith, c.bucket.small, s-Found.same_chainoff))
        (ap₂ ptr_at s-Found.same_idx s-Found.same_chainoff) searched_free
        (store_reuse_lem key text p v (subst IsSized (sym same_new) new-IsSized)
          (omega (arith, w-IsCurrent.cur_idxoff, c.low))
          (omega (arith, same_chainoff, c.bucket.small)))

  new_idx : (filled key text p v).idxfd.bytes ≡ idx'
  new_idx =
      ap₂
        (λ o x. write_at o (field x) (
          write_at x (record_bytes (filling key text p v))
            (write_at (last_ptr free_off xs) (field w.ptrval) w.idxfd.bytes)))
        same_chainoff w-IsCurrent.cur_idxoff
      ∙ ap₂
          (λ n q. write_at off (field f.off) (
            write_at f.off (record_bytes n)
              (write_at (last_ptr free_off xs) (field q) w.idxfd.bytes)))
          same_new w-IsCurrent.cur_ptrval
      ∙ ap
          (λ i. write_at off (field f.off) (
            write_at f.off (record_bytes new) (write_at (last_ptr free_off xs) (field f.ptrval) i)))
          same_idx

  new_dat : (filled key text p v).datfd.bytes ≡ dat'
  new_dat = ap₂ (λ o b. write_at o (line text) b) w-IsCurrent.cur_datoff same_dat

  -- The chain and the free list after the store, and what a fetch of a key of the chain returns.
  pub record Reused (e : Db) : Type 0 where
    pub bucket : Bucket e.idxfd.bytes e.datfd.bytes off (new ∷ rs) (text ∷ ts)
    pub free : Chain e.idxfd.bytes (ptr_at e.idxfd.bytes free_off) (relinked xs f.ptrval ++ ys)
    pub same_chains : (k : Bytes) → chainoff_of e k ≡ chainoff_of d k
    pub counted : e.counts ≡ count_stor2 d.counts
    pub fetches :
        (k : Bytes)
        → chainoff_of d k ≡ off
        → (g : Db) × (db_fetch k e
            ≡ done (if bytes_eq key k then some text else find_text k rs ts) g)

  reused_end : Db
  reused_end = unlocked (filled key text p v)

  -- Where no record on the chain of a key has it, a record of the free list is the first with the
  -- sizes of the new one, the records of the chain and of the free list share no bytes and stand
  -- behind the pointer of the chain, no text of the chain shares bytes with the free record, the
  -- key has no ':' and neither it nor the text a null byte, and the text has 2 to 1024 bytes with
  -- its newline, db_store (DB_INSERT or DB_STORE) returns 0, takes the free record off its list,
  -- puts it with the key and the text at the head of the chain and counts cnt_stor2; db_fetch of
  -- the key then returns the text, and of another key of the chain what the chain held before. The
  -- texts of the chain are taken to stand in the data file, and the offsets of the records to be
  -- at most PTR_MAX.
  pub db_store-Reused :
      (flag : Flag) → Adds flag → (e : Db) × (db_store key text flag d ≡ done ok e) × Reused e
  unfolding reused_end
  db_store-Reused flag a =
      let e = reused_end in
      let b : Bucket e.idxfd.bytes e.datfd.bytes off (new ∷ rs) (text ∷ ts) =
        subst₂ (λ i x. Bucket i x off (new ∷ rs) (text ∷ ts)) (sym new_idx) (sym new_dat)
          Bucket-refilled in
      let chains : (k : Bytes) → chainoff_of e k ≡ chainoff_of d k = λ k.
        ap₂ (λ n o. db_hash n k * ptr_sz + o) (w-Walks.same_nhash ∙ s-Found.same_nhash)
          (w-Walks.same_hashoff ∙ s-Found.same_hashoff) in
      (
        e,
        store_new_end key text flag d s (filled key text p v) a c.valid
            (db_find_and_lock_lem key true rs d c.bucket.fits c.bucket.small c.bucket.chain
              ∙ ap (λ o. done (is_some o) s) c.absent)
            stored_there,
        record {
          bucket = b;
          free =
              subst (λ i. Chain i (ptr_at i free_off) (relinked xs f.ptrval ++ ys)) (sym new_idx)
                free-Chain;
          same_chains = chains;
          counted = ap count_stor2 (w-Walks.same_counts ∙ s-Found.same_counts);
          fetches = λ k same.
              let (g, q, _) = db_fetch-eq-find_text k (new ∷ rs) (text ∷ ts) e (
                subst (λ o. Bucket e.idxfd.bytes e.datfd.bytes o (new ∷ rs) (text ∷ ts))
                  (sym (chains k ∙ same)) b) in
              (g, q);
        },
      )
