-- ===== src/Db/Ops/Moved.antt =====
-- `db_store` of apue.3e/db/db.c where a record has the key and its text another length than the new one:
-- the record is deleted, and a new one appended.
use mathlib.Core.Path.{subst, subst₂, ap₂}
use play_apue.Prelude.{
  ℕ, ◌+◌, ◌-◌, ◌*◌, ◌^◌, ◌≤◌, ◌<◌, ◌≡◌, ◌≢◌, refl, ap, sym, ◌∙◌, true, false, List, [], ◌∷◌, ◌++◌,
  some, arith, Bytes, length, Lacks, inl, inr, All-append, All-split, bytes_eq, Bool-cases,
  if◌then◌else◌, ◌==◌,
}
use play_apue.Db.Storage.{write_at}
use play_apue.Db.State.{Db, Counts, Which, done, without, bind_outcome, ◌>>=◌}
use play_apue.Db.Record.{ptr_sz, ptr_max}
use play_apue.Db.Record.Pointer.{ptr_at, at_idx, db_readptr_lem}
use play_apue.Db.Record.Index.{IndexRecord, IsSized}
use play_apue.Db.Record.Data.{line}
use play_apue.Db.Ops.{
  Flag, insert, replace, store, other, ok, db_store, store_locked, store_found, store_over,
  replace_other, append_record, valid_length, db_fetch, db_find_and_lock, db_dodelete, db_hash,
}
use play_apue.Db.Ops.Search.{chainoff_of, IsCurrent}
use play_apue.Db.Ops.Fetch.{Bucket, find_text, db_fetch-eq-find_text}
use play_apue.Db.Ops.Insert.{Behind, linked, Bucket-linked}
use play_apue.Db.Ops.Append.{new_record, append_record_lem}
use play_apue.Db.Ops.Replace.{Replaces}
use play_apue.Db.Ops.Relink.{relinked}
use play_apue.Db.Ops.Unlink.{unlinked}
use play_apue.Db.Ops.Delete.{
  blanks, Deletes, deleted, searched, deleted-Deletes, search_finds, searched-IsCurrent,
  db_dodelete-searched,
}
use play_apue.Db.Ops.Removed.{CanDelete, r_at, placed, small_ptr, Bucket-deleted, find_text-deleted}

abbrev pub count_stor3 : Counts → Counts
count_stor3 c = record c { cnt_stor3 = c.cnt_stor3 + 1 }

-- The structure at the end of the store.
abbrev ended : Db → Db
ended e = record e {
  counts = count_stor3 e.counts;
  locks = without Which.idxfd e.chainoff 1 e.locks;
}

store_over_end :
    (key text : Bytes) (flag : Flag) (d s e : Db)
    → Replaces flag
    → valid_length text ≡ true
    → db_find_and_lock key true d ≡ done true s
    → store_over key text s ≡ done tt (record e { counts = count_stor3 e.counts })
    → db_store key text flag d ≡ done ok (ended e)
unfolding db_store store_locked store_found
store_over_end key text replace d s e a v h k =
    rw (v, bind_outcome) (rw (h, bind_outcome) (rw (k, bind_outcome)))
store_over_end key text store d s e a v h k =
    rw (v, bind_outcome) (rw (h, bind_outcome) (rw (k, bind_outcome)))
store_over_end key text insert d s e a v h k = absurd a
store_over_end key text other d s e a v h k = absurd a

replace_other_lem :
    (key text : Bytes) (p : ℕ) (s u e : Db)
    → db_dodelete s ≡ done tt u
    → u.chainoff + ptr_sz ≤ length u.idxfd.bytes
    → u.chainoff < 2 ^ 63
    → ptr_at u.idxfd.bytes u.chainoff ≡ p
    → append_record key text p (at_idx (u.chainoff + ptr_sz) u) ≡ done tt e
    → replace_other key text s ≡ done tt (record e { counts = count_stor3 e.counts })
unfolding replace_other
replace_other_lem key text p s u e h fits small at k =
    rw (h, bind_outcome)
      (rw
        (
          db_readptr_lem u.chainoff u fits small
              ∙ ap (λ q. done q (at_idx (u.chainoff + ptr_sz) u)) at,
          bind_outcome,
        )
        (rw (k, bind_outcome) refl))

store_over_other :
    (key text : Bytes) (s : Db)
    → s.datlen ≢ length text + 1
    → store_over key text s ≡ replace_other key text s
unfolding store_over
store_over_other key text s h =
    let q : (length text + 1 == s.datlen) ≡ false = ground arith in rw q refl

Behind-relinked : (off p : ℕ) (xs : List IndexRecord) → Behind off xs → Behind off (relinked xs p)
Behind-relinked off p [] h = tt
Behind-relinked off p (x ∷ []) h = h
Behind-relinked off p (x ∷ y ∷ xs) (h, k) = (h, Behind-relinked off p (y ∷ xs) k)

-- The files after the record is deleted.
abbrev pub left_idx : Db → Bytes → List IndexRecord → IndexRecord → Bytes
left_idx d key xs r = unlinked d.idxfd.bytes (chainoff_of d key) xs r (blanks (length r.key))

abbrev pub left_dat : Db → IndexRecord → Bytes
left_dat d r = write_at r.datoff (line (blanks (r.datlen - 1))) d.datfd.bytes

-- The record that is appended to them.
abbrev pub moved_to : Db → Bytes → List IndexRecord → IndexRecord → Bytes → IndexRecord
moved_to d key xs r text =
    new_record (left_idx d key xs r) (left_dat d r) key text
      (ptr_at (left_idx d key xs r) (chainoff_of d key))

-- The text of the record `r` cannot be overwritten in place, and the files have room for another.
pub record CanMove (d : Db) (key text : Bytes) (xs : List IndexRecord) (r : IndexRecord)
    (zs : List IndexRecord) (us : List Bytes) (t : Bytes) (vs : List Bytes) (fs : List IndexRecord)
    : Type 0 where
  pub can_delete : CanDelete d key xs r zs us t vs fs
  pub valid : valid_length text ≡ true
  pub plain : Lacks 0 text
  pub other_size : r.datlen ≢ length text + 1
  pub sized : IsSized (moved_to d key xs r text)
  pub low : length (left_idx d key xs r) ≤ ptr_max

module _ (d : Db) (key text : Bytes) (xs : List IndexRecord) (r : IndexRecord)
    (zs : List IndexRecord) (us : List Bytes) (t : Bytes) (vs : List Bytes) (fs : List IndexRecord)
    (m : CanMove d key text xs r zs us t vs fs) where
  c : CanDelete d key xs r zs us t vs fs
  c = m.can_delete

  abbrev off : ℕ
  off = chainoff_of d key

  abbrev new : IndexRecord
  new = moved_to d key xs r text

  -- The chain after the store.
  Bucket-moved :
      Bucket
        (linked (left_idx d key xs r) off new)
        (write_at (length (left_dat d r)) (line text) (left_dat d r))
        off
        (new ∷ relinked xs r.ptrval ++ zs)
        (text ∷ us ++ vs)
  Bucket-moved =
      let b = Bucket-deleted d key xs r zs us t vs fs c in
      let P = λ (q : IndexRecord). off + ptr_sz ≤ q.off in
      let (l, (_, n)) = All-split P xs (r ∷ (zs ++ fs)) c.behind in
      Bucket-linked (left_idx d key xs r) (left_dat d r) text off new m.sized refl refl refl m.low
        b.fits m.plain (relinked xs r.ptrval ++ zs) (us ++ vs)
        (All-append P (relinked xs r.ptrval) zs (Behind-relinked off r.ptrval xs l)
          (All-split P zs fs n).0)
        refl b

  -- The store, with the chain that it leaves.
  db_store-moved :
      (flag : Flag)
      → Replaces flag
      → (e : Db) × (db_store key text flag d ≡ done ok e)
        × Bucket e.idxfd.bytes e.datfd.bytes off
            (new ∷ relinked xs r.ptrval ++ zs)
            (text ∷ us ++ vs)
        × ((k : Bytes) → chainoff_of e k ≡ chainoff_of d k)
        × (e.counts ≡ count_stor3 d.counts)
  db_store-moved flag a =
      let at = r_at d key xs r zs us t vs fs c in
      let place = placed d key xs r zs us t vs fs c in
      let small = small_ptr d key xs r zs us t vs fs c in
      let ts = us ++ t ∷ vs in
      let s : Db = searched key xs r zs (zs ++ fs) ts d c.bucket c.first c.has_key at place small in
      let cur : IsCurrent r s =
        searched-IsCurrent key xs r zs (zs ++ fs) ts d c.bucket c.first c.has_key at place small in
      let w : Deletes off xs r d (deleted s) =
        deleted-Deletes key xs r zs (zs ++ fs) ts d c.bucket c.first c.has_key at place small in
      let b = Bucket-deleted d key xs r zs us t vs fs c in
      let p = ptr_at (left_idx d key xs r) off in
      let u : Db = at_idx ((deleted s).chainoff + ptr_sz) (deleted s) in
      let (e, h, q) =
        append_record_lem (left_idx d key xs r) (left_dat d r) key text off p m.sized m.low
          c.bucket.small u w.new_idx w.new_dat w.at_chain in
      (
        ended e,
        store_over_end key text flag d s e a m.valid
            (search_finds key xs r zs (zs ++ fs) ts d c.bucket c.first c.has_key at place small)
            (store_over_other key text s (λ n. m.other_size (sym cur.cur_datlen ∙ n))
              ∙ replace_other_lem key text p s (deleted s) e
                  (db_dodelete-searched key xs r zs (zs ++ fs) ts d c.bucket c.first c.has_key at
                    place small)
                  (omega (arith, b.fits, w.at_chain, ap length w.new_idx))
                  (omega (arith, b.small, w.at_chain)) (ap₂ ptr_at w.new_idx w.at_chain) h),
        subst₂ (λ i x. Bucket i x off (new ∷ relinked xs r.ptrval ++ zs) (text ∷ us ++ vs))
            (sym q.new_idx) (sym q.new_dat) Bucket-moved,
        λ k.
            ap₂ (λ n o. db_hash n k * ptr_sz + o) (q.same_nhash ∙ w.same_nhash)
              (q.same_hashoff ∙ w.same_hashoff),
        ap count_stor3 (q.same_counts ∙ w.same_counts),
      )

  -- After a db_store (DB_REPLACE or DB_STORE) of a key whose first record shares no byte with
  -- another record of the chain or of the free list, with a text of another length than the old
  -- one, where the key has no ':' and neither it nor the text a null byte, and the text has 2 to
  -- 1024 bytes with its newline, and the files leave room for a new record, db_fetch of the key
  -- returns the new text, and db_fetch of another key of the same chain what the chain held
  -- before. The records are taken to stand behind the pointer of the chain, their texts in the
  -- data file apart from that of the old record, and their offsets to be at most PTR_MAX.
  pub db_fetch-db_store_moved :
      (k : Bytes) (flag : Flag)
      → Replaces flag
      → chainoff_of d k ≡ off
      → (g : Db) × ((db_store key text flag >>= λ _. db_fetch k) d
          ≡ done
              (if bytes_eq key k then some text else find_text k (xs ++ r ∷ zs) (us ++ t ∷ vs))
              g)
  db_fetch-db_store_moved k flag a same =
      let (e, h, b, chains, _) = db_store-moved flag a in
      let (g, q, _) =
        db_fetch-eq-find_text k (new ∷ relinked xs r.ptrval ++ zs) (text ∷ us ++ vs) e (
          subst
            (λ o.
              Bucket e.idxfd.bytes e.datfd.bytes o (new ∷ relinked xs r.ptrval ++ zs)
                (text ∷ us ++ vs))
            (sym (chains k ∙ same)) b) in
      (g, rw (h, bind_outcome) (q ∙ ap (λ o. done o g) result))
    where
      result :
          (if bytes_eq key k
            then some text
            else find_text k (relinked xs r.ptrval ++ zs) (us ++ vs))
          ≡ (if bytes_eq key k then some text else find_text k (xs ++ r ∷ zs) (us ++ t ∷ vs))
      result = elim (Bool-cases (bytes_eq key k)) [
        | inl y ↦ rw y refl
        | inr n ↦ rw n (find_text-deleted d key xs r zs us t vs fs c k n)
      ]
