-- ===== src/Db/Ops/Removed.antt =====
-- What `db_fetch` of apue.3e/db/db.c returns after a `db_delete`, and the free list after it.
use mathlib.Core.Path.{subst, subst₂, ap₂}
use play_apue.Prelude.{
  ℕ, ◌+◌, ◌-◌, ◌*◌, ◌^◌, ◌≤◌, ◌<◌, ◌≡◌, ap, sym, ◌∙◌, true, false, List, [], ◌∷◌, ◌++◌, arith,
  Bytes, length, length-replicate, inl, inr, All, All-append, All-split, bytes_eq, bytes_eq_sound,
  Bool-cases, if◌then◌else◌,
}
use play_apue.Db.Storage.{write_at}
use play_apue.Db.State.{Db, done, bind_outcome, ◌>>=◌}
use play_apue.Db.Record.{ptr_sz, ptr_max}
use play_apue.Db.Record.Pointer.{ptr_at}
use play_apue.Db.Record.Index.{IndexRecord, IsSized, RecordAt}
use play_apue.Db.Record.Data.{line}
use play_apue.Db.Ops.{db_delete, db_fetch, db_hash, free_off, space}
use play_apue.Db.Ops.Search.{chainoff_of}
use play_apue.Db.Ops.Chain.{Chain}
use play_apue.Db.Ops.Fetch.{Texts, Bucket, find_text, db_fetch-eq-find_text}
use play_apue.Db.Ops.Insert.{Behind}
use play_apue.Db.Ops.Replace.OneText.{ApartData, Texts-keep}
use play_apue.Db.Ops.Relink.{
  Separate, Chain-RecordAt, Chain-Links, chain_of_links, relinked, last_ptr, first_ptr,
  Links-relinked,
}
use play_apue.Db.Ops.Unlink.{
  freed, unlinked, IsPlaced, RecordAt-unlinked, RecordAt-freed, free-unlinked, ptr_at-unlinked,
  length-unlinked,
}
use play_apue.Db.Ops.Delete.{
  blanks, blanks-Lacks, blanked-IsSized, LacksKey, count_delok, Deletes, deleted, ended, searched,
  deleted-Deletes, db_delete_lem,
}
use play_apue.Db.Ops.Texts.{
  Texts-remove, Texts-relinked, find_text-relinked, find_text_behind, find_text-remove,
}

-- The chain of the key holds the record with it, and no other record of the chain or of the free list
-- shares bytes with it.
pub record CanDelete (d : Db) (key : Bytes) (xs : List IndexRecord) (r : IndexRecord)
    (zs : List IndexRecord) (us : List Bytes) (t : Bytes) (vs : List Bytes) (fs : List IndexRecord)
    : Type 0 where
  pub bucket : Bucket d.idxfd.bytes d.datfd.bytes (chainoff_of d key) (xs ++ r ∷ zs) (us ++ t ∷ vs)
  pub same_place : length us ≡ length xs
  pub has_key : r.key ≡ key
  pub first : LacksKey key xs
  pub free : Chain d.idxfd.bytes (ptr_at d.idxfd.bytes free_off) fs
  pub after_free : free_off + ptr_sz ≤ chainoff_of d key
  pub behind : Behind (chainoff_of d key) (xs ++ r ∷ (zs ++ fs))
  pub separate : Separate (xs ++ r ∷ (zs ++ fs))
  pub low : r.off ≤ ptr_max
  pub free_low : ptr_at d.idxfd.bytes free_off ≤ ptr_max
  pub elsewhere : All (ApartData r) (xs ++ zs)

module _ (d : Db) (key : Bytes) (xs : List IndexRecord) (r : IndexRecord) (zs : List IndexRecord)
    (us : List Bytes) (t : Bytes) (vs : List Bytes) (fs : List IndexRecord)
    (c : CanDelete d key xs r zs us t vs fs) where
  abbrev pub idx : Bytes
  idx = d.idxfd.bytes

  abbrev pub off : ℕ
  off = chainoff_of d key

  All-there : All (RecordAt idx) (xs ++ r ∷ (zs ++ fs))
  All-there =
      let h = Chain-RecordAt idx (ptr_at idx off) (xs ++ r ∷ zs) c.bucket.chain in
      let (l, (m, n)) = All-split (RecordAt idx) xs (r ∷ zs) h in
      All-append (RecordAt idx) xs (r ∷ (zs ++ fs)) l
        (m, All-append (RecordAt idx) zs fs n (Chain-RecordAt idx (ptr_at idx free_off) fs c.free))

  pub r_at : RecordAt idx r
  r_at = (All-split (RecordAt idx) xs (r ∷ (zs ++ fs)) All-there).1.0

  pub placed : IsPlaced idx off xs r (zs ++ fs)
  placed = record {
    fits = c.bucket.fits;
    after_free = c.after_free;
    behind = c.behind;
    separate = c.separate;
    there = All-there;
    low = c.low;
    free_low = c.free_low;
  }

  pub small_ptr : last_ptr off xs < 2 ^ 63
  small_ptr = go off xs c.bucket.small (All-split (RecordAt idx) xs (r ∷ (zs ++ fs)) All-there).0
    where
      go :
          (p : ℕ) (ys : List IndexRecord)
          → p < 2 ^ 63
          → All (RecordAt idx) ys
          → last_ptr p ys < 2 ^ 63
      go p [] h a = h
      go p (y ∷ ys) h (at, a) = go y.off ys at.sized.off_small a

  abbrev pub gone : IndexRecord
  gone = freed (ptr_at idx free_off) (blanks (length r.key)) r

  gone-IsSized : IsSized gone
  gone-IsSized = blanked-IsSized (ptr_at idx free_off) r c.free_low r_at.sized

  gone_size : length (blanks (length r.key)) ≡ length r.key
  gone_size = length-replicate (length r.key) space

  -- The chain without the record, the free list with it, and the texts of the others.
  pub record Removed (e : Db) : Type 0 where
    pub bucket : Bucket e.idxfd.bytes e.datfd.bytes off (relinked xs r.ptrval ++ zs) (us ++ vs)
    pub free : Chain e.idxfd.bytes (ptr_at e.idxfd.bytes free_off) (gone ∷ fs)
    pub same_chains : (k : Bytes) → chainoff_of e k ≡ chainoff_of d k
    pub counted : e.counts ≡ count_delok d.counts

  Texts-deleted :
      Texts
        (write_at r.datoff (line (blanks (r.datlen - 1))) d.datfd.bytes)
        (relinked xs r.ptrval ++ zs)
        (us ++ vs)
  Texts-deleted =
      let (h, at, n) = Texts-remove d.datfd.bytes xs r zs us t vs c.same_place c.bucket.texts in
      Texts-relinked (write_at r.datoff (line (blanks (r.datlen - 1))) d.datfd.bytes) xs r.ptrval zs
        (us ++ vs)
        (Texts-keep d.datfd.bytes key (blanks (r.datlen - 1)) r
          (blanks-Lacks (r.datlen - 1) 0 (omega arith))
          (omega (arith, length-replicate (r.datlen - 1) space)) (xs ++ zs) (us ++ vs) h c.elsewhere
          (omega (arith, at.inside)))

  abbrev pub idx' : Bytes
  idx' = unlinked idx off xs r (blanks (length r.key))

  Chain-deleted : Chain idx' (ptr_at idx' off) (relinked xs r.ptrval ++ zs)
  Chain-deleted =
      let k = blanks (length r.key) in
      let at = RecordAt-unlinked idx off xs r (zs ++ fs) k gone-IsSized gone_size placed in
      let (l, m) = All-split (RecordAt idx') (relinked xs r.ptrval) (zs ++ fs) at in
      subst (λ p. Chain idx' p (relinked xs r.ptrval ++ zs))
        (sym (ptr_at-unlinked idx off xs r (zs ++ fs) k gone-IsSized gone_size placed))
        (chain_of_links idx' (first_ptr (ptr_at idx off) xs r.ptrval) (relinked xs r.ptrval ++ zs)
          (All-append (RecordAt idx') (relinked xs r.ptrval) zs l
            (All-split (RecordAt idx') zs fs m).0)
          (Links-relinked (ptr_at idx off) xs r zs 0
            (Chain-Links idx (ptr_at idx off) (xs ++ r ∷ zs) c.bucket.chain)))

  free-deleted : Chain idx' (ptr_at idx' free_off) (gone ∷ fs)
  free-deleted =
      let k = blanks (length r.key) in
      let at = RecordAt-unlinked idx off xs r (zs ++ fs) k gone-IsSized gone_size placed in
      let (_, m) = All-split (RecordAt idx') (relinked xs r.ptrval) (zs ++ fs) at in
      (
        free-unlinked idx off xs r (zs ++ fs) k gone-IsSized gone_size placed,
        RecordAt-freed idx off xs r (zs ++ fs) k gone-IsSized gone_size placed,
        chain_of_links idx' (ptr_at idx free_off) fs (All-split (RecordAt idx') zs fs m).1
            (Chain-Links idx (ptr_at idx free_off) fs c.free),
      )

  pub Bucket-deleted :
      Bucket idx'
        (write_at r.datoff (line (blanks (r.datlen - 1))) d.datfd.bytes)
        off
        (relinked xs r.ptrval ++ zs)
        (us ++ vs)
  Bucket-deleted = record {
    fits = omega (
      arith,
      c.bucket.fits,
      length-unlinked idx off xs r (zs ++ fs) (blanks (length r.key)) gone-IsSized gone_size placed,
    );
    small = c.bucket.small;
    chain = Chain-deleted;
    texts = Texts-deleted;
  }

  -- Where records before it on the chain of a key lack the key and the next one has it, and its
  -- bytes and its text meet those of no other record of the chain or of the free list, and the
  -- records stand behind the pointer of the chain, db_delete returns 0, leaves the chain without
  -- the record and with the texts of the others, puts the record, blanked, at the head of the free
  -- list before those that were there, and counts cnt_delok.
  pub db_delete-Removed : (e : Db) × (db_delete key d ≡ done true e) × Removed e
  db_delete-Removed =
      let s : Db =
        searched key xs r zs (zs ++ fs) (us ++ t ∷ vs) d c.bucket c.first c.has_key r_at placed
          small_ptr in
      let w : Deletes off xs r d (deleted s) =
        deleted-Deletes key xs r zs (zs ++ fs) (us ++ t ∷ vs) d c.bucket c.first c.has_key r_at
          placed small_ptr in
      (
        ended s,
        db_delete_lem key xs r zs (zs ++ fs) (us ++ t ∷ vs) d c.bucket c.first c.has_key r_at placed
            small_ptr,
        record {
          bucket =
              subst₂ (λ i b. Bucket i b off (relinked xs r.ptrval ++ zs) (us ++ vs)) (sym w.new_idx)
                (sym w.new_dat) Bucket-deleted;
          free = subst (λ i. Chain i (ptr_at i free_off) (gone ∷ fs)) (sym w.new_idx) free-deleted;
          same_chains = λ k. ap₂ (λ n o. db_hash n k * ptr_sz + o) w.same_nhash w.same_hashoff;
          counted = ap count_delok w.same_counts;
        },
      )

  -- Of another key the chain holds what it held.
  pub find_text-deleted :
      (k : Bytes)
      → bytes_eq key k ≡ false
      → find_text k (relinked xs r.ptrval ++ zs) (us ++ vs)
        ≡ find_text k (xs ++ r ∷ zs) (us ++ t ∷ vs)
  find_text-deleted k q =
      find_text-relinked k xs r.ptrval zs (us ++ vs)
      ∙ find_text-remove k xs r zs us t vs c.same_place
          (subst (λ x. bytes_eq x k ≡ false) (sym c.has_key) q)

  find_text-deleted_same :
      (k : Bytes)
      → bytes_eq key k ≡ true
      → find_text k (relinked xs r.ptrval ++ zs) (us ++ vs) ≡ find_text k zs vs
  find_text-deleted_same k q =
      find_text-relinked k xs r.ptrval zs (us ++ vs)
      ∙ find_text_behind k xs zs us vs c.same_place
          (subst (λ x. LacksKey x xs) (bytes_eq_sound key k q) c.first)

  -- After such a db_delete (the record that has the key is the first on its chain and shares no
  -- byte with another record of the chain or of the free list), db_fetch of the key returns the
  -- text of the next record with it on the chain, or null if there is none, and db_fetch of
  -- another key of the same chain returns what the chain held before.
  pub db_fetch-db_delete :
      (k : Bytes)
      → chainoff_of d k ≡ off
      → (g : Db) × ((db_delete key >>= λ _. db_fetch k) d
          ≡ done
              (if bytes_eq key k
                then find_text k zs vs
                else find_text k (xs ++ r ∷ zs) (us ++ t ∷ vs))
              g)
  db_fetch-db_delete k same =
      let (e, h, w) = db_delete-Removed in
      let (g, q, _) = db_fetch-eq-find_text k (relinked xs r.ptrval ++ zs) (us ++ vs) e (
        subst (λ o. Bucket e.idxfd.bytes e.datfd.bytes o (relinked xs r.ptrval ++ zs) (us ++ vs))
          (sym (w.same_chains k ∙ same)) w.bucket) in
      (g, rw (h, bind_outcome) (q ∙ ap (λ o. done o g) result))
    where
      result : find_text k (relinked xs r.ptrval ++ zs) (us ++ vs) ≡ (
          if bytes_eq key k then find_text k zs vs else find_text k (xs ++ r ∷ zs) (us ++ t ∷ vs))
      result = elim (Bool-cases (bytes_eq key k)) [
        | inl q ↦ rw q (find_text-deleted_same k q)
        | inr q ↦ rw q (find_text-deleted k q)
      ]
