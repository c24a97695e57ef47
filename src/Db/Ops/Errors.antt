-- ===== src/Db/Ops/Errors.antt =====
-- The calls of apue.3e/db/db.c that fail: `db_store` of a key that is there or is not, `db_delete` of
-- one that is not. They leave both files as they were.
use play_apue.Prelude.{
  ◌+◌, ◌≡◌, refl, ap, ◌∙◌, true, false, List, none, some, Option, Option-cases, inl, inr, Bytes,
}
use play_apue.Db.State.{Db, Counts, Which, done, without, bind_outcome}
use play_apue.Db.Ops.{
  insert, replace, exists, no_entry, db_store, store_locked, store_found, valid_length, db_delete,
  db_find_and_lock,
}
use play_apue.Db.Ops.Search.{
  chainoff_of, find_record, is_some, scanned, begun, db_find_and_lock_lem, scanned-Found, Found,
}
use play_apue.Db.Record.Index.{IndexRecord}
use play_apue.Db.Ops.Fetch.{Bucket}

abbrev pub count_storerr : Counts → Counts
count_storerr c = record c { cnt_storerr = c.cnt_storerr + 1 }

abbrev pub count_delerr : Counts → Counts
count_delerr c = record c { cnt_delerr = c.cnt_delerr + 1 }

-- Both files are as before, and one counter has changed.
pub record Refuses (count : Counts → Counts) (c d : Db) : Type 0 where
  pub same_idx : d.idxfd.bytes ≡ c.idxfd.bytes
  pub same_dat : d.datfd.bytes ≡ c.datfd.bytes
  pub counted : d.counts ≡ count c.counts

abbrev failed : (Counts → Counts) → Db → Db
failed count s = record s {
  counts = count s.counts;
  locks = without Which.idxfd s.chainoff 1 s.locks;
}

failed-Refuses :
    (count : Counts → Counts) (key : Bytes) (rs : List IndexRecord) (d : Db)
    → Refuses count d (failed count (scanned key rs (begun key true d)))
failed-Refuses count key rs d =
    let f : Found key rs (chainoff_of d key) (begun key true d)
        (scanned key rs (begun key true d)) =
      scanned-Found key rs (begun key true d) in
    record {
      same_idx = f.same_idx;
      same_dat = ap (λ x. x.bytes) f.same_dat;
      counted = ap count f.same_counts;
    }

module _ (key : Bytes) (rs : List IndexRecord) (ts : List Bytes) (d : Db)
    (b : Bucket d.idxfd.bytes d.datfd.bytes (chainoff_of d key) rs ts) where
  abbrev after : Db
  after = scanned key rs (begun key true d)

  searched : db_find_and_lock key true d ≡ done (is_some (find_record key rs)) after
  searched = db_find_and_lock_lem key true rs d b.fits b.small b.chain

  db_store-insert_exists :
      (text : Bytes) (r : IndexRecord)
      → valid_length text ≡ true
      → find_record key rs ≡ some r
      → (e : Db) × (db_store key text insert d ≡ done exists e) × Refuses count_storerr d e
  unfolding db_store store_locked store_found
  db_store-insert_exists text r v present = (
    failed count_storerr after,
    rw (v, bind_outcome)
        (rw (searched ∙ ap (λ o. done (is_some o) after) present, bind_outcome) refl),
    failed-Refuses count_storerr key rs d,
  )

  db_store-replace_absent :
      (text : Bytes)
      → valid_length text ≡ true
      → find_record key rs ≡ none
      → (e : Db) × (db_store key text replace d ≡ done no_entry e) × Refuses count_storerr d e
  unfolding db_store store_locked store_found
  db_store-replace_absent text v absent = (
    failed count_storerr after,
    rw (v, bind_outcome)
        (rw (searched ∙ ap (λ o. done (is_some o) after) absent, bind_outcome) refl),
    failed-Refuses count_storerr key rs d,
  )

  db_delete_absent :
      find_record key rs ≡ none
      → (e : Db) × (db_delete key d ≡ done false e) × Refuses count_delerr d e
  unfolding db_delete
  db_delete_absent absent = (
    failed count_delerr after,
    rw (searched ∙ ap (λ o. done (is_some o) after) absent, bind_outcome) refl,
    failed-Refuses count_delerr key rs d,
  )

  -- The calls that fail, by what the chain holds of the key.
  abbrev pub Refused : Bytes → Option IndexRecord → Type 0
  Refused text (some r) =
      (e : Db) × (db_store key text insert d ≡ done exists e) × Refuses count_storerr d e
  Refused text none =
      ((e : Db) × (db_store key text replace d ≡ done no_entry e) × Refuses count_storerr d e)
      × ((e : Db) × (db_delete key d ≡ done false e) × Refuses count_delerr d e)

  -- Where the chain of a key holds index records whose texts stand in the data file, and the text
  -- given to db_store has 2 to 1024 bytes with its newline: if one of the records has the key,
  -- db_store with DB_INSERT returns 1 and counts cnt_storerr; if none has it, db_store with
  -- DB_REPLACE fails with ENOENT and counts cnt_storerr, and db_delete returns -1 and counts
  -- cnt_delerr. None of these changes a file.
  pub failing_calls : (text : Bytes) → valid_length text ≡ true → Refused text (find_record key rs)
  failing_calls text v = elim (Option-cases (find_record key rs)) [
    | inl absent ↦ rw absent (db_store-replace_absent text v absent, db_delete_absent absent)
    | inr (r, present) ↦ rw present (db_store-insert_exists text r v present)
  ]
