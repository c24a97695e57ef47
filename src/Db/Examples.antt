-- ===== src/Db/Examples.antt =====
-- Runs of the database of apue.3e/db/db.c after apue.3e/db/t4.c, and the theorems at a small database:
-- a hash table of one chain, and on it the record Alpha with the text data1.
mod Delete
mod Reuse
mod Sequence
use play_apue.Db.Ops.Replace.{CanReplace, db_fetch-db_store_overwritten}
use play_apue.Db.Ops.Chain.{Chain}
use play_apue.Db.Open.Fresh.{create_flags, db_fetch-db_open, created}
use play_apue.Db.Ops.Errors.{Refused, failing_calls}
use play_apue.Db.Ops.Insert.{Behind}
use play_apue.Db.Ops.Lookup.{
  CanAppend, Stores, added, db_store-Stores, db_fetch-db_store, db_fetch-db_store_other,
}
use mathlib.Core.Path.{subst}
use play_apue.Prelude.{
  bytes_eq, if◌then◌else◌, ◌<◌, ◌≡◌, refl, true, Option, [], ◌∷◌, ◌++◌, Bytes, codes, arith, ◌≢◌,
  sym, some, none, false,
}
use play_apue.Db.Ascii.{digits, digits_from, pad, atol, scan, skip_spaces, signed_scan}
use play_apue.Db.Ascii.RoundTrip.{atol-pad}
use play_apue.Db.Storage.{seek_set, read_at, lseek, read, write, write_at, overlay}
use play_apue.Db.State.{Db, done, M, ◌>>=◌, ◌>>◌, Outcome}
use play_apue.Db.Record.{
  index_text, index_header, db_readptr, db_writeptr, db_readidx, db_writeidx, db_readdat,
  db_writedat, read_body, parse_fields, split_at,
}
use play_apue.Db.Record.Pointer.{ptr_at}
use play_apue.Db.Record.Index.{IndexRecord, IsSized, RecordAt, loaded, stored}
use play_apue.Db.Record.RoundTrip.{db_readidx-db_writeidx}
use play_apue.Db.Ops.{
  Flag, db_store, db_fetch, db_delete, db_nextrec, db_hash, hash_from, db_find_and_lock, Stored,
  store_locked, store_found, store_new, store_over, store_append, store_reuse, replace_other,
  replace_same, db_dodelete, find_loop, db_findfree, findfree_loop, unlink_free,
}
use play_apue.Db.Ops.Search.{
  find_record, is_some, scanned, begun, chainoff_of, db_find_and_lock_lem,
}
use play_apue.Db.Ops.Fetch.{Bucket, find_text, Fetches, db_fetch-eq-find_text}
use play_apue.Db.Ops.Locks.{Released, calls-Released}
use play_apue.Db.Open.{db_alloc, db_open, pointer_table}

abbrev pub alpha : IndexRecord
alpha = record { off = 15; ptrval = 0; key = codes "Alpha"; datoff = 0; datlen = 6 }

abbrev pub sample : Db
sample =
    record (db_alloc (record { bytes = []; pos = 0 })
      (record { bytes = codes "data1" ++ 10 ∷ []; pos = 0 })) {
        idxfd = record {
          bytes = codes "      0     15" ++ 10 ∷ (codes "      0  10Alpha:0:6" ++ 10 ∷ []);
          pos = 15;
        };
        nhash = 1;
      }

pub alpha-IsSized : IsSized alpha
unfolding index_text digits digits_from
alpha-IsSized = omega arith

alpha-RecordAt : RecordAt sample.idxfd.bytes alpha
unfolding index_text index_header pad digits digits_from read_at
alpha-RecordAt = record { sized = alpha-IsSized; inside = omega arith; header = refl; text = refl }

sample-Bucket :
    Bucket sample.idxfd.bytes sample.datfd.bytes
      (chainoff_of sample (codes "Alpha"))
      (alpha ∷ [])
      (codes "data1" ∷ [])
unfolding db_hash hash_from ptr_at atol scan skip_spaces signed_scan read_at
sample-Bucket = record {
  fits = omega arith;
  small = omega arith;
  chain = (refl, alpha-RecordAt, refl);
  texts = (
    record { plain = omega arith; small = omega arith; inside = omega arith; same = refl },
    refl,
    tt,
  );
}

db_fetch-eq-find_text_example :
    (e : Db) × (db_fetch (codes "Alpha") sample
      ≡ done (find_text (codes "Alpha") (alpha ∷ []) (codes "data1" ∷ [])) e)
    × Fetches (find_text (codes "Alpha") (alpha ∷ []) (codes "data1" ∷ [])) sample e
db_fetch-eq-find_text_example =
    db_fetch-eq-find_text (codes "Alpha") (alpha ∷ []) (codes "data1" ∷ []) sample sample-Bucket

db_find_and_lock_example :
    db_find_and_lock (codes "Alpha") true sample
    ≡ done
        (is_some (find_record (codes "Alpha") (alpha ∷ [])))
        (scanned (codes "Alpha") (alpha ∷ []) (begun (codes "Alpha") true sample))
db_find_and_lock_example =
    db_find_and_lock_lem (codes "Alpha") true (alpha ∷ []) sample sample-Bucket.fits
      sample-Bucket.small sample-Bucket.chain

opened_sample : 0 < sample.hashoff
opened_sample = omega arith

unlocked_sample : sample.locks ≡ []
unlocked_sample = refl

calls-Released_example :
    Released (db_fetch (codes "beta") sample)
    × Released (db_delete (codes "beta") sample)
    × Released (db_store (codes "beta") (codes "Data for beta") Flag.insert sample)
    × Released (db_nextrec sample)
calls-Released_example =
    calls-Released sample (codes "beta") unlocked_sample opened_sample (codes "Data for beta")
      Flag.insert

abbrev pub beta : IndexRecord
beta = record { off = 36; ptrval = 15; key = codes "beta"; datoff = 6; datlen = 14 }

pub beta-IsSized : IsSized beta
unfolding index_text digits digits_from
beta-IsSized = omega arith

atol-pad_example : atol (pad 7 (digits 907) ++ codes ":6") ≡ 907
atol-pad_example = atol-pad 7 907 (codes ":6") (omega arith) refl

sample-CanReplace :
    CanReplace sample (codes "Alpha") (codes "DATA1") (alpha ∷ []) (codes "data1" ∷ []) alpha
unfolding db_hash hash_from
sample-CanReplace = record {
  valid = refl;
  plain = omega arith;
  bucket = sample-Bucket;
  present = refl;
  same_size = refl;
  elsewhere = tt;
}

one_chain : chainoff_of sample (codes "beta") ≡ chainoff_of sample (codes "Alpha")
unfolding db_hash hash_from
one_chain = refl

db_fetch-db_store_overwritten_example :
    (g : Db) × ((db_store (codes "Alpha") (codes "DATA1") Flag.replace >>= λ _.
    db_fetch (codes "beta"))
        sample
      ≡ done
          (if bytes_eq (codes "Alpha") (codes "beta")
            then some (codes "DATA1")
            else find_text (codes "beta") (alpha ∷ []) (codes "data1" ∷ []))
          g)
db_fetch-db_store_overwritten_example =
    db_fetch-db_store_overwritten (codes "beta") (codes "Alpha") (codes "DATA1") Flag.replace
      (alpha ∷ []) (codes "data1" ∷ []) alpha sample tt sample-CanReplace one_chain

empty_free_list : Chain sample.idxfd.bytes (ptr_at sample.idxfd.bytes 0) []
unfolding ptr_at atol scan skip_spaces signed_scan read_at
empty_free_list = refl

beta-added : added sample (codes "beta") (codes "Data for beta") ≡ beta
unfolding ptr_at atol scan skip_spaces signed_scan read_at db_hash hash_from
beta-added = refl

sample-CanAppend :
    CanAppend sample (codes "beta") (codes "Data for beta") (alpha ∷ []) (codes "data1" ∷ []) []
unfolding db_hash hash_from
sample-CanAppend = record {
  valid = refl;
  plain = omega arith;
  bucket = sample-Bucket;
  behind = omega arith;
  absent = refl;
  free = empty_free_list;
  no_fit = refl;
  sized = subst IsSized (sym beta-added) beta-IsSized;
  low = omega arith;
}

db_fetch-db_store_example :
    (g : Db) × ((db_store (codes "beta") (codes "Data for beta") Flag.insert >>= λ _.
    db_fetch (codes "beta"))
        sample
      ≡ done (some (codes "Data for beta")) g)
db_fetch-db_store_example =
    db_fetch-db_store (codes "beta") (codes "Data for beta") Flag.insert (alpha ∷ [])
      (codes "data1" ∷ []) [] sample tt sample-CanAppend

alpha_not_beta : codes "Alpha" ≢ codes "beta"
alpha_not_beta = λ e. ground arith

alpha-Behind : Behind (chainoff_of sample (codes "beta")) (alpha ∷ [])
unfolding db_hash hash_from
alpha-Behind = omega arith

db_fetch-db_store_other_example :
    (g : Db) × ((db_store (codes "beta") (codes "Data for beta") Flag.insert >>= λ _.
    db_fetch (codes "Alpha"))
        sample
      ≡ done (find_text (codes "Alpha") (alpha ∷ []) (codes "data1" ∷ [])) g)
db_fetch-db_store_other_example =
    db_fetch-db_store_other (codes "Alpha") (codes "beta") (codes "Data for beta") Flag.insert
      (alpha ∷ []) (codes "data1" ∷ []) [] (alpha ∷ []) (codes "data1" ∷ []) sample tt
      sample-CanAppend alpha_not_beta sample-Bucket alpha-Behind

beta-Bucket :
    Bucket sample.idxfd.bytes sample.datfd.bytes
      (chainoff_of sample (codes "beta"))
      (alpha ∷ [])
      (codes "data1" ∷ [])
beta-Bucket = sample-CanAppend.bucket

failing_calls_example :
    Refused
      (codes "beta")
      (alpha ∷ [])
      (codes "data1" ∷ [])
      sample
      beta-Bucket
      (codes "data2")
      (find_record (codes "beta") (alpha ∷ []))
failing_calls_example =
    failing_calls (codes "beta") (alpha ∷ []) (codes "data1" ∷ []) sample beta-Bucket
      (codes "data2") refl

db_fetch-db_open_example :
    (d : Db) × (e : Db) × (db_open create_flags none (some (codes "old")) ≡ some (done tt d))
    × (db_fetch (codes "Alpha") d ≡ done none e)
db_fetch-db_open_example = db_fetch-db_open none (some (codes "old")) (codes "Alpha")

-- The program t4, and then a fetch.
abbrev three : M (Option Bytes)
three = do
  _ ← db_store (codes "Alpha") (codes "data1") Flag.insert
  _ ← db_store (codes "beta") (codes "Data for beta") Flag.insert
  _ ← db_store (codes "gamma") (codes "record3") Flag.insert
  _ ← db_delete (codes "beta")
  _ ← db_store (codes "gamma") (codes "record39") Flag.replace
  db_fetch (codes "gamma")

abbrev result_of : {A : Type 0} → Outcome A → Option A
result_of (done a _) = some a
result_of _ = none

-- The record is stored, one of another key deleted, and the record replaced by a longer one.
t4_runs : result_of (three created) ≡ some (some (codes "record39"))
unfolding db_store store_locked store_found store_new store_over store_append store_reuse
    replace_other replace_same db_delete db_dodelete db_fetch db_find_and_lock find_loop db_findfree
    findfree_loop unlink_free db_hash hash_from db_readptr db_writeptr db_readidx read_body
    parse_fields split_at db_writeidx db_readdat db_writedat index_text index_header pad digits
    digits_from atol scan skip_spaces signed_scan lseek read write read_at write_at overlay
    pointer_table
t4_runs = refl
