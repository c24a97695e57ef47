-- ===== src/Db/Examples/Delete.antt =====
-- The deletion of apue.3e/db/db.c at two records on one chain: that of Alpha stands behind that of beta.
use play_apue.Prelude.{
  ◌≡◌, sym, length, refl, true, some, [], ◌∷◌, ◌++◌, ◌≤◌, codes, arith, inl, inr, if◌then◌else◌,
  bytes_eq,
}
use play_apue.Db.Ascii.{digits, digits_from, pad, atol, scan, skip_spaces, signed_scan}
use mathlib.Core.Path.{subst}
use play_apue.Db.Storage.{read_at, write_at, overlay}
use play_apue.Db.State.{Db, done, ◌>>=◌}
use play_apue.Db.Record.{index_text, index_header, ptr_max}
use play_apue.Db.Record.Pointer.{ptr_at, field}
use play_apue.Db.Record.Index.{IndexRecord, RecordAt, IsSized, record_bytes}
use play_apue.Db.Ops.{Flag, db_store, db_delete, db_fetch, db_hash, hash_from, free_off}
use play_apue.Db.Ops.Chain.{Chain}
use play_apue.Db.Ops.Search.{chainoff_of}
use play_apue.Db.Ops.Fetch.{Bucket, find_text}
use play_apue.Db.Ops.Removed.{CanDelete, Removed, db_delete-Removed, db_fetch-db_delete}
use play_apue.Db.Ops.Moved.{CanMove, moved_to, left_idx, db_fetch-db_store_moved}
use play_apue.Db.Examples.{alpha, beta, sample, alpha-IsSized, beta-IsSized}

abbrev pub pair : Db
pair = record sample {
  idxfd = record {
    bytes =
        codes "      0     36"
        ++ 10 ∷ (codes "      0  10Alpha:0:6" ++ 10 ∷ (codes "     15  10beta:6:14" ++ 10 ∷ []));
    pos = 15;
  };
  datfd = record { bytes = codes "data1" ++ 10 ∷ (codes "Data for beta" ++ 10 ∷ []); pos = 0 };
}

pub alpha_there : RecordAt pair.idxfd.bytes alpha
unfolding index_text index_header pad digits digits_from read_at
alpha_there = record { sized = alpha-IsSized; inside = omega arith; header = refl; text = refl }

pub beta_there : RecordAt pair.idxfd.bytes beta
unfolding index_text index_header pad digits digits_from read_at
beta_there = record { sized = beta-IsSized; inside = omega arith; header = refl; text = refl }

pair-Bucket :
    Bucket pair.idxfd.bytes pair.datfd.bytes
      (chainoff_of pair (codes "Alpha"))
      (beta ∷ alpha ∷ [])
      (codes "Data for beta" ∷ codes "data1" ∷ [])
unfolding db_hash hash_from ptr_at atol scan skip_spaces signed_scan read_at
pair-Bucket = record {
  fits = omega arith;
  small = omega arith;
  chain = (refl, beta_there, (refl, alpha_there, refl));
  texts = (
    record { plain = omega arith; small = omega arith; inside = omega arith; same = refl },
    refl,
    (
      record { plain = omega arith; small = omega arith; inside = omega arith; same = refl },
      refl,
      tt,
    ),
  );
}

no_free : Chain pair.idxfd.bytes (ptr_at pair.idxfd.bytes free_off) []
unfolding ptr_at atol scan skip_spaces signed_scan read_at
no_free = refl

pair-CanDelete :
    CanDelete pair
      (codes "Alpha")
      (beta ∷ [])
      alpha
      []
      (codes "Data for beta" ∷ [])
      (codes "data1")
      []
      []
unfolding db_hash hash_from index_text digits digits_from
pair-CanDelete = record {
  bucket = pair-Bucket;
  same_place = refl;
  has_key = refl;
  first = (refl, tt);
  free = no_free;
  after_free = omega arith;
  behind = (omega arith, (omega arith, tt));
  separate = ((inl (omega arith), tt), (tt, tt));
  low = omega arith;
  free_low = omega (arith, no_free);
  elsewhere = (inr (omega arith), tt);
}

db_delete-Removed_example :
    (e : Db) × (db_delete (codes "Alpha") pair ≡ done true e)
    × Removed pair
        (codes "Alpha")
        (beta ∷ [])
        alpha
        []
        (codes "Data for beta" ∷ [])
        (codes "data1")
        []
        []
        pair-CanDelete
        e
db_delete-Removed_example =
    db_delete-Removed pair (codes "Alpha") (beta ∷ []) alpha [] (codes "Data for beta" ∷ [])
      (codes "data1") [] [] pair-CanDelete

same_chain : chainoff_of pair (codes "beta") ≡ chainoff_of pair (codes "Alpha")
unfolding db_hash hash_from
same_chain = refl

db_fetch-db_delete_example :
    (g : Db) × ((db_delete (codes "Alpha") >>= λ _. db_fetch (codes "beta")) pair
      ≡ done
          (if bytes_eq (codes "Alpha") (codes "beta")
            then find_text (codes "beta") [] []
            else find_text
                (codes "beta")
                (beta ∷ alpha ∷ [])
                (codes "Data for beta" ∷ codes "data1" ∷ []))
          g)
db_fetch-db_delete_example =
    db_fetch-db_delete pair (codes "Alpha") (beta ∷ []) alpha [] (codes "Data for beta" ∷ [])
      (codes "data1") [] [] pair-CanDelete (codes "beta") same_chain

abbrev appended_alpha : IndexRecord
appended_alpha = record { off = 57; ptrval = 36; key = codes "Alpha"; datoff = 20; datlen = 7 }

appended_alpha-IsSized : IsSized appended_alpha
unfolding index_text digits digits_from
appended_alpha-IsSized = omega arith

alpha_moves : moved_to pair (codes "Alpha") (beta ∷ []) alpha (codes "data11") ≡ appended_alpha
unfolding db_hash hash_from ptr_at atol scan skip_spaces signed_scan read_at write_at overlay field
    pad record_bytes index_header index_text digits digits_from
alpha_moves = refl

left_small : length (left_idx pair (codes "Alpha") (beta ∷ []) alpha) ≤ ptr_max
unfolding db_hash hash_from ptr_at atol scan skip_spaces signed_scan read_at write_at overlay field
    pad record_bytes index_header index_text digits digits_from
left_small = omega arith

pair-CanMove :
    CanMove pair
      (codes "Alpha")
      (codes "data11")
      (beta ∷ [])
      alpha
      []
      (codes "Data for beta" ∷ [])
      (codes "data1")
      []
      []
pair-CanMove = record {
  can_delete = pair-CanDelete;
  valid = refl;
  plain = omega arith;
  other_size = omega arith;
  sized = subst IsSized (sym alpha_moves) appended_alpha-IsSized;
  low = left_small;
}

db_fetch-db_store_moved_example :
    (g : Db) × ((db_store (codes "Alpha") (codes "data11") Flag.replace >>= λ _.
    db_fetch (codes "beta"))
        pair
      ≡ done
          (if bytes_eq (codes "Alpha") (codes "beta")
            then some (codes "data11")
            else find_text
                (codes "beta")
                (beta ∷ alpha ∷ [])
                (codes "Data for beta" ∷ codes "data1" ∷ []))
          g)
db_fetch-db_store_moved_example =
    db_fetch-db_store_moved pair (codes "Alpha") (codes "data11") (beta ∷ []) alpha []
      (codes "Data for beta" ∷ []) (codes "data1") [] [] pair-CanMove (codes "beta") Flag.replace tt
      same_chain
