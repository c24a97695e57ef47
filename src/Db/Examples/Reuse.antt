-- ===== src/Db/Examples/Reuse.antt =====
-- The reuse of a free record of apue.3e/db/db.c: two blanked records are on the free list, the second of
-- which has the sizes of the new one, and beta is on the chain.

use play_apue.Prelude.{◌≡◌, refl, [], ◌∷◌, ◌++◌, codes, arith, inl, inr}
use play_apue.Db.Ascii.{digits, digits_from, pad, atol, scan, skip_spaces, signed_scan}
use play_apue.Db.Storage.{read_at}
use play_apue.Db.State.{Db, done}
use play_apue.Db.Record.{index_text, index_header}
use play_apue.Db.Record.Pointer.{ptr_at}
use play_apue.Db.Record.Index.{IndexRecord, IsSized, RecordAt}
use play_apue.Db.Ops.{Flag, Stored, db_store, db_hash, hash_from, free_off}
use play_apue.Db.Ops.Chain.{Chain}
use play_apue.Db.Ops.Search.{chainoff_of}
use play_apue.Db.Ops.Fetch.{Bucket}
use play_apue.Db.Ops.Reused.{CanReuse, Reused, db_store-Reused}
use play_apue.Db.Examples.{sample}

abbrev small : IndexRecord
small = record { off = 56; ptrval = 15; key = codes "   "; datoff = 20; datlen = 6 }

abbrev blank : IndexRecord
blank = record { off = 15; ptrval = 0; key = codes "     "; datoff = 0; datlen = 6 }

abbrev beta : IndexRecord
beta = record { off = 36; ptrval = 0; key = codes "beta"; datoff = 6; datlen = 7 }

-- The index and the data file.
abbrev freed_pair : Db
freed_pair = record sample {
  idxfd = record {
    bytes =
        codes "     56     36"
        ++ 10
          ∷ (codes "      0  10     :0:6"
              ++ 10
                ∷ (codes "      0   9beta:6:7" ++ 10 ∷ (codes "     15   9   :20:6" ++ 10 ∷ [])));
    pos = 15;
  };
  datfd = record {
    bytes = codes "     " ++ 10 ∷ (codes "gamma8" ++ 10 ∷ (codes "0123456     " ++ 10 ∷ []));
    pos = 0;
  };
}

small-IsSized : IsSized small
unfolding index_text digits digits_from
small-IsSized = omega arith

blank-IsSized : IsSized blank
unfolding index_text digits digits_from
blank-IsSized = omega arith

beta-IsSized : IsSized beta
unfolding index_text digits digits_from
beta-IsSized = omega arith

small_there : RecordAt freed_pair.idxfd.bytes small
unfolding index_text index_header pad digits digits_from read_at
small_there = record { sized = small-IsSized; inside = omega arith; header = refl; text = refl }

blank_there : RecordAt freed_pair.idxfd.bytes blank
unfolding index_text index_header pad digits digits_from read_at
blank_there = record { sized = blank-IsSized; inside = omega arith; header = refl; text = refl }

beta_there : RecordAt freed_pair.idxfd.bytes beta
unfolding index_text index_header pad digits digits_from read_at
beta_there = record { sized = beta-IsSized; inside = omega arith; header = refl; text = refl }

beta-Bucket :
    Bucket freed_pair.idxfd.bytes freed_pair.datfd.bytes
      (chainoff_of freed_pair (codes "delta"))
      (beta ∷ [])
      (codes "gamma8" ∷ [])
unfolding db_hash hash_from ptr_at atol scan skip_spaces signed_scan read_at
beta-Bucket = record {
  fits = omega arith;
  small = omega arith;
  chain = (refl, beta_there, refl);
  texts = (
    record { plain = omega arith; small = omega arith; inside = omega arith; same = refl },
    refl,
    tt,
  );
}

two_free :
    Chain freed_pair.idxfd.bytes (ptr_at freed_pair.idxfd.bytes free_off) (small ∷ blank ∷ [])
unfolding ptr_at atol scan skip_spaces signed_scan read_at
two_free = (refl, small_there, (refl, blank_there, refl))

head_at : ptr_at freed_pair.idxfd.bytes (chainoff_of freed_pair (codes "delta")) ≡ 36
unfolding db_hash hash_from ptr_at atol scan skip_spaces signed_scan read_at
head_at = refl

freed_pair-CanReuse :
    CanReuse freed_pair
      (codes "delta")
      (codes "data9")
      (beta ∷ [])
      (codes "gamma8" ∷ [])
      (small ∷ [])
      blank
      []
unfolding db_hash hash_from index_text digits digits_from
freed_pair-CanReuse = record {
  valid = refl;
  plain = omega arith;
  key_plain = omega arith;
  key_string = omega arith;
  bucket = beta-Bucket;
  absent = refl;
  free = two_free;
  first = (refl, tt);
  key_fits = refl;
  text_fits = refl;
  after_free = omega arith;
  behind = (omega arith, (omega arith, (omega arith, tt)));
  separate = ((inl (omega arith), (inl (omega arith), tt)), ((inr (omega arith), tt), (tt, tt)));
  low = omega arith;
  head_low = omega (arith, head_at);
  room = omega arith;
  elsewhere = (inr (omega arith), tt);
}

db_store-Reused_example :
    (e : Db) × (db_store (codes "delta") (codes "data9") Flag.insert freed_pair ≡ done Stored.ok e)
    × Reused freed_pair
        (codes "delta")
        (codes "data9")
        (beta ∷ [])
        (codes "gamma8" ∷ [])
        (small ∷ [])
        blank
        []
        freed_pair-CanReuse
        e
db_store-Reused_example =
    db_store-Reused freed_pair (codes "delta") (codes "data9") (beta ∷ []) (codes "gamma8" ∷ [])
      (small ∷ []) blank [] freed_pair-CanReuse Flag.insert tt
