-- ===== src/Db/Examples/Sequence.antt =====
-- The sequence of the records of apue.3e/db/db.c at two records.
use play_apue.Prelude.{◌≡◌, refl, [], ◌∷◌, codes, arith}
use play_apue.Db.Storage.{read_at}
use play_apue.Db.State.{Db, done}
use play_apue.Db.Ops.{db_nextrec}
use play_apue.Db.Ops.Fetch.{Texts}
use play_apue.Db.Ops.Sequence.{Laid, next_text, Passes, db_nextrec-eq-next_text}
use play_apue.Db.Record.{index_text}
use play_apue.Db.Ascii.{digits, digits_from}
use play_apue.Db.Examples.{alpha, beta}
use play_apue.Db.Examples.Delete.{pair, alpha_there, beta_there}

pair-Laid : Laid pair.idxfd.bytes pair.idxfd.pos (alpha ∷ beta ∷ [])
unfolding index_text digits digits_from
pair-Laid = (refl, alpha_there, (refl, beta_there, refl))

pair-Texts : Texts pair.datfd.bytes (alpha ∷ beta ∷ []) (codes "data1" ∷ codes "Data for beta" ∷ [])
unfolding read_at
pair-Texts = (
  record { plain = omega arith; small = omega arith; inside = omega arith; same = refl },
  refl,
  (
    record { plain = omega arith; small = omega arith; inside = omega arith; same = refl },
    refl,
    tt,
  ),
)

db_nextrec-eq-next_text_example :
    (e : Db) × (db_nextrec pair
      ≡ done (next_text (alpha ∷ beta ∷ []) (codes "data1" ∷ codes "Data for beta" ∷ [])) e)
    × Passes
        (alpha ∷ beta ∷ [])
        (next_text (alpha ∷ beta ∷ []) (codes "data1" ∷ codes "Data for beta" ∷ []))
        pair
        e
db_nextrec-eq-next_text_example =
    db_nextrec-eq-next_text (alpha ∷ beta ∷ []) (codes "data1" ∷ codes "Data for beta" ∷ []) pair
      pair-Laid pair-Texts (omega arith)
