-- ===== src/Db/Ops/Chain.antt =====
-- The chains of apue.3e/db/db.c: the records that follow one another from a pointer. A chain that
-- ends has no more records than the index file has bytes.
use play_apue.Db.Storage.{read_at}
use play_apue.Prelude.{
  ℕ, suc, ◌≤◌, ◌<◌, ◌≡◌, ◌≢◌, refl, ap, sym, ◌∙◌, List, [], ◌∷◌, arith, Bytes, All, Distinct,
  length, length-Distinct, take,
}
use play_apue.Db.Ascii.{atol}
use play_apue.Db.Record.{ptr_sz}
use play_apue.Db.Record.Index.{IndexRecord, RecordAt, text_of, header_sz, header-ptr}

-- The chain from a pointer is the list of records.
abbrev pub Chain : Bytes → ℕ → List IndexRecord → Type 0
Chain bs p [] = p ≡ 0
Chain bs p (r ∷ rs) = (p ≡ r.off) × RecordAt bs r × Chain bs r.ptrval rs

-- The pointer in a record is determined by the file.
ptrval_unique :
    (bs : Bytes) (r s : IndexRecord)
    → r.off ≡ s.off
    → RecordAt bs r
    → RecordAt bs s
    → r.ptrval ≡ s.ptrval
ptrval_unique bs r s e ar as' =
    let rz = ar.sized in
    let sz = as'.sized in
    sym (header-ptr r.ptrval (length (text_of r)) rz.ptr_fits rz.idxlen_most)
    ∙ ap (λ h. atol (take ptr_sz h))
        (sym ar.header ∙ ap (λ o. read_at header_sz o bs) e ∙ as'.header)
    ∙ header-ptr s.ptrval (length (text_of s)) sz.ptr_fits sz.idxlen_most

-- So is the number of records from a pointer on.
length_unique :
    (bs : Bytes) (p q : ℕ) (rs ss : List IndexRecord)
    → p ≡ q
    → Chain bs p rs
    → Chain bs q ss
    → length rs ≡ length ss
length_unique bs p q [] [] e c d = refl
length_unique bs p q [] (s ∷ ss) e c (f, as', d) = absurd (omega (arith, as'.sized.off_pos))
length_unique bs p q (r ∷ rs) [] e (f, ar, c) d = absurd (omega (arith, ar.sized.off_pos))
length_unique bs p q (r ∷ rs) (s ∷ ss) e (f, ar, c) (g, as', d) =
    let same : r.off ≡ s.off = omega arith in
    ap suc (length_unique bs r.ptrval s.ptrval rs ss (ptrval_unique bs r s same ar as') c d)

abbrev offsets : List IndexRecord → List ℕ
offsets [] = []
offsets (r ∷ rs) = r.off ∷ offsets rs

length-offsets : (rs : List IndexRecord) → length (offsets rs) ≡ length rs
length-offsets [] = refl
length-offsets (r ∷ rs) = ap suc (length-offsets rs)

-- No record further down a chain stands where a longer chain begins.
absent :
    (bs : Bytes) (p q : ℕ) (rs ss : List IndexRecord)
    → Chain bs p rs
    → Chain bs q ss
    → length ss < length rs
    → All (λ o. o ≢ p) (offsets ss)
absent bs p q rs [] c d h = tt
absent bs p q rs (s ∷ ss) c (g, as', d) h = (
  λ e. absurd (omega (arith, length_unique bs p s.off rs (s ∷ ss) (sym e) c (refl, as', d))),
  absent bs p s.ptrval rs ss c d (omega arith),
)

offsets-Distinct :
    (bs : Bytes) (p : ℕ) (rs : List IndexRecord) → Chain bs p rs → Distinct (offsets rs)
offsets-Distinct bs p [] c = tt
offsets-Distinct bs p (r ∷ rs) (e, ar, c) = (
  absent bs r.off r.ptrval (r ∷ rs) rs (refl, ar, c) c (omega arith),
  offsets-Distinct bs r.ptrval rs c,
)

offsets-below :
    (bs : Bytes) (p : ℕ) (rs : List IndexRecord)
    → Chain bs p rs
    → All (λ o. o < length bs) (offsets rs)
offsets-below bs p [] c = tt
offsets-below bs p (r ∷ rs) (e, ar, c) = (omega (arith, ar.inside), offsets-below bs r.ptrval rs c)

pub length-Chain :
    (bs : Bytes) (p : ℕ) (rs : List IndexRecord) → Chain bs p rs → length rs ≤ length bs
length-Chain bs p rs c = omega (
  arith,
  length-offsets rs,
  length-Distinct (length bs) (offsets rs) (offsets-below bs p rs c) (offsets-Distinct bs p rs c),
)
