-- ===== src/Db/Ops/Replace/OneText.antt =====
-- The texts of a chain of apue.3e/db/db.c where one of them is overwritten in the data file.

use play_apue.Db.Ascii.{long_max}
use play_apue.Prelude.{
  ◌+◌, ◌≤◌, ◌≡◌, refl, ap, sym, ◌∙◌, List, [], ◌∷◌, some, arith, Bytes, length, Lacks, All, inl,
  inr, bytes_eq, Bool-cases, if◌then◌else◌,
}
use mathlib.Core.Path.{subst, subst₂}
use play_apue.Db.Storage.{write_at}
use play_apue.Db.Storage.Laws.{Apart}
use play_apue.Db.Record.Index.{IndexRecord}
use play_apue.Db.Record.Data.{DataAt, DataAt-write_at, DataAt-write_at-Apart, line, length-line}
use play_apue.Db.Ops.Search.{find_record}
use play_apue.Db.Ops.Fetch.{Texts, find_text}

-- The texts with that of the first record with the key replaced.
abbrev pub replace_text : Bytes → Bytes → List IndexRecord → List Bytes → List Bytes
replace_text key text (r ∷ rs) (t ∷ ts) =
    if bytes_eq r.key key then text ∷ ts else t ∷ replace_text key text rs ts
replace_text key text _ ts = ts

-- The texts of two records do not meet.
abbrev pub ApartData : IndexRecord → IndexRecord → Type 0
ApartData r s = Apart s.datoff s.datlen r.datoff r.datlen

-- The texts of the other records stand elsewhere than that of the first with the key, `r`.
abbrev pub Elsewhere : Bytes → IndexRecord → List IndexRecord → Type 0
Elsewhere key r [] = Unit
Elsewhere key r (s ∷ rs) =
    if bytes_eq s.key key then All (ApartData r) rs else ApartData r s × Elsewhere key r rs

module _ (dat key text : Bytes) (r : IndexRecord) (plain : Lacks 0 text)
    (len : r.datlen ≡ length text + 1) where
  abbrev dat' : Bytes
  dat' = write_at r.datoff (line text) dat

  data_kept :
      (s : IndexRecord) (t : Bytes)
      → DataAt dat s.datoff t
      → s.datlen ≡ length t + 1
      → ApartData r s
      → r.datoff ≤ length dat
      → DataAt dat' s.datoff t
  data_kept s t at e apart fits =
      DataAt-write_at-Apart s.datoff t r.datoff (line text) dat at
        (subst₂ (λ n m. Apart s.datoff n r.datoff m) e (len ∙ sym (length-line text)) apart) fits

  pub Texts-keep :
      (rs : List IndexRecord) (ts : List Bytes)
      → Texts dat rs ts
      → All (ApartData r) rs
      → r.datoff ≤ length dat
      → Texts dat' rs ts
  Texts-keep [] [] h a fits = tt
  Texts-keep [] (t ∷ ts) h a fits = h
  Texts-keep (s ∷ rs) [] h a fits = h
  Texts-keep (s ∷ rs) (t ∷ ts) (at, e, h) (a, as') fits =
      (data_kept s t at e a fits, e, Texts-keep rs ts h as' fits)

  pub Texts-replace_text :
      (rs : List IndexRecord) (ts : List Bytes)
      → Texts dat rs ts
      → find_record key rs ≡ some r
      → Elsewhere key r rs
      → r.datoff ≤ length dat
      → Texts dat' rs (replace_text key text rs ts)
  Texts-replace_text [] ts h found a fits = absurd (cc)
  Texts-replace_text (s ∷ rs) [] h found a fits = h
  Texts-replace_text (s ∷ rs) (t ∷ ts) (at, e, h) found a fits =
      elim (Bool-cases (bytes_eq s.key key)) [
        | inl q ↦
            let found' : some s ≡ some r = rw q at found in
            let same : s ≡ r = cc in
            rw q (
              subst (λ x. DataAt dat' x.datoff text) (sym same)
                  (DataAt-write_at r.datoff text dat plain
                    (subst (λ x. DataAt dat x.datoff t) same at).small fits),
              ap (λ x. x.datlen) same ∙ len,
              Texts-keep rs ts h (rw q at a) fits,
            )
        | inr q ↦
            let a' : ApartData r s × Elsewhere key r rs = rw q at a in
            rw q (
              data_kept s t at e a'.0 fits,
              e,
              Texts-replace_text rs ts h (rw q at found) a'.1 fits,
            )
      ]

pub find_text-replace_text :
    (key text dat : Bytes) (rs : List IndexRecord) (ts : List Bytes) (r : IndexRecord)
    → Texts dat rs ts
    → find_record key rs ≡ some r
    → find_text key rs (replace_text key text rs ts) ≡ some text
find_text-replace_text key text dat [] ts r h found = absurd (cc)
find_text-replace_text key text dat (s ∷ rs) [] r h found = absurd h
find_text-replace_text key text dat (s ∷ rs) (t ∷ ts) r (at, e, h) found =
    elim (Bool-cases (bytes_eq s.key key)) [
      | inl q ↦ rw q (rw q refl)
      | inr q ↦ rw q (rw q (find_text-replace_text key text dat rs ts r h (rw q at found)))
    ]

pub data_within :
    (key dat : Bytes) (rs : List IndexRecord) (ts : List Bytes) (r : IndexRecord)
    → Texts dat rs ts
    → find_record key rs ≡ some r
    → (r.datoff + 1 ≤ length dat) × (r.datoff ≤ long_max)
data_within key dat [] ts r h found = absurd (cc)
data_within key dat (s ∷ rs) [] r h found = absurd h
data_within key dat (s ∷ rs) (t ∷ ts) r (at, e, h) found = elim (Bool-cases (bytes_eq s.key key)) [
  | inl q ↦
      let found' : some s ≡ some r = rw q at found in
      let same : s ≡ r = cc in
      let o : s.datoff ≡ r.datoff = ap (λ x. x.datoff) same in omega (arith, at.inside, at.small)
  | inr q ↦ data_within key dat rs ts r h (rw q at found)
]
