-- ===== src/Db/Ops/Fetch.antt =====
-- `db_fetch` of apue.3e/db/db.c against the list of the records on the key's chain.

use mathlib.Core.Path.{subst, subst₂}
use play_apue.Prelude.{
  ℕ, ◌+◌, ◌^◌, ◌≤◌, ◌<◌, ◌≡◌, refl, ap, sym, ◌∙◌, true, false, List, [], ◌∷◌, Option, none, some,
  arith, Bytes, length, Option-cases, inl, inr, bytes_eq, if◌then◌else◌, Bool-cases,
}
use play_apue.Db.State.{Db, Which, Counts, done, without, bind_outcome}
use play_apue.Db.Record.{ptr_sz, db_readdat}
use play_apue.Db.Record.Pointer.{ptr_at}
use play_apue.Db.Record.Index.{IndexRecord}
use play_apue.Db.Record.Data.{DataAt, db_readdat_lem, fetched}
use play_apue.Db.Ops.{db_fetch, db_find_and_lock}
use play_apue.Db.Ops.Chain.{Chain}
use play_apue.Db.Ops.Search.{
  find_record, is_some, scanned, begun, chainoff_of, db_find_and_lock_lem, scanned-Found,
  scanned-IsCurrent, Found, IsCurrent,
}

-- The data file holds a text for each record.
abbrev pub Texts : Bytes → List IndexRecord → List Bytes → Type 0
Texts dat [] [] = Unit
Texts dat (r ∷ rs) (t ∷ ts) = DataAt dat r.datoff t × (r.datlen ≡ length t + 1) × Texts dat rs ts
Texts dat [] (t ∷ ts) = ⊥
Texts dat (r ∷ rs) [] = ⊥

-- The chain whose pointer stands at `off` holds the records, with their texts.
pub record Bucket (idx dat : Bytes) (off : ℕ) (rs : List IndexRecord) (ts : List Bytes)
    : Type 0 where
  pub fits : off + ptr_sz ≤ length idx
  pub small : off < 2 ^ 63
  pub chain : Chain idx (ptr_at idx off) rs
  pub texts : Texts dat rs ts

-- The text of the first record with the key.
abbrev pub find_text : Bytes → List IndexRecord → List Bytes → Option Bytes
find_text key (r ∷ rs) (t ∷ ts) = if bytes_eq r.key key then some t else find_text key rs ts
find_text key _ _ = none

pub find_text-none :
    (key dat : Bytes) (rs : List IndexRecord) (ts : List Bytes)
    → Texts dat rs ts
    → find_record key rs ≡ none
    → find_text key rs ts ≡ none
find_text-none key dat [] [] h e = refl
find_text-none key dat [] (t ∷ ts) h e = refl
find_text-none key dat (r ∷ rs) [] h e = refl
find_text-none key dat (r ∷ rs) (t ∷ ts) (a, b, h) e =
    ground (arith, find_text-none key dat rs ts h)

find_text-some :
    (key dat : Bytes) (rs : List IndexRecord) (ts : List Bytes) (r : IndexRecord)
    → Texts dat rs ts
    → find_record key rs ≡ some r
    → (t : Bytes) × (find_text key rs ts ≡ some t)
      × DataAt dat r.datoff t
      × (r.datlen ≡ length t + 1)
find_text-some key dat [] ts r h e = absurd (cc)
find_text-some key dat (s ∷ rs) [] r h e = absurd h
find_text-some key dat (s ∷ rs) (t ∷ ts) r (a, b, h) e = elim (Bool-cases (bytes_eq s.key key)) [
  | inl q ↦
      let e' : some s ≡ some r = rw q at e in
      let same : s ≡ r = cc in
      rw q (
        t,
        refl,
        subst (λ x. DataAt dat x.datoff t) same a,
        subst (λ x. x.datlen ≡ length t + 1) same b,
      )
  | inr q ↦ rw q (find_text-some key dat rs ts r h (rw q at e))
]

abbrev pub fetch_counts : Option Bytes → Counts → Counts
fetch_counts none c = record c { cnt_fetcherr = c.cnt_fetcherr + 1 }
fetch_counts (some t) c = record c { cnt_fetchok = c.cnt_fetchok + 1 }

-- A fetch changes neither file, and counts its result.
pub record Fetches (result : Option Bytes) (c d : Db) : Type 0 where
  pub same_idx : d.idxfd.bytes ≡ c.idxfd.bytes
  pub same_dat : d.datfd.bytes ≡ c.datfd.bytes
  pub same_hashoff : d.hashoff ≡ c.hashoff
  pub same_nhash : d.nhash ≡ c.nhash
  pub counted : d.counts ≡ fetch_counts result c.counts

-- The structure at the end of a fetch.
abbrev fetch_end : Option Bytes → Db → Db
fetch_end result s = record s {
  counts = fetch_counts result s.counts;
  locks = without Which.idxfd s.chainoff 1 s.locks;
}

fetch_absent :
    (key : Bytes) (d s : Db)
    → db_find_and_lock key false d ≡ done false s
    → db_fetch key d ≡ done none (fetch_end none s)
unfolding db_fetch
fetch_absent key d s h = rw (h, bind_outcome)

fetch_present :
    (key t : Bytes) (d s e : Db)
    → db_find_and_lock key false d ≡ done true s
    → db_readdat s ≡ done t e
    → db_fetch key d ≡ done (some t) (fetch_end (some t) e)
unfolding db_fetch
fetch_present key t d s e h k = rw (h, bind_outcome) (rw (k, bind_outcome))

searched :
    (key : Bytes) (rs : List IndexRecord) (ts : List Bytes) (d : Db)
    → Bucket d.idxfd.bytes d.datfd.bytes (chainoff_of d key) rs ts
    → db_find_and_lock key false d
      ≡ done (is_some (find_record key rs)) (scanned key rs (begun key false d))
searched key rs ts d b = db_find_and_lock_lem key false rs d b.fits b.small b.chain

moved :
    {key : Bytes} {rs : List IndexRecord} {p : ℕ} {c s : Db} {r : IndexRecord} {t : Bytes}
    → IsCurrent r s
    → Found key rs p c s
    → DataAt c.datfd.bytes r.datoff t
    → DataAt s.datfd.bytes s.datoff t
moved {t = t} cur f at =
    subst₂ (λ b o. DataAt b o t) (sym (ap (λ x. x.bytes) f.same_dat)) (sym cur.cur_datoff) at

-- Where the chain of a key holds index records whose texts stand in the data file, db_fetch ends
-- and returns the text of the first record with the key, or null if there is none; neither file
-- changes, and the matching counter goes up by one.
pub db_fetch-eq-find_text :
    (key : Bytes) (rs : List IndexRecord) (ts : List Bytes) (d : Db)
    → Bucket d.idxfd.bytes d.datfd.bytes (chainoff_of d key) rs ts
    → (e : Db) × (db_fetch key d ≡ done (find_text key rs ts) e) × Fetches (find_text key rs ts) d e
db_fetch-eq-find_text key rs ts d b =
    let s = scanned key rs (begun key false d) in
    let f : Found key rs (chainoff_of d key) (begun key false d) s =
      scanned-Found key rs (begun key false d) in
    elim (Option-cases (find_record key rs)) [
      | inl absent ↦ rw (find_text-none key d.datfd.bytes rs ts b.texts absent) (
        fetch_end none s,
        fetch_absent key d s (searched key rs ts d b ∙ ap (λ o. done (is_some o) s) absent),
        ground arith,
      )
      | inr (r, present) ↦
          let (t, et, at, len) = find_text-some key d.datfd.bytes rs ts r b.texts present in
          let cur : IsCurrent r s = scanned-IsCurrent key rs (begun key false d) r present in
          rw et (
            fetch_end (some t) (fetched t s),
            fetch_present key t d s (fetched t s)
                (searched key rs ts d b ∙ ap (λ o. done (is_some o) s) present)
                (db_readdat_lem t s (moved cur f at) (cur.cur_datlen ∙ len)),
            ground arith,
          )
    ]
