-- ===== src/Db/Ops/Insert.antt =====
-- A record that `db_store` of apue.3e/db/db.c appends: it comes first on the chain of its key, and
-- the other chains are as before.
use mathlib.Core.Path.{subst}
use play_apue.Prelude.{
  ℕ, ◌+◌, ◌≤◌, ◌≡◌, sym, ◌∙◌, List, [], ◌∷◌, arith, Bytes, length, inl, inr, All, Lacks,
}
use play_apue.Db.Storage.{write_at}
use play_apue.Db.Storage.Laws.{Apart, length-write_at}
use play_apue.Db.Record.{ptr_sz, ptr_max}
use play_apue.Db.Record.Pointer.{
  ptr_at, field, length-field, ptr_at-write_at_self, ptr_at-write_at-Apart,
}
use play_apue.Db.Record.Index.{
  IndexRecord, IsSized, RecordAt, RecordAt-write_at, RecordAt-write_at-Apart, text_of, header_sz,
  record_bytes,
}
use play_apue.Db.Record.Data.{DataAt, DataAt-write_at, DataAt-write_at-Apart, line}
use play_apue.Db.Ops.Chain.{Chain}
use play_apue.Db.Ops.Fetch.{Texts, Bucket}

-- The records begin behind the pointer at `off`.
abbrev pub Behind : ℕ → List IndexRecord → Type 0
Behind off = All (λ r. off + ptr_sz ≤ r.off)

Chain-write_at :
    (bs : Bytes) (p : ℕ) (rs : List IndexRecord) (off : ℕ) (s : Bytes)
    → All (λ r. RecordAt bs r → Apart r.off (header_sz + length (text_of r)) off (length s)) rs
    → off ≤ length bs
    → Chain bs p rs
    → Chain (write_at off s bs) p rs
Chain-write_at bs p [] off s h fits c = c
Chain-write_at bs p (r ∷ rs) off s (h, hs) fits (e, at, c) = (
  e,
  RecordAt-write_at-Apart r off s bs at (h at) fits,
  Chain-write_at bs r.ptrval rs off s hs fits c,
)

ends_before :
    (bs : Bytes) (s : Bytes) (rs : List IndexRecord)
    → All
        (λ r. RecordAt bs r → Apart r.off (header_sz + length (text_of r)) (length bs) (length s))
        rs
ends_before bs s [] = tt
ends_before bs s (r ∷ rs) = (λ at. inl (omega (arith, at.inside)), ends_before bs s rs)

starts-Behind :
    (bs : Bytes) (off p : ℕ) (rs : List IndexRecord)
    → p ≤ ptr_max
    → Behind off rs
    → All
        (λ r. RecordAt bs r → Apart r.off (header_sz + length (text_of r)) off (length (field p)))
        rs
starts-Behind bs off p [] hp h = tt
starts-Behind bs off p (r ∷ rs) hp (h, hs) =
    (λ at. inr (omega (arith, length-field p hp)), starts-Behind bs off p rs hp hs)

Texts-write_at :
    (dat s : Bytes) (rs : List IndexRecord) (ts : List Bytes)
    → Texts dat rs ts
    → Texts (write_at (length dat) s dat) rs ts
Texts-write_at dat s [] [] h = tt
Texts-write_at dat s [] (t ∷ ts) h = h
Texts-write_at dat s (r ∷ rs) [] h = h
Texts-write_at dat s (r ∷ rs) (t ∷ ts) (at, e, h) = (
  DataAt-write_at-Apart r.datoff t (length dat) s dat at (inl at.inside) (omega arith),
  e,
  Texts-write_at dat s rs ts h,
)

-- The index file with a record at its end, and the pointer at `off` leading to it.
abbrev pub linked : Bytes → ℕ → IndexRecord → Bytes
linked idx off r = write_at off (field r.off) (write_at (length idx) (record_bytes r) idx)

module _ (idx dat text : Bytes) (off : ℕ) (r : IndexRecord) (z : IsSized r)
    (at_end : r.off ≡ length idx) (at_dat : r.datoff ≡ length dat)
    (len : r.datlen ≡ length text + 1) (low : r.off ≤ ptr_max) (inside : off + ptr_sz ≤ length idx)
    (plain : Lacks 0 text) where
  abbrev idx1 : Bytes
  idx1 = write_at (length idx) (record_bytes r) idx

  length-idx1 : length idx ≤ length idx1
  length-idx1 = omega (arith, length-write_at (length idx) (record_bytes r) idx)

  Chain-linked :
      (p : ℕ) (rs : List IndexRecord)
      → Behind off rs
      → Chain idx p rs
      → Chain (linked idx off r) p rs
  Chain-linked p rs b c =
      Chain-write_at idx1 p rs off (field r.off) (starts-Behind idx1 off r.off rs low b)
        (omega (arith, length-idx1))
        (Chain-write_at idx p rs (length idx) (record_bytes r) (ends_before idx (record_bytes r) rs)
          (omega arith) c)

  RecordAt-linked : RecordAt (linked idx off r) r
  RecordAt-linked =
      RecordAt-write_at-Apart r off (field r.off) idx1
        (subst (λ o. RecordAt (write_at o (record_bytes r) idx) r) at_end
          (RecordAt-write_at r idx z (omega arith)))
        (inr (omega (arith, length-field r.off low))) (omega (arith, length-idx1))

  length-linked : length idx ≤ length (linked idx off r)
  length-linked = omega (arith, length-idx1, length-write_at off (field r.off) idx1)

  -- The chain of the pointer gains the record.
  pub Bucket-linked :
      (rs : List IndexRecord) (ts : List Bytes)
      → Behind off rs
      → ptr_at idx off ≡ r.ptrval
      → Bucket idx dat off rs ts
      → Bucket (linked idx off r) (write_at (length dat) (line text) dat) off (r ∷ rs) (text ∷ ts)
  Bucket-linked rs ts behind p b = record {
    fits = omega (arith, length-linked, b.fits);
    small = b.small;
    chain = (
      ptr_at-write_at_self off r.off idx1 low,
      RecordAt-linked,
      Chain-linked r.ptrval rs behind (subst (λ q. Chain idx q rs) p b.chain),
    );
    texts = (
      subst (λ o. DataAt (write_at (length dat) (line text) dat) o text) (sym at_dat)
          (DataAt-write_at (length dat) text dat plain (omega (arith, z.datoff_fits))
            (omega arith)),
      len,
      Texts-write_at dat (line text) rs ts b.texts,
    );
  }

  -- The chain of a pointer at another place is the same list of records.
  pub Bucket-linked_other :
      (at : ℕ) (rs : List IndexRecord) (ts : List Bytes)
      → Behind off rs
      → Apart at ptr_sz off ptr_sz
      → Bucket idx dat at rs ts
      → Bucket (linked idx off r) (write_at (length dat) (line text) dat) at rs ts
  Bucket-linked_other at rs ts behind apart b = record {
    fits = omega (arith, length-linked, b.fits);
    small = b.small;
    chain =
        subst (λ q. Chain (linked idx off r) q rs) (sym same_head)
          (Chain-linked (ptr_at idx at) rs behind b.chain);
    texts = Texts-write_at dat (line text) rs ts b.texts;
  }
    where
      same_head : ptr_at (linked idx off r) at ≡ ptr_at idx at
      same_head =
          ptr_at-write_at-Apart at off (field r.off) idx1 (ground (arith, length-field r.off low))
            (omega (arith, length-idx1, b.fits)) (omega (arith, length-idx1))
          ∙ ptr_at-write_at-Apart at (length idx) (record_bytes r) idx (inl b.fits) b.fits
              (omega arith)
