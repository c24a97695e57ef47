-- ===== src/Db/Ops/Sequence.antt =====
-- `db_rewind` and `db_nextrec` of apue.3e/db/db.c on index records that follow one another in the file.

use play_apue.Prelude.{
  ℕ, zero, suc, ◌+◌, ◌^◌, ◌≤◌, ◌<◌, ◌≡◌, ◌⊎◌, refl, ap, ◌∙◌, Bool, true, false, List, [], ◌∷◌,
  Option, none, some, arith, Bytes, length, drop_ge, if◌then◌else◌, Bool-cases, inl, inr,
}
use play_apue.Db.Storage.{lseek, read, read_at}
use play_apue.Db.State.{Db, Counts, Which, done, without, bind_outcome}
use play_apue.Db.Record.{db_readidx, is_negative, minus_one, records_off}
use play_apue.Db.Record.Index.{
  IndexRecord, RecordAt, loaded, text_of, header_sz, header-ptr, header-len, length-index_header,
  read_body_lem,
}
use play_apue.Db.Record.Data.{DataAt, db_readdat_lem, fetched}
use play_apue.Db.Ops.{db_rewind, db_nextrec, nextrec_loop, has_nonblank, chain_fuel, free_off}
use play_apue.Db.Ops.Fetch.{Texts}

-- From the position on, the file is these records.
abbrev pub Laid : Bytes → ℕ → List IndexRecord → Type 0
Laid bs pos [] = pos ≡ length bs
Laid bs pos (r ∷ rs) =
    (pos ≡ r.off) × RecordAt bs r × Laid bs (r.off + header_sz + length (text_of r)) rs

-- The first record whose key is not blank, with its text.
abbrev pub next_text : List IndexRecord → List Bytes → Option (Bytes × Bytes)
next_text (r ∷ rs) (t ∷ ts) = if has_nonblank r.key then some (r.key, t) else next_text rs ts
next_text _ _ = none

-- The records behind it.
abbrev pub behind_next : List IndexRecord → List IndexRecord
behind_next [] = []
behind_next (r ∷ rs) = if has_nonblank r.key then rs else behind_next rs

db_readidx_next :
    (r : IndexRecord) (d : Db)
    → RecordAt d.idxfd.bytes r
    → d.idxfd.pos ≡ r.off
    → db_readidx 0 d ≡ done r.ptrval (loaded r d)
unfolding db_readidx lseek read
db_readidx_next r d at e =
    let s = at.sized in
    ground (
      arith,
      header-ptr r.ptrval (length (text_of r)) s.ptr_fits s.idxlen_most,
      header-len r.ptrval (length (text_of r)) s.ptr_fits s.idxlen_most,
      length-index_header r.ptrval (length (text_of r)) s.ptr_fits s.idxlen_most,
      at.header,
      read_body_lem r
          (record d {
            idxfd = record { bytes = d.idxfd.bytes; pos = r.off + header_sz };
            idxoff = r.off;
            ptrval = r.ptrval;
          })
          s at.text,
    )

-- The structure after a read at the end of the file.
abbrev pub at_end : Db → Db
at_end d = record d {
  idxfd = record { bytes = d.idxfd.bytes; pos = length d.idxfd.bytes };
  idxoff = length d.idxfd.bytes;
}

db_readidx_end :
    (d : Db)
    → d.idxfd.pos ≡ length d.idxfd.bytes
    → length d.idxfd.bytes < 2 ^ 63
    → db_readidx 0 d ≡ done minus_one (at_end d)
unfolding db_readidx lseek read read_at
db_readidx_end d e small =
    ground (arith, drop_ge (length d.idxfd.bytes) d.idxfd.bytes (omega arith))

-- The structure after the records up to the next one that is not blank are read.
abbrev pub walked_to : List IndexRecord → Db → Db
walked_to [] d = at_end d
walked_to (r ∷ rs) d = if has_nonblank r.key then loaded r d else walked_to rs (loaded r d)

abbrev pub some_left : List IndexRecord → Bool
some_left [] = false
some_left (r ∷ rs) = if has_nonblank r.key then true else some_left rs

nextrec_loop_lem :
    (fuel : ℕ) (rs : List IndexRecord) (d : Db)
    → length rs < fuel
    → length d.idxfd.bytes < 2 ^ 63
    → Laid d.idxfd.bytes d.idxfd.pos rs
    → nextrec_loop fuel d ≡ done (some_left rs) (walked_to rs d)
unfolding nextrec_loop
nextrec_loop_lem zero rs d h small l = absurd (omega arith)
nextrec_loop_lem (suc fuel) [] d h small l = rw (db_readidx_end d l small, bind_outcome) refl
nextrec_loop_lem (suc fuel) (r ∷ rs) d h small (e, at, l) =
    let low : is_negative r.ptrval ≡ false = ground (arith, at.sized.ptr_fits) in
    rw (db_readidx_next r d at e, bind_outcome)
      (rw low (elim (Bool-cases (has_nonblank r.key)) [
        | inl q ↦ rw q refl
        | inr q ↦ rw q (nextrec_loop_lem fuel rs (loaded r d) (omega arith) small l)
      ]))

-- There are no more records than bytes.
length-Laid :
    (bs : Bytes) (pos : ℕ) (rs : List IndexRecord) → Laid bs pos rs → pos + length rs ≤ length bs
length-Laid bs pos [] l = omega arith
length-Laid bs pos (r ∷ rs) (e, at, l) =
    omega (arith, length-Laid bs (r.off + header_sz + length (text_of r)) rs l)

-- What the walk leaves in the structure.
record Walked (rs : List IndexRecord) (c d : Db) : Type 0 where
  same_idx : d.idxfd.bytes ≡ c.idxfd.bytes
  same_dat : d.datfd ≡ c.datfd
  same_counts : d.counts ≡ c.counts
  laid : Laid d.idxfd.bytes d.idxfd.pos (behind_next rs)

walked_to-Walked :
    (rs : List IndexRecord) (d : Db)
    → Laid d.idxfd.bytes d.idxfd.pos rs
    → Walked rs d (walked_to rs d)
walked_to-Walked [] d l = record {
  same_idx = refl;
  same_dat = refl;
  same_counts = refl;
  laid = refl;
}
walked_to-Walked (r ∷ rs) d (e, at, l) = elim (Bool-cases (has_nonblank r.key)) [
  | inl q ↦ rw q (record { same_idx = refl; same_dat = refl; same_counts = refl; laid = rw q l })
  | inr q ↦
      let w : Walked rs (loaded r d) (walked_to rs (loaded r d)) =
        walked_to-Walked rs (loaded r d) l in
      rw q (record {
        same_idx = w.same_idx;
        same_dat = w.same_dat;
        same_counts = w.same_counts;
        laid = rw q w.laid;
      })
]

-- Where the walk stops, the structure has the key and the place of the text.
record Stops (key text : Bytes) (d : Db) : Type 0 where
  has_key : d.idxbuf ≡ key
  text_at : DataAt d.datfd.bytes d.datoff text
  text_size : d.datlen ≡ length text + 1

walked_to-Stops :
    (rs : List IndexRecord) (ts : List Bytes) (d : Db)
    → Texts d.datfd.bytes rs ts
    → ((next_text rs ts ≡ none) × (some_left rs ≡ false))
      ⊎ ((key : Bytes) × (text : Bytes) × (next_text rs ts ≡ some (key, text))
          × (some_left rs ≡ true)
          × Stops key text (walked_to rs d))
walked_to-Stops [] [] d h = inl (refl, refl)
walked_to-Stops [] (t ∷ ts) d h = absurd h
walked_to-Stops (r ∷ rs) [] d h = absurd h
walked_to-Stops (r ∷ rs) (t ∷ ts) d (at, n, h) = elim (Bool-cases (has_nonblank r.key)) [
  | inl q ↦
      rw q (inr (r.key, t, refl, refl, record { has_key = refl; text_at = at; text_size = n }))
  | inr q ↦ rw q (walked_to-Stops rs ts (loaded r d) h)
]

abbrev pub count_nextrec : Option (Bytes × Bytes) → Counts → Counts
count_nextrec none c = c
count_nextrec (some r) c = record c { cnt_nextrec = c.cnt_nextrec + 1 }

-- The structure at the end of the call.
abbrev nextrec_end : Option (Bytes × Bytes) → Db → Db
nextrec_end r d = record d {
  counts = count_nextrec r d.counts;
  locks = without Which.idxfd free_off 1 d.locks;
}

abbrev locked : Db → Db
locked d = record d {
  locks = record { on = Which.idxfd; off = free_off; len = 1; exclusive = false } ∷ d.locks;
}

nextrec_none :
    (d e : Db)
    → nextrec_loop (chain_fuel (locked d)) (locked d) ≡ done false e
    → db_nextrec d ≡ done none (nextrec_end none e)
unfolding db_nextrec
nextrec_none d e h = rw (h, bind_outcome)

nextrec_some :
    (key text : Bytes) (d e : Db)
    → nextrec_loop (chain_fuel (locked d)) (locked d) ≡ done true e
    → Stops key text e
    → db_nextrec d ≡ done (some (key, text)) (nextrec_end (some (key, text)) (fetched text e))
unfolding db_nextrec
nextrec_some key text d e h s =
    rw (h, bind_outcome)
      (rw (db_readdat_lem text e s.text_at s.text_size, bind_outcome)
        (ap (λ k. done (some (k, text)) (nextrec_end (some (key, text)) (fetched text e)))
          s.has_key))

-- A call changes no file, leaves the offset behind the record that it returns, and counts it.
pub record Passes (rs : List IndexRecord) (r : Option (Bytes × Bytes)) (c d : Db) : Type 0 where
  pub same_idx : d.idxfd.bytes ≡ c.idxfd.bytes
  pub same_dat : d.datfd.bytes ≡ c.datfd.bytes
  pub laid : Laid d.idxfd.bytes d.idxfd.pos (behind_next rs)
  pub counted : d.counts ≡ count_nextrec r c.counts

pub db_rewind_lem :
    (d : Db)
    → records_off d < 2 ^ 63
    → db_rewind d
      ≡ done tt (record d {
        idxfd = record { bytes = d.idxfd.bytes; pos = records_off d };
        idxoff = records_off d;
      })
unfolding db_rewind lseek
db_rewind_lem d h = ground arith

-- Where index records follow one another from the offset of the index file to its end, below 2^63,
-- and their texts stand in the data file, db_nextrec ends and returns the key and the text of the
-- first of them whose key is not all blank, or null if there is none; it changes neither file,
-- leaves the offset behind that record, and counts a record that it returns.
pub db_nextrec-eq-next_text :
    (rs : List IndexRecord) (ts : List Bytes) (d : Db)
    → Laid d.idxfd.bytes d.idxfd.pos rs
    → Texts d.datfd.bytes rs ts
    → length d.idxfd.bytes < 2 ^ 63
    → (e : Db) × (db_nextrec d ≡ done (next_text rs ts) e) × Passes rs (next_text rs ts) d e
db_nextrec-eq-next_text rs ts d l h small =
    let s : Db = walked_to rs (locked d) in
    let w : Walked rs (locked d) s = walked_to-Walked rs (locked d) l in
    let looped : nextrec_loop (chain_fuel (locked d)) (locked d) ≡ done (some_left rs) s =
      nextrec_loop_lem (chain_fuel (locked d)) rs (locked d)
        (omega (arith, length-Laid d.idxfd.bytes d.idxfd.pos rs l)) small l in
    elim (walked_to-Stops rs ts (locked d) h) [
      | inl (absent, q) ↦ rw absent (
        nextrec_end none s,
        nextrec_none d s (looped ∙ ap (λ b. done b s) q),
        record {
          same_idx = w.same_idx;
          same_dat = ap (λ x. x.bytes) w.same_dat;
          laid = w.laid;
          counted = w.same_counts;
        },
      )
      | inr (key, text, present, q, stops) ↦ rw present (
        nextrec_end (some (key, text)) (fetched text s),
        nextrec_some key text d s (looped ∙ ap (λ b. done b s) q) stops,
        record {
          same_idx = w.same_idx;
          same_dat = ap (λ x. x.bytes) w.same_dat;
          laid = w.laid;
          counted = ap (count_nextrec (some (key, text))) w.same_counts;
        },
      )
    ]
