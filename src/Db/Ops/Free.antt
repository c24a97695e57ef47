-- ===== src/Db/Ops/Free.antt =====
-- The search of the free list of apue.3e/db/db.c: `_db_findfree` takes the first record of the list
-- whose sizes are exactly those that are wanted.
use play_apue.Prelude.{
  ℕ, zero, suc, ◌+◌, ◌≤◌, ◌<◌, ◌≡◌, refl, Bool, true, false, ◌&&◌, List, [], ◌∷◌, Option, none,
  some, arith, length, ◌==◌, if◌then◌else◌, Bool-cases, inl, inr,
}
use play_apue.Db.State.{Db, Which, done, without, bind_outcome}
use play_apue.Db.Record.{ptr_sz}
use play_apue.Db.Record.Pointer.{ptr_at, db_readptr_lem, at_idx}
use play_apue.Db.Record.Index.{IndexRecord, loaded, db_readidx_lem}
use play_apue.Db.Ops.{findfree_loop, unlink_free, db_findfree, free_off, chain_fuel}
use play_apue.Db.Ops.Chain.{Chain, length-Chain}

-- The record has the sizes that are wanted.
abbrev pub has_sizes : ℕ → ℕ → IndexRecord → Bool
has_sizes keylen datlen r = length r.key == keylen && r.datlen == datlen

-- The first record of the free list with the sizes, as the place of the pointer to it.
abbrev pub find_free : ℕ → ℕ → ℕ → List IndexRecord → Option ℕ
find_free keylen datlen p [] = none
find_free keylen datlen p (r ∷ rs) =
    if has_sizes keylen datlen r then some p else find_free keylen datlen r.off rs

-- The structure after the records up to that one are read.
abbrev pub walked : ℕ → ℕ → List IndexRecord → Db → Db
walked keylen datlen [] d = d
walked keylen datlen (r ∷ rs) d =
    if has_sizes keylen datlen r then loaded r d else walked keylen datlen rs (loaded r d)

pub findfree_loop_lem :
    (fuel keylen datlen save p : ℕ) (rs : List IndexRecord) (d : Db)
    → length rs < fuel
    → Chain d.idxfd.bytes p rs
    → findfree_loop fuel keylen datlen save p d
      ≡ done (find_free keylen datlen save rs) (walked keylen datlen rs d)
unfolding findfree_loop
findfree_loop_lem zero keylen datlen save p rs d h c = absurd (omega arith)
findfree_loop_lem (suc fuel) keylen datlen save p [] d h c = ground arith
findfree_loop_lem (suc fuel) keylen datlen save p (r ∷ rs) d h (e, at, c) =
    let nonzero : (r.off == 0) ≡ false = ground (arith, at.sized.off_pos) in
    let rest =
      findfree_loop_lem fuel keylen datlen r.off r.ptrval rs (loaded r d) (omega arith) c in
    rw e (
      rw nonzero (
        rw (db_readidx_lem r d at, bind_outcome)
          (elim (Bool-cases (has_sizes keylen datlen r)) [
            | inl q ↦ rw q refl
            | inr q ↦ rw q rest
          ])))

-- What the walk leaves as it was.
pub record Walks (c d : Db) : Type 0 where
  pub same_idx : d.idxfd.bytes ≡ c.idxfd.bytes
  pub same_dat : d.datfd ≡ c.datfd
  pub same_chainoff : d.chainoff ≡ c.chainoff
  pub same_hashoff : d.hashoff ≡ c.hashoff
  pub same_nhash : d.nhash ≡ c.nhash
  pub same_counts : d.counts ≡ c.counts
  pub same_locks : d.locks ≡ c.locks

pub walked-Walks :
    (keylen datlen : ℕ) (rs : List IndexRecord) (d : Db) → Walks d (walked keylen datlen rs d)
walked-Walks keylen datlen [] d = record {
  same_idx = refl;
  same_dat = refl;
  same_chainoff = refl;
  same_hashoff = refl;
  same_nhash = refl;
  same_counts = refl;
  same_locks = refl;
}
walked-Walks keylen datlen (r ∷ rs) d = ground (arith, walked-Walks keylen datlen rs (loaded r d))

-- The structure when the walk begins: the free list is locked, and its pointer read.
abbrev pub free_begun : Db → Db
free_begun d = at_idx (free_off + ptr_sz) (record d {
  locks = record { on = Which.idxfd; off = free_off; len = 1; exclusive = true } ∷ d.locks;
})

abbrev pub unlock_free : Db → Db
unlock_free d = record d { locks = without Which.idxfd free_off 1 d.locks }

-- Where no record of the free list has the sizes, the search fails and changes no file.
pub db_findfree-none :
    (keylen datlen : ℕ) (rs : List IndexRecord) (d : Db)
    → ptr_sz ≤ length d.idxfd.bytes
    → Chain d.idxfd.bytes (ptr_at d.idxfd.bytes free_off) rs
    → find_free keylen datlen free_off rs ≡ none
    → db_findfree keylen datlen d
      ≡ done false (unlock_free (walked keylen datlen rs (free_begun d)))
unfolding db_findfree unlink_free
db_findfree-none keylen datlen rs d fits c e = ground (
  arith,
  db_readptr_lem free_off
      (record d {
        locks = record { on = Which.idxfd; off = free_off; len = 1; exclusive = true } ∷ d.locks;
      })
      (omega arith) (omega arith),
  findfree_loop_lem (chain_fuel d) keylen datlen free_off (ptr_at d.idxfd.bytes free_off) rs
      (free_begun d)
      (omega (arith, length-Chain d.idxfd.bytes (ptr_at d.idxfd.bytes free_off) rs c)) c,
)
