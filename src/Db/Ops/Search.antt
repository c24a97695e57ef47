-- ===== src/Db/Ops/Search.antt =====
-- The search of a chain of apue.3e/db/db.c: `_db_find_and_lock` finds the first record with the key,
-- or runs to the end of the chain, within its fuel.
use play_apue.Prelude.{
  ℕ, zero, suc, ◌+◌, ◌*◌, ◌^◌, ◌≤◌, ◌<◌, ◌≡◌, refl, Bool, true, false, List, [], ◌∷◌, Option, none,
  some, arith, Bytes, length, bytes_eq, if◌then◌else◌,
}
use play_apue.Db.State.{Db, Which, done}
use play_apue.Db.Record.{ptr_sz}
use play_apue.Db.Record.Pointer.{ptr_at, db_readptr_lem, at_idx}
use play_apue.Db.Record.Index.{IndexRecord, loaded, db_readidx_lem}
use play_apue.Db.Ops.{find_loop, db_find_and_lock, db_hash, chain_fuel}
use play_apue.Db.Ops.Chain.{Chain, length-Chain}

-- The first record with the key.
abbrev pub find_record : Bytes → List IndexRecord → Option IndexRecord
find_record key [] = none
find_record key (r ∷ rs) = if bytes_eq r.key key then some r else find_record key rs

abbrev pub is_some : Option IndexRecord → Bool
is_some none = false
is_some (some r) = true

-- The pointer that leads to it, or the last of the chain, where `p` leads to the chain.
abbrev pub find_ptroff : Bytes → ℕ → List IndexRecord → ℕ
find_ptroff key p [] = p
find_ptroff key p (r ∷ rs) = if bytes_eq r.key key then p else find_ptroff key r.off rs

-- The structure after the records up to that one are read.
abbrev pub scanned : Bytes → List IndexRecord → Db → Db
scanned key [] d = d
scanned key (r ∷ rs) d =
    if bytes_eq r.key key
    then loaded r d
    else scanned key rs (record (loaded r d) { ptroff = r.off })

pub find_loop_lem :
    (fuel : ℕ) (key : Bytes) (p : ℕ) (rs : List IndexRecord) (d : Db)
    → length rs < fuel
    → Chain d.idxfd.bytes p rs
    → find_loop fuel key p d ≡ done (is_some (find_record key rs)) (scanned key rs d)
unfolding find_loop
find_loop_lem zero key p rs d h c = absurd (omega arith)
find_loop_lem (suc fuel) key p [] d h c = ground arith
find_loop_lem (suc fuel) key p (r ∷ rs) d h (e, at, c) =
    let z = at.sized in
    rw e (
      ground (
        arith,
        z.off_pos,
        db_readidx_lem r d at,
        find_loop_lem fuel key r.ptrval rs (record (loaded r d) { ptroff = r.off }) (omega arith) c,
      ))

abbrev pub chainoff_of : Db → Bytes → ℕ
chainoff_of d key = db_hash d.nhash key * ptr_sz + d.hashoff

-- The structure when a search begins: the chain is locked, and its first pointer read.
abbrev pub begun : Bytes → Bool → Db → Db
begun key x d = at_idx (chainoff_of d key + ptr_sz) (record d {
  chainoff = chainoff_of d key;
  ptroff = chainoff_of d key;
  locks = record { on = Which.idxfd; off = chainoff_of d key; len = 1; exclusive = x } ∷ d.locks;
})

-- Where the pointer of the key's chain leads to a list of records, _db_find_and_lock ends within
-- its fuel, reports whether a record has the key, and leaves in the structure the fields of the
-- first such record and the place of the pointer to it, with the chain locked.
pub db_find_and_lock_lem :
    (key : Bytes) (x : Bool) (rs : List IndexRecord) (d : Db)
    → chainoff_of d key + ptr_sz ≤ length d.idxfd.bytes
    → chainoff_of d key < 2 ^ 63
    → Chain d.idxfd.bytes (ptr_at d.idxfd.bytes (chainoff_of d key)) rs
    → db_find_and_lock key x d
      ≡ done (is_some (find_record key rs)) (scanned key rs (begun key x d))
unfolding db_find_and_lock
db_find_and_lock_lem key x rs d fits small c = ground (
  arith,
  db_readptr_lem (chainoff_of d key)
      (record d {
        chainoff = chainoff_of d key;
        ptroff = chainoff_of d key;
        locks =
            record { on = Which.idxfd; off = chainoff_of d key; len = 1; exclusive = x } ∷ d.locks;
      })
      fits small,
  find_loop_lem (chain_fuel d) key (ptr_at d.idxfd.bytes (chainoff_of d key)) rs (begun key x d)
      (omega (arith, length-Chain d.idxfd.bytes (ptr_at d.idxfd.bytes (chainoff_of d key)) rs c)) c,
)

-- What the search leaves in the structure.
pub record Found (key : Bytes) (rs : List IndexRecord) (p : ℕ) (c d : Db) : Type 0 where
  pub same_idx : d.idxfd.bytes ≡ c.idxfd.bytes
  pub same_dat : d.datfd ≡ c.datfd
  pub same_chainoff : d.chainoff ≡ c.chainoff
  pub same_hashoff : d.hashoff ≡ c.hashoff
  pub same_nhash : d.nhash ≡ c.nhash
  pub same_counts : d.counts ≡ c.counts
  pub same_locks : d.locks ≡ c.locks
  pub at_ptroff : d.ptroff ≡ find_ptroff key p rs

pub scanned-Found :
    (key : Bytes) (rs : List IndexRecord) (d : Db) → Found key rs d.ptroff d (scanned key rs d)
scanned-Found key [] d = record {
  same_idx = refl;
  same_dat = refl;
  same_chainoff = refl;
  same_hashoff = refl;
  same_nhash = refl;
  same_counts = refl;
  same_locks = refl;
  at_ptroff = refl;
}
scanned-Found key (r ∷ rs) d =
    ground (arith, scanned-Found key rs (record (loaded r d) { ptroff = r.off }))

-- The record that is found is the current one.
pub record IsCurrent (r : IndexRecord) (d : Db) : Type 0 where
  pub cur_idxoff : d.idxoff ≡ r.off
  pub cur_ptrval : d.ptrval ≡ r.ptrval
  pub cur_key : d.idxbuf ≡ r.key
  pub cur_datoff : d.datoff ≡ r.datoff
  pub cur_datlen : d.datlen ≡ r.datlen

pub scanned-IsCurrent :
    (key : Bytes) (rs : List IndexRecord) (d : Db) (r : IndexRecord)
    → find_record key rs ≡ some r
    → IsCurrent r (scanned key rs d)
scanned-IsCurrent key [] d r h = absurd (cc)
scanned-IsCurrent key (s ∷ rs) d r h =
    ground (arith, scanned-IsCurrent key rs (record (loaded s d) { ptroff = s.off }) r)
