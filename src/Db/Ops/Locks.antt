-- ===== src/Db/Ops/Locks.antt =====
-- The record locks of apue.3e/db/db.c: whatever the files hold, an operation that ends has released
-- every lock that it took.
mod Steps
use play_apue.Prelude.{
  ℕ, zero, suc, ◌+◌, ◌*◌, ◌<◌, ◌≡◌, refl, Bool, true, false, [], ◌∷◌, arith, Bytes, none, ap,
}
use play_apue.Db.State.{Db, Outcome, without, Which, pure, Fault}
use play_apue.Db.Record.{ptr_sz, is_negative}
use play_apue.Db.Record.Keeps.{
  Post, Post-bind, Holds, db_readidx-Holds, db_readdat-Holds, Post-if, Post-ensure,
}
use play_apue.Db.Ops.{
  db_fetch, db_delete, db_store, Flag, other, nextrec_loop, db_nextrec, free_off, db_hash,
  has_nonblank, chain_fuel, delete_found, fetch_found, fetch_error, next_record, store_locked,
  valid_length,
}
use play_apue.Db.Ops.Locks.Steps.{
  chain_lock, free_lock, db_find_and_lock-Holds, step, db_dodelete-Holds, unlock_one,
  store_found-Holds,
}

abbrev pub chain_of : Db → Bytes → ℕ
chain_of d key = db_hash d.nhash key * ptr_sz + d.hashoff

abbrev Locked : Bool → ℕ → Db → Type 0
Locked x off = Holds (chain_lock x off ∷ []) off

abbrev pub Released : {A : Type 0} → Outcome A → Type 0
Released = Post (λ _ e. e.locks ≡ [])

-- Each operation ends with no lock held, whatever the two files hold and whatever its result is.
module _ (d : Db) (key : Bytes) (free : d.locks ≡ []) (opened : 0 < d.hashoff) where
  off_pos : 0 < chain_of d key
  off_pos = omega arith

  db_fetch-Released : Released (db_fetch key d)
  unfolding db_fetch
  db_fetch-Released =
      let off = chain_of d key in
      Post-bind (λ _. Locked false off) (λ _ e. e.locks ≡ []) _ _
        (db_find_and_lock-Holds key false d free)
        (λ found e h.
          Post-bind (λ _. Locked false off) (λ _ e. e.locks ≡ []) _ _
            (Post-if (λ _. Locked false off) found fetch_found fetch_error e
              (λ _.
                step false off off_pos _ _ _ _
                  (db_readdat-Holds (chain_lock false off ∷ []) off e h)
                  (λ text e' k. record { held = k.held; chain = k.chain }))
              (λ _. record { held = h.held; chain = h.chain }))
            (λ ptr e' k. unlock_one false off off_pos k))

  db_delete-Released : Released (db_delete key d)
  unfolding db_delete
  db_delete-Released =
      let off = chain_of d key in
      Post-bind (λ _. Locked true off) (λ _ e. e.locks ≡ []) _ _
        (db_find_and_lock-Holds key true d free)
        (λ found e h.
          Post-bind (λ _. Locked true off) (λ _ e. e.locks ≡ []) _ _
            (Post-if (λ _. Locked true off) found delete_found _ e
              (λ _.
                step true off off_pos _ _ _ _ (db_dodelete-Holds true off off_pos e h)
                  (λ _ e' k. record { held = k.held; chain = k.chain }))
              (λ _. record { held = h.held; chain = h.chain }))
            (λ _ e' k. unlock_one true off off_pos k))

  store_locked-Released : (text : Bytes) (flag : Flag) → Released (store_locked key text flag d)
  unfolding store_locked
  store_locked-Released text flag =
      let off = chain_of d key in
      Post-bind (λ _. Locked true off) (λ _ e. e.locks ≡ []) _ _
        (db_find_and_lock-Holds key true d free)
        (λ found e h.
          Post-bind (λ _. Locked true off) (λ _ e. e.locks ≡ []) _ _
            (store_found-Holds true off off_pos key text flag found e h)
            (λ _ e' k. unlock_one true off off_pos k))

  db_store-Released : (text : Bytes) (flag : Flag) → Released (db_store key text flag d)
  unfolding db_store
  db_store-Released text other = free
  db_store-Released text flag =
      Post-ensure (λ _ e. e.locks ≡ []) (valid_length text) Fault.invalid_length
        (store_locked key text flag) d (store_locked-Released text flag)

  nextrec_loop-Holds :
      (fuel : ℕ) (e : Db)
      → Holds (free_lock false ∷ []) d.chainoff e
      → Post (λ _. Holds (free_lock false ∷ []) d.chainoff) (nextrec_loop fuel e)
  unfolding nextrec_loop
  nextrec_loop-Holds zero e h = tt
  nextrec_loop-Holds (suc fuel) e h =
      let P : Bool → Db → Type 0 = λ _. Holds (free_lock false ∷ []) d.chainoff in
      Post-bind (λ _. Holds (free_lock false ∷ []) d.chainoff) P _ _
        (db_readidx-Holds (free_lock false ∷ []) d.chainoff 0 e h)
        (λ r e' k.
          Post-if P (is_negative r) (pure false) _ e' (λ _. k)
            (λ _.
              Post-if P (has_nonblank e'.idxbuf) (pure true) _ e' (λ _. k)
                (λ _. nextrec_loop-Holds fuel e' k)))

  db_nextrec-Released : Released (db_nextrec d)
  unfolding db_nextrec
  db_nextrec-Released =
      let ls = free_lock false ∷ [] in
      Post-bind (λ _. Holds ls d.chainoff) (λ _ e. e.locks ≡ []) _ _
        (nextrec_loop-Holds (chain_fuel d) _
          (record { held = ap (λ l. free_lock false ∷ l) free; chain = refl }))
        (λ more e h.
          Post-bind (λ _. Holds ls d.chainoff) (λ _ e. e.locks ≡ []) _ _
            (Post-if (λ _. Holds ls d.chainoff) more next_record (pure none) e
              (λ _.
                Post-bind (λ _. Holds ls d.chainoff) (λ _. Holds ls d.chainoff) _ _
                  (db_readdat-Holds ls d.chainoff e h)
                  (λ text e' k. record { held = k.held; chain = k.chain }))
              (λ _. h))
            (λ r e' k. ap (without Which.idxfd free_off 1) k.held))

  -- Whatever the two files hold, a call of db_fetch, db_delete, db_store or db_nextrec on an
  -- opened database with no lock held that returns has released every record lock that it took.
  pub calls-Released :
      (text : Bytes) (flag : Flag)
      → Released (db_fetch key d)
        × Released (db_delete key d)
        × Released (db_store key text flag d)
        × Released (db_nextrec d)
  calls-Released text flag =
      (db_fetch-Released, db_delete-Released, db_store-Released text flag, db_nextrec-Released)
