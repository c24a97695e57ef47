-- ===== src/Db/Ops/Locks/Steps.antt =====
-- The record locks that the functions below db_fetch, db_store, db_delete and db_nextrec of
-- apue.3e/db/db.c take and give back while a chain is locked.
use mathlib.Core.Path.{ap₂}
use play_apue.Prelude.{
  ℕ, zero, suc, ◌+◌, ◌*◌, ◌<◌, ◌≡◌, refl, Bool, true, false, List, [], ◌∷◌, arith, Bytes, ◌==◌,
  none, some, bytes_eq, length, ◌&&◌, Option, ap, ◌∙◌,
}
use play_apue.Db.Storage.{seek_set, seek_end}
use play_apue.Db.State.{Db, Outcome, Lock, M, bind_outcome, without, Which, pure}
use play_apue.Db.Record.{db_readptr, db_readidx, ptr_sz, records_off}
use play_apue.Db.Record.Keeps.{
  Post, Post-bind, Holds, db_readptr-Holds, db_readidx-Holds, db_writeptr-Holds, db_writedat-Holds,
  db_writeidx-Holds, Post-if,
}
use play_apue.Db.Ops.{
  find_loop, db_find_and_lock, db_dodelete, findfree_loop, db_findfree, append_record, store_new,
  store_over, store_found, Flag, insert, replace, free_off, db_hash, chain_fuel, unlink_free,
  store_reuse, store_append, replace_same, replace_other,
}

abbrev pub chain_lock : Bool → ℕ → Lock
chain_lock x off = record { on = Which.idxfd; off = off; len = 1; exclusive = x }

abbrev pub free_lock : Bool → Lock
free_lock x = record { on = Which.idxfd; off = free_off; len = 1; exclusive = x }

find_loop-Holds :
    (ls : List Lock) (off : ℕ) (fuel : ℕ) (key : Bytes) (o : ℕ) (d : Db)
    → Holds ls off d
    → Post (λ _. Holds ls off) (find_loop fuel key o d)
unfolding find_loop
find_loop-Holds ls off zero key o d h = tt
find_loop-Holds ls off (suc fuel) key o d h =
    Post-if (λ _. Holds ls off) (o == 0) (pure false) _ d (λ _. h)
      (λ _.
        Post-bind (λ _. Holds ls off) (λ _. Holds ls off) (db_readidx o d) _
          (db_readidx-Holds ls off o d h)
          (λ next e k.
            Post-if (λ _. Holds ls off) (bytes_eq e.idxbuf key) (pure true) _ e (λ _. k)
              (λ _.
                find_loop-Holds ls off fuel key next (record e { ptroff = o })
                  (record { held = k.held; chain = k.chain }))))

pub db_find_and_lock-Holds :
    (key : Bytes) (x : Bool) (d : Db)
    → d.locks ≡ []
    → Post
        (λ _.
          Holds
            (chain_lock x (db_hash d.nhash key * ptr_sz + d.hashoff) ∷ [])
            (db_hash d.nhash key * ptr_sz + d.hashoff))
        (db_find_and_lock key x d)
unfolding db_find_and_lock
db_find_and_lock-Holds key x d free =
    let off = db_hash d.nhash key * ptr_sz + d.hashoff in
    let ls = chain_lock x off ∷ [] in
    let d1 = record d { chainoff = off; ptroff = off; locks = chain_lock x off ∷ d.locks } in
    Post-bind (λ _. Holds ls off) (λ _. Holds ls off) (db_readptr off d1) _
      (db_readptr-Holds ls off off d1
        (record { held = ap (λ l. chain_lock x off ∷ l) free; chain = refl }))
      (λ o d' h'. find_loop-Holds ls off (chain_fuel d) key o d' h')

-- The chain is locked, and with it perhaps the free list.
module _ (x : Bool) (off : ℕ) (pos : 0 < off) where
  abbrev one : List Lock
  one = chain_lock x off ∷ []

  abbrev two : List Lock
  two = free_lock true ∷ one

  unlock_free : without Which.idxfd free_off 1 two ≡ one
  unlock_free = ground arith

  append_one : (n : ℕ) → without Which.idxfd n 0 one ≡ one
  append_one n = ground arith

  append_two : (n : ℕ) → without Which.idxfd n 0 two ≡ two
  append_two n = ground arith

  pub step :
      {A B : Type 0} (ls ls' : List Lock) (m : Outcome A) (f : A → M B)
      → Post (λ _. Holds ls off) m
      → ((a : A) (d : Db) → Holds ls off d → Post (λ _. Holds ls' off) (f a d))
      → Post (λ _. Holds ls' off) (bind_outcome m f)
  step ls ls' m f = Post-bind (λ _. Holds ls off) (λ _. Holds ls' off) m f

  free_step :
      {d : Db} → Holds one off d → Holds two off (record d { locks = free_lock true ∷ d.locks })
  free_step h = record { held = ap (λ l. free_lock true ∷ l) h.held; chain = h.chain }

  unfree_step :
      {d : Db}
      → Holds two off d
      → Holds one off (record d { locks = without Which.idxfd free_off 1 d.locks })
  unfree_step h = record {
    held = ap (without Which.idxfd free_off 1) h.held ∙ unlock_free;
    chain = h.chain;
  }

  pub db_dodelete-Holds : (d : Db) → Holds one off d → Post (λ _. Holds one off) (db_dodelete d)
  unfolding db_dodelete
  db_dodelete-Holds d h =
      step two one _ _
        (db_writedat-Holds two off _ _ seek_set _ refl
          (free_step (record { held = h.held; chain = h.chain })))
        (λ _ d1 h1. step two one _ _ (db_readptr-Holds two off free_off d1 h1) (λ freeptr d2 h2.
          step two one _ _
            (db_writeidx-Holds two off _ _ seek_set freeptr d2 (append_two (records_off d2)) h2)
            (λ _ d3 h3.
              step two one _ _ (db_writeptr-Holds two off free_off d3.idxoff d3 h3) (λ _ d4 h4.
                step two one _ _ (db_writeptr-Holds two off _ _ d4 h4)
                  (λ _ d5 h5. unfree_step h5)))))

  findfree_loop-Holds :
      (fuel keylen datlen save o : ℕ) (d : Db)
      → Holds two off d
      → Post (λ _. Holds two off) (findfree_loop fuel keylen datlen save o d)
  unfolding findfree_loop
  findfree_loop-Holds zero keylen datlen save o d h = tt
  findfree_loop-Holds (suc fuel) keylen datlen save o d h =
      Post-if (λ _. Holds two off) (o == 0) (pure none) _ d (λ _. h)
        (λ _. step two two _ _ (db_readidx-Holds two off o d h) (λ next e k.
          Post-if (λ _. Holds two off) (length e.idxbuf == keylen && e.datlen == datlen)
            (pure (some save)) _ e (λ _. k)
            (λ _. findfree_loop-Holds fuel keylen datlen o next e k)))

  unlink_free-Holds :
      (found : Option ℕ) (d : Db)
      → Holds two off d
      → Post (λ _. Holds two off) (unlink_free found d)
  unfolding unlink_free
  unlink_free-Holds none d h = h
  unlink_free-Holds (some save) d h =
      step two two _ _ (db_writeptr-Holds two off save d.ptrval d h) (λ _ e k. k)

  db_findfree-Holds :
      (keylen datlen : ℕ) (d : Db)
      → Holds one off d
      → Post (λ _. Holds one off) (db_findfree keylen datlen d)
  unfolding db_findfree
  db_findfree-Holds keylen datlen d h =
      step two one _ _ (db_readptr-Holds two off free_off _ (free_step h)) (λ o d1 h1.
        step two one _ _ (findfree_loop-Holds (chain_fuel d1) keylen datlen free_off o d1 h1)
          (λ found d2 h2.
            step two one _ _ (unlink_free-Holds found d2 h2) (λ rc d3 h3. unfree_step h3)))

  append_record-Holds :
      (key text : Bytes) (p : ℕ) (d : Db)
      → Holds one off d
      → Post (λ _. Holds one off) (append_record key text p d)
  append_record-Holds key text p d h =
      step one one _ _ (db_writedat-Holds one off text 0 seek_end d refl h) (λ _ d1 h1.
        step one one _ _
          (db_writeidx-Holds one off key 0 seek_end p d1 (append_one (records_off d1)) h1)
          (λ _ d2 h2. db_writeptr-Holds one off d2.chainoff d2.idxoff d2 h2))

  store_new-Holds :
      (key text : Bytes) (d : Db)
      → Holds one off d
      → Post (λ _. Holds one off) (store_new key text d)
  unfolding store_new store_reuse store_append
  store_new-Holds key text d h =
      step one one _ _ (db_readptr-Holds one off d.chainoff d h) (λ p d1 h1.
        step one one _ _ (db_findfree-Holds (length key) (length text + 1) d1 h1) (λ found d2 h2.
          Post-if (λ _. Holds one off) found (store_reuse key text p) (store_append key text p) d2
            (λ _.
              step one one _ _ (db_writedat-Holds one off text d2.datoff seek_set d2 refl h2)
                (λ _ d3 h3.
                  step one one _ _
                    (db_writeidx-Holds one off key d3.idxoff seek_set p d3
                      (append_one (records_off d3)) h3)
                    (λ _ d4 h4.
                      step one one _ _ (db_writeptr-Holds one off d4.chainoff d4.idxoff d4 h4)
                        (λ _ d5 h5. record { held = h5.held; chain = h5.chain }))))
            (λ _.
              step one one _ _ (append_record-Holds key text p d2 h2)
                (λ _ d3 h3. record { held = h3.held; chain = h3.chain }))))

  store_over-Holds :
      (key text : Bytes) (d : Db)
      → Holds one off d
      → Post (λ _. Holds one off) (store_over key text d)
  unfolding store_over replace_same replace_other
  store_over-Holds key text d h =
      Post-if (λ _. Holds one off) (length text + 1 == d.datlen) (replace_same text)
        (replace_other key text) d
        (λ _.
          step one one _ _ (db_writedat-Holds one off text d.datoff seek_set d refl h)
            (λ _ d1 h1. record { held = h1.held; chain = h1.chain }))
        (λ _. step one one _ _ (db_dodelete-Holds d h) (λ _ d1 h1.
          step one one _ _ (db_readptr-Holds one off d1.chainoff d1 h1) (λ p d2 h2.
            step one one _ _ (append_record-Holds key text p d2 h2)
              (λ _ d3 h3. record { held = h3.held; chain = h3.chain }))))

  none_left : without Which.idxfd off 1 one ≡ []
  none_left = ground arith

  pub unlock_one : {d : Db} → Holds one off d → without Which.idxfd d.chainoff 1 d.locks ≡ []
  unlock_one h = ap₂ (λ c l. without Which.idxfd c 1 l) h.chain h.held ∙ none_left

  pub store_found-Holds :
      (key text : Bytes) (flag : Flag) (found : Bool) (d : Db)
      → Holds one off d
      → Post (λ _. Holds one off) (store_found key text flag found d)
  unfolding store_found
  store_found-Holds key text replace false d h = record { held = h.held; chain = h.chain }
  store_found-Holds key text insert true d h = record { held = h.held; chain = h.chain }
  store_found-Holds key text flag false d h =
      step one one _ _ (store_new-Holds key text d h) (λ _ e k. k)
  store_found-Holds key text flag true d h =
      step one one _ _ (store_over-Holds key text d h) (λ _ e k. k)
