-- ===== src/Db/Ops/Reuse.antt =====
-- The steps of `db_store` of apue.3e/db/db.c that write a new record in the place of a free one.

use play_apue.Prelude.{
  ℕ, ◌+◌, ◌^◌, ◌≤◌, ◌<◌, ◌≡◌, refl, ap, ◌∙◌, true, false, List, [], ◌∷◌, ◌++◌, some, arith, Bytes,
  length, All,
}
use play_apue.Db.State.{Db, Counts, Which, done, bind_outcome}
use play_apue.Db.Record.{ptr_sz, ptr_max}
use play_apue.Db.Record.Pointer.{ptr_at, field, at_idx, db_readptr_lem, db_writeptr_lem, wrote_idx}
use play_apue.Db.Record.Index.{IndexRecord, IsSized, loaded, stored, db_writeidx_lem}
use play_apue.Db.Record.Data.{put_data, db_writedat_lem}
use play_apue.Db.Ops.{
  store_new, store_reuse, db_findfree, unlink_free, findfree_loop, free_off, chain_fuel,
}
use play_apue.Db.Ops.Search.{IsCurrent}
use play_apue.Db.Ops.Chain.{Chain, length-Chain}
use play_apue.Db.Ops.Free.{has_sizes, find_free, walked, free_begun, unlock_free, findfree_loop_lem}
use play_apue.Db.Ops.Relink.{last_ptr}

abbrev pub LacksSizes : ℕ → ℕ → List IndexRecord → Type 0
LacksSizes keylen datlen = All (λ r. has_sizes keylen datlen r ≡ false)

pub find_free_first :
    (keylen datlen p : ℕ) (xs : List IndexRecord) (f : IndexRecord) (ys : List IndexRecord)
    → LacksSizes keylen datlen xs
    → has_sizes keylen datlen f ≡ true
    → find_free keylen datlen p (xs ++ f ∷ ys) ≡ some (last_ptr p xs)
find_free_first keylen datlen p [] f ys h e = rw e refl
find_free_first keylen datlen p (x ∷ xs) f ys (h, hs) e =
    rw h (find_free_first keylen datlen x.off xs f ys hs e)

pub walked-IsCurrent :
    (keylen datlen : ℕ) (xs : List IndexRecord) (f : IndexRecord) (ys : List IndexRecord) (d : Db)
    → LacksSizes keylen datlen xs
    → has_sizes keylen datlen f ≡ true
    → IsCurrent f (walked keylen datlen (xs ++ f ∷ ys) d)
walked-IsCurrent keylen datlen [] f ys d h e = rw e (record {
  cur_idxoff = refl;
  cur_ptrval = refl;
  cur_key = refl;
  cur_datoff = refl;
  cur_datlen = refl;
})
walked-IsCurrent keylen datlen (x ∷ xs) f ys d (h, hs) e =
    rw h (walked-IsCurrent keylen datlen xs f ys (loaded x d) hs e)

-- The structure after `_db_findfree`, where its loop stops with the pointer at `save` in state `w`.
abbrev pub taken : ℕ → Db → Db
taken save w = unlock_free (wrote_idx save (field w.ptrval) w)

pub db_findfree-some :
    (keylen datlen save : ℕ) (rs : List IndexRecord) (d : Db)
    → ptr_sz ≤ length d.idxfd.bytes
    → Chain d.idxfd.bytes (ptr_at d.idxfd.bytes free_off) rs
    → find_free keylen datlen free_off rs ≡ some save
    → (walked keylen datlen rs (free_begun d)).ptrval ≤ ptr_max
    → save < 2 ^ 63
    → db_findfree keylen datlen d ≡ done true (taken save (walked keylen datlen rs (free_begun d)))
unfolding db_findfree unlink_free
db_findfree-some keylen datlen save rs d fits c e low small =
    let p = ptr_at d.idxfd.bytes free_off in
    let d1 : Db = record d {
      locks = record { on = Which.idxfd; off = free_off; len = 1; exclusive = true } ∷ d.locks;
    } in
    let w : Db = walked keylen datlen rs (free_begun d) in
    let looped : findfree_loop (chain_fuel (free_begun d)) keylen datlen free_off p (free_begun d)
        ≡ done (some save) w =
      findfree_loop_lem (chain_fuel d) keylen datlen free_off p rs (free_begun d)
        (omega (arith, length-Chain d.idxfd.bytes p rs c)) c
      ∙ ap (λ o. done o w) e in
    rw (db_readptr_lem free_off d1 (omega arith) (omega arith), bind_outcome)
      (rw (looped, bind_outcome)
        (rw (db_writeptr_lem save w.ptrval w low small, bind_outcome) refl))

-- The record that is written, by the structure.
abbrev pub filling : Bytes → Bytes → ℕ → Db → IndexRecord
filling key text p v = record {
  off = v.idxoff;
  ptrval = p;
  key = key;
  datoff = v.datoff;
  datlen = length text + 1;
}

abbrev pub count_stor2 : Counts → Counts
count_stor2 c = record c { cnt_stor2 = c.cnt_stor2 + 1 }

abbrev pub filled : Bytes → Bytes → ℕ → Db → Db
filled key text p v =
    let e =
      wrote_idx v.chainoff (field v.idxoff)
        (stored (filling key text p v) (put_data v.datoff text v)) in
    record e { counts = count_stor2 e.counts }

pub store_reuse_lem :
    (key text : Bytes) (p : ℕ) (v : Db)
    → IsSized (filling key text p v)
    → v.idxoff ≤ ptr_max
    → v.chainoff < 2 ^ 63
    → store_reuse key text p v ≡ done tt (filled key text p v)
unfolding store_reuse
store_reuse_lem key text p v z low small =
    let n = filling key text p v in
    let v1 = put_data v.datoff text v in
    rw (db_writedat_lem text v.datoff v z.datoff_fits, bind_outcome)
      (rw (db_writeidx_lem n v1 z refl refl, bind_outcome)
        (rw (db_writeptr_lem v.chainoff v.idxoff (stored n v1) low small, bind_outcome) refl))

pub store_new-reuse :
    (key text : Bytes) (p : ℕ) (s v e : Db)
    → s.chainoff + ptr_sz ≤ length s.idxfd.bytes
    → s.chainoff < 2 ^ 63
    → ptr_at s.idxfd.bytes s.chainoff ≡ p
    → db_findfree (length key) (length text + 1) (at_idx (s.chainoff + ptr_sz) s) ≡ done true v
    → store_reuse key text p v ≡ done tt e
    → store_new key text s ≡ done tt e
unfolding store_new
store_new-reuse key text p s v e fits small at h k =
    rw
      (
        db_readptr_lem s.chainoff s fits small
            ∙ ap (λ q. done q (at_idx (s.chainoff + ptr_sz) s)) at,
        bind_outcome,
      )
      (rw (h, bind_outcome) k)
