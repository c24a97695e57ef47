-- ===== src/Db/Ops/Append.antt =====
-- `db_store` of apue.3e/db/db.c where no record has the key and none on the free list has its sizes.
use play_apue.Prelude.{
  ℕ, ◌+◌, ◌^◌, ◌≤◌, ◌<◌, ◌≡◌, refl, ap, sym, ◌∙◌, false, List, none, arith, Bytes, length,
}
use mathlib.Core.Path.{subst, ap₂}
use play_apue.Db.Storage.{write_at}
use play_apue.Db.State.{Db, Counts, Which, done, without, bind_outcome}
use play_apue.Db.Record.{ptr_sz, ptr_max, db_readptr}
use play_apue.Db.Record.Pointer.{ptr_at, field, db_readptr_lem, db_writeptr_lem, wrote_idx, at_idx}
use play_apue.Db.Record.Index.{IndexRecord, IsSized, record_bytes, db_writeidx_append_lem, appended}
use play_apue.Db.Record.Data.{line, put_data, db_writedat_append_lem}
use play_apue.Db.Ops.{append_record, store_new, store_append, db_findfree, free_off}
use play_apue.Db.Ops.Chain.{Chain}
use play_apue.Db.Ops.Insert.{linked}
use play_apue.Db.Ops.Free.{
  find_free, walked, walked-Walks, Walks, free_begun, unlock_free, db_findfree-none,
}

-- The record that is appended to files of these bytes.
abbrev pub new_record : Bytes → Bytes → Bytes → Bytes → ℕ → IndexRecord
new_record idx dat key text p = record {
  off = length idx;
  ptrval = p;
  key = key;
  datoff = length dat;
  datlen = length text + 1;
}

-- The files and the fields of the structure after the record is appended and linked at `off`.
pub record Appends (idx dat : Bytes) (off : ℕ) (text : Bytes) (r : IndexRecord) (c d : Db)
    : Type 0 where
  pub new_idx : d.idxfd.bytes ≡ linked idx off r
  pub new_dat : d.datfd.bytes ≡ write_at (length dat) (line text) dat
  pub same_chainoff : d.chainoff ≡ c.chainoff
  pub same_hashoff : d.hashoff ≡ c.hashoff
  pub same_nhash : d.nhash ≡ c.nhash
  pub same_counts : d.counts ≡ c.counts

module _ (idx dat key text : Bytes) (off p : ℕ) (z : IsSized (new_record idx dat key text p))
    (low : length idx ≤ ptr_max) (small : off < 2 ^ 63) where
  abbrev r : IndexRecord
  r = new_record idx dat key text p

  pub append_record_lem :
      (s : Db)
      → s.idxfd.bytes ≡ idx
      → s.datfd.bytes ≡ dat
      → s.chainoff ≡ off
      → (e : Db) × (append_record key text p s ≡ done tt e) × Appends idx dat off text r s e
  append_record_lem s ei ed eo =
      let s1 = record (put_data (length s.datfd.bytes) text s) {
        locks = without Which.datfd 0 0 s.locks;
      } in
      let s2 = appended r s1 in
      let same_end : length s.datfd.bytes ≡ length dat = ap length ed in
      (
        wrote_idx s2.chainoff (field s2.idxoff) s2,
        rw (db_writedat_append_lem text s (omega (arith, z.datoff_fits, same_end))) (
            rw (db_writeidx_append_lem r s1 z (sym (ap length ei)) same_end refl)
              (db_writeptr_lem s2.chainoff s2.idxoff s2 low (omega arith))),
        record {
          new_idx =
              ap₂
                (λ o b. write_at o (field (length idx)) (write_at (length idx) (record_bytes r) b))
                eo ei;
          new_dat = ap (λ b. write_at (length b) (line text) b) ed;
          same_chainoff = refl;
          same_hashoff = refl;
          same_nhash = refl;
          same_counts = refl;
        },
      )

  -- The counter of an append.
  abbrev counted : Counts → Counts
  counted c = record c { cnt_stor1 = c.cnt_stor1 + 1 }

  store_append_lem :
      (s : Db)
      → s.idxfd.bytes ≡ idx
      → s.datfd.bytes ≡ dat
      → s.chainoff ≡ off
      → (e : Db) × (store_append key text p s ≡ done tt (record e { counts = counted e.counts }))
        × Appends idx dat off text r s e
  unfolding store_append
  store_append_lem s ei ed eo =
      let (e, h, a) = append_record_lem s ei ed eo in (e, rw (h, bind_outcome), a)

  -- Behind a search that found no record with the key.
  pub store_new_lem :
      (fs : List IndexRecord) (s : Db)
      → s.idxfd.bytes ≡ idx
      → s.datfd.bytes ≡ dat
      → s.chainoff ≡ off
      → off + ptr_sz ≤ length idx
      → ptr_at idx off ≡ p
      → Chain idx (ptr_at idx free_off) fs
      → find_free (length key) (length text + 1) free_off fs ≡ none
      → (e : Db) × (store_new key text s ≡ done tt (record e { counts = counted e.counts }))
        × Appends idx dat off text r s e
  unfolding store_new
  store_new_lem fs s ei ed eo fits head free nofit =
      let s1 = at_idx (s.chainoff + ptr_sz) s in
      let s2 = unlock_free (walked (length key) (length text + 1) fs (free_begun s1)) in
      let w : Walks (free_begun s1) (walked (length key) (length text + 1) fs (free_begun s1)) =
        walked-Walks (length key) (length text + 1) fs (free_begun s1) in
      let fits' : s.chainoff + ptr_sz ≤ length s.idxfd.bytes = omega (arith, eo, ap length ei) in
      let read : db_readptr s.chainoff s ≡ done p s1 =
        db_readptr_lem s.chainoff s fits' (omega arith)
        ∙ ap (λ q. done q s1) (ap₂ ptr_at ei eo ∙ head) in
      let searched : db_findfree (length key) (length text + 1) s1 ≡ done false s2 =
        db_findfree-none (length key) (length text + 1) fs s1 (omega arith)
          (subst (λ b. Chain b (ptr_at b free_off) fs) (sym ei) free) nofit in
      let (e, h, a) =
        store_append_lem s2 (w.same_idx ∙ ei) (ap (λ f. f.bytes) w.same_dat ∙ ed)
          (w.same_chainoff ∙ eo) in
      (
        e,
        rw (read, bind_outcome) (rw (searched, bind_outcome) h),
        record {
          new_idx = a.new_idx;
          new_dat = a.new_dat;
          same_chainoff = a.same_chainoff ∙ w.same_chainoff;
          same_hashoff = a.same_hashoff ∙ w.same_hashoff;
          same_nhash = a.same_nhash ∙ w.same_nhash;
          same_counts = a.same_counts ∙ w.same_counts;
        },
      )
