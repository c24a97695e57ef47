-- ===== src/Db/Ops/Delete.antt =====
-- `db_delete` of apue.3e/db/db.c on a chain that has the key: the first record with it goes to the head
-- of the free list, blanked.
use mathlib.Core.Path.{subst, subst₃, ap₂}
use play_apue.Prelude.{
  ℕ, zero, suc, ◌+◌, ◌-◌, ◌^◌, ◌≤◌, ◌<◌, ◌≡◌, ◌≢◌, refl, ap, sym, ◌∙◌, true, false, List, [], ◌∷◌,
  ◌++◌, some, arith, Bytes, length, replicate, length-replicate, Lacks, All, bytes_eq,
  bytes_eq_refl,
}
use play_apue.Db.Storage.{write_at}
use play_apue.Db.State.{Db, Counts, Which, done, without, bind_outcome}
use play_apue.Db.Record.{ptr_sz, ptr_max, sep}
use play_apue.Db.Record.Pointer.{ptr_at, field, at_idx, db_readptr_lem, db_writeptr_lem, wrote_idx}
use play_apue.Db.Record.Index.{
  IndexRecord, IsSized, RecordAt, record_bytes, stored, db_writeidx_lem, text_of,
}
use play_apue.Db.Record.Data.{line, put_data, db_writedat_lem}
use play_apue.Db.Ops.{db_dodelete, db_delete, db_find_and_lock, free_off, space}
use play_apue.Db.Ops.Search.{
  IsCurrent, Found, find_record, find_ptroff, is_some, scanned, begun, chainoff_of,
  db_find_and_lock_lem, scanned-Found, scanned-IsCurrent,
}
use play_apue.Db.Ops.Fetch.{Bucket}
use play_apue.Db.Ops.Relink.{last_ptr}
use play_apue.Db.Ops.Unlink.{freed, unlinked, same_size, IsPlaced}

abbrev pub blanks : ℕ → Bytes
blanks n = replicate n space

-- The record of the structure, as it is written.
abbrev blanked : Db → IndexRecord
blanked s = record {
  off = s.idxoff;
  ptrval = ptr_at s.idxfd.bytes free_off;
  key = blanks (length s.idxbuf);
  datoff = s.datoff;
  datlen = s.datlen;
}

-- The structure in the steps of `_db_dodelete`.
abbrev data_blanked : Db → Db
data_blanked s = at_idx (free_off + ptr_sz) (
    put_data s.datoff (blanks (s.datlen - 1)) (record s {
      datbuf = blanks (s.datlen - 1);
      idxbuf = blanks (length s.idxbuf);
      locks = record { on = Which.idxfd; off = free_off; len = 1; exclusive = true } ∷ s.locks;
    }))

abbrev pub deleted : Db → Db
deleted s =
    let e =
      wrote_idx s.ptroff (field s.ptrval)
        (wrote_idx free_off (field s.idxoff) (stored (blanked s) (data_blanked s))) in
    record e { locks = without Which.idxfd free_off 1 e.locks }

pub db_dodelete_lem :
    (s : Db)
    → IsSized (blanked s)
    → ptr_sz ≤ length s.idxfd.bytes
    → s.idxoff ≤ ptr_max
    → s.ptrval ≤ ptr_max
    → s.ptroff < 2 ^ 63
    → db_dodelete s ≡ done tt (deleted s)
unfolding db_dodelete
db_dodelete_lem s z fits low next small =
    let s2 = record s {
      datbuf = blanks (s.datlen - 1);
      idxbuf = blanks (length s.idxbuf);
      locks = record { on = Which.idxfd; off = free_off; len = 1; exclusive = true } ∷ s.locks;
    } in
    let s3 = put_data s.datoff (blanks (s.datlen - 1)) s2 in
    let s5 = stored (blanked s) (data_blanked s) in
    let len : length (blanks (s.datlen - 1)) + 1 ≡ s.datlen =
      omega (arith, length-replicate (s.datlen - 1) space, z.datlen_pos) in
    rw (db_writedat_lem (blanks (s.datlen - 1)) s.datoff s2 z.datoff_fits, bind_outcome)
      (rw (db_readptr_lem free_off s3 (omega arith) (omega arith), bind_outcome)
        (rw (db_writeidx_lem (blanked s) (data_blanked s) z refl len, bind_outcome)
          (rw (db_writeptr_lem free_off s.idxoff s5 low (omega arith), bind_outcome)
            (rw
              (
                db_writeptr_lem s.ptroff s.ptrval (wrote_idx free_off (field s.idxoff) s5) next
                    small,
                bind_outcome,
              )
              refl))))

pub blanks-Lacks : (n b : ℕ) → space ≢ b → Lacks b (blanks n)
blanks-Lacks zero b h = tt
blanks-Lacks (suc n) b h = (h, blanks-Lacks n b h)

-- A record with another pointer, and with another key of the same length.
pub freed-IsSized :
    (p : ℕ) (key : Bytes) (r : IndexRecord)
    → p ≤ ptr_max
    → length key ≡ length r.key
    → Lacks sep key
    → Lacks 0 key
    → IsSized r
    → IsSized (freed p key r)
freed-IsSized p key r h same plain string z =
    let size : length (text_of (freed p key r)) ≡ length (text_of r) = same_size p key r same in
    record {
      off_pos = z.off_pos;
      off_small = z.off_small;
      ptr_fits = h;
      key_plain = plain;
      key_string = string;
      datoff_fits = z.datoff_fits;
      datlen_pos = z.datlen_pos;
      datlen_fits = z.datlen_fits;
      idxlen_least = omega (arith, z.idxlen_least);
      idxlen_most = omega (arith, z.idxlen_most);
    }

pub blanked-IsSized :
    (p : ℕ) (r : IndexRecord)
    → p ≤ ptr_max
    → IsSized r
    → IsSized (freed p (blanks (length r.key)) r)
blanked-IsSized p r h z =
    freed-IsSized p (blanks (length r.key)) r h (length-replicate (length r.key) space)
      (blanks-Lacks (length r.key) sep (omega arith)) (blanks-Lacks (length r.key) 0 (omega arith))
      z

-- No record of the list has the key.
abbrev pub LacksKey : Bytes → List IndexRecord → Type 0
LacksKey key = All (λ r. bytes_eq r.key key ≡ false)

find_record_first :
    (key : Bytes) (xs : List IndexRecord) (r : IndexRecord) (zs : List IndexRecord)
    → LacksKey key xs
    → r.key ≡ key
    → find_record key (xs ++ r ∷ zs) ≡ some r
find_record_first key [] r zs h e =
    let q : bytes_eq r.key key ≡ true =
      subst (λ k. bytes_eq r.key k ≡ true) e (bytes_eq_refl r.key) in
    rw q refl
find_record_first key (x ∷ xs) r zs (h, hs) e = rw h (find_record_first key xs r zs hs e)

find_ptroff_first :
    (key : Bytes) (off : ℕ) (xs : List IndexRecord) (r : IndexRecord) (zs : List IndexRecord)
    → LacksKey key xs
    → r.key ≡ key
    → find_ptroff key off (xs ++ r ∷ zs) ≡ last_ptr off xs
find_ptroff_first key off [] r zs h e =
    let q : bytes_eq r.key key ≡ true =
      subst (λ k. bytes_eq r.key k ≡ true) e (bytes_eq_refl r.key) in
    rw q refl
find_ptroff_first key off (x ∷ xs) r zs (h, hs) e = rw h (find_ptroff_first key x.off xs r zs hs e)

abbrev pub count_delok : Counts → Counts
count_delok c = record c { cnt_delok = c.cnt_delok + 1 }

-- The structure at the end of a delete.
abbrev pub ended : Db → Db
ended s =
    let e = deleted s in
    record e { counts = count_delok e.counts; locks = without Which.idxfd e.chainoff 1 e.locks }

delete_end :
    (key : Bytes) (d s : Db)
    → db_find_and_lock key true d ≡ done true s
    → db_dodelete s ≡ done tt (deleted s)
    → db_delete key d ≡ done true (ended s)
unfolding db_delete
delete_end key d s h k = rw (h, bind_outcome) (rw (k, bind_outcome) refl)

-- The files after the record is deleted.
pub record Deletes (off : ℕ) (xs : List IndexRecord) (r : IndexRecord) (d e : Db) : Type 0 where
  pub new_idx : e.idxfd.bytes ≡ unlinked d.idxfd.bytes off xs r (blanks (length r.key))
  pub new_dat : e.datfd.bytes ≡ write_at r.datoff (line (blanks (r.datlen - 1))) d.datfd.bytes
  pub same_hashoff : e.hashoff ≡ d.hashoff
  pub same_nhash : e.nhash ≡ d.nhash
  pub same_counts : e.counts ≡ d.counts
  pub at_chain : e.chainoff ≡ off

blanked_current :
    (r : IndexRecord) (s : Db)
    → IsCurrent r s
    → blanked s ≡ freed (ptr_at s.idxfd.bytes free_off) (blanks (length r.key)) r
blanked_current r s c = grind (arith, c.cur_idxoff, c.cur_key, c.cur_datoff, c.cur_datlen)

-- A search that finds the record `r`, with `xs` before it on its chain and `zs` behind, and its
-- deletion; `ws` are all other records that it must not touch.
module _ (key : Bytes) (xs : List IndexRecord) (r : IndexRecord) (zs ws : List IndexRecord)
    (ts : List Bytes) (d : Db)
    (b : Bucket d.idxfd.bytes d.datfd.bytes (chainoff_of d key) (xs ++ r ∷ zs) ts)
    (first : LacksKey key xs) (has : r.key ≡ key) (at : RecordAt d.idxfd.bytes r)
    (c : IsPlaced d.idxfd.bytes (chainoff_of d key) xs r ws)
    (small : last_ptr (chainoff_of d key) xs < 2 ^ 63) where
  abbrev rs : List IndexRecord
  rs = xs ++ r ∷ zs

  abbrev off : ℕ
  off = chainoff_of d key

  abbrev pub searched : Db
  searched = scanned key rs (begun key true d)

  found : Found key rs off (begun key true d) searched
  found = scanned-Found key rs (begun key true d)

  pub searched-IsCurrent : IsCurrent r searched
  searched-IsCurrent =
      scanned-IsCurrent key rs (begun key true d) r (find_record_first key xs r zs first has)

  pub search_finds : db_find_and_lock key true d ≡ done true searched
  search_finds =
      db_find_and_lock_lem key true rs d b.fits b.small b.chain
      ∙ ap (λ o. done (is_some o) searched) (find_record_first key xs r zs first has)

  same_record : blanked searched ≡ freed (ptr_at d.idxfd.bytes free_off) (blanks (length r.key)) r
  same_record =
      blanked_current r searched searched-IsCurrent
      ∙ ap (λ i. freed (ptr_at i free_off) (blanks (length r.key)) r) found.same_idx

  same_place : searched.ptroff ≡ last_ptr off xs
  same_place = found.at_ptroff ∙ find_ptroff_first key off xs r zs first has

  pub db_dodelete-searched : db_dodelete searched ≡ done tt (deleted searched)
  db_dodelete-searched =
      let cur : IsCurrent r searched = searched-IsCurrent in
      db_dodelete_lem searched
        (subst IsSized (sym same_record)
          (blanked-IsSized (ptr_at d.idxfd.bytes free_off) r c.free_low at.sized))
        (omega (arith, b.fits, ap length found.same_idx)) (omega (arith, c.low, cur.cur_idxoff))
        (omega (arith, at.sized.ptr_fits, cur.cur_ptrval)) (omega (arith, same_place))

  pub deleted-Deletes : Deletes off xs r d (deleted searched)
  deleted-Deletes =
      let s : Db = searched in
      let cur : IsCurrent r s = searched-IsCurrent in
      record {
        new_idx =
            subst₃
              (λ o p x.
                write_at s.ptroff (field s.ptrval) (
                  write_at free_off (field s.idxoff)
                    (write_at s.idxoff (record_bytes (blanked s)) s.idxfd.bytes))
                ≡ write_at o (field p) (
                    write_at free_off (field x)
                      (write_at x (record_bytes (blanked s)) s.idxfd.bytes)))
              same_place cur.cur_ptrval cur.cur_idxoff refl
            ∙ ap₂
                (λ q i.
                  write_at (last_ptr off xs) (field r.ptrval)
                    (write_at free_off (field r.off) (write_at r.off (record_bytes q) i)))
                same_record found.same_idx;
        new_dat =
            ap₂ (λ o n. write_at o (line (blanks (n - 1))) s.datfd.bytes) cur.cur_datoff
              cur.cur_datlen
            ∙ ap (λ x. write_at r.datoff (line (blanks (r.datlen - 1))) x.bytes) found.same_dat;
        same_hashoff = found.same_hashoff;
        same_nhash = found.same_nhash;
        same_counts = found.same_counts;
        at_chain = found.same_chainoff;
      }

  pub db_delete_lem : db_delete key d ≡ done true (ended searched)
  db_delete_lem = delete_end key d searched search_finds db_dodelete-searched
