-- ===== src/Db/Record/RoundTrip.antt =====
-- What `_db_writeptr`, `_db_writeidx` and `_db_writedat` of apue.3e/db/db.c put into the files,
-- `_db_readptr`, `_db_readidx` and `_db_readdat` read back.
use play_apue.Prelude.{ℕ, ◌+◌, ◌^◌, ◌≤◌, ◌<◌, ◌≡◌, refl, ap, ◌∙◌, arith, Bytes, Lacks, length}
use play_apue.Db.Ascii.{long_max}
use play_apue.Db.Storage.{seek_set, write_at}
use play_apue.Db.Storage.Laws.{Apart, length-write_at}
use play_apue.Db.State.{Db, done, ◌>>◌}
use play_apue.Db.Record.{
  ptr_sz, ptr_max, db_readptr, db_writeptr, db_readidx, db_writeidx, db_readdat, db_writedat,
}
use play_apue.Db.Record.Pointer.{
  ptr_at, field, length-field, at_idx, wrote_idx, db_readptr_lem, db_writeptr_lem,
  ptr_at-write_at_self, ptr_at-write_at-Apart,
}
use play_apue.Db.Record.Index.{
  IndexRecord, IsSized, RecordAt-write_at, db_readidx_lem, db_writeidx_lem, loaded, stored,
}
use play_apue.Db.Record.Data.{DataAt-write_at, db_readdat_lem, db_writedat_lem, fetched, put_data}

length-field_write :
    (off p : ℕ) (bs : Bytes)
    → p ≤ ptr_max
    → off ≤ length bs
    → off + ptr_sz ≤ length (write_at off (field p) bs)
length-field_write off p bs h k =
    omega (arith, length-write_at off (field p) bs k, length-field p h)

-- A chain pointer that _db_writeptr writes within the file is read back by _db_readptr, and a
-- pointer in the file at a place apart from it is read as before.
pub db_readptr-db_writeptr :
    (off p at : ℕ) (d : Db)
    → p ≤ ptr_max
    → off < 2 ^ 63
    → off ≤ length d.idxfd.bytes
    → at < 2 ^ 63
    → at + ptr_sz ≤ length d.idxfd.bytes
    → Apart at ptr_sz off ptr_sz
    → ((db_writeptr off p >> db_readptr off) d
        ≡ done p (at_idx (off + ptr_sz) (wrote_idx off (field p) d)))
      × ((db_writeptr off p >> db_readptr at) d
          ≡ done (ptr_at d.idxfd.bytes at) (at_idx (at + ptr_sz) (wrote_idx off (field p) d)))
db_readptr-db_writeptr off p at d hp small fits small' fits' apart =
    let e = wrote_idx off (field p) d in
    (
      rw (db_writeptr_lem off p d hp small) (
          db_readptr_lem off e (length-field_write off p d.idxfd.bytes hp fits) small
          ∙ ap (λ q. done q (at_idx (off + ptr_sz) e))
              (ptr_at-write_at_self off p d.idxfd.bytes hp)),
      rw (db_writeptr_lem off p d hp small) (
          db_readptr_lem at e (omega (arith, length-write_at off (field p) d.idxfd.bytes fits))
            small'
          ∙ ap (λ q. done q (at_idx (at + ptr_sz) e))
              (ptr_at-write_at-Apart at off (field p) d.idxfd.bytes
                (ground (arith, length-field p hp)) fits' fits)),
    )

-- An index record whose sizes are in range, written by _db_writeidx at an offset within the file,
-- is read back by _db_readidx field by field.
pub db_readidx-db_writeidx :
    (r : IndexRecord) (d : Db)
    → IsSized r
    → r.off ≤ length d.idxfd.bytes
    → d.datoff ≡ r.datoff
    → d.datlen ≡ r.datlen
    → (db_writeidx r.key r.off seek_set r.ptrval >> db_readidx r.off) d
      ≡ done r.ptrval (loaded r (stored r d))
db_readidx-db_writeidx r d z fits eo el =
    rw (db_writeidx_lem r d z eo el)
      (db_readidx_lem r (stored r d) (RecordAt-write_at r d.idxfd.bytes z fits))

-- A text with no null byte that _db_writedat writes at an offset within the data file is read back
-- by _db_readdat.
pub db_readdat-db_writedat :
    (text : Bytes) (off : ℕ) (d : Db)
    → Lacks 0 text
    → off ≤ long_max
    → off ≤ length d.datfd.bytes
    → (db_writedat text off seek_set >> db_readdat) d
      ≡ done text (fetched text (put_data off text d))
db_readdat-db_writedat text off d plain small fits = rw (db_writedat_lem text off d small) (
    db_readdat_lem text (put_data off text d)
      (DataAt-write_at off text d.datfd.bytes plain small fits) refl)
