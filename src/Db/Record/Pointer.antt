-- ===== src/Db/Record/Pointer.antt =====
-- The chain pointers of apue.3e/db/db.c: `_db_readptr` and `_db_writeptr` as functions of the file.
use play_apue.Prelude.{
  ℕ, ◌+◌, ◌^◌, ◌≤◌, ◌<◌, ◌≡◌, arith, Bytes, length, append-nil, [], ap, sym, ◌∙◌,
}
use mathlib.Core.Path.{subst}
use play_apue.Db.Ascii.{digits, pad, atol}
use play_apue.Db.Ascii.RoundTrip.{atol-pad, length-pad, length-digits}
use play_apue.Db.Storage.{lseek, read, write, read_at, write_at}
use play_apue.Db.Storage.Laws.{read_at-write_at, length-read_at, read_at-write_at-Apart, Apart}
use play_apue.Db.State.{Db, Fault, dead, done}
use play_apue.Db.Record.{ptr_sz, ptr_max, db_readptr, db_writeptr}

-- The chain pointer at an offset of the index file.
unfoldable pub ptr_at : Bytes → ℕ → ℕ
ptr_at bs off = atol (read_at ptr_sz off bs)

-- The structure after a read of the index file that leaves its offset at `p`.
abbrev pub at_idx : ℕ → Db → Db
at_idx p d = record d { idxfd = record { bytes = d.idxfd.bytes; pos = p } }

unfoldable pub field : ℕ → Bytes
field p = pad ptr_sz (digits p)

pub length-field : (p : ℕ) → p ≤ ptr_max → length (field p) ≡ ptr_sz
unfolding field
length-field p h = length-pad ptr_sz (digits p) (length-digits p 6 (omega arith))

pub atol-field : (p : ℕ) → p ≤ ptr_max → atol (field p) ≡ p
unfolding field
atol-field p h = ap atol (sym (append-nil (field p))) ∙ atol-pad ptr_sz p [] (omega arith) tt

pub db_readptr_lem :
    (off : ℕ) (d : Db)
    → off + ptr_sz ≤ length d.idxfd.bytes
    → off < 2 ^ 63
    → db_readptr off d ≡ done (ptr_at d.idxfd.bytes off) (at_idx (off + ptr_sz) d)
unfolding db_readptr ptr_at lseek read
db_readptr_lem off d fits small = ground (arith, length-read_at ptr_sz off d.idxfd.bytes)

-- The structure after a write of the index file.
abbrev pub wrote_idx : ℕ → Bytes → Db → Db
wrote_idx off s d = record d {
  idxfd = record { bytes = write_at off s d.idxfd.bytes; pos = off + length s };
}

pub db_writeptr_lem :
    (off p : ℕ) (d : Db)
    → p ≤ ptr_max
    → off < 2 ^ 63
    → db_writeptr off p d ≡ done tt (wrote_idx off (field p) d)
unfolding db_writeptr lseek write field
db_writeptr_lem off p d fits small = ground arith

pub db_writeptr_invalid :
    (off p : ℕ) (d : Db) → ptr_max < p → db_writeptr off p d ≡ dead Fault.invalid_ptr d
unfolding db_writeptr
db_writeptr_invalid off p d h = ground arith

pub ptr_at-write_at_self :
    (off p : ℕ) (bs : Bytes) → p ≤ ptr_max → ptr_at (write_at off (field p) bs) off ≡ p
unfolding ptr_at
ptr_at-write_at_self off p bs h =
    let e : read_at ptr_sz off (write_at off (field p) bs) ≡ field p =
      subst (λ n. read_at n off (write_at off (field p) bs) ≡ field p) (length-field p h)
        (read_at-write_at off (field p) bs) in
    ap atol e ∙ atol-field p h

pub ptr_at-write_at-Apart :
    (at off : ℕ) (s bs : Bytes)
    → Apart at ptr_sz off (length s)
    → at + ptr_sz ≤ length bs
    → off ≤ length bs
    → ptr_at (write_at off s bs) at ≡ ptr_at bs at
unfolding ptr_at
ptr_at-write_at-Apart at off s bs h k l = ap atol (read_at-write_at-Apart ptr_sz at off s bs h k l)
