-- ===== src/Db/Open.antt =====
-- apue.3e/db/db.c, `db_open` and the structure that `_db_alloc` makes for it. The file system is what
-- the two paths `pathname.idx` and `pathname.dat` hold, `none` for a file that is not there.
pub mod Fresh
use play_apue.Prelude.{
  ℕ, zero, suc, ◌+◌, Bool, true, ◌&&◌, Option, none, some, [], ◌∷◌, ◌++◌, Bytes, ◌==◌,
  if◌then◌else◌, length,
}
use play_apue.Db.Ascii.{digits, pad}
use play_apue.Db.Storage.{File}
use play_apue.Db.State.{
  Db, Counts, Which, Outcome, M, ◌>>=◌, ◌>>◌, pure, get, write_idx, take_lock, un_lock,
}
use play_apue.Db.Record.{ptr_sz, newline}
use play_apue.Db.Ops.{db_rewind}

abbrev pub nhash_def : ℕ
nhash_def = 137

abbrev pub hash_off : ℕ
hash_off = ptr_sz

-- The bits of `oflag` that `db_open` looks at.
pub record OpenFlags : Type 0 where
  pub o_creat : Bool
  pub o_trunc : Bool

-- open(2)
unfoldable pub open_file : OpenFlags → Option Bytes → Option File
open_file o none = if o.o_creat then some (record { bytes = []; pos = 0 }) else none
open_file o (some bs) = some (record { bytes = if o.o_trunc then [] else bs; pos = 0 })

abbrev no_counts : Counts
no_counts = record {
  cnt_delok = 0;
  cnt_delerr = 0;
  cnt_fetchok = 0;
  cnt_fetcherr = 0;
  cnt_nextrec = 0;
  cnt_stor1 = 0;
  cnt_stor2 = 0;
  cnt_stor3 = 0;
  cnt_stor4 = 0;
  cnt_storerr = 0;
}

-- `_db_alloc`, which clears the structure, with the fields that `db_open` sets.
abbrev pub db_alloc : File → File → Db
db_alloc idx dat = record {
  idxfd = idx;
  datfd = dat;
  idxbuf = [];
  datbuf = [];
  idxoff = 0;
  idxlen = 0;
  datoff = 0;
  datlen = 0;
  ptrval = 0;
  ptroff = 0;
  chainoff = 0;
  hashoff = hash_off;
  nhash = nhash_def;
  counts = no_counts;
  locks = [];
}

-- `n` chain pointers of value 0, and a newline.
unfoldable pub pointer_table : ℕ → Bytes
pointer_table zero = newline ∷ []
pointer_table (suc n) = pad ptr_sz (digits 0) ++ pointer_table n

-- The initialisation of a database that is created.
unfoldable pub init_index : M (Unit {0})
init_index = do
  take_lock true Which.idxfd 0 0
  d ← get
  if length d.idxfd.bytes == 0 then write_idx (pointer_table (nhash_def + 1)) else pure tt
  un_lock Which.idxfd 0 0

-- `db_open` behind the two calls of open(2); `none` is the null handle.
unfoldable pub db_open : OpenFlags → Option Bytes → Option Bytes → Option (Outcome (Unit {0}))
db_open o idx dat = elim (open_file o idx) [
  | none ↦ none
  | some i ↦ elim (open_file o dat) [
    | none ↦ none
    | some f ↦
        some
          (((if o.o_creat && o.o_trunc then init_index else pure tt) >> db_rewind) (db_alloc i f))
  ]
]
