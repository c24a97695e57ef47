-- ===== src/Db/Open/Fresh.antt =====
-- A database that `db_open` of apue.3e/db/db.c creates: its table of pointers is all zeros, so that a
-- fetch of any key finds nothing.
use play_apue.Prelude.{
  ℕ, zero, suc, ◌+◌, ◌*◌, ◌<◌, ◌≡◌, refl, true, [], Option, none, some, arith, Bytes, length,
}
use play_apue.Db.Ascii.{digits, pad, atol, digits_from, skip_spaces, signed_scan, scan}
use play_apue.Db.Storage.{read_at, File, lseek, write, write_at, overlay}
use play_apue.Db.State.{Db, done}
use play_apue.Db.Record.{ptr_sz}
use play_apue.Db.Record.Pointer.{ptr_at}
use play_apue.Db.Ops.{db_hash, db_fetch, db_rewind}
use play_apue.Db.Ops.Fetch.{Bucket, db_fetch-eq-find_text}
use play_apue.Db.Ops.Search.{chainoff_of}
use play_apue.Db.Open.{
  pointer_table, nhash_def, db_open, OpenFlags, open_file, init_index, db_alloc,
}

pub length-pointer_table : (n : ℕ) → length (pointer_table n) ≡ n * ptr_sz + 1
unfolding pointer_table pad digits digits_from
length-pointer_table zero = omega arith
length-pointer_table (suc n) = omega (arith, length-pointer_table n)

-- Every pointer of the table is 0.
pub ptr_at-pointer_table : (i n : ℕ) → i < n → ptr_at (pointer_table n) (i * ptr_sz) ≡ 0
unfolding ptr_at read_at pointer_table pad digits digits_from atol skip_spaces signed_scan scan
ptr_at-pointer_table i zero h = absurd (omega arith)
ptr_at-pointer_table zero (suc n) h = refl
ptr_at-pointer_table (suc i) (suc n) h =
    let seven : suc i * ptr_sz ≡ suc (suc (suc (suc (suc (suc (suc (i * ptr_sz))))))) =
      omega arith in
    rw seven (ptr_at-pointer_table i n (omega arith))

-- The structure of a database that is created.
created-Bucket :
    (bs : Bytes) (h o : ℕ)
    → h < nhash_def
    → o ≡ h * ptr_sz + ptr_sz
    → Bucket (pointer_table (nhash_def + 1)) bs o [] []
created-Bucket bs h o lt e =
    let at : o ≡ suc h * ptr_sz = omega arith in
    rw at (record {
      fits = omega (arith, length-pointer_table (nhash_def + 1));
      small = omega arith;
      chain = ptr_at-pointer_table (suc h) (nhash_def + 1) (omega arith);
      texts = tt;
    })

abbrev empty_file : File
empty_file = record { bytes = []; pos = 0 }

-- The structure that `db_open` returns for a database that it creates.
abbrev pub created : Db
created = record (db_alloc empty_file empty_file) {
  idxfd = record { bytes = pointer_table (nhash_def + 1); pos = 967 };
  idxoff = 967;
}

abbrev pub create_flags : OpenFlags
create_flags = record { o_creat = true; o_trunc = true }

pub db_open-created :
    (old_idx old_dat : Option Bytes) → db_open create_flags old_idx old_dat ≡ some (done tt created)
unfolding db_open open_file init_index db_rewind lseek write write_at overlay pointer_table pad
    digits digits_from
db_open-created none none = refl
db_open-created none (some f) = refl
db_open-created (some i) none = refl
db_open-created (some i) (some f) = refl

db_hash-lt : (key : Bytes) → db_hash nhash_def key < nhash_def
unfolding db_hash
db_hash-lt key = omega arith

-- db_open with O_CREAT and O_TRUNC returns a handle, whatever the two files held, and in the
-- database that it makes db_fetch of any key returns null.
pub db_fetch-db_open :
    (old_idx old_dat : Option Bytes) (key : Bytes)
    → (d : Db) × (e : Db) × (db_open create_flags old_idx old_dat ≡ some (done tt d))
      × (db_fetch key d ≡ done none e)
db_fetch-db_open old_idx old_dat key =
    let (e, h, _) =
      db_fetch-eq-find_text key [] [] created (
        created-Bucket [] (db_hash nhash_def key) (chainoff_of created key) (db_hash-lt key)
          refl) in
    (created, e, db_open-created old_idx old_dat, h)
