-- ===== src/Db/State.antt =====
-- apue.3e/db/db.c: the `DB` structure, and the monad in which its functions run. A function changes
-- the structure and the two files behind it. `err_dump` and `err_quit` end the process: nothing runs
-- after them, and of the state at that point only the files remain.
use play_apue.Prelude.{
  ℕ, Bool, true, false, ◌&&◌, none, some, List, [], ◌∷◌, Bytes, ◌==◌, if◌then◌else◌,
}
use play_apue.Db.Storage.{File, Whence, lseek, read, write}

-- The `COUNT` fields.
pub record Counts : Type 0 where
  pub cnt_delok : ℕ
  pub cnt_delerr : ℕ
  pub cnt_fetchok : ℕ
  pub cnt_fetcherr : ℕ
  pub cnt_nextrec : ℕ
  pub cnt_stor1 : ℕ
  pub cnt_stor2 : ℕ
  pub cnt_stor3 : ℕ
  pub cnt_stor4 : ℕ
  pub cnt_storerr : ℕ

pub data Which : Type 0 where
  idxfd datfd : Which

-- A record lock held by the process: a range of one of the files, `len` 0 up to its end.
pub record Lock : Type 0 where
  pub on : Which
  pub off : ℕ
  pub len : ℕ
  pub exclusive : Bool

-- `idxfd` and `datfd` are the files behind these descriptors, `idxbuf` and `datbuf` the C strings
-- that the buffers begin with. Offsets and lengths are 64-bit words.
pub record Db : Type 0 where
  pub idxfd : File
  pub datfd : File
  pub idxbuf : Bytes
  pub datbuf : Bytes
  pub idxoff : ℕ
  pub idxlen : ℕ
  pub datoff : ℕ
  pub datlen : ℕ
  pub ptrval : ℕ
  pub ptroff : ℕ
  pub chainoff : ℕ
  pub hashoff : ℕ
  pub nhash : ℕ
  pub counts : Counts
  pub locks : List Lock

-- The calls of `err_dump` and `err_quit`, by what they complain of.
pub data Fault : Type 0 where
  seek_error read_error invalid_ptr invalid_length missing_newline : Fault
  missing_separator too_many_separators negative_offset : Fault

-- `endless` is a chain that does not end.
pub data Outcome (A : Type 0) : Type 0 where
  done : A → Db → Outcome A
  dead : Fault → Db → Outcome A
  endless : Outcome A

abbrev pub M : Type 0 → Type 0
M A = Db → Outcome A

abbrev pub bind_outcome : {A B : Type 0} → Outcome A → (A → M B) → Outcome B
bind_outcome (done a d) f = f a d
bind_outcome (dead e d) f = dead e d
bind_outcome endless f = endless

infixl 5 ◌>>=◌ ◌>>◌
abbrev pub ◌>>=◌ : {A B : Type 0} → M A → (A → M B) → M B
◌>>=◌ m f d = bind_outcome (m d) f

abbrev pub ◌>>◌ : {B : Type 0} → M (Unit {0}) → M B → M B
m >> k = m >>= λ _. k

abbrev pub pure : {A : Type 0} → A → M A
pure a d = done a d

abbrev pub get : M Db
get d = done d d

abbrev pub modify : (Db → Db) → M (Unit {0})
modify f d = done tt (f d)

abbrev pub fail : {A : Type 0} → Fault → M A
fail e d = dead e d

abbrev pub ensure : Bool → Fault → M (Unit {0})
ensure b e d = if b then done tt d else dead e d

-- The system calls. A failed `lseek` ends the process at each of its calls.
abbrev pub lseek_idx : ℕ → Whence → M ℕ
lseek_idx off w d = elim (lseek off w d.idxfd) [
  | none ↦ dead seek_error d
  | some f ↦ done f.pos (record d { idxfd = f })
]

abbrev pub lseek_dat : ℕ → Whence → M ℕ
lseek_dat off w d = elim (lseek off w d.datfd) [
  | none ↦ dead seek_error d
  | some f ↦ done f.pos (record d { datfd = f })
]

abbrev pub read_idx : ℕ → M Bytes
read_idx n d = let (s, f) = read n d.idxfd in done s (record d { idxfd = f })

abbrev pub read_dat : ℕ → M Bytes
read_dat n d = let (s, f) = read n d.datfd in done s (record d { datfd = f })

abbrev pub write_idx : Bytes → M (Unit {0})
write_idx s d = done tt (record d { idxfd = write s d.idxfd })

abbrev pub write_dat : Bytes → M (Unit {0})
write_dat s d = done tt (record d { datfd = write s d.datfd })

abbrev pub same_file : Which → Which → Bool
same_file idxfd idxfd = true
same_file datfd datfd = true
same_file _ _ = false

abbrev pub without : Which → ℕ → ℕ → List Lock → List Lock
without f off len [] = []
without f off len (l ∷ ls) =
    if same_file l.on f && (l.off == off && l.len == len)
    then without f off len ls
    else l ∷ without f off len ls

-- `readw_lock` and `writew_lock` wait for other processes; a process's own locks never block it.
abbrev pub take_lock : Bool → Which → ℕ → ℕ → M (Unit {0})
take_lock x f off len =
    modify
      λ d. record d { locks = record { on = f; off = off; len = len; exclusive = x } ∷ d.locks }

-- `un_lock`. The ranges that the library locks coincide or are disjoint, so none is split.
abbrev pub un_lock : Which → ℕ → ℕ → M (Unit {0})
un_lock f off len = modify λ d. record d { locks = without f off len d.locks }
