-- ===== src/Db/Record.antt =====
-- apue.3e/db/db.c, the functions that read and write one field or record of the two files.
pub mod Pointer
pub mod Text
pub mod Index
pub mod Data
pub mod Keeps
pub mod RoundTrip
use play_apue.Prelude.{
  ℕ, ◌+◌, ◌-◌, ◌*◌, ◌^◌, Bool, true, false, ◌&&◌, Option, none, some, [], ◌∷◌, ◌++◌, Bytes, cstr,
  ltb, leb, ◌==◌, if◌then◌else◌, length, take, drop, last?,
}
use play_apue.Db.Ascii.{digits, pad, atol}
use play_apue.Db.Storage.{Whence, seek_set, seek_cur, seek_end}
use play_apue.Db.State.{
  Db, Which, Fault, M, ◌>>=◌, ◌>>◌, pure, get, modify, fail, ensure, lseek_idx, lseek_dat, read_idx,
  read_dat, write_idx, write_dat, take_lock, un_lock,
}

abbrev pub idxlen_sz : ℕ
idxlen_sz = 4

abbrev pub sep : ℕ
sep = b':'

abbrev pub newline : ℕ
newline = 10

abbrev pub ptr_sz : ℕ
ptr_sz = 7

abbrev pub ptr_max : ℕ
ptr_max = 9999999

abbrev pub idxlen_min : ℕ
idxlen_min = 6

abbrev pub idxlen_max : ℕ
idxlen_max = 1024

abbrev pub datlen_min : ℕ
datlen_min = 2

abbrev pub datlen_max : ℕ
datlen_max = 1024

-- A negative 64-bit word, and -1.
abbrev pub is_negative : ℕ → Bool
is_negative x = leb (2 ^ 63) x

abbrev pub minus_one : ℕ
minus_one = 2 ^ 64 - 1

-- `strchr`, with what stands before and behind the byte that it finds.
unfoldable pub split_at : ℕ → Bytes → Option (Bytes × Bytes)
split_at b [] = none
split_at b (c ∷ s) =
    if c == b
    then some ([], s)
    else elim (split_at b s) [ none ↦ none | some (before, behind) ↦ some (c ∷ before, behind) ]

abbrev pub ends_in_newline : Bytes → Bool
ends_in_newline s = elim (last? s) [ none ↦ false | some c ↦ c == newline ]

-- `_db_readptr`
unfoldable pub db_readptr : ℕ → M ℕ
db_readptr offset = do
  _ ← lseek_idx offset seek_set
  s ← read_idx ptr_sz
  ensure (length s == ptr_sz) Fault.read_error
  pure (atol s)

-- The fields of an index record's text, from its first separator on.
unfoldable pub parse_fields : Bytes → M (Unit {0})
parse_fields s = elim (split_at sep s) [
  | none ↦ fail Fault.missing_separator
  | some (key, s1) ↦ elim (split_at sep s1) [
    | none ↦ fail Fault.missing_separator
    | some (p1, p2) ↦ elim (split_at sep p2) [
      | some _ ↦ fail Fault.too_many_separators
      | none ↦ do
        modify λ d. record d { idxbuf = key; datoff = atol p1 }
        ensure (ltb (atol p1) (2 ^ 63)) Fault.negative_offset
        modify λ d. record d { datlen = atol p2 }
        ensure (ltb 0 (atol p2) && leb (atol p2) datlen_max) Fault.invalid_length
    ]
  ]
]

-- The part of `_db_readidx` behind the chain pointer and the length.
unfoldable pub read_body : ℕ → M (Unit {0})
read_body len = do
  modify λ d. record d { idxlen = len }
  ensure (leb idxlen_min len && leb len idxlen_max) Fault.invalid_length
  s ← read_idx len
  ensure (length s == len) Fault.read_error
  ensure (ends_in_newline s) Fault.missing_newline
  parse_fields (cstr (take (len - 1) s))

-- `_db_readidx`: the record at an offset, or at the current one for 0. The two iovecs of `readv` are
-- one read of their total size.
unfoldable pub db_readidx : ℕ → M ℕ
db_readidx offset = do
  at ← lseek_idx offset (if offset == 0 then seek_cur else seek_set)
  modify λ d. record d { idxoff = at }
  h ← read_idx (ptr_sz + idxlen_sz)
  if length h == ptr_sz + idxlen_sz
      then (do
        modify λ d. record d { ptrval = atol (take ptr_sz h) }
        read_body (atol (drop ptr_sz h))
        pure (atol (take ptr_sz h)))
      else if length h == 0 && offset == 0
      then pure minus_one
      else fail Fault.read_error

-- `_db_readdat`
unfoldable pub db_readdat : M Bytes
db_readdat = do
  d ← get
  _ ← lseek_dat d.datoff seek_set
  s ← read_dat d.datlen
  ensure (length s == d.datlen) Fault.read_error
  ensure (ends_in_newline s) Fault.missing_newline
  modify λ e. record e { datbuf = cstr (take (d.datlen - 1) s) }
  pure (cstr (take (d.datlen - 1) s))

abbrev pub is_append : Whence → Bool
is_append seek_end = true
is_append _ = false

-- `_db_writedat`
unfoldable pub db_writedat : Bytes → ℕ → Whence → M (Unit {0})
db_writedat text offset whence = do
  if is_append whence then take_lock true Which.datfd 0 0 else pure tt
  at ← lseek_dat offset whence
  modify λ d. record d { datoff = at; datlen = length text + 1 }
  write_dat (text ++ newline ∷ [])
  if is_append whence then un_lock Which.datfd 0 0 else pure tt

-- `sprintf(db->idxbuf, "%s%c%lld%c%ld\n", …)`
unfoldable pub index_text : Bytes → ℕ → ℕ → Bytes
index_text key datoff datlen = key ++ sep ∷ (digits datoff ++ sep ∷ (digits datlen ++ newline ∷ []))

-- `sprintf(asciiptrlen, "%*lld%*d", …)`
unfoldable pub index_header : ℕ → ℕ → Bytes
index_header ptrval len = pad ptr_sz (digits ptrval) ++ pad idxlen_sz (digits len)

-- Where the index records begin, which is also what an append locks from.
abbrev pub records_off : Db → ℕ
records_off d = (d.nhash + 1) * ptr_sz + 1

-- `_db_writeidx`. A negative pointer is a word above `ptr_max`.
unfoldable pub db_writeidx : Bytes → ℕ → Whence → ℕ → M (Unit {0})
db_writeidx key offset whence ptrval = do
  modify λ d. record d { ptrval = ptrval }
  ensure (leb ptrval ptr_max) Fault.invalid_ptr
  modify λ d. record d { idxbuf = index_text key d.datoff d.datlen }
  d ← get
  ensure (leb idxlen_min (length d.idxbuf) && leb (length d.idxbuf) idxlen_max) Fault.invalid_length
  if is_append whence then take_lock true Which.idxfd (records_off d) 0 else pure tt
  at ← lseek_idx offset whence
  modify λ e. record e { idxoff = at }
  write_idx (index_header ptrval (length d.idxbuf) ++ d.idxbuf)
  if is_append whence then un_lock Which.idxfd (records_off d) 0 else pure tt

-- `_db_writeptr`
unfoldable pub db_writeptr : ℕ → ℕ → M (Unit {0})
db_writeptr offset ptrval = do
  ensure (leb ptrval ptr_max) Fault.invalid_ptr
  _ ← lseek_idx offset seek_set
  write_idx (pad ptr_sz (digits ptrval))
