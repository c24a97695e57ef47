-- ===== src/Memstream.antt =====
-- apue.3e/exercises/fmemopen.c: a stream over a buffer in memory.
--
-- The buffer is the list of its bytes. A bit of `flags` is a Boolean field, so that the flags 0 are
-- those with no bit set. Sizes are below 2^31, where the conversions of a size or a position between
-- `size_t` and `int` change nothing; the offset of a seek is any number, and is cut to an `int`. Each function of the stream returns its result with the new stream.
pub mod Mode
pub mod Invariant
pub mod Contents
mod Examples
use play_apue.Prelude.{
  ℕ, zero, suc, ◌+◌, ◌-◌, ◌%◌, ◌^◌, Bool, true, false, ◌&&◌, ◌||◌, not, Option, none, some, List,
  [], ◌∷◌, ◌++◌, ltb, leb, ◌==◌, if◌then◌else◌, Bytes, length, take, drop, min, ℤ, pos, negsuc,
  add_ℕ,
}

-- `MS_READ`, `MS_WRITE`, `MS_APPEND`, `MS_TRUNCATE` and `MS_MYBUF`.
pub record Flags : Type 0 where
  pub ms_read : Bool
  pub ms_write : Bool
  pub ms_append : Bool
  pub ms_truncate : Bool
  pub ms_mybuf : Bool

abbrev pub no_flags : Flags
no_flags = record {
  ms_read = false;
  ms_write = false;
  ms_append = false;
  ms_truncate = false;
  ms_mybuf = false;
}

-- `flags != 0`
abbrev pub any_flag : Flags → Bool
any_flag f = f.ms_read || f.ms_write || f.ms_append || f.ms_truncate || f.ms_mybuf

-- `struct memstream`
pub record Memstream : Type 0 where
  pub buf : Bytes
  pub rsize : ℕ
  pub vsize : ℕ
  pub curpos : ℕ
  pub flags : Flags

pub data Errno : Type 0 where
  einval enomem ebadf : Errno

pub data Result (A : Type 0) : Type 0 where
  ok : A → Result A
  err : Errno → Result A

-- One round of the loop over the mode; `none` is the return of 0.
pub mode_step : ℕ → Flags → Option Flags
mode_step c f =
    if c == b'r'
    then (if any_flag f then none else some (record f { ms_read = true }))
    else if c == b'w'
    then (if any_flag f then none else some (record f { ms_write = true; ms_truncate = true }))
    else if c == b'a'
    then (if any_flag f then none else some (record f { ms_append = true }))
    else if c == b'+'
    then (if any_flag f then some (record f { ms_read = true; ms_write = true }) else none)
    else if c == b'b'
    then (if any_flag f then some f else none)
    else none

pub mode_loop : Bytes → Flags → Flags
mode_loop [] f = f
mode_loop (c ∷ cp) f = elim (mode_step c f) [ none ↦ no_flags | some f' ↦ mode_loop cp f' ]

pub type_to_flags : Bytes → Flags
type_to_flags type = mode_loop type no_flags

pub find_end : Bytes → ℕ → ℕ
find_end buf zero = 0
find_end [] (suc len) = 0
find_end (c ∷ buf) (suc len) = let rest = find_end buf len in if c == 0 then 0 else suc rest

-- The byte at an index is set.
abbrev pub set : Bytes → ℕ → ℕ → Bytes
set [] i v = []
set (x ∷ xs) zero v = v ∷ xs
set (x ∷ xs) (suc i) v = x ∷ set xs i v

-- `memcpy(buf + off, bytes, length bytes)` within the buffer.
abbrev pub copy_to : Bytes → ℕ → Bytes → Bytes
copy_to buf off bytes = take off buf ++ (bytes ++ drop (off + length bytes) buf)

-- What the libraries return: whether the structure is allocated, the block of a size, and the error of
-- `funopen`, where it fails.
pub record Host : Type 0 where
  pub has_struct : Bool
  pub malloc : ℕ → Option Bytes
  pub funopen : Option Errno

-- The position, and the part of the buffer that counts, at the start.
pub first_position : Flags → Bytes → ℕ → ℕ
first_position f buf rsize = if f.ms_append then find_end buf rsize else 0

pub first_vsize : Flags → ℕ → ℕ → ℕ
first_vsize f curpos size = if f.ms_append then curpos else if f.ms_truncate then 0 else size

-- From `funopen` on; where it fails, what was allocated is freed.
pub open_stream : Host → Memstream → Result Memstream
open_stream host ms = elim host.funopen [ none ↦ ok ms | some e ↦ err e ]

-- With the block that `malloc` returned.
pub own_buffer : Host → ℕ → Flags → Option Bytes → Result Memstream
own_buffer host size f none = err enomem
own_buffer host size f (some buf) = open_stream host (record {
  buf = buf;
  rsize = size;
  vsize = first_vsize f 0 size;
  curpos = 0;
  flags = record f { ms_mybuf = true };
})

pub open_buffer : Host → Option Bytes → ℕ → Flags → Result Memstream
open_buffer host (some buf) size f =
    let curpos = first_position f buf size in
    open_stream host (record {
      buf = buf;
      rsize = size;
      vsize = first_vsize f curpos size;
      curpos = curpos;
      flags = f;
    })
open_buffer host none size f =
    if not (f.ms_read && f.ms_write) then err einval else own_buffer host size f (host.malloc size)

pub fmemopen : Host → Option Bytes → ℕ → Bytes → Result Memstream
fmemopen host buf size type =
    if size == 0
    then err einval
    else if not host.has_struct
    then err enomem
    else if not (any_flag (type_to_flags type))
    then err einval
    else open_buffer host buf size (type_to_flags type)

-- The bytes read; their number is the result.
pub mstream_read : ℕ → Memstream → Memstream × Result Bytes
mstream_read len ms =
    if not ms.flags.ms_read
    then (ms, err ebadf)
    else if leb ms.vsize ms.curpos
    then (ms, ok [])
    else let nr = min len (ms.vsize - ms.curpos) in
      (record ms { curpos = ms.curpos + nr }, ok (take nr (drop ms.curpos ms.buf)))

-- After the copy, which ended at `curpos`: the stream grows, and is ended by a null.
pub grow : Memstream → Memstream
grow ms =
    if ltb ms.vsize ms.curpos
    then record ms {
      vsize = ms.curpos;
      buf =
          if (ms.flags.ms_read && ms.flags.ms_write) && ltb ms.curpos ms.rsize
          then set ms.buf ms.curpos 0
          else ms.buf;
    }
    else ms

pub end_null : Memstream → Memstream
end_null ms =
    if (ms.flags.ms_write || ms.flags.ms_append) && not ms.flags.ms_read
    then record ms {
      buf = if ltb ms.curpos ms.rsize then set ms.buf ms.curpos 0 else set ms.buf (ms.rsize - 1) 0;
    }
    else ms

-- The difference of two values of type `size_t`.
abbrev pub size_sub : ℕ → ℕ → ℕ
size_sub a b = (a + 2 ^ 64 - b) % 2 ^ 64

pub mstream_write : Bytes → Memstream → Memstream × Result ℕ
mstream_write bytes ms =
    if not (ms.flags.ms_append || ms.flags.ms_write)
    then (ms, err ebadf)
    else let off = if ms.flags.ms_append then ms.vsize else ms.curpos in
      let nw = min (length bytes) (size_sub ms.rsize off) in
      (
        end_null (grow (record ms { buf = copy_to ms.buf off (take nw bytes); curpos = off + nw })),
        ok nw,
      )

pub data Whence : Type 0 where
  seek_set seek_end seek_cur : Whence

abbrev pub low_word : ℤ → ℕ
low_word (pos n) = n % 2 ^ 32
low_word (negsuc n) = 2 ^ 32 - 1 - n % 2 ^ 32

-- What an `int` holds of a wider number: its 32 low bits.
abbrev pub to_int : ℤ → ℤ
to_int n = let m = low_word n in if ltb m (2 ^ 31) then pos m else negsuc (2 ^ 32 - m - 1)

-- `off`; the sums are taken in 64 bits, whose low ones are these.
pub seek_target : Whence → ℤ → Memstream → ℤ
seek_target seek_set by ms = to_int by
seek_target seek_end by ms = to_int (add_ℕ ms.vsize by)
seek_target seek_cur by ms = to_int (add_ℕ ms.curpos by)

pub seek_to : ℤ → Memstream → Memstream × Result ℕ
seek_to (negsuc n) ms = (ms, err einval)
seek_to (pos off) ms =
    if ltb ms.vsize off then (ms, err einval) else (record ms { curpos = off }, ok off)

pub mstream_seek : ℤ → Whence → Memstream → Memstream × Result ℕ
mstream_seek by whence ms = seek_to (seek_target whence by ms) ms

-- What is left of the buffer once the stream is closed: nothing where it was the stream's own.
pub mstream_close : Memstream → Option Bytes
mstream_close ms = if ms.flags.ms_mybuf then none else some ms.buf
