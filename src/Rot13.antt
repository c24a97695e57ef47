-- ===== src/Rot13.antt =====
-- apue.3e/advio/rot13c2.c: rot13 with asynchronous reads and writes on eight buffers.
--
-- A schedule says, for each pass over the buffers and each buffer, what aio_error would report of the
-- buffer's operation. A read that is reported complete has put into the buffer what the input file
-- holds at its offset, up to the bytes asked for; a write that is reported complete has put its bytes
-- into the output file. The calls that start an operation, and aio_return, do not fail.
pub mod Slices
pub mod Visit
pub mod Loop
pub mod Progress
pub mod Translate
pub mod Chapter14
mod Examples
use play_apue.Prelude.{
  ℕ, zero, suc, ◌+◌, ◌-◌, ◌%◌, Bool, true, false, ◌&&◌, ◌||◌, not, Option, none, some, List, [],
  ◌∷◌, ltb, leb, ◌==◌, if◌then◌else◌, Bytes, length, take, drop, map, replicate, get_elem?,
}

abbrev pub bsz : ℕ
bsz = 4096

abbrev pub nbuf : ℕ
nbuf = 8

-- `isalpha` in the C locale.
abbrev pub isalpha : ℕ → Bool
isalpha c = (leb b'a' c && leb c b'z') || (leb b'A' c && leb c b'Z')

-- The arithmetic is that of an unsigned char.
pub translate : ℕ → ℕ
translate c =
    if isalpha c
    then (if leb b'n' c
        then (c + 256 - 13) % 256
        else if leb b'a' c
        then (c + 13) % 256
        else if leb b'N' c
        then (c + 256 - 13) % 256
        else (c + 13) % 256)
    else c

-- `enum rwop`
pub data Rwop : Type 0 where
  unused read_pending write_pending : Rwop

-- The files that the control block of a buffer may name.
pub data Fildes : Type 0 where
  ifd ofd : Fildes

-- `struct buf` with the fields of its control block; `content` is the part of `data` that the last
-- read filled, and `listed` whether the entry of `aiolist` is not null.
pub record Buf : Type 0 where
  pub op : Rwop
  pub last : Bool
  pub aio_fildes : Fildes
  pub aio_offset : ℕ
  pub aio_nbytes : ℕ
  pub content : Bytes
  pub listed : Bool

-- What `aio_error` reports: EINPROGRESS, 0, or an error of the operation.
pub data Report : Type 0 where
  in_progress complete failed : Report

-- The variables of `main` that the buffers share, and the output file, a map from offsets to bytes.
pub record Shared : Type 0 where
  pub off : ℕ
  pub numop : ℕ
  pub output : ℕ → Option ℕ

-- `pwrite`: the bytes at an offset, and outside them what was there.
abbrev pub write_at : ℕ → Bytes → (ℕ → Option ℕ) → ℕ → Option ℕ
write_at at bytes out k =
    if leb at k then (elim (get_elem? bytes (k - at)) [ some v ↦ some v | none ↦ out k ]) else out k

-- Case UNUSED: read from the input file if more data remains unread.
pub start_read : Bytes → Buf → Shared → Buf × Shared
start_read input b s =
    if ltb s.off (length input)
    then (
      record b {
        op = read_pending;
        aio_fildes = ifd;
        aio_offset = s.off;
        last = if leb (length input) (s.off + bsz) then true else b.last;
        aio_nbytes = bsz;
        listed = true;
      },
      record s { off = s.off + bsz; numop = s.numop + 1 },
    )
    else (b, s)

-- A read is complete: translate the buffer and write it. `none` is the exit on a short read.
pub read_done : Bytes → Buf → Shared → Option (Buf × Shared)
read_done input b s =
    let got = take b.aio_nbytes (drop b.aio_offset input) in
    let n = length got in
    if not (n == bsz) && not b.last
    then none
    else some (
      record b {
        content = map translate got;
        op = write_pending;
        aio_fildes = ofd;
        aio_nbytes = n;
      },
      s,
    )

-- A write is complete; mark the buffer as unused.
pub write_done : Buf → Shared → Option (Buf × Shared)
write_done b s = some (
  record b { listed = false; op = unused },
  record s {
    numop = s.numop - 1;
    output = write_at b.aio_offset (take b.aio_nbytes b.content) s.output;
  },
)

-- What a pending operation that `aio_error` reports on does next; `none` is the exit on an error.
pub on_report : Report → Buf → Shared → Option (Buf × Shared) → Option (Buf × Shared)
on_report in_progress b s completed = some (b, s)
on_report failed b s completed = none
on_report complete b s completed = completed

pub visit_op : Rwop → Bytes → Report → Buf → Shared → Option (Buf × Shared)
visit_op unused input r b s = some (start_read input b s)
visit_op read_pending input r b s = on_report r b s (read_done input b s)
visit_op write_pending input r b s = on_report r b s (write_done b s)

-- The body of the inner loop, for one buffer.
pub visit : Bytes → Report → Buf → Shared → Option (Buf × Shared)
visit input r b s = visit_op b.op input r b s

abbrev pub visit_then :
    Option (Buf × Shared) → (Shared → Option (List Buf × Shared)) → Option (List Buf × Shared)
visit_then none k = none
visit_then (some (b, s)) k = elim (k s) [ none ↦ none | some (bufs, s') ↦ some (b ∷ bufs, s') ]

-- What the schedule reports on the first of the buffers left in a pass, and on the others; where it
-- ends, nothing is complete.
abbrev pub report : List Report → Report
report [] = in_progress
report (r ∷ rs) = r

abbrev pub reports : List Report → List Report
reports [] = []
reports (r ∷ rs) = rs

-- The inner loop over the buffers.
pub pass : Bytes → List Report → List Buf → Shared → Option (List Buf × Shared)
pass input rs [] s = some ([], s)
pass input rs (b ∷ bufs) s = visit_then (visit input (report rs) b s) (pass input (reports rs) bufs)

-- How a run of the outer loop ends: at its `break`, by an error exit, or not within the schedule.
pub data Outcome : Type 0 where
  finished : Shared → Outcome
  quit running : Outcome

-- The outer loop; each list of reports is one pass. `aio_suspend` only waits.
pub rot13_loop : Bytes → List (List Report) → List Buf → Shared → Outcome
rot13_loop input [] bufs s = running
rot13_loop input (rs ∷ schedule) bufs s = elim (pass input rs bufs s) [
  | none ↦ quit
  | some (bufs', s') ↦ elim (s'.numop == 0 && leb (length input) s'.off) [
    | true ↦ finished s'
    | false ↦ rot13_loop input schedule bufs' s'
  ]
]

-- The initialisation of a buffer; the array is static, and so holds zeros.
abbrev pub initial : Buf
initial = record {
  op = unused;
  last = false;
  aio_fildes = ifd;
  aio_offset = 0;
  aio_nbytes = 0;
  content = [];
  listed = false;
}

abbrev pub start : Shared
start = record { off = 0; numop = 0; output = λ _. none }

-- `main` on an input file, from its truncated output file.
pub rot13 : Bytes → List (List Report) → Outcome
rot13 input schedule = rot13_loop input schedule (replicate nbuf initial) start
