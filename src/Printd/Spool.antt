-- ===== src/Printd/Spool.antt =====
-- apue.3e/printer/printd.c: the spool directory, and the thread that takes a job from a client.
--
-- A directory of the spool is a map from file names to contents. The list of jobs is the sequence that
-- the modules below Printd.Queue show it to be. `strerror` is an argument, and so is what the disk does
-- with the calls of one client.
pub mod Copy
pub mod Client
pub mod Sent
pub mod Restart
pub mod Examples
use play_apue.Prelude.{
  ℕ, zero, suc, ◌+◌, ◌*◌, ◌/◌, ◌%◌, ◌^◌, Bool, true, false, ◌&&◌, ◌||◌, not, Option, none, some,
  List, [], ◌∷◌, ◌++◌, ltb, leb, ◌==◌, if◌then◌else◌, Bytes, codes, length, take, drop, bytes_eq,
  cstr,
}
use play_apue.Db.Ascii.{digits, atol}
use play_apue.Printd.{Printreq}
use play_apue.Printd.JobNumber.{get_newjobno}
use play_apue.Printd.TimedRead.Rest.{arriving}
use play_apue.Printd.TimedRead.{Arrival, bytes, Reading, failed, got, Errno, tread, treadn}

-- A control file: the structure that was written, or less than one.
pub data Control : Type 0 where
  whole : Printreq → Control
  cut : Control

-- The directories `data` and `reqs` with the jobs that wait and the next number.
pub record Spool : Type 0 where
  pub data_dir : Bytes → Option Bytes
  pub req_dir : Bytes → Option Control
  pub jobs : List (ℕ × Printreq)
  pub nextjob : ℕ

-- `creat` and `write` at a name, and `unlink`.
abbrev pub put : {A : Type 0} → Bytes → A → (Bytes → Option A) → Bytes → Option A
put name a dir k = if bytes_eq name k then some a else dir k

abbrev pub unlink : {A : Type 0} → Bytes → (Bytes → Option A) → Bytes → Option A
unlink name dir k = if bytes_eq name k then none else dir k

-- What a `write` does: all of it, less, or an error.
pub data Wrote : Type 0 where
  full short : Wrote
  error : ℕ → Wrote

-- What the disk does for one client: the errors of the two calls of `creat`, and the writes to the data
-- file in turn, the last ones of which are full.
pub record Disk : Type 0 where
  pub creat_data : Option ℕ
  pub write_data : List Wrote
  pub creat_req : Option ℕ
  pub write_req : Wrote

abbrev pub eio : ℕ
eio = 5

-- ETIME, and the error that stands for all others of a socket.
abbrev pub errno_of : Errno → ℕ
errno_of Errno.etime = 62
errno_of Errno.other = eio

-- `struct printresp`, with the numbers as they stand in memory.
pub record Printresp : Type 0 where
  pub retcode : ℕ
  pub jobid : ℕ
  pub msg : Bytes

-- `htonl` on a little-endian machine.
abbrev pub htonl : ℕ → ℕ
htonl n =
    n % 2 ^ 8 * 2 ^ 24
    + n / 2 ^ 8 % 2 ^ 8 * 2 ^ 16
    + n / 2 ^ 16 % 2 ^ 8 * 2 ^ 8
    + n / 2 ^ 24 % 2 ^ 8

abbrev pub byte_at : ℕ → Bytes → ℕ
byte_at i [] = 0
byte_at zero (c ∷ b) = c
byte_at (suc i) (c ∷ b) = byte_at i b

-- `ntohl` of the four bytes at an offset.
abbrev pub word_at : ℕ → Bytes → ℕ
word_at i b =
    byte_at i b * 2 ^ 24
    + byte_at (i + 1) b * 2 ^ 16
    + byte_at (i + 2) b * 2 ^ 8
    + byte_at (i + 3) b

-- `sizeof(struct printreq)`, with USERNM_MAX and JOBNM_MAX.
abbrev pub printreq_size : ℕ
printreq_size = 4 + 4 + 64 + 256

-- The request header after the two calls of `ntohl`; a text ends at its first null.
pub read_request : Bytes → Printreq
read_request b = record {
  size = word_at 0 b;
  flags = word_at 4 b;
  usernm = cstr (drop 8 b);
  jobnm = cstr (drop 72 b);
}

-- `flags |= PR_TEXT`
abbrev pub set_text : Printreq → Printreq
set_text req = record req { flags = if req.flags % 2 == 0 then req.flags + 1 else req.flags }

-- `strncmp(buf, "%!PS", 4) == 0`; bytes of the buffer behind a shorter piece are taken to differ.
abbrev pub is_postscript : Bytes → Bool
is_postscript buf = bytes_eq (take 4 buf) (codes "%!PS")

abbrev pub iobufsz : ℕ
iobufsz = 8192

abbrev pub next_write : List Wrote → Wrote
next_write [] = full
next_write (w ∷ ws) = w

abbrev pub later_writes : List Wrote → List Wrote
later_writes [] = []
later_writes (w ∷ ws) = ws

-- How the loop ends: the data file and the request, or the error of a write.
pub data Copied : Type 0 where
  copied : Bytes → Printreq → Copied
  spoiled : ℕ → Copied

abbrev pub on_wrote : Wrote → Copied → Copied
on_wrote full again = again
on_wrote short again = spoiled eio
on_wrote (error e) again = spoiled e

-- One reading from the client, `again` being the next round.
pub copy_round :
    Bool
    → Bytes
    → Printreq
    → Wrote
    → Reading × List Arrival
    → (Bytes → Printreq → List Arrival → Copied)
    → Copied
copy_round first file req w (failed e, rest) again = copied file req
copy_round first file req w (got [], rest) again = copied file req
copy_round first file req w (got (c ∷ d), rest) again = on_wrote w (
    again (file ++ c ∷ d) (if first && not (is_postscript (c ∷ d)) then set_text req else req) rest)

-- `while ((nr = tread(sockfd, buf, IOBUFSZ, 20)) > 0)`, with fuel.
pub copy_loop : ℕ → Bool → Bytes → Printreq → List Wrote → List Arrival → Copied
copy_loop zero first file req ws from = copied file req
copy_loop (suc fuel) first file req ws from =
    copy_round first file req (next_write ws) (tread iobufsz from)
      (λ file' req' rest. copy_loop fuel false file' req' (later_writes ws) rest)

pub copy_data : Printreq → List Wrote → List Arrival → Copied
copy_data req ws from = copy_loop (arriving from) true [] req ws from

-- The response to a client whose job is not taken. The message is that of the number in memory.
abbrev pub refuse : (ℕ → Bytes) → ℕ → Printresp
refuse strerror e = record { retcode = htonl e; jobid = 0; msg = take 512 (strerror (htonl e)) }

-- What the write of the control file leads to.
pub write_request : (ℕ → Bytes) → Wrote → ℕ → Printreq → Bytes → Spool → Spool × Printresp
write_request strerror full jobid req name s = (
  record s { req_dir = put name (whole req) s.req_dir; jobs = s.jobs ++ (jobid, req) ∷ [] },
  record { retcode = 0; jobid = htonl jobid; msg = codes "request ID " ++ digits jobid },
)
write_request strerror short jobid req name s = (
  record s { req_dir = unlink name (put name cut s.req_dir); data_dir = unlink name s.data_dir },
  refuse strerror eio,
)
write_request strerror (error e) jobid req name s = (
  record s { req_dir = unlink name (put name cut s.req_dir); data_dir = unlink name s.data_dir },
  refuse strerror e,
)

-- From the control file on, by the error of its `creat`: the data file is there.
pub create_request :
    (ℕ → Bytes) → Option ℕ → Wrote → ℕ → Printreq → Bytes → Spool → Spool × Printresp
create_request strerror (some e) w jobid req name s =
    (record s { data_dir = unlink name s.data_dir }, refuse strerror e)
create_request strerror none w jobid req name s = write_request strerror w jobid req name s

-- From the end of the loop on.
pub store_data : (ℕ → Bytes) → Disk → ℕ → Bytes → Copied → Spool → Spool × Printresp
store_data strerror disk jobid name (spoiled e) s =
    (record s { data_dir = unlink name (put name [] s.data_dir) }, refuse strerror e)
store_data strerror disk jobid name (copied file req) s =
    create_request strerror disk.creat_req disk.write_req jobid req name
      (record s { data_dir = put name file s.data_dir })

-- From the data file on, by the error of its `creat`; its name is that of the job.
pub create_data :
    (ℕ → Bytes) → Disk → Option ℕ → ℕ → Printreq → List Arrival → Spool → Spool × Printresp
create_data strerror disk (some e) jobid req from s = (s, refuse strerror e)
create_data strerror disk none jobid req from s =
    store_data strerror disk jobid (digits jobid) (copy_data req disk.write_data from) s

pub accept : (ℕ → Bytes) → Disk → Printreq → List Arrival → Spool → Spool × Printresp
accept strerror disk req from s =
    let (jobid, next) = get_newjobno s.nextjob in
    create_data strerror disk disk.creat_data jobid req from (record s { nextjob = next })

pub on_header : (ℕ → Bytes) → Disk → Reading × List Arrival → Spool → Spool × Printresp
on_header strerror disk (failed e, from) s = (s, refuse strerror (errno_of e))
on_header strerror disk (got b, from) s =
    if length b == printreq_size
    then accept strerror disk (read_request b) from s
    else (s, refuse strerror eio)

pub client_thread : (ℕ → Bytes) → Disk → List Arrival → Spool → Spool × Printresp
client_thread strerror disk from s = on_header strerror disk (treadn printreq_size from) s
