-- ===== src/Printd/Printing.antt =====
-- apue.3e/printer/printd.c: one turn of the thread that talks to the printer.
--
-- What the printer, the network and the disk do in a turn is an argument. A job that waits is taken from
-- the head of the list; the turn leaves it printed, put back or dropped, or the daemon ends in it.
pub mod Request
pub mod Safety
pub mod Invariant
mod Examples
use play_apue.Prelude.{
  ℕ, ◌+◌, ltb, ◌⊎◌, inl, inr, Bool, true, false, not, ◌&&◌, Option, none, some, List, [], ◌∷◌, ◌++◌,
  if◌then◌else◌, Bytes, codes, length,
}
use play_apue.Db.Ascii.{digits}
use play_apue.Printd.{Printreq}
use play_apue.Printd.JobNumber.{update_jobno}
use play_apue.Printd.Ipp.{is_text, fill_ibuf}
use play_apue.Printd.Spool.{Spool, unlink}

-- What the calls of one turn return: the canonical name that the configuration leads to, if it leads to
-- a printer (the name may be null), whether fstat, connect_retry, writev, the write of the backspace,
-- all of writen and all of read succeed, and the result of printer_status.
pub record Turn : Type 0 where
  pub configured : Option (Option Bytes)
  pub fstats : Bool
  pub connects : Bool
  pub writes_headers : Bool
  pub writes_backspace : Bool
  pub writes_file : Bool
  pub reads_file : Bool
  pub printer_status : Bool

-- The daemon's state: the spool with `reread`, `printer_name` and the job file.
pub record Server : Type 0 where
  pub spool : Spool
  pub reread : Bool
  pub printer_name : Bytes
  pub job_file : Bytes

-- How a turn ends. The bytes are those that the printer was sent; `overrun` is the write past one of
-- the buffers `str`, `ibuf` and `hbuf`, after which nothing is known, with the state before it.
pub data Result : Type 0 where
  waiting : Result
  exited overrun : Server → Result
  canceled deferred : Server → Result
  printed : Bytes → Server → Result

-- The text set out for `hbuf`, for a content length.
pub http_header : Bytes → ℕ → Bytes
http_header printer_name content_length =
    codes "POST /ipp HTTP/1.1\r\n"
    ++ (codes "Content-Length: "
        ++ (digits content_length
            ++ (codes "\r\n"
                ++ (codes "Content-Type: application/ipp\r\n"
                    ++ (codes "Host: " ++ (printer_name ++ codes ":631\r\n\r\n"))))))

-- `HBUFSZ`
abbrev pub hbufsz : ℕ
hbufsz = 512

-- What `hbuf` then holds; `none` is an overrun. The null of the last sprintf is overwritten.
unfoldable pub fill_hbuf : Bytes → ℕ → Option Bytes
fill_hbuf printer_name content_length =
    if ltb hbufsz (length (http_header printer_name content_length))
    then none
    else some (http_header printer_name content_length)

-- `extra`
abbrev pub extra : Printreq → ℕ
extra req = if is_text req.flags then 1 else 0

-- What is written between the headers and the file: it makes the printer take PostScript as text.
abbrev pub backspace : Printreq → Bytes
backspace req = if is_text req.flags then 8 ∷ [] else []

abbrev pub put_back : ℕ × Printreq → Server → Server
put_back job s = record s { spool = record s.spool { jobs = job ∷ s.spool.jobs } }

-- The two calls of `unlink`.
abbrev pub remove_files : Bytes → Server → Server
remove_files name s = record s {
  spool = record s.spool {
    data_dir = unlink name s.spool.data_dir;
    req_dir = unlink name s.spool.req_dir;
  };
}

-- From the call of `writev` on, with the data file read.
pub write_job : Turn → ℕ × Printreq → Bytes → Bytes → Bytes → Server → Result
write_job turn (jobid, req) file request header s =
    if not turn.writes_headers
    then deferred (put_back (jobid, req) s)
    else if is_text req.flags && not turn.writes_backspace
    then deferred (put_back (jobid, req) s)
    else if not turn.writes_file
    then deferred (put_back (jobid, req) s)
    else if not turn.reads_file
    then deferred (put_back (jobid, req) s)
    else if turn.printer_status
    then printed (header ++ (request ++ (backspace req ++ file))) (remove_files (digits jobid) s)
    else deferred (put_back (jobid, req) s)

pub with_hbuf : Turn → ℕ × Printreq → Bytes → Bytes → Option Bytes → Server → Result
with_hbuf turn job file request none s = overrun s
with_hbuf turn job file request (some header) s = write_job turn job file request header s

pub with_ibuf : Turn → ℕ × Printreq → Bytes → Option Bytes → Server → Result
with_ibuf turn job file none s = overrun s
with_ibuf turn job file (some request) s =
    with_hbuf turn job file request
      (fill_hbuf s.printer_name (length file + length request + extra job.1)) s

-- From the IPP header on.
pub send_job : Turn → ℕ × Printreq → Bytes → Server → Result
send_job turn job file s = with_ibuf turn job file (fill_ibuf job.0 s.printer_name job.1) s

-- From the opening of the data file on.
pub open_job : Turn → ℕ × Printreq → Option Bytes → Server → Result
open_job turn job none s = canceled s
open_job turn job (some file) s =
    if not turn.fstats
    then canceled s
    else if not turn.connects
    then deferred (put_back job s)
    else send_job turn job file s

abbrev pub name_of : Option Bytes → Bytes
name_of none = codes "printer"
name_of (some name) = name

-- The check for a change in the configuration; without a printer the daemon exits.
pub init_printer : Option (Option Bytes) → Server → Result ⊎ Server
init_printer none s = inl (exited s)
init_printer (some name) s = inr (record s { printer_name = name_of name })

pub check_config : Turn → Server → Result ⊎ Server
check_config turn s =
    if s.reread then init_printer turn.configured (record s { reread = false }) else inr s

-- The rest of a turn whose job has been taken from the list.
pub print_job : Turn → ℕ × Printreq → Result ⊎ Server → Result
print_job turn job (inl r) = r
print_job turn job (inr s) = open_job turn job (s.spool.data_dir (digits job.0)) s

-- With the list of the jobs.
pub take_job : Turn → List (ℕ × Printreq) → Server → Result
take_job turn [] s = waiting
take_job turn (job ∷ jobs) s = print_job turn job (
    check_config turn (record s {
      spool = record s.spool { jobs = jobs };
      job_file = update_jobno s.spool.nextjob s.job_file;
    }))

pub printer_turn : Turn → Server → Result
printer_turn turn s = take_job turn s.spool.jobs s
