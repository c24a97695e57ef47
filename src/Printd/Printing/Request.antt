-- ===== src/Printd/Printing/Request.antt =====
-- What the printer is sent for a job of apue.3e/printer/printd.c.
use mathlib.Core.Path.{subst}
use play_apue.Prelude.{
  ℕ, ◌+◌, ◌≤◌, ◌<◌, ◌≡◌, refl, ap, sym, ◌∙◌, ◌⊎◌, inl, inr, false, not, ◌&&◌, Option, none, some,
  List, ◌∷◌, ◌++◌, append_assoc, arith, Bytes, codes, length, drop, length-append, Bool-cases,
  Option-cases,
}
use play_apue.Db.Ascii.{digits, atol, long_max}
use play_apue.Db.Ascii.RoundTrip.{atol-digits}
use play_apue.Printd.{Printreq}
use play_apue.Printd.JobNumber.{update_jobno}
use play_apue.Printd.Ipp.{
  is_text, ipp_request, printer_uri, strsz, ibufsz, fill_ibuf, fill_ibuf_lem,
}
use play_apue.Printd.Printing.{
  Turn, Server, Result, waiting, exited, overrun, canceled, deferred, printed, http_header,
  backspace, hbufsz, fill_hbuf, extra, write_job, with_hbuf, with_ibuf, send_job, open_job,
  init_printer, check_config, print_job, take_job, printer_turn,
}
use play_apue.Printd.Printing.Safety.{either}

-- The three buffers hold what is written to them.
abbrev pub FitsBuffers : ℕ × Printreq → Bytes → ℕ → Type 0
FitsBuffers job printer_name content_length =
    (length (printer_uri printer_name) < strsz)
    × (length (ipp_request job.0 printer_name job.1) ≤ ibufsz)
    × (length (http_header printer_name content_length) ≤ hbufsz)

fill_hbuf_lem :
    (printer_name : Bytes) (n : ℕ) (h : Bytes)
    → fill_hbuf printer_name n ≡ some h
    → (h ≡ http_header printer_name n) × (length (http_header printer_name n) ≤ hbufsz)
unfolding fill_hbuf
fill_hbuf_lem printer_name n h e = ground arith

length-backspace : (req : Printreq) → length (backspace req) ≡ extra req
length-backspace req = elim (Bool-cases (is_text req.flags)) [
  | inl e ↦ rw e refl
  | inr e ↦ rw e refl
]

-- A printed job was sent whole, behind a header that tells its length.
abbrev pub Declares : ℕ × Printreq → (Bytes → Option Bytes) → Result → Type 0
Declares job data_dir (printed sent t) =
    (body file : Bytes) × (data_dir (digits job.0) ≡ some file)
    × (body ≡ ipp_request job.0 t.printer_name job.1 ++ (backspace job.1 ++ file))
    × (sent ≡ http_header t.printer_name (length body) ++ body)
    × FitsBuffers job t.printer_name (length body)
Declares job data_dir waiting = Unit
Declares job data_dir (exited t) = Unit
Declares job data_dir (overrun t) = Unit
Declares job data_dir (canceled t) = Unit
Declares job data_dir (deferred t) = Unit

module _ (turn : Turn) (job : ℕ × Printreq) (d : Bytes → Option Bytes) where
  write_job-Declares :
      (file : Bytes) (t : Server)
      → d (digits job.0) ≡ some file
      → (length (printer_uri t.printer_name) < strsz)
        × (length (ipp_request job.0 t.printer_name job.1) ≤ ibufsz)
      → (n : ℕ) → n ≡ length file + length (ipp_request job.0 t.printer_name job.1) + extra job.1
      → length (http_header t.printer_name n) ≤ hbufsz
      → Declares job d (
          write_job turn job file
            (ipp_request job.0 t.printer_name job.1)
            (http_header t.printer_name n)
            t)
  unfolding write_job
  write_job-Declares file t e fits n k fits_hbuf =
      let P = Declares job d in
      let request : Bytes = ipp_request job.0 t.printer_name job.1 in
      let body : Bytes = request ++ (backspace job.1 ++ file) in
      let q : n ≡ length body = omega (
        arith,
        length-append request (backspace job.1 ++ file),
        length-append (backspace job.1) file,
        length-backspace job.1,
      ) in
      let whole : P (printed (http_header t.printer_name n ++ body) t) = (
        body,
        file,
        e,
        refl,
        ap (λ k. http_header t.printer_name k ++ body) q,
        (fits.0, fits.1, subst (λ k. length (http_header t.printer_name k) ≤ hbufsz) q fits_hbuf),
      ) in
      either P (not turn.writes_headers) tt (
        either P (is_text job.1.flags && not turn.writes_backspace) tt (
          either P (not turn.writes_file) tt
            (either P (not turn.reads_file) tt (either P turn.printer_status whole tt))))

  with_ibuf-Declares :
      (file : Bytes) (o : Option Bytes) (t : Server)
      → d (digits job.0) ≡ some file
      → fill_ibuf job.0 t.printer_name job.1 ≡ o
      → Declares job d (with_ibuf turn job file o t)
  unfolding with_ibuf with_hbuf
  with_ibuf-Declares file none t e q = tt
  with_ibuf-Declares file (some request) t e q =
      let (same, fits_str, fits_ibuf) = fill_ibuf_lem job.0 t.printer_name job.1 request q in
      let n : ℕ = length file + length request + extra job.1 in
      elim (Option-cases (fill_hbuf t.printer_name n)) [
        | inl o ↦ rw o tt
        | inr (header, o) ↦
            let (same', fits') = fill_hbuf_lem t.printer_name n header o in
            subst (λ x. Declares job d (with_hbuf turn job file request x t)) (sym o)
              (subst (λ x. Declares job d (write_job turn job file request x t)) (sym same')
                (subst
                  (λ x. Declares job d (write_job turn job file x (http_header t.printer_name n) t))
                  (sym same)
                  (write_job-Declares file t e (fits_str, fits_ibuf) n
                    (ap (λ x. length file + length x + extra job.1) same) fits')))
      ]

  send_job-Declares :
      (file : Bytes) (t : Server)
      → d (digits job.0) ≡ some file
      → Declares job d (send_job turn job file t)
  unfolding send_job
  send_job-Declares file t e =
      with_ibuf-Declares file (fill_ibuf job.0 t.printer_name job.1) t e refl

  open_job-Declares :
      (o : Option Bytes) (t : Server)
      → d (digits job.0) ≡ o
      → Declares job d (open_job turn job o t)
  unfolding open_job
  open_job-Declares none t e = tt
  open_job-Declares (some file) t e =
      either (Declares job d) (not turn.fstats) tt
        (either (Declares job d) (not turn.connects) tt (send_job-Declares file t e))

  abbrev Same : Result ⊎ Server → Type 0
  Same (inl (exited t)) = Unit
  Same (inl waiting) = ⊥
  Same (inl (canceled t)) = ⊥
  Same (inl (overrun t)) = ⊥
  Same (inl (deferred t)) = ⊥
  Same (inl (printed sent t)) = ⊥
  Same (inr t) = t.spool.data_dir ≡ d

  print_job-Declares : (r : Result ⊎ Server) → Same r → Declares job d (print_job turn job r)
  unfolding print_job
  print_job-Declares (inl (exited t)) h = tt
  print_job-Declares (inl waiting) h = absurd h
  print_job-Declares (inl (canceled t)) h = absurd h
  print_job-Declares (inl (overrun t)) h = absurd h
  print_job-Declares (inl (deferred t)) h = absurd h
  print_job-Declares (inl (printed sent t)) h = absurd h
  print_job-Declares (inr t) h =
      open_job-Declares (t.spool.data_dir (digits job.0)) t (ap (λ f. f (digits job.0)) (sym h))

  init_printer-Same :
      (o : Option (Option Bytes)) (t : Server) → t.spool.data_dir ≡ d → Same (init_printer o t)
  unfolding init_printer
  init_printer-Same none t h = tt
  init_printer-Same (some name) t h = h

  check_config-Same : (t : Server) → t.spool.data_dir ≡ d → Same (check_config turn t)
  unfolding check_config
  check_config-Same t h = elim (Bool-cases t.reread) [
    | inl r ↦ rw r (init_printer-Same turn.configured (record t { reread = false }) h)
    | inr r ↦ rw r h
  ]

printer_turn-Declares :
    (turn : Turn) (s : Server) (job : ℕ × Printreq) (jobs : List (ℕ × Printreq))
    → s.spool.jobs ≡ job ∷ jobs
    → Declares job s.spool.data_dir (printer_turn turn s)
unfolding printer_turn take_job
printer_turn-Declares turn s job jobs h =
    let t : Server = record s {
      spool = record s.spool { jobs = jobs };
      job_file = update_jobno s.spool.nextjob s.job_file;
    } in
    subst (λ js. Declares job s.spool.data_dir (take_job turn js s)) (sym h)
      (print_job-Declares turn job s.spool.data_dir (check_config turn t)
        (check_config-Same turn job s.spool.data_dir t refl))

-- The number behind "Content-Length: ".
atol-http_header :
    (printer_name body : Bytes) (n : ℕ)
    → n ≤ long_max
    → atol (drop 36 (http_header printer_name n ++ body)) ≡ n
unfolding http_header
atol-http_header printer_name body n h =
    let rest : Bytes =
      codes "\r\n"
      ++ (codes "Content-Type: application/ipp\r\n"
          ++ (codes "Host: " ++ (printer_name ++ codes ":631\r\n\r\n"))) in
    ap atol (append_assoc (digits n) rest body) ∙ atol-digits n (rest ++ body) h refl

-- Where a job is printed, the buffers str, ibuf and hbuf were not overrun, what the printer was
-- sent is the HTTP header and a body, which is the IPP request, the backspace for a text and the
-- data file of the job, and the Content-Length of the header, read as a number, is the length of
-- the body, where what was sent is no longer than the largest long.
pub printer_turn-content_length :
    (turn : Turn) (s t : Server) (job : ℕ × Printreq) (jobs : List (ℕ × Printreq)) (sent : Bytes)
    → s.spool.jobs ≡ job ∷ jobs
    → printer_turn turn s ≡ printed sent t
    → length sent ≤ long_max
    → (body file : Bytes) × (s.spool.data_dir (digits job.0) ≡ some file)
      × (body ≡ ipp_request job.0 t.printer_name job.1 ++ (backspace job.1 ++ file))
      × (sent ≡ http_header t.printer_name (length body) ++ body)
      × FitsBuffers job t.printer_name (length body)
      × (atol (drop 36 sent) ≡ length body)
printer_turn-content_length turn s t job jobs sent h e small =
    let (body, file, d, b, q, fits) =
      subst (Declares job s.spool.data_dir) e (printer_turn-Declares turn s job jobs h) in
    (
      body,
      file,
      d,
      b,
      q,
      fits,
      ap (λ x. atol (drop 36 x)) q
          ∙ atol-http_header t.printer_name body (length body) (
              omega (
                arith,
                ap length q,
                length-append (http_header t.printer_name (length body)) body,
              )),
    )
