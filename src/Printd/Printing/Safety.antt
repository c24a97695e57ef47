-- ===== src/Printd/Printing/Safety.antt =====
-- No job of apue.3e/printer/printd.c is lost in a turn of the printer thread.
use mathlib.Core.Path.{subst}
use play_apue.Prelude.{
  ℕ, ◌+◌, length, ◌≡◌, refl, ap, sym, ◌∙◌, ◌⊎◌, inl, inr, Bool, true, false, not, ◌&&◌, Option,
  none, some, List, [], ◌∷◌, if◌then◌else◌, Bytes, Bool-cases,
}
use play_apue.Db.Ascii.{digits}
use play_apue.Printd.{Printreq}
use play_apue.Printd.JobNumber.{update_jobno}
use play_apue.Printd.Ipp.{is_text, fill_ibuf}
use play_apue.Printd.Spool.{Spool, unlink}
use play_apue.Printd.Printing.{
  Turn, Server, Result, waiting, exited, overrun, canceled, deferred, printed, put_back,
  remove_files, write_job, with_hbuf, with_ibuf, fill_hbuf, extra, send_job, open_job, init_printer,
  check_config, print_job, take_job, printer_turn,
}

-- The names do not fit in `str` and `ibuf`, or in `hbuf` with a content length.
abbrev pub TooLong : ℕ × Printreq → Bytes → Type 0
TooLong job printer_name =
    (fill_ibuf job.0 printer_name job.1 ≡ none) ⊎ ((n : ℕ) × (fill_hbuf printer_name n ≡ none))

-- The spool after a turn: unchanged but for a job that the printer has printed, or that the file system
-- did not let it look at.
abbrev pub Handled : Turn → Spool → ℕ × Printreq → List (ℕ × Printreq) → Result → Type 0
Handled turn sp job jobs waiting = ⊥
Handled turn sp job jobs (exited t) = t.spool ≡ record sp { jobs = jobs }
Handled turn sp job jobs (overrun t) =
    TooLong job t.printer_name × (t.spool ≡ record sp { jobs = jobs })
Handled turn sp job jobs (canceled t) =
    ((turn.fstats ≡ false) ⊎ (sp.data_dir (digits job.0) ≡ none))
    × (t.spool ≡ record sp { jobs = jobs })
Handled turn sp job jobs (deferred t) = t.spool ≡ sp
Handled turn sp job jobs (printed sent t) =
    (turn.printer_status ≡ true)
    × (t.spool ≡ record sp {
      jobs = jobs;
      data_dir = unlink (digits job.0) sp.data_dir;
      req_dir = unlink (digits job.0) sp.req_dir;
    })

-- What holds on both branches of a test, each with the test's value.
pub pick {ℓ} :
    (P : Result → Type ℓ) (b : Bool) {x y : Result}
    → (b ≡ true → P x)
    → (b ≡ false → P y)
    → P (if b then x else y)
pick P true f g = f refl
pick P false f g = g refl

pub either {ℓ} :
    (P : Result → Type ℓ) (b : Bool) {x y : Result} → P x → P y → P (if b then x else y)
either P b p q = pick P b (λ _. p) (λ _. q)

false_of_not : (b : Bool) → not b ≡ true → b ≡ false
false_of_not true e = cc
false_of_not false e = refl

module _ (turn : Turn) (sp : Spool) (job : ℕ × Printreq) (jobs : List (ℕ × Printreq)) where
  -- What the check of the configuration leaves.
  abbrev Ready : Result ⊎ Server → Type 0
  Ready (inl (exited t)) = t.spool ≡ record sp { jobs = jobs }
  Ready (inl waiting) = ⊥
  Ready (inl (canceled t)) = ⊥
  Ready (inl (overrun t)) = ⊥
  Ready (inl (deferred t)) = ⊥
  Ready (inl (printed sent t)) = ⊥
  Ready (inr t) = t.spool ≡ record sp { jobs = jobs }

  put_back_same :
      (t : Server)
      → sp.jobs ≡ job ∷ jobs
      → t.spool ≡ record sp { jobs = jobs }
      → (put_back job t).spool ≡ sp
  put_back_same t h e =
      ap (λ (u : Spool). record u { jobs = job ∷ u.jobs }) e
      ∙ ap (λ js. record sp { jobs = js }) (sym h)

  write_job-Handled :
      (file request header : Bytes) (t : Server)
      → sp.jobs ≡ job ∷ jobs
      → t.spool ≡ record sp { jobs = jobs }
      → Handled turn sp job jobs (write_job turn job file request header t)
  unfolding write_job
  write_job-Handled file request header t h e =
      let P = Handled turn sp job jobs in
      let back = put_back_same t h e in
      either P (not turn.writes_headers) back (
        either P (is_text job.1.flags && not turn.writes_backspace) back (
          either P (not turn.writes_file) back (
            either P (not turn.reads_file) back
              (pick P turn.printer_status (λ f. (f, removed)) (λ _. back)))))
    where
      removed : (remove_files (digits job.0) t).spool ≡ record sp {
        jobs = jobs;
        data_dir = unlink (digits job.0) sp.data_dir;
        req_dir = unlink (digits job.0) sp.req_dir;
      }
      removed =
          ap
            (λ (u : Spool). record u {
              data_dir = unlink (digits job.0) u.data_dir;
              req_dir = unlink (digits job.0) u.req_dir;
            })
            e

  with_hbuf-Handled :
      (file request : Bytes) (n : ℕ) (o : Option Bytes) (t : Server)
      → fill_hbuf t.printer_name n ≡ o
      → sp.jobs ≡ job ∷ jobs
      → t.spool ≡ record sp { jobs = jobs }
      → Handled turn sp job jobs (with_hbuf turn job file request o t)
  unfolding with_hbuf
  with_hbuf-Handled file request n none t q h e = (inr (n, q), e)
  with_hbuf-Handled file request n (some header) t q h e =
      write_job-Handled file request header t h e

  with_ibuf-Handled :
      (file : Bytes) (o : Option Bytes) (t : Server)
      → fill_ibuf job.0 t.printer_name job.1 ≡ o
      → sp.jobs ≡ job ∷ jobs
      → t.spool ≡ record sp { jobs = jobs }
      → Handled turn sp job jobs (with_ibuf turn job file o t)
  unfolding with_ibuf
  with_ibuf-Handled file none t q h e = (inl q, e)
  with_ibuf-Handled file (some request) t q h e =
      let n = length file + length request + extra job.1 in
      with_hbuf-Handled file request n (fill_hbuf t.printer_name n) t refl h e

  send_job-Handled :
      (file : Bytes) (t : Server)
      → sp.jobs ≡ job ∷ jobs
      → t.spool ≡ record sp { jobs = jobs }
      → Handled turn sp job jobs (send_job turn job file t)
  unfolding send_job
  send_job-Handled file t h e =
      with_ibuf-Handled file (fill_ibuf job.0 t.printer_name job.1) t refl h e

  open_job-Handled :
      (o : Option Bytes) (t : Server)
      → sp.jobs ≡ job ∷ jobs
      → t.spool ≡ record sp { jobs = jobs }
      → sp.data_dir (digits job.0) ≡ o
      → Handled turn sp job jobs (open_job turn job o t)
  unfolding open_job
  open_job-Handled none t h e d = (inr d, e)
  open_job-Handled (some file) t h e d =
      pick (Handled turn sp job jobs) (not turn.fstats) (λ f. (inl (false_of_not turn.fstats f), e))
        (λ _.
          either (Handled turn sp job jobs) (not turn.connects) (put_back_same t h e)
            (send_job-Handled file t h e))

  print_job-Handled :
      (r : Result ⊎ Server)
      → sp.jobs ≡ job ∷ jobs
      → Ready r
      → Handled turn sp job jobs (print_job turn job r)
  unfolding print_job
  print_job-Handled (inl (exited t)) h e = e
  print_job-Handled (inl waiting) h e = absurd e
  print_job-Handled (inl (canceled t)) h e = absurd e
  print_job-Handled (inl (overrun t)) h e = absurd e
  print_job-Handled (inl (deferred t)) h e = absurd e
  print_job-Handled (inl (printed sent t)) h e = absurd e
  print_job-Handled (inr t) h e =
      open_job-Handled (t.spool.data_dir (digits job.0)) t h e
        (sym (ap (λ (u : Spool). u.data_dir (digits job.0)) e))

  init_printer-Ready :
      (o : Option (Option Bytes)) (t : Server)
      → t.spool ≡ record sp { jobs = jobs }
      → Ready (init_printer o t)
  unfolding init_printer
  init_printer-Ready none t e = e
  init_printer-Ready (some name) t e = e

  check_config-Ready :
      (t : Server) → t.spool ≡ record sp { jobs = jobs } → Ready (check_config turn t)
  unfolding check_config
  check_config-Ready t e = elim (Bool-cases t.reread) [
    | inl r ↦ rw r (init_printer-Ready turn.configured (record t { reread = false }) e)
    | inr r ↦ rw r e
  ]

-- Whatever fails in a turn of printer_thread with a job at the head of the list, the job is not
-- lost unless the daemon exits, overruns a header buffer that the names do not fit, or the data
-- file cannot be opened or looked at: a deferred job is back at the head with its files as they
-- were, and a printed one is off the list with its two files removed and no other changed; an exit
-- or an overrun comes before any change to the files.
pub printer_turn-Handled :
    (turn : Turn) (s : Server) (job : ℕ × Printreq) (jobs : List (ℕ × Printreq))
    → s.spool.jobs ≡ job ∷ jobs
    → Handled turn s.spool job jobs (printer_turn turn s)
unfolding printer_turn take_job
printer_turn-Handled turn s job jobs h =
    let t : Server = record s {
      spool = record s.spool { jobs = jobs };
      job_file = update_jobno s.spool.nextjob s.job_file;
    } in
    subst (λ js. Handled turn s.spool job jobs (take_job turn js s)) (sym h)
      (print_job-Handled turn s.spool job jobs (check_config turn t) h
        (check_config-Ready turn s.spool job jobs t refl))

pub printer_turn_waits :
    (turn : Turn) (s : Server) → s.spool.jobs ≡ [] → printer_turn turn s ≡ waiting
unfolding printer_turn take_job
printer_turn_waits turn s h = ap (λ js. take_job turn js s) h
