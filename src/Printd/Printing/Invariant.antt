-- ===== src/Printd/Printing/Invariant.antt =====
-- What holds of the spool of apue.3e/printer/printd.c between its threads' steps: each job that waits has
-- its two files.
use mathlib.Core.Path.{subst}
use play_apue.Prelude.{
  ℕ, ◌<◌, ◌^◌, ◌≡◌, ◌≢◌, refl, sym, ◌∙◌, inl, inr, false, Option, none, some, List, [], ◌∷◌, ◌++◌,
  Bytes, bytes_eq, bytes_eq_refl, All, All-append,
}
use play_apue.Db.Ascii.{digits}
use play_apue.Printd.{Printreq}
use play_apue.Printd.TimedRead.{Arrival}
use play_apue.Printd.Spool.{Control, whole, Spool, put, unlink, Disk, Printresp, client_thread}
use play_apue.Printd.Spool.Restart.{digits_ne}
use play_apue.Printd.Spool.Client.{Accepted, Refused, client_thread-Outcome}
use play_apue.Printd.Printing.{
  Turn, Server, Result, waiting, exited, overrun, canceled, deferred, printed, printer_turn,
}
use play_apue.Printd.Printing.Safety.{Handled, printer_turn-Handled, printer_turn_waits}

abbrev pub Entry : Type 0
Entry = ℕ × Printreq

abbrev pub DistinctEntries : List Entry → Type 0
DistinctEntries [] = Unit
DistinctEntries (j ∷ jobs) = All (λ (k : Entry). k.0 ≢ j.0) jobs × DistinctEntries jobs

-- The files of a job: the control file with its request, and a data file.
abbrev pub HasFiles : (Bytes → Option Bytes) → (Bytes → Option Control) → Entry → Type 0
HasFiles data_dir req_dir j =
    (req_dir (digits j.0) ≡ some (whole j.1))
    × ((file : Bytes) × (data_dir (digits j.0) ≡ some file))

pub record Kept (sp : Spool) : Type 0 where
  pub small : All (λ (j : Entry). j.0 < 2 ^ 31) sp.jobs
  pub distinct : DistinctEntries sp.jobs
  pub files : All (HasFiles sp.data_dir sp.req_dir) sp.jobs

module _ (d d' : Bytes → Option Bytes) (r r' : Bytes → Option Control) (n : ℕ)
    (same_data : (k : Bytes) → bytes_eq (digits n) k ≡ false → d' k ≡ d k)
    (same_reqs : (k : Bytes) → bytes_eq (digits n) k ≡ false → r' k ≡ r k) (u : n < 2 ^ 31) where
  -- A change at the name of one number leaves the files of the others.
  HasFiles-other :
      (jobs : List Entry)
      → All (λ (j : Entry). j.0 < 2 ^ 31) jobs
      → All (λ (j : Entry). j.0 ≢ n) jobs
      → All (HasFiles d r) jobs
      → All (HasFiles d' r') jobs
  HasFiles-other [] b a h = tt
  HasFiles-other (j ∷ jobs) b a h =
      let ne = digits_ne n j.0 u b.0 a.0 in
      (
        (same_reqs (digits j.0) ne ∙ h.0.0, (h.0.1.0, same_data (digits j.0) ne ∙ h.0.1.1)),
        HasFiles-other jobs b.1 a.1 h.1,
      )

unlink_other :
    {A : Type 0} (name : Bytes) (dir : Bytes → Option A) (k : Bytes)
    → bytes_eq name k ≡ false
    → unlink name dir k ≡ dir k
unlink_other name dir k e = rw e refl

put_other :
    {A : Type 0} (name : Bytes) (a : A) (dir : Bytes → Option A) (k : Bytes)
    → bytes_eq name k ≡ false
    → put name a dir k ≡ dir k
put_other name a dir k e = rw e refl

-- A spool with the same files and some of its jobs done.
abbrev pub After {ℓ} : (Spool → Type ℓ) → Result → Type ℓ
After P waiting = Unit
After P (exited t) = P t.spool
After P (overrun t) = P t.spool
After P (canceled t) = P t.spool
After P (deferred t) = P t.spool
After P (printed sent t) = P t.spool

Kept-tail :
    (sp : Spool) (job : Entry) (jobs : List Entry)
    → sp.jobs ≡ job ∷ jobs
    → Kept sp
    → (job.0 < 2 ^ 31) × All (λ (k : Entry). k.0 ≢ job.0) jobs × Kept (record sp { jobs = jobs })
Kept-tail sp job jobs e k =
    let b = subst (All (λ (j : Entry). j.0 < 2 ^ 31)) e k.small in
    let d = subst DistinctEntries e k.distinct in
    let f = subst (All (HasFiles sp.data_dir sp.req_dir)) e k.files in
    (b.0, d.0, record { small = b.1; distinct = d.1; files = f.1 })

Handled-After :
    (turn : Turn) (sp : Spool) (job : Entry) (jobs : List Entry) (r : Result)
    → sp.jobs ≡ job ∷ jobs
    → Kept sp
    → Handled turn sp job jobs r
    → After Kept r
Handled-After turn sp job jobs waiting e k h = tt
Handled-After turn sp job jobs (exited t) e k h = subst Kept (sym h) (Kept-tail sp job jobs e k).2
Handled-After turn sp job jobs (overrun t) e k h =
    subst Kept (sym h.1) (Kept-tail sp job jobs e k).2
Handled-After turn sp job jobs (canceled t) e k h =
    subst Kept (sym h.1) (Kept-tail sp job jobs e k).2
Handled-After turn sp job jobs (deferred t) e k h = subst Kept (sym h) k
Handled-After turn sp job jobs (printed sent t) e k h =
    let (b, a, k') = Kept-tail sp job jobs e k in
    subst Kept (sym h.1) (record {
      small = k'.small;
      distinct = k'.distinct;
      files =
          HasFiles-other sp.data_dir (unlink (digits job.0) sp.data_dir) sp.req_dir
            (unlink (digits job.0) sp.req_dir) job.0 (unlink_other (digits job.0) sp.data_dir)
            (unlink_other (digits job.0) sp.req_dir) b jobs k'.small a k'.files;
    })

turn-After :
    (turn : Turn) (s : Server) (jobs : List Entry)
    → s.spool.jobs ≡ jobs
    → Kept s.spool
    → After Kept (printer_turn turn s)
turn-After turn s [] e k = subst (After Kept) (sym (printer_turn_waits turn s e)) tt
turn-After turn s (job ∷ jobs) e k =
    Handled-After turn s.spool job jobs (printer_turn turn s) e k
      (printer_turn-Handled turn s job jobs e)

-- A turn of printer_thread, whatever fails in it, keeps, up to an overrun of a header buffer if
-- there is one, the numbers of the jobs on the list distinct and below 2^31, and each job with its
-- request in the control file and a data file; nothing is stated of a turn that waits for a job.
pub printer_turn-Kept : (turn : Turn) (s : Server) → Kept s.spool → After Kept (printer_turn turn s)
printer_turn-Kept turn s k = turn-After turn s s.spool.jobs refl k

HasFiles-same :
    (d d' : Bytes → Option Bytes) (r r' : Bytes → Option Control) (jobs : List Entry)
    → ((k : Bytes) → d' k ≡ d k)
    → ((k : Bytes) → r' k ≡ r k)
    → All (HasFiles d r) jobs
    → All (HasFiles d' r') jobs
HasFiles-same d d' r r' [] same_data same_reqs h = tt
HasFiles-same d d' r r' (j ∷ jobs) same_data same_reqs h = (
  (same_reqs (digits j.0) ∙ h.0.0, (h.0.1.0, same_data (digits j.0) ∙ h.0.1.1)),
  HasFiles-same d d' r r' jobs same_data same_reqs h.1,
)

DistinctEntries-snoc :
    (jobs : List Entry) (j : Entry)
    → DistinctEntries jobs
    → All (λ (k : Entry). k.0 ≢ j.0) jobs
    → DistinctEntries (jobs ++ j ∷ [])
DistinctEntries-snoc [] j d a = (tt, tt)
DistinctEntries-snoc (k ∷ jobs) j d a = (
  All-append (λ (x : Entry). x.0 ≢ k.0) jobs (j ∷ []) d.0 (λ e. a.0 (sym e), tt),
  DistinctEntries-snoc jobs j d.1 a.1,
)

Refused-Kept : (s : Spool) (r : Spool × Printresp) → Kept s → Refused s r → Kept r.0
Refused-Kept s r k f = record {
  small = subst (All (λ (j : Entry). j.0 < 2 ^ 31)) (sym f.same_jobs) k.small;
  distinct = subst DistinctEntries (sym f.same_jobs) k.distinct;
  files = subst (All (HasFiles r.0.data_dir r.0.req_dir)) (sym f.same_jobs) (
      HasFiles-same s.data_dir r.0.data_dir s.req_dir r.0.req_dir s.jobs f.same_data f.same_reqs
        k.files);
}

Accepted-Kept :
    (s : Spool) (file : Bytes) (req : Printreq) (r : Spool × Printresp)
    → Kept s
    → s.nextjob < 2 ^ 31
    → All (λ (j : Entry). j.0 ≢ s.nextjob) s.jobs
    → Accepted s file req r
    → Kept r.0
Accepted-Kept s file req r k u fresh a =
    let name = digits s.nextjob in
    let d' = put name file s.data_dir in
    let r' = put name (whole req) s.req_dir in
    let jobs' = s.jobs ++ (s.nextjob, req) ∷ [] in
    let new : HasFiles d' r' (s.nextjob, req) =
      let e = bytes_eq_refl name in (rw e refl, (file, rw e refl)) in
    let files' : All (HasFiles d' r') jobs' =
      All-append (HasFiles d' r') s.jobs ((s.nextjob, req) ∷ [])
        (HasFiles-other s.data_dir d' s.req_dir r' s.nextjob (put_other name file s.data_dir)
          (put_other name (whole req) s.req_dir) u s.jobs k.small fresh k.files)
        (new, tt) in
    record {
      small =
          subst (All (λ (j : Entry). j.0 < 2 ^ 31)) (sym a.waits) (
            All-append (λ (j : Entry). j.0 < 2 ^ 31) s.jobs ((s.nextjob, req) ∷ []) k.small
              (u, tt));
      distinct =
          subst DistinctEntries (sym a.waits)
            (DistinctEntries-snoc s.jobs (s.nextjob, req) k.distinct fresh);
      files =
          subst (λ d. All (HasFiles d r.0.req_dir) r.0.jobs) (sym a.in_data)
            (subst (λ q. All (HasFiles d' q) r.0.jobs) (sym a.in_reqs)
              (subst (All (HasFiles d' r')) (sym a.waits) files'));
    }

-- client_thread, whatever the client sends and whatever fails, keeps the numbers of the jobs on
-- the list distinct and below 2^31, and each job with its request in the control file and a data
-- file, where the next number is below 2^31, is not that of a job that waits and has no files.
pub client_thread-Kept :
    (strerror : ℕ → Bytes) (disk : Disk) (from : List Arrival) (s : Spool)
    → Kept s
    → s.nextjob < 2 ^ 31
    → All (λ (j : Entry). j.0 ≢ s.nextjob) s.jobs
    → s.data_dir (digits s.nextjob) ≡ none
    → s.req_dir (digits s.nextjob) ≡ none
    → Kept (client_thread strerror disk from s).0
client_thread-Kept strerror disk from s k u fresh d q =
    elim (client_thread-Outcome strerror s d q disk from) [
      | inl refused ↦ Refused-Kept s (client_thread strerror disk from s) k refused
      | inr (header, file, q0, n0, (req, accepted)) ↦
          Accepted-Kept s file req (client_thread strerror disk from s) k u fresh accepted
    ]
