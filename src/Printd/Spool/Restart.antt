-- ===== src/Printd/Spool/Restart.antt =====
-- apue.3e/printer/printd.c at its start: the list of jobs from the control files.
use mathlib.Core.Path.{subst}
use play_apue.Prelude.{
  ℕ, zero, suc, ◌+◌, ◌≤◌, ◌<◌, ◌%◌, ◌^◌, length-append, ◌≡◌, ◌≢◌, refl, ap, sym, ◌∙◌, inl, inr,
  false, ◌||◌, Option, none, some, List, [], ◌∷◌, ◌++◌, append_assoc, append-nil, arith, map,
  if◌then◌else◌, Bytes, codes, bytes_eq, bytes_eq_sound, Bool-cases, All, All-append, Distinct,
  length, bytes_eq_refl,
}
use play_apue.Db.Ascii.{digits, atol}
use play_apue.Db.Ascii.RoundTrip.{atol-digits, digits_head}
use play_apue.Printd.{Printreq}
use play_apue.Printd.TimedRead.{Arrival, tread, treadn, available}
use play_apue.Printd.Spool.{
  Control, whole, cut, Spool, put, unlink, printreq_size, iobufsz, client_thread,
}
use play_apue.Printd.Spool.Sent.{
  IsSent, request_bytes, length-request_bytes, read_request-request_bytes,
}
use play_apue.Printd.Spool.Copy.{marked}
use play_apue.Printd.Spool.Client.{healthy, Accepted, client_thread-Accepted}

-- What a control file leads to, with the number of descriptors left: one that is not there, or for
-- which no descriptor is left, cannot be opened, and one that is read whole is not closed again.
pub start_job : Bytes → Option Control → ℕ × Spool → ℕ × Spool
start_job name none (fds, s) = (fds, s)
start_job name (some c) (zero, s) = (zero, s)
start_job name (some cut) (suc fds, s) =
    (suc fds, record s { req_dir = unlink name s.req_dir; data_dir = unlink name s.data_dir })
start_job name (some (whole req)) (suc fds, s) =
    (fds, record s { jobs = s.jobs ++ (atol name % 2 ^ 32, req) ∷ [] })

-- The loop over what `readdir` returns; the order is the file system's. The directory is open.
pub build_qonstart : List Bytes → ℕ × Spool → ℕ × Spool
build_qonstart [] st = st
build_qonstart (name ∷ names) st = build_qonstart names (
    if bytes_eq name (codes ".") || bytes_eq name (codes "..")
    then st
    else start_job name (st.1.req_dir name) st)

abbrev pub recover : ℕ → Option Control → List (ℕ × Printreq) → List (ℕ × Printreq)
recover id none others = others
recover id (some cut) others = others
recover id (some (whole req)) others = (id, req) ∷ others

-- The jobs whose control file is whole, in the order of a list of numbers.
abbrev pub recovered : (Bytes → Option Control) → List ℕ → List (ℕ × Printreq)
recovered dir [] = []
recovered dir (id ∷ ids) = recover id (dir (digits id)) (recovered dir ids)

digits_dots :
    (n : ℕ) → (bytes_eq (digits n) (codes ".") || bytes_eq (digits n) (codes "..")) ≡ false
digits_dots n =
    let (c, t, e, d) = digits_head n [] in
    let e' : digits n ≡ c ∷ t = sym (append-nil (digits n)) ∙ e in rw e' (ground arith)

atol_back : (n : ℕ) → n < 2 ^ 31 → atol (digits n) % 2 ^ 32 ≡ n
atol_back n h =
    let e : atol (digits n) ≡ n =
      ap atol (sym (append-nil (digits n))) ∙ atol-digits n [] (omega arith) tt in
    omega arith

pub digits_ne : (n k : ℕ) → n < 2 ^ 31 → k < 2 ^ 31 → k ≢ n → bytes_eq (digits n) (digits k) ≡ false
digits_ne n k h i ne = elim (Bool-cases (bytes_eq (digits n) (digits k))) [
  | inr e ↦ e
  | inl e ↦
      let q = ap (λ t. atol t % 2 ^ 32) (bytes_eq_sound (digits n) (digits k) e) in
      absurd (ne (sym (atol_back k i) ∙ sym q ∙ atol_back n h))
]

recovered-unlink :
    (dir : Bytes → Option Control) (n : ℕ) (ids : List ℕ)
    → n < 2 ^ 31
    → All (λ k. k < 2 ^ 31) ids
    → All (λ k. k ≢ n) ids
    → recovered (unlink (digits n) dir) ids ≡ recovered dir ids
recovered-unlink dir n [] h b d = refl
recovered-unlink dir n (k ∷ ids) h b d =
    let e : unlink (digits n) dir (digits k) ≡ dir (digits k) = rw (digits_ne n k h b.0 d.0) refl in
    ap (λ o. recover k o (recovered (unlink (digits n) dir) ids)) e
    ∙ ap (recover k (dir (digits k))) (recovered-unlink dir n ids h b.1 d.1)

start_job_lem :
    (id : ℕ) (c : Option Control) (fds : ℕ) (s : Spool) (ids : List ℕ)
    → 0 < fds
    → id < 2 ^ 31
    → All (λ k. k < 2 ^ 31) ids
    → All (λ k. k ≢ id) ids
    → ((start_job (digits id) c (fds, s)).1.jobs
          ++ recovered (start_job (digits id) c (fds, s)).1.req_dir ids
        ≡ s.jobs ++ recover id c (recovered s.req_dir ids))
      × (fds ≤ (start_job (digits id) c (fds, s)).0 + 1)
unfolding start_job
start_job_lem id none fds s ids l h b d = (refl, omega arith)
start_job_lem id (some c) zero s ids l h b d = absurd (omega arith)
start_job_lem id (some cut) (suc fds) s ids l h b d =
    (ap (λ t. s.jobs ++ t) (recovered-unlink s.req_dir id ids h b d), omega arith)
start_job_lem id (some (whole req)) (suc fds) s ids l h b d = (
  append_assoc s.jobs ((atol (digits id) % 2 ^ 32, req) ∷ []) (recovered s.req_dir ids)
      ∙ ap (λ t. s.jobs ++ (t, req) ∷ recovered s.req_dir ids) (atol_back id h),
  omega arith,
)

jobs-build_qonstart :
    (ids : List ℕ) (fds : ℕ) (s : Spool)
    → length ids ≤ fds
    → All (λ k. k < 2 ^ 31) ids
    → Distinct ids
    → (build_qonstart (map digits ids) (fds, s)).1.jobs ≡ s.jobs ++ recovered s.req_dir ids
unfolding build_qonstart
jobs-build_qonstart [] fds s l b d = sym (append-nil s.jobs)
jobs-build_qonstart (id ∷ ids) fds s l b d =
    let st : ℕ × Spool = start_job (digits id) (s.req_dir (digits id)) (fds, s) in
    let (same, left) =
      start_job_lem id (s.req_dir (digits id)) fds s ids (omega arith) b.0 b.1 d.0 in
    ap (λ t. (build_qonstart (map digits ids) (if t then (fds, s) else st)).1.jobs) (digits_dots id)
    ∙ jobs-build_qonstart ids st.0 st.1 (omega (arith, left)) b.1 d.1
    ∙ same

pub build_qonstart-recovered :
    (ids : List ℕ) (fds : ℕ) (s : Spool)
    → length ids ≤ fds
    → All (λ k. k < 2 ^ 31) ids
    → Distinct ids
    → (build_qonstart
        (codes "." ∷ codes ".." ∷ map digits ids)
        (fds, record s { jobs = [] })).1.jobs
      ≡ recovered s.req_dir ids
unfolding build_qonstart
build_qonstart-recovered ids fds s l b d =
    jobs-build_qonstart ids fds (record s { jobs = [] }) l b d

-- One more job in the directory.
recovered-put :
    (dir : Bytes → Option Control) (n : ℕ) (req : Printreq) (ids : List ℕ)
    → n < 2 ^ 31
    → All (λ k. k < 2 ^ 31) ids
    → All (λ k. k ≢ n) ids
    → recovered (put (digits n) (whole req) dir) (ids ++ n ∷ [])
      ≡ recovered dir ids ++ (n, req) ∷ []
recovered-put dir n req [] h b d =
    let e : put (digits n) (whole req) dir (digits n) ≡ some (whole req) =
      rw (bytes_eq_refl (digits n)) refl in
    ap (λ o. recover n o []) e
recovered-put dir n req (k ∷ ids) h b d =
    let e : put (digits n) (whole req) dir (digits k) ≡ dir (digits k) =
      rw (digits_ne n k h b.0 d.0) refl in
    ap (λ o. recover k o (recovered (put (digits n) (whole req) dir) (ids ++ n ∷ []))) e
    ∙ ap (recover k (dir (digits k))) (recovered-put dir n req ids h b.1 d.1)
    ∙ recover-append k (dir (digits k)) (recovered dir ids) ((n, req) ∷ [])
  where
    recover-append :
        (k : ℕ) (c : Option Control) (xs ys : List (ℕ × Printreq))
        → recover k c (xs ++ ys) ≡ recover k c xs ++ ys
    recover-append k none xs ys = refl
    recover-append k (some cut) xs ys = refl
    recover-append k (some (whole req)) xs ys = refl

Distinct-snoc :
    (n : ℕ) (ids : List ℕ) → Distinct ids → All (λ k. k ≢ n) ids → Distinct (ids ++ n ∷ [])
Distinct-snoc n [] d h = (tt, tt)
Distinct-snoc n (k ∷ ids) d h =
    (All-append (λ y. y ≢ k) ids (n ∷ []) d.0 (λ e. h.0 (sym e), tt), Distinct-snoc n ids d.1 h.1)

-- The request that is kept: the one sent, marked as a text by the first piece of the file.
abbrev pub kept_request : List Arrival → Printreq → Printreq
kept_request from req = marked (tread iobufsz (treadn printreq_size from).1).0 req

-- Where no call on the disk fails, client_thread takes what arrives before a silence, an error or
-- the end, a request laid out in struct printreq with texts that fit their arrays, and a file, as
-- a job: the file is whole in the data directory, the request that was sent is in the request
-- directory, marked as text unless the first piece of the file begins with %!PS or there is none,
-- the job waits behind the others and the client is told its number. After a restart in which
-- readdir lists the other numbers, distinct, below 2^31 and not this one, and then this one, and
-- there is a descriptor for each, build_qonstart has the jobs of the others and then this job with
-- that request.
pub build_qonstart-client_thread :
    (strerror : ℕ → Bytes) (from : List Arrival) (req : Printreq)
    (behind_usernm behind_jobnm body : Bytes) (s : Spool) (ids : List ℕ) (fds : ℕ)
    → IsSent req behind_usernm behind_jobnm
    → available from ≡ request_bytes req behind_usernm behind_jobnm ++ body
    → s.nextjob < 2 ^ 31
    → All (λ k. k < 2 ^ 31) ids
    → Distinct ids
    → All (λ k. k ≢ s.nextjob) ids
    → length ids < fds
    → Accepted s body (kept_request from req) (client_thread strerror healthy from s)
      × ((build_qonstart
            (codes "." ∷ codes ".." ∷ map digits (ids ++ s.nextjob ∷ []))
            (fds, record (client_thread strerror healthy from s).0 { jobs = [] })).1.jobs
          ≡ recovered s.req_dir ids ++ (s.nextjob, kept_request from req) ∷ [])
build_qonstart-client_thread strerror from req pu pj body s ids fds sent e small b d fresh l =
    let header : Bytes = request_bytes req pu pj in
    let a : Accepted s body (kept_request from req) (client_thread strerror healthy from s) =
      subst (λ r. Accepted s body (kept_request from r) (client_thread strerror healthy from s))
        (read_request-request_bytes req pu pj sent)
        (client_thread-Accepted strerror from header body s e
          (length-request_bytes req pu pj sent)) in
    (
      a,
      build_qonstart-recovered (ids ++ s.nextjob ∷ []) fds (client_thread strerror healthy from s).0
            (omega (arith, length-append ids (s.nextjob ∷ [])))
            (All-append (λ k. k < 2 ^ 31) ids (s.nextjob ∷ []) b (small, tt))
            (Distinct-snoc s.nextjob ids d fresh)
          ∙ ap (λ dir. recovered dir (ids ++ s.nextjob ∷ [])) a.in_reqs
          ∙ recovered-put s.req_dir s.nextjob (kept_request from req) ids small b fresh,
    )
