-- ===== src/Printd/Spool/Client.antt =====
-- What one client leaves in the spool of apue.3e/printer/printd.c: a whole job, or nothing.
use mathlib.Core.Path.{subst}
use play_apue.Prelude.{
  ℕ, ◌≤◌, ◌≡◌, refl, ap, sym, ◌∙◌, ◌⊎◌, inl, inr, true, Option, none, some, List, [], ◌∷◌, ◌++◌,
  arith, ◌==◌, Bytes, length, take, drop, take-append_of, drop-append_of, length-append, bytes_eq,
  bytes_eq_sound, ==_iff, Bool-cases,
}
use play_apue.Db.Ascii.{digits}
use play_apue.Printd.{Printreq}
use play_apue.Printd.JobNumber.{get_newjobno}
use play_apue.Printd.TimedRead.{Arrival, Reading, failed, got, tread, treadn, available}
use play_apue.Printd.TimedRead.Rest.{treadn_enough, treadn_full}
use play_apue.Printd.Spool.{
  whole, cut, Spool, put, unlink, Wrote, full, short, error, Disk, Printresp, htonl, printreq_size,
  read_request, Copied, copied, spoiled, iobufsz, copy_data, write_request, create_request,
  create_data, store_data, accept, on_header, client_thread,
}
use play_apue.Printd.Spool.Copy.{marked, copy_data_lem, Whole, copy_data-Whole}

-- No call fails.
abbrev pub healthy : Disk
healthy = record { creat_data = none; write_data = []; creat_req = none; write_req = full }

-- The job is taken: its files are whole and it waits behind the others.
pub record Accepted (s : Spool) (file : Bytes) (req : Printreq) (r : Spool × Printresp)
    : Type 0 where
  pub in_data : r.0.data_dir ≡ put (digits s.nextjob) file s.data_dir
  pub in_reqs : r.0.req_dir ≡ put (digits s.nextjob) (whole req) s.req_dir
  pub waits : r.0.jobs ≡ s.jobs ++ (s.nextjob, req) ∷ []
  pub numbered : r.0.nextjob ≡ (get_newjobno s.nextjob).1
  pub success : r.1.retcode ≡ 0
  pub told : r.1.jobid ≡ htonl s.nextjob

-- The job is not taken: no file is left of it and the list is as it was.
pub record Refused (s : Spool) (r : Spool × Printresp) : Type 0 where
  pub same_data : (k : Bytes) → r.0.data_dir k ≡ s.data_dir k
  pub same_reqs : (k : Bytes) → r.0.req_dir k ≡ s.req_dir k
  pub same_jobs : r.0.jobs ≡ s.jobs
  pub no_number : r.1.jobid ≡ 0

unlink-put :
    {A : Type 0} (name : Bytes) (a : A) (dir : Bytes → Option A) (k : Bytes)
    → dir name ≡ none
    → unlink name (put name a dir) k ≡ dir k
unlink-put name a dir k fresh = elim (Bool-cases (bytes_eq name k)) [
  | inl e ↦ rw e (sym (ap dir (sym (bytes_eq_sound name k e)) ∙ fresh))
  | inr e ↦ rw e refl
]

module _ (strerror : ℕ → Bytes) (s : Spool) where
  -- The job with this file is taken, or nothing is left of it.
  abbrev Takes : Bytes → Spool × Printresp → Type 0
  Takes file r = Refused s r ⊎ ((req : Printreq) × Accepted s file req r)

  -- The file is what is to come behind a whole header, or the job is not taken.
  abbrev pub Outcome : List Arrival → Spool × Printresp → Type 0
  Outcome from r =
      Refused s r
      ⊎ ((header : Bytes) × (file : Bytes) × (available from ≡ header ++ file)
          × (length header ≡ printreq_size)
          × ((req : Printreq) × Accepted s file req r))

  module _ (fresh_data : s.data_dir (digits s.nextjob) ≡ none)
      (fresh_req : s.req_dir (digits s.nextjob) ≡ none) where
    write_request-Takes :
        (w : Wrote) (req : Printreq) (file : Bytes)
        → Takes file (
            write_request strerror w s.nextjob req (digits s.nextjob) (record s {
              nextjob = (get_newjobno s.nextjob).1;
              data_dir = put (digits s.nextjob) file s.data_dir;
            }))
    unfolding write_request
    write_request-Takes full req file = inr (
      req,
      record {
        in_data = refl;
        in_reqs = refl;
        waits = refl;
        numbered = refl;
        success = refl;
        told = refl;
      },
    )
    write_request-Takes short req file = inl (record {
      same_data = λ k. unlink-put (digits s.nextjob) file s.data_dir k fresh_data;
      same_reqs = λ k. unlink-put (digits s.nextjob) cut s.req_dir k fresh_req;
      same_jobs = refl;
      no_number = refl;
    })
    write_request-Takes (error e) req file = inl (record {
      same_data = λ k. unlink-put (digits s.nextjob) file s.data_dir k fresh_data;
      same_reqs = λ k. unlink-put (digits s.nextjob) cut s.req_dir k fresh_req;
      same_jobs = refl;
      no_number = refl;
    })

    create_request-Takes :
        (o : Option ℕ) (w : Wrote) (req : Printreq) (file : Bytes)
        → Takes file (
            create_request strerror o w s.nextjob req (digits s.nextjob) (record s {
              nextjob = (get_newjobno s.nextjob).1;
              data_dir = put (digits s.nextjob) file s.data_dir;
            }))
    unfolding create_request
    create_request-Takes none w req file = write_request-Takes w req file
    create_request-Takes (some e) w req file = inl (record {
      same_data = λ k. unlink-put (digits s.nextjob) file s.data_dir k fresh_data;
      same_reqs = λ k. refl;
      same_jobs = refl;
      no_number = refl;
    })

    store_data-Takes :
        (disk : Disk) (b : Bytes) (c : Copied)
        → Whole b c
        → Takes b (
            store_data strerror disk s.nextjob
              (digits s.nextjob)
              c
              (record s { nextjob = (get_newjobno s.nextjob).1 }))
    unfolding store_data
    store_data-Takes disk b (copied file req) h =
        subst
          (λ x. Takes x (
            store_data strerror disk s.nextjob (digits s.nextjob) (copied file req)
              (record s { nextjob = (get_newjobno s.nextjob).1 })))
          h (create_request-Takes disk.creat_req disk.write_req req file)
    store_data-Takes disk b (spoiled e) h = inl (record {
      same_data = λ k. unlink-put (digits s.nextjob) [] s.data_dir k fresh_data;
      same_reqs = λ k. refl;
      same_jobs = refl;
      no_number = refl;
    })

    create_data-Takes :
        (disk : Disk) (o : Option ℕ) (req : Printreq) (from : List Arrival)
        → Takes (available from) (
            create_data strerror disk o s.nextjob req from
              (record s { nextjob = (get_newjobno s.nextjob).1 }))
    unfolding create_data
    create_data-Takes disk none req from =
        store_data-Takes disk (available from) (copy_data req disk.write_data from)
          (copy_data-Whole req disk.write_data from)
    create_data-Takes disk (some e) req from = inl (record {
      same_data = λ k. refl;
      same_reqs = λ k. refl;
      same_jobs = refl;
      no_number = refl;
    })

    on_header-Outcome :
        (disk : Disk) (r : Reading) (rest from : List Arrival)
        → ((b : Bytes)
            → r ≡ got b
            → length b ≡ printreq_size
            → available from ≡ b ++ available rest)
        → Outcome from (on_header strerror disk (r, rest) s)
    unfolding on_header accept get_newjobno
    on_header-Outcome disk (failed e) rest from h = inl (record {
      same_data = λ k. refl;
      same_reqs = λ k. refl;
      same_jobs = refl;
      no_number = refl;
    })
    on_header-Outcome disk (got b) rest from h = elim (Bool-cases (length b == printreq_size)) [
      | inl e ↦
          let n : length b ≡ printreq_size = (==_iff _ _).0 e in
          rw e (elim (create_data-Takes disk disk.creat_data (read_request b) rest) [
            | inl refused ↦ inl refused
            | inr accepted ↦ inr (b, available rest, h b refl n, n, accepted)
          ])
      | inr e ↦ rw e (
          inl (record {
            same_data = λ k. refl;
            same_reqs = λ k. refl;
            same_jobs = refl;
            no_number = refl;
          }))
    ]

    -- Whatever the client sends and whatever fails on the disk, client_thread either takes a job
    -- whose data file is all that came behind a whole header before a silence, an error or the
    -- end, with both files written, the job on the list and a success told, or leaves both
    -- directories and the list as they were and answers with job number 0; the next number is
    -- taken to have no files before.
    pub client_thread-Outcome :
        (disk : Disk) (from : List Arrival) → Outcome from (client_thread strerror disk from s)
    unfolding client_thread
    client_thread-Outcome disk from =
        let r = treadn printreq_size from in
        on_header-Outcome disk r.0 r.1 from
          (λ b e n. treadn_full printreq_size from b (omega arith) e n)

pub client_thread-Accepted :
    (strerror : ℕ → Bytes) (from : List Arrival) (header body : Bytes) (s : Spool)
    → available from ≡ header ++ body
    → length header ≡ printreq_size
    → Accepted s body
        (marked (tread iobufsz (treadn printreq_size from).1).0 (read_request header))
        (client_thread strerror healthy from s)
unfolding client_thread on_header accept create_data store_data create_request write_request
    get_newjobno
client_thread-Accepted strerror from header body s e n =
    let rest : List Arrival = (treadn printreq_size from).1 in
    let size : printreq_size ≤ length (available from) =
      omega (arith, ap length e, length-append header body) in
    let (g, r) = treadn_enough printreq_size from (omega arith) size in
    let head : treadn printreq_size from ≡ (got header, rest) =
      ap (λ t. (t, rest))
        (g ∙ ap got (ap (take printreq_size) e ∙ take-append_of printreq_size header body n)) in
    let left : available rest ≡ body =
      r ∙ ap (drop printreq_size) e ∙ drop-append_of printreq_size header body n in
    let req : Printreq = marked (tread iobufsz rest).0 (read_request header) in
    let c : copy_data (read_request header) [] rest ≡ copied body req =
      copy_data_lem (read_request header) rest ∙ ap (λ t. copied t req) left in
    let q : (length header == printreq_size) ≡ true = (==_iff _ _).1 n in
    let steps : client_thread strerror healthy from s
        ≡ write_request strerror full s.nextjob req (digits s.nextjob) (record s {
          nextjob = (get_newjobno s.nextjob).1;
          data_dir = put (digits s.nextjob) body s.data_dir;
        }) =
      ap (λ t. on_header strerror healthy t s) head ∙ rw (q, c) refl in
    subst (Accepted s body req) (sym steps) (record {
      in_data = refl;
      in_reqs = refl;
      waits = refl;
      numbered = refl;
      success = refl;
      told = refl;
    })
