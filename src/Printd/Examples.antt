-- ===== src/Printd/Examples.antt =====
-- The theorems on apue.3e/printer at small queues, streams and requests.
use play_apue.Prelude.{
  ◌+◌, ◌-◌, ◌%◌, ◌^◌, ◌≡◌, refl, none, some, List, [], ◌∷◌, arith, codes, length, get_elem?, ◌==◌,
  if◌then◌else◌,
}
use play_apue.Printd.{Printreq}
use play_apue.Printd.Queue.{Jobs, add_job, remove_job}
use play_apue.Printd.Queue.Linked.{Entry, IsQueue}
use play_apue.Printd.Queue.Refine.{add_job_lem}
use play_apue.Printd.Queue.Remove.{remove_job_lem}
use play_apue.Printd.TimedRead.{
  Arrival, bytes, silence, treadn, expected, first_error, treadn-eq-expected,
}
use play_apue.Printd.Ipp.{ipp_request, document_format, length-ipp_request}
use play_apue.Printd.JobNumber.{
  job_numbers, get_elem?-job_numbers, init_request, update_jobno, init_request-update_jobno,
}
use play_apue.Db.Ascii.{digits, digits_from}

abbrev letter : Printreq
letter = record { size = 5; flags = 0; usernm = codes "sar"; jobnm = codes "letter.ps" }

-- Jobs 7 and 8 at the addresses 100 and 200.
abbrev waiting : Jobs
waiting = record {
  cell = λ p.
      if p == 100
      then some (record { next = some 200; prev = none; jobid = 7; req = letter })
      else if p == 200
      then some (record { next = none; prev = some 100; jobid = 8; req = letter })
      else if p == 300
      then some (record { next = none; prev = none; jobid = 6; req = letter })
      else none;
  jobhead = some 100;
  jobtail = some 200;
}

abbrev seven : Entry
seven = (100, 7, letter)

abbrev eight : Entry
eight = (200, 8, letter)

waiting-IsQueue : IsQueue waiting (seven ∷ eight ∷ [])
waiting-IsQueue = record {
  linked = (refl, (refl, tt));
  at_head = refl;
  at_tail = refl;
  apart = ((omega arith, tt), (tt, tt));
}

add_job_example :
    (s' : Jobs) × (add_job 400 letter 9 waiting ≡ some s')
    × IsQueue s' (seven ∷ eight ∷ (400, 9, letter) ∷ [])
add_job_example =
    add_job_lem 400 letter 9 waiting (seven ∷ eight ∷ []) waiting-IsQueue
      (omega arith, (omega arith, tt))

remove_job_example :
    (s' : Jobs) × (remove_job 200 waiting ≡ some s')
    × IsQueue s' (seven ∷ [])
    × (s'.cell 200 ≡ waiting.cell 200)
remove_job_example = remove_job_lem waiting (seven ∷ []) eight [] waiting-IsQueue

-- Four bytes in two pieces, and then silence.
abbrev pieces : List Arrival
pieces = bytes (codes "ab") ∷ bytes (codes "cd") ∷ silence ∷ []

treadn-eq-expected_example : (treadn 3 pieces).0 ≡ expected 3 pieces (first_error pieces)
treadn-eq-expected_example = treadn-eq-expected 3 pieces (omega arith)

length-ipp_request_example :
    length (ipp_request 7 (codes "lp") letter)
    ≡ 160
      + length (codes "lp")
      + length letter.usernm
      + length letter.jobnm
      + length (document_format letter.flags)
length-ipp_request_example = length-ipp_request 7 (codes "lp") letter

get_elem?-job_numbers_example :
    get_elem? (job_numbers 5 (2 ^ 31 - 2)) 2 ≡ some ((2 ^ 31 - 2 - 1 + 2) % (2 ^ 31 - 1) + 1)
get_elem?-job_numbers_example =
    get_elem?-job_numbers 5 2 (2 ^ 31 - 2) (omega arith) (omega arith) (omega arith)

init_request-update_jobno_example : init_request (update_jobno 100 (codes "99")) ≡ 100
unfolding digits digits_from
init_request-update_jobno_example =
    init_request-update_jobno 100 (codes "99") (omega arith) (omega arith)
