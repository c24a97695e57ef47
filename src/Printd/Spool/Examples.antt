-- ===== src/Printd/Spool/Examples.antt =====
-- A client with a small job, and the theorems on the spool of apue.3e/printer/printd.c at it.
use play_apue.Prelude.{ℕ, ◌≡◌, refl, none, List, [], ◌∷◌, ◌++◌, arith, Bytes, codes, map, replicate}
use play_apue.Db.Ascii.{digits}
use play_apue.Printd.{Printreq}
use play_apue.Printd.TimedRead.{Arrival, bytes, treadn, treadn_loop, on_reading, tread}
use play_apue.Printd.JobNumber.{get_newjobno}
use play_apue.Printd.Spool.{
  Spool, client_thread, on_header, accept, create_data, store_data, create_request, write_request,
  read_request, copy_data, copy_loop, copy_round,
}
use play_apue.Printd.Spool.Copy.{marked}
use play_apue.Printd.Spool.Client.{healthy, Accepted, Outcome, client_thread-Outcome}
use play_apue.Printd.Spool.Restart.{build_qonstart, build_qonstart-client_thread}

-- An empty spool whose next job has the number 4, and a request as a client sends it.
abbrev pub spool : Spool
spool = record { data_dir = λ _. none; req_dir = λ _. none; jobs = []; nextjob = 4 }

abbrev pub header : Bytes
header = replicate 8 0 ++ (codes "sar" ++ replicate 61 0) ++ (codes "letter" ++ replicate 250 0)

abbrev pub sent_by_client : List Arrival
sent_by_client = bytes header ∷ bytes (codes "%!PS") ∷ []

abbrev pub strerror : ℕ → Bytes
strerror e = codes "error"

client_thread_marks_text :
    (client_thread strerror healthy (bytes header ∷ bytes (codes "hello") ∷ []) spool).0.jobs
    ≡ (4, record { size = 0; flags = 1; usernm = codes "sar"; jobnm = codes "letter" }) ∷ []
unfolding client_thread on_header accept create_data store_data create_request write_request
    get_newjobno read_request copy_data copy_loop copy_round tread treadn treadn_loop on_reading
client_thread_marks_text = refl

abbrev letter : Printreq
letter = record { size = 0; flags = 0; usernm = codes "sar"; jobnm = codes "letter" }

build_qonstart-client_thread_example :
    Accepted spool (codes "%!PS") letter (client_thread strerror healthy sent_by_client spool)
    × ((build_qonstart
          (codes "." ∷ codes ".." ∷ map digits (4 ∷ []))
          (1, record (client_thread strerror healthy sent_by_client spool).0 { jobs = [] })).1.jobs
        ≡ (4, letter) ∷ [])
unfolding marked tread treadn treadn_loop on_reading
build_qonstart-client_thread_example =
    build_qonstart-client_thread strerror sent_by_client letter (replicate 60 0) (replicate 249 0)
      (codes "%!PS") spool [] 1
      (record {
        size_fits = omega arith;
        flags_fit = omega arith;
        usernm_string = omega arith;
        jobnm_string = omega arith;
        usernm_fits = refl;
        jobnm_fits = refl;
      })
      refl (omega arith) tt tt tt (omega arith)

client_thread-Outcome_example :
    Outcome strerror spool sent_by_client (client_thread strerror healthy sent_by_client spool)
client_thread-Outcome_example =
    client_thread-Outcome strerror spool refl refl healthy sent_by_client
