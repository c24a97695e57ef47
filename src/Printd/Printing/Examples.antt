-- ===== src/Printd/Printing/Examples.antt =====
-- Turns of the printer thread, and the theorems on apue.3e/printer/printd.c at them.
use play_apue.Prelude.{
  ◌≡◌, refl, true, false, none, some, [], ◌∷◌, ◌++◌, arith, Bytes, codes, length, drop,
}
use play_apue.Db.Ascii.{digits, digits_from, atol}
use play_apue.Printd.{Printreq}
use play_apue.Printd.Ipp.{ipp_request, fill_ibuf, options, add_options, add_option}
use play_apue.Printd.Spool.{whole, put, client_thread}
use play_apue.Printd.Spool.Client.{healthy}
use play_apue.Printd.Spool.Examples.{spool, strerror, sent_by_client}
use play_apue.Printd.Printing.{
  Turn, Server, printed, backspace, http_header, send_job, with_ibuf, with_hbuf, write_job,
  fill_hbuf, open_job, print_job, check_config, take_job, printer_turn,
}
use play_apue.Printd.Printing.Safety.{Handled, printer_turn-Handled}
use play_apue.Printd.Printing.Invariant.{Kept, After, printer_turn-Kept, client_thread-Kept}
use play_apue.Printd.Printing.Request.{FitsBuffers, printer_turn-content_length}

abbrev letter : Printreq
letter = record { size = 5; flags = 0; usernm = codes "sar"; jobnm = codes "letter.ps" }

client_thread-Kept_example : Kept (client_thread strerror healthy sent_by_client spool).0
client_thread-Kept_example =
    client_thread-Kept strerror healthy sent_by_client spool
      (record { small = tt; distinct = tt; files = tt }) (omega arith) tt refl refl

-- A server with that job, and a turn in which all goes well.
abbrev server : Server
server = record {
  spool = record spool {
    jobs = (4, letter) ∷ [];
    data_dir = put (codes "4") (codes "%!PS") spool.data_dir;
    req_dir = put (codes "4") (whole letter) spool.req_dir;
  };
  reread = false;
  printer_name = codes "lp";
  job_file = codes "4";
}

abbrev turn : Turn
turn = record {
  configured = none;
  fstats = true;
  connects = true;
  writes_headers = true;
  writes_backspace = true;
  writes_file = true;
  reads_file = true;
  printer_status = true;
}

printer_turn-Handled_example : Handled turn server.spool (4, letter) [] (printer_turn turn server)
printer_turn-Handled_example = printer_turn-Handled turn server (4, letter) [] refl

printer_turn-Kept_example : After Kept (printer_turn turn server)
unfolding digits digits_from
printer_turn-Kept_example = printer_turn-Kept turn server (record {
  small = (omega arith, tt);
  distinct = (tt, tt);
  files = ((refl, (codes "%!PS", refl)), tt);
})

-- What the printer was sent, and the server after it.
sent_bytes : Bytes
sent_bytes = elim (printer_turn turn server) [ printed sent t ↦ sent | _ ↦ [] ]

server_after : Server
server_after = elim (printer_turn turn server) [ printed sent t ↦ t | _ ↦ server ]

printer_turn-content_length_example :
    (body file : Bytes) × (server.spool.data_dir (digits 4) ≡ some file)
    × (body ≡ ipp_request 4 server_after.printer_name letter ++ (backspace letter ++ file))
    × (sent_bytes ≡ http_header server_after.printer_name (length body) ++ body)
    × FitsBuffers (4, letter) server_after.printer_name (length body)
    × (atol (drop 36 sent_bytes) ≡ length body)
unfolding sent_bytes server_after printer_turn take_job check_config print_job open_job send_job
    with_ibuf with_hbuf write_job fill_ibuf fill_hbuf http_header ipp_request options add_options
    add_option digits digits_from
printer_turn-content_length_example =
    printer_turn-content_length turn server server_after (4, letter) [] sent_bytes refl refl
      (omega arith)
