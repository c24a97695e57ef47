-- ===== src/Lib.antt =====
-- The programs of play_apue, modelled and proved.
--
-- The repository holds the exercises of a reader of Advanced Programming in the UNIX Environment
-- (ch1 to ch14) and the programs of the book itself (apue.3e). Each is a program of its own; they
-- share no state.
--
-- Prelude: lists, bytes, Boolean tests and a pigeonhole lemma.
-- Db: the database library apue.3e/db/db.c. An index file holds a free list pointer, a table of hash
--   chain pointers and the index records; a data file holds the texts. Db.Ascii has the decimal fields
--   (sprintf and atol), Db.Storage files and the calls lseek, read and write, Db.State the DB structure
--   and the monad of its functions, Db.Record the functions on one field or record (_db_readptr,
--   _db_writeptr, _db_readidx, _db_writeidx, _db_readdat, _db_writedat), Db.Ops the searches and the
--   interface (db_fetch, db_store, db_delete, db_nextrec, db_rewind), Db.Open db_open. The modules
--   below them hold the proofs, Db.Examples runs and instances.
-- Timers: the timer list of ch10/p5.c. Timers has push_to_timer_list, alarm_proc and settimeout,
--   Timers.Order and Timers.Alarm the proofs. Times are 32-bit seconds; the next links of the structs
--   are a list, and what a read of a freed struct gives is an argument of alarm_proc.
-- Rot13: apue.3e/advio/rot13c2.c, rot13 by asynchronous reads and writes. Rot13 has the buffers, the
--   body of the inner loop (visit) and the loops; Rot13.Slices, Visit, Loop and Progress the proofs,
--   Rot13.Translate the translation, Rot13.Chapter14 the loop of ch14/14_21.c. A run takes a schedule:
--   what aio_error reports in each pass of each buffer. The fuel of the outer loop is its length.
-- Memstream: apue.3e/exercises/fmemopen.c whole. Memstream.Invariant has the bounds, Contents what is
--   written and read, Mode the modes.
-- Printd: apue.3e/printer. Printd.Queue has the list of jobs on a heap (add_job, replace_job,
--   remove_job) and below it the proofs that it is a sequence, Printd.JobNumber get_newjobno,
--   update_jobno and init_request, Printd.Ipp add_option and the IPP request of printer_thread,
--   Printd.TimedRead tread and treadn of util.c. Printd.Spool has the spool directory with
--   client_thread, and below it Sent the request as a client lays it out and Restart build_qonstart,
--   with a number of free descriptors; Printd.Printing has one turn of printer_thread, which ends
--   where one of the buffers str, ibuf and hbuf is overrun. What a client sends is a list of arrivals, and what the disk, the network and the
--   printer do in a call is an argument. treadn is on fuel, the number of bytes asked for, and the loop
--   of client_thread on the bytes that arrive. Printd.Config has the configuration file of util.c; its
--   loop is on fuel, one more than the bytes of the file. The list of workers and its signals,
--   printer_status and the client print.c are not modelled; one thread runs at a time.
-- Threads: the counted objects of apue.3e/threads/mutex3.c, a hash table of chains on a heap.
--   Threads.Chain has what a table is, Find and Release the proofs on single calls, Calls on sequences.
--   The loops are on fuel, and more fuel than objects on the chain is enough.
--
-- In the model of the database the functions are those of db.c without the leading underscore; a
-- result 0 or -1 is true or false; off_t and size_t are 64-bit words, so that a negative offset is a
-- word from 2^63 on. err_dump and err_quit end the run with a fault. One process is modelled: what
-- another does between two calls is not. A failing disk, a full disk and interrupted calls are not
-- modelled, nor the sizes of the C buffers. A search of a chain is on fuel, one more than the bytes of
-- the index file; Db.Ops.Chain shows that a chain which ends has fewer records.
pub mod Db
pub mod Memstream
pub mod Prelude
pub mod Printd
pub mod Rot13
pub mod Threads
pub mod Timers
