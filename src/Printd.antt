-- ===== src/Printd.antt =====
-- apue.3e/printer: the print server daemon printd.c and the timed reads of util.c.
pub mod Queue
pub mod Ipp
pub mod JobNumber
pub mod TimedRead
pub mod Spool
pub mod Printing
pub mod Config
mod Examples
use play_apue.Prelude.{ℕ, Bytes}

-- `struct printreq` of print.h; the two texts are C strings.
pub record Printreq : Type 0 where
  pub size : ℕ
  pub flags : ℕ
  pub usernm : Bytes
  pub jobnm : Bytes
