-- ===== src/Db.antt =====
-- apue.3e/db/db.c, the hash-chained database library, from its ASCII fields upwards.
pub mod Ascii
pub mod Storage
pub mod State
pub mod Record
pub mod Ops
pub mod Open
mod Examples
