-- ===== src/Db/Record/Data.antt =====
-- The data records of apue.3e/db/db.c: `_db_readdat` and `_db_writedat` as functions of the data file.
use play_apue.Prelude.{
  ℕ, ◌+◌, ◌-◌, ◌≤◌, ◌≡◌, refl, ◌∙◌, true, [], ◌∷◌, ◌++◌, arith, Bytes, Lacks, cstr, cstr_lem,
  length, length-append, take, take-length-append, last?-snoc,
}
use mathlib.Core.Path.{subst}
use play_apue.Db.Ascii.{long_max}
use play_apue.Db.Storage.{seek_set, seek_end, lseek, read, write, read_at, write_at}
use play_apue.Db.Storage.Laws.{read_at-write_at, read_at-write_at-Apart, Apart, length-write_at}
use play_apue.Db.State.{Db, Which, without, done}
use play_apue.Db.Record.{newline, db_readdat, db_writedat, ends_in_newline}

abbrev pub line : Bytes → Bytes
line text = text ++ newline ∷ []

-- The data file holds the text and its newline at an offset.
pub record DataAt (bs : Bytes) (off : ℕ) (text : Bytes) : Type 0 where
  pub plain : Lacks 0 text
  pub small : off ≤ long_max
  pub inside : off + (length text + 1) ≤ length bs
  pub same : read_at (length text + 1) off bs ≡ line text

pub length-line : (text : Bytes) → length (line text) ≡ length text + 1
length-line text = length-append text (newline ∷ [])

line-ends : (text : Bytes) → ends_in_newline (line text) ≡ true
line-ends text = rw (last?-snoc text newline, ends_in_newline) refl

cstr-line : (text : Bytes) → Lacks 0 text → cstr (take (length text + 1 - 1) (line text)) ≡ text
cstr-line text h =
    let e : length text + 1 - 1 ≡ length text = omega arith in
    rw e (rw (take-length-append text (newline ∷ [])) (cstr_lem text h))

abbrev pub fetched : Bytes → Db → Db
fetched text d = record d {
  datfd = record { bytes = d.datfd.bytes; pos = d.datoff + (length text + 1) };
  datbuf = text;
}

pub db_readdat_lem :
    (text : Bytes) (d : Db)
    → DataAt d.datfd.bytes d.datoff text
    → d.datlen ≡ length text + 1
    → db_readdat d ≡ done text (fetched text d)
unfolding db_readdat lseek read
db_readdat_lem text d at e =
    ground (arith, at.same, length-line text, line-ends text, cstr-line text at.plain)

-- The structure after the text is written at an offset.
abbrev pub put_data : ℕ → Bytes → Db → Db
put_data off text d = record d {
  datfd = record { bytes = write_at off (line text) d.datfd.bytes; pos = off + length (line text) };
  datoff = off;
  datlen = length text + 1;
}

pub db_writedat_lem :
    (text : Bytes) (off : ℕ) (d : Db)
    → off ≤ long_max
    → db_writedat text off seek_set d ≡ done tt (put_data off text d)
unfolding db_writedat lseek write
db_writedat_lem text off d h = ground arith

pub db_writedat_append_lem :
    (text : Bytes) (d : Db)
    → length d.datfd.bytes ≤ long_max
    → db_writedat text 0 seek_end d
      ≡ done tt (record (put_data (length d.datfd.bytes) text d) {
        locks = without Which.datfd 0 0 d.locks;
      })
unfolding db_writedat lseek write
db_writedat_append_lem text d h = ground arith

pub DataAt-write_at :
    (off : ℕ) (text bs : Bytes)
    → Lacks 0 text
    → off ≤ long_max
    → off ≤ length bs
    → DataAt (write_at off (line text) bs) off text
DataAt-write_at off text bs p h k = record {
  plain = p;
  small = h;
  inside = omega (arith, length-write_at off (line text) bs k, length-line text);
  same =
      subst (λ n. read_at n off (write_at off (line text) bs) ≡ line text) (length-line text)
        (read_at-write_at off (line text) bs);
}

pub DataAt-write_at-Apart :
    (at : ℕ) (text : Bytes) (off : ℕ) (s bs : Bytes)
    → DataAt bs at text
    → Apart at (length text + 1) off (length s)
    → off ≤ length bs
    → DataAt (write_at off s bs) at text
DataAt-write_at-Apart at text off s bs d apart h = record {
  plain = d.plain;
  small = d.small;
  inside = omega (arith, length-write_at off s bs h, d.inside);
  same = read_at-write_at-Apart (length text + 1) at off s bs apart d.inside h ∙ d.same;
}
