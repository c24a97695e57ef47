-- ===== src/Db/Record/Index.antt =====
-- The index records of apue.3e/db/db.c: when the index file holds a record, what `_db_readidx` makes
-- of it, and that `_db_writeidx` puts it there.
use play_apue.Prelude.{
  ℕ, ◌+◌, ◌^◌, ◌≤◌, ◌<◌, ◌≡◌, ap, sym, ◌∙◌, [], ◌++◌, arith, Bytes, Lacks, length, length-append,
  take, drop, take_all, take-append_of, drop-append_of, append-nil, inr,
}
use play_apue.Db.Ascii.{digits, pad, atol, long_max}
use play_apue.Db.Ascii.RoundTrip.{atol-pad, length-pad, length-digits}
use play_apue.Db.Storage.{seek_set, seek_end, lseek, read, write, read_at, write_at}
use play_apue.Db.Storage.Laws.{
  read_at-write_at, read_at-add, length-read_at, read_at-write_at_inside, read_at-write_at-Apart,
  Apart, length-write_at, read_at-write_at_prefix,
}
use play_apue.Db.State.{Db, Which, without, done}
use play_apue.Db.Record.{
  sep, ptr_sz, idxlen_sz, ptr_max, idxlen_min, idxlen_max, datlen_max, db_readidx, db_writeidx,
  read_body, index_text, index_header, records_off,
}
use play_apue.Db.Record.Pointer.{field, length-field}
use mathlib.Core.Path.{subst}
use play_apue.Db.Record.Text.{index_text-ends, line-index_text, parse_fields_lem}

-- An index record: where it stands, and its fields.
pub record IndexRecord : Type 0 where
  pub off : ℕ
  pub ptrval : ℕ
  pub key : Bytes
  pub datoff : ℕ
  pub datlen : ℕ

abbrev pub text_of : IndexRecord → Bytes
text_of r = index_text r.key r.datoff r.datlen

-- What the sizes of the fields allow.
pub record IsSized (r : IndexRecord) : Type 0 where
  pub off_pos : 0 < r.off
  pub off_small : r.off < 2 ^ 63
  pub ptr_fits : r.ptrval ≤ ptr_max
  pub key_plain : Lacks sep r.key
  pub key_string : Lacks 0 r.key
  pub datoff_fits : r.datoff ≤ long_max
  pub datlen_pos : 0 < r.datlen
  pub datlen_fits : r.datlen ≤ datlen_max
  pub idxlen_least : idxlen_min ≤ length (text_of r)
  pub idxlen_most : length (text_of r) ≤ idxlen_max

abbrev pub header_sz : ℕ
header_sz = 11

pub length-index_header :
    (p l : ℕ) → p ≤ ptr_max → l ≤ idxlen_max → length (index_header p l) ≡ header_sz
unfolding index_header
length-index_header p l hp hl = omega (
  arith,
  length-append (pad ptr_sz (digits p)) (pad idxlen_sz (digits l)),
  length-pad ptr_sz (digits p) (length-digits p 6 (omega arith)),
  length-pad idxlen_sz (digits l) (length-digits l 3 (omega arith)),
)

pub header-ptr :
    (p l : ℕ) → p ≤ ptr_max → l ≤ idxlen_max → atol (take ptr_sz (index_header p l)) ≡ p
unfolding index_header
header-ptr p l hp hl =
    rw
      (take-append_of ptr_sz (pad ptr_sz (digits p)) (pad idxlen_sz (digits l))
        (length-pad ptr_sz (digits p) (length-digits p 6 (omega arith))))
      (ap atol (sym (append-nil (pad ptr_sz (digits p)))) ∙ atol-pad ptr_sz p [] (omega arith) tt)

pub header-len :
    (p l : ℕ) → p ≤ ptr_max → l ≤ idxlen_max → atol (drop ptr_sz (index_header p l)) ≡ l
unfolding index_header
header-len p l hp hl =
    rw
      (drop-append_of ptr_sz (pad ptr_sz (digits p)) (pad idxlen_sz (digits l))
        (length-pad ptr_sz (digits p) (length-digits p 6 (omega arith))))
      (ap atol (sym (append-nil (pad idxlen_sz (digits l))))
        ∙ atol-pad idxlen_sz l [] (omega arith) tt)

-- The index file holds the record.
pub record RecordAt (bs : Bytes) (r : IndexRecord) : Type 0 where
  pub sized : IsSized r
  pub inside : r.off + header_sz + length (text_of r) ≤ length bs
  pub header : read_at header_sz r.off bs ≡ index_header r.ptrval (length (text_of r))
  pub text : read_at (length (text_of r)) (r.off + header_sz) bs ≡ text_of r

-- The structure after the record is read.
abbrev pub loaded : IndexRecord → Db → Db
loaded r d = record d {
  idxfd = record { bytes = d.idxfd.bytes; pos = r.off + header_sz + length (text_of r) };
  idxbuf = r.key;
  idxoff = r.off;
  idxlen = length (text_of r);
  datoff = r.datoff;
  datlen = r.datlen;
  ptrval = r.ptrval;
}

pub read_body_lem :
    (r : IndexRecord) (d : Db)
    → IsSized r
    → read_at (length (text_of r)) d.idxfd.pos d.idxfd.bytes ≡ text_of r
    → read_body (length (text_of r)) d
      ≡ done tt (record d {
        idxfd = record { bytes = d.idxfd.bytes; pos = d.idxfd.pos + length (text_of r) };
        idxbuf = r.key;
        idxlen = length (text_of r);
        datoff = r.datoff;
        datlen = r.datlen;
      })
unfolding read_body read
read_body_lem r d z e = ground (
  arith,
  index_text-ends r.key r.datoff r.datlen,
  line-index_text r.key r.datoff r.datlen z.key_string,
  parse_fields_lem r.key r.datoff r.datlen
      (record d {
        idxfd = record { bytes = d.idxfd.bytes; pos = d.idxfd.pos + length (text_of r) };
        idxlen = length (text_of r);
      })
      z.key_plain z.datoff_fits z.datlen_pos z.datlen_fits,
)

pub db_readidx_lem :
    (r : IndexRecord) (d : Db)
    → RecordAt d.idxfd.bytes r
    → db_readidx r.off d ≡ done r.ptrval (loaded r d)
unfolding db_readidx lseek read
db_readidx_lem r d at =
    let s = at.sized in
    ground (
      arith,
      header-ptr r.ptrval (length (text_of r)) s.ptr_fits s.idxlen_most,
      header-len r.ptrval (length (text_of r)) s.ptr_fits s.idxlen_most,
      length-index_header r.ptrval (length (text_of r)) s.ptr_fits s.idxlen_most,
      read_body_lem r
          (record d {
            idxfd = record { bytes = d.idxfd.bytes; pos = r.off + header_sz };
            idxoff = r.off;
            ptrval = r.ptrval;
          })
          s at.text,
    )

sized_header :
    (r : IndexRecord) → IsSized r → length (index_header r.ptrval (length (text_of r))) ≡ header_sz
sized_header r z = length-index_header r.ptrval (length (text_of r)) z.ptr_fits z.idxlen_most

-- The bytes of a record.
unfoldable pub record_bytes : IndexRecord → Bytes
record_bytes r = index_header r.ptrval (length (text_of r)) ++ text_of r

pub length-record_bytes :
    (r : IndexRecord) → IsSized r → length (record_bytes r) ≡ header_sz + length (text_of r)
unfolding record_bytes
length-record_bytes r z = omega (
  arith,
  length-append (index_header r.ptrval (length (text_of r))) (text_of r),
  length-index_header r.ptrval (length (text_of r)) z.ptr_fits z.idxlen_most,
)

-- The structure after the record is written.
abbrev pub stored : IndexRecord → Db → Db
stored r d = record d {
  idxfd = record {
    bytes = write_at r.off (record_bytes r) d.idxfd.bytes;
    pos = r.off + length (record_bytes r);
  };
  idxbuf = text_of r;
  idxoff = r.off;
  ptrval = r.ptrval;
}

pub db_writeidx_lem :
    (r : IndexRecord) (d : Db)
    → IsSized r
    → d.datoff ≡ r.datoff
    → d.datlen ≡ r.datlen
    → db_writeidx r.key r.off seek_set r.ptrval d ≡ done tt (stored r d)
unfolding db_writeidx lseek write record_bytes
db_writeidx_lem r d z eo el = ground arith

-- The structure after the record is appended.
abbrev pub appended : IndexRecord → Db → Db
appended r d = record (stored r d) { locks = without Which.idxfd (records_off d) 0 d.locks }

pub db_writeidx_append_lem :
    (r : IndexRecord) (d : Db)
    → IsSized r
    → r.off ≡ length d.idxfd.bytes
    → d.datoff ≡ r.datoff
    → d.datlen ≡ r.datlen
    → db_writeidx r.key 0 seek_end r.ptrval d ≡ done tt (appended r d)
unfolding db_writeidx lseek write record_bytes
db_writeidx_append_lem r d z at eo el = ground arith

-- A record that is written is in the file.
pub RecordAt-write_at :
    (r : IndexRecord) (bs : Bytes)
    → IsSized r
    → r.off ≤ length bs
    → RecordAt (write_at r.off (record_bytes r) bs) r
unfolding record_bytes
RecordAt-write_at r bs z h = record {
  sized = z;
  inside = omega (arith, length-write_at r.off (record_bytes r) bs h, length-record_bytes r z);
  header =
      read_at-write_at_prefix header_sz r.off (record_bytes r) bs
        (omega (arith, length-record_bytes r z))
      ∙ take-append_of header_sz (index_header r.ptrval (length (text_of r))) (text_of r)
          (sized_header r z);
  text =
      read_at-write_at_inside (length (text_of r)) header_sz r.off (record_bytes r) bs
        (omega (arith, length-record_bytes r z))
      ∙ ap (take (length (text_of r))) (
          drop-append_of header_sz (index_header r.ptrval (length (text_of r))) (text_of r)
            (sized_header r z))
      ∙ take_all (text_of r);
}

-- A write elsewhere leaves it there.
pub RecordAt-write_at-Apart :
    (r : IndexRecord) (off : ℕ) (s bs : Bytes)
    → RecordAt bs r
    → Apart r.off (header_sz + length (text_of r)) off (length s)
    → off ≤ length bs
    → RecordAt (write_at off s bs) r
RecordAt-write_at-Apart r off s bs at apart h = record {
  sized = at.sized;
  inside = omega (arith, length-write_at off s bs h, at.inside);
  header =
      read_at-write_at-Apart header_sz r.off off s bs (grind arith) (omega (arith, at.inside)) h
      ∙ at.header;
  text =
      read_at-write_at-Apart (length (text_of r)) (r.off + header_sz) off s bs (grind arith)
        (omega (arith, at.inside)) h
      ∙ at.text;
}

-- A write of the pointer field changes the pointer and nothing else.
pub RecordAt-field :
    (r : IndexRecord) (p : ℕ) (bs : Bytes)
    → p ≤ ptr_max
    → RecordAt bs r
    → RecordAt (write_at r.off (field p) bs) (record r { ptrval = p })
unfolding index_header field
RecordAt-field r p bs h at =
    let z = at.sized in
    let inside : r.off + header_sz + length (text_of r) ≤ length bs = at.inside in
    let len_part : Bytes = pad idxlen_sz (digits (length (text_of r))) in
    let head_size : length (field r.ptrval) ≡ ptr_sz = length-field r.ptrval z.ptr_fits in
    let old : read_at idxlen_sz (r.off + ptr_sz) bs ≡ len_part =
      sym (
        drop-append_of ptr_sz (read_at ptr_sz r.off bs) (read_at idxlen_sz (r.off + ptr_sz) bs)
          (length-read_at ptr_sz r.off bs (omega arith)))
      ∙ ap (drop ptr_sz) (sym (read_at-add ptr_sz idxlen_sz r.off bs) ∙ at.header)
      ∙ drop-append_of ptr_sz (field r.ptrval) len_part head_size in
    let new_size : length (field p) ≡ ptr_sz = length-field p h in
    let first : read_at ptr_sz r.off (write_at r.off (field p) bs) ≡ field p =
      subst (λ n. read_at n r.off (write_at r.off (field p) bs) ≡ field p) new_size
        (read_at-write_at r.off (field p) bs) in
    record {
      sized = record {
        off_pos = z.off_pos;
        off_small = z.off_small;
        ptr_fits = h;
        key_plain = z.key_plain;
        key_string = z.key_string;
        datoff_fits = z.datoff_fits;
        datlen_pos = z.datlen_pos;
        datlen_fits = z.datlen_fits;
        idxlen_least = z.idxlen_least;
        idxlen_most = z.idxlen_most;
      };
      inside = omega (arith, length-write_at r.off (field p) bs);
      header =
          read_at-add ptr_sz idxlen_sz r.off (write_at r.off (field p) bs)
          ∙ ap (λ t. t ++ read_at idxlen_sz (r.off + ptr_sz) (write_at r.off (field p) bs)) first
          ∙ ap (λ t. field p ++ t)
              (read_at-write_at-Apart idxlen_sz (r.off + ptr_sz) r.off (field p) bs
                  (inr (omega arith)) (omega arith) (omega arith)
                ∙ old);
      text =
          read_at-write_at-Apart (length (text_of r)) (r.off + header_sz) r.off (field p) bs
            (inr (omega arith)) (omega arith) (omega arith)
          ∙ at.text;
    }
