-- ===== src/Memstream/Examples.antt =====
-- Streams over small buffers, and the theorems on apue.3e/exercises/fmemopen.c at them.
use play_apue.Prelude.{◌^◌, ◌≡◌, refl, true, none, some, arith, codes, replicate, pos}
use play_apue.Memstream.{
  Memstream, ok, err, einval, Host, no_flags, fmemopen, mstream_close, mstream_read, mstream_write,
  mstream_seek, seek_target, seek_to, seek_set, type_to_flags, mode_loop, mode_step, open_buffer,
}
use play_apue.Memstream.Contents.{mstream_read-mstream_write}
use play_apue.Memstream.Mode.{mode_flags, type_to_flags-eq-mode_flags}

abbrev host : Host
host = record { has_struct = true; malloc = λ n. some (replicate n 7); funopen = none }

abbrev update : Memstream
update = record {
  buf = codes "abcdef";
  rsize = 6;
  vsize = 6;
  curpos = 1;
  flags = record no_flags { ms_read = true; ms_write = true };
}

abbrev log : Memstream
log = record {
  buf = codes "abcdef";
  rsize = 6;
  vsize = 2;
  curpos = 2;
  flags = record no_flags { ms_append = true };
}

fmemopen_own : fmemopen host none 6 (codes "w") ≡ err einval
unfolding fmemopen type_to_flags mode_loop mode_step open_buffer
fmemopen_own = refl

abbrev opened : Memstream
opened = record {
  buf = codes "abcdef";
  rsize = 6;
  vsize = 6;
  curpos = 0;
  flags = record no_flags { ms_read = true; ms_write = true };
}

mstream_close_kept : mstream_close update ≡ some update.buf
unfolding mstream_close
mstream_close_kept = refl

mstream_read-mstream_write_example :
    (mstream_read 3 (mstream_seek (pos 1) seek_set (mstream_write (codes "xyz") update).0).0).1
    ≡ ok (codes "xyz")
mstream_read-mstream_write_example =
    mstream_read-mstream_write (codes "xyz") update (omega arith) refl refl refl (omega arith)

type_to_flags-eq-mode_flags_example : type_to_flags (codes "wb+") ≡ mode_flags (codes "wb+")
type_to_flags-eq-mode_flags_example = type_to_flags-eq-mode_flags (codes "wb+")

-- The offset 2^32 is 0 as an int.
mstream_seek_wraps :
    mstream_seek (pos (2 ^ 32)) seek_set update ≡ (record update { curpos = 0 }, ok 0)
unfolding mstream_seek seek_target seek_to
mstream_seek_wraps = refl
