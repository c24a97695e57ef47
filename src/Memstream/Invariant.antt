-- ===== src/Memstream/Invariant.antt =====
-- The bounds of a stream of apue.3e/exercises/fmemopen.c: no function leaves the buffer.
use play_apue.Prelude.{
  ℕ, zero, suc, ◌+◌, ◌-◌, ◌^◌, ◌≤◌, ◌<◌, min, ◌≡◌, refl, ap, ◌∙◌, true, ◌&&◌, ◌||◌, not, Option,
  none, some, List, [], ◌∷◌, ◌++◌, arith, ltb, if◌then◌else◌, Bytes, length, take, drop,
  length-append, length-take, length-drop, ℤ, Bool-cases, inl, inr,
}
use play_apue.Memstream.{
  Flags, Memstream, ok, Host, find_end, set, copy_to, first_position, first_vsize, open_stream,
  own_buffer, open_buffer, fmemopen, type_to_flags, mstream_read, grow, end_null, mstream_write,
  size_sub, Whence, mstream_seek,
}

pub length-set : (xs : Bytes) (i v : ℕ) → length (set xs i v) ≡ length xs
length-set [] i v = refl
length-set (x ∷ xs) zero v = refl
length-set (x ∷ xs) (suc i) v = ap suc (length-set xs i v)

pub length-copy_to :
    (buf : Bytes) (off : ℕ) (bytes : Bytes)
    → off + length bytes ≤ length buf
    → length (copy_to buf off bytes) ≡ length buf
length-copy_to buf off bytes h = omega (
  arith,
  length-append (take off buf) (bytes ++ drop (off + length bytes) buf),
  length-append bytes (drop (off + length bytes) buf),
  length-take off buf,
  length-drop (off + length bytes) buf,
)

-- The position lies in the part that counts, and that in the buffer, which is not empty.
pub record IsValid (ms : Memstream) : Type 0 where
  pub whole : length ms.buf ≡ ms.rsize
  pub within : ms.curpos ≤ ms.vsize
  pub inside : ms.vsize ≤ ms.rsize
  pub some_room : 0 < ms.rsize
  pub small : ms.rsize < 2 ^ 31

find_end-le : (buf : Bytes) (len : ℕ) → find_end buf len ≤ len
unfolding find_end
find_end-le buf zero = omega arith
find_end-le [] (suc len) = omega arith
find_end-le (c ∷ buf) (suc len) = ground (arith, find_end-le buf len)

open_stream-IsValid :
    (host : Host) (ms t : Memstream) → IsValid ms → open_stream host ms ≡ ok t → IsValid t
unfolding open_stream
open_stream-IsValid host ms t v h = ground arith

own_buffer-IsValid :
    (host : Host) (size : ℕ) (f : Flags) (block : Option Bytes) (ms : Memstream)
    → ((b : Bytes) → block ≡ some b → length b ≡ size)
    → 0 < size
    → size < 2 ^ 31
    → own_buffer host size f block ≡ ok ms
    → IsValid ms
unfolding own_buffer first_vsize
own_buffer-IsValid host size f none ms b l u h = absurd (ground arith)
own_buffer-IsValid host size f (some buf) ms b l u h =
    open_stream-IsValid host _ ms
      (record {
        whole = b buf refl;
        within = omega arith;
        inside = ground arith;
        some_room = l;
        small = u;
      })
      h

open_buffer-IsValid :
    (host : Host) (buf : Option Bytes) (size : ℕ) (f : Flags) (ms : Memstream)
    → ((n : ℕ) (b : Bytes) → host.malloc n ≡ some b → length b ≡ n)
    → ((b : Bytes) → buf ≡ some b → length b ≡ size)
    → 0 < size
    → size < 2 ^ 31
    → open_buffer host buf size f ≡ ok ms
    → IsValid ms
unfolding open_buffer first_position first_vsize
open_buffer-IsValid host (some buf) size f ms m b l u h =
    open_stream-IsValid host _ ms
      (record {
        whole = b buf refl;
        within = ground arith;
        inside = ground (arith, find_end-le buf size);
        some_room = l;
        small = u;
      })
      h
open_buffer-IsValid host none size f ms m b l u h =
    elim (Bool-cases (not (f.ms_read && f.ms_write))) [
      | inl bad ↦ absurd (ground arith)
      | inr fine ↦ own_buffer-IsValid host size f (host.malloc size) ms (m size) l u (ground arith)
    ]

pub fmemopen-IsValid :
    (host : Host) (buf : Option Bytes) (size : ℕ) (type : Bytes) (ms : Memstream)
    → ((n : ℕ) (b : Bytes) → host.malloc n ≡ some b → length b ≡ n)
    → ((b : Bytes) → buf ≡ some b → length b ≡ size)
    → size < 2 ^ 31
    → fmemopen host buf size type ≡ ok ms
    → IsValid ms
unfolding fmemopen
fmemopen-IsValid host buf size type ms m b u h =
    open_buffer-IsValid host buf size (type_to_flags type) ms m b (ground arith) u (ground arith)

pub size_sub_lem : (a b : ℕ) → b ≤ a → a < 2 ^ 31 → size_sub a b ≡ a - b
size_sub_lem a b h k = omega arith

-- What holds between the copy and the end of a write.
record Copied (ms : Memstream) : Type 0 where
  whole : length ms.buf ≡ ms.rsize
  within : ms.curpos ≤ ms.rsize
  inside : ms.vsize ≤ ms.rsize
  some_room : 0 < ms.rsize
  small : ms.rsize < 2 ^ 31

grow-IsValid : (ms : Memstream) → Copied ms → IsValid (grow ms)
unfolding grow
grow-IsValid ms c = ground (arith, length-set ms.buf ms.curpos 0)

pub flags-grow : (ms : Memstream) → (grow ms).flags ≡ ms.flags
unfolding grow
flags-grow ms = elim (Bool-cases (ltb ms.vsize ms.curpos)) [ inl e ↦ rw e refl | inr e ↦ rw e refl ]

-- Up to its last step a write on a stream that is open for it keeps the bounds.
pub mstream_write_grown :
    (bytes : Bytes) (ms : Memstream)
    → IsValid ms
    → (ms.flags.ms_append || ms.flags.ms_write) ≡ true
    → (t : Memstream) × IsValid t × (t.flags ≡ ms.flags) × ((mstream_write bytes ms).0 ≡ end_null t)
unfolding mstream_write
mstream_write_grown bytes ms v fine =
    let off : ℕ = if ms.flags.ms_append then ms.vsize else ms.curpos in
    let le : off ≤ ms.vsize = ground arith in
    let nw : ℕ = min (length bytes) (size_sub ms.rsize off) in
    let fits : nw ≤ ms.rsize - off =
      omega (arith, size_sub_lem ms.rsize off (omega arith) v.small) in
    let n : length (take nw bytes) ≤ nw = omega (arith, length-take nw bytes) in
    let c : Memstream = record ms { buf = copy_to ms.buf off (take nw bytes); curpos = off + nw } in
    (
      grow c,
      grow-IsValid c (record {
        whole =
            length-copy_to ms.buf off (take nw bytes) (omega (arith, v.whole, v.inside)) ∙ v.whole;
        within = omega (arith, v.inside);
        inside = v.inside;
        some_room = v.some_room;
        small = v.small;
      }),
      flags-grow c,
      rw fine refl,
    )

-- What the stdio library asks of the stream.
pub data Request : Type 0 where
  to_read : ℕ → Request
  to_write : Bytes → Request
  to_seek : ℤ → Whence → Request

pub serve : Request → Memstream → Memstream
serve (to_read len) ms = (mstream_read len ms).0
serve (to_write bytes) ms = (mstream_write bytes ms).0
serve (to_seek by whence) ms = (mstream_seek by whence ms).0

pub serve_all : List Request → Memstream → Memstream
serve_all [] ms = ms
serve_all (r ∷ rs) ms = serve_all rs (serve r ms)
