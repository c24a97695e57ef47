-- ===== src/Memstream/Contents.antt =====
-- What a write of apue.3e/exercises/fmemopen.c leaves in the buffer, and what is read back.
use mathlib.Core.Path.{subst}
use play_apue.Prelude.{
  ℕ, zero, suc, ◌+◌, ◌-◌, ◌%◌, ◌^◌, ◌≤◌, ◌<◌, min, ◌≡◌, refl, ap, ◌∙◌, sym, true, false, ◌||◌, some,
  [], ◌∷◌, ◌++◌, arith, ltb, leb, if◌then◌else◌, Bytes, length, take, drop, length-append,
  length-take, pos, Bool-cases, inl, inr, append_assoc, take-append_of, drop-append_of, get_elem?,
  take_all,
}
use play_apue.Memstream.{
  Memstream, ok, set, copy_to, mstream_read, grow, end_null, mstream_write, size_sub, seek_set,
  seek_target, seek_to, mstream_seek,
}
use play_apue.Memstream.Invariant.{IsValid, size_sub_lem, flags-grow, mstream_write_grown}

take-set : (n i v : ℕ) (xs : Bytes) → n ≤ i → take n (set xs i v) ≡ take n xs
take-set zero i v xs h = refl
take-set (suc n) i v [] h = refl
take-set (suc n) zero v (x ∷ xs) h = absurd (omega arith)
take-set (suc n) (suc i) v (x ∷ xs) h = ap (λ t. x ∷ t) (take-set n i v xs (omega arith))

-- A byte set behind a part of the list leaves the part.
part-set :
    (o n i v : ℕ) (xs : Bytes) → o + n ≤ i → take n (drop o (set xs i v)) ≡ take n (drop o xs)
part-set zero n i v xs h = take-set n i v xs (omega arith)
part-set (suc o) n i v [] h = refl
part-set (suc o) n zero v (x ∷ xs) h = absurd (omega arith)
part-set (suc o) n (suc i) v (x ∷ xs) h = part-set o n i v xs (omega arith)

get_elem?-set : (xs : Bytes) (i v : ℕ) → i < length xs → get_elem? (set xs i v) i ≡ some v
get_elem?-set [] i v h = absurd (omega arith)
get_elem?-set (x ∷ xs) zero v h = refl
get_elem?-set (x ∷ xs) (suc i) v h = get_elem?-set xs i v (omega arith)

-- The bytes copied stand where they were copied to.
part-copy_to :
    (buf : Bytes) (off : ℕ) (bytes : Bytes)
    → off ≤ length buf
    → take (length bytes) (drop off (copy_to buf off bytes)) ≡ bytes
part-copy_to buf off bytes h =
    let e =
      drop-append_of off (take off buf) (bytes ++ drop (off + length bytes) buf)
        (omega (arith, length-take off buf)) in
    ap (take (length bytes)) e
    ∙ take-append_of (length bytes) bytes (drop (off + length bytes) buf) refl

take-copy_to :
    (buf : Bytes) (off : ℕ) (bytes : Bytes)
    → off ≤ length buf
    → take off (copy_to buf off bytes) ≡ take off buf
take-copy_to buf off bytes h =
    take-append_of off (take off buf) (bytes ++ drop (off + length bytes) buf)
      (omega (arith, length-take off buf))

-- The end of a write leaves what stands before the position.
grow_part :
    (ms : Memstream) (o n : ℕ)
    → o + n ≤ ms.curpos
    → take n (drop o (grow ms).buf) ≡ take n (drop o ms.buf)
unfolding grow
grow_part ms o n h = ground (arith, part-set o n ms.curpos 0 ms.buf)

-- The stream after the copy of a write.
abbrev copied : Bytes → ℕ → Memstream → Memstream
copied bytes off ms = record ms { buf = copy_to ms.buf off bytes; curpos = off + length bytes }

-- A write that fits copies all its bytes.
write_fits :
    (bytes : Bytes) (off : ℕ) (ms : Memstream)
    → IsValid ms
    → (ms.flags.ms_append || ms.flags.ms_write) ≡ true
    → (if ms.flags.ms_append then ms.vsize else ms.curpos) ≡ off
    → off + length bytes ≤ ms.rsize
    → mstream_write bytes ms ≡ (end_null (grow (copied bytes off ms)), ok (length bytes))
unfolding mstream_write
write_fits bytes off ms v open_for at fits =
    let n : min (length bytes) (size_sub ms.rsize off) ≡ length bytes =
      omega (arith, size_sub_lem ms.rsize off (omega arith) v.small) in
    rw (open_for, at, n, take_all bytes) refl

end_null_update : (ms : Memstream) → ms.flags.ms_read ≡ true → end_null ms ≡ ms
unfolding end_null
end_null_update ms r = ground arith

grow_bounds : (ms : Memstream) → (ms.curpos ≤ (grow ms).vsize) × ((grow ms).curpos ≡ ms.curpos)
unfolding grow
grow_bounds ms = ground arith

-- A read from `at` within what counts.
read_part :
    (ms : Memstream) (at : ℕ) (bytes : Bytes)
    → ms.flags.ms_read ≡ true
    → at < 2 ^ 31
    → at + length bytes ≤ ms.vsize
    → take (length bytes) (drop at ms.buf) ≡ bytes
    → (mstream_read (length bytes) (mstream_seek (pos at) seek_set ms).0).1 ≡ ok bytes
unfolding mstream_read mstream_seek seek_target seek_to
read_part ms at bytes r small h e =
    let whole : at % 2 ^ 32 ≡ at = omega arith in
    let is_int : ltb at (2 ^ 31) ≡ true = ground arith in
    let in_range : ltb ms.vsize at ≡ false = ground arith in
    elim (Bool-cases (leb ms.vsize at)) [
      | inl nothing ↦
          let n : length bytes ≡ 0 = ground arith in
          rw (whole, is_int, in_range, r, nothing)
            (ap ok (subst (λ k. take k (drop at ms.buf) ≡ bytes) n e))
      | inr more ↦
          let n : min (length bytes) (ms.vsize - at) ≡ length bytes = omega arith in
          rw (whole, is_int, in_range, r, more, n, e) refl
    ]

-- On a stream open for reading and writing but not for appending, what is written within the
-- buffer is read back after a seek to where the write began.
pub mstream_read-mstream_write :
    (bytes : Bytes) (ms : Memstream)
    → IsValid ms
    → ms.flags.ms_read ≡ true
    → ms.flags.ms_write ≡ true
    → ms.flags.ms_append ≡ false
    → ms.curpos + length bytes ≤ ms.rsize
    → (mstream_read
        (length bytes)
        (mstream_seek (pos ms.curpos) seek_set (mstream_write bytes ms).0).0).1
      ≡ ok bytes
mstream_read-mstream_write bytes ms v r w a fits =
    let c = copied bytes ms.curpos ms in
    let e : mstream_write bytes ms ≡ (end_null (grow c), ok (length bytes)) =
      write_fits bytes ms.curpos ms v (rw (a, w) refl) (rw a refl) fits in
    let g : end_null (grow c) ≡ grow c =
      end_null_update (grow c) (ap (λ f. f.ms_read) (flags-grow c) ∙ r) in
    rw (e, g)
      (read_part (grow c) ms.curpos bytes (ap (λ f. f.ms_read) (flags-grow c) ∙ r)
        (omega (arith, v.within, v.inside, v.small)) (grow_bounds c).0
        (grow_part c ms.curpos (length bytes) (omega arith)
          ∙ part-copy_to ms.buf ms.curpos bytes (omega (arith, v.whole, v.within, v.inside))))

-- A stream that is only written ends with a null.
end_null-get_elem? :
    (ms : Memstream)
    → IsValid ms
    → ms.flags.ms_read ≡ false
    → (ms.flags.ms_append || ms.flags.ms_write) ≡ true
    → get_elem? (end_null ms).buf (min (end_null ms).curpos ((end_null ms).rsize - 1)) ≡ some 0
unfolding end_null
end_null-get_elem? ms v r w =
    let o : (ms.flags.ms_write || ms.flags.ms_append) ≡ true = ground arith in
    elim (Bool-cases (ltb ms.curpos ms.rsize)) [
      | inl room ↦
          let m : min ms.curpos (ms.rsize - 1) ≡ ms.curpos = ground arith in
          rw (o, r, room, m) (get_elem?-set ms.buf ms.curpos 0 (ground arith))
      | inr full ↦
          let m : min ms.curpos (ms.rsize - 1) ≡ ms.rsize - 1 = ground arith in
          rw (o, r, full, m)
            (get_elem?-set ms.buf (ms.rsize - 1) 0 (omega (arith, v.whole, v.some_room)))
    ]

-- After a write on a stream open for writing or appending and not for reading, the byte at the
-- position is null, or the last byte of the buffer where the position is past it.
pub mstream_write-get_elem? :
    (bytes : Bytes) (ms : Memstream)
    → IsValid ms
    → ms.flags.ms_read ≡ false
    → (ms.flags.ms_append || ms.flags.ms_write) ≡ true
    → let t = (mstream_write bytes ms).0 in get_elem? t.buf (min t.curpos (t.rsize - 1)) ≡ some 0
mstream_write-get_elem? bytes ms v r w =
    let (t, vt, f, e) = mstream_write_grown bytes ms v w in
    rw e (
      end_null-get_elem? t vt (ap (λ q. q.ms_read) f ∙ r)
        (ap (λ q. q.ms_append || q.ms_write) f ∙ w))

end_null_part :
    (ms : Memstream) (o n : ℕ)
    → ms.curpos < ms.rsize
    → o + n ≤ ms.curpos
    → (take n (drop o (end_null ms).buf) ≡ take n (drop o ms.buf))
      × ((end_null ms).vsize ≡ ms.vsize)
unfolding end_null
end_null_part ms o n h k = ground (arith, part-set o n ms.curpos 0 ms.buf)

grow_same : (ms : Memstream) → ((grow ms).curpos ≡ ms.curpos) × ((grow ms).rsize ≡ ms.rsize)
unfolding grow
grow_same ms = ground arith

vsize-grow : (ms : Memstream) → ms.vsize ≤ ms.curpos → (grow ms).vsize ≡ ms.curpos
unfolding grow
vsize-grow ms h = ground arith

take-copy_to_append :
    (buf : Bytes) (off : ℕ) (bytes : Bytes)
    → off ≤ length buf
    → take (off + length bytes) (copy_to buf off bytes) ≡ take off buf ++ bytes
take-copy_to_append buf off bytes h =
    ap (take (off + length bytes))
      (sym (append_assoc (take off buf) bytes (drop (off + length bytes) buf)))
    ∙ take-append_of (off + length bytes) (take off buf ++ bytes) (drop (off + length bytes) buf)
        (omega (arith, length-append (take off buf) bytes, length-take off buf))

-- On a stream open for appending, a write that leaves room for a null adds its bytes to the part
-- that counts, wherever the position is, and changes no byte of that part.
pub mstream_write_append :
    (bytes : Bytes) (ms : Memstream)
    → IsValid ms
    → ms.flags.ms_append ≡ true
    → ms.vsize + length bytes < ms.rsize
    → let t = (mstream_write bytes ms).0 in
      (t.vsize ≡ ms.vsize + length bytes) × (take t.vsize t.buf ≡ take ms.vsize ms.buf ++ bytes)
mstream_write_append bytes ms v a fits =
    let c = copied bytes ms.vsize ms in
    let e : mstream_write bytes ms ≡ (end_null (grow c), ok (length bytes)) =
      write_fits bytes ms.vsize ms v (rw a refl) (rw a refl) (omega arith) in
    let at : (grow c).curpos ≡ ms.vsize + length bytes = (grow_same c).0 in
    let room : (grow c).rsize ≡ ms.rsize = (grow_same c).1 in
    let n = end_null_part (grow c) 0 (ms.vsize + length bytes) (omega arith) (omega arith) in
    let w : (end_null (grow c)).vsize ≡ ms.vsize + length bytes =
      n.1 ∙ vsize-grow c (omega arith) in
    rw e (
      w,
      ap (λ k. take k (end_null (grow c)).buf) w
          ∙ n.0
          ∙ grow_part c 0 (ms.vsize + length bytes) (omega arith)
          ∙ take-copy_to_append ms.buf ms.vsize bytes (omega (arith, v.whole, v.inside)),
    )
