-- ===== src/Printd/TimedRead.antt =====
-- apue.3e/printer/util.c: reads from a descriptor with a limit on the wait.
--
-- What the other end does is a list of arrivals: silence for longer than the limit, an error, or bytes.
-- Bytes that a read does not take are left for the next. No bytes, or no more arrivals, is the end of
-- the file.

pub mod Rest
use play_apue.Prelude.{
  ℕ, zero, suc, ◌-◌, ◌≤◌, ◌<◌, ◌≡◌, ◌≢◌, refl, ap, sym, ◌∙◌, ◌⊎◌, inl, inr, true, false, Option,
  none, some, List, [], ◌∷◌, ◌++◌, append_assoc, append-nil, arith, leb, ◌==◌, if◌then◌else◌, Bytes,
  length, take, drop, take_ge, length-take, Option-cases, split_le,
}

pub data Errno : Type 0 where
  etime other : Errno

pub data Arrival : Type 0 where
  silence broken : Arrival
  bytes : Bytes → Arrival

-- The result of a read: -1 with an error, or the bytes.
pub data Reading : Type 0 where
  failed : Errno → Reading
  got : Bytes → Reading

unfoldable pub tread : ℕ → List Arrival → Reading × List Arrival
tread nbytes [] = (got [], [])
tread nbytes (silence ∷ rest) = (failed etime, rest)
tread nbytes (broken ∷ rest) = (failed other, rest)
tread nbytes (bytes d ∷ rest) =
    (got (take nbytes d), if leb (length d) nbytes then rest else bytes (drop nbytes d) ∷ rest)

-- What the loop does with one reading, `again` being its next round.
unfoldable pub on_reading :
    ℕ
    → ℕ
    → Bytes
    → Reading × List Arrival
    → (ℕ → Bytes → List Arrival → Reading × List Arrival)
    → Reading × List Arrival
on_reading nbytes nleft buf (failed e, rest) again =
    if nleft == nbytes then (failed e, rest) else (got buf, rest)
on_reading nbytes nleft buf (got [], rest) again = (got buf, rest)
on_reading nbytes nleft buf (got (c ∷ d), rest) again =
    again (nleft - length (c ∷ d)) (buf ++ c ∷ d) rest

-- The loop, with fuel; `buf` is what was read so far.
unfoldable pub treadn_loop : ℕ → ℕ → ℕ → Bytes → List Arrival → Reading × List Arrival
treadn_loop zero nbytes nleft buf from = (got buf, from)
treadn_loop (suc fuel) nbytes nleft buf from = elim (nleft == 0) [
  | true ↦ (got buf, from)
  | false ↦ on_reading nbytes nleft buf (tread nleft from) (treadn_loop fuel nbytes)
]

-- Each round that goes on takes a byte off `nleft`.
unfoldable pub treadn : ℕ → List Arrival → Reading × List Arrival
treadn nbytes from = treadn_loop nbytes nbytes nbytes [] from

-- The bytes that come before the first silence, error or end.
abbrev pub available : List Arrival → Bytes
available [] = []
available (silence ∷ rest) = []
available (broken ∷ rest) = []
available (bytes [] ∷ rest) = []
available (bytes (c ∷ d) ∷ rest) = (c ∷ d) ++ available rest

-- The error that the first read meets.
abbrev pub first_error : List Arrival → Option Errno
first_error [] = none
first_error (silence ∷ rest) = some etime
first_error (broken ∷ rest) = some other
first_error (bytes d ∷ rest) = none

take-append_le :
    (n : ℕ) (xs ys : Bytes) → length xs ≤ n → take n (xs ++ ys) ≡ xs ++ take (n - length xs) ys
take-append_le n [] ys h = ap (λ k. take k ys) (omega arith)
take-append_le zero (x ∷ xs) ys h = absurd (omega arith)
take-append_le (suc n) (x ∷ xs) ys h =
    ap (λ t. x ∷ t) (take-append_le n xs ys (omega arith))
    ∙ ap (λ k. x ∷ (xs ++ take k ys)) (omega arith)

take-append_lt : (n : ℕ) (xs ys : Bytes) → n ≤ length xs → take n (xs ++ ys) ≡ take n xs
take-append_lt zero xs ys h = refl
take-append_lt (suc n) [] ys h = absurd (omega arith)
take-append_lt (suc n) (x ∷ xs) ys h = ap (λ t. x ∷ t) (take-append_lt n xs ys (omega arith))

pub treadn_loop_done :
    (fuel nbytes nleft : ℕ) (buf : Bytes) (from : List Arrival)
    → nleft ≡ 0
    → (treadn_loop fuel nbytes nleft buf from).0 ≡ got buf
unfolding treadn_loop
treadn_loop_done zero nbytes nleft buf from e = refl
treadn_loop_done (suc fuel) nbytes nleft buf from e = rw e refl

pub treadn_loop_round :
    (fuel nbytes nleft : ℕ) (buf : Bytes) (from : List Arrival)
    → nleft ≢ 0
    → treadn_loop (suc fuel) nbytes nleft buf from
      ≡ on_reading nbytes nleft buf (tread nleft from) (treadn_loop fuel nbytes)
unfolding treadn_loop
treadn_loop_round fuel nbytes nleft buf from h =
    let e : (nleft == 0) ≡ false = ground arith in rw (e, treadn_loop) refl

treadn_loop_lem :
    (fuel nbytes nleft : ℕ) (buf : Bytes) (from : List Arrival)
    → nleft ≤ fuel
    → nleft ≤ nbytes
    → (nleft ≢ nbytes) ⊎ (first_error from ≡ none)
    → (treadn_loop fuel nbytes nleft buf from).0 ≡ got (buf ++ take nleft (available from))
unfolding on_reading tread
treadn_loop_lem fuel nbytes zero buf from h k c =
    treadn_loop_done fuel nbytes 0 buf from refl ∙ ap got (sym (append-nil buf))
treadn_loop_lem zero nbytes (suc n) buf from h k c = absurd (omega arith)
treadn_loop_lem (suc fuel) nbytes (suc n) buf [] h k c =
    ap (λ r. r.0) (treadn_loop_round fuel nbytes (suc n) buf [] (omega arith))
    ∙ ap got (sym (append-nil buf))
treadn_loop_lem (suc fuel) nbytes (suc n) buf (silence ∷ from) h k (inl ne) =
    let e : (suc n == nbytes) ≡ false = ground arith in
    ap (λ r. r.0) (treadn_loop_round fuel nbytes (suc n) buf (silence ∷ from) (omega arith))
    ∙ rw e (ap got (sym (append-nil buf)))
treadn_loop_lem (suc fuel) nbytes (suc n) buf (silence ∷ from) h k (inr e) = absurd (cc)
treadn_loop_lem (suc fuel) nbytes (suc n) buf (broken ∷ from) h k (inl ne) =
    let e : (suc n == nbytes) ≡ false = ground arith in
    ap (λ r. r.0) (treadn_loop_round fuel nbytes (suc n) buf (broken ∷ from) (omega arith))
    ∙ rw e (ap got (sym (append-nil buf)))
treadn_loop_lem (suc fuel) nbytes (suc n) buf (broken ∷ from) h k (inr e) = absurd (cc)
treadn_loop_lem (suc fuel) nbytes (suc n) buf (bytes [] ∷ from) h k c =
    ap (λ r. r.0) (treadn_loop_round fuel nbytes (suc n) buf (bytes [] ∷ from) (omega arith))
    ∙ ap got (sym (append-nil buf))
treadn_loop_lem (suc fuel) nbytes (suc n) buf (bytes (x ∷ d) ∷ from) h k c =
    ap (λ r. r.0) (treadn_loop_round fuel nbytes (suc n) buf (bytes (x ∷ d) ∷ from) (omega arith))
    ∙ elim (split_le (length d) n) [
      | inl all ↦
          let e : leb (length (x ∷ d)) (suc n) ≡ true = ground arith in
          let m : suc n - length (x ∷ d) ≤ n = omega arith in
          rw (e, take_ge n d all)
            (treadn_loop_lem fuel nbytes (suc n - length (x ∷ d)) (buf ++ x ∷ d) from (omega arith)
                (omega arith) (inl (omega arith))
              ∙ ap got (
                  append_assoc buf (x ∷ d) (take (suc n - length (x ∷ d)) (available from))
                  ∙ ap (λ t. buf ++ t)
                      (sym (take-append_le (suc n) (x ∷ d) (available from) (omega arith)))))
      | inr more ↦
          treadn_loop_done fuel nbytes (suc n - length (x ∷ take n d)) (buf ++ x ∷ take n d) _
            (omega (arith, length-take n d))
          ∙ ap (λ t. got (buf ++ t))
              (sym (take-append_lt (suc n) (x ∷ d) (available from) (omega arith)))
    ]

treadn-available :
    (nbytes : ℕ) (from : List Arrival)
    → first_error from ≡ none
    → (treadn nbytes from).0 ≡ got (take nbytes (available from))
unfolding treadn
treadn-available nbytes from e =
    treadn_loop_lem nbytes nbytes nbytes [] from (omega arith) (omega arith) (inr e)

treadn_error :
    (nbytes : ℕ) (from : List Arrival) (e : Errno)
    → 0 < nbytes
    → first_error from ≡ some e
    → (treadn nbytes from).0 ≡ failed e
unfolding treadn on_reading tread treadn_loop
treadn_error zero from e h k = absurd (omega arith)
treadn_error (suc n) [] e h k = cc
treadn_error (suc n) (silence ∷ from) e h k = ground arith
treadn_error (suc n) (broken ∷ from) e h k = ground arith
treadn_error (suc n) (bytes d ∷ from) e h k = absurd (cc)

-- What a read of so many bytes comes to.
abbrev pub expected : ℕ → List Arrival → Option Errno → Reading
expected nbytes from none = got (take nbytes (available from))
expected nbytes from (some e) = failed e

-- treadn of at least one byte ends: where the first read meets a silence or an error it fails with
-- its error, and otherwise it returns the first nbytes of the bytes that come before a silence, an
-- error or the end, however they are cut into pieces.
pub treadn-eq-expected :
    (nbytes : ℕ) (from : List Arrival)
    → 0 < nbytes
    → (treadn nbytes from).0 ≡ expected nbytes from (first_error from)
treadn-eq-expected nbytes from h = elim (Option-cases (first_error from)) [
  | inl e ↦ rw e (treadn-available nbytes from e)
  | inr (x, e) ↦ rw e (treadn_error nbytes from x h e)
]
