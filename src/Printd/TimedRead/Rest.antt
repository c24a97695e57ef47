-- ===== src/Printd/TimedRead/Rest.antt =====
-- What the reads of apue.3e/printer/util.c leave for the next.
use play_apue.Prelude.{
  ℕ, zero, suc, Option, some, ◌+◌, ◌-◌, ◌≤◌, ◌<◌, ◌≡◌, refl, ap, sym, ◌∙◌, true, false, none, List,
  [], ◌∷◌, ◌++◌, append_assoc, arith, leb, if◌then◌else◌, Bytes, length, take, drop, take_ge,
  length-take, length-drop, length-append, split_le, inl, inr,
}
use play_apue.Printd.TimedRead.{
  Arrival, Errno, silence, broken, bytes, got, tread, on_reading, treadn_loop, treadn,
  treadn_loop_round, treadn-eq-expected, first_error, available, expected,
}

-- The bytes that arrive at most; each round takes one.
abbrev pub arriving : List Arrival → ℕ
arriving [] = 0
arriving (bytes d ∷ from) = length d + arriving from
arriving (_ ∷ from) = arriving from

take-drop : (n : ℕ) (xs : Bytes) → take n xs ++ drop n xs ≡ xs
take-drop zero xs = refl
take-drop (suc n) [] = refl
take-drop (suc n) (x ∷ xs) = ap (λ t. x ∷ t) (take-drop n xs)

-- What a read leaves to come.
abbrev pub left_over : ℕ → Bytes → List Arrival → List Arrival
left_over n d rest = if leb (length d) n then rest else bytes (drop n d) ∷ rest

available_bytes :
    (d : Bytes) (rest : List Arrival)
    → 0 < length d
    → available (bytes d ∷ rest) ≡ d ++ available rest
available_bytes [] rest h = absurd (omega arith)
available_bytes (c ∷ d) rest h = refl

-- A read takes from the front of what is to come, and at least a byte.
pub left_over_lem :
    (n c : ℕ) (d : Bytes) (rest : List Arrival)
    → ((c ∷ take n d) ++ available (left_over (suc n) (c ∷ d) rest)
        ≡ available (bytes (c ∷ d) ∷ rest))
      × (arriving (left_over (suc n) (c ∷ d) rest) < arriving (bytes (c ∷ d) ∷ rest))
left_over_lem n c d rest = elim (split_le (length d) n) [
  | inl all ↦
      let e : leb (length (c ∷ d)) (suc n) ≡ true = ground arith in
      rw (e, take_ge n d all) (refl, omega arith)
  | inr more ↦
      let e : leb (length (c ∷ d)) (suc n) ≡ false = ground arith in
      rw e (
        ap (λ t. c ∷ (take n d ++ t))
              (available_bytes (drop n d) rest (omega (arith, length-drop n d)))
            ∙ ap (λ t. c ∷ t)
                (sym (append_assoc (take n d) (drop n d) (available rest))
                  ∙ ap (λ t. t ++ available rest) (take-drop n d)),
        omega (arith, length-drop n d),
      )
]

drop-append_le :
    (n : ℕ) (xs ys : Bytes) → length xs ≤ n → drop n (xs ++ ys) ≡ drop (n - length xs) ys
drop-append_le n [] ys h = ap (λ k. drop k ys) (omega arith)
drop-append_le zero (x ∷ xs) ys h = absurd (omega arith)
drop-append_le (suc n) (x ∷ xs) ys h =
    drop-append_le n xs ys (omega arith) ∙ ap (λ k. drop k ys) (omega arith)

treadn_loop_none :
    (fuel nbytes : ℕ) (buf : Bytes) (from : List Arrival)
    → treadn_loop fuel nbytes 0 buf from ≡ (got buf, from)
unfolding treadn_loop
treadn_loop_none zero nbytes buf from = refl
treadn_loop_none (suc fuel) nbytes buf from = refl

first_error-none : (from : List Arrival) → 0 < length (available from) → first_error from ≡ none
first_error-none [] h = absurd (omega arith)
first_error-none (silence ∷ from) h = absurd (omega arith)
first_error-none (broken ∷ from) h = absurd (omega arith)
first_error-none (bytes d ∷ from) h = refl

treadn_loop_rest :
    (fuel nbytes nleft : ℕ) (buf : Bytes) (from : List Arrival)
    → nleft ≤ fuel
    → nleft ≤ length (available from)
    → available (treadn_loop fuel nbytes nleft buf from).1 ≡ drop nleft (available from)
unfolding on_reading tread
treadn_loop_rest fuel nbytes zero buf from h k =
    ap (λ r. available r.1) (treadn_loop_none fuel nbytes buf from)
treadn_loop_rest zero nbytes (suc n) buf from h k = absurd (omega arith)
treadn_loop_rest (suc fuel) nbytes (suc n) buf [] h k = absurd (omega arith)
treadn_loop_rest (suc fuel) nbytes (suc n) buf (silence ∷ from) h k = absurd (omega arith)
treadn_loop_rest (suc fuel) nbytes (suc n) buf (broken ∷ from) h k = absurd (omega arith)
treadn_loop_rest (suc fuel) nbytes (suc n) buf (bytes [] ∷ from) h k = absurd (omega arith)
treadn_loop_rest (suc fuel) nbytes (suc n) buf (bytes (x ∷ d) ∷ from) h k =
    let (e, less) = left_over_lem n x d from in
    let piece : Bytes = x ∷ take n d in
    let lo : List Arrival = left_over (suc n) (x ∷ d) from in
    let short : length piece ≤ suc n = omega (arith, length-take n d) in
    ap (λ r. available r.1)
      (treadn_loop_round fuel nbytes (suc n) buf (bytes (x ∷ d) ∷ from) (omega arith))
    ∙ treadn_loop_rest fuel nbytes (suc n - length piece) (buf ++ piece) lo (omega arith)
        (omega (arith, ap length e, length-append piece (available lo)))
    ∙ sym (drop-append_le (suc n) piece (available lo) short)
    ∙ ap (drop (suc n)) e

-- A read of so many bytes, where they come: those bytes, and the others are left.
pub treadn_enough :
    (nbytes : ℕ) (from : List Arrival)
    → 0 < nbytes
    → nbytes ≤ length (available from)
    → ((treadn nbytes from).0 ≡ got (take nbytes (available from)))
      × (available (treadn nbytes from).1 ≡ drop nbytes (available from))
unfolding treadn
treadn_enough nbytes from h k = (
  treadn-eq-expected nbytes from h
      ∙ ap (expected nbytes from) (first_error-none from (omega arith)),
  treadn_loop_rest nbytes nbytes nbytes [] from (omega arith) k,
)

expected_got :
    (nbytes : ℕ) (from : List Arrival) (o : Option Errno) (b : Bytes)
    → expected nbytes from o ≡ got b
    → b ≡ take nbytes (available from)
expected_got nbytes from none b h = cc
expected_got nbytes from (some e) b h = cc

-- A read that gets as many bytes as it asked for has taken them from the front.
pub treadn_full :
    (nbytes : ℕ) (from : List Arrival) (b : Bytes)
    → 0 < nbytes
    → (treadn nbytes from).0 ≡ got b
    → length b ≡ nbytes
    → available from ≡ b ++ available (treadn nbytes from).1
treadn_full nbytes from b h e n =
    let t : b ≡ take nbytes (available from) =
      expected_got nbytes from (first_error from) b (sym (treadn-eq-expected nbytes from h) ∙ e) in
    let size : nbytes ≤ length (available from) =
      omega (arith, ap length t, length-take nbytes (available from)) in
    let (_, r) = treadn_enough nbytes from h size in
    sym (
      ap (λ x. x ++ available (treadn nbytes from).1) t
      ∙ ap (λ x. take nbytes (available from) ++ x) r
      ∙ take-drop nbytes (available from))
