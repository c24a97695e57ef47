-- ===== src/Db/Ascii/RoundTrip.antt =====
-- The fields of apue.3e/db/db.c: what is printed is read back, and which bytes a print holds.
use native.Mathlib.Nat.{pow-suc}
use play_apue.Prelude.{
  ℕ, zero, suc, ◌+◌, ◌-◌, ◌/◌, ◌%◌, ◌^◌, ◌≤◌, ◌<◌, ◌≡◌, refl, false, [], ◌∷◌, ◌++◌, arith, Bytes,
  All, Lacks, ◌==◌, length, replicate, Bool-cases, inl, inr, ◌⊎◌, append_assoc, min, sym, ap, ◌∙◌,
  length-append, length-replicate,
}
use play_apue.Db.Ascii.{
  digits_from, digits, pad, scan, skip_spaces, signed_scan, atol, is_digit, long_max,
}

abbrev pub IsDigit : ℕ → Type 0
IsDigit c = (48 ≤ c) × (c ≤ 57)

scan-digits_from :
    (k n : ℕ) (out : Bytes) → n < 10 ^ suc k → scan 0 (digits_from (suc k) n out) ≡ scan n out
unfolding digits_from scan
scan-digits_from zero n out h = let lt : n < 10 = omega (arith, pow-suc 10 0) in ground arith
scan-digits_from (suc k) n out h =
    ground (arith, pow-suc 10 (suc k), scan-digits_from k (n / 10) ((48 + n % 10) ∷ out))

digits_from-IsDigit : (k n : ℕ) (out : Bytes) → All IsDigit out → All IsDigit (digits_from k n out)
unfolding digits_from
digits_from-IsDigit zero n out h = h
digits_from-IsDigit (suc k) n out h =
    ground (arith, digits_from-IsDigit k (n / 10) ((48 + n % 10) ∷ out))

length-digits_from :
    (k n w : ℕ) (out : Bytes) → n < 10 ^ suc w → length (digits_from k n out) ≤ suc w + length out
unfolding digits_from
length-digits_from zero n w out h = omega arith
length-digits_from (suc k) n zero out h =
    let lt : n < 10 = omega (arith, pow-suc 10 0) in ground arith
length-digits_from (suc k) n (suc w) out h =
    ground (arith, pow-suc 10 (suc w), length-digits_from k (n / 10) w ((48 + n % 10) ∷ out))

digits_from_head :
    (k n : ℕ) (out : Bytes)
    → (c : ℕ) × (s : Bytes) × (digits_from (suc k) n out ≡ c ∷ s) × IsDigit c
unfolding digits_from
digits_from_head zero n out = (48 + n % 10, out, ground arith, omega arith)
digits_from_head (suc k) n out =
    let ih = digits_from_head k (n / 10) ((48 + n % 10) ∷ out) in
    elim (Bool-cases (n / 10 == 0)) [
      | inl h ↦ (48 + n % 10, out, rw h refl, omega arith)
      | inr h ↦ rw h ih
    ]

digits_from_rest :
    (k n : ℕ) (out rest : Bytes) → digits_from k n out ++ rest ≡ digits_from k n (out ++ rest)
unfolding digits_from
digits_from_rest zero n out rest = refl
digits_from_rest (suc k) n out rest =
    ground (arith, digits_from_rest k (n / 10) ((48 + n % 10) ∷ out) rest)

skip_spaces-replicate : (n : ℕ) (s : Bytes) → skip_spaces (replicate n 32 ++ s) ≡ skip_spaces s
unfolding skip_spaces
skip_spaces-replicate zero s = refl
skip_spaces-replicate (suc n) s = skip_spaces-replicate n s

-- The next byte, if there is one, is no digit.
abbrev pub Stops : Bytes → Type 0
Stops [] = Unit
Stops (c ∷ s) = is_digit c ≡ false

scan-Stops : (n : ℕ) (rest : Bytes) → Stops rest → scan n rest ≡ n
unfolding scan
scan-Stops n [] h = refl
scan-Stops n (c ∷ s) h = ground arith

skip_spaces-digit : (c : ℕ) (s : Bytes) → IsDigit c → skip_spaces (c ∷ s) ≡ c ∷ s
unfolding skip_spaces
skip_spaces-digit c s h = ground arith

signed_scan-digit :
    (c : ℕ) (s : Bytes) → IsDigit c → signed_scan (c ∷ s) ≡ min (scan 0 (c ∷ s)) long_max
unfolding signed_scan
signed_scan-digit c s h = ground arith

scan-digits : (n : ℕ) (rest : Bytes) → n ≤ long_max → scan 0 (digits n ++ rest) ≡ scan n rest
unfolding digits
scan-digits n rest fits =
    rw (digits_from_rest 20 n [] rest) (scan-digits_from 19 n rest (omega arith))

pub digits_head :
    (n : ℕ) (rest : Bytes) → (c : ℕ) × (s : Bytes) × (digits n ++ rest ≡ c ∷ s) × IsDigit c
unfolding digits
digits_head n rest =
    let (c, s, e, d) = digits_from_head 19 n rest in (c, s, digits_from_rest 20 n [] rest ∙ e, d)

pub digits-IsDigit : (n : ℕ) → All IsDigit (digits n)
unfolding digits
digits-IsDigit n = digits_from-IsDigit 20 n [] tt

pub length-digits : (n w : ℕ) → n < 10 ^ suc w → length (digits n) ≤ suc w
unfolding digits
length-digits n w h = omega (arith, length-digits_from 20 n w [] h)

-- Any number that a `long` can hold is read back from its padded print, whatever follows it that
-- begins with no digit.
pub atol-digits : (n : ℕ) (rest : Bytes) → n ≤ long_max → Stops rest → atol (digits n ++ rest) ≡ n
unfolding atol
atol-digits n rest fits stop =
    let (c, s, e, d) = digits_head n rest in
    let spelled : scan 0 (c ∷ s) ≡ n =
      ap (scan 0) (sym e) ∙ scan-digits n rest fits ∙ scan-Stops n rest stop in
    rw e (rw (skip_spaces-digit c s d) (rw (signed_scan-digit c s d) (rw spelled (omega arith))))

pub atol-pad :
    (w n : ℕ) (rest : Bytes) → n ≤ long_max → Stops rest → atol (pad w (digits n) ++ rest) ≡ n
unfolding atol pad
atol-pad w n rest fits stop =
    rw (append_assoc (replicate (w - length (digits n)) 32) (digits n) rest) (
      rw (skip_spaces-replicate (w - length (digits n)) (digits n ++ rest))
        (atol-digits n rest fits stop))

pub length-pad : (w : ℕ) (s : Bytes) → length s ≤ w → length (pad w s) ≡ w
unfolding pad
length-pad w s h = omega (
  arith,
  length-append (replicate (w - length s) 32) s,
  length-replicate {A = ℕ} (w - length s) 32,
)

-- No print holds a separator, a null or a newline.
pub digits-Lacks : (n b : ℕ) → (b < 48) ⊎ (57 < b) → Lacks b (digits n)
digits-Lacks n b h = weaken (digits n) (digits-IsDigit n)
  where
    weaken : (s : Bytes) → All IsDigit s → Lacks b s
    weaken [] _ = tt
    weaken (c ∷ s) (d, ds) = (λ e. grind arith, weaken s ds)
