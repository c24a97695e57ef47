-- ===== src/Db/Ascii.antt =====
-- The ASCII number fields of apue.3e/db/db.c: `sprintf("%*lld")`, which pads a decimal on the left
-- with blanks, and `atol`, which reads one. A `long` is the 64-bit word of its two's complement.
pub mod RoundTrip
use play_apue.Prelude.{
  ℕ, zero, suc, ◌+◌, ◌-◌, ◌*◌, ◌/◌, ◌%◌, ◌^◌, ◌≡◌, refl, Bool, true, false, ◌&&◌, ◌||◌, [], ◌∷◌,
  ◌++◌, min, Bytes, codes, ltb, leb, ◌==◌, if◌then◌else◌, length, replicate,
}

-- The decimal digits of `n`, at most `k` of them, in front of `out`.
unfoldable pub digits_from : ℕ → ℕ → Bytes → Bytes
digits_from zero n out = out
digits_from (suc k) n out =
    let out' = (b'0' + n % 10) ∷ out in
    let rest = digits_from k (n / 10) out' in if n / 10 == 0 then out' else rest

-- 20 digits hold any 64-bit number.
unfoldable pub digits : ℕ → Bytes
digits n = digits_from 20 n []

-- `%*d` with the width `w`.
unfoldable pub pad : ℕ → Bytes → Bytes
pad w s = replicate (w - length s) b' ' ++ s

-- The library's `isspace`, in the C locale.
abbrev pub is_space : ℕ → Bool
is_space c = c == b' ' || leb 9 c && leb c 13

abbrev pub is_digit : ℕ → Bool
is_digit c = leb b'0' c && leb c b'9'

unfoldable pub skip_spaces : Bytes → Bytes
skip_spaces [] = []
skip_spaces (c ∷ s) = if is_space c then skip_spaces s else c ∷ s

-- The number that the leading digits of a text spell behind `n`.
unfoldable pub scan : ℕ → Bytes → ℕ
scan n [] = n
scan n (c ∷ s) = if is_digit c then scan (n * 10 + (c - b'0')) s else n

abbrev pub long_max : ℕ
long_max = 2 ^ 63 - 1

unfoldable pub signed_scan : Bytes → ℕ
unfolding scan
signed_scan [] = 0
signed_scan (c ∷ s) =
    if c == b'-'
    then (2 ^ 64 - min (scan 0 s) (2 ^ 63)) % 2 ^ 64
    else if c == b'+'
    then min (scan 0 s) long_max
    else min (scan 0 (c ∷ s)) long_max

-- A text with no number reads as 0, one out of range as the nearest `long`.
unfoldable pub atol : Bytes → ℕ
unfolding skip_spaces signed_scan
atol s = signed_scan (skip_spaces s)

digits_907 : digits 907 ≡ codes "907"
unfolding digits digits_from
digits_907 = refl

pad_907 : pad 7 (digits 907) ≡ codes "    907"
unfolding pad digits digits_from
pad_907 = refl

atol_fields : atol (codes "    907x") ≡ 907
unfolding atol
atol_fields = refl

atol_negative : atol (codes " -1") ≡ 2 ^ 64 - 1
unfolding atol
atol_negative = refl
