-- ===== src/Rot13/Translate.antt =====
-- The translation of apue.3e/advio/rot13c2.c: thirteen places round the alphabet.
use play_apue.Prelude.{ℕ, ◌+◌, ◌-◌, ◌%◌, if◌then◌else◌, ◌≡◌, ◌&&◌, arith, leb}
use play_apue.Rot13.{translate}

-- Thirteen places on in the alphabet of 26 letters that starts at `first`.
abbrev turn : ℕ → ℕ → ℕ
turn first c = first + (c - first + 13) % 26

-- The reference: each case has its alphabet, and what is no letter stays.
abbrev pub rotated : ℕ → ℕ
rotated c =
    if leb b'a' c && leb c b'z'
    then turn b'a' c
    else if leb b'A' c && leb c b'Z'
    then turn b'A' c
    else c

-- translate moves a letter thirteen places on in the alphabet of its case, round the end, and
-- leaves any other byte.
pub translate-eq-rotated : (c : ℕ) → translate c ≡ rotated c
unfolding translate
translate-eq-rotated c = ground arith
