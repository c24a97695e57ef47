-- ===== src/Memstream/Mode.antt =====
-- The modes that apue.3e/exercises/fmemopen.c accepts.
use play_apue.Prelude.{
  ℕ, ◌≡◌, refl, ◌∙◌, Bool, true, false, ◌&&◌, ◌||◌, [], ◌∷◌, arith, ◌==◌, if◌then◌else◌, Bytes,
  Bool-cases, inl, inr,
}
use play_apue.Memstream.{Flags, no_flags, any_flag, mode_step, mode_loop, type_to_flags}

-- The reference: one letter, then any number of + and b, where a + asks for both directions.
abbrev is_suffix : Bytes → Bool
is_suffix [] = true
is_suffix (c ∷ cp) = (c == b'+' || c == b'b') && is_suffix cp

abbrev has_plus : Bytes → Bool
has_plus [] = false
has_plus (c ∷ cp) = c == b'+' || has_plus cp

abbrev both_ways : Flags → Flags
both_ways f = record f { ms_read = true; ms_write = true }

abbrev letter_flags : ℕ → Flags
letter_flags c =
    if c == b'r'
    then record no_flags { ms_read = true }
    else if c == b'w'
    then record no_flags { ms_write = true; ms_truncate = true }
    else if c == b'a'
    then record no_flags { ms_append = true }
    else no_flags

abbrev pub mode_flags : Bytes → Flags
mode_flags [] = no_flags
mode_flags (c ∷ cp) =
    if any_flag (letter_flags c) && is_suffix cp
    then (if has_plus cp then both_ways (letter_flags c) else letter_flags c)
    else no_flags

mode_loop_suffix :
    (cp : Bytes) (f : Flags)
    → any_flag f ≡ true
    → mode_loop cp f ≡ (if is_suffix cp then (if has_plus cp then both_ways f else f) else no_flags)
unfolding mode_loop mode_step
mode_loop_suffix [] f h = refl
mode_loop_suffix (c ∷ cp) f h =
    ground (arith, mode_loop_suffix cp f, mode_loop_suffix cp (both_ways f))

mode_loop_start :
    (c : ℕ) (cp : Bytes)
    → mode_loop (c ∷ cp) no_flags
      ≡ (if any_flag (letter_flags c) then mode_loop cp (letter_flags c) else no_flags)
unfolding mode_loop mode_step
mode_loop_start c cp = ground arith

-- type_to_flags accepts a mode just where it is one of r, w and a with any number of + and b
-- behind it, and its flags are those of the letter with reading and writing where there is a +;
-- for any other it returns 0.
pub type_to_flags-eq-mode_flags : (type : Bytes) → type_to_flags type ≡ mode_flags type
unfolding type_to_flags mode_loop
type_to_flags-eq-mode_flags [] = refl
type_to_flags-eq-mode_flags (c ∷ cp) = elim (Bool-cases (any_flag (letter_flags c))) [
  | inl some_letter ↦
      mode_loop_start c cp ∙ rw some_letter (mode_loop_suffix cp (letter_flags c) some_letter)
  | inr none_letter ↦ mode_loop_start c cp ∙ rw none_letter refl
]
