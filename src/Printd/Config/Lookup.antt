-- ===== src/Printd/Config/Lookup.antt =====
-- What the configuration file of apue.3e/printer/util.c says of a keyword.
use play_apue.Prelude.{
  ℕ, zero, suc, ◌≤◌, ◌<◌, ◌≡◌, ◌≢◌, refl, ap, ◌∙◌, true, false, Option, none, some, List, [], ◌∷◌,
  ◌++◌, append_assoc, arith, Bytes, cstr, cstr_lem, ◌==◌, if◌then◌else◌, length, length-append,
  bytes_eq, All, All-append, Lacks,
}
use play_apue.Printd.Config.{
  isspace, fgets, skip_white, word, nonempty, scan_word, scan_line, matching, on_line, scan_lines,
  scan_configfile,
}

-- A line: white space, the keyword, white space, the value, and what is of no account.
pub record Line : Type 0 where
  pub lead : Bytes
  pub keyword : Bytes
  pub gap : Bytes
  pub value : Bytes
  pub tail : Bytes

abbrev pub White : Bytes → Type 0
White = All (λ c. isspace c ≡ true)

abbrev pub Solid : Bytes → Type 0
Solid = All (λ c. isspace c ≡ false)

-- The bytes begin with white space.
abbrev pub BeginsWhite : Bytes → Type 0
BeginsWhite [] = ⊥
BeginsWhite (c ∷ b) = isspace c ≡ true

-- The line without its newline.
abbrev pub body : Line → Bytes
body l = l.lead ++ (l.keyword ++ (l.gap ++ (l.value ++ l.tail)))

pub record IsLine (l : Line) : Type 0 where
  pub white_lead : White l.lead
  pub white_gap : White l.gap
  pub begins_gap : BeginsWhite l.gap
  pub solid_keyword : Solid l.keyword
  pub solid_value : Solid l.value
  pub begins_tail : BeginsWhite (l.tail ++ 10 ∷ [])
  pub some_keyword : 0 < length l.keyword
  pub some_value : 0 < length l.value
  pub short_keyword : length l.keyword ≤ 15
  pub one_line : Lacks 10 (body l)
  pub no_null : Lacks 0 (body l)
  pub short : length (body l) < 511

abbrev pub text : List Line → Bytes
text [] = []
text (l ∷ ls) = body l ++ 10 ∷ text ls

-- The value of the first line with the keyword.
abbrev pub lookup : Bytes → List Line → Option Bytes
lookup keyword [] = none
lookup keyword (l ∷ ls) = if bytes_eq keyword l.keyword then some l.value else lookup keyword ls

fgets_line :
    (n : ℕ) (b rest : Bytes)
    → Lacks 10 b
    → length b < n
    → fgets n (b ++ 10 ∷ rest) ≡ (b ++ 10 ∷ [], rest)
unfolding fgets
fgets_line zero b rest h k = absurd (omega arith)
fgets_line (suc n) [] rest h k = refl
fgets_line (suc n) (c ∷ b) rest (h, hs) k =
    let q : (c == 10) ≡ false = ground arith in
    rw q (ap (λ r. (c ∷ r.0, r.1)) (fgets_line n b rest hs (omega arith)))

skip_white-append : (w b : Bytes) → White w → skip_white (w ++ b) ≡ skip_white b
unfolding skip_white
skip_white-append [] b h = refl
skip_white-append (c ∷ w) b (h, hs) = rw h (skip_white-append w b hs)

word_lem : (n : ℕ) (w b : Bytes) → Solid w → length w ≤ n → BeginsWhite b → word n (w ++ b) ≡ (w, b)
unfolding word
word_lem zero [] b h k e = refl
word_lem (suc n) [] [] h k e = absurd e
word_lem (suc n) [] (c ∷ b) h k e = rw e refl
word_lem zero (c ∷ w) b h k e = absurd (omega arith)
word_lem (suc n) (c ∷ w) b (h, hs) k e =
    rw h (ap (λ r. (c ∷ r.0, r.1)) (word_lem n w b hs (omega arith) e))

scan_word_lem :
    (n : ℕ) (lead w b : Bytes)
    → White lead
    → Solid w
    → 0 < length w
    → length w ≤ n
    → BeginsWhite b
    → scan_word n (lead ++ (w ++ b)) ≡ some (w, b)
unfolding scan_word
scan_word_lem n lead [] b wl sw pos k e = absurd (omega arith)
scan_word_lem n lead (c ∷ w) b wl sw pos k e =
    ap (λ x. nonempty (word n x)) (skip_white-append lead (c ∷ w ++ b) wl ∙ stops)
    ∙ ap nonempty (word_lem n (c ∷ w) b sw k e)
  where
    unfolding_stop : (if isspace c then skip_white (w ++ b) else c ∷ w ++ b) ≡ c ∷ w ++ b
    unfolding_stop = rw sw.0 refl

    stops : skip_white (c ∷ w ++ b) ≡ c ∷ w ++ b
    stops = unfold skip_white in unfolding_stop

BeginsWhite-append : (a b : Bytes) → BeginsWhite a → BeginsWhite (a ++ b)
BeginsWhite-append [] b h = absurd h
BeginsWhite-append (c ∷ a) b h = h

-- The line with its newline, in the order in which it is scanned.
line_parts :
    (l : Line)
    → body l ++ 10 ∷ [] ≡ l.lead ++ (l.keyword ++ (l.gap ++ (l.value ++ (l.tail ++ 10 ∷ []))))
line_parts l = simp append_assoc

scan_line_lem : (l : Line) → IsLine l → scan_line (body l ++ 10 ∷ []) ≡ some (l.keyword, l.value)
unfolding scan_line
scan_line_lem l h =
    let rest : Bytes = l.gap ++ (l.value ++ (l.tail ++ 10 ∷ [])) in
    let size : length l.value ≤ 511 = omega (
      arith,
      h.short,
      length-append l.lead (l.keyword ++ (l.gap ++ (l.value ++ l.tail))),
      length-append l.keyword (l.gap ++ (l.value ++ l.tail)),
      length-append l.gap (l.value ++ l.tail),
      length-append l.value l.tail,
    ) in
    let plain : cstr (body l ++ 10 ∷ []) ≡ l.lead ++ (l.keyword ++ rest) =
      cstr_lem (body l ++ 10 ∷ [])
        (All-append (λ c. c ≢ 0) (body l) (10 ∷ []) h.no_null (omega arith, tt))
      ∙ line_parts l in
    let first : scan_word 15 (l.lead ++ (l.keyword ++ rest)) ≡ some (l.keyword, rest) =
      scan_word_lem 15 l.lead l.keyword rest h.white_lead h.solid_keyword h.some_keyword
        h.short_keyword (BeginsWhite-append l.gap (l.value ++ (l.tail ++ 10 ∷ [])) h.begins_gap) in
    let second : scan_word 511 rest ≡ some (l.value, l.tail ++ 10 ∷ []) =
      scan_word_lem 511 l.gap l.value (l.tail ++ 10 ∷ []) h.white_gap h.solid_value h.some_value
        size h.begins_tail in
    rw (scan_line, plain, first, second) refl

on_line_lem :
    (keyword b file : Bytes) (again : Bytes → Option Bytes)
    → on_line keyword (b ++ 10 ∷ [], file) again
      ≡ matching keyword (scan_line (b ++ 10 ∷ [])) (again file)
on_line_lem keyword [] file again = refl
on_line_lem keyword (c ∷ b) file again = refl

scan_lines_lem :
    (fuel : ℕ) (keyword : Bytes) (ls : List Line)
    → All IsLine ls
    → length ls < fuel
    → scan_lines fuel keyword (text ls) ≡ lookup keyword ls
unfolding scan_lines fgets
scan_lines_lem zero keyword ls h k = absurd (omega arith)
scan_lines_lem (suc fuel) keyword [] h k = refl
scan_lines_lem (suc fuel) keyword (l ∷ ls) (h, hs) k =
    ap (λ r. on_line keyword r (scan_lines fuel keyword))
      (fgets_line 511 (body l) (text ls) h.one_line h.short)
    ∙ on_line_lem keyword (body l) (text ls) (scan_lines fuel keyword)
    ∙ ap (λ r. matching keyword r (scan_lines fuel keyword (text ls))) (scan_line_lem l h)
    ∙ ap (λ r. if bytes_eq keyword l.keyword then some l.value else r)
        (scan_lines_lem fuel keyword ls hs (omega arith))

length-text : (ls : List Line) → length ls ≤ length (text ls)
length-text [] = omega arith
length-text (l ∷ ls) = omega (arith, length-text ls, length-append (body l) (10 ∷ text ls))

-- On a configuration file of lines that each hold a keyword of at most 15 bytes and a value, with
-- white space before and between them and anything behind white space after, in fewer than 511
-- bytes, scan_configfile returns the value of the first line with the keyword, or null if there is
-- none.
pub scan_configfile-eq-lookup :
    (keyword : Bytes) (ls : List Line)
    → All IsLine ls
    → scan_configfile keyword (text ls) ≡ lookup keyword ls
unfolding scan_configfile
scan_configfile-eq-lookup keyword ls h =
    scan_lines_lem (suc (length (text ls))) keyword ls h (omega (arith, length-text ls))
