-- ===== src/Printd/Config.antt =====
-- apue.3e/printer/util.c: the configuration file, which names the print server and the printer.
--
-- The file is its bytes; the process ends where it cannot be opened. `getaddrinfo` is an argument, with
-- the hints of getaddrlist.
pub mod Lookup
mod Examples
use play_apue.Prelude.{
  ℕ, zero, suc, ◌+◌, Bool, true, false, ◌&&◌, ◌||◌, Option, none, some, [], ◌∷◌, Bytes, codes, cstr,
  leb, ◌==◌, if◌then◌else◌, length, bytes_eq,
}

-- `isspace` in the C locale.
abbrev pub isspace : ℕ → Bool
isspace c = c == 32 || (leb 9 c && leb c 13)

-- `fgets` with room for `n` bytes: the line with its newline, or a piece of it, and what is left.
unfoldable pub fgets : ℕ → Bytes → Bytes × Bytes
fgets zero b = ([], b)
fgets (suc n) [] = ([], [])
fgets (suc n) (c ∷ b) =
    let rest = fgets n b in if c == 10 then (c ∷ [], b) else (c ∷ rest.0, rest.1)

-- `%ns` of `sscanf`: the white space before it, and the word of at most `n` bytes.
unfoldable pub skip_white : Bytes → Bytes
skip_white [] = []
skip_white (c ∷ b) = if isspace c then skip_white b else c ∷ b

unfoldable pub word : ℕ → Bytes → Bytes × Bytes
word zero b = ([], b)
word (suc n) [] = ([], [])
word (suc n) (c ∷ b) =
    let rest = word n b in if isspace c then ([], c ∷ b) else (c ∷ rest.0, rest.1)

abbrev pub nonempty : Bytes × Bytes → Option (Bytes × Bytes)
nonempty ([], b) = none
nonempty (c ∷ w, b) = some (c ∷ w, b)

unfoldable pub scan_word : ℕ → Bytes → Option (Bytes × Bytes)
scan_word n b = nonempty (word n (skip_white b))

-- `sscanf(line, pattern, keybuf, valbuf)` for MAXKWLEN 16 and MAXCFGLINE 512, where it returns 2.
unfoldable pub scan_line : Bytes → Option (Bytes × Bytes)
scan_line line = elim (scan_word 15 (cstr line)) [
  | none ↦ none
  | some (key, b) ↦ elim (scan_word 511 b) [ none ↦ none | some (value, _) ↦ some (key, value) ]
]

abbrev pub matching : Bytes → Option (Bytes × Bytes) → Option Bytes → Option Bytes
matching keyword none again = again
matching keyword (some (key, value)) again = if bytes_eq keyword key then some value else again

-- One round of the loop, `again` being the next.
abbrev pub on_line : Bytes → Bytes × Bytes → (Bytes → Option Bytes) → Option Bytes
on_line keyword ([], file) again = none
on_line keyword (c ∷ line, file) again = matching keyword (scan_line (c ∷ line)) (again file)

-- The loop, with fuel.
unfoldable pub scan_lines : ℕ → Bytes → Bytes → Option Bytes
scan_lines zero keyword file = none
scan_lines (suc fuel) keyword file = on_line keyword (fgets 511 file) (scan_lines fuel keyword)

unfoldable pub scan_configfile : Bytes → Bytes → Option Bytes
scan_configfile keyword file = scan_lines (suc (length file)) keyword file

unfoldable pub get_printserver : Bytes → Option Bytes
get_printserver file = scan_configfile (codes "printserver") file

-- `getaddrlist`
unfoldable pub getaddrlist : {A : Type 0} → (Bytes → Bytes → Option A) → Bytes → Bytes → Option A
getaddrlist getaddrinfo host service = getaddrinfo host service

unfoldable pub get_printaddr : {A : Type 0} → (Bytes → Bytes → Option A) → Bytes → Option A
get_printaddr getaddrinfo file = elim (scan_configfile (codes "printer") file) [
  | none ↦ none
  | some p ↦ getaddrlist getaddrinfo p (codes "ipp")
]
