-- ===== src/Db/Storage.antt =====
-- A regular file as the system calls of apue.3e/db/db.c see it: its bytes and the offset of the open
-- descriptor. A write beyond the end fills the gap with null bytes; a read stops at the end.
pub mod Laws
use play_apue.Prelude.{
  ℕ, zero, suc, ◌+◌, ◌^◌, Option, none, some, [], ◌∷◌, Bytes, ltb, if◌then◌else◌, length, take,
  drop,
}

unfoldable pub overlay : Bytes → Bytes → Bytes
overlay [] bs = bs
overlay (x ∷ xs) [] = x ∷ xs
overlay (x ∷ xs) (b ∷ bs) = x ∷ overlay xs bs

-- The bytes of a file after `s` is written at an offset.
unfoldable pub write_at : ℕ → Bytes → Bytes → Bytes
write_at zero s bs = overlay s bs
write_at (suc n) s [] = 0 ∷ write_at n s []
write_at (suc n) s (b ∷ bs) = b ∷ write_at n s bs

-- The `n` bytes at an offset, or as many of them as there are.
unfoldable pub read_at : ℕ → ℕ → Bytes → Bytes
read_at n off bs = take n (drop off bs)

pub record File : Type 0 where
  pub bytes : Bytes
  pub pos : ℕ

pub data Whence : Type 0 where
  seek_set seek_cur seek_end : Whence

-- The offset that a call of lseek(2) asks for.
abbrev pub target : Whence → ℕ → File → ℕ
target seek_set off f = off
target seek_cur off f = f.pos + off
target seek_end off f = length f.bytes + off

-- An `off_t` is a 64-bit word; `none` is the result -1, for a negative offset.
unfoldable pub lseek : ℕ → Whence → File → Option File
lseek off w f =
    if ltb (target w off f) (2 ^ 63) then some (record f { pos = target w off f }) else none

unfoldable pub read : ℕ → File → Bytes × File
read n f = let s = read_at n f.pos f.bytes in (s, record f { pos = f.pos + length s })

unfoldable pub write : Bytes → File → File
write s f = record f { bytes = write_at f.pos s f.bytes; pos = f.pos + length s }
