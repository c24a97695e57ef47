-- ===== src/Prelude/Int.antt =====
-- Signed numbers, as far as offsets need them.
use Prim.Native.Nat.{ℕ, ◌+◌, ◌-◌}
use play_apue.Prelude.Tests.{ltb, if◌then◌else◌}

-- `negsuc n` is -(n + 1).
pub data ℤ : Type 0 where
  pos : ℕ → ℤ
  negsuc : ℕ → ℤ

-- A signed number added to an unsigned one.
abbrev pub add_ℕ : ℕ → ℤ → ℤ
add_ℕ n (pos m) = pos (n + m)
add_ℕ n (negsuc m) = if ltb m n then pos (n - m - 1) else negsuc (m - n)
