-- ===== src/Common/Int.antt =====
-- Go's int where it may be negative; it is far from its bounds wherever it is used here.
use Prim.Native.Nat.{ℕ, ◌-◌}
use quicmeshpoc.Common.Tests.{leb, if◌then◌else◌}

-- `negsuc n` is -(n + 1).
pub data ℤ : Type 0 where
  pos negsuc : ℕ → ℤ

-- a - b, as an integer.
abbrev pub sub_ℕ : ℕ → ℕ → ℤ
sub_ℕ a b = if leb b a then pos (a - b) else negsuc (b - a - 1)
