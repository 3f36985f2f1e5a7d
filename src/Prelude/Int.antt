-- ===== src/Prelude/Int.antt =====
-- Signed integers over the native numbers.
use Prim.Native.Nat.{ℕ, suc, ◌+◌, ◌-◌, ◌/◌, ◌%◌, ◌^◌}
use cherry_ecat.Prelude.Tests.{ltb, leb, if◌then◌else◌}

-- `negsuc n` is -(n + 1).
pub data ℤ : Type 0 where
  pos : ℕ → ℤ
  negsuc : ℕ → ℤ

abbrev pub pos_part : ℤ → ℕ
pos_part (pos n) = n
pos_part (negsuc n) = 0

abbrev pub neg_part : ℤ → ℕ
neg_part (pos n) = 0
neg_part (negsuc n) = suc n

-- a - b, as an integer.
unfoldable pub sub_ℕ : ℕ → ℕ → ℤ
sub_ℕ a b = if leb b a then pos (a - b) else negsuc (b - a - 1)

-- C's division by a positive constant, which rounds towards 0.
unfoldable pub quot : ℤ → ℕ → ℤ
unfolding sub_ℕ
quot z n = sub_ℕ (pos_part z / n) (neg_part z / n)

-- The value of a uint32_t, and of an int32_t, that an integer is converted to.
unfoldable pub to_u32 : ℤ → ℕ
to_u32 z = (pos_part z + (2 ^ 32 - neg_part z % 2 ^ 32)) % 2 ^ 32

unfoldable pub to_i32 : ℤ → ℤ
unfolding sub_ℕ to_u32
to_i32 z = if ltb (to_u32 z) (2 ^ 31) then pos (to_u32 z) else sub_ℕ (to_u32 z) (2 ^ 32)
