-- ===== src/Base/Word.antt =====
-- 32-bit words as native numbers: wrap-around is written out.
use Prim.Native.Nat.{ℕ, ◌+◌, ◌*◌, ◌/◌, ◌%◌, ◌^◌}
use mathlib.Core.Bool.{Bool}
use nexus_zkvm.Base.Tests.{ltb}

abbrev pub u32_mod : ℕ
u32_mod = 0x1_0000_0000

-- `x << k` on u32, for k < 32.
abbrev pub shl32 : ℕ → ℕ → ℕ
shl32 x k = x * 2 ^ k % u32_mod

-- `x >> k` on u32, for k < 32.
abbrev pub shr32 : ℕ → ℕ → ℕ
shr32 x k = x / 2 ^ k

-- An i32 as its bit pattern with the sign bit flipped: the order of i32 is the order of these.
abbrev pub biased : ℕ → ℕ
biased x = (x + 0x8000_0000) % u32_mod

-- `(x as i32) < (y as i32)`.
abbrev pub slt32 : ℕ → ℕ → Bool
slt32 x y = ltb (biased x) (biased y)
