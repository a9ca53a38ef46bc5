-- ===== src/Eval/Alu.antt =====
-- The arithmetic of the evaluator: `add32`, `sub32`, `br_op` and `alu_op` (vm/src/eval.rs).
use nexus_zkvm.Base.{
  ℕ, ◌+◌, ◌-◌, ◌%◌, ◌^◌, bit_and, bit_or, bit_xor, Bool, true, false, not, ltb, ◌==◌, if◌then◌else◌,
  u32_mod, shl32, shr32, slt32,
}
use nexus_zkvm.Rv32.{
  Bop, beq, bne, blt, bge, bltu, bgeu, Aop, add, sub, slt, sltu, sll, srl, sra, or, and, xor,
}

unfoldable pub add32 : ℕ → ℕ → ℕ
add32 a b = (a + b) % u32_mod

unfoldable pub sub32 : ℕ → ℕ → ℕ
sub32 a b = (a + u32_mod - b) % u32_mod

unfoldable pub br_op : Bop → ℕ → ℕ → Bool
br_op beq x y = x == y
br_op bne x y = not (x == y)
br_op blt x y = slt32 x y
br_op bge x y = not (slt32 x y)
br_op bltu x y = ltb x y
br_op bgeu x y = not (ltb x y)

-- `b as u32`.
abbrev pub bool_as_u32 : Bool → ℕ
bool_as_u32 true = 1
bool_as_u32 false = 0

-- `((x as i32) >> k) as u32` for k < 32: the sign bit fills the k places that become free.
unfoldable pub sar32 : ℕ → ℕ → ℕ
sar32 x k = if ltb x 0x8000_0000 then shr32 x k else shr32 x k + (2 ^ 32 - 2 ^ (32 - k))

unfoldable pub alu_op : Aop → ℕ → ℕ → ℕ
unfolding add32 sub32 sar32
alu_op add x y = add32 x y
alu_op sub x y = sub32 x y
alu_op slt x y = bool_as_u32 (slt32 x y)
alu_op sltu x y = bool_as_u32 (ltb x y)
alu_op sll x y = shl32 x (bit_and y 0x1f)
alu_op srl x y = shr32 x (bit_and y 0x1f)
alu_op sra x y = sar32 x (bit_and y 0x1f)
alu_op and x y = bit_and x y
alu_op or x y = bit_or x y
alu_op xor x y = bit_xor x y
