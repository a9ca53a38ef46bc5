-- ===== src/Machines/Expected.antt =====
-- The registers that the builtin machines are expected to end with (vm/src/machines.rs).
use nexus_zkvm.Base.{
  ℕ, zero, suc, ◌+◌, ◌-◌, ◌*◌, bit_and, bit_or, bit_xor, List, [], ◌∷◌, get_or, set, shl32, shr32,
}
use nexus_zkvm.Eval.Machine.{Regs, default_regs}
use nexus_zkvm.Eval.Alu.{sar32}

-- `regs.x[i] = v` for each pair, in order.
abbrev pub set_all : List ℕ → List (ℕ × ℕ) → List ℕ
set_all x [] = x
set_all x ((i, v) ∷ rest) = set_all (set x i v) rest

-- The default registers at a pc, with some of them set.
abbrev pub registers : ℕ → List (ℕ × ℕ) → Regs
registers pc writes = record { pc = pc; x = set_all default_regs.x writes }

-- `-1i32 as u32`.
abbrev minus_one : ℕ
minus_one = 0xffff_ffff

-- The loop of `fib31_result`, with `n` registers to go from x_i on.
abbrev fib_from : ℕ → ℕ → List ℕ → List ℕ
fib_from zero i x = x
fib_from (suc n) i x = fib_from n (suc i) (set x i (get_or x (i - 1) 0 + get_or x (i - 2) 0))

abbrev pub fib31_result : Regs
fib31_result = record { pc = 31 * 4; x = fib_from 30 2 (set default_regs.x 1 1) }

abbrev pub bitop_result : Regs
bitop_result =
    let a : ℕ = 0xaaaa_afaa in
    let b : ℕ = 0x5555_5555 in
    registers (10 * 4) (
      (1, a)
      ∷ (2, b)
      ∷ (3, bit_and a b)
      ∷ (4, bit_and a 255)
      ∷ (5, bit_or a b)
      ∷ (6, bit_or a 255)
      ∷ (7, bit_xor a b)
      ∷ (8, bit_xor a 255)
      ∷ [])

abbrev pub branch_result : Regs
branch_result = registers (27 * 4) ((1, 1) ∷ (2, 2) ∷ (3, minus_one) ∷ (10, 1) ∷ (11, 1) ∷ [])

abbrev pub jump_result : Regs
jump_result = registers 4 ((1, 6 * 4) ∷ (2, 5 * 4) ∷ (3, 8 * 4) ∷ [])

abbrev pub ldst_result : Regs
ldst_result =
    registers (8 * 4)
      ((1, minus_one) ∷ (2, minus_one) ∷ (3, minus_one) ∷ (4, 255) ∷ (5, minus_one) ∷ [])

unfoldable pub shift_result : Regs
shift_result =
    let a : ℕ = 0xfaaa_aaaa in
    registers (18 * 4) (
      (1, a)
      ∷ (2, 5)
      ∷ (3, shl32 a 5)
      ∷ (4, shr32 a 5)
      ∷ (5, sar32 a 5)
      ∷ (6, shl32 a 0)
      ∷ (7, shl32 a 0x1)
      ∷ (8, shl32 a 0xa)
      ∷ (9, shl32 a 0x1f)
      ∷ (10, shr32 a 0)
      ∷ (11, shr32 a 0x1)
      ∷ (12, shr32 a 0xa)
      ∷ (13, shr32 a 0x1f)
      ∷ (14, sar32 a 0)
      ∷ (15, sar32 a 0x1)
      ∷ (16, sar32 a 0xa)
      ∷ (17, sar32 a 0x1f)
      ∷ [])

abbrev pub sub_result : Regs
sub_result = registers (24 * 4) ((1, 1) ∷ (2, minus_one) ∷ (4, 1) ∷ (10, 1) ∷ [])

abbrev pub priv_result : Regs
priv_result = registers (4 * 4) ((18, 2) ∷ (3, 42) ∷ (4, 43) ∷ (5, 44) ∷ [])
