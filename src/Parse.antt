-- ===== src/Parse.antt =====
-- The instruction parser (vm/src/rv32/parse.rs). Words are u32 values, that is numbers below 2^32;
-- `debug_assert!`s on constant arguments are not modelled.
pub mod Bytes
pub mod Whole
use nexus_zkvm.Base.{
  ℕ, zero, suc, ◌+◌, ◌-◌, ◌*◌, ◌/◌, ◌^◌, bit_and, bit_or, bit_xor, Bool, not, ◌&&◌, ◌||◌, Option,
  none, some, List, [], ◌∷◌, ltb, ◌==◌, if◌then◌else◌, shl32, shr32, u32_mod, ◌%◌, length, drop,
  leb,
}
use mathlib.Core.Option
use nexus_zkvm.Base.Result.{
  Result, ok, err, panic, ◌>>=◌, partial_instruction, invalid_size, invalid_instruction,
}
use nexus_zkvm.Rv32.{Rv32, Inst}
use nexus_zkvm.Rv32.{
  Bop, beq, bne, blt, bge, bltu, bgeu, Lop, lb, lh, lw, lbu, lhu, Sop, sb, sh, sw, Aop, add, sub,
  slt, sltu, sll, srl, sra, or, and, xor, lui, auipc, jal, jalr, br, load, store, alui, alu, fence,
  ecall, ebreak, unimp,
}

-- The bits `start` to `end` of a word.
abbrev pub bits : ℕ → ℕ → ℕ → ℕ
bits val start end = shr32 (shl32 val (31 - end)) (31 - end + start)

-- The fields of an instruction word (`field!`).
abbrev pub opcode : ℕ → ℕ
opcode word = bits word 0 6

abbrev pub funct3 : ℕ → ℕ
funct3 word = bits word 12 14

abbrev pub funct7 : ℕ → ℕ
funct7 word = bits word 25 31

abbrev pub shamt : ℕ → ℕ
shamt word = bits word 20 24

abbrev pub rd : ℕ → ℕ
rd word = bits word 7 11

abbrev pub rs1 : ℕ → ℕ
rs1 word = bits word 15 19

abbrev pub rs2 : ℕ → ℕ
rs2 word = bits word 20 24

unfoldable pub signed : ℕ → Bool
signed word = not (bit_and word 0x8000_0000 == 0)

-- The immediates of the six instruction formats.
unfoldable pub imm_i : ℕ → ℕ
unfolding signed
imm_i word = bit_or (if signed word then 0xffff_f800 else 0) (bits word 20 30)

unfoldable pub imm_s : ℕ → ℕ
unfolding signed
imm_s word =
    bit_or (bit_or (if signed word then 0xffff_f800 else 0) (shl32 (bits word 25 30) 5))
      (bits word 7 11)

unfoldable pub imm_b : ℕ → ℕ
unfolding signed
imm_b word =
    bit_or
      (bit_or (bit_or (if signed word then 0xffff_f000 else 0) (shl32 (bits word 7 7) 11))
        (shl32 (bits word 25 30) 5))
      (shl32 (bits word 8 11) 1)

unfoldable pub imm_u : ℕ → ℕ
imm_u word = bit_and word 0xffff_f000

unfoldable pub imm_j : ℕ → ℕ
unfolding signed
imm_j word =
    bit_or
      (bit_or (bit_or (if signed word then 0xfff0_0000 else 0) (shl32 (bits word 12 19) 12))
        (shl32 (bits word 20 20) 11))
      (shl32 (bits word 21 30) 1)

unfoldable pub bop : ℕ → Option Bop
bop word =
    let f3 = funct3 word in
    if f3 == 0
    then some beq
    else if f3 == 1
    then some bne
    else if f3 == 4
    then some blt
    else if f3 == 5
    then some bge
    else if f3 == 6
    then some bltu
    else if f3 == 7
    then some bgeu
    else none

unfoldable pub lop : ℕ → Option Lop
lop word =
    let f3 = funct3 word in
    if f3 == 0
    then some lb
    else if f3 == 1
    then some lh
    else if f3 == 2
    then some lw
    else if f3 == 4
    then some lbu
    else if f3 == 5
    then some lhu
    else none

unfoldable pub sop : ℕ → Option Sop
sop word =
    let f3 = funct3 word in
    if f3 == 0 then some sb else if f3 == 1 then some sh else if f3 == 2 then some sw else none

-- `assert_eq!(opcode(word), …)` stands first in the source's `aop` and `aopi`: another opcode is
-- a panic.
abbrev aop_of : ℕ → ℕ → Option Aop
aop_of f3 f7 =
    if f3 == 0 && f7 == 0x20
    then some sub
    else if f3 == 0 && f7 == 0
    then some add
    else if f3 == 1 && f7 == 0
    then some sll
    else if f3 == 2 && f7 == 0
    then some slt
    else if f3 == 3 && f7 == 0
    then some sltu
    else if f3 == 4 && f7 == 0
    then some xor
    else if f3 == 5 && f7 == 0
    then some srl
    else if f3 == 5 && f7 == 0x20
    then some sra
    else if f3 == 6 && f7 == 0
    then some or
    else if f3 == 7 && f7 == 0
    then some and
    else none

abbrev aopi_of : ℕ → ℕ → Option Aop
aopi_of f3 f7 =
    if f3 == 0
    then some add
    else if f3 == 1 && f7 == 0
    then some sll
    else if f3 == 2
    then some slt
    else if f3 == 3
    then some sltu
    else if f3 == 4
    then some xor
    else if f3 == 5 && f7 == 0
    then some srl
    else if f3 == 5 && f7 == 0x20
    then some sra
    else if f3 == 6
    then some or
    else if f3 == 7
    then some and
    else none

-- `opcodes`.
abbrev pub opc_lui : ℕ
opc_lui = 0b011_0111

abbrev pub opc_auipc : ℕ
opc_auipc = 0b001_0111

abbrev pub opc_jal : ℕ
opc_jal = 0b110_1111

abbrev pub opc_jalr : ℕ
opc_jalr = 0b110_0111

abbrev pub opc_br : ℕ
opc_br = 0b110_0011

abbrev pub opc_load : ℕ
opc_load = 0b000_0011

abbrev pub opc_store : ℕ
opc_store = 0b010_0011

abbrev pub opc_alui : ℕ
opc_alui = 0b001_0011

abbrev pub opc_alu : ℕ
opc_alu = 0b011_0011

abbrev pub opc_fence : ℕ
opc_fence = 0b000_1111

abbrev pub opc_ecall : ℕ
opc_ecall = 0b111_0011

unfoldable pub aop : ℕ → Result (Option Aop)
aop word = if opcode word == opc_alu then ok (aop_of (funct3 word) (funct7 word)) else panic

unfoldable pub aopi : ℕ → Result (Option Aop)
aopi word = if opcode word == opc_alui then ok (aopi_of (funct3 word) (funct7 word)) else panic

unfoldable pub imm_a : ℕ → ℕ
imm_a word = if funct3 word == 1 || funct3 word == 5 then shamt word else imm_i word

-- The instruction of a system word, by its upper twenty bits.
abbrev parse_system : ℕ → Option Rv32
parse_system word =
    let top = shr32 word 12 in
    if top == 0
    then some (ecall (rd word))
    else if top == 0x00100
    then some (ebreak (rd word))
    else if top == 0xc0001
    then some unimp
    else none

-- An operation that was found, put into its instruction; `?` on an `Option` that was not.
abbrev with_op {ℓ} : {A : Type ℓ} → (A → Rv32) → Option A → Option Rv32
with_op f none = none
with_op f (some a) = some (f a)

abbrev with_aop : (Aop → Rv32) → Result (Option Aop) → Result (Option Rv32)
with_aop f r = r >>= λ a. ok (with_op f a)

-- The opcode constants as cases of a match; `op_other` is every other opcode.
pub data OpcodeCase : Type 0 where
  op_lui op_auipc op_jal op_jalr op_br op_load op_store op_alui op_alu op_fence op_ecall op_other :
      OpcodeCase

unfoldable pub opcode_case : ℕ → OpcodeCase
opcode_case op =
    if op == opc_lui
    then op_lui
    else if op == opc_auipc
    then op_auipc
    else if op == opc_jal
    then op_jal
    else if op == opc_jalr
    then op_jalr
    else if op == opc_br
    then op_br
    else if op == opc_load
    then op_load
    else if op == opc_store
    then op_store
    else if op == opc_alui
    then op_alui
    else if op == opc_alu
    then op_alu
    else if op == opc_fence
    then op_fence
    else if op == opc_ecall
    then op_ecall
    else op_other

unfoldable pub parse_case : OpcodeCase → ℕ → Result (Option Rv32)
parse_case op_lui word = ok (some (lui (rd word) (imm_u word)))
parse_case op_auipc word = ok (some (auipc (rd word) (imm_u word)))
parse_case op_jal word = ok (some (jal (rd word) (imm_j word)))
parse_case op_jalr word =
    ok (if funct3 word == 0 then some (jalr (rd word) (rs1 word) (imm_i word)) else none)
parse_case op_br word = ok (with_op (λ b. br b (rs1 word) (rs2 word) (imm_b word)) (bop word))
parse_case op_load word = ok (with_op (λ l. load l (rd word) (rs1 word) (imm_i word)) (lop word))
parse_case op_store word = ok (with_op (λ o. store o (rs1 word) (rs2 word) (imm_s word)) (sop word))
parse_case op_alui word = with_aop (λ a. alui a (rd word) (rs1 word) (imm_a word)) (aopi word)
parse_case op_alu word = with_aop (λ a. alu a (rd word) (rs1 word) (rs2 word)) (aop word)
parse_case op_fence word = ok (some fence)
parse_case op_ecall word = ok (parse_system word)
parse_case op_other word = ok none

-- `parse_u32`: one 32-bit word as an instruction; `none` if there is no such instruction.
unfoldable pub parse_u32 : ℕ → Result (Option Rv32)
parse_u32 word = parse_case (opcode_case (opcode word)) word

-- `ax` of `inst_size`: some bit of the mask `n` is clear in `b`.
abbrev pub ax : ℕ → ℕ → Bool
ax b n = not (bit_xor (bit_and b n) n == 0)

-- The size of an instruction in bytes by its first two bytes; 0 for a reserved size.
unfoldable pub inst_size : ℕ → ℕ → ℕ
inst_size b0 b1 =
    if ax b0 0b0000_0011
    then 2
    else if ax b0 0b0001_1111
    then 4
    else if ax b0 0b0011_1111
    then 6
    else if ax b0 0b0111_1111
    then 8
    else if ax b1 0b0111_0000
    then 10 + 2 * bit_and (b1 / 2 ^ 4) 0b111
    else 0

-- The standard ECALL and EBREAK get x10 for their destination.
unfoldable pub translate_nexus : ℕ → ℕ
translate_nexus word =
    if word == 0x0000_0073 || word == 0x0010_0073 then bit_or word (shl32 0b1010 7) else word

-- The little-endian word of the first four bytes.
abbrev pub le_word : ℕ → ℕ → ℕ → ℕ → ℕ
le_word b0 b1 b2 b3 = bit_or (bit_or (bit_or (shl32 b3 24) (shl32 b2 16)) (shl32 b1 8)) b0

abbrev finish_inst : ℕ → ℕ → ℕ → Option Rv32 → Result Inst
finish_inst pc sz word none = err (invalid_instruction pc word)
finish_inst pc sz word (some i) = ok (record { pc = pc; len = sz; word = word; inst = i })

-- The word of an instruction of `sz` bytes, parsed.
unfoldable pub parse_word : ℕ → ℕ → ℕ → Result Inst
parse_word pc sz word = parse_u32 word >>= λ i. finish_inst pc sz word i

abbrev parse_sized : ℕ → List ℕ → ℕ → Result Inst
parse_sized pc (b0 ∷ b1 ∷ b2 ∷ b3 ∷ _) sz =
    if sz == 4
    then parse_word pc sz (translate_nexus (le_word b0 b1 b2 b3))
    else err (invalid_size pc sz)
parse_sized pc _ sz = if sz == 4 then panic else err (invalid_size pc sz)

-- `parse_inst`: the instruction at the head of a byte sequence.
unfoldable pub parse_inst : ℕ → List ℕ → Result Inst
parse_inst pc (b0 ∷ b1 ∷ rest) =
    let mem = b0 ∷ b1 ∷ rest in
    let sz = inst_size b0 b1 in
    if ltb (length mem) sz then err (partial_instruction pc) else parse_sized pc mem sz
parse_inst pc _ = err (partial_instruction pc)

-- A checked `a + b` on u32.
abbrev checked_add : ℕ → ℕ → Result ℕ
checked_add a b = if ltb (a + b) u32_mod then ok (a + b) else panic

-- `v.push(inst)` before what the rest of the loop pushes, from `inst.len` bytes further on.
abbrev push_inst : (ℕ → Option (Result (List Inst))) → Result Inst → Option (Result (List Inst))
push_inst next (ok inst) = Option.map (λ r. r >>= λ v. ok (inst ∷ v)) (next inst.len)
push_inst next (err e) = some (err e)
push_inst next panic = some panic

-- The `while` loop of `parse_buf` at offset `i`, which is cut to a u32 before it is added; `none` means that the fuel ran out.
unfoldable pub parse_from : ℕ → ℕ → List ℕ → ℕ → Option (Result (List Inst))
parse_from zero pc mem i = none
parse_from (suc fuel) pc mem i =
    if leb (length mem) i
    then some (ok [])
    else push_inst (λ n. parse_from fuel pc mem (i + n))
        (checked_add pc (i % u32_mod) >>= λ at. parse_inst at (drop i mem))

-- `parse_buf`: the instructions of a byte sequence. A round takes four bytes, so one round more
-- than there are bytes is enough.
unfoldable pub parse_buf : ℕ → List ℕ → Option (Result (List Inst))
unfolding parse_from
parse_buf pc mem = parse_from (suc (length mem)) pc mem 0
