-- ===== src/Trace/Witness.antt =====
-- Rebuilding the witnesses of a block: `Witness`, `BlockIter` and `parse_alt` (vm/src/trace.rs).
use nexus_zkvm.Base.{ℕ, ◌+◌, Option, none, some, ltb, bit_and, if◌then◌else◌, get_elem?, u32_mod}
use mathlib.Core.Option
use nexus_zkvm.Base.Result.{Result, ok, panic, ◌>>=◌, index, from_option}
use nexus_zkvm.Rv32.{Rv32, index_j}
use nexus_zkvm.Parse.{
  opcode, rd, rs1, rs2, imm_i, imm_s, imm_b, imm_u, imm_j, imm_a, parse_u32, OpcodeCase,
  opcode_case, op_lui, op_auipc, op_jal, op_jalr, op_br, op_load, op_store, op_alui, op_alu,
  op_fence, op_ecall, op_other,
}
use nexus_zkvm.Eval.Machine.{Regs, default_regs, set_reg}
use nexus_zkvm.Trace.Record.{Step, Block}

pub record Witness (P : Type 0) : Type 0 where
  pub regs : Regs
  pub inst : ℕ
  pub j : ℕ
  pub shamt : ℕ
  pub rs1 : ℕ
  pub rs2 : ℕ
  pub rd : ℕ
  pub i : ℕ
  pub x : ℕ
  pub y : ℕ
  pub z : ℕ
  pub pc : ℕ
  pub pc_proof : P
  pub read_proof : P
  pub write_proof : P

pub record BlockIter (P : Type 0) : Type 0 where
  pub regs : Regs
  pub block : Block P
  pub index : ℕ

-- The program counter after a step: the recorded one, or the next word.
abbrev pub pc_after : ℕ → Option ℕ → Result ℕ
pc_after old (some pc) = ok pc
pc_after old none = if ltb (old + 4) u32_mod then ok (old + 4) else panic

module _ {P : Type 0} (default_proof : P) where
  -- `Witness::default()`.
  abbrev pub default_witness : Witness P
  default_witness = record {
    regs = default_regs;
    inst = 0;
    j = 0;
    shamt = 0;
    rs1 = 0;
    rs2 = 0;
    rd = 0;
    i = 0;
    x = 0;
    y = 0;
    z = 0;
    pc = 0;
    pc_proof = default_proof;
    read_proof = default_proof;
    write_proof = default_proof;
  }

  -- `parse_alt`: the operands of a word, with registers read for the shift amount of an ALU
  -- instruction only.
  unfoldable pub alt_case : OpcodeCase → Regs → ℕ → Result (Witness P)
  alt_case op_lui regs word = ok (record default_witness { rd = rd word; i = imm_u word })
  alt_case op_auipc regs word = ok (record default_witness { rd = rd word; i = imm_u word })
  alt_case op_jal regs word = ok (record default_witness { rd = rd word; i = imm_j word })
  alt_case op_jalr regs word =
      ok (record default_witness { rd = rd word; rs1 = rs1 word; i = imm_i word })
  alt_case op_br regs word =
      ok (record default_witness { rs1 = rs1 word; rs2 = rs2 word; i = imm_b word })
  alt_case op_load regs word =
      ok (record default_witness { rd = rd word; rs1 = rs1 word; i = imm_i word })
  alt_case op_store regs word =
      ok (record default_witness { rs1 = rs1 word; rs2 = rs2 word; i = imm_s word })
  alt_case op_alui regs word = ok (record default_witness {
    rd = rd word;
    rs1 = rs1 word;
    i = imm_a word;
    shamt = bit_and (imm_a word) 0x1f;
  })
  alt_case op_alu regs word = index regs.x (rs2 word) >>= λ v. ok (record default_witness {
    rd = rd word;
    rs1 = rs1 word;
    rs2 = rs2 word;
    shamt = bit_and v 0x1f;
  })
  alt_case op_fence regs word = ok default_witness
  alt_case op_ecall regs word = ok (record default_witness { rd = rd word })
  alt_case op_other regs word = ok default_witness

  unfoldable pub parse_alt : Regs → ℕ → Result (Witness P)
  unfolding alt_case
  parse_alt regs word = alt_case (opcode_case (opcode word)) regs word

  -- The fields that `next` fills in after `parse_alt`.
  abbrev pub filled : Regs → Step P → Rv32 → Witness P → ℕ → ℕ → ℕ → Witness P
  filled regs s inst w x y pc = record w {
    regs = regs;
    inst = s.inst;
    j = index_j inst;
    x = x;
    y = y;
    z = s.z;
    pc = pc;
    pc_proof = s.pc_proof;
    read_proof = Option.get_or s.read_proof s.pc_proof;
    write_proof = Option.get_or s.write_proof (Option.get_or s.read_proof s.pc_proof);
  }

  -- The body of `BlockIter::next` at the step `s`: the witness, and the registers after it. x0
  -- is not written.
  unfoldable pub next_witness : Regs → Step P → Result (Witness P × Regs)
  next_witness regs s = parse_u32 s.inst >>= λ parsed. from_option parsed >>= λ inst.
      parse_alt regs s.inst >>= λ w. index regs.x w.rs1 >>= λ x. index regs.x w.rs2 >>= λ y.
      pc_after regs.pc s.pc >>= λ pc. set_reg (record regs { pc = pc }) w.rd s.z >>= λ regs'.
      ok (filled regs s inst w x y pc, regs')

  abbrev advance :
      BlockIter P → Result (Witness P × Regs) → Result (Option (Witness P) × BlockIter P)
  advance it r = r >>= λ (w, regs). ok (some w, record it { regs = regs; index = it.index + 1 })

  abbrev next_at : BlockIter P → Option (Step P) → Result (Option (Witness P) × BlockIter P)
  next_at it none = ok (none, it)
  next_at it (some s) = advance it (next_witness it.regs s)

  -- `Iterator::next`.
  unfoldable pub next : BlockIter P → Result (Option (Witness P) × BlockIter P)
  unfolding next_witness
  next it = next_at it (get_elem? it.block.steps it.index)

  -- `Block::iter`.
  abbrev pub iter : Block P → BlockIter P
  iter b = record { regs = b.regs; block = b; index = 0 }
