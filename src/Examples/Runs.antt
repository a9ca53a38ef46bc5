-- ===== src/Examples/Runs.antt =====
-- A machine that runs two instructions from a paged memory.
use nexus_zkvm.Base.{ℕ, ◌≡◌, refl, arith, List, [], ◌∷◌, set, replicate, length, none, some}
use nexus_zkvm.Base.Result.{ok}
use nexus_zkvm.Rv32.{alui, add, default_inst}
use nexus_zkvm.Memory.CacheLine.{CacheLine, load_lw, scalars}
use nexus_zkvm.Memory.Controller.{Controller, read_inst}
use nexus_zkvm.Memory.Paged
use nexus_zkvm.Syscalls.{default_syscalls}
use nexus_zkvm.Eval.Alu.{add32, alu_op}
use nexus_zkvm.Parse.{
  parse_inst, inst_size, parse_word, parse_u32, parse_case, opcode_case, translate_nexus, aopi, aop,
  imm_a, imm_i,
}
use nexus_zkvm.Memory.Paged.{Paged, empty_page, paged}
use nexus_zkvm.Eval.Machine.{NexusVm, get_reg, set_reg}
use nexus_zkvm.Eval.Step.{eval_inst, to_le_bytes}
use nexus_zkvm.Eval.Executed.{IsExecuted, eval_inst-IsExecuted}
use nexus_zkvm.Trace.Record.{Step, Block, step, steps, k_step}
use nexus_zkvm.Trace.Witness.{Witness, BlockIter, next_witness, next, iter, parse_alt}
use nexus_zkvm.Trace.Operands.{HasOperands, IsQuiet, parse_alt-HasOperands}
use nexus_zkvm.Trace.Replay.{IsRegs, Describes, next_witness-step}
use nexus_zkvm.Trace.Blocks.{AreQuiet, Yields, iter-k_step}

abbrev pub low_byte : List ℕ → ℕ
low_byte [] = 0
low_byte (b ∷ bs) = b

abbrev memory : Controller Paged (ℕ × ℕ)
memory = paged 0 low_byte

-- `addi x1, x0, 5` and `add x2, x1, x1`.
abbrev program_line : CacheLine
program_line = 0x93 ∷ 0x00 ∷ 0x50 ∷ 0x00 ∷ 0x33 ∷ 0x81 ∷ 0x10 ∷ 0x00 ∷ replicate 24 0

abbrev machine : NexusVm Paged (ℕ × ℕ)
machine = record {
  regs = record { pc = 0x1000; x = replicate 32 0 };
  syscalls = default_syscalls;
  inst = default_inst;
  z = 0;
  instruction_sets = [];
  mem = record { tree = (1, set empty_page 0 program_line) ∷ [] };
  pc_proof = (0, 0);
  read_proof = none;
  write_proof = none;
  trace_len = 0;
  max_trace_len = none;
  cycle_count = 0;
  cycle_tracker = [];
}

abbrev after_one : NexusVm Paged (ℕ × ℕ)
after_one = (step memory machine).1

abbrev after_two : NexusVm Paged (ℕ × ℕ)
after_two = (k_step memory 2 machine).1

abbrev first_step : Step (ℕ × ℕ)
first_step = record {
  inst = 0x0050_0093;
  z = 5;
  pc = none;
  pc_proof = (0x93, 0);
  read_proof = none;
  write_proof = none;
}

abbrev recorded_block : Block (ℕ × ℕ)
recorded_block = record {
  regs = machine.regs;
  steps = first_step ∷ record first_step { inst = 0x0010_8133; z = 10 } ∷ [];
}

evaluates : eval_inst memory machine ≡ (ok tt, (eval_inst memory machine).1)
unfolding eval_inst read_inst Paged.query load_lw parse_inst to_le_bytes inst_size parse_word
    parse_u32 parse_case opcode_case translate_nexus aopi get_reg set_reg add32 alu_op aop imm_a
    scalars imm_i
evaluates = refl

takes_step : step memory machine ≡ (ok first_step, after_one)
unfolding step eval_inst read_inst Paged.query load_lw parse_inst to_le_bytes inst_size parse_word
    parse_u32 parse_case opcode_case translate_nexus aopi get_reg set_reg add32 alu_op aop imm_a
    scalars imm_i
takes_step = refl

records : k_step memory 2 machine ≡ (ok recorded_block, after_two)
unfolding k_step steps step eval_inst read_inst Paged.query load_lw parse_inst to_le_bytes inst_size
    parse_word parse_u32 parse_case opcode_case translate_nexus aopi get_reg set_reg add32 alu_op
    aop imm_a scalars imm_i
records = refl

machine-IsRegs : IsRegs machine.regs
machine-IsRegs = record { size = refl; x0 = refl }

after_one-IsQuiet : IsQuiet after_one.inst.inst after_one.inst.word
unfolding step eval_inst read_inst Paged.query load_lw parse_inst to_le_bytes inst_size parse_word
    parse_u32 parse_case opcode_case translate_nexus aopi get_reg set_reg add32 alu_op aop imm_a
    scalars imm_i
after_one-IsQuiet = tt

recorded_block-AreQuiet : AreQuiet recorded_block.steps
unfolding parse_u32 parse_case opcode_case aopi aop imm_a imm_i
recorded_block-AreQuiet = (λ inst e. ground arith, (λ inst e. ground arith, tt))

eval_inst-IsExecuted_example : IsExecuted memory machine (eval_inst memory machine).1
eval_inst-IsExecuted_example = eval_inst-IsExecuted memory machine evaluates

parses_addi : parse_u32 0x0050_0093 ≡ ok (some (alui add 1 0 5))
unfolding parse_u32 parse_case opcode_case aopi aop imm_a imm_i
parses_addi = refl

parse_alt-HasOperands_example :
    (w : Witness (ℕ × ℕ)) × (parse_alt (0, 0) machine.regs 0x0050_0093 ≡ ok w)
    × HasOperands (alui add 1 0 5) 0x0050_0093 w
parse_alt-HasOperands_example =
    parse_alt-HasOperands (0, 0) machine.regs 0x0050_0093 refl parses_addi

next_witness-step_example :
    (wit : Witness (ℕ × ℕ)) × (next_witness (0, 0) machine.regs first_step
      ≡ ok (wit, after_one.regs))
    × Describes memory (0, 0) machine after_one wit
next_witness-step_example =
    next_witness-step memory (0, 0) machine machine-IsRegs after_one-IsQuiet takes_step

iter-k_step_example :
    (ws : List (Witness (ℕ × ℕ))) × (last : BlockIter (ℕ × ℕ)) × (length ws ≡ 2)
    × Yields (0, 0) ws (iter (0, 0) recorded_block) last
    × (last.regs ≡ after_two.regs)
    × (next (0, 0) last ≡ ok (none, last))
iter-k_step_example =
    iter-k_step memory (0, 0) 2 machine machine-IsRegs recorded_block-AreQuiet records
