-- ===== src/Eval/Step.antt =====
-- `eval_inst` (vm/src/eval.rs): fetch, execute, retire.
use nexus_zkvm.Base.{
  ℕ, ◌+◌, ◌/◌, ◌%◌, ◌^◌, Bool, Option, none, some, List, [], ◌∷◌, leb, ◌==◌, if◌then◌else◌,
}
use nexus_zkvm.Base.Result.{ok, err, index, max_trace_length_exceeded}
use nexus_zkvm.Base.Exec.{Exec, pure, reads, modify, ◌>>=◌, ◌>>◌}
use nexus_zkvm.Rv32.{
  Rv32, Inst, instruction_set, Lop, lb, lh, lw, Sop, sb, sh, sw, lui, auipc, jal, jalr, br, load,
  store, alui, alu, fence, ecall, ebreak, unimp,
}
use nexus_zkvm.Parse.{parse_inst}
use nexus_zkvm.Memory.Controller
use nexus_zkvm.Memory.Controller.{Controller, read_inst}
use nexus_zkvm.Syscalls.{syscall, profile_cycles, code_number}
use nexus_zkvm.Eval.Alu.{add32, br_op, alu_op}
use nexus_zkvm.Eval.Machine.{NexusVm, get_reg, set_reg, insert_set}
use nexus_zkvm.Eval.Profile.{handle_profile_cycles}

-- `word.to_le_bytes()`.
unfoldable pub to_le_bytes : ℕ → List ℕ
to_le_bytes w = w % 2 ^ 8 ∷ w / 2 ^ 8 % 2 ^ 8 ∷ w / 2 ^ 16 % 2 ^ 8 ∷ w / 2 ^ 24 % 2 ^ 8 ∷ []

-- The load whose proof stands for the line before a store.
abbrev pub lop_of : Sop → Lop
lop_of sb = lb
lop_of sh = lh
lop_of sw = lw

-- Cycles by kind of instruction.
unfoldable pub cycles_of : Rv32 → ℕ
cycles_of (load l d s i) = 3
cycles_of (store o s t i) = 3
cycles_of (br b s t i) = 2
cycles_of (lui d i) = 1
cycles_of (auipc d i) = 1
cycles_of (jal d i) = 1
cycles_of (jalr d s i) = 1
cycles_of (alui a d s i) = 1
cycles_of (alu a d s t) = 1
cycles_of (ecall d) = 4
cycles_of (ebreak d) = 4
cycles_of fence = 0
cycles_of unimp = 0

module _ {S P : Type 0} (mem : Controller S P) where
  abbrev Vm : Type 0
  Vm = NexusVm S P

  -- The limit is checked before anything else.
  abbrev limit_reached : Option ℕ → ℕ → Bool
  limit_reached none len = Bool.false
  limit_reached (some limit) len = leb limit len

  unfoldable pub check_limit : Exec Vm Unit
  check_limit vm = (
    if limit_reached vm.max_trace_len vm.trace_len
        then err (max_trace_length_exceeded vm.trace_len)
        else ok tt,
    vm,
  )

  -- Parses the word that was read at pc, and starts the instruction with Z = 0 and no memory
  -- proofs but that of the instruction.
  unfoldable pub decode : ℕ × P → Exec Vm Unit
  decode (word, proof) = do
    inst ← reads (λ vm. parse_inst vm.regs.pc (to_le_bytes word))
    modify (λ vm. record vm {
      inst = inst;
      z = 0;
      pc_proof = proof;
      read_proof = none;
      write_proof = none;
      instruction_sets = insert_set (instruction_set inst.inst) vm.instruction_sets;
    })

  abbrev pub read_at_pc : Exec Vm (ℕ × P)
  read_at_pc = reads (λ vm. read_inst mem vm.mem vm.regs.pc)

  unfoldable pub fetch : Exec Vm Unit
  unfolding decode
  fetch = do found ← read_at_pc; decode found

  abbrev reg : ℕ → Exec Vm ℕ
  reg r = reads (λ vm. get_reg vm.regs r)

  abbrev set_z : ℕ → Exec Vm Unit
  set_z v = modify (λ vm. record vm { z = v })

  -- The system call changes the call's state, and Z if it succeeds.
  abbrev pub run_syscall : Exec Vm ℕ
  run_syscall vm =
      let ran = syscall mem vm.syscalls vm.regs.pc vm.regs.x vm.mem in
      (ran.0, record vm { syscalls = ran.1 })

  -- The number of the call is read again to see whether it is `ProfileCycles`.
  unfoldable pub finish_ecall : ℕ → ℕ → Exec Vm (ℕ × ℕ)
  finish_ecall rd val = do
    set_z val
    number ← reads (λ vm. index vm.regs.x 18)
    if number == code_number profile_cycles then handle_profile_cycles else pure tt
    pure (rd, 0)

  abbrev run_store : Sop → ℕ → ℕ → Exec Vm P
  run_store sop addr val vm =
      let ran = Controller.store mem vm.mem sop addr val in (ran.0, record vm { mem = ran.1 })

  -- The effect of one instruction; the result is the pair of the local variables `RD` and `PC`,
  -- where 0 stands for x0 and for "the next instruction".
  unfoldable pub execute : Rv32 → Exec Vm (ℕ × ℕ)
  unfolding add32
  execute (lui rd imm) = do set_z imm; pure (rd, 0)
  execute (auipc rd imm) = do pc ← reads (λ vm. ok vm.regs.pc); set_z (add32 pc imm); pure (rd, 0)
  execute (jal rd imm) = do
    pc ← reads (λ vm. ok vm.regs.pc)
    set_z (add32 pc 4)
    pure (rd, add32 pc imm)
  execute (jalr rd rs1 imm) = do
    x ← reg rs1
    pc ← reads (λ vm. ok vm.regs.pc)
    set_z (add32 pc 4)
    pure (rd, add32 x imm)
  execute (br bop rs1 rs2 imm) = do
    x ← reg rs1
    y ← reg rs2
    pc ← reads (λ vm. ok vm.regs.pc)
    pure (0, if br_op bop x y then add32 pc imm else 0)
  execute (load lop rd rs1 imm) = do
    x ← reg rs1
    (val, proof) ← reads (λ vm. Controller.load mem vm.mem lop (add32 x imm))
    modify (λ vm. record vm { read_proof = some proof; z = val })
    pure (rd, 0)
  execute (store sop rs1 rs2 imm) = do
    x ← reg rs1
    y ← reg rs2
    (_, proof) ← reads (λ vm. Controller.load mem vm.mem (lop_of sop) (add32 x imm))
    modify (λ vm. record vm { read_proof = some proof })
    written ← run_store sop (add32 x imm) y
    modify (λ vm. record vm { write_proof = some written })
    pure (0, 0)
  execute (alui aop rd rs1 imm) = do x ← reg rs1; set_z (alu_op aop x imm); pure (rd, 0)
  execute (alu aop rd rs1 rs2) = do x ← reg rs1; y ← reg rs2; set_z (alu_op aop x y); pure (rd, 0)
  execute fence = pure (0, 0)
  execute (ebreak rd) = pure (0, 0)
  execute (ecall rd) = do val ← run_syscall; finish_ecall rd val
  execute unimp = do pc ← reads (λ vm. ok vm.inst.pc); pure (0, pc)

  abbrev next_pc : Inst → ℕ → ℕ
  next_pc inst pc = if pc == 0 then add32 inst.pc inst.len else pc

  -- Writes the result register and pc, and counts the instruction and its cycles.
  unfoldable pub retire : ℕ × ℕ → Exec Vm Unit
  unfolding add32
  retire (rd, pc) = do
    regs ← reads (λ vm. set_reg vm.regs rd vm.z)
    modify (λ vm. record vm {
      regs = record regs { pc = next_pc vm.inst pc };
      trace_len = vm.trace_len + 1;
      cycle_count = vm.cycle_count + cycles_of vm.inst.inst;
    })

  -- The match on the fetched instruction, and what follows it.
  unfoldable pub run_fetched : Exec Vm Unit
  unfolding execute retire
  run_fetched vm = (execute vm.inst.inst >>= retire) vm

  unfoldable pub eval_inst : Exec Vm Unit
  unfolding check_limit fetch run_fetched
  eval_inst = do check_limit; fetch; run_fetched
