-- ===== src/Eval/Machine.antt =====
-- The state of the virtual machine: `NexusVM` and `Regs` (vm/src/eval.rs). Counters of type usize
-- and u64 do not wrap here.
use nexus_zkvm.Base.{
  ℕ, ◌+◌, Bool, true, false, Option, none, some, List, [], ◌∷◌, ltb, ◌==◌, if◌then◌else◌, length,
  set, replicate, u32_mod,
}
use nexus_zkvm.Base.Result.{Result, ok, panic, index}
use nexus_zkvm.Base.Exec.{Exec, pure, reads, ◌>>◌}
use nexus_zkvm.Rv32.{Inst, default_inst, InstructionSet, rv32i, rv32_nexus, sb}
use nexus_zkvm.Syscalls.{Syscalls, default_syscalls}
use nexus_zkvm.Memory.Controller
use nexus_zkvm.Memory.Controller.{Controller}

pub record Regs : Type 0 where
  pub pc : ℕ
  pub x : List ℕ

abbrev pub default_regs : Regs
default_regs = record { pc = 0; x = replicate 32 0 }

-- The cycle tracker: for each name its cycle count and how many of its calls are open.
abbrev pub Tracker : Type 0
Tracker = List (List ℕ × (ℕ × ℕ))

pub record NexusVm (S P : Type 0) : Type 0 where
  pub regs : Regs
  pub syscalls : Syscalls
  pub inst : Inst
  pub z : ℕ
  pub instruction_sets : List InstructionSet
  pub mem : S
  pub pc_proof : P
  pub read_proof : Option P
  pub write_proof : Option P
  pub trace_len : ℕ
  pub max_trace_len : Option ℕ
  pub cycle_count : ℕ
  pub cycle_tracker : Tracker

-- `get_reg` and `set_reg`: x0 reads 0 and is never written; there are 32 registers.
unfoldable pub get_reg : Regs → ℕ → Result ℕ
get_reg regs r = if r == 0 then ok 0 else index regs.x r

unfoldable pub set_reg : Regs → ℕ → ℕ → Result Regs
set_reg regs r val =
    if r == 0
    then ok regs
    else if ltb r (length regs.x)
    then ok (record regs { x = set regs.x r val })
    else panic

-- `HashSet::insert` into the set of used instruction sets.
abbrev same_set : InstructionSet → InstructionSet → Bool
same_set rv32i rv32i = true
same_set rv32_nexus rv32_nexus = true
same_set _ _ = false

unfoldable pub insert_set : InstructionSet → List InstructionSet → List InstructionSet
insert_set i [] = i ∷ []
insert_set i (j ∷ js) = if same_set i j then j ∷ js else j ∷ insert_set i js

module _ {S P : Type 0} (mem : Controller S P) where
  -- `NexusVM::new`.
  unfoldable pub new_vm : ℕ → NexusVm S P
  new_vm pc = record {
    regs = record default_regs { pc = pc };
    syscalls = default_syscalls;
    inst = default_inst;
    z = 0;
    instruction_sets = [];
    mem = mem.initial;
    pc_proof = mem.default_proof;
    read_proof = none;
    write_proof = none;
    trace_len = 0;
    max_trace_len = none;
    cycle_count = 0;
    cycle_tracker = [];
  }

  -- The loop of `init_memory`: the bytes are stored one by one, from `addr + i` on.
  store_bytes : ℕ → ℕ → List ℕ → Exec S Unit
  store_bytes addr i [] = pure tt
  store_bytes addr i (b ∷ bs) =
      if ltb (addr + i) u32_mod
      then (λ s. Controller.store mem s sb (addr + i) b) >> store_bytes addr (i + 1) bs
      else reads (λ _. panic)

  unfoldable pub init_memory : ℕ → List ℕ → Exec (NexusVm S P) Unit
  unfolding store_bytes
  init_memory addr bytes vm =
      let ran = store_bytes addr 0 bytes vm.mem in (ran.0, record vm { mem = ran.1 })

abbrev pub set_max_trace_len : {S P : Type 0} → NexusVm S P → ℕ → NexusVm S P
set_max_trace_len vm n = record vm { max_trace_len = some n }
