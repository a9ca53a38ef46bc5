-- ===== src/Trace/Record.antt =====
-- Recording a trace: `Trace`, `Block`, `Step`, `step`, `k_step` and `trace` (vm/src/trace.rs).
use nexus_zkvm.Base.{
  ℕ, zero, suc, ◌+◌, ◌-◌, ◌*◌, Bool, true, false, Option, none, some, List, [], ◌∷◌, ltb, leb, ◌==◌,
  ◌||◌, if◌then◌else◌, length, get_elem?, take, drop, u32_mod,
}
use mathlib.Core.Option
use nexus_zkvm.Base.Result.{Result, ok, panic}
use nexus_zkvm.Base.Exec.{Exec, pure, reads, ◌>>=◌, ◌>>◌}
use nexus_zkvm.Rv32.{Rv32, unimp}
use nexus_zkvm.Memory.Controller.{Controller}
use nexus_zkvm.Eval.Machine.{Regs, NexusVm}
use nexus_zkvm.Eval.Step.{eval_inst}

pub record Step (P : Type 0) : Type 0 where
  pub inst : ℕ
  pub z : ℕ
  pub pc : Option ℕ
  pub pc_proof : P
  pub read_proof : Option P
  pub write_proof : Option P

pub record Block (P : Type 0) : Type 0 where
  pub regs : Regs
  pub steps : List (Step P)

pub record Trace (P : Type 0) : Type 0 where
  pub k : ℕ
  pub start : ℕ
  pub blocks : List (Block P)

module _ {P : Type 0} where
  -- `Trace::block`.
  unfoldable pub block : Trace P → ℕ → Option (Block P)
  block t n =
      if ltb n t.start || leb (t.start + length t.blocks) n
      then none
      else get_elem? t.blocks (n - t.start)

  -- `Trace::get`.
  unfoldable pub get : Trace P → ℕ → Option (Trace P)
  get t n = Option.map (λ b. record { k = t.k; start = n; blocks = b ∷ [] }) (block t n)

  -- `chunks(n)` with the running start index, on fuel: a chunk takes at least one block where
  -- `n` is not 0.
  split_from : ℕ → Trace P → ℕ → ℕ → List (Block P) → List (Trace P)
  split_from fuel t n index [] = []
  split_from zero t n index (b ∷ bs) = []
  split_from (suc fuel) t n index (b ∷ bs) =
      record { k = t.k; start = index; blocks = take n (b ∷ bs) }
      ∷ split_from fuel t n (index + n) (drop n (b ∷ bs))

  -- `Trace::split_by`; `chunks(0)` panics.
  unfoldable pub split_by : Trace P → ℕ → Result (List (Trace P))
  unfolding split_from
  split_by t n = if n == 0 then panic else ok (split_from (length t.blocks) t n 0 t.blocks)

-- `usize::next_power_of_two`: doubling from 1 until `n` is reached.
abbrev double_until : ℕ → ℕ → ℕ → ℕ
double_until zero n p = p
double_until (suc fuel) n p = if leb n p then p else double_until fuel n (p * 2)

unfoldable pub next_power_of_two : ℕ → ℕ
next_power_of_two n = double_until n n 1

-- `vm.inst.inst == UNIMP`.
abbrev pub is_unimp : Rv32 → Bool
is_unimp unimp = true
is_unimp _ = false

module _ {S P : Type 0} (mem : Controller S P) where
  -- The program counter of a step is recorded unless it is the next word; `pc + 4` is checked.
  abbrev recorded_pc : ℕ → ℕ → Result (Option ℕ)
  recorded_pc old new =
      if ltb (old + 4) u32_mod then ok (if new == old + 4 then none else some new) else panic

  -- The step that is recorded once the instruction has been evaluated.
  unfoldable pub finish_step : ℕ → Exec (NexusVm S P) (Step P)
  finish_step old = do
    jump ← reads (λ vm. recorded_pc old vm.regs.pc)
    reads (λ vm. ok (record {
      inst = vm.inst.word;
      z = vm.z;
      pc = jump;
      pc_proof = vm.pc_proof;
      read_proof = vm.read_proof;
      write_proof = vm.write_proof;
    }))

  unfoldable pub step : Exec (NexusVm S P) (Step P)
  unfolding finish_step
  step vm = (eval_inst mem >> finish_step vm.regs.pc) vm

  -- The `for` loop of `k_step`.
  unfoldable pub steps : ℕ → Exec (NexusVm S P) (List (Step P))
  steps zero = pure []
  steps (suc k) = do s ← step; rest ← steps k; pure (s ∷ rest)

  unfoldable pub k_step : ℕ → Exec (NexusVm S P) (Block P)
  k_step k = do
    start ← reads (λ vm. ok vm.regs)
    ss ← steps k
    pure (record { regs = start; steps = ss })

  -- Whether the loop of `trace` ends after its `count`-th block.
  abbrev trace_ends : Bool → ℕ → Rv32 → Bool
  trace_ends pow count inst =
      if is_unimp inst then if pow then next_power_of_two count == count + 1 else true else false

  -- The loop of `trace` with `count` blocks pushed so far; `none` means that the fuel ran out.
  unfoldable pub trace_blocks : ℕ → ℕ → Bool → ℕ → Exec (NexusVm S P) (Option (List (Block P)))
  trace_blocks zero k pow count = pure none
  trace_blocks (suc fuel) k pow count = do
    b ← k_step k
    inst ← reads (λ vm. ok vm.inst.inst)
    rest ← elim (trace_ends pow (count + 1) inst) [
      | true ↦ pure (some [])
      | false ↦ trace_blocks fuel k pow (count + 1)
    ]
    pure (Option.map (λ bs. b ∷ bs) rest)

  unfoldable pub trace : ℕ → ℕ → Bool → Exec (NexusVm S P) (Option (Trace P))
  trace fuel k pow = do
    bs ← trace_blocks fuel k pow 0
    pure (Option.map (λ l. record { k = k; start = 0; blocks = l }) bs)
