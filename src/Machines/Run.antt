-- ===== src/Machines/Run.antt =====
-- Running a machine to its end: `eval` (vm/src/lib.rs), less what it prints.
use nexus_zkvm.Base.{
  ℕ, zero, suc, Bool, true, false, ◌&&◌, Option, none, some, [], ◌∷◌, ◌==◌, if◌then◌else◌,
}
use nexus_zkvm.Base.Result.{Result, ok, panic}
use nexus_zkvm.Base.Exec.{Exec, pure, reads, modify, ◌>>=◌, ◌>>◌}
use nexus_zkvm.Memory.Controller.{Controller}
use nexus_zkvm.Syscalls.{enable_stdout}
use nexus_zkvm.Eval.Machine.{NexusVm, Tracker}
use nexus_zkvm.Eval.Step.{eval_inst}
use nexus_zkvm.Trace.Record.{is_unimp}

-- The assertion of the summary, for every function that was profiled, and the division by the
-- cycle count before it.
abbrev all_closed : Tracker → Bool
all_closed [] = true
all_closed ((name, (clk, open_calls)) ∷ rest) = open_calls == 0 && all_closed rest

abbrev summary : ℕ → Tracker → Result {0} Unit
summary cycles [] = ok tt
summary cycles (t ∷ ts) =
    if cycles == 0 then panic else if all_closed (t ∷ ts) then ok tt else panic

module _ {S P : Type 0} (mem : Controller S P) where
  -- The loop of `eval`, on fuel; `none` means that the fuel ran out.
  unfoldable pub run_loop : ℕ → Exec (NexusVm S P) (Option {0} Unit)
  run_loop zero = pure none
  run_loop (suc fuel) = do
    eval_inst mem
    inst ← reads (λ vm. ok vm.inst.inst)
    elim (is_unimp inst) [ true ↦ pure (some tt) | false ↦ run_loop fuel ]

  abbrev show_output : Bool → Exec (NexusVm S P) Unit
  show_output true = modify (λ vm. record vm { syscalls = enable_stdout vm.syscalls })
  show_output false = pure tt

  abbrev finish_run : Option {0} Unit → Exec (NexusVm S P) (Option {0} Unit)
  finish_run none = pure none
  finish_run (some u) = do reads (λ vm. summary vm.cycle_count vm.cycle_tracker); pure (some u)

  -- `eval`, less what it prints.
  unfoldable pub eval : ℕ → Bool → Exec (NexusVm S P) (Option {0} Unit)
  unfolding run_loop
  eval fuel show = do show_output show; ran ← run_loop fuel; finish_run ran
