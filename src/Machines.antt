-- ===== src/Machines.antt =====
-- The builtin machines (vm/src/machines.rs).
pub mod Code
pub mod Expected
pub mod Run
use mathlib.Core.Option
use nexus_zkvm.Base.{
  ℕ, zero, suc, ◌+◌, ◌*◌, ◌%◌, ◌^◌, bit_and, bit_or, Bool, true, false, ◌&&◌, Option, none, some,
  List, [], ◌∷◌, ◌++◌, ◌==◌, ltb, if◌then◌else◌, replicate, u32_mod,
}
use nexus_zkvm.Base.Result.{Result, ok, err, panic, ◌>>=◌}
use nexus_zkvm.Rv32.{sw}
use nexus_zkvm.Memory.Controller
use nexus_zkvm.Memory.Controller.{Controller}
use nexus_zkvm.Syscalls.{set_input, enable_stdout}
use nexus_zkvm.Eval.Machine.{Regs, NexusVm, new_vm, default_regs, Tracker}
use nexus_zkvm.Eval.Step.{eval_inst}
use nexus_zkvm.Trace.Record.{is_unimp}
use Code.{
  fib31_code, bitop_code, branch_code, jump_code, ldst_code, shift_code, sub_code, priv_code,
}
use Expected.{
  registers, fib31_result, bitop_result, branch_result, jump_result, ldst_result, shift_result,
  sub_result, priv_result,
}

-- A name, as its bytes, and what the three functions of a machine return.
pub record TestMachine : Type 0 where
  pub name : List ℕ
  pub code : List ℕ
  pub result : Regs
  pub input : List ℕ

abbrev pub nop_code : ℕ → List ℕ
nop_code k = replicate k 0x13 ++ 0xc000_1073 ∷ []

-- The product is checked.
unfoldable pub nop_result : ℕ → Result Regs
nop_result k =
    if ltb (k % u32_mod * 4) u32_mod
    then ok (record default_regs { pc = k % u32_mod * 4 })
    else panic

-- `nop_result(10)`.
abbrev pub nop10_result : Regs
nop10_result = record default_regs { pc = 40 }

-- The code for `k` turns; it panics for a `k` of more than 31 bits.
unfoldable pub loop_code : ℕ → Result (List ℕ)
loop_code k =
    if ltb k (2 ^ 31)
    then ok (
        bit_or (bit_and k 0xffff_f000) 0x137
        ∷ bit_or (bit_and k 0xfff * 2 ^ 20) 0x1_0113
        ∷ 0x0000_0093
        ∷ 0x0010_8093
        ∷ 0xfe20_9ee3
        ∷ 0xc000_1073
        ∷ [])
    else panic

abbrev pub loop_result : ℕ → Regs
loop_result k = registers (5 * 4) ((1, k % u32_mod) ∷ (2, k % u32_mod) ∷ [])

abbrev pub priv_input : List ℕ
priv_input = 42 ∷ 43 ∷ 44 ∷ []

-- `loop_code(10)`.
abbrev pub loop10_code : List ℕ
loop10_code = 0x0000_0137 ∷ 0x00a1_0113 ∷ 0x0000_0093 ∷ 0x0010_8093 ∷ 0xfe20_9ee3 ∷ 0xc000_1073 ∷ []

abbrev machine : List ℕ → List ℕ → Regs → List ℕ → TestMachine
machine name code result input = record { name = name; code = code; result = result; input = input }

-- `MACHINES`.
unfoldable pub machines : List TestMachine
machines =
    machine (110 ∷ 111 ∷ 112 ∷ 49 ∷ 48 ∷ []) (nop_code 10) nop10_result []
    ∷ machine (108 ∷ 111 ∷ 111 ∷ 112 ∷ 49 ∷ 48 ∷ []) loop10_code (loop_result 10) []
    ∷ machine (102 ∷ 105 ∷ 98 ∷ 51 ∷ 49 ∷ []) fib31_code fib31_result []
    ∷ machine (98 ∷ 105 ∷ 116 ∷ 111 ∷ 112 ∷ []) bitop_code bitop_result []
    ∷ machine (98 ∷ 114 ∷ 97 ∷ 110 ∷ 99 ∷ 104 ∷ []) branch_code branch_result []
    ∷ machine (106 ∷ 117 ∷ 109 ∷ 112 ∷ []) jump_code jump_result []
    ∷ machine (108 ∷ 100 ∷ 115 ∷ 116 ∷ []) ldst_code ldst_result []
    ∷ machine (115 ∷ 104 ∷ 105 ∷ 102 ∷ 116 ∷ []) shift_code shift_result []
    ∷ machine (115 ∷ 117 ∷ 98 ∷ []) sub_code sub_result []
    ∷ machine (112 ∷ 114 ∷ 105 ∷ 118 ∷ []) priv_code priv_result priv_input
    ∷ []

abbrev same_bytes : List ℕ → List ℕ → Bool
same_bytes [] [] = true
same_bytes [] (y ∷ ys) = false
same_bytes (x ∷ xs) [] = false
same_bytes (x ∷ xs) (y ∷ ys) = x == y && same_bytes xs ys

abbrev find_machine : List TestMachine → List ℕ → Option TestMachine
find_machine [] name = none
find_machine (m ∷ ms) name = if same_bytes m.name name then some m else find_machine ms name

unfoldable pub lookup_test : List ℕ → Option TestMachine
lookup_test name = find_machine machines name

unfoldable pub lookup_test_code : List ℕ → Option (List ℕ)
lookup_test_code name = Option.map (λ m. m.code) (lookup_test name)

unfoldable pub lookup_test_input : List ℕ → Option (List ℕ)
lookup_test_input name = Option.map (λ m. m.input) (lookup_test name)

-- The state that a store leaves behind; an error is unwrapped.
abbrev stored : {S P : Type 0} → Result P × S → Result S
stored (ok p, s) = ok s
stored (err e, s) = panic
stored (panic, s) = panic

module _ {S P : Type 0} (mem : Controller S P) where
  -- The loop of `assemble`: the words from index `i` on.
  unfoldable pub store_words : ℕ → List ℕ → S → Result S
  store_words i [] s = ok s
  store_words i (w ∷ ws) s =
      if ltb (i % u32_mod * 4) u32_mod
      then stored (Controller.store mem s sw (i % u32_mod * 4) w) >>= store_words (i + 1) ws
      else panic

  unfoldable pub assemble : List ℕ → Result (NexusVm S P)
  unfolding store_words new_vm
  assemble words =
      let vm = new_vm mem 0 in store_words 0 words vm.mem >>= λ s. ok (record vm { mem = s })

  unfoldable pub nop_vm : ℕ → Result (NexusVm S P)
  unfolding assemble
  nop_vm k = assemble (nop_code k)

  unfoldable pub loop_vm : ℕ → Result (NexusVm S P)
  unfolding assemble
  loop_vm k = loop_code k >>= assemble

  -- `lookup_test_machine`: the machine is assembled, then given its input.
  unfoldable pub lookup_test_machine : List ℕ → Result (Option (NexusVm S P))
  lookup_test_machine name = elim (lookup_test name) [
    | none ↦ ok none
    | some m ↦
        assemble m.code >>= λ vm. ok (some (record vm { syscalls = set_input vm.syscalls m.input }))
  ]
