-- ===== src/Eval/Executed.antt =====
-- One successful `eval_inst`, described by the memory's word at pc, the registers one by one, and the
-- cycles of each kind of instruction.
use nexus_zkvm.Base.{
  ℕ, ◌+◌, ◌%◌, ◌^◌, ◌<◌, ◌≡◌, refl, sym, ap, ◌∙◌, arith, true, false, not, ◌&&◌, ◌==◌, inl, inr,
  Bool-cases, some, if◌then◌else◌, length, get_or, set, get_or-set_self, get_or-set_ne, length-set,
  ltb,
}
use nexus_zkvm.Base.Result.{ok, panic, ok-inj}
use nexus_zkvm.Rv32.{Rv32, lw, load, store, br, ecall, ebreak, fence, unimp}
use nexus_zkvm.Parse.{parse_u32}
use nexus_zkvm.Parse.Bytes.{nexus_word, word_of}
use nexus_zkvm.Memory.CacheLine.{load_line}
use nexus_zkvm.Memory.Controller
use nexus_zkvm.Memory.Controller.{Controller, read_inst}
use nexus_zkvm.Eval.Machine.{Regs, NexusVm, set_reg}
use nexus_zkvm.Eval.Step.{eval_inst, cycles_of, to_le_bytes}
use nexus_zkvm.Eval.Frame.{eval_inst-IsStep, destination, transfers}

-- Memory accesses cost three cycles, branches two, system calls four, FENCE and UNIMP none, and all
-- else one.
abbrev pub cost : Rv32 → ℕ
cost (load l d s i) = 3
cost (store o s t i) = 3
cost (br b s t i) = 2
cost (ecall d) = 4
cost (ebreak d) = 4
cost fence = 0
cost unimp = 0
cost _ = 1

cycles_of-cost : (i : Rv32) → cycles_of i ≡ cost i
unfolding cycles_of
cycles_of-cost (load l d s i) = refl
cycles_of-cost (store o s t i) = refl
cycles_of-cost (br b s t i) = refl
cycles_of-cost (ecall d) = refl
cycles_of-cost (ebreak d) = refl
cycles_of-cost fence = refl
cycles_of-cost unimp = refl
cycles_of-cost _ = refl

word_of-to_le_bytes : (w : ℕ) → word_of (to_le_bytes w) ≡ w % 2 ^ 32
unfolding to_le_bytes
word_of-to_le_bytes w = omega arith

-- What `set_reg` leaves, register by register.
set_reg-registers :
    (regs : Regs) (d val : ℕ) {after : Regs}
    → set_reg regs d val ≡ ok after
    → (length after.x ≡ length regs.x)
      × ((r : ℕ) → get_or after.x r 0 ≡ (if r == d && not (d == 0) then val else get_or regs.x r 0))
unfolding set_reg
set_reg-registers regs d val {after} h = elim (Bool-cases (d == 0)) [
  | inl none ↦
      let e : regs ≡ after = ok-inj (rw none at h) in
      rw none (
        ap (λ (k : Regs). length k.x) (sym e),
        λ r. ground (arith, ap (λ (k : Regs). get_or k.x r 0) (sym e)),
      )
  | inr some_reg ↦ elim (Bool-cases (ltb d (length regs.x))) [
    | inl inside ↦
        let e : record regs { x = set regs.x d val } ≡ after =
          ok-inj (rw (some_reg, inside) at h) in
        (
          ap (λ (k : Regs). length k.x) (sym e) ∙ length-set regs.x d val,
          λ r. ap (λ (k : Regs). get_or k.x r 0) (sym e) ∙ rw some_reg (written r (ground arith)),
        )
    | inr outside ↦ let e : panic ≡ ok after = rw (some_reg, outside) at h in cc
  ]
]
  where
    written :
        (r : ℕ)
        → d < length regs.x
        → get_or (set regs.x d val) r 0 ≡ (if r == d && true then val else get_or regs.x r 0)
    written r inside =
        ground (arith, get_or-set_self regs.x d val 0 inside, get_or-set_ne regs.x d r val 0)

module _ {S P : Type 0} (mem : Controller S P) where
  read_inst-load : (s : S) (addr : ℕ) → read_inst mem s addr ≡ Controller.load mem s lw addr
  unfolding read_inst Controller.load load_line
  read_inst-load s addr = refl

  -- The state `w` after an instruction that was evaluated in the state `u`.
  pub record IsExecuted (u w : NexusVm S P) : Type 0 where
    pub word : ℕ
    pub proof : P
    pub fetched : Controller.load mem u.mem lw u.regs.pc ≡ ok (word, proof)
    pub at_pc : w.inst.pc ≡ u.regs.pc
    pub same_word : w.inst.word ≡ nexus_word (word % 2 ^ 32)
    pub parses : parse_u32 w.inst.word ≡ ok (some w.inst.inst)
    pub same_size : length w.regs.x ≡ length u.regs.x
    pub registers :
        (r : ℕ)
        → get_or w.regs.x r 0 ≡ (
            if r == destination w.inst.inst && not (destination w.inst.inst == 0)
            then w.z
            else get_or u.regs.x r 0)
    pub next : transfers w.inst.inst ≡ false → w.regs.pc ≡ (u.regs.pc + 4) % 2 ^ 32
    pub counted : w.trace_len ≡ u.trace_len + 1
    pub cycles : w.cycle_count ≡ u.cycle_count + cost w.inst.inst

  -- An evaluation that succeeds loaded the word at pc, and leaves in the state the instruction that
  -- this word parses to, with ECALL and EBREAK naming x10. Every register is as before but the
  -- destination, unless it is x0, which holds Z; after an instruction that is no jump, branch or UNIMP
  -- pc is four further; one more instruction and its cycles are counted.
  pub eval_inst-IsExecuted :
      (u : NexusVm S P) {t : Unit} {w : NexusVm S P} → eval_inst mem u ≡ (ok t, w) → IsExecuted u w
  eval_inst-IsExecuted u {w} h =
      let step = eval_inst-IsStep mem u h in
      let (size, regs) = set_reg-registers _ _ _ step.written in
      record {
        word = step.word;
        proof = step.proof;
        fetched = sym (read_inst-load u.mem u.regs.pc) ∙ step.fetched;
        at_pc = step.parsed.at_pc;
        same_word = step.parsed.same_word ∙ ap nexus_word (word_of-to_le_bytes step.word);
        parses = step.parsed.word_parses;
        same_size = size;
        registers = regs;
        next = step.falls;
        counted = step.counted;
        cycles = step.cycles ∙ ap (λ c. u.cycle_count + c) (cycles_of-cost w.inst.inst);
      }
