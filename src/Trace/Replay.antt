-- ===== src/Trace/Replay.antt =====
-- Replaying a recorded block gives back the machine's registers, step by step.
use nexus_zkvm.Base.{ℕ, ◌<◌, ◌≡◌, refl, arith, some, length, get_or, get_elem?-get_or}
use nexus_zkvm.Base.Result.{ok, index}
use nexus_zkvm.Base.Exec.{bind-eq-ok}
use nexus_zkvm.Rv32.{Rv32, index_j}
use nexus_zkvm.Parse.{parse_u32}
use nexus_zkvm.Memory.Controller.{Controller}
use nexus_zkvm.Eval.Machine.{Regs, NexusVm, get_reg, set_reg}
use nexus_zkvm.Eval.Step.{eval_inst}
use nexus_zkvm.Eval.Frame.{IsStep, eval_inst-IsStep}
use nexus_zkvm.Trace.Record.{Step, step, finish_step}
use nexus_zkvm.Trace.Witness.{Witness, parse_alt, filled, next_witness, pc_after}
use nexus_zkvm.Trace.Operands.{
  HasOperands, IsQuiet, named_destination-IsQuiet, parse_alt-HasOperands,
}

-- A register file: 32 registers, and x0 holds 0.
pub record IsRegs (regs : Regs) : Type 0 where
  pub size : length regs.x ≡ 32
  pub x0 : get_or regs.x 0 0 ≡ 0

module _ {S P : Type 0} (mem : Controller S P) (default_proof : P) where
  -- What a witness says of the step from `u` to `w`.
  pub record Describes (u w : NexusVm S P) (wit : Witness P) : Type 0 where
    pub before : wit.regs ≡ u.regs
    pub word : wit.inst ≡ w.inst.word
    pub selector : wit.j ≡ index_j w.inst.inst
    pub operands : HasOperands w.inst.inst w.inst.word wit
    pub first : get_reg u.regs wit.rs1 ≡ ok wit.x
    pub second : get_reg u.regs wit.rs2 ≡ ok wit.y
    pub result : wit.z ≡ w.z
    pub next_pc : wit.pc ≡ w.regs.pc

  -- The step that is recorded after an evaluation.
  pub record IsRecorded (u w : NexusVm S P) (s : Step P) : Type 0 where
    pub evaluated : IsStep mem u w
    pub same_word : s.inst ≡ w.inst.word
    pub same_z : s.z ≡ w.z
    pub same_pc : pc_after u.regs.pc s.pc ≡ ok w.regs.pc

  finish_step-pc :
      (old : ℕ) (v : NexusVm S P) {s : Step P} {w : NexusVm S P}
      → finish_step mem old v ≡ (ok s, w)
      → (w ≡ v) × (s.inst ≡ w.inst.word) × (s.z ≡ w.z) × (pc_after old s.pc ≡ ok w.regs.pc)
  unfolding finish_step
  finish_step-pc old v h = ground arith

  next_witness-ok :
      (regs : Regs) (s : Step P) {inst : Rv32} {w : Witness P} {x y pc : ℕ} {regs' : Regs}
      → parse_u32 s.inst ≡ ok (some inst)
      → parse_alt default_proof regs s.inst ≡ ok w
      → index regs.x w.rs1 ≡ ok x
      → index regs.x w.rs2 ≡ ok y
      → pc_after regs.pc s.pc ≡ ok pc
      → set_reg (record regs { pc = pc }) w.rd s.z ≡ ok regs'
      → next_witness default_proof regs s ≡ ok (filled default_proof regs s inst w x y pc, regs')
  unfolding next_witness
  next_witness-ok regs s p a x y pc r = ground arith

  index-get_reg :
      (regs : Regs) (r : ℕ)
      → IsRegs regs
      → r < 32
      → (index regs.x r ≡ ok (get_or regs.x r 0)) × (get_reg regs r ≡ ok (get_or regs.x r 0))
  unfolding get_reg
  index-get_reg regs r i h = ground (arith, get_elem?-get_or regs.x r 0)

  module _ {u w : NexusVm S P} {s : Step P} (i : IsRegs u.regs)
      (quiet : IsQuiet w.inst.inst w.inst.word) (rec : IsRecorded u w s) where
    -- The witness that `next` returns, where `parse_alt` returned `wit`.
    abbrev completed : Witness P → Witness P
    completed wit =
        filled default_proof u.regs s w.inst.inst wit (get_or u.regs.x wit.rs1 0)
          (get_or u.regs.x wit.rs2 0) w.regs.pc

    completed-next :
        (wit : Witness P)
        → parse_alt default_proof u.regs w.inst.word ≡ ok wit
        → HasOperands w.inst.inst w.inst.word wit
        → next_witness default_proof u.regs s ≡ ok (completed wit, w.regs)
    completed-next wit found has =
        next_witness-ok u.regs s {w = wit} (rw rec.same_word rec.evaluated.parsed.word_parses)
          (rw rec.same_word found) (index-get_reg u.regs wit.rs1 i has.rs1_lt).0
          (index-get_reg u.regs wit.rs2 i has.rs2_lt).0 rec.same_pc
          (rw (rec.same_z, has.dest, named_destination-IsQuiet w.inst.inst w.inst.word quiet)
            rec.evaluated.written)

    completed-Describes :
        (wit : Witness P) → HasOperands w.inst.inst w.inst.word wit → Describes u w (completed wit)
    completed-Describes wit has = record {
      before = refl;
      word = rec.same_word;
      selector = refl;
      operands = record {
        source1 = has.source1;
        source2 = has.source2;
        immediate = has.immediate;
        dest = has.dest;
        rs1_lt = has.rs1_lt;
        rs2_lt = has.rs2_lt;
      };
      first = (index-get_reg u.regs wit.rs1 i has.rs1_lt).1;
      second = (index-get_reg u.regs wit.rs2 i has.rs2_lt).1;
      result = rec.same_z;
      next_pc = refl;
    }

    replay_recorded :
        (wit : Witness P) × (next_witness default_proof u.regs s ≡ ok (wit, w.regs))
        × Describes u w wit
    replay_recorded =
        let (wit, found, has) =
          parse_alt-HasOperands default_proof u.regs w.inst.word i.size
            rec.evaluated.parsed.word_parses in
        (completed wit, completed-next wit found has, completed-Describes wit has)

  pub step-IsRecorded :
      (u : NexusVm S P) {s : Step P} {w : NexusVm S P} → step mem u ≡ (ok s, w) → IsRecorded u w s
  unfolding step
  step-IsRecorded u h =
      let (_, v, ran, rest) = bind-eq-ok (eval_inst mem) (λ _. finish_step mem u.regs.pc) u h in
      let (same, word, z, pc) = finish_step-pc u.regs.pc v rest in
      record {
        evaluated = rw same (eval_inst-IsStep mem u ran);
        same_word = word;
        same_z = z;
        same_pc = pc;
      }

  -- Where `step` records a step of a machine with 32 registers and x0 at 0, `BlockIter::next` rebuilds
  -- from the registers before it a witness of exactly that step: its operands, the values of its
  -- source registers, its result and its next pc; and it goes on with the machine's registers
  -- after the step. An EBREAK or UNIMP word must name x0.
  pub next_witness-step :
      (u : NexusVm S P) {s : Step P} {w : NexusVm S P}
      → IsRegs u.regs
      → IsQuiet w.inst.inst w.inst.word
      → step mem u ≡ (ok s, w)
      → (wit : Witness P) × (next_witness default_proof u.regs s ≡ ok (wit, w.regs))
        × Describes u w wit
  next_witness-step u i quiet h = replay_recorded i quiet (step-IsRecorded u h)
