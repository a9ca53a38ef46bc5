-- ===== src/Trace/Blocks.antt =====
-- Replaying a whole block with its iterator.
use nexus_zkvm.Base.{
  ℕ, zero, suc, ◌+◌, ◌≡◌, refl, sym, ap, ◌∙◌, subst, arith, none, some, List, [], ◌∷◌, length,
  length-set, get_or-set_ne, drop, drop-cons, get_elem?, get_elem?-past,
}
use nexus_zkvm.Base.Result.{ok}
use native.Mathlib.Numerals.{add-one}
use nexus_zkvm.Base.Exec.{bind-eq-ok, ◌>>=◌, pure}
use nexus_zkvm.Rv32.{Rv32}
use nexus_zkvm.Parse.{parse_u32}
use nexus_zkvm.Memory.Controller.{Controller}
use nexus_zkvm.Eval.Machine.{Regs, NexusVm, set_reg}
use nexus_zkvm.Trace.Record.{Step, Block, step, steps, k_step}
use nexus_zkvm.Trace.Witness.{Witness, BlockIter, next_witness, next, iter}
use nexus_zkvm.Trace.Operands.{IsQuiet}
use nexus_zkvm.Trace.Replay.{IsRegs, IsRecorded, step-IsRecorded, next_witness-step}

-- Writing a register keeps 32 registers, and x0 at 0.
pub set_reg-IsRegs :
    (regs : Regs) (r v : ℕ) {regs' : Regs}
    → IsRegs regs
    → set_reg regs r v ≡ ok regs'
    → IsRegs regs'
unfolding set_reg
set_reg-IsRegs regs r v i h = ground (arith, length-set regs.x r v, get_or-set_ne regs.x r 0 v 0)

-- The word does not name a register to write where the machine writes none.
abbrev pub IsQuietWord : ℕ → Type 0
IsQuietWord word = (inst : Rv32) → parse_u32 word ≡ ok (some inst) → IsQuiet inst word

abbrev pub AreQuiet : {P : Type 0} → List (Step P) → Type 0
AreQuiet [] = Unit
AreQuiet (s ∷ ss) = IsQuietWord s.inst × AreQuiet ss

module _ {P : Type 0} (default_proof : P) where
  -- Calls of the iterator from `it` return the witnesses `ws` and leave it at `last`.
  abbrev pub Yields : List (Witness P) → BlockIter P → BlockIter P → Type 0
  Yields [] it last = it ≡ last
  Yields (w ∷ ws) it last =
      (mid : BlockIter P) × (next default_proof it ≡ ok (some w, mid)) × Yields ws mid last

  next-some :
      (it : BlockIter P) {s : Step P} {w : Witness P} {regs' : Regs}
      → get_elem? it.block.steps it.index ≡ some s
      → next_witness default_proof it.regs s ≡ ok (w, regs')
      → next default_proof it ≡ ok (some w, record it { regs = regs'; index = suc it.index })
  unfolding next
  next-some it {s} e h = rw (e, h, add-one)

  next-none :
      (it : BlockIter P)
      → get_elem? it.block.steps it.index ≡ none
      → next default_proof it ≡ ok (none, it)
  unfolding next
  next-none it e = rw e

module _ {S P : Type 0} (mem : Controller S P) (default_proof : P) (b : Block P) where
  abbrev from : Regs → ℕ → BlockIter P
  from regs i = record { regs = regs; block = b; index = i }

  -- What an iterator at the registers `regs` and the index `i` yields up to the end.
  abbrev Replays : Regs → ℕ → ℕ → Regs → Type 0
  Replays regs i k regs' =
      (ws : List (Witness P)) × (length ws ≡ k)
      × Yields default_proof ws (from regs i) (from regs' (i + k))

  Replays-cons :
      (regs : Regs) (i k : ℕ) {s : Step P} {wit : Witness P} {mid last : Regs}
      → get_elem? b.steps i ≡ some s
      → next_witness default_proof regs s ≡ ok (wit, mid)
      → Replays mid (suc i) k last
      → Replays regs i (suc k) last
  Replays-cons regs i k {wit = wit} {mid} {last} e h (ws, len, yields) = (
    wit ∷ ws,
    ap suc len,
    (
      from mid (suc i),
      next-some default_proof (from regs i) e h,
      subst (λ n. Yields default_proof ws (from mid (suc i)) (from last n)) (omega arith) yields,
    ),
  )

  IsQuiet-recorded :
      {u w : NexusVm S P} {s : Step P}
      → IsQuietWord s.inst
      → IsRecorded mem default_proof u w s
      → IsQuiet w.inst.inst w.inst.word
  IsQuiet-recorded {w = w} q rec =
      rw rec.same_word at q w.inst.inst rec.evaluated.parsed.word_parses

  steps-cons :
      (k : ℕ) (u : NexusVm S P) {ss : List (Step P)} {w : NexusVm S P}
      → steps mem (suc k) u ≡ (ok ss, w)
      → (s : Step P) × (v : NexusVm S P) × (rest : List (Step P)) × (step mem u ≡ (ok s, v))
        × (steps mem k v ≡ (ok rest, w))
        × (ss ≡ s ∷ rest)
  unfolding steps
  steps-cons k u {w = w} h =
      let (s, v, first, h') =
        bind-eq-ok (step mem) (λ s. steps mem k >>= λ rest. pure (s ∷ rest)) u h in
      let (rest, v', others, end) = bind-eq-ok (steps mem k) (λ rest. pure (s ∷ rest)) v h' in
      (
        s,
        v,
        rest,
        first,
        subst (λ t. steps mem k v ≡ (ok rest, t)) (ground arith) others,
        ground arith,
      )

  steps-Replays :
      (k i : ℕ) (u : NexusVm S P) {ss : List (Step P)} {w : NexusVm S P}
      → IsRegs u.regs
      → AreQuiet ss
      → steps mem k u ≡ (ok ss, w)
      → drop i b.steps ≡ ss
      → Replays u.regs i k w.regs
  unfolding steps
  steps-Replays zero i u r q h e = ([], refl, ground arith)
  steps-Replays (suc k) i u {ss} {w} r q h e =
      let (s, v, rest, first, others, same) = steps-cons k u h in
      let quiet = subst AreQuiet same q in
      let at = drop-cons i b.steps (e ∙ same) in
      let rec = step-IsRecorded mem default_proof u first in
      let (wit, found, _) =
        next_witness-step mem default_proof u r (IsQuiet-recorded quiet.0 rec) first in
      Replays-cons u.regs i k at.0 found (
        steps-Replays k (suc i) v
          (set_reg-IsRegs _ _ _ (record { size = r.size; x0 = r.x0 }) rec.evaluated.written) quiet.1
          others at.1)

  steps-length :
      (k : ℕ) (u : NexusVm S P) {ss : List (Step P)} {w : NexusVm S P}
      → steps mem k u ≡ (ok ss, w)
      → length ss ≡ k
  unfolding steps
  steps-length zero u h = ground arith
  steps-length (suc k) u h =
      let (s, v, rest, _, others, same) = steps-cons k u h in
      ap length same ∙ ap suc (steps-length k v others)

module _ {S P : Type 0} (mem : Controller S P) (default_proof : P) where
  k_step-steps :
      (k : ℕ) (u : NexusVm S P) {b : Block P} {w : NexusVm S P}
      → k_step mem k u ≡ (ok b, w)
      → (steps mem k u ≡ (ok b.steps, w)) × (b.regs ≡ u.regs)
  unfolding k_step
  k_step-steps k u {b} {w} h =
      let (ss, v, ran, end) =
        bind-eq-ok (steps mem k) (λ ss. pure (record { regs = u.regs; steps = ss })) u h in
      (ran ∙ ground arith, ground arith)

  -- Where `k_step` records a block from a machine with 32 registers and x0 at 0, whose EBREAK and UNIMP
  -- words name x0, the block's iterator returns k witnesses and then no more, and its registers
  -- at the end are the machine's.
  pub iter-k_step :
      (k : ℕ) (u : NexusVm S P) {b : Block P} {w : NexusVm S P}
      → IsRegs u.regs
      → AreQuiet b.steps
      → k_step mem k u ≡ (ok b, w)
      → (ws : List (Witness P)) × (last : BlockIter P) × (length ws ≡ k)
        × Yields default_proof ws (iter default_proof b) last
        × (last.regs ≡ w.regs)
        × (next default_proof last ≡ ok (none, last))
  iter-k_step k u {b} {w} r q h =
      let (ran, start) = k_step-steps k u h in
      let (ws, len, yields) = steps-Replays mem default_proof b k 0 u r q ran refl in
      let last = from mem default_proof b w.regs (0 + k) in
      (
        ws,
        last,
        len,
        subst (λ g. Yields default_proof ws (from mem default_proof b g 0) last) (sym start) yields,
        refl,
        next-none default_proof last (
            get_elem?-past b.steps (0 + k)
              (omega (arith, steps-length mem default_proof b k u ran))),
      )
