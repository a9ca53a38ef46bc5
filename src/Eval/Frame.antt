-- ===== src/Eval/Frame.antt =====
-- What the parts of `eval_inst` leave alone.
use nexus_zkvm.Base.{ℕ, ◌+◌, ◌%◌, ◌^◌, ◌≡◌, ◌∙◌, Bool, true, false, arith, List, subst, sym, ap}
use nexus_zkvm.Base.Result.{Result, ok}
use nexus_zkvm.Rv32.{Rv32, Inst, lui, auipc, jal, jalr, load, alui, alu, ecall, br, unimp}
use nexus_zkvm.Memory.Controller.{Controller, read_inst}
use nexus_zkvm.Parse.Whole.{IsParsed, AreBytes, parse_inst-IsParsed}
use nexus_zkvm.Parse.{parse_inst}
use nexus_zkvm.Eval.Machine.{NexusVm, set_reg}
use nexus_zkvm.Eval.Profile.{handle_profile_cycles, start_profile, end_profile}
use nexus_zkvm.Eval.Step.{
  cycles_of, execute, decode, to_le_bytes, read_at_pc, fetch, retire, check_limit, run_fetched,
  eval_inst, run_syscall, finish_ecall,
}
use nexus_zkvm.Base.Exec.{bind-eq-ok, ◌>>◌}

-- The register that an instruction writes: x0 where it writes none.
abbrev pub destination : Rv32 → ℕ
destination (lui d i) = d
destination (auipc d i) = d
destination (jal d i) = d
destination (jalr d s i) = d
destination (load l d s i) = d
destination (alui a d s i) = d
destination (alu a d s t) = d
destination (ecall d) = d
destination _ = 0

-- Whether an instruction may choose the next pc.
abbrev pub transfers : Rv32 → Bool
transfers (jal d i) = true
transfers (jalr d s i) = true
transfers (br b s t i) = true
transfers unimp = true
transfers _ = false

to_le_bytes-AreBytes : (w : ℕ) → AreBytes (to_le_bytes w)
unfolding to_le_bytes
to_le_bytes-AreBytes w = (omega arith, (omega arith, (omega arith, (omega arith, tt))))

module _ {S P : Type 0} where
  -- The registers, the instruction and the counters are the same.
  pub record IsFramed (u v : NexusVm S P) : Type 0 where
    pub same_regs : v.regs ≡ u.regs
    pub same_inst : v.inst ≡ u.inst
    pub same_len : v.trace_len ≡ u.trace_len
    pub same_cycles : v.cycle_count ≡ u.cycle_count

  start_profile-IsFramed : (name : List ℕ) (u : NexusVm S P) → IsFramed u (start_profile name u).1
  unfolding start_profile
  start_profile-IsFramed name u = ground arith

  end_profile-IsFramed : (name : List ℕ) (u : NexusVm S P) → IsFramed u (end_profile name u).1
  unfolding end_profile
  end_profile-IsFramed name u = ground arith

  profile-IsFramed : (u : NexusVm S P) → IsFramed u (handle_profile_cycles u).1
  unfolding handle_profile_cycles
  profile-IsFramed u = ground arith

module _ {S P : Type 0} (mem : Controller S P) where
  finish_ecall-frame :
      (d val : ℕ) (u : NexusVm S P) {t : ℕ × ℕ} {v : NexusVm S P}
      → finish_ecall mem d val u ≡ (ok t, v)
      → IsFramed u v × (t.0 ≡ d)
  unfolding finish_ecall
  finish_ecall-frame d val u h = ground (arith, profile-IsFramed (record u { z = val }))

  finish_ecall-falls :
      (d val : ℕ) (u : NexusVm S P) {t : ℕ × ℕ} {v : NexusVm S P}
      → finish_ecall mem d val u ≡ (ok t, v)
      → t.1 ≡ 0
  unfolding finish_ecall
  finish_ecall-falls d val u h = ground arith

  execute-falls :
      (i : Rv32) (u : NexusVm S P) {t : ℕ × ℕ} {v : NexusVm S P}
      → transfers i ≡ false
      → execute mem i u ≡ (ok t, v)
      → t.1 ≡ 0
  unfolding execute
  execute-falls (jal d i) u quiet h = cc
  execute-falls (jalr d r i) u quiet h = cc
  execute-falls (br b r t i) u quiet h = cc
  execute-falls unimp u quiet h = cc
  execute-falls (ecall d) u quiet h =
      let (val, u', ran, rest) = bind-eq-ok (run_syscall mem) (finish_ecall mem d) u h in
      finish_ecall-falls d val u' rest
  execute-falls _ u quiet h = ground arith

  execute-frame :
      (i : Rv32) (u : NexusVm S P) {t : ℕ × ℕ} {v : NexusVm S P}
      → execute mem i u ≡ (ok t, v)
      → IsFramed u v × (t.0 ≡ destination i)
  unfolding execute
  execute-frame (lui d i) u h = ground arith
  execute-frame (ecall d) u h =
      let (val, u', ran, rest) = bind-eq-ok (run_syscall mem) (finish_ecall mem d) u h in
      ground (arith, finish_ecall-frame d val u' rest)
  execute-frame _ u h = ground arith

  -- A fetch that succeeds leaves the registers, the memory and the counters alone, and its
  -- instruction was parsed at pc.
  pub record IsFetched (u v : NexusVm S P) : Type 0 where
    pub word : ℕ
    pub proof : P
    pub fetched : read_inst mem u.mem u.regs.pc ≡ ok (word, proof)
    pub parsed : IsParsed u.regs.pc (to_le_bytes word) v.inst
    pub kept_regs : v.regs ≡ u.regs
    pub kept_len : v.trace_len ≡ u.trace_len
    pub kept_cycles : v.cycle_count ≡ u.cycle_count
    pub same_mem : v.mem ≡ u.mem

  decode-IsFetched :
      (word : ℕ) (proof : P) (u : NexusVm S P) {t : Unit} {v : NexusVm S P}
      → read_inst mem u.mem u.regs.pc ≡ ok (word, proof)
      → decode mem (word, proof) u ≡ (ok t, v)
      → IsFetched u v
  unfolding decode
  decode-IsFetched word proof u {v} fetched h =
      let parsed : parse_inst u.regs.pc (to_le_bytes word) ≡ ok v.inst = ground arith in
      record {
        word = word;
        proof = proof;
        fetched = fetched;
        parsed =
            (parse_inst-IsParsed u.regs.pc (to_le_bytes word) (v.inst)
                (to_le_bytes-AreBytes word)).0
              parsed;
        kept_regs = ground arith;
        kept_len = ground arith;
        kept_cycles = ground arith;
        same_mem = ground arith;
      }

  fetch-IsFetched :
      (u : NexusVm S P) {t : Unit} {v : NexusVm S P} → fetch mem u ≡ (ok t, v) → IsFetched u v
  unfolding fetch
  fetch-IsFetched u {v} h =
      let ((word, proof), u', read, rest) = bind-eq-ok (read_at_pc mem) (decode mem) u h in
      let same : u' ≡ u = sym (ap (λ (p : Result (ℕ × P) × NexusVm S P). p.1) read) in
      decode-IsFetched word proof u (ap (λ (p : Result (ℕ × P) × NexusVm S P). p.0) read)
        (subst (λ s. decode mem (word, proof) s ≡ (ok _, v)) same rest)

  -- The registers after `retire` are those before it, at the new pc and with Z written.
  pub record IsRetired (rd pc : ℕ) (v w : NexusVm S P) : Type 0 where
    pub written : set_reg (record v.regs { pc = w.regs.pc }) rd v.z ≡ ok w.regs
    pub same_inst : w.inst ≡ v.inst
    pub same_z : w.z ≡ v.z
    pub counted : w.trace_len ≡ v.trace_len + 1
    pub cycles : w.cycle_count ≡ v.cycle_count + cycles_of v.inst.inst
    pub next : pc ≡ 0 → w.regs.pc ≡ (v.inst.pc + v.inst.len) % 2 ^ 32

  retire-IsRetired :
      (rd pc : ℕ) (v : NexusVm S P) {t : Unit} {w : NexusVm S P}
      → retire mem (rd, pc) v ≡ (ok t, w)
      → IsRetired rd pc v w
  unfolding retire set_reg
  retire-IsRetired rd pc v h = ground arith

  check_limit-ok :
      (u : NexusVm S P) {t : Unit} {v : NexusVm S P} → check_limit mem u ≡ (ok t, v) → v ≡ u
  unfolding check_limit
  check_limit-ok u h = sym (ap (λ (p : Result {0} Unit × NexusVm S P). p.1) h)

  -- What one evaluated instruction says about the states before and after it.
  pub record IsStep (u w : NexusVm S P) : Type 0 where
    pub word : ℕ
    pub proof : P
    pub fetched : read_inst mem u.mem u.regs.pc ≡ ok (word, proof)
    pub parsed : IsParsed u.regs.pc (to_le_bytes word) w.inst
    pub written :
        set_reg (record u.regs { pc = w.regs.pc }) (destination w.inst.inst) w.z ≡ ok w.regs
    pub counted : w.trace_len ≡ u.trace_len + 1
    pub cycles : w.cycle_count ≡ u.cycle_count + cycles_of w.inst.inst
    pub falls : transfers w.inst.inst ≡ false → w.regs.pc ≡ (u.regs.pc + 4) % 2 ^ 32

  run_fetched-IsStep :
      (u v : NexusVm S P) {t : Unit} {w : NexusVm S P}
      → IsFetched u v
      → run_fetched mem v ≡ (ok t, w)
      → IsStep u w
  unfolding run_fetched
  run_fetched-IsStep u v {w} f h =
      let ((rd, pc), v', ran, rest) = bind-eq-ok (execute mem v.inst.inst) (retire mem) v h in
      let frame = execute-frame v.inst.inst v ran in
      let done = retire-IsRetired rd pc v' rest in
      let same : w.inst ≡ v.inst = done.same_inst ∙ frame.0.same_inst in
      record {
        word = f.word;
        proof = f.proof;
        fetched = f.fetched;
        parsed = subst (λ i. IsParsed u.regs.pc (to_le_bytes f.word) i) (sym same) f.parsed;
        written = ground (arith, f.kept_regs, frame, done);
        counted = omega (arith, done.counted, frame.0.same_len, f.kept_len);
        cycles =
            ground
              (arith, done.cycles, frame.0.same_cycles, f.kept_cycles, frame.0.same_inst, same);
        falls = λ quiet. ground (
          arith,
          done.next,
          execute-falls v.inst.inst v (ap (λ (i : Inst). transfers (i.inst)) (sym same) ∙ quiet)
              ran,
          frame,
          f.parsed,
        );
      }

  pub eval_inst-IsStep :
      (u : NexusVm S P) {t : Unit} {w : NexusVm S P} → eval_inst mem u ≡ (ok t, w) → IsStep u w
  unfolding eval_inst
  eval_inst-IsStep u {w} h =
      let (_, u', checked, rest) =
        bind-eq-ok (check_limit mem) (λ _. fetch mem >> run_fetched mem) u h in
      let (_, v, fetched, ran) = bind-eq-ok (fetch mem) (λ _. run_fetched mem) u' rest in
      subst (λ s. IsStep s w) (check_limit-ok u checked)
        (run_fetched-IsStep u' v (fetch-IsFetched u' fetched) ran)
