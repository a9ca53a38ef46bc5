-- ===== src/Ccs/Fold.antt =====
-- Fresh witnesses and instances, and their folds (nova/src/ccs/mod.rs).
use nexus_zkvm.Base.{ℕ, ◌+◌, ◌-◌, not, List, [], ◌∷◌, ◌==◌, ◌||◌, if◌then◌else◌, length, replicate}
use nexus_zkvm.Base.Result.{Result, ok, panic, ◌>>=◌}
use nexus_zkvm.Tasks.Heap.{ilog2}
use nexus_zkvm.R1cs.{Ring, combine}
use nexus_zkvm.Ccs.{
  PolyScheme, invalid_witness_length, invalid_input_length, invalid_evaluation_point,
  invalid_targets, Outcome, done, failed, CcsShape, CcsWitness, CcsInstance, LccsInstance,
}

-- The macro `safe_loglike`, where `ilog2` of zero counts as zero.
unfoldable pub safe_loglike : ℕ → ℕ
safe_loglike n = if n == 0 then 0 else ilog2 (n - 1) + 1

-- An ACCS instance.
pub record AccsInstance (F C : Type 0) : Type 0 where
  pub commitment_w : C
  pub v0 : F
  pub io : List F
  pub r_x : List F
  pub r_y : List F
  pub vs : List F
  pub v_z : F

module _ {F : Type 0} where
  unfoldable pub new_ccs_witness : CcsShape F → List F → Outcome (CcsWitness F)
  new_ccs_witness shape w =
      if shape.num_vars == length w then done (record { w = w }) else failed invalid_witness_length

  unfoldable pub new_ccs_instance :
      {C : Type 0} → CcsShape F → C → List F → Outcome (CcsInstance F C)
  new_ccs_instance shape commitment x =
      if length x == 0
      then failed invalid_input_length
      else if shape.num_io == length x
      then done (record { commitment_w = commitment; x = x })
      else failed invalid_input_length

  unfoldable pub new_lccs_instance :
      {C : Type 0} → CcsShape F → C → List F → List F → List F → Outcome (LccsInstance F C)
  new_lccs_instance shape commitment x rs vs =
      if length x == 0 || not (shape.num_io == length x)
      then failed invalid_input_length
      else if not (safe_loglike (shape.num_constraints) == length rs)
      then failed invalid_evaluation_point
      else if not (shape.num_matrices == length vs)
      then failed invalid_targets
      else done (record { commitment_w = commitment; x = x; rs = rs; vs = vs })

  unfoldable pub new_accs_instance :
      {C : Type 0} → C → F → List F → List F → List F → List F → F → Outcome (AccsInstance F C)
  new_accs_instance commitment v0 io r_x r_y vs v_z =
      if length io == 0
      then failed invalid_input_length
      else done (record {
        commitment_w = commitment;
        v0 = v0;
        io = io;
        r_x = r_x;
        r_y = r_y;
        vs = vs;
        v_z = v_z;
      })

  -- `(&x[0], &x[1..])`.
  abbrev pub split_first : List F → Result (F × List F)
  split_first [] = panic
  split_first (x ∷ xs) = ok (x, xs)

module _ {F : Type 0} (ring : Ring F) where
  abbrev pub zero_ccs_witness : CcsShape F → CcsWitness F
  zero_ccs_witness shape = record { w = replicate (shape.num_vars) (ring.nil) }

  -- `iter(xs).zip(ys).map(|(a, b)| *a * *rho + *b * rho_squared)`.
  abbrev pub weigh : F → F → List F → List F → List F
  weigh rho rho_squared [] ys = []
  weigh rho rho_squared (x ∷ xs) [] = []
  weigh rho rho_squared (x ∷ xs) (y ∷ ys) =
      ring.plus (ring.times x rho) (ring.times y rho_squared) ∷ weigh rho rho_squared xs ys

  -- `iter(W1).zip(W2).map(|(a, b)| *rho * *a + rho_squared * *b)`.
  abbrev pub weigh_witness : F → F → List F → List F → List F
  weigh_witness rho rho_squared [] ys = []
  weigh_witness rho rho_squared (x ∷ xs) [] = []
  weigh_witness rho rho_squared (x ∷ xs) (y ∷ ys) =
      ring.plus (ring.times rho x) (ring.times rho_squared y) ∷ weigh_witness rho rho_squared xs ys

  unfoldable pub fold_ccs_witness : CcsWitness F → CcsWitness F → F → Outcome (CcsWitness F)
  fold_ccs_witness w1 w2 rho =
      if length (w1.w) == length (w2.w)
      then done (record { w = weigh_witness rho (ring.times rho rho) (w1.w) (w2.w) })
      else failed invalid_witness_length

  module _ {C P : Type 0} (scheme : PolyScheme F C P) where
    -- What both folds compute once the lengths are checked.
    abbrev pub weigh_instances :
        C → List F → C → List F → F → List F → List F → List F → Result (Outcome (LccsInstance F C))
    weigh_instances comm_w1 ux1 comm_w2 ux2 rho rs sigmas thetas =
        let rho_squared = ring.times rho rho in
        split_first ux1 >>= λ p. split_first ux2 >>= λ q. ok (
          done (record {
            commitment_w =
                scheme.plus (scheme.scale comm_w1 rho) (scheme.scale comm_w2 rho_squared);
            x =
                ring.plus (ring.times (p.0) rho) (ring.times (q.0) rho_squared)
                ∷ weigh rho rho_squared (p.1) (q.1);
            rs = rs;
            vs = weigh rho rho_squared sigmas thetas;
          }))

    -- `LCCSInstance::fold`.
    unfoldable pub fold_ccs :
        LccsInstance F C
        → CcsInstance F C
        → F
        → List F
        → List F
        → List F
        → Result (Outcome (LccsInstance F C))
    fold_ccs u1 u2 rho rs sigmas thetas =
        if not (length (u1.rs) == length rs)
        then ok (failed invalid_evaluation_point)
        else if not (length sigmas == length thetas)
        then ok (failed invalid_targets)
        else weigh_instances (u1.commitment_w) (u1.x) (u2.commitment_w) (u2.x) rho rs sigmas thetas

    unfoldable pub fold_lccs :
        LccsInstance F C
        → LccsInstance F C
        → F
        → List F
        → List F
        → List F
        → Result (Outcome (LccsInstance F C))
    fold_lccs u1 u2 rho sigmas1 sigmas2 merged_rs =
        if not (length (u1.rs) == length (u2.rs)) || not (length (u1.rs) == length merged_rs)
        then ok (failed invalid_evaluation_point)
        else if not (length sigmas1 == length sigmas2) || not (length (u1.vs) == length (u2.vs))
        then ok (failed invalid_targets)
        else if not (length (u1.x) == length (u2.x))
        then ok (failed invalid_input_length)
        else weigh_instances (u1.commitment_w) (u1.x) (u2.commitment_w) (u2.x) rho merged_rs sigmas1
            sigmas2

    -- `ACCSInstance::fold`.
    unfoldable pub fold_accs : AccsInstance F C → AccsInstance F C → F → Outcome (AccsInstance F C)
    fold_accs u1 u2 rho =
        if not (length (u1.io) == length (u2.io))
          || (not (length (u1.r_x) == length (u2.r_x))
              || (not (length (u1.r_y) == length (u2.r_y))
                  || not (length (u1.vs) == length (u2.vs))))
        then failed invalid_input_length
        else done (record {
          commitment_w = scheme.plus (u1.commitment_w) (scheme.scale (u2.commitment_w) rho);
          v0 = ring.plus (u1.v0) (ring.times rho (u2.v0));
          io = combine ring rho (u1.io) (u2.io);
          r_x = u1.r_x;
          r_y = u1.r_y;
          vs = combine ring rho (u1.vs) (u2.vs);
          v_z = ring.plus (u1.v_z) (ring.times rho (u2.v_z));
        })
