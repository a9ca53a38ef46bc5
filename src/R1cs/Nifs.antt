-- ===== src/R1cs/Nifs.antt =====
-- The non-interactive folding of two relaxed pairs (nova/src/folding/nova/nifs.rs). The random oracle
-- is third-party code: a parameter.
use nexus_zkvm.Base.{◌≡◌, refl, List}
use nexus_zkvm.Base.Result.{Result, ok, ◌>>=◌, index}
use nexus_zkvm.R1cs.{
  Ring, Commitment, Answer, okay, fail, R1csShape, RelaxedR1csWitness, RelaxedR1csInstance,
}
use nexus_zkvm.R1cs.Satisfied.{is_relaxed_satisfied}
use nexus_zkvm.R1cs.Fold.{fold_with_relaxed, fold_witness_with_relaxed, commit_t_with_relaxed}
use nexus_zkvm.R1cs.Folded.{IsShape, commit_t_with_relaxed-folds}

-- A sponge with states `S`. A squeeze of one size gives an element.
pub record RandomOracle (F C S : Type 0) : Type 0 where
  pub absorb_instance : RelaxedR1csInstance F C → S → S
  pub absorb_commitment : C → S → S
  pub squeeze : S → List F × S
  pub squeezes : (s : S) → (r : F) × (index (squeeze s).0 0 ≡ ok r)

module _ {F C S : Type 0} (ring : Ring F) (scheme : Commitment F ring C)
    (oracle : RandomOracle F C S) where
  -- What both sides absorb, and what they squeeze.
  abbrev pub absorbed : RelaxedR1csInstance F C → RelaxedR1csInstance F C → S → S
  absorbed u1 u2 s = oracle.absorb_instance u2 (oracle.absorb_instance u1 s)

  abbrev pub challenge : C → S → Result (F × S)
  challenge comm_t s =
      let drawn = oracle.squeeze (oracle.absorb_commitment comm_t s) in
      index drawn.0 0 >>= λ r. ok (r, drawn.1)

  -- The proof, the folded pair, and the state of the oracle after.
  abbrev pub proven :
      C
      → RelaxedR1csInstance F C
      → S
      → Answer (RelaxedR1csWitness F)
      → Answer (C × RelaxedR1csInstance F C × RelaxedR1csWitness F) × S
  proven comm_t u s (okay w) = (okay (comm_t, u, w), s)
  proven comm_t u s (fail e) = (fail e, s)

  unfoldable pub prove_with_relaxed :
      R1csShape F
      → RelaxedR1csInstance F C
      → RelaxedR1csWitness F
      → RelaxedR1csInstance F C
      → RelaxedR1csWitness F
      → S
      → Result (Answer (C × RelaxedR1csInstance F C × RelaxedR1csWitness F) × S)
  prove_with_relaxed shape u1 w1 u2 w2 s =
      commit_t_with_relaxed ring scheme shape u1 w1 u2 w2 >>= λ t.
      challenge (t.1) (absorbed u1 u2 s) >>= λ c. ok (
        proven (t.1) (fold_with_relaxed ring scheme u1 u2 (t.1) (c.0)) (c.1)
          (fold_witness_with_relaxed ring w1 w2 (t.0) (c.0)))

  unfoldable pub verify_with_relaxed :
      C
      → RelaxedR1csInstance F C
      → RelaxedR1csInstance F C
      → S
      → Result (RelaxedR1csInstance F C × S)
  verify_with_relaxed comm_t u1 u2 s = challenge comm_t (absorbed u1 u2 s) >>= λ c.
      ok (fold_with_relaxed ring scheme u1 u2 comm_t (c.0), c.1)

  -- In a shape whose matrices have a row for each constraint, the prover folds two accepted relaxed
  -- pairs; the test accepts the folded pair, and the verifier, from the same state of the oracle,
  -- computes the same folded instance and ends in the same state.
  pub prove-verify :
      (shape : R1csShape F) (u1 u2 : RelaxedR1csInstance F C) (w1 w2 : RelaxedR1csWitness F) (s : S)
      → IsShape shape
      → is_relaxed_satisfied ring scheme shape u1 w1 ≡ ok (okay tt)
      → is_relaxed_satisfied ring scheme shape u2 w2 ≡ ok (okay tt)
      → (comm_t : C) × (u : RelaxedR1csInstance F C) × (w : RelaxedR1csWitness F) × (s' : S)
        × (prove_with_relaxed shape u1 w1 u2 w2 s ≡ ok (okay (comm_t, u, w), s'))
        × (verify_with_relaxed comm_t u1 u2 s ≡ ok (u, s'))
        × (is_relaxed_satisfied ring scheme shape u w ≡ ok (okay tt))
  unfolding prove_with_relaxed verify_with_relaxed
  prove-verify shape u1 u2 w1 w2 s i h1 h2 =
      let (t, comm_t, crossed, folds) =
        commit_t_with_relaxed-folds ring scheme shape u1 u2 w1 w2 i h1 h2 in
      let (r, drawn) = oracle.squeezes (oracle.absorb_commitment comm_t (absorbed u1 u2 s)) in
      let (w, folded, satisfied) = folds r in
      (
        comm_t,
        fold_with_relaxed ring scheme u1 u2 comm_t r,
        w,
        (oracle.squeeze (oracle.absorb_commitment comm_t (absorbed u1 u2 s))).1,
        rw (crossed, drawn, folded) refl,
        rw drawn refl,
        satisfied,
      )
