-- ===== src/R1cs/Fold.antt =====
-- Folding (nova/src/r1cs/mod.rs): `fold`, `fold_with_relaxed`, and the cross-terms.
use nexus_zkvm.Base.{ℕ, zero, suc, ◌+◌, List, [], ◌∷◌, ◌++◌, map, ◌==◌, ◌&&◌, if◌then◌else◌, length}
use nexus_zkvm.Base.Result.{Result, ok, ◌>>=◌, index}
use nexus_zkvm.R1cs.{
  Ring, combine, Commitment, invalid_witness_length, Answer, okay, fail, R1csShape, R1csWitness,
  R1csInstance, RelaxedR1csWitness, RelaxedR1csInstance,
}
use nexus_zkvm.R1cs.Satisfied.{products}

module _ {F : Type 0} (ring : Ring F) where
  abbrev pub square : F → F
  square r = ring.times r r

  -- `zip(E1, E2).zip(T).map(|((e1, e2), t)| *e1 + *r * *t + r_square * e2)`.
  abbrev pub combine_errors : F → List F → List F → List F → List F
  combine_errors r [] es ts = []
  combine_errors r (e1 ∷ es1) [] ts = []
  combine_errors r (e1 ∷ es1) (e2 ∷ es2) [] = []
  combine_errors r (e1 ∷ es1) (e2 ∷ es2) (t ∷ ts) =
      ring.plus (ring.plus e1 (ring.times r t)) (ring.times (square r) e2)
      ∷ combine_errors r es1 es2 ts

  -- `RelaxedR1CSWitness::fold`.
  unfoldable pub fold_witness :
      RelaxedR1csWitness F → R1csWitness F → List F → F → Answer (RelaxedR1csWitness F)
  fold_witness w1 w2 t r =
      if length (w1.w) == length (w2.w)
      then okay (record { w = combine ring r (w1.w) (w2.w); e = combine ring r (w1.e) t })
      else fail invalid_witness_length

  -- `RelaxedR1CSWitness::fold_with_relaxed`.
  unfoldable pub fold_witness_with_relaxed :
      RelaxedR1csWitness F → RelaxedR1csWitness F → List F → F → Answer (RelaxedR1csWitness F)
  fold_witness_with_relaxed w1 w2 t r =
      if length (w1.w) == length (w2.w) && length (w1.e) == length (w2.e)
      then okay (record { w = combine ring r (w1.w) (w2.w); e = combine_errors r (w1.e) (w2.e) t })
      else fail invalid_witness_length

  -- `iter(xs).zip(ys).map(|(&a, &b)| a * b)`.
  abbrev pub circle : List F → List F → List F
  circle [] ys = []
  circle (x ∷ xs) [] = []
  circle (x ∷ xs) (y ∷ ys) = ring.times x y ∷ circle xs ys

  -- `(i..i + n).map(|i| p[i] + q[i] - s[i] - v[i])`.
  unfoldable pub cross_terms : List F → List F → List F → List F → ℕ → ℕ → Result (List F)
  cross_terms p q s v i zero = ok []
  cross_terms p q s v i (suc n) = index p i >>= λ a. index q i >>= λ b. index s i >>= λ c.
      index v i >>= λ d. cross_terms p q s v (i + 1) n >>= λ rest.
      ok (ring.minus (ring.minus (ring.plus a b) c) d ∷ rest)

  -- The cross-term of the products of two vectors, with the scalars of both.
  unfoldable pub cross_with_relaxed :
      F → F → List F × List F × List F → List F × List F × List F → Result (List F)
  cross_with_relaxed u1 u2 (az1, bz1, cz1) (az2, bz2, cz2) =
      cross_terms (circle az1 bz2) (circle az2 bz1) (map (ring.times u1) cz2)
        (map (ring.times u2) cz1) 0 (length (circle az1 bz2))

  -- The same where the second scalar is one.
  unfoldable pub cross : F → List F × List F × List F → List F × List F × List F → Result (List F)
  cross u1 (az1, bz1, cz1) (az2, bz2, cz2) =
      cross_terms (circle az1 bz2) (circle az2 bz1) (map (ring.times u1) cz2) cz1 0
        (length (circle az1 bz2))

module _ {F C : Type 0} (ring : Ring F) (scheme : Commitment F ring C) where
  -- `RelaxedR1CSInstance::fold`, which never fails.
  unfoldable pub fold : RelaxedR1csInstance F C → R1csInstance F C → C → F → RelaxedR1csInstance F C
  fold u1 u2 comm_t r = record {
    commitment_w = scheme.plus (u1.commitment_w) (scheme.scale (u2.commitment_w) r);
    commitment_e = scheme.plus (u1.commitment_e) (scheme.scale comm_t r);
    x = combine ring r (u1.x) (u2.x);
  }

  -- `RelaxedR1CSInstance::fold_with_relaxed`, which never fails.
  unfoldable pub fold_with_relaxed :
      RelaxedR1csInstance F C → RelaxedR1csInstance F C → C → F → RelaxedR1csInstance F C
  fold_with_relaxed u1 u2 comm_t r = record {
    commitment_w = scheme.plus (u1.commitment_w) (scheme.scale (u2.commitment_w) r);
    commitment_e =
        scheme.plus (scheme.plus (u1.commitment_e) (scheme.scale comm_t r))
          (scheme.scale (u2.commitment_e) (square ring r));
    x = combine ring r (u1.x) (u2.x);
  }

  -- `commit_T`, which never answers with an error.
  unfoldable pub commit_t :
      R1csShape F
      → RelaxedR1csInstance F C
      → RelaxedR1csWitness F
      → R1csInstance F C
      → R1csWitness F
      → Result (List F × C)
  commit_t shape u1 w1 u2 w2 = products ring shape (u1.x ++ w1.w) >>= λ z1.
      products ring shape (u2.x ++ w2.w) >>= λ z2.
      index (u1.x) 0 >>= λ s1. cross ring s1 z1 z2 >>= λ t. ok (t, scheme.commit t)

  unfoldable pub commit_t_with_relaxed :
      R1csShape F
      → RelaxedR1csInstance F C
      → RelaxedR1csWitness F
      → RelaxedR1csInstance F C
      → RelaxedR1csWitness F
      → Result (List F × C)
  commit_t_with_relaxed shape u1 w1 u2 w2 = products ring shape (u1.x ++ w1.w) >>= λ z1.
      products ring shape (u2.x ++ w2.w) >>= λ z2. index (u1.x) 0 >>= λ s1.
      index (u2.x) 0 >>= λ s2. cross_with_relaxed ring s1 s2 z1 z2 >>= λ t. ok (t, scheme.commit t)
