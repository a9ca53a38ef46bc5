-- ===== src/R1cs/Satisfied.antt =====
-- Shapes, the two tests of satisfaction, and fresh instances and witnesses (nova/src/r1cs/mod.rs).
use nexus_zkvm.Base.{
  ℕ, zero, suc, ◌+◌, Bool, true, false, not, List, ◌++◌, ◌==◌, ◌||◌, if◌then◌else◌, length,
  replicate,
}
use nexus_zkvm.Base.Result.{Result, ok, panic, ◌>>=◌, index}
use nexus_zkvm.Sparse.{multiply_vec, new}
use nexus_zkvm.R1cs.{
  Ring, field_of, Commitment, invalid_witness_length, invalid_input_length, not_satisfied, Answer,
  okay, fail, and_then, R1csShape, R1csWitness, R1csInstance, RelaxedR1csWitness,
  RelaxedR1csInstance, validate,
}

-- `assert_eq!` and what comes after.
abbrev pub assert_then : {A : Type 0} → Bool → Result A → Result A
assert_then b next = if b then next else panic

module _ {F : Type 0} where
  -- The matrices are built once they are valid.
  unfoldable pub built : Answer Unit → Result (R1csShape F) → Result (Answer (R1csShape F))
  built (fail e) shape = ok (fail e)
  built (okay _) shape = shape >>= λ s. ok (okay s)

  unfoldable pub new_shape :
      ℕ
      → ℕ
      → ℕ
      → List (List (F × ℕ))
      → List (List (F × ℕ))
      → List (List (F × ℕ))
      → Result (Answer (R1csShape F))
  new_shape num_constraints num_vars num_io a b c =
      let columns : ℕ = num_io + num_vars in
      if num_io == 0
      then ok (fail invalid_input_length)
      else built
          (and_then (validate num_constraints columns 0 a) (
            and_then (validate num_constraints columns 0 b) (validate num_constraints columns 0 c)))
          (new a num_constraints columns >>= λ ma. new b num_constraints columns >>= λ mb.
            new c num_constraints columns >>= λ mc. ok (record {
              num_constraints = num_constraints;
              num_vars = num_vars;
              num_io = num_io;
              a = ma;
              b = mb;
              c = mc;
            }))

  unfoldable pub new_witness : R1csShape F → List F → Answer (R1csWitness F)
  new_witness shape w =
      if shape.num_vars == length w then okay (record { w = w }) else fail invalid_witness_length

  unfoldable pub new_instance : {C : Type 0} → R1csShape F → C → List F → Answer (R1csInstance F C)
  new_instance shape commitment x =
      if length x == 0
      then fail invalid_input_length
      else if shape.num_io == length x
      then okay (record { commitment_w = commitment; x = x })
      else fail invalid_input_length

module _ {F : Type 0} (ring : Ring F) where
  -- The products of the three matrices with `z`.
  abbrev pub products : R1csShape F → List F → Result (List F × List F × List F)
  products shape z = multiply_vec (field_of ring) (shape.a) z >>= λ az.
      multiply_vec (field_of ring) (shape.b) z >>= λ bz.
      multiply_vec (field_of ring) (shape.c) z >>= λ cz. ok (az, bz, cz)

  -- `Az[idx] * Bz[idx] != Cz[idx]`.
  unfoldable pub violates : List F × List F × List F → ℕ → Result Bool
  violates (az, bz, cz) i = index az i >>= λ a.
      index bz i >>= λ b. index cz i >>= λ c. ok (not (ring.eq (ring.times a b) c))

  -- `Az[idx] * Bz[idx] != u * Cz[idx] + E[idx]`.
  unfoldable pub violates_relaxed : F → List F → List F × List F × List F → ℕ → Result Bool
  violates_relaxed u e (az, bz, cz) i = index az i >>= λ a. index bz i >>= λ b. index cz i >>= λ c.
      index e i >>= λ d. ok (not (ring.eq (ring.times a b) (ring.plus (ring.times u c) d)))

-- `(i..i + n).any(..)`.
unfoldable pub any : (ℕ → Result Bool) → ℕ → ℕ → Result Bool
any test i zero = ok false
any test i (suc n) = test i >>= λ b. if b then ok true else any test (i + 1) n

-- The answer of a test that looks for a reason not to be satisfied, and of one more.
abbrev pub unless : Bool → Answer Unit → Answer Unit
unless bad next = if bad then fail not_satisfied else next

module _ {F C : Type 0} (ring : Ring F) (scheme : Commitment F ring C) where
  unfoldable pub is_satisfied :
      R1csShape F → R1csInstance F C → R1csWitness F → Result (Answer Unit)
  is_satisfied shape u w = assert_then (length (w.w) == shape.num_vars) (
      assert_then (length (u.x) == shape.num_io) (
        products ring shape (u.x ++ w.w) >>= λ z.
        any (violates ring z) 0 (shape.num_constraints) >>= λ bad.
        ok
          (unless bad (unless (not (scheme.eq (u.commitment_w) (scheme.commit (w.w)))) (okay tt)))))

  unfoldable pub is_relaxed_satisfied :
      R1csShape F → RelaxedR1csInstance F C → RelaxedR1csWitness F → Result (Answer Unit)
  is_relaxed_satisfied shape u w = assert_then (length (w.w) == shape.num_vars) (
      assert_then (length (u.x) == shape.num_io) (
        assert_then (length (w.e) == shape.num_constraints) (
          products ring shape (u.x ++ w.w) >>= λ z. index (u.x) 0 >>= λ scalar.
          any (violates_relaxed ring scalar (w.e) z) 0 (shape.num_constraints) >>= λ bad. ok (
            unless bad (
              unless
                (not (scheme.eq (u.commitment_w) (scheme.commit (w.w)))
                  || not (scheme.eq (u.commitment_e) (scheme.commit (w.e))))
                (okay tt))))))

  -- `RelaxedR1CSInstance::new`.
  abbrev pub new_relaxed : R1csShape F → RelaxedR1csInstance F C
  new_relaxed shape = record {
    commitment_w = scheme.default;
    commitment_e = scheme.default;
    x = replicate (shape.num_io) (ring.nil);
  }

  -- `RelaxedR1CSInstance::from`.
  abbrev pub relaxed : R1csInstance F C → RelaxedR1csInstance F C
  relaxed u = record { commitment_w = u.commitment_w; commitment_e = scheme.default; x = u.x }

module _ {F : Type 0} (ring : Ring F) where
  -- `R1CSWitness::zero`.
  abbrev pub zero_witness : R1csShape F → R1csWitness F
  zero_witness shape = record { w = replicate (shape.num_vars) (ring.nil) }

  -- `RelaxedR1CSWitness::zero`.
  abbrev pub zero_relaxed_witness : R1csShape F → RelaxedR1csWitness F
  zero_relaxed_witness shape = record {
    w = replicate (shape.num_vars) (ring.nil);
    e = replicate (shape.num_constraints) (ring.nil);
  }

  abbrev pub from_r1cs_witness : R1csShape F → R1csWitness F → RelaxedR1csWitness F
  from_r1cs_witness shape witness = record {
    w = witness.w;
    e = replicate (shape.num_constraints) (ring.nil);
  }
