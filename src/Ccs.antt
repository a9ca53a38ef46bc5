-- ===== src/Ccs.antt =====
-- Customizable constraint systems (nova/src/ccs/mod.rs, and `vec_to_mle` of nova/src/ccs/mle.rs). The
-- scalar field is a parameter, as in R1cs; so are the dense polynomials and the commitments to them
-- of the Spartan library. A method's result is an `Outcome`; a panic ends the run.
pub mod Fold
pub mod FromR1cs
use nexus_zkvm.Base.{
  ℕ, zero, suc, ◌+◌, ◌-◌, ◌*◌, ◌≡◌, Bool, true, false, not, List, [], ◌∷◌, ◌++◌, ltb, ◌==◌, ◌||◌,
  if◌then◌else◌, length, replicate,
}
use nexus_zkvm.Base.Result.{Result, ok, panic, ◌>>=◌, index}
use nexus_zkvm.Sparse.{SparseMatrix, multiply_vec}
use nexus_zkvm.R1cs.{Ring, field_of, R1csShape}
use nexus_zkvm.R1cs.Satisfied.{assert_then}

-- Polynomials from evaluations, their evaluation at a point (which panics at a point of another
-- dimension), and the commitments.
pub record PolyScheme (F C P : Type 0) : Type 0 where
  pub new_poly : List F → P
  pub evaluate : P → List F → Result F
  pub commit : P → C
  pub plus : C → C → C
  pub scale : C → F → C
  pub eq : C → C → Bool

pub data Error : Type 0 where
  invalid_witness_length : Error
  invalid_input_length : Error
  invalid_evaluation_point : Error
  invalid_targets : Error
  not_satisfied : Error

-- `Result<A, Error>`.
pub data Outcome (A : Type 0) : Type 0 where
  done : A → Outcome A
  failed : Error → Outcome A

pub record CcsShape (F : Type 0) : Type 0 where
  pub num_constraints : ℕ
  pub num_vars : ℕ
  pub num_io : ℕ
  pub num_matrices : ℕ
  pub num_multisets : ℕ
  pub max_cardinality : ℕ
  pub ms : List (SparseMatrix F)
  pub css : List (F × List ℕ)

pub record CcsWitness (F : Type 0) : Type 0 where
  pub w : List F

pub record CcsInstance (F C : Type 0) : Type 0 where
  pub commitment_w : C
  pub x : List F

pub record LccsInstance (F C : Type 0) : Type 0 where
  pub commitment_w : C
  pub x : List F
  pub rs : List F
  pub vs : List F

-- The least power of two that is not below `n`, from `p` on; `n` doublings are enough.
abbrev pub double_until : ℕ → ℕ → ℕ → ℕ
double_until zero p n = p
double_until (suc fuel) p n = let rest = double_until fuel (2 * p) n in if ltb p n then rest else p

abbrev pub next_power_of_two : ℕ → ℕ
next_power_of_two n = double_until n 1 n

module _ {F : Type 0} (ring : Ring F) where
  abbrev pub vec_to_mle : {C P : Type 0} → PolyScheme F C P → List F → Result P
  vec_to_mle scheme z =
      assert_then (ltb 0 (length z))
        (ok (scheme.new_poly (z ++ replicate (next_power_of_two (length z) - length z) ring.nil)))

  abbrev pub commit_witness : {C P : Type 0} → PolyScheme F C P → CcsWitness F → Result C
  commit_witness scheme w = vec_to_mle scheme (w.w) >>= λ p. ok (scheme.commit p)

  unfoldable pub multiply_all : List (SparseMatrix F) → List F → Result (List (List F))
  multiply_all [] z = ok []
  multiply_all (m ∷ ms) z =
      multiply_vec (field_of ring) m z >>= λ v. multiply_all ms z >>= λ rest. ok (v ∷ rest)

  -- `*x *= Mzs[*idx][j]`, from `j` on.
  unfoldable pub times_rows : List (List F) → ℕ → ℕ → List F → Result (List F)
  times_rows mzs idx j [] = ok []
  times_rows mzs idx j (x ∷ xs) = index mzs idx >>= λ m.
      index m j >>= λ y. times_rows mzs idx (j + 1) xs >>= λ rest. ok (ring.times x y ∷ rest)

  unfoldable pub hadamard : List (List F) → List ℕ → List F → Result (List F)
  hadamard mzs [] xs = ok xs
  hadamard mzs (idx ∷ s) xs = times_rows mzs idx 0 xs >>= hadamard mzs s

  -- `*s += hadamard_product[i]`, from `i` on.
  unfoldable pub plus_rows : List F → ℕ → List F → Result (List F)
  plus_rows product i [] = ok []
  plus_rows product i (x ∷ xs) =
      index product i >>= λ y. plus_rows product (i + 1) xs >>= λ rest. ok (ring.plus x y ∷ rest)

  -- The loop over the multisets.
  unfoldable pub accumulate : List (List F) → ℕ → List (F × List ℕ) → List F → Result (List F)
  accumulate mzs n [] acc = ok acc
  accumulate mzs n ((c, s) ∷ css) acc =
      hadamard mzs s (replicate n c) >>= λ product. plus_rows product 0 acc >>= accumulate mzs n css

  abbrev pub any_nonzero : List F → Bool
  any_nonzero [] = false
  any_nonzero (x ∷ xs) = not (ring.eq x ring.nil) || any_nonzero xs

  module _ {C P : Type 0} (scheme : PolyScheme F C P) where
    abbrev pub check_commitment : C → CcsWitness F → Result (Outcome Unit)
    check_commitment commitment w = commit_witness scheme w >>= λ c.
        ok (if scheme.eq commitment c then done tt else failed not_satisfied)

    unfoldable pub is_satisfied :
        CcsShape F → CcsInstance F C → CcsWitness F → Result (Outcome Unit)
    is_satisfied shape u w = assert_then (length (w.w) == shape.num_vars) (
        assert_then (length (u.x) == shape.num_io) (
          multiply_all (shape.ms) (u.x ++ w.w) >>= λ mzs.
          accumulate mzs (shape.num_constraints) (shape.css)
            (replicate (shape.num_constraints) ring.nil)
          >>= λ acc.
              if any_nonzero acc
              then ok (failed not_satisfied)
              else check_commitment (u.commitment_w) w))

    unfoldable pub evaluate_all : List (SparseMatrix F) → List F → List F → Result (List F)
    evaluate_all [] z rs = ok []
    evaluate_all (m ∷ ms) z rs = multiply_vec (field_of ring) m z >>= λ v.
        vec_to_mle scheme v >>= λ p.
        scheme.evaluate p rs >>= λ y. evaluate_all ms z rs >>= λ rest. ok (y ∷ rest)

    -- Whether a target from `idx` on differs.
    unfoldable pub any_target : List F → List F → ℕ → ℕ → Result Bool
    any_target mzs vs idx zero = ok false
    any_target mzs vs idx (suc n) = index mzs idx >>= λ y.
        index vs idx >>= λ v. if ring.eq y v then any_target mzs vs (idx + 1) n else ok true

    unfoldable pub is_satisfied_linearized :
        CcsShape F → LccsInstance F C → CcsWitness F → Result (Outcome Unit)
    is_satisfied_linearized shape u w = assert_then (length (w.w) == shape.num_vars) (
        assert_then (length (u.x) == shape.num_io) (
          evaluate_all (shape.ms) (u.x ++ w.w) (u.rs) >>= λ mzs.
          any_target mzs (u.vs) 0 (shape.num_matrices) >>= λ differs.
          if differs then ok (failed not_satisfied) else check_commitment (u.commitment_w) w))

  abbrev pub from_r1cs : R1csShape F → CcsShape F
  from_r1cs shape = record {
    num_constraints = shape.num_constraints;
    num_vars = shape.num_vars;
    num_io = shape.num_io;
    num_matrices = 3;
    num_multisets = 2;
    max_cardinality = 2;
    ms = shape.a ∷ shape.b ∷ shape.c ∷ [];
    css = (ring.one, 0 ∷ 1 ∷ []) ∷ (ring.minus (ring.nil) (ring.one), 2 ∷ []) ∷ [];
  }
