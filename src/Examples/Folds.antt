-- ===== src/Examples/Folds.antt =====
-- A shape of two constraints over the field of two elements.
use nexus_zkvm.Base.{ℕ, ◌≡◌, refl, arith, Bool, true, false, not, List, [], ◌∷◌}
use nexus_zkvm.Base.Result.{ok}
use nexus_zkvm.Examples.Parity.{xor, two, by_parity}
use nexus_zkvm.Sparse.{
  multiply_vec, multiply_vec_unchecked, multiply_rows, get_row_unchecked, sum_products, slice,
}
use nexus_zkvm.Sparse.Build.{AreRows}
use nexus_zkvm.R1cs.{
  okay, R1csShape, R1csWitness, R1csInstance, RelaxedR1csWitness, RelaxedR1csInstance,
}
use nexus_zkvm.R1cs.Satisfied.{
  new_shape, violates, violates_relaxed, any, is_satisfied, is_relaxed_satisfied, new_relaxed,
  relaxed, zero_relaxed_witness, from_r1cs_witness,
}
use nexus_zkvm.R1cs.Fold.{
  fold, fold_with_relaxed, fold_witness, fold_witness_with_relaxed, commit_t, commit_t_with_relaxed,
}
use nexus_zkvm.R1cs.Folded.{IsShape, fold_with_relaxed-satisfied}
use nexus_zkvm.R1cs.Plain.{is_satisfied-relaxed, fold-satisfied}
use nexus_zkvm.R1cs.Shapes.{shape_of, new_shape_lem, zero-satisfied}
use nexus_zkvm.R1cs.Nifs.{RandomOracle, prove_with_relaxed, verify_with_relaxed, prove-verify}

-- The square of the variable is the input; the second constraint is empty.
abbrev pub variable_row : List (List (Bool × ℕ))
variable_row = ((true, 1) ∷ []) ∷ []

abbrev pub input_row : List (List (Bool × ℕ))
input_row = ((true, 0) ∷ []) ∷ []

at_one : AreRows 2 variable_row
at_one = ((omega arith, omega arith, tt), tt)

at_zero : AreRows 2 input_row
at_zero = ((omega arith, omega arith, tt), tt)

abbrev pub square_shape : R1csShape Bool
square_shape = shape_of 2 1 1 variable_row variable_row input_row

pub square_shape-IsShape : IsShape square_shape
square_shape-IsShape = record { rows_a = refl; rows_b = refl; rows_c = refl }

abbrev pub plain_instance : R1csInstance Bool Bool
plain_instance = record { commitment_w = true; x = true ∷ [] }

abbrev pub plain_witness : R1csWitness Bool
plain_witness = record { w = true ∷ [] }

-- An accepted pair whose error is not zero.
abbrev slack_instance : RelaxedR1csInstance Bool Bool
slack_instance = record { commitment_w = true; commitment_e = true; x = false ∷ [] }

abbrev slack_witness : RelaxedR1csWitness Bool
slack_witness = record { w = true ∷ []; e = true ∷ false ∷ [] }

plain_satisfied :
    is_satisfied two by_parity square_shape plain_instance plain_witness ≡ ok (okay tt)
unfolding is_satisfied violates any multiply_vec multiply_vec_unchecked multiply_rows
    get_row_unchecked sum_products slice
plain_satisfied = refl

slack_satisfied :
    is_relaxed_satisfied two by_parity square_shape slack_instance slack_witness ≡ ok (okay tt)
unfolding is_relaxed_satisfied violates_relaxed any multiply_vec multiply_vec_unchecked
    multiply_rows get_row_unchecked sum_products slice
slack_satisfied = refl

new_shape_lem_example :
    (new_shape 2 1 1 variable_row variable_row input_row ≡ ok (okay square_shape))
    × IsShape square_shape
new_shape_lem_example =
    new_shape_lem 2 1 1 variable_row variable_row input_row (omega arith) (omega arith)
      (omega arith) (omega arith) at_one at_one at_zero

zero-satisfied_example :
    is_relaxed_satisfied two by_parity square_shape
      (new_relaxed two by_parity square_shape)
      (zero_relaxed_witness two square_shape)
    ≡ ok (okay tt)
zero-satisfied_example =
    zero-satisfied two by_parity 2 1 1 variable_row variable_row input_row (omega arith)
      (omega arith) (omega arith) (omega arith) at_one at_one at_zero

is_satisfied-relaxed_example :
    is_relaxed_satisfied two by_parity square_shape
      (relaxed two by_parity plain_instance)
      (from_r1cs_witness two square_shape plain_witness)
    ≡ ok (okay tt)
is_satisfied-relaxed_example =
    is_satisfied-relaxed two by_parity square_shape plain_instance plain_witness refl
      plain_satisfied

fold-satisfied_example :
    (t : List Bool) × (comm_t : Bool) × (w : RelaxedR1csWitness Bool) × (commit_t two by_parity
        square_shape slack_instance slack_witness plain_instance plain_witness
      ≡ ok (t, comm_t))
    × (fold_witness two slack_witness plain_witness t true ≡ okay w)
    × (is_relaxed_satisfied two by_parity square_shape
          (fold two by_parity slack_instance plain_instance comm_t true)
          w
        ≡ ok (okay tt))
fold-satisfied_example =
    fold-satisfied two by_parity true square_shape slack_instance slack_witness plain_instance
      plain_witness square_shape-IsShape refl slack_satisfied plain_satisfied

fold_with_relaxed-satisfied_example :
    (t : List Bool) × (comm_t : Bool) × (w : RelaxedR1csWitness Bool) × (commit_t_with_relaxed two
        by_parity square_shape slack_instance slack_witness slack_instance slack_witness
      ≡ ok (t, comm_t))
    × (fold_witness_with_relaxed two slack_witness slack_witness t true ≡ okay w)
    × (is_relaxed_satisfied two by_parity square_shape
          (fold_with_relaxed two by_parity slack_instance slack_instance comm_t true)
          w
        ≡ ok (okay tt))
fold_with_relaxed-satisfied_example =
    fold_with_relaxed-satisfied two by_parity true square_shape slack_instance slack_instance
      slack_witness slack_witness square_shape-IsShape slack_satisfied slack_satisfied

-- An oracle that answers with the last commitment.
abbrev last_commitment : RandomOracle Bool Bool Bool
last_commitment = record {
  absorb_instance = λ u s. xor s (u.commitment_w);
  absorb_commitment = λ c s. not c;
  squeeze = λ s. (s ∷ [], s);
  squeezes = λ s. (s, refl);
}

prove-verify_example :
    (comm_t : Bool) × (u : RelaxedR1csInstance Bool Bool) × (w : RelaxedR1csWitness Bool)
    × (s : Bool) × (prove_with_relaxed two by_parity last_commitment square_shape slack_instance
          slack_witness slack_instance slack_witness false
        ≡ ok (okay (comm_t, u, w), s))
    × (verify_with_relaxed two by_parity last_commitment comm_t slack_instance slack_instance false
        ≡ ok (u, s))
    × (is_relaxed_satisfied two by_parity square_shape u w ≡ ok (okay tt))
prove-verify_example =
    prove-verify two by_parity last_commitment square_shape slack_instance slack_instance
      slack_witness slack_witness false square_shape-IsShape slack_satisfied slack_satisfied
