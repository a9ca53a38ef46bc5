-- ===== src/Examples/Constraints.antt =====
-- The constraint system of the shape whose second constraint is empty.
use nexus_zkvm.Base.{◌≡◌, refl, Bool, true, ◌&&◌, List, [], ◌∷◌}
use nexus_zkvm.Base.Result.{ok, ◌>>=◌}
use nexus_zkvm.R1cs.Satisfied.{violates, any, is_satisfied as r1cs_is_satisfied}
use nexus_zkvm.Sparse.{
  multiply_vec, multiply_vec_unchecked, multiply_rows, get_row_unchecked, sum_products, slice,
}
use nexus_zkvm.Ccs.{PolyScheme, is_satisfied, from_r1cs}
use nexus_zkvm.Ccs.FromR1cs.{accepts, accepted, is_satisfied-from_r1cs}
use nexus_zkvm.Examples.Parity.{xor, same, parity, two, by_parity}
use nexus_zkvm.Examples.Folds.{square_shape, square_shape-IsShape, plain_instance, plain_witness}

-- Polynomials as their evaluations, committed to by the parity.
abbrev by_evaluations : PolyScheme Bool Bool (List Bool)
by_evaluations = record {
  new_poly = λ z. z;
  evaluate = λ p r. ok (parity p);
  commit = parity;
  plus = xor;
  scale = ◌&&◌;
  eq = same;
}

plain_accepted :
    (r1cs_is_satisfied two by_parity square_shape plain_instance plain_witness >>= λ a.
    ok (accepts a))
    ≡ ok true
unfolding r1cs_is_satisfied violates any multiply_vec multiply_vec_unchecked multiply_rows
    get_row_unchecked sum_products slice
plain_accepted = refl

is_satisfied-from_r1cs_example :
    (is_satisfied two by_evaluations
        (from_r1cs two square_shape)
        (record { commitment_w = true; x = true ∷ [] })
        (record { w = true ∷ [] })
      >>= λ a. ok (accepted a))
    ≡ (r1cs_is_satisfied two by_parity square_shape plain_instance plain_witness >>= λ a.
        ok (accepts a))
is_satisfied-from_r1cs_example =
    is_satisfied-from_r1cs two by_parity by_evaluations square_shape plain_instance plain_witness
      true true square_shape-IsShape refl refl
