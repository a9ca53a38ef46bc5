-- ===== src/R1cs.antt =====
-- R1CS instances and witnesses (nova/src/r1cs/mod.rs). The scalar field, and the commitment scheme
-- of nova/src/commitment.rs over a curve group, are parameters: records of operations with their
-- laws. A method's result is an `Answer`; a panic ends the run.
pub mod Satisfied
pub mod Fold
pub mod Algebra
pub mod Linear
pub mod Cross
pub mod Relaxed
pub mod Folded
pub mod Plain
pub mod Shapes
pub mod Nifs
use nexus_zkvm.Base.{
  ℕ, zero, suc, ◌+◌, ◌≡◌, Bool, true, false, List, [], ◌∷◌, map, ltb, leb, ◌==◌, if◌then◌else◌,
  length, replicate,
}
use nexus_zkvm.Base.Result.{Result, ok, ◌>>=◌, index}
use nexus_zkvm.Sparse.{Field, SparseMatrix, multiply_vec, new}

-- The field: a commutative ring with a test for equality.
pub record Ring (F : Type 0) : Type 0 where
  pub nil : F
  pub one : F
  pub plus : F → F → F
  pub minus : F → F → F
  pub times : F → F → F
  pub eq : F → F → Bool
  pub eq_refl : (a : F) → eq a a ≡ true
  pub eq_sound : (a b : F) → eq a b ≡ true → a ≡ b
  pub plus-nil : (a : F) → plus a nil ≡ a
  pub plus_comm : (a b : F) → plus a b ≡ plus b a
  pub plus_assoc : (a b c : F) → plus (plus a b) c ≡ plus a (plus b c)
  pub minus-plus : (a b : F) → plus (minus a b) b ≡ a
  pub times-nil : (a : F) → times nil a ≡ nil
  pub times-one : (a : F) → times one a ≡ a
  pub times_comm : (a b : F) → times a b ≡ times b a
  pub times_assoc : (a b c : F) → times (times a b) c ≡ times a (times b c)
  pub times-plus : (a b c : F) → times a (plus b c) ≡ plus (times a b) (times a c)

-- What the sparse products use of it.
abbrev pub field_of : {F : Type 0} → Ring F → Field F
field_of ring = record {
  nil = ring.nil;
  plus = ring.plus;
  times = ring.times;
  plus-nil = ring.plus-nil;
  times-nil = ring.times-nil;
}

module _ {F : Type 0} (ring : Ring F) where
  -- `iter(xs).zip(ys).map(|(a, b)| *a + *r * *b)`.
  abbrev pub combine : F → List F → List F → List F
  combine r [] ys = []
  combine r (x ∷ xs) [] = []
  combine r (x ∷ xs) (y ∷ ys) = ring.plus x (ring.times r y) ∷ combine r xs ys

-- A commitment scheme with fixed public parameters: the commitment of a vector, the group of
-- commitments, and that committing is linear.
pub record Commitment (F : Type 0) (ring : Ring F) (C : Type 0) : Type 0 where
  pub commit : List F → C
  pub default : C
  pub plus : C → C → C
  pub scale : C → F → C
  pub eq : C → C → Bool
  pub eq_refl : (a : C) → eq a a ≡ true
  pub eq_sound : (a b : C) → eq a b ≡ true → a ≡ b
  pub plus-default : (a : C) (r : F) → plus a (scale default r) ≡ a
  pub commit-zeros : (n : ℕ) → commit (replicate n ring.nil) ≡ default
  pub commit-combine :
      (r : F) (xs ys : List F)
      → length xs ≡ length ys
      → commit (combine ring r xs ys) ≡ plus (commit xs) (scale (commit ys) r)

pub data Error : Type 0 where
  constraint_number_mismatch : Error
  input_length_mismatch : Error
  invalid_witness_length : Error
  invalid_input_length : Error
  not_satisfied : Error

-- `Result<A, Error>`.
pub data Answer (A : Type 0) : Type 0 where
  okay : A → Answer A
  fail : Error → Answer A

-- The `?` operator.
abbrev pub and_then : {A B : Type 0} → Answer A → Answer B → Answer B
and_then (okay a) next = next
and_then (fail e) next = fail e

pub record R1csShape (F : Type 0) : Type 0 where
  pub num_constraints : ℕ
  pub num_vars : ℕ
  pub num_io : ℕ
  pub a : SparseMatrix F
  pub b : SparseMatrix F
  pub c : SparseMatrix F

pub record R1csWitness (F : Type 0) : Type 0 where
  pub w : List F

pub record R1csInstance (F C : Type 0) : Type 0 where
  pub commitment_w : C
  pub x : List F

pub record RelaxedR1csWitness (F : Type 0) : Type 0 where
  pub w : List F
  pub e : List F

pub record RelaxedR1csInstance (F C : Type 0) : Type 0 where
  pub commitment_w : C
  pub commitment_e : C
  pub x : List F

module _ {F : Type 0} where
  -- The loop over the entries of row `i`, and the loop over the rows.
  unfoldable pub validate_row : ℕ → ℕ → ℕ → List (F × ℕ) → Answer Unit
  validate_row num_constraints columns i [] = okay tt
  validate_row num_constraints columns i ((value, j) ∷ row) =
      if leb num_constraints i
      then fail constraint_number_mismatch
      else if leb columns j
      then fail input_length_mismatch
      else validate_row num_constraints columns i row

  unfoldable pub validate : ℕ → ℕ → ℕ → List (List (F × ℕ)) → Answer Unit
  validate num_constraints columns i [] = okay tt
  validate num_constraints columns i (row ∷ rows) =
      and_then (validate_row num_constraints columns i row)
        (validate num_constraints columns (i + 1) rows)
