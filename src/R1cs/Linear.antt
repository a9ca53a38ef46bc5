-- ===== src/R1cs/Linear.antt =====
-- The sparse product is linear: the product with a folded vector is the folded product.
use mathlib.Core.Path.{ap₂}
use nexus_zkvm.Base.{
  ℕ, zero, suc, ◌-◌, ◌≡◌, refl, sym, ap, ◌∙◌, arith, inl, inr, Bool-cases, List, [], ◌∷◌, ◌++◌,
  ◌==◌, ==_refl, subst, if◌then◌else◌, length,
}
use nexus_zkvm.Base.Result.{Result, ok, panic, >>=-eq-ok, index, ok-inj}
use nexus_zkvm.Sparse.{
  SparseMatrix, sum_products, get_row_unchecked, multiply_rows, multiply_vec_unchecked,
  multiply_vec,
}
use nexus_zkvm.R1cs.{Ring, field_of, combine}
use nexus_zkvm.R1cs.Algebra.{combine_term}

-- An asserted equation that did not panic.
pub if_ok {ℓ} :
    {A : Type ℓ} (m n : ℕ) (next : Result A) {a : A}
    → (if m == n then next else panic) ≡ ok a
    → (m ≡ n) × (next ≡ ok a)
if_ok m n next h = elim (Bool-cases (m == n)) [
  | inl same ↦ (ground arith, rw same at h)
  | inr other ↦ let e : panic ≡ ok _ = rw other at h in cc
]

module _ {F : Type 0} (ring : Ring F) (r : F) where
  pub length-combine :
      (xs ys : List F) → length xs ≡ length ys → length (combine ring r xs ys) ≡ length xs
  length-combine [] ys e = refl
  length-combine (x ∷ xs) [] e = absurd (omega (arith, e))
  length-combine (x ∷ xs) (y ∷ ys) e = ap suc (length-combine xs ys (omega (arith, e)))

  pub index-combine :
      (xs ys : List F) (i : ℕ) {x y : F}
      → index xs i ≡ ok x
      → index ys i ≡ ok y
      → index (combine ring r xs ys) i ≡ ok (ring.plus x (ring.times r y))
  index-combine [] ys i h k = cc
  index-combine (x ∷ xs) [] i h k = cc
  index-combine (x ∷ xs) (y ∷ ys) zero h k =
      ap₂ (λ a b. ok (ring.plus a (ring.times r b))) (ok-inj h) (ok-inj k)
  index-combine (x ∷ xs) (y ∷ ys) (suc i) h k = index-combine xs ys i h k

  pub combine-append :
      (xs ys xs' ys' : List F)
      → length xs ≡ length ys
      → combine ring r (xs ++ xs') (ys ++ ys') ≡ combine ring r xs ys ++ combine ring r xs' ys'
  combine-append [] [] xs' ys' e = refl
  combine-append [] (y ∷ ys) xs' ys' e = absurd (omega (arith, e))
  combine-append (x ∷ xs) [] xs' ys' e = absurd (omega (arith, e))
  combine-append (x ∷ xs) (y ∷ ys) xs' ys' e =
      ap (λ l. ring.plus x (ring.times r y) ∷ l) (combine-append xs ys xs' ys' (omega (arith, e)))

  nil-combine : ring.plus ring.nil (ring.times r ring.nil) ≡ ring.nil
  nil-combine =
      ap (ring.plus ring.nil) (ring.times_comm r ring.nil ∙ ring.times-nil r)
      ∙ ring.plus-nil ring.nil

  sum_products-combine :
      (v v' : List F) (row : List (F × ℕ)) (acc acc' : F) {s s' : F}
      → sum_products (field_of ring) v acc row ≡ ok s
      → sum_products (field_of ring) v' acc' row ≡ ok s'
      → sum_products (field_of ring) (combine ring r v v') (ring.plus acc (ring.times r acc')) row
        ≡ ok (ring.plus s (ring.times r s'))
  unfolding sum_products
  sum_products-combine v v' [] acc acc' h k =
      ap₂ (λ a b. ok (ring.plus a (ring.times r b))) (ok-inj h) (ok-inj k)
  sum_products-combine v v' ((val, col) ∷ row) acc acc' h k =
      let (x, at, rest) = >>=-eq-ok (index v col) _ h in
      let (x', at', rest') = >>=-eq-ok (index v' col) _ k in
      rw (index-combine v v' col at at', combine_term ring r val acc acc' x x')
        (sum_products-combine v v' row _ _ rest rest')

  multiply_rows-combine :
      (m : SparseMatrix F) (v v' : List F) (ptrs : List ℕ) {p p' : List F}
      → multiply_rows (field_of ring) m v ptrs ≡ ok p
      → multiply_rows (field_of ring) m v' ptrs ≡ ok p'
      → multiply_rows (field_of ring) m (combine ring r v v') ptrs ≡ ok (combine ring r p p')
  unfolding multiply_rows
  multiply_rows-combine m v v' [] h k = ap₂ (λ a b. ok (combine ring r a b)) (ok-inj h) (ok-inj k)
  multiply_rows-combine m v v' (i ∷ []) h k =
      ap₂ (λ a b. ok (combine ring r a b)) (ok-inj h) (ok-inj k)
  multiply_rows-combine m v v' (i ∷ j ∷ ptrs) h k =
      let (row, got, more) = >>=-eq-ok (get_row_unchecked (field_of ring) m i j) _ h in
      let (row', got', more') = >>=-eq-ok (get_row_unchecked (field_of ring) m i j) _ k in
      let (x, sum, next) = >>=-eq-ok (sum_products (field_of ring) v ring.nil row) _ more in
      let (x', sum', next') = >>=-eq-ok (sum_products (field_of ring) v' ring.nil row') _ more' in
      let (xs, others, end) = >>=-eq-ok (multiply_rows (field_of ring) m v (j ∷ ptrs)) _ next in
      let (xs', others', end') =
        >>=-eq-ok (multiply_rows (field_of ring) m v' (j ∷ ptrs)) _ next' in
      let one_row : row' ≡ row = ok-inj (sym got' ∙ got) in
      let sum_both =
        sum_products-combine v v' row ring.nil ring.nil sum
          (subst (λ l. sum_products (field_of ring) v' ring.nil l ≡ ok x') one_row sum') in
      let start : sum_products (field_of ring) (combine ring r v v') ring.nil row
          ≡ ok (ring.plus x (ring.times r x')) =
        subst
          (λ n.
            sum_products (field_of ring) (combine ring r v v') n row
            ≡ ok (ring.plus x (ring.times r x')))
          nil-combine sum_both in
      rw (got, start, multiply_rows-combine m v v' (j ∷ ptrs) others others')
        (ap₂ (λ a b. ok (combine ring r a b)) (ok-inj end) (ok-inj end'))

  pub multiply_vec-combine :
      (m : SparseMatrix F) (v v' : List F) {p p' : List F}
      → multiply_vec (field_of ring) m v ≡ ok p
      → multiply_vec (field_of ring) m v' ≡ ok p'
      → multiply_vec (field_of ring) m (combine ring r v v') ≡ ok (combine ring r p p')
  unfolding multiply_vec multiply_vec_unchecked
  multiply_vec-combine m v v' h k =
      let (fits, ran) = sized m v h in
      let (fits', ran') = sized m v' k in
      rw (length-combine v v' (sym fits ∙ fits'), sym fits)
        (rw (==_refl (m.cols)) (multiply_rows-combine m v v' (m.indptr) ran ran'))
    where
      sized :
          (m : SparseMatrix F) (v : List F) {p : List F}
          → (if m.cols == length v then multiply_rows (field_of ring) m v (m.indptr) else panic)
            ≡ ok p
          → (m.cols ≡ length v) × (multiply_rows (field_of ring) m v (m.indptr) ≡ ok p)
      sized m v h = if_ok (m.cols) (length v) (multiply_rows (field_of ring) m v (m.indptr)) h

-- There is a product for every window of two row pointers.
module _ {F : Type 0} (ring : Ring F) where
  length-multiply_rows :
      (m : SparseMatrix F) (v : List F) (ptrs : List ℕ) {p : List F}
      → multiply_rows (field_of ring) m v ptrs ≡ ok p
      → length p ≡ length ptrs - 1
  unfolding multiply_rows
  length-multiply_rows m v [] {p} h = ap length (sym (ok-inj h))
  length-multiply_rows m v (i ∷ []) {p} h = ap length (sym (ok-inj h))
  length-multiply_rows m v (i ∷ j ∷ ptrs) {p} h =
      let (row, got, more) = >>=-eq-ok (get_row_unchecked (field_of ring) m i j) _ h in
      let (x, sum, next) = >>=-eq-ok (sum_products (field_of ring) v ring.nil row) _ more in
      let (xs, others, end) = >>=-eq-ok (multiply_rows (field_of ring) m v (j ∷ ptrs)) _ next in
      omega (arith, ap length (ok-inj end), length-multiply_rows m v (j ∷ ptrs) others)

  pub length-multiply_vec :
      (m : SparseMatrix F) (v : List F) {p : List F}
      → multiply_vec (field_of ring) m v ≡ ok p
      → length p ≡ length (m.indptr) - 1
  unfolding multiply_vec multiply_vec_unchecked
  length-multiply_vec m v h =
      length-multiply_rows m v (m.indptr)
        (if_ok (m.cols) (length v) (multiply_rows (field_of ring) m v (m.indptr)) h).1
