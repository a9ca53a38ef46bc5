-- ===== src/Sparse/Multiply.antt =====
-- The sparse product is the dense one.
use nexus_zkvm.Base.{
  ℕ, zero, suc, ◌+◌, ◌-◌, ◌≤◌, ◌≡◌, refl, ap, sym, ◌∙◌, subst, arith, true, ◌&&◌, ◌==◌, leb, List,
  [], ◌∷◌, ◌++◌, map, length, take, drop, length-append, length-map, length-drop,
}
use nexus_zkvm.Base.Result.{ok, ◌>>=◌}
use nexus_zkvm.Sparse.{
  Field, SparseMatrix, Row, pointers, columns_of, values_of, new, zip, slice, get_row_unchecked,
  sum_products, multiply_rows, multiply_vec_unchecked, multiply_vec,
}
use nexus_zkvm.Sparse.Dense.{swap_row, coefficient, dot, sum_products_lem}
use nexus_zkvm.Sparse.Build.{AreRows, padded, AreRows-padded, new_lem}

module _ {ℓ} {A : Type ℓ} where
  take-length : (xs ys : List A) → take (length xs) (xs ++ ys) ≡ xs
  take-length [] ys = refl
  take-length (x ∷ xs) ys = ap (λ l. x ∷ l) (take-length xs ys)

  drop-length : (xs ys : List A) → drop (length xs) (xs ++ ys) ≡ ys
  drop-length [] ys = refl
  drop-length (x ∷ xs) ys = drop-length xs ys

  drop-nil : (n : ℕ) → drop {A = A} n [] ≡ []
  drop-nil zero = refl
  drop-nil (suc n) = refl

  drop-drop : (p n : ℕ) (xs : List A) → drop (p + n) xs ≡ drop n (drop p xs)
  drop-drop zero n xs = let e : 0 + n ≡ n = omega arith in rw e refl
  drop-drop (suc p) n [] = drop-nil (suc p + n) ∙ sym (drop-nil n)
  drop-drop (suc p) n (x ∷ xs) =
      let e : suc p + n ≡ suc (p + n) = omega arith in rw e (drop-drop p n xs)

  -- The part of a list from `p` on, of a length known to be there.
  record IsPart (p : ℕ) (ys zs xs : List A) : Type ℓ where
    pub rest : drop p xs ≡ ys ++ zs
    pub within : p ≤ length xs

  slice-part :
      (p n : ℕ) (xs ys zs : List A) → length ys ≡ n → IsPart p ys zs xs → slice xs p (p + n) ≡ ok ys
  unfolding slice
  slice-part p n xs ys zs e part =
      let within : leb p (p + n) && leb (p + n) (length xs) ≡ true =
        ground
          (arith, part.within, length-drop p xs, ap length (part.rest), length-append ys zs, e) in
      let width : p + n - p ≡ n = omega arith in
      rw (within, width, part.rest)
        (ap ok (subst (λ k. take k (ys ++ zs) ≡ ys) e (take-length ys zs)))

  part-next :
      (p n : ℕ) (xs ys zs : List A)
      → length ys ≡ n
      → IsPart p ys zs xs
      → (drop (p + n) xs ≡ zs) × (p + n ≤ length xs)
  part-next p n xs ys zs e part = (
    drop-drop p n xs
        ∙ ap (drop n) (part.rest)
        ∙ subst (λ k. drop k (ys ++ zs) ≡ zs) e (drop-length ys zs),
    omega (arith, part.within, length-drop p xs, ap length (part.rest), length-append ys zs, e),
  )

module _ {F : Type 0} where
  zip-unzip :
      (row : List (F × ℕ))
      → zip (map (λ e. e.1) (swap_row row)) (map (λ e. e.0) (swap_row row)) ≡ row
  zip-unzip [] = refl
  zip-unzip (e ∷ row) = ap (λ l. e ∷ l) (zip-unzip row)

  length-swap_row : (row : List (F × ℕ)) → length (swap_row row) ≡ length row
  length-swap_row row = length-map _ row

module _ {F : Type 0} (field : Field F) where
  -- The dense product of the rows with a vector.
  abbrev pub dense : List (List (F × ℕ)) → List F → List F
  dense rows v = map (λ row. dot field (coefficient field row) 0 v (field.nil)) rows

  multiply_rows_step :
      (m : SparseMatrix F) (v : List F) (p q : ℕ) (rows : List (Row F))
      → multiply_rows field m v (p ∷ pointers q rows) ≡ (
          get_row_unchecked field m p q >>= λ row. sum_products field v (field.nil) row >>= λ x.
          multiply_rows field m v (pointers q rows) >>= λ xs. ok (x ∷ xs))
  unfolding multiply_rows
  multiply_rows_step m v p q [] = refl
  multiply_rows_step m v p q (row ∷ rows) = refl

  multiply_rows_none :
      (m : SparseMatrix F) (v : List F) (p : ℕ) → multiply_rows field m v (p ∷ []) ≡ ok []
  unfolding multiply_rows
  multiply_rows_none m v p = refl

  get_row-part :
      (m : SparseMatrix F) (p : ℕ) (row : List (F × ℕ)) (fs : List F) (js : List ℕ)
      → IsPart p (map (λ e. e.1) (swap_row row)) fs (m.data_values)
      → IsPart p (map (λ e. e.0) (swap_row row)) js (m.indices)
      → get_row_unchecked field m p (p + length (swap_row row)) ≡ ok row
  unfolding get_row_unchecked
  get_row-part m p row fs js values columns =
      rw
        (
          slice-part p (length (swap_row row)) (m.data_values) _ fs (length-map _ (swap_row row))
              values,
          slice-part p (length (swap_row row)) (m.indices) _ js (length-map _ (swap_row row))
              columns,
        )
        (ap ok (zip-unzip row))

  multiply_rows_from :
      (m : SparseMatrix F) (v : List F) (p : ℕ) (rows : List (List (F × ℕ)))
      → (drop p (m.data_values) ≡ values_of (map swap_row rows)) × (p ≤ length (m.data_values))
      → (drop p (m.indices) ≡ columns_of (map swap_row rows)) × (p ≤ length (m.indices))
      → AreRows (length v) rows
      → multiply_rows field m v (pointers p (map swap_row rows)) ≡ ok (dense rows v)
  multiply_rows_from m v p [] values columns h = multiply_rows_none m v p
  multiply_rows_from m v p (row ∷ rows) values columns h =
      multiply_rows_step m v p (p + length (swap_row row)) (map swap_row rows)
      ∙ rw
          (
            get_row-part m p row _ _ fs js,
            sum_products_lem field v row (h.0),
            multiply_rows_from m v (p + length (swap_row row)) rows
                (part-next p _ _ _ _ (length-map _ (swap_row row)) fs)
                (part-next p _ _ _ _ (length-map _ (swap_row row)) js) (h.1),
          )
          refl
    where
      fs : IsPart p (map (λ e. e.1) (swap_row row)) (values_of (map swap_row rows)) (m.data_values)
      fs = record { rest = values.0; within = values.1 }

      js : IsPart p (map (λ e. e.0) (swap_row row)) (columns_of (map swap_row rows)) (m.indices)
      js = record { rest = columns.0; within = columns.1 }

  -- Of at most `rows` sorted rows with columns below the vector's length, the sparse matrix is built
  -- and its product with the vector is the dense product of the rows and the empty rows after them.
  pub multiply_vec-new :
      (matrix : List (List (F × ℕ))) (rows : ℕ) (v : List F)
      → length matrix ≤ rows
      → AreRows (length v) matrix
      → (new matrix rows (length v) >>= λ m. multiply_vec field m v)
        ≡ ok (dense (padded matrix rows) v)
  unfolding multiply_vec multiply_vec_unchecked
  multiply_vec-new matrix rows v h sorted = rw (new_lem matrix rows (length v) h sorted) (
      rw (same (length v)) (
        multiply_rows_from _ v 0 (padded matrix rows) (refl, omega arith) (refl, omega arith)
          (AreRows-padded (length v) (rows - length matrix) matrix sorted)))
    where
      same : (n : ℕ) → (n == n) ≡ true
      same n = ground arith
