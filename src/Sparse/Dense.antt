-- ===== src/Sparse/Dense.antt =====
-- The product a sparse row stands for: the sum over every column of the vector.
use nexus_zkvm.Base.{
  ℕ, suc, ◌≤◌, ◌<◌, ◌≡◌, refl, ap, sym, ◌∙◌, arith, inl, inr, true, false, Bool-cases, List, [],
  ◌∷◌, map, ◌==◌, if◌then◌else◌, length, drop, drop-cons, length-drop, subst,
}
use nexus_zkvm.Base.Result.{ok}
use nexus_zkvm.Sparse.{Field, Row, increasing, sum_products}

-- A row given with its columns from `j` to below `n`, in increasing order.
abbrev pub IsRow {ℓ} : {F : Type ℓ} → ℕ → ℕ → List (F × ℕ) → Type 0
IsRow j n [] = Unit
IsRow j n ((f, k) ∷ row) = (j ≤ k) × (k < n) × IsRow (suc k) n row

abbrev pub swap_row : {F : Type 0} → List (F × ℕ) → Row F
swap_row row = map (λ e. (e.1, e.0)) row

pub increasing-swap_row :
    {F : Type 0} (j n : ℕ) (row : List (F × ℕ)) → IsRow j n row → increasing (swap_row row) ≡ true
increasing-swap_row j n [] h = refl
increasing-swap_row j n ((f, k) ∷ []) h = refl
increasing-swap_row j n ((f, k) ∷ (g, l) ∷ row) (_, _, h) =
    ground (arith, increasing-swap_row (suc k) n ((g, l) ∷ row) h, h.0)

module _ {F : Type 0} (field : Field F) where
  -- The entry of a row at a column.
  abbrev pub coefficient : List (F × ℕ) → ℕ → F
  coefficient [] j = field.nil
  coefficient ((f, k) ∷ row) j = if k == j then f else coefficient row j

  -- `acc` with the products of the coefficients from `j` on and the vector.
  abbrev pub dot : (ℕ → F) → ℕ → List F → F → F
  dot e j [] acc = acc
  dot e j (x ∷ xs) acc = dot e (suc j) xs (field.plus acc (field.times (e j) x))

  dot-cong :
      (e e' : ℕ → F) (i j : ℕ) (xs : List F) (acc : F)
      → i ≤ j
      → ((k : ℕ) → i ≤ k → e k ≡ e' k)
      → dot e j xs acc ≡ dot e' j xs acc
  dot-cong e e' i j [] acc h same = refl
  dot-cong e e' i j (x ∷ xs) acc h same =
      rw (same j h) (dot-cong e e' i (suc j) xs _ (omega (arith, h)) same)

  plus-absent : (acc x : F) → field.plus acc (field.times (field.nil) x) ≡ acc
  plus-absent acc x = rw (field.times-nil x) (field.plus-nil acc)

  coefficient-below :
      (j k n : ℕ) (row : List (F × ℕ)) → IsRow k n row → j < k → coefficient row j ≡ field.nil
  coefficient-below j k n [] h below = refl
  coefficient-below j k n ((f, l) ∷ row) h below =
      ground (arith, coefficient-below j (suc l) n row (h.2), h.0)

  dot-zero : (j : ℕ) (xs : List F) (acc : F) → dot (coefficient []) j xs acc ≡ acc
  dot-zero j [] acc = refl
  dot-zero j (x ∷ xs) acc = rw (plus-absent acc x) (dot-zero (suc j) xs acc)

  -- A row with its columns from `j` on against the vector's values from `j` on.
  sum_products_from :
      (j : ℕ) (v vs : List F) (acc : F) (row : List (F × ℕ))
      → drop j v ≡ vs
      → IsRow j (length v) row
      → sum_products field v acc row ≡ ok (dot (coefficient row) j vs acc)
  unfolding sum_products
  sum_products_from j v vs acc [] e h = sym (ap ok (dot-zero j vs acc))
  sum_products_from j v [] acc ((f, k) ∷ row) e h =
      absurd (omega (arith, h.0, h.1, length-drop j v, ap length e))
  sum_products_from j v (x ∷ vs) acc ((f, k) ∷ row) e h = elim (Bool-cases (k == j)) [
    | inl here ↦
        let same : k ≡ j = ground arith in
        let rest : sum_products field v (field.plus acc (field.times f x)) row
            ≡ ok (dot (coefficient row) (suc j) vs (field.plus acc (field.times f x))) =
          sum_products_from (suc j) v vs _ row (drop-cons j v e).1
            (subst (λ i. IsRow (suc i) (length v) row) same (h.2)) in
        rw (here, same)
          (rw ((drop-cons j v e).0, rest)
            (ap ok (dot-cong _ _ (suc j) (suc j) vs _ (omega arith) (λ i later. ground arith))))
    | inr later ↦
        let rest : sum_products field v acc ((f, k) ∷ row)
            ≡ ok (dot (coefficient ((f, k) ∷ row)) (suc j) vs acc) =
          sum_products_from (suc j) v vs acc ((f, k) ∷ row) (drop-cons j v e).1
            (ground (arith, h.0), h.1, h.2) in
        rest
        ∙ ap (λ a. ok (dot (coefficient ((f, k) ∷ row)) (suc j) vs a))
            (sym (absent j k (length v) row x acc f h later))
  ]
    where
      absent :
          (j k n : ℕ) (row : List (F × ℕ)) (x acc : F) (f : F)
          → IsRow j n ((f, k) ∷ row)
          → (k == j) ≡ false
          → field.plus acc (field.times (coefficient ((f, k) ∷ row) j) x) ≡ acc
      absent j k n row x acc f h later =
          rw (later, coefficient-below j (suc k) n row (h.2) (omega (arith, h.0)))
            (plus-absent acc x)

  -- A row against the whole vector.
  pub sum_products_lem :
      (v : List F) (row : List (F × ℕ))
      → IsRow 0 (length v) row
      → sum_products field v (field.nil) row ≡ ok (dot (coefficient row) 0 v (field.nil))
  sum_products_lem v row h = sum_products_from 0 v v (field.nil) row refl h
