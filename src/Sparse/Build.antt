-- ===== src/Sparse/Build.antt =====
-- `SparseMatrix::new` on sorted rows: the rows themselves, the missing ones empty.
use mathlib.Core.List.{append_assoc, append-nil}
use nexus_zkvm.Base.{
  ℕ, zero, suc, ◌+◌, ◌-◌, ◌≤◌, ◌≡◌, refl, ap, sym, ◌∙◌, arith, true, List, [], ◌∷◌, ◌++◌, map,
  length, get_elem?, some, set, replicate, length-append,
}
use nexus_zkvm.Base.Result.{ok}
use nexus_zkvm.Sparse.{Row, row_entries, entries, push_entries, all_increasing, from_rows, new}
use nexus_zkvm.Sparse.Dense.{IsRow, swap_row, increasing-swap_row}

-- Rows in increasing order of columns below `n`.
abbrev pub AreRows : {F : Type 0} → ℕ → List (List (F × ℕ)) → Type 0
AreRows n [] = Unit
AreRows n (row ∷ rows) = IsRow 0 n row × AreRows n rows

-- The given rows and empty ones, `rows` in all.
abbrev pub padded : {F : Type 0} → List (List (F × ℕ)) → ℕ → List (List (F × ℕ))
padded matrix rows = matrix ++ replicate (rows - length matrix) []

get_elem?-at {ℓ} :
    {A : Type ℓ} (xs ys : List A) (x : A) → get_elem? (xs ++ x ∷ ys) (length xs) ≡ some x
get_elem?-at [] ys x = refl
get_elem?-at (y ∷ xs) ys x = get_elem?-at xs ys x

set-at {ℓ} :
    {A : Type ℓ} (xs ys : List A) (x v : A) → set (xs ++ x ∷ ys) (length xs) v ≡ xs ++ v ∷ ys
set-at [] ys x v = refl
set-at (y ∷ xs) ys x v = ap (λ l. y ∷ l) (set-at xs ys x v)

module _ {F : Type 0} where
  -- The entries of a row go to its place.
  push_row :
      (row : List (F × ℕ)) (es : List (ℕ × ℕ × F)) (done rest : List (Row F)) (r : Row F)
      → push_entries (row_entries (length done) row ++ es) (done ++ r ∷ rest)
        ≡ push_entries es (done ++ (r ++ swap_row row) ∷ rest)
  unfolding push_entries
  push_row [] es done rest r = ap (λ x. push_entries es (done ++ x ∷ rest)) (sym (append-nil r))
  push_row ((f, j) ∷ row) es done rest r =
      rw (get_elem?-at done rest r, set-at done rest r (r ++ (j, f) ∷ []))
        (push_row row es done rest (r ++ (j, f) ∷ [])
          ∙ ap (λ x. push_entries es (done ++ x ∷ rest))
              (append_assoc r ((j, f) ∷ []) (swap_row row)))

  push_entries_lem :
      (matrix : List (List (F × ℕ))) (done : List (Row F)) (k : ℕ)
      → length matrix ≤ k
      → push_entries (entries (length done) matrix) (done ++ replicate k [])
        ≡ ok (done ++ map swap_row matrix ++ replicate (k - length matrix) [])
  unfolding push_entries
  push_entries_lem [] done k h = let e : k - 0 ≡ k = omega arith in rw (e, append-nil done) refl
  push_entries_lem (row ∷ matrix) done zero h = absurd (omega arith)
  push_entries_lem (row ∷ matrix) done (suc k) h =
      push_row row (entries (length done + 1) matrix) done (replicate k []) []
      ∙ ap (λ i. push_entries (entries i matrix) (done ++ swap_row row ∷ replicate k []))
          (sym longer)
      ∙ ap (push_entries (entries (length (done ++ swap_row row ∷ [])) matrix))
          (sym (append_assoc done (swap_row row ∷ []) (replicate k [])))
      ∙ push_entries_lem matrix (done ++ swap_row row ∷ []) k (omega (arith, h))
      ∙ ap (λ l. ok (l ++ replicate (k - length matrix) []))
          (append_assoc done (swap_row row ∷ []) (map swap_row matrix))
      ∙ ap (λ i. ok (done ++ swap_row row ∷ map swap_row matrix ++ replicate i [])) fewer
    where
      longer : length (done ++ swap_row row ∷ []) ≡ length done + 1
      longer = length-append done (swap_row row ∷ [])

      fewer : k - length matrix ≡ suc k - length (row ∷ matrix)
      fewer = omega arith

  all_increasing-rows :
      (n : ℕ) (matrix : List (List (F × ℕ)))
      → AreRows n matrix
      → all_increasing (map swap_row matrix) ≡ true
  all_increasing-rows n [] h = refl
  all_increasing-rows n (row ∷ rows) h =
      rw (increasing-swap_row 0 n row (h.0)) (all_increasing-rows n rows (h.1))

  pub AreRows-padded :
      (n k : ℕ) (matrix : List (List (F × ℕ)))
      → AreRows n matrix
      → AreRows n (matrix ++ replicate k [])
  AreRows-padded n zero [] h = h
  AreRows-padded n (suc k) [] h = (h, AreRows-padded n k [] h)
  AreRows-padded n k (row ∷ rows) h = (h.0, AreRows-padded n k rows (h.1))

  map-padded :
      (k : ℕ) (matrix : List (List (F × ℕ)))
      → map swap_row (matrix ++ replicate k []) ≡ map swap_row matrix ++ replicate k []
  map-padded zero [] = refl
  map-padded (suc k) [] = ap (λ rows. [] ∷ rows) (map-padded k [])
  map-padded k (row ∷ rows) = ap (λ rest. swap_row row ∷ rest) (map-padded k rows)

  -- `new` of at most `rows` sorted rows compresses them and empty rows up to `rows`.
  pub new_lem :
      (matrix : List (List (F × ℕ))) (rows cols : ℕ)
      → length matrix ≤ rows
      → AreRows cols matrix
      → new matrix rows cols ≡ ok (from_rows (map swap_row (padded matrix rows)) cols)
  unfolding new
  new_lem matrix rows cols h sorted =
      rw (push_entries_lem matrix [] rows h, sym (map-padded (rows - length matrix) matrix))
        (rw
          (all_increasing-rows cols (padded matrix rows)
            (AreRows-padded cols (rows - length matrix) matrix sorted))
          refl)
