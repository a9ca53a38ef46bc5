-- ===== src/Sparse.antt =====
-- Sparse matrices in compressed row form (nova/src/sparse.rs). The field is third-party code: a
-- parameter stands for it.
pub mod Dense
pub mod Build
pub mod Multiply
use nexus_zkvm.Base.{
  ℕ, zero, suc, ◌+◌, ◌-◌, ◌≡◌, Bool, true, false, ◌&&◌, Option, none, some, List, [], ◌∷◌, ◌++◌,
  map, ltb, leb, ◌==◌, if◌then◌else◌, length, set, take, drop, replicate,
}
use nexus_zkvm.Base.Result.{Result, ok, panic, ◌>>=◌, index}

-- The operations on the field that the products use, and the laws of its zero.
pub record Field (F : Type 0) : Type 0 where
  pub nil : F
  pub plus : F → F → F
  pub times : F → F → F
  pub plus-nil : (a : F) → plus a nil ≡ a
  pub times-nil : (a : F) → times nil a ≡ nil

pub record SparseMatrix (F : Type 0) : Type 0 where
  pub data_values : List F
  pub indices : List ℕ
  pub indptr : List ℕ
  pub cols : ℕ

-- A row under construction: columns with their values.
abbrev pub Row : Type 0 → Type 0
Row F = List (ℕ × F)

module _ {F : Type 0} where
  -- `matrix.iter().enumerate().flat_map(..)`, from row `i` on.
  abbrev pub row_entries : ℕ → List (F × ℕ) → List (ℕ × ℕ × F)
  row_entries i [] = []
  row_entries i ((f, j) ∷ row) = (i, j, f) ∷ row_entries i row

  abbrev pub entries : ℕ → List (List (F × ℕ)) → List (ℕ × ℕ × F)
  entries i [] = []
  entries i (row ∷ rows) = row_entries i row ++ entries (i + 1) rows

  -- The loop that pushes the entries.
  unfoldable pub push_entries : List (ℕ × ℕ × F) → List (Row F) → Result (List (Row F))
  push_entries [] m = ok m
  push_entries ((row, col, val) ∷ es) m =
      index m row >>= λ r. push_entries es (set m row (r ++ (col, val) ∷ []))

  -- `row.windows(2).all(|w| w[0].0 < w[1].0)`.
  abbrev pub increasing : Row F → Bool
  increasing [] = true
  increasing (a ∷ []) = true
  increasing (a ∷ b ∷ row) = ltb (a.0) (b.0) && increasing (b ∷ row)

  abbrev pub all_increasing : List (Row F) → Bool
  all_increasing [] = true
  all_increasing (row ∷ rows) = increasing row && all_increasing rows

  -- The row pointers, `p` entries being before.
  abbrev pub pointers : ℕ → List (Row F) → List ℕ
  pointers p [] = p ∷ []
  pointers p (row ∷ rows) = p ∷ pointers (p + length row) rows

  abbrev pub columns_of : List (Row F) → List ℕ
  columns_of [] = []
  columns_of (row ∷ rows) = map (λ e. e.0) row ++ columns_of rows

  abbrev pub values_of : List (Row F) → List F
  values_of [] = []
  values_of (row ∷ rows) = map (λ e. e.1) row ++ values_of rows

  abbrev pub from_rows : List (Row F) → ℕ → SparseMatrix F
  from_rows m cols = record {
    data_values = values_of m;
    indices = columns_of m;
    indptr = pointers 0 m;
    cols = cols;
  }

  unfoldable pub new : List (List (F × ℕ)) → ℕ → ℕ → Result (SparseMatrix F)
  new matrix rows cols = push_entries (entries 0 matrix) (replicate rows []) >>= λ m.
      if all_increasing m then ok (from_rows m cols) else panic

  abbrev pub zip : List F → List ℕ → List (F × ℕ)
  zip [] js = []
  zip (f ∷ fs) [] = []
  zip (f ∷ fs) (j ∷ js) = (f, j) ∷ zip fs js

-- `xs[p..q]`.
unfoldable pub slice {ℓ} : {A : Type ℓ} → List A → ℕ → ℕ → Result (List A)
slice xs p q = if leb p q && leb q (length xs) then ok (take (q - p) (drop p xs)) else panic

module _ {F : Type 0} (field : Field F) where
  unfoldable pub get_row_unchecked : SparseMatrix F → ℕ → ℕ → Result (List (F × ℕ))
  get_row_unchecked m p q =
      slice (m.data_values) p q >>= λ fs. slice (m.indices) p q >>= λ js. ok (zip fs js)

  -- The sum of the products, added to `acc` from the left.
  unfoldable pub sum_products : List F → F → List (F × ℕ) → Result F
  sum_products vector acc [] = ok acc
  sum_products vector acc ((val, col) ∷ row) =
      index vector col >>= λ x. sum_products vector (field.plus acc (field.times val x)) row

  -- The windows of two row pointers, each a row.
  unfoldable pub multiply_rows : SparseMatrix F → List F → List ℕ → Result (List F)
  multiply_rows m vector [] = ok []
  multiply_rows m vector (p ∷ []) = ok []
  multiply_rows m vector (p ∷ q ∷ ptrs) = get_row_unchecked m p q >>= λ row.
      sum_products vector (field.nil) row >>= λ x.
      multiply_rows m vector (q ∷ ptrs) >>= λ xs. ok (x ∷ xs)

  unfoldable pub multiply_vec_unchecked : SparseMatrix F → List F → Result (List F)
  multiply_vec_unchecked m vector = multiply_rows m vector (m.indptr)

  unfoldable pub multiply_vec : SparseMatrix F → List F → Result (List F)
  multiply_vec m vector = if m.cols == length vector then multiply_vec_unchecked m vector else panic
