-- ===== src/Examples/Trees.antt =====
-- A sparse matrix over the natural numbers, and a heap of four leaves.
use nexus_zkvm.Base.{ℕ, ◌+◌, ◌*◌, ◌^◌, ◌<◌, ◌≤◌, ◌≡◌, arith, some, List, [], ◌∷◌, ◌==◌}
use nexus_zkvm.Base.Result.{ok, ◌>>=◌}
use nexus_zkvm.Sparse.{Field, new, multiply_vec}
use nexus_zkvm.Sparse.Build.{padded}
use nexus_zkvm.Sparse.Multiply.{dense, multiply_vec-new}
use nexus_zkvm.Tasks.Heap
use nexus_zkvm.Tasks.Heap.{is_leaf, level, col}
use nexus_zkvm.Tasks.Level.{level-col}

abbrev numbers : Field ℕ
numbers = record {
  nil = 0;
  plus = λ a b. a + b;
  times = λ a b. a * b;
  plus-nil = λ a. omega arith;
  times-nil = λ a. omega arith;
}

abbrev two_rows : List (List (ℕ × ℕ))
two_rows = ((2, 1) ∷ (7, 2) ∷ []) ∷ ((4, 0) ∷ []) ∷ []

multiply_vec-new_example :
    (new two_rows 3 3 >>= λ m. multiply_vec numbers m (1 ∷ 2 ∷ 3 ∷ []))
    ≡ ok (dense numbers (padded two_rows 3) (1 ∷ 2 ∷ 3 ∷ []))
multiply_vec-new_example = multiply_vec-new numbers two_rows 3 (1 ∷ 2 ∷ 3 ∷ []) (omega arith) (
  (omega arith, omega arith, (omega arith, omega arith, tt)),
  ((omega arith, omega arith, tt), tt),
)

level-col_example :
    (l : ℕ) × (c : ℕ) × (level 4 (Heap.new 2) ≡ some l)
    × (col 4 (Heap.new 2) ≡ some c)
    × (4 + 1 ≡ 2 ^ l + c)
    × (c < 2 ^ l)
    × (l ≤ 2)
    × (is_leaf 4 (Heap.new 2) ≡ (l == 2))
level-col_example = level-col 2 4 (omega arith)
