-- ===== src/Pool/Queue.antt =====
-- The queue of free ids: what pushes and pops do to the ids it holds, and how often each is held.
use nexus_zkvm.Base.{
  ℕ, zero, suc, ◌+◌, ◌<◌, ◌≡◌, refl, ap, sym, ◌∙◌, arith, ◌⊎◌, inl, inr, Option, none, some, List,
  [], ◌∷◌, ◌++◌, ltb, ◌==◌, if◌then◌else◌, length, length-append,
}
use mathlib.Core.Option
use mathlib.Core.List.{append_assoc, append-nil}
use nexus_zkvm.Pool.{SegQueue, uncons, push_all, down}

abbrev pub count : ℕ → List ℕ → ℕ
count i [] = 0
count i (x ∷ xs) = (if i == x then 1 else 0) + count i xs

-- Without the first `i`.
abbrev pub erase : ℕ → List ℕ → List ℕ
erase i [] = []
erase i (x ∷ xs) = if i == x then xs else x ∷ erase i xs

pub count-append : (i : ℕ) (xs ys : List ℕ) → count i (xs ++ ys) ≡ count i xs + count i ys
count-append i [] ys = omega arith
count-append i (x ∷ xs) ys = omega (arith, count-append i xs ys)

pub count-down : (i n : ℕ) → count i (down n) ≡ (if ltb i n then 1 else 0)
count-down i zero = ground arith
count-down i (suc n) = ground (arith, count-down i n)

pub length-down : (n : ℕ) → length (down n) ≡ n
length-down zero = refl
length-down (suc n) = ap suc (length-down n)

pub count-erase :
    (i j : ℕ) (xs : List ℕ)
    → 0 < count i xs
    → count j (erase i xs) + (if i == j then 1 else 0) ≡ count j xs
count-erase i j [] h = absurd (omega arith)
count-erase i j (x ∷ xs) h = ground (arith, count-erase i j xs)

pub length-erase : (i : ℕ) (xs : List ℕ) → 0 < count i xs → length (erase i xs) + 1 ≡ length xs
length-erase i [] h = absurd (omega arith)
length-erase i (x ∷ xs) h = ground (arith, length-erase i xs)

module _ {Q : Type 0} (queue : SegQueue Q) where
  open_pop :
      (r : Option (ℕ × Q)) (xs : List ℕ)
      → Option.map (λ p. (p.0, queue.ids (p.1))) r ≡ uncons xs
      → ((r ≡ none) × (xs ≡ [])) ⊎ ((x : ℕ) × (q : Q) × (r ≡ some (x, q)) × (xs ≡ x ∷ queue.ids q))
  open_pop none [] e = inl (refl, refl)
  open_pop none (x ∷ xs) e = cc
  open_pop (some (y, q)) [] e = cc
  open_pop (some (y, q)) (x ∷ xs) e = inr (y, q, refl, cc)

  -- A pop takes the first id, or finds none.
  pub pop-cases :
      (q : Q)
      → ((queue.pop q ≡ none) × (queue.ids q ≡ []))
        ⊎ ((x : ℕ) × (q' : Q) × (queue.pop q ≡ some (x, q')) × (queue.ids q ≡ x ∷ queue.ids q'))
  pop-cases q = open_pop (queue.pop q) (queue.ids q) (queue.ids-pop q)

  pub ids-push_all : (xs : List ℕ) (q : Q) → queue.ids (push_all queue xs q) ≡ queue.ids q ++ xs
  unfolding push_all
  ids-push_all [] q = sym (append-nil (queue.ids q))
  ids-push_all (x ∷ xs) q =
      ids-push_all xs (queue.push x q)
      ∙ ap (λ ys. ys ++ xs) (queue.ids-push x q)
      ∙ append_assoc (queue.ids q) (x ∷ []) xs

  pub count-push :
      (i x : ℕ) (q : Q)
      → count i (queue.ids (queue.push x q)) ≡ count i (queue.ids q) + (if i == x then 1 else 0)
  count-push i x q =
      ap (count i) (queue.ids-push x q) ∙ omega (arith, count-append i (queue.ids q) (x ∷ []))

  pub length-push : (x : ℕ) (q : Q) → length (queue.ids (queue.push x q)) ≡ length (queue.ids q) + 1
  length-push x q = ap length (queue.ids-push x q) ∙ length-append (queue.ids q) (x ∷ [])
