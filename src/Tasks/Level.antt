-- ===== src/Tasks/Level.antt =====
-- Levels and columns of the heap: the rounded-down logarithm of an index, and the rest.
use native.Mathlib.Nat.{pow-succ', pow-le-pow_right, one-le-pow}
use native.Mathlib.Decide.{dec_lt}
use nexus_zkvm.Base.{
  ℕ, zero, suc, ◌+◌, ◌-◌, ◌*◌, ◌/◌, ◌^◌, ◌≤◌, ◌<◌, ◌≡◌, refl, ap, ◌∙◌, arith, inl, inr, false,
  Bool-cases, some, subst, leb, ltb, ◌==◌,
}
use nexus_zkvm.Tasks.Heap.{new, is_leaf, halvings, ilog2, level, col}

-- `ilog2` is the rounded-down logarithm.
pow-suc-one : (l : ℕ) → 2 ^ (l + 1) ≡ 2 * 2 ^ l
pow-suc-one l = let e : l + 1 ≡ suc l = omega arith in ap (λ i. 2 ^ i) e ∙ pow-succ' 2 l

halvings_bounds :
    (fuel n : ℕ) → 0 < n → n ≤ fuel → (2 ^ halvings fuel n ≤ n) × (n < 2 * 2 ^ halvings fuel n)
unfolding halvings
halvings_bounds zero n pos enough = absurd (omega arith)
halvings_bounds (suc fuel) n pos enough = elim (Bool-cases (ltb n 2)) [
  | inl small ↦ rw small (ground arith)
  | inr large ↦
      let (low, high) = halvings_bounds fuel (n / 2) (ground arith) (ground arith) in
      rw (large, pow-suc-one (halvings fuel (n / 2))) (omega (arith, low, high))
]

-- Nothing between two powers has another logarithm.
log_le : (l k : ℕ) → 2 ^ l < 2 * 2 ^ k → l ≤ k
log_le l k h = elim (dec_lt k l) [
  | yes above ↦
      let le : 2 ^ suc k ≤ 2 ^ l = pow-le-pow_right (omega arith) (omega (arith, above)) in
      absurd (omega (arith, h, le, pow-succ' 2 k))
  | no within ↦ omega arith
]

-- In the heap of depth `k`, an index has a level and a column: one more than the index is the power
-- of two of the level and the column, which is below that power. No level is above `k`, and the
-- leaves are those of level `k`.
pub level-col :
    (k idx : ℕ)
    → idx < 2 * 2 ^ k - 1
    → (l : ℕ) × (c : ℕ) × (level idx (new k) ≡ some l)
      × (col idx (new k) ≡ some c)
      × (idx + 1 ≡ 2 ^ l + c)
      × (c < 2 ^ l)
      × (l ≤ k)
      × (is_leaf idx (new k) ≡ (l == k))
unfolding level col new is_leaf ilog2
level-col k idx inside =
    let (low, high) = halvings_bounds (idx + 1) (idx + 1) (omega arith) (omega arith) in
    let there : leb (2 * 2 ^ k - 1) idx ≡ false = ground arith in
    (
      ilog2 (idx + 1),
      idx - (2 ^ ilog2 (idx + 1) - 1),
      rw there refl,
      rw there refl,
      omega (arith, low, one-le-pow (halvings (idx + 1) (idx + 1)) 2 (omega arith)),
      omega (arith, low, high),
      depth,
      edge,
    )
  where
    depth : ilog2 (idx + 1) ≤ k
    depth =
        let (low, high) = halvings_bounds (idx + 1) (idx + 1) (omega arith) (omega arith) in
        log_le (ilog2 (idx + 1)) k (omega (arith, low, inside))

    edge : leb (2 * 2 ^ k - 1 - 2 ^ k) idx ≡ (ilog2 (idx + 1) == k)
    edge = elim (dec_lt (ilog2 (idx + 1)) k) [
      | yes above ↦
          let (low, high) = halvings_bounds (idx + 1) (idx + 1) (omega arith) (omega arith) in
          let le : 2 ^ suc (ilog2 (idx + 1)) ≤ 2 ^ k =
            pow-le-pow_right (omega arith) (omega (arith, above)) in
          ground (arith, high, le, above, pow-succ' 2 (ilog2 (idx + 1)))
      | no at ↦
          let (low, high) = halvings_bounds (idx + 1) (idx + 1) (omega arith) (omega arith) in
          let same : ilog2 (idx + 1) ≡ k = omega (arith, at, depth) in
          let low' : 2 ^ k ≤ idx + 1 = subst (λ l. 2 ^ l ≤ idx + 1) same low in
          ground (arith, low', same)
    ]
