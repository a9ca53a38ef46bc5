-- ===== src/Pool/Handles.antt =====
-- A value written through one handle and read through another.
use nexus_zkvm.Base.{
  ℕ, zero, suc, ◌≡◌, refl, ap, ◌∙◌, arith, true, Bool-cases, inl, inr, none, some, List, [], ◌∷◌,
  ltb, if◌then◌else◌, length, set, get_elem?, length-set, get_elem?-past, get_elem?-inside,
}
use nexus_zkvm.Base.Result.{Result, ok, panic, ◌>>=◌, from_option}
use nexus_zkvm.Pool.{
  SegQueue, BlockPool, BufHandle, can_edit, claim, write, read, drop_handle, into_id,
}

get_elem?-set {ℓ} :
    {A : Type ℓ} (xs : List A) (i : ℕ) (v : A)
    → get_elem? (set xs i v) i ≡ (if ltb i (length xs) then some v else none)
get_elem?-set [] i v = ground arith
get_elem?-set (x ∷ xs) zero v = ground arith
get_elem?-set (x ∷ xs) (suc i) v = get_elem?-set xs i v ∙ ground arith

set-set {ℓ} : {A : Type ℓ} (xs : List A) (i : ℕ) (v w : A) → set (set xs i v) i w ≡ set xs i w
set-set [] i v w = refl
set-set (x ∷ xs) zero v w = refl
set-set (x ∷ xs) (suc i) v w = ap (λ ys. x ∷ ys) (set-set xs i v w)

module _ {P Q : Type 0} (queue : SegQueue Q) where
  -- What a child does, and then its parent: write, publish the id, claim it, read.
  abbrev pub hand_over : BufHandle → P → BlockPool P Q → Result (P × BlockPool P Q)
  hand_over h value pool = write queue h value pool >>= into_id queue h >>= λ r.
      from_option (claim queue (r.0) (r.1)) >>= λ h'. read queue h' (r.1)

  -- A value written through a handle is read back through a claim of the id that it published, which
  -- empties the block, where the id is one of the pool's; otherwise the write panics.
  pub read-write :
      (h : BufHandle) (value : P) (pool : BlockPool P Q)
      → hand_over h value pool ≡ (
          if can_edit queue (h.id) pool
          then ok (value, record pool { blocks = set (pool.blocks) (h.id) none })
          else panic)
  unfolding write into_id drop_handle claim read
  read-write h value pool = elim (Bool-cases (can_edit queue (h.id) pool)) [
    | inl inside ↦
        let (old, at) = get_elem?-inside (pool.blocks) (h.id) (ground arith) in
        let here : get_elem? (set (pool.blocks) (h.id) (some value)) (h.id) ≡ some (some value) =
          get_elem?-set (pool.blocks) (h.id) (some value) ∙ rw inside refl in
        let length-kept : ltb (h.id) (length (set (pool.blocks) (h.id) (some value))) ≡ true =
          rw (length-set (pool.blocks) (h.id) (some value)) inside in
        rw (inside, at)
          (rw length-kept (rw (here, set-set (pool.blocks) (h.id) (some value) none) refl))
    | inr outside ↦ rw (outside, get_elem?-past (pool.blocks) (h.id) (ground arith)) refl
  ]
