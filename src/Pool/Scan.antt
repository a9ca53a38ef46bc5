-- ===== src/Pool/Scan.antt =====
-- `is_free`: the scan finds the ids of the queue, and puts them back the other way round.
use mathlib.Core.List.{reverse, reverse-cons}
use nexus_zkvm.Base.{
  ℕ, zero, suc, ◌+◌, ◌≡◌, refl, ap, sym, ◌∙◌, arith, inl, inr, Bool, ◌||◌, ◌&&◌, Bool-cases, List,
  [], ◌∷◌, ◌++◌, ltb, ◌==◌, if◌then◌else◌, length, length-append,
}
use nexus_zkvm.Pool.{SegQueue, BlockPool, scanned, pop_all, push_all, is_free, can_edit}
use nexus_zkvm.Pool.Queue.{count, count-append, pop-cases, ids-push_all}

pub count-reverse : (i : ℕ) (xs : List ℕ) → count i (reverse xs) ≡ count i xs
count-reverse i [] = refl
count-reverse i (x ∷ xs) =
    ap (count i) (reverse-cons x xs)
    ∙ omega (arith, count-append i (reverse xs) (x ∷ []), count-reverse i xs)

pub length-reverse : (xs : List ℕ) → length (reverse xs) ≡ length xs
length-reverse [] = refl
length-reverse (x ∷ xs) =
    ap length (reverse-cons x xs)
    ∙ omega (arith, length-append (reverse xs) (x ∷ []), length-reverse xs)

length_zero : (xs : List ℕ) → length xs ≡ 0 → xs ≡ []
length_zero [] e = refl
length_zero (x ∷ xs) e = absurd (omega arith)

held-cons :
    (i x n : ℕ) (b : Bool) → b ≡ ltb 0 n → (x == i) || b ≡ ltb 0 ((if i == x then 1 else 0) + n)
held-cons i x n b e = ground arith

module _ {Q : Type 0} (queue : SegQueue Q) where
  -- Popping as often as the queue is long empties it, in its order.
  record IsScanned (i : ℕ) (ids : List ℕ) (r : Bool × List ℕ × Q) : Type 0 where
    pub found : r.0 ≡ ltb 0 (count i ids)
    pub popped : r.1 ≡ ids
    pub empty : queue.ids (r.2) ≡ []

  pop_all-IsScanned :
      (n i : ℕ) (q : Q) → length (queue.ids q) ≡ n → IsScanned i (queue.ids q) (pop_all queue n i q)
  unfolding pop_all scanned
  pop_all-IsScanned zero i q e =
      let nothing : queue.ids q ≡ [] = length_zero (queue.ids q) e in
      record { found = rw nothing refl; popped = sym nothing; empty = nothing }
  pop_all-IsScanned (suc n) i q e = elim (pop-cases queue q) [
    | inl (stopped, nothing) ↦ absurd (omega (arith, rw nothing at e))
    | inr (x, q', taken, rest) ↦
        let r : IsScanned i (queue.ids q') (pop_all queue n i q') =
          pop_all-IsScanned n i q' (omega (arith, rw rest at e)) in
        rw (taken, rest)
          (record {
            found = held-cons i x (count i (queue.ids q')) (pop_all queue n i q').0 (r.found);
            popped = ap (λ ys. x ∷ ys) (r.popped);
            empty = r.empty;
          })
  ]

  -- `is_free` answers whether the id is one of the pool's and in the queue, and changes no block. The
  -- scan of an id of the pool leaves the queue in the reverse of its order.
  pub is_free_lem :
      {P : Type 0} (i : ℕ) (pool : BlockPool P Q)
      → ((is_free queue i pool).0
          ≡ can_edit queue i pool && ltb 0 (count i (queue.ids (pool.free_ids))))
        × ((is_free queue i pool).1.blocks ≡ pool.blocks)
        × (queue.ids ((is_free queue i pool).1.free_ids) ≡ (
            if can_edit queue i pool
            then reverse (queue.ids (pool.free_ids))
            else queue.ids (pool.free_ids)))
  unfolding is_free
  is_free_lem i pool = elim (Bool-cases (can_edit queue i pool)) [
    | inl inside ↦ rw inside (r.found, refl, put_back)
    | inr outside ↦ rw outside (refl, refl, refl)
  ]
    where
      r :
          IsScanned i
            (queue.ids (pool.free_ids))
            (pop_all queue (queue.len (pool.free_ids)) i (pool.free_ids))
      r =
          pop_all-IsScanned (queue.len (pool.free_ids)) i (pool.free_ids)
            (sym (queue.len-ids (pool.free_ids)))

      put_back :
          queue.ids (
            push_all queue
              (reverse (pop_all queue (queue.len (pool.free_ids)) i (pool.free_ids)).1)
              (pop_all queue (queue.len (pool.free_ids)) i (pool.free_ids)).2)
          ≡ reverse (queue.ids (pool.free_ids))
      put_back =
          ids-push_all queue _ _
          ∙ ap (λ xs. xs ++ reverse (pop_all queue (queue.len (pool.free_ids)) i (pool.free_ids)).1)
              (r.empty)
          ∙ ap reverse (r.popped)
