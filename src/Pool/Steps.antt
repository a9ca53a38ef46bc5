-- ===== src/Pool/Steps.antt =====
-- The pool under the threads that use it, one operation at a time. `live` holds the ids that are out:
-- its holder writes, reads, publishes and claims it, and gives the block back once, by `release`, by
-- dropping the handle, or by `free` on the pool.
use nexus_zkvm.Base.{
  ℕ, ◌+◌, ◌*◌, ◌%◌, ◌^◌, ◌<◌, ◌≡◌, ◌≢◌, refl, ap, sym, ◌∙◌, subst, arith, ◌⊎◌, inl, inr, Bool, true,
  false, Bool-cases, Option, none, some, List, [], ◌∷◌, ◌++◌, ltb, ◌==◌, if◌then◌else◌, length, set,
  get_or, length-set, length-replicate, get_or-set_self, get_or-set_ne, get_or-replicate,
}
use nexus_zkvm.Base.Result.{ok}
use nexus_zkvm.Pool.{
  SegQueue, BlockPool, BufHandle, handle, down, push_all, new_pool, allocated, alloc, claim, free,
  is_free, write, read, drop_handle, into_id, release,
}
use nexus_zkvm.Pool.Queue.{
  count, erase, count-down, length-down, count-erase, length-erase, pop-cases, ids-push_all,
  count-push, length-push,
}

-- The ids of a pool for so many cores.
abbrev pub num_ids : ℕ → ℕ
num_ids num_cores = num_cores * 2 % 2 ^ 32

module _ {P Q : Type 0} (queue : SegQueue Q) where
  pub data Step (pool : BlockPool P Q) (live : List ℕ) (pool' : BlockPool P Q) (live' : List ℕ)
      : Type 0 where
    allocates :
        (h : BufHandle)
        → alloc queue pool ≡ some (h, pool')
        → live' ≡ h.id ∷ live
        → Step pool live pool' live'
    writes :
        (h : BufHandle) (value : P)
        → 0 < count (h.id) live
        → write queue h value pool ≡ ok pool'
        → live' ≡ live
        → Step pool live pool' live'
    reads :
        (h : BufHandle) (value : P)
        → 0 < count (h.id) live
        → read queue h pool ≡ ok (value, pool')
        → live' ≡ live
        → Step pool live pool' live'
    publishes :
        (h : BufHandle) (i : ℕ)
        → into_id queue h pool ≡ ok (i, pool')
        → live' ≡ live
        → Step pool live pool' live'
    releases :
        (h : BufHandle)
        → 0 < count (h.id) live
        → release queue h pool ≡ ok pool'
        → live' ≡ erase (h.id) live
        → Step pool live pool' live'
    drops :
        (h : BufHandle)
        → h.released ≡ false
        → 0 < count (h.id) live
        → drop_handle queue h pool ≡ ok pool'
        → live' ≡ erase (h.id) live
        → Step pool live pool' live'
    claims :
        (i : ℕ) (h : BufHandle)
        → 0 < count i live
        → claim queue i pool ≡ some h
        → pool' ≡ pool
        → live' ≡ live
        → Step pool live pool' live'
    frees :
        (i : ℕ)
        → 0 < count i live
        → free queue i pool ≡ ok pool'
        → live' ≡ erase i live
        → Step pool live pool' live'
    scans :
        (i : ℕ) (b : Bool)
        → is_free queue i pool ≡ (b, pool')
        → live' ≡ live
        → Step pool live pool' live'

  -- The states of a pool that starts with every block free.
  pub data Reach (num_cores : ℕ) : BlockPool P Q → List ℕ → Type 0 where
    start : Reach num_cores (new_pool queue num_cores) []
    step :
        {pool pool' : BlockPool P Q} {live live' : List ℕ}
        → Reach num_cores pool live
        → Step pool live pool' live'
        → Reach num_cores pool' live'

  -- Every id is held once, by the queue or by a thread; the block of a free id is empty.
  pub record IsValid (num_cores : ℕ) (pool : BlockPool P Q) (live : List ℕ) : Type 0 where
    pub sized : length (pool.blocks) ≡ num_cores * 2
    pub once :
        (i : ℕ)
        → count i (queue.ids (pool.free_ids)) + count i live
          ≡ (if ltb i (num_ids num_cores) then 1 else 0)
    pub total : length (queue.ids (pool.free_ids)) + length live ≡ num_ids num_cores
    pub clean :
        (i : ℕ) → 0 < count i (queue.ids (pool.free_ids)) → get_or (pool.blocks) i none ≡ none

  pub new_pool-IsValid : (num_cores : ℕ) → IsValid num_cores (new_pool queue num_cores) []
  unfolding new_pool
  new_pool-IsValid n = record {
    sized = length-replicate (n * 2) none;
    once = λ i. rw ids (omega (arith, count-down i (num_ids n)));
    total = rw ids (omega (arith, length-down (num_ids n)));
    clean = λ i h. get_or-replicate (n * 2) i none;
  }
    where
      ids : queue.ids (push_all queue (down (num_ids n)) queue.new) ≡ down (num_ids n)
      ids =
          ids-push_all queue (down (num_ids n)) queue.new
          ∙ ap (λ xs. xs ++ down (num_ids n)) queue.ids-new

  pub alloc-cases :
      (pool : BlockPool P Q)
      → ((alloc queue pool ≡ none) × (queue.ids (pool.free_ids) ≡ []))
        ⊎ ((i : ℕ) × (q : Q) × (alloc queue pool ≡ some (handle i, record pool { free_ids = q }))
            × (queue.ids (pool.free_ids) ≡ i ∷ queue.ids q))
  unfolding alloc allocated
  alloc-cases pool = elim (pop-cases queue (pool.free_ids)) [
    | inl (stopped, nothing) ↦ inl (rw stopped refl, nothing)
    | inr (i, q, taken, rest) ↦ inr (i, q, rw taken refl, rest)
  ]

  -- An id that is out is not free.
  held_apart :
      {num_cores : ℕ} (i j : ℕ) (pool : BlockPool P Q) (live : List ℕ)
      → IsValid num_cores pool live
      → 0 < count i live
      → 0 < count j (queue.ids (pool.free_ids))
      → i ≢ j
  held_apart {num_cores} i j pool live v held free_too e =
      ground
        (arith, v.once i, subst (λ k. 0 < count k (queue.ids (pool.free_ids))) (sym e) free_too)

  pub write-IsValid :
      (num_cores i : ℕ) (slot : Option P) (pool : BlockPool P Q) (live : List ℕ)
      → IsValid num_cores pool live
      → 0 < count i live
      → IsValid num_cores (record pool { blocks = set (pool.blocks) i slot }) live
  write-IsValid n i slot pool live v held = record {
    sized = length-set (pool.blocks) i slot ∙ v.sized;
    once = v.once;
    total = v.total;
    clean = λ j h.
        get_or-set_ne (pool.blocks) i j slot none (λ e. held_apart i j pool live v held h e)
        ∙ v.clean j h;
  }

  -- A block given back: emptied, and its id behind the others.
  pub freed-IsValid :
      (num_cores i : ℕ) (pool : BlockPool P Q) (live : List ℕ)
      → IsValid num_cores pool live
      → 0 < count i live
      → i < length (pool.blocks)
      → IsValid num_cores
          (record { blocks = set (pool.blocks) i none; free_ids = queue.push i (pool.free_ids) })
          (erase i live)
  freed-IsValid n i pool live v held inside = record {
    sized = length-set (pool.blocks) i none ∙ v.sized;
    once = λ j.
        ground (arith, v.once j, count-push queue j i (pool.free_ids), count-erase i j live held);
    total = omega (arith, v.total, length-push queue i (pool.free_ids), length-erase i live held);
    clean = λ j h. elim (Bool-cases (i == j)) [
      | inl here ↦
          subst (λ k. get_or (set (pool.blocks) i none) k none ≡ none) (eq i j here)
            (get_or-set_self (pool.blocks) i none none inside)
      | inr other ↦
          get_or-set_ne (pool.blocks) i j none none (λ e. apart i j other e)
          ∙ v.clean j (ground (arith, count-push queue j i (pool.free_ids)))
    ];
  }
    where
      eq : (i j : ℕ) → (i == j) ≡ true → i ≡ j
      eq i j h = ground arith

      apart : (i j : ℕ) → (i == j) ≡ false → i ≢ j
      apart i j h e = ground arith
