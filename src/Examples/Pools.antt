-- ===== src/Examples/Pools.antt =====
-- A pool of two blocks, whose queue is a list.
use mathlib.Core.Option
use nexus_zkvm.Base.{
  ℕ, ◌+◌, ◌<◌, ◌≡◌, refl, arith, some, none, List, [], ◌∷◌, ◌++◌, ◌&&◌, ltb, if◌then◌else◌, length,
  get_or, set,
}
use nexus_zkvm.Base.Result.{ok, panic, ◌>>=◌}
use mathlib.Core.List.{reverse}
use nexus_zkvm.Pool.{
  SegQueue, BlockPool, BufHandle, handle, uncons, new_pool, push_all, allocated, alloc, free,
  is_free, can_edit, free_count,
}
use nexus_zkvm.Pool.Queue.{count}
use nexus_zkvm.Pool.Scan.{is_free_lem}
use nexus_zkvm.Pool.Steps.{num_ids, Reach, start, step, allocates, IsValid}
use nexus_zkvm.Pool.Valid.{Reach-IsValid, Reach-alloc}
use nexus_zkvm.Pool.Handles.{hand_over, read-write}

ids_pop : (q : List ℕ) → Option.map (λ p. (p.0, p.1)) (uncons q) ≡ uncons q
ids_pop [] = refl
ids_pop (x ∷ xs) = refl

abbrev lists : SegQueue (List ℕ)
lists = record {
  new = [];
  push = λ x q. q ++ x ∷ [];
  pop = uncons;
  len = length;
  ids = λ q. q;
  ids-new = refl;
  ids-push = λ x q. refl;
  ids-pop = λ q. ids_pop q;
  len-ids = λ q. refl;
}

abbrev pool : BlockPool ℕ (List ℕ)
pool = record { blocks = none ∷ none ∷ []; free_ids = 1 ∷ 0 ∷ [] }

starts : new_pool lists 1 ≡ pool
unfolding new_pool push_all
starts = refl

abbrev taken : BlockPool ℕ (List ℕ)
taken = record { blocks = none ∷ none ∷ []; free_ids = 0 ∷ [] }

takes : alloc lists pool ≡ some (handle 1, taken)
unfolding alloc allocated
takes = refl

one_out : Reach lists 1 taken (1 ∷ [])
unfolding new_pool push_all
one_out = step start (allocates (handle 1) takes refl)

Reach-IsValid_example : IsValid lists 1 taken (1 ∷ [])
Reach-IsValid_example = Reach-IsValid lists 1 taken (1 ∷ []) one_out

Reach-alloc_example :
    (h : BufHandle) × (pool' : BlockPool ℕ (List ℕ)) × (alloc lists taken ≡ some (h, pool'))
    × (count (h.id) (1 ∷ []) ≡ 0)
    × (h.id < num_ids 1)
    × (get_or (pool'.blocks) (h.id) none ≡ none)
    × (free_count lists pool' + length {A = ℕ} (1 ∷ []) + 1 ≡ num_ids 1)
Reach-alloc_example = Reach-alloc lists 1 taken (1 ∷ []) one_out (omega arith)

read-write_example : hand_over lists (handle 1) 7 taken ≡ (
    if can_edit lists 1 taken
    then ok (7, record taken { blocks = set (taken.blocks) 1 none })
    else panic)
read-write_example = read-write lists (handle 1) 7 taken

is_free_lem_example :
    ((is_free lists 0 pool).0 ≡ can_edit lists 0 pool && ltb 0 (count 0 (pool.free_ids)))
    × ((is_free lists 0 pool).1.blocks ≡ pool.blocks)
    × ((is_free lists 0 pool).1.free_ids
        ≡ (if can_edit lists 0 pool then reverse (pool.free_ids) else pool.free_ids))
is_free_lem_example = is_free_lem lists 0 pool

-- `free` does not look whether its id is out: an id freed twice is queued twice.
freed_twice :
    (free lists 1 taken >>= free lists 1)
    ≡ ok (record { blocks = none ∷ none ∷ []; free_ids = 0 ∷ 1 ∷ 1 ∷ [] })
unfolding free
freed_twice = refl
