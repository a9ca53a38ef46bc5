-- ===== src/Pool.antt =====
-- The pool of payload buffers (nova/src/parallel_tree/block_pool.rs). The queue of free ids is
-- `crossbeam_queue::SegQueue`, third-party code: a parameter stands for it. The mutex of a block and
-- the `Cell` of a handle are the state they protect, and a panic ends the run.
pub mod Queue
pub mod Scan
pub mod Steps
pub mod Valid
pub mod Handles
use nexus_zkvm.Base.{
  ℕ, zero, suc, ◌*◌, ◌%◌, ◌^◌, ◌≡◌, Bool, true, false, Option, none, some, List, [], ◌∷◌, ◌++◌, ltb,
  ◌==◌, ◌||◌, if◌then◌else◌, length, set, replicate,
}
use mathlib.Core.List.{reverse}
use mathlib.Core.Option
use nexus_zkvm.Base.Result.{Result, ok, panic, ◌>>=◌, from_option, index}

-- The head of a list and the rest.
abbrev pub uncons {ℓ} : {A : Type ℓ} → List A → Option (A × List A)
uncons [] = none
uncons (x ∷ xs) = some (x, xs)

-- A first-in first-out queue of ids, with the ids it holds in the order they leave it.
pub record SegQueue (Q : Type 0) : Type 0 where
  pub new : Q
  pub push : ℕ → Q → Q
  pub pop : Q → Option (ℕ × Q)
  pub len : Q → ℕ
  pub ids : Q → List ℕ
  pub ids-new : ids new ≡ []
  pub ids-push : (x : ℕ) (q : Q) → ids (push x q) ≡ ids q ++ x ∷ []
  pub ids-pop : (q : Q) → Option.map (λ p. (p.0, ids p.1)) (pop q) ≡ uncons (ids q)
  pub len-ids : (q : Q) → len q ≡ length (ids q)

pub record BlockPool (P Q : Type 0) : Type 0 where
  pub blocks : List (Option P)
  pub free_ids : Q

-- A handle on a block; its pool is passed beside it.
pub record BufHandle : Type 0 where
  pub id : ℕ
  pub released : Bool

-- `(0..n).rev()`.
abbrev pub down : ℕ → List ℕ
down zero = []
down (suc n) = n ∷ down n

-- A fresh handle: `BufHandle::new`.
abbrev pub handle : ℕ → BufHandle
handle i = record { id = i; released = false }

module _ {Q : Type 0} (queue : SegQueue Q) where
  unfoldable pub push_all : List ℕ → Q → Q
  push_all [] q = q
  push_all (x ∷ xs) q = push_all xs (queue.push x q)

  -- One turn of the scan for `i`, `next` being the later turns.
  unfoldable pub scanned : ℕ → Q → Option (ℕ × Q) → (Q → Bool × List ℕ × Q) → Bool × List ℕ × Q
  scanned i q none next = (false, [], q)
  scanned i q (some (x, q')) next =
      let (found, tmp, rest) = next q' in ((x == i) || found, x ∷ tmp, rest)

  -- The destructive scan: whether `i` was popped, the ids popped, and the queue after.
  unfoldable pub pop_all : ℕ → ℕ → Q → Bool × List ℕ × Q
  pop_all zero i q = (false, [], q)
  pop_all (suc n) i q = scanned i q (queue.pop q) (pop_all n i)

module _ {P Q : Type 0} (queue : SegQueue Q) where
  -- The ids are the block numbers below `num_blocks as u32`.
  unfoldable pub new_pool : ℕ → BlockPool P Q
  new_pool num_cores = record {
    blocks = replicate (num_cores * 2) none;
    free_ids = push_all queue (down (num_cores * 2 % 2 ^ 32)) queue.new;
  }

  unfoldable pub allocated : BlockPool P Q → Option (ℕ × Q) → Option (BufHandle × BlockPool P Q)
  allocated pool none = none
  allocated pool (some (i, q)) = some (handle i, record pool { free_ids = q })

  unfoldable pub alloc : BlockPool P Q → Option (BufHandle × BlockPool P Q)
  alloc pool = allocated pool (queue.pop pool.free_ids)

  abbrev pub can_edit : ℕ → BlockPool P Q → Bool
  can_edit i pool = ltb i (length pool.blocks)

  unfoldable pub free : ℕ → BlockPool P Q → Result (BlockPool P Q)
  free i pool =
      if can_edit i pool
      then ok (record { blocks = set pool.blocks i none; free_ids = queue.push i pool.free_ids })
      else panic

  unfoldable pub claim : ℕ → BlockPool P Q → Option BufHandle
  claim i pool = if can_edit i pool then some (handle i) else none

  abbrev pub free_count : BlockPool P Q → ℕ
  free_count pool = queue.len pool.free_ids

  -- The scan pops at most as often as the queue is long.
  unfoldable pub is_free : ℕ → BlockPool P Q → Bool × BlockPool P Q
  is_free i pool =
      let (found, tmp, rest) = pop_all queue (queue.len pool.free_ids) i pool.free_ids in
      if can_edit i pool
      then (found, record pool { free_ids = push_all queue (reverse tmp) rest })
      else (false, pool)

  unfoldable pub write : BufHandle → P → BlockPool P Q → Result (BlockPool P Q)
  write h value pool = index pool.blocks (h.id) >>= λ old.
      ok (record pool { blocks = set pool.blocks (h.id) (some value) })

  -- The value is taken out of its slot.
  unfoldable pub read : BufHandle → BlockPool P Q → Result (P × BlockPool P Q)
  read h pool = index pool.blocks (h.id) >>= λ slot.
      from_option slot >>= λ value. ok (value, record pool { blocks = set pool.blocks (h.id) none })

  -- `Drop::drop`, which runs at the end of each method that consumes the handle.
  unfoldable pub drop_handle : BufHandle → BlockPool P Q → Result (BlockPool P Q)
  drop_handle h pool = if h.released then ok pool else free (h.id) pool

  unfoldable pub into_id : BufHandle → BlockPool P Q → Result (ℕ × BlockPool P Q)
  into_id h pool = drop_handle (record h { released = true }) pool >>= λ after. ok (h.id, after)

  unfoldable pub release : BufHandle → BlockPool P Q → Result (BlockPool P Q)
  release h pool = free (h.id) pool >>= drop_handle (record h { released = true })
