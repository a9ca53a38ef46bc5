-- ===== src/Tasks/Heap.antt =====
-- `TaskHeap`, a complete binary tree in an array, for depths whose size a `usize` holds.
use nexus_zkvm.Base.{
  ℕ, zero, suc, ◌+◌, ◌-◌, ◌*◌, ◌/◌, ◌^◌, Bool, Option, none, some, List, [], ◌∷◌, leb, ltb, ◌==◌,
  if◌then◌else◌, get_elem?, set,
}
use nexus_zkvm.Tasks.{TaskCells, new_task, clear_cells}
use nexus_zkvm.Tasks.Leaf
use nexus_zkvm.Tasks.Node

pub data Task : Type 0 where
  leaf : TaskCells → Task
  node : TaskCells → Task

unfoldable pub is_ready : Task → Bool
is_ready (leaf t) = Leaf.is_ready t
is_ready (node t) = Node.is_ready t

unfoldable pub get_buf_id_if_ready : Task → Option ℕ
get_buf_id_if_ready (leaf t) = Leaf.get_buf_id_if_ready t
get_buf_id_if_ready (node t) = Node.get_buf_id_if_ready t

pub record TaskHeap : Type 0 where
  pub tasks : List Task
  pub size : ℕ
  pub num_leaves : ℕ

-- The tasks from `i` on, `n` of them, the leaves from `first_leaf` on.
unfoldable pub tasks_from : ℕ → ℕ → ℕ → List Task
tasks_from first_leaf i zero = []
tasks_from first_leaf i (suc n) =
    (if leb first_leaf i then leaf new_task else node new_task) ∷ tasks_from first_leaf (i + 1) n

unfoldable pub new : ℕ → TaskHeap
new k =
    let leaves : ℕ = 2 ^ k in
    let all : ℕ = 2 * leaves - 1 in
    record { tasks = tasks_from (all - leaves) 0 all; size = all; num_leaves = leaves }

unfoldable pub parent : ℕ → Option ℕ
parent i = if i == 0 then none else some ((i - 1) / 2)

unfoldable pub left : ℕ → ℕ
left i = 2 * i + 1

unfoldable pub right : ℕ → ℕ
right i = 2 * i + 2

unfoldable pub is_leaf : ℕ → TaskHeap → Bool
is_leaf i heap = leb (heap.size - heap.num_leaves) i

abbrev pub get : ℕ → TaskHeap → Option Task
get i heap = get_elem? (heap.tasks) i

unfoldable pub leaf_start : TaskHeap → ℕ
leaf_start heap = heap.size - heap.num_leaves

-- `ilog2` of a positive number: how often it can be halved before it is 1.
unfoldable pub halvings : ℕ → ℕ → ℕ
halvings zero n = 0
halvings (suc fuel) n = let rest = halvings fuel (n / 2) in if ltb n 2 then 0 else rest + 1

unfoldable pub ilog2 : ℕ → ℕ
ilog2 n = halvings n n

unfoldable pub level : ℕ → TaskHeap → Option ℕ
level idx heap = if leb (heap.size) idx then none else some (ilog2 (idx + 1))

unfoldable pub col : ℕ → TaskHeap → Option ℕ
col idx heap = if leb (heap.size) idx then none else some (idx - (2 ^ ilog2 (idx + 1) - 1))

unfoldable pub cleared : Task → Task
cleared (leaf t) = leaf (clear_cells t)
cleared (node t) = node (clear_cells t)

unfoldable pub put_cleared : ℕ → TaskHeap → Option Task → TaskHeap
put_cleared i heap none = heap
put_cleared i heap (some t) = record heap { tasks = set (heap.tasks) i (cleared t) }

unfoldable pub clear_buffer_id : ℕ → TaskHeap → TaskHeap
clear_buffer_id i heap = put_cleared i heap (get i heap)
