-- ===== src/Tasks.antt =====
-- The tasks of the parallel tree and the heap that holds them (nova/src/parallel_tree/task.rs). An
-- atomic cell is the value it holds, and an operation on it is one step. The buffer id -1 is `none`.
pub mod Leaf
pub mod Node
pub mod Heap
pub mod Level
use nexus_zkvm.Base.{
  ℕ, zero, suc, ◌+◌, ◌-◌, ◌*◌, ◌/◌, ◌^◌, ◌≡◌, Bool, true, false, Option, none, some, List, [], ◌∷◌,
  leb, ltb, ◌==◌, if◌then◌else◌, get_elem?, set,
}

-- `LeafTask` and `NodeTask`, which have the same cells.
pub record TaskCells : Type 0 where
  pub buffer_id : Option ℕ
  pub state : ℕ

-- `compare_exchange(..).is_ok()` on the state.
abbrev pub compare_exchange : ℕ → ℕ → TaskCells → Bool × TaskCells
compare_exchange old new t = if t.state == old then (true, record t { state = new }) else (false, t)

abbrev pub new_task : TaskCells
new_task = record { buffer_id = none; state = 0 }

-- `try_start_processing`, from the state it expects to the next.
unfoldable pub start_from : ℕ → ℕ → ℕ → TaskCells → Bool × TaskCells
start_from old new buf_id t =
    let (won, t') = compare_exchange old new (record t { buffer_id = some buf_id }) in
    if won then (true, t') else (false, record t' { buffer_id = none })

unfoldable pub get_buf_id : TaskCells → Option ℕ
get_buf_id t = t.buffer_id

unfoldable pub clear_cells : TaskCells → TaskCells
clear_cells t = record t { buffer_id = none }
