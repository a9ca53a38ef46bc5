-- ===== src/Tasks/Leaf.antt =====
-- `LeafTask` (nova/src/parallel_tree/task.rs).
use nexus_zkvm.Base.{ℕ, Bool, Option, none, ◌==◌, if◌then◌else◌}
use nexus_zkvm.Tasks.{TaskCells, compare_exchange, start_from, get_buf_id}

unfoldable pub try_start_processing : ℕ → TaskCells → Bool × TaskCells
try_start_processing = start_from 0 1

unfoldable pub try_set_ready : TaskCells → Bool × TaskCells
try_set_ready = compare_exchange 1 2

unfoldable pub try_start_consuming : TaskCells → Bool × TaskCells
try_start_consuming = compare_exchange 2 3

unfoldable pub try_set_consumed : TaskCells → Bool × TaskCells
try_set_consumed = compare_exchange 3 4

unfoldable pub is_ready : TaskCells → Bool
is_ready t = t.state == 2

unfoldable pub get_buf_id_if_ready : TaskCells → Option ℕ
get_buf_id_if_ready t = if is_ready t then get_buf_id t else none
