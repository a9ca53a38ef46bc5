-- ===== src/Tasks/Node.antt =====
-- `NodeTask` (nova/src/parallel_tree/task.rs).
use nexus_zkvm.Base.{ℕ, Bool, false, Option, none, ◌==◌, if◌then◌else◌}
use nexus_zkvm.Tasks.{TaskCells, compare_exchange, start_from, get_buf_id}

unfoldable pub try_got_first_child : TaskCells → Bool × TaskCells
try_got_first_child = compare_exchange 0 1

unfoldable pub try_got_second_child : TaskCells → Bool × TaskCells
try_got_second_child = compare_exchange 1 2

unfoldable pub notify_child_ready : TaskCells → Bool × TaskCells
notify_child_ready t =
    let (first, t') = try_got_first_child t in
    if first then (false, t') else try_got_second_child t'

unfoldable pub try_start_processing : ℕ → TaskCells → Bool × TaskCells
try_start_processing = start_from 2 3

unfoldable pub try_set_ready : TaskCells → Bool × TaskCells
try_set_ready = compare_exchange 3 4

unfoldable pub try_start_consuming : TaskCells → Bool × TaskCells
try_start_consuming = compare_exchange 4 5

unfoldable pub try_set_consumed : TaskCells → Bool × TaskCells
try_set_consumed = compare_exchange 5 6

unfoldable pub is_ready : TaskCells → Bool
is_ready t = t.state == 4

unfoldable pub has_both_children : TaskCells → Bool
has_both_children t = t.state == 2

unfoldable pub get_buf_id_if_ready : TaskCells → Option ℕ
get_buf_id_if_ready t = if is_ready t then get_buf_id t else none
