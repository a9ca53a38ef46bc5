-- ===== src/Examples/Builtin.antt =====
-- The machines of the table that a function with an argument makes.
use nexus_zkvm.Base.{◌≡◌, refl}
use nexus_zkvm.Base.Result.{ok}
use nexus_zkvm.Machines.{loop_code, loop10_code, nop_result, nop10_result}

loop_code_ten : loop_code 10 ≡ ok loop10_code
unfolding loop_code
loop_code_ten = refl

nop_result_ten : nop_result 10 ≡ ok nop10_result
unfolding nop_result
nop_result_ten = refl
