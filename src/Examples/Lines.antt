-- ===== src/Examples/Lines.antt =====
-- A cache line with a word in it.
use nexus_zkvm.Base.{◌%◌, ◌≡◌, refl, arith}
use nexus_zkvm.Base.Result.{ok, err, misaligned}
use nexus_zkvm.Base.{◌==◌, if◌then◌else◌}
use nexus_zkvm.Rv32.{lh, sh, sw}
use nexus_zkvm.Memory.CacheLine.{zero_line, load_line, store_line}
use nexus_zkvm.Memory.CacheLine.Bytes.{zero_line-IsLine, offset, load_width, store_line-misaligned}
use nexus_zkvm.Memory.CacheLine.Access.{
  le_value, extend, IsStored, truncate, load_line_lem, store_line-IsStored, load_line-store_line,
}

load_line_lem_example : load_line zero_line lh 0x1006 ≡ (
    if 0x1006 % load_width lh == 0
    then ok (extend lh (le_value zero_line (offset 0x1006) (load_width lh)))
    else err (misaligned 0x1006))
load_line_lem_example = load_line_lem zero_line zero_line-IsLine lh 0x1006

store_line-IsStored_example :
    ((store_line zero_line sw 0x1004 0xdead_beef).0 ≡ ok tt)
    × IsStored zero_line sw 0x1004 0xdead_beef (store_line zero_line sw 0x1004 0xdead_beef).1
store_line-IsStored_example =
    store_line-IsStored zero_line zero_line-IsLine sw 0x1004 0xdead_beef (omega arith) refl

load_line-store_line_example :
    load_line (store_line zero_line sh 0x1006 0xdead_beef).1 lh 0x1006
    ≡ ok (extend lh (truncate sh 0xdead_beef))
load_line-store_line_example =
    load_line-store_line zero_line sh lh 0x1006 0xdead_beef zero_line-IsLine (omega arith) refl refl

store_line-misaligned_example :
    store_line zero_line sw 0x1006 1 ≡ (err (misaligned 0x1006), zero_line)
store_line-misaligned_example =
    store_line-misaligned zero_line refl sw 0x1006 1 (λ e. omega (arith, e))
