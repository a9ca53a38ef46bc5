-- ===== src/Examples/Memories.antt =====
-- The two memories as maps of lines.
use nexus_zkvm.Base.{ℕ, ◌%◌, ◌≡◌, refl, arith, ◌==◌, if◌then◌else◌}
use nexus_zkvm.Base.Result.{ok, err, misaligned}
use nexus_zkvm.Rv32.{lw, sw}
use nexus_zkvm.Memory.CacheLine.Bytes.{offset, load_width}
use nexus_zkvm.Memory.CacheLine.Access.{extend, le_value}
use nexus_zkvm.Memory.Controller
use nexus_zkvm.Memory.Lines.{Lines}
use nexus_zkvm.Memory.Lines.Access.{load_lem, store-IsWritten, IsWritten}
use nexus_zkvm.Memory.Paged.{Paged, paged}
use nexus_zkvm.Memory.Paged.Lines.{same_block, paged-Lines}
use nexus_zkvm.Memory.Trie.{merkle_trie}
use nexus_zkvm.Memory.Trie.Lines.{same_bits, merkle_trie-Lines}
use nexus_zkvm.Examples.Runs.{low_byte}
use nexus_zkvm.Examples.Tries.{sums, sums-IsTotal, digest_eq_refl, empty_trie}

paged-Lines_example : Lines (paged 0 low_byte) same_block
paged-Lines_example = paged-Lines 0 low_byte

merkle_trie-Lines_example : Lines (merkle_trie sums (empty_trie.start)) same_bits
merkle_trie-Lines_example = merkle_trie-Lines sums digest_eq_refl sums-IsTotal empty_trie

abbrev lines : Lines (paged 0 low_byte) same_block
lines = paged-Lines 0 low_byte

abbrev start : Paged
start = (paged 0 low_byte).initial

store-IsWritten_example : IsWritten (paged 0 low_byte) lines start sw 0x1004 0xdead_beef
store-IsWritten_example =
    store-IsWritten (paged 0 low_byte) lines start sw 0x1004 0xdead_beef lines.initial_valid
      (omega arith) refl

load_lem_example :
    (p : ℕ × ℕ) × (Controller.load (paged 0 low_byte) start lw 0x1004 ≡ (
      if 0x1004 % load_width lw == 0
      then ok (extend lw (le_value (lines.line start 0x1004) (offset 0x1004) (load_width lw)), p)
      else err (misaligned 0x1004)))
load_lem_example = load_lem (paged 0 low_byte) lines start lw 0x1004 lines.initial_valid
