-- ===== src/Examples/Programs.antt =====
-- Words and buffers of instructions.
use nexus_zkvm.Base.{ℕ, ◌≡◌, ◌≤◌, refl, ◌↔◌, arith, some, List, [], ◌∷◌}
use nexus_zkvm.Base.Result.{Result, ok}
use nexus_zkvm.Rv32.{Inst, lui, jal, index_j, max_j}
use nexus_zkvm.Rv32.IndexJ.{shape, index_j_lem}
use nexus_zkvm.Parse.{
  parse_u32, parse_inst, parse_buf, translate_nexus, inst_size, parse_word, parse_case, opcode_case,
  aopi,
}
use nexus_zkvm.Parse.Whole.{IsParsed, AreBytes, Covers, parse_inst-IsParsed, parse_buf-Total}

-- `addi x1, x0, 5` and `add x2, x1, x1`.
abbrev addi_bytes : List ℕ
addi_bytes = 0x93 ∷ 0x00 ∷ 0x50 ∷ 0x00 ∷ []

abbrev program : List ℕ
program = 0x93 ∷ 0x00 ∷ 0x50 ∷ 0x00 ∷ 0x33 ∷ 0x81 ∷ 0x10 ∷ 0x00 ∷ []

index_j_lem_example :
    (1 ≤ index_j (lui 1 2))
    × (index_j (lui 1 2) ≤ max_j)
    × ((index_j (lui 1 2) ≡ index_j (jal 1 2)) ↔ (shape (lui 1 2) ≡ shape (jal 1 2)))
index_j_lem_example = index_j_lem (lui 1 2) (jal 1 2)

parsed_addi : (i : Inst) × (parse_inst 0x1000 addi_bytes ≡ ok i)
unfolding parse_inst parse_u32 inst_size parse_word parse_case opcode_case translate_nexus aopi
parsed_addi = (_, refl)

addi-AreBytes : AreBytes addi_bytes
addi-AreBytes = (omega arith, (omega arith, (omega arith, (omega arith, tt))))

parse_inst-IsParsed_example :
    (parse_inst 0x1000 addi_bytes ≡ ok parsed_addi.0) ↔ IsParsed 0x1000 addi_bytes parsed_addi.0
parse_inst-IsParsed_example = parse_inst-IsParsed 0x1000 addi_bytes parsed_addi.0 addi-AreBytes

program-AreBytes : AreBytes program
program-AreBytes = (
  omega arith,
  (
    omega arith,
    (omega arith, (omega arith, (omega arith, (omega arith, (omega arith, (omega arith, tt)))))),
  ),
)

parse_buf-Total_example :
    (r : Result (List Inst)) × (parse_buf 0x1000 program ≡ some r) × Covers 0x1000 program 0 r
parse_buf-Total_example = parse_buf-Total 0x1000 program program-AreBytes
