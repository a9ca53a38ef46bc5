-- ===== src/Rv32/IndexJ.antt =====
-- `RV32::index_j` numbers the instruction shapes without gaps or overlaps.
use nexus_zkvm.Base.{ℕ, ◌≤◌, ◌≡◌, ◌↔◌, refl, sym, ◌∙◌, arith, ap, List, [], ◌∷◌, some, get_elem?}
use nexus_zkvm.Rv32.{Rv32, index_j, max_j}
use nexus_zkvm.Rv32.{
  Bop, beq, bne, blt, bge, bltu, bgeu, Lop, lb, lh, lw, lbu, lhu, Sop, sb, sh, sw, Aop, add, sub,
  slt, sltu, sll, srl, sra, or, and, xor, lui, auipc, jal, jalr, br, load, store, alui, alu, fence,
  ecall, ebreak, unimp,
}

-- An instruction without its registers and immediates.
pub data Shape : Type 0 where
  lui_shape auipc_shape jal_shape jalr_shape fence_shape ecall_shape ebreak_shape unimp_shape :
      Shape
  br_shape : Bop → Shape
  load_shape : Lop → Shape
  store_shape : Sop → Shape
  alui_shape : Aop → Shape
  alu_shape : Aop → Shape

abbrev pub shape : Rv32 → Shape
shape (lui d i) = lui_shape
shape (auipc d i) = auipc_shape
shape (jal d i) = jal_shape
shape (jalr d s i) = jalr_shape
shape (br b s t i) = br_shape b
shape (load l d s i) = load_shape l
shape (store o s t i) = store_shape o
shape (alui a d s i) = alui_shape a
shape (alu a d s t) = alu_shape a
shape fence = fence_shape
shape (ecall d) = ecall_shape
shape (ebreak d) = ebreak_shape
shape unimp = unimp_shape

-- The shapes in the order of their indices, from 1 to `max_j`.
abbrev shapes : List Shape
shapes =
    lui_shape
    ∷ auipc_shape
    ∷ jal_shape
    ∷ jalr_shape
    ∷ br_shape beq
    ∷ br_shape bne
    ∷ br_shape blt
    ∷ br_shape bge
    ∷ br_shape bltu
    ∷ br_shape bgeu
    ∷ load_shape lb
    ∷ load_shape lh
    ∷ load_shape lw
    ∷ load_shape lbu
    ∷ load_shape lhu
    ∷ store_shape sb
    ∷ store_shape sh
    ∷ store_shape sw
    ∷ alui_shape add
    ∷ alui_shape sub
    ∷ alui_shape sll
    ∷ alui_shape slt
    ∷ alui_shape sltu
    ∷ alui_shape xor
    ∷ alui_shape srl
    ∷ alui_shape sra
    ∷ alui_shape or
    ∷ alui_shape and
    ∷ alu_shape add
    ∷ alu_shape sub
    ∷ alu_shape sll
    ∷ alu_shape slt
    ∷ alu_shape sltu
    ∷ alu_shape xor
    ∷ alu_shape srl
    ∷ alu_shape sra
    ∷ alu_shape or
    ∷ alu_shape and
    ∷ fence_shape
    ∷ ecall_shape
    ∷ ebreak_shape
    ∷ unimp_shape
    ∷ []

shapes-index_j : (i : Rv32) → get_elem? (unimp_shape ∷ shapes) (index_j i) ≡ some (shape i)
unfolding index_j
shapes-index_j (br beq s t i) = refl
shapes-index_j (br bne s t i) = refl
shapes-index_j (br blt s t i) = refl
shapes-index_j (br bge s t i) = refl
shapes-index_j (br bltu s t i) = refl
shapes-index_j (br bgeu s t i) = refl
shapes-index_j (load lb d s i) = refl
shapes-index_j (load lh d s i) = refl
shapes-index_j (load lw d s i) = refl
shapes-index_j (load lbu d s i) = refl
shapes-index_j (load lhu d s i) = refl
shapes-index_j (store sb s t i) = refl
shapes-index_j (store sh s t i) = refl
shapes-index_j (store sw s t i) = refl
shapes-index_j (alui add d s i) = refl
shapes-index_j (alu add d s i) = refl
shapes-index_j (alui sub d s i) = refl
shapes-index_j (alu sub d s i) = refl
shapes-index_j (alui sll d s i) = refl
shapes-index_j (alu sll d s i) = refl
shapes-index_j (alui slt d s i) = refl
shapes-index_j (alu slt d s i) = refl
shapes-index_j (alui sltu d s i) = refl
shapes-index_j (alu sltu d s i) = refl
shapes-index_j (alui xor d s i) = refl
shapes-index_j (alu xor d s i) = refl
shapes-index_j (alui srl d s i) = refl
shapes-index_j (alu srl d s i) = refl
shapes-index_j (alui sra d s i) = refl
shapes-index_j (alu sra d s i) = refl
shapes-index_j (alui or d s i) = refl
shapes-index_j (alu or d s i) = refl
shapes-index_j (alui and d s i) = refl
shapes-index_j (alu and d s i) = refl
shapes-index_j _ = refl

index_j_range : (i : Rv32) → (1 ≤ index_j i) × (index_j i ≤ max_j)
unfolding index_j
index_j_range (br b s t i) = ground arith
index_j_range (load l d s i) = ground arith
index_j_range (store o s t i) = ground arith
index_j_range (alui a d s i) = ground arith
index_j_range (alu a d s i) = ground arith
index_j_range _ = omega arith

-- The index depends on the shape alone.
index_of : Shape → ℕ
unfolding index_j
index_of lui_shape = index_j (lui 0 0)
index_of auipc_shape = index_j (auipc 0 0)
index_of jal_shape = index_j (jal 0 0)
index_of jalr_shape = index_j (jalr 0 0 0)
index_of (br_shape b) = index_j (br b 0 0 0)
index_of (load_shape l) = index_j (load l 0 0 0)
index_of (store_shape o) = index_j (store o 0 0 0)
index_of (alui_shape a) = index_j (alui a 0 0 0)
index_of (alu_shape a) = index_j (alu a 0 0 0)
index_of fence_shape = index_j fence
index_of ecall_shape = index_j (ecall 0)
index_of ebreak_shape = index_j (ebreak 0)
index_of unimp_shape = index_j unimp

index_j-index_of : (i : Rv32) → index_j i ≡ index_of (shape i)
unfolding index_of
index_j-index_of (lui d i) = refl
index_j-index_of _ = refl

shape_of_index : (i k : Rv32) → index_j i ≡ index_j k → shape i ≡ shape k
shape_of_index i k e =
    cc (shapes-index_j i, shapes-index_j k, ap (get_elem? (unimp_shape ∷ shapes)) e)

-- Every index is from 1 to `MAX_J`, and two instructions have one index exactly when they differ
-- at most in their registers and immediates.
pub index_j_lem :
    (i k : Rv32)
    → (1 ≤ index_j i) × (index_j i ≤ max_j) × ((index_j i ≡ index_j k) ↔ (shape i ≡ shape k))
index_j_lem i k = (
  (index_j_range i).0,
  (index_j_range i).1,
  (shape_of_index i k, λ e. index_j-index_of i ∙ ap index_of e ∙ sym (index_j-index_of k)),
)
