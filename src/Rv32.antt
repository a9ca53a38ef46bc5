-- ===== src/Rv32.antt =====
-- The abstract syntax of RV32 (vm/src/rv32.rs). Constructors are the source's enum variants in
-- lower case; the variants of an instruction's operand fields keep their order.
pub mod IndexJ
use nexus_zkvm.Base.{ℕ, Option, none, some}

-- Branch, load, store and ALU operations (`BOP`, `LOP`, `SOP`, `AOP`).
pub data Bop : Type 0 where
  beq bne blt bge bltu bgeu : Bop

pub data Lop : Type 0 where
  lb lh lw lbu lhu : Lop

pub data Sop : Type 0 where
  sb sh sw : Sop

pub data Aop : Type 0 where
  add sub slt sltu sll srl sra or and xor : Aop

pub data InstructionSet : Type 0 where
  rv32i rv32_nexus : InstructionSet

pub data Rv32 : Type 0 where
  -- rd imm
  lui : ℕ → ℕ → Rv32
  auipc : ℕ → ℕ → Rv32
  jal : ℕ → ℕ → Rv32
  -- rd rs1 imm
  jalr : ℕ → ℕ → ℕ → Rv32
  -- bop rs1 rs2 imm
  br : Bop → ℕ → ℕ → ℕ → Rv32
  -- lop rd rs1 imm
  load : Lop → ℕ → ℕ → ℕ → Rv32
  -- sop rs1 rs2 imm
  store : Sop → ℕ → ℕ → ℕ → Rv32
  -- aop rd rs1 imm
  alui : Aop → ℕ → ℕ → ℕ → Rv32
  -- aop rd rs1 rs2
  alu : Aop → ℕ → ℕ → ℕ → Rv32
  fence : Rv32
  ecall : ℕ → Rv32
  ebreak : ℕ → Rv32
  unimp : Rv32

-- The operand accessors of `impl RV32`.
unfoldable pub rd : Rv32 → Option ℕ
rd (lui d i) = some d
rd (auipc d i) = some d
rd (jal d i) = some d
rd (jalr d s i) = some d
rd (alui a d s i) = some d
rd (alu a d s t) = some d
rd (load l d s i) = some d
rd (ecall d) = some d
rd (ebreak d) = some d
rd _ = none

unfoldable pub rs1 : Rv32 → Option ℕ
rs1 (jalr d s i) = some s
rs1 (br b s t i) = some s
rs1 (load l d s i) = some s
rs1 (store o s t i) = some s
rs1 (alui a d s i) = some s
rs1 (alu a d s t) = some s
rs1 _ = none

unfoldable pub rs2 : Rv32 → Option ℕ
rs2 (br b s t i) = some t
rs2 (store o s t i) = some t
rs2 (alu a d s t) = some t
rs2 _ = none

unfoldable pub imm : Rv32 → Option ℕ
imm (lui d i) = some i
imm (auipc d i) = some i
imm (jal d i) = some i
imm (jalr d s i) = some i
imm (br b s t i) = some i
imm (load l d s i) = some i
imm (store o s t i) = some i
imm (alui a d s i) = some i
imm _ = none

-- A parsed instruction: where it was found, its length in bytes, its word and its syntax.
pub record Inst : Type 0 where
  pub pc : ℕ
  pub len : ℕ
  pub word : ℕ
  pub inst : Rv32

-- `Inst::default()`.
abbrev pub default_inst : Inst
default_inst = record { pc = 0; len = 0; word = 0; inst = unimp }

unfoldable pub instruction_set : Rv32 → InstructionSet
instruction_set (ecall d) = rv32_nexus
instruction_set (ebreak d) = rv32_nexus
instruction_set _ = rv32i

abbrev pub max_j : ℕ
max_j = 42

abbrev j_of_bop : Bop → ℕ
j_of_bop beq = 5
j_of_bop bne = 6
j_of_bop blt = 7
j_of_bop bge = 8
j_of_bop bltu = 9
j_of_bop bgeu = 10

abbrev j_of_lop : Lop → ℕ
j_of_lop lb = 11
j_of_lop lh = 12
j_of_lop lw = 13
j_of_lop lbu = 14
j_of_lop lhu = 15

abbrev j_of_sop : Sop → ℕ
j_of_sop sb = 16
j_of_sop sh = 17
j_of_sop sw = 18

abbrev j_of_alui : Aop → ℕ
j_of_alui add = 19
j_of_alui sub = 20
j_of_alui sll = 21
j_of_alui slt = 22
j_of_alui sltu = 23
j_of_alui xor = 24
j_of_alui srl = 25
j_of_alui sra = 26
j_of_alui or = 27
j_of_alui and = 28

abbrev j_of_alu : Aop → ℕ
j_of_alu add = 29
j_of_alu sub = 30
j_of_alu sll = 31
j_of_alu slt = 32
j_of_alu sltu = 33
j_of_alu xor = 34
j_of_alu srl = 35
j_of_alu sra = 36
j_of_alu or = 37
j_of_alu and = 38

-- `RV32::index_j`: the index that selects the instruction's circuit.
unfoldable pub index_j : Rv32 → ℕ
index_j (lui d i) = 1
index_j (auipc d i) = 2
index_j (jal d i) = 3
index_j (jalr d s i) = 4
index_j (br b s t i) = j_of_bop b
index_j (load l d s i) = j_of_lop l
index_j (store o s t i) = j_of_sop o
index_j (alui a d s i) = j_of_alui a
index_j (alu a d s t) = j_of_alu a
index_j fence = 39
index_j (ecall d) = 40
index_j (ebreak d) = 41
index_j unimp = 42
