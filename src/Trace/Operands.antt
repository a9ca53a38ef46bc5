-- ===== src/Trace/Operands.antt =====
-- `parse_alt` finds the operands of the instruction that `parse_u32` finds.
use nexus_zkvm.Base.{ℕ, ◌<◌, ◌≡◌, refl, arith, Option, some, length, get_elem?-get_or, ap}
use mathlib.Core.Option
use nexus_zkvm.Base.Result.{ok, from_option, then-ok}
use nexus_zkvm.Rv32
use nexus_zkvm.Rv32.{Rv32, ebreak, unimp}
use nexus_zkvm.Parse.{
  rd, rs2, parse_u32, parse_case, OpcodeCase, op_lui, op_alu, opcode, opcode_case,
}
use nexus_zkvm.Eval.Machine.{Regs}
use nexus_zkvm.Eval.Frame.{destination}
use nexus_zkvm.Trace.Witness.{Witness, alt_case, parse_alt}

abbrev pub or_zero : Option ℕ → ℕ
or_zero o = Option.get_or o 0

-- The machine does not write a register on EBREAK and UNIMP; their words may still name one.
abbrev pub IsQuiet : Rv32 → ℕ → Type 0
IsQuiet (ebreak d) word = rd word ≡ 0
IsQuiet unimp word = rd word ≡ 0
IsQuiet _ word = Unit

-- The register that a witness names as its destination.
abbrev pub named_destination : Rv32 → ℕ → ℕ
named_destination (ebreak d) word = rd word
named_destination unimp word = rd word
named_destination inst word = destination inst

pub named_destination-IsQuiet :
    (inst : Rv32) (word : ℕ) → IsQuiet inst word → named_destination inst word ≡ destination inst
named_destination-IsQuiet (ebreak d) word q = q
named_destination-IsQuiet unimp word q = q
named_destination-IsQuiet _ word q = refl

-- The operands of a witness are those of an instruction.
pub record HasOperands {P : Type 0} (inst : Rv32) (word : ℕ) (w : Witness P) : Type 0 where
  pub source1 : w.rs1 ≡ or_zero (Rv32.rs1 inst)
  pub source2 : w.rs2 ≡ or_zero (Rv32.rs2 inst)
  pub immediate : w.i ≡ or_zero (Rv32.imm inst)
  pub dest : w.rd ≡ named_destination inst word
  pub rs1_lt : w.rs1 < 32
  pub rs2_lt : w.rs2 < 32

module _ {P : Type 0} (default_proof : P) (regs : Regs) (word : ℕ) where
  alt_case-HasOperands :
      (op : OpcodeCase) {inst : Rv32} {w : Witness P}
      → parse_case op word ≡ ok (some inst)
      → alt_case default_proof op regs word ≡ ok w
      → HasOperands inst word w
  unfolding parse_case alt_case Rv32.rs1 Rv32.rs2 Rv32.imm
  alt_case-HasOperands op_lui p h = ground arith
  alt_case-HasOperands _ p h = ground arith

  alt_case-ok :
      (op : OpcodeCase)
      → length regs.x ≡ 32
      → (w : Witness P) × (alt_case default_proof op regs word ≡ ok w)
  unfolding alt_case
  alt_case-ok op_lui e = (_, refl)
  alt_case-ok op_alu e =
      then-ok _ _ (ap from_option (get_elem?-get_or regs.x (rs2 word) 0 (omega arith)))
  alt_case-ok _ e = (_, refl)

  -- With 32 registers `parse_alt` returns, and what it returns are the operands of the instruction
  -- that `parse_u32` finds in the word.
  pub parse_alt-HasOperands :
      {inst : Rv32}
      → length regs.x ≡ 32
      → parse_u32 word ≡ ok (some inst)
      → (w : Witness P) × (parse_alt default_proof regs word ≡ ok w) × HasOperands inst word w
  unfolding parse_u32 parse_alt
  parse_alt-HasOperands {inst} size parsed =
      let op = opcode_case (opcode word) in
      let (w, found) = alt_case-ok op size in (w, found, alt_case-HasOperands op parsed found)
