-- ===== src/Circuit/Gadget.antt =====
-- The methods of vm/src/circuit/r1cs.rs that add one constraint each, and `to_bits`.
use nexus_zkvm.Base.{
  ℕ, zero, suc, ◌+◌, ◌/◌, ◌%◌, ◌^◌, Bool, List, [], ◌∷◌, ◌++◌, ltb, ◌==◌, if◌then◌else◌,
}
use nexus_zkvm.Base.Result.{Result, ok, ◌>>=◌, index}
use nexus_zkvm.R1cs.{Ring}
use nexus_zkvm.Circuit.{Name, R1cs, put, new_var, put_w, set_field_var, var, constraint}

-- `name_i`, with `i` in decimal, below a hundred.
abbrev pub bit_name : Name → ℕ → Name
bit_name name i =
    name ++ 95 ∷ (if ltb i 10 then (48 + i) ∷ [] else (48 + i / 10) ∷ (48 + i % 10) ∷ [])

module _ {F : Type 0} (ring : Ring F) where
  -- The constant MINUS.
  abbrev pub minus_one : F
  minus_one = ring.minus (ring.nil) (ring.one)

  unfoldable pub set_eq : Name → Name → R1cs F → Result (ℕ × R1cs F)
  set_eq name v cs = var cs v >>= λ vj. index ((new_var ring name cs).1.w) vj >>= λ x.
      put_w ring ((new_var ring name cs).0) x ((new_var ring name cs).1)
      >>= constraint ring (λ _ zs. put zs vj (ring.one) >>= λ a. put zs 0 (ring.one) >>= λ b.
          put zs ((new_var ring name cs).0) (ring.one) >>= λ c. ok (a, b, c))
      >>= λ cs'. ok ((new_var ring name cs).0, cs')

  unfoldable pub set_bit : Name → Bool → R1cs F → Result (ℕ × R1cs F)
  set_bit name val cs =
      put_w ring ((new_var ring name cs).0) (if val then ring.one else ring.nil)
        ((new_var ring name cs).1)
      >>= constraint ring (λ _ zs. put zs 0 minus_one >>= λ a0.
          put a0 ((new_var ring name cs).0) (ring.one) >>= λ a.
          put zs ((new_var ring name cs).0) (ring.one) >>= λ b. ok (a, b, zs))
      >>= λ cs'. ok ((new_var ring name cs).0, cs')

  unfoldable pub eqi : Name → F → R1cs F → Result (R1cs F)
  eqi v0 x = constraint ring (λ cs zs. var cs v0 >>= λ j.
      put zs j (ring.one) >>= λ a. put zs 0 (ring.one) >>= λ b. put zs 0 x >>= λ c. ok (a, b, c))

  unfoldable pub add : Name → Name → Name → R1cs F → Result (R1cs F)
  add v0 v1 v2 = constraint ring (λ cs zs. var cs v1 >>= λ j1. put zs j1 (ring.one) >>= λ a1.
      var cs v2 >>= λ j2. put a1 j2 (ring.one) >>= λ a.
      put zs 0 (ring.one) >>= λ b. var cs v0 >>= λ j0. put zs j0 (ring.one) >>= λ c. ok (a, b, c))

  unfoldable pub addi : Name → Name → F → R1cs F → Result (R1cs F)
  addi v0 v1 x = constraint ring (λ cs zs. put zs 0 x >>= λ a0. var cs v1 >>= λ j1.
      put a0 j1 (ring.one) >>= λ a.
      put zs 0 (ring.one) >>= λ b. var cs v0 >>= λ j0. put zs j0 (ring.one) >>= λ c. ok (a, b, c))

  unfoldable pub mul : Name → Name → Name → R1cs F → Result (R1cs F)
  mul v0 v1 v2 = constraint ring (λ cs zs. var cs v1 >>= λ j1. put zs j1 (ring.one) >>= λ a.
      var cs v2 >>= λ j2.
      put zs j2 (ring.one) >>= λ b. var cs v0 >>= λ j0. put zs j0 (ring.one) >>= λ c. ok (a, b, c))

  unfoldable pub muli : Name → Name → F → R1cs F → Result (R1cs F)
  muli v0 v1 x = constraint ring (λ cs zs. put zs 0 x >>= λ a. var cs v1 >>= λ j1.
      put zs j1 (ring.one) >>= λ b. var cs v0 >>= λ j0. put zs j0 (ring.one) >>= λ c. ok (a, b, c))

  -- At least one of the variables is zero.
  unfoldable pub nand : Name → Name → R1cs F → Result (R1cs F)
  nand v0 v1 = constraint ring (λ cs zs. var cs v0 >>= λ j0.
      put zs j0 (ring.one) >>= λ a. var cs v1 >>= λ j1. put zs j1 (ring.one) >>= λ b. ok (a, b, zs))

  -- The bits from `i` on, and their indices.
  unfoldable pub set_bits : Name → ℕ → ℕ → ℕ → R1cs F → Result (List ℕ × R1cs F)
  set_bits name val i zero cs = ok ([], cs)
  set_bits name val i (suc n) cs = set_bit (bit_name name i) (val / 2 ^ i % 2 == 1) cs >>= λ r.
      set_bits name val (i + 1) n (r.1) >>= λ rest. ok (r.0 ∷ rest.0, rest.1)

  unfoldable pub put_powers : (ℕ → F) → ℕ → List ℕ → List F → Result (List F)
  put_powers from_u64 i [] row = ok row
  put_powers from_u64 i (j ∷ js) row =
      put row j (from_u64 (2 ^ i)) >>= put_powers from_u64 (i + 1) js

  -- `from_u64` is the field's `F::from`.
  unfoldable pub set_var : (ℕ → F) → Name → ℕ → R1cs F → Result (ℕ × R1cs F)
  set_var from_u64 name val cs = set_field_var ring name (from_u64 val) cs

  unfoldable pub to_bits : (ℕ → F) → Name → ℕ → R1cs F → Result (R1cs F)
  to_bits from_u64 name val cs = set_var from_u64 name val cs >>= λ v.
      set_bits name val 0 32 (v.1) >>= λ bits.
      constraint ring
        (λ _ zs. put_powers from_u64 0 (bits.0) zs >>= λ a.
          put zs 0 (ring.one) >>= λ b. put zs (v.0) (ring.one) >>= λ c. ok (a, b, c))
        (bits.1)
