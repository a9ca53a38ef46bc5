-- ===== src/Circuit/Riscv.antt =====
-- Addition, subtraction with its flags, and branches (vm/src/circuit/riscv.rs). Names are their
-- bytes; `from_u64` is the field's `F::from`.
use nexus_zkvm.Base.{
  ℕ, ◌+◌, ◌-◌, ◌*◌, ◌/◌, ◌%◌, ◌^◌, Bool, true, false, not, ◌&&◌, List, [], ◌∷◌, ◌++◌, ltb, ◌==◌,
  if◌then◌else◌,
}
use nexus_zkvm.Base.Result.{Result, ok, panic, ◌>>=◌}
use nexus_zkvm.Rv32.{
  beq, bne, blt, bge, bltu, bgeu, Rv32, lui as lui_inst, auipc as auipc_inst, jal as jal_inst,
  jalr as jalr_inst, br as br_inst, alu as alu_inst, alui as alui_inst, Aop, index_j,
}
use nexus_zkvm.R1cs.{Ring}
use nexus_zkvm.Circuit.{
  Name, R1cs, put, seal, var, get_var, put_w, set_field_var, new_local_var, constraint,
}
use nexus_zkvm.Circuit.Gadget.{minus_one, set_eq, set_bit, set_var, add, mul}
use nexus_zkvm.Circuit.Select.{decimal}

abbrev name_x : Name
name_x = 88 ∷ []

abbrev name_y : Name
name_y = 89 ∷ []

abbrev name_i : Name
name_i = 73 ∷ []

-- `pc+4` and `pc+I`.
abbrev name_pc_four : Name
name_pc_four = 112 ∷ 99 ∷ 43 ∷ 52 ∷ []

abbrev name_pc_i : Name
name_pc_i = 112 ∷ 99 ∷ 43 ∷ 73 ∷ []

-- `Z{J}` and `PC{J}`.
abbrev result_of : Rv32 → Name
result_of inst = 90 ∷ decimal (index_j inst)

abbrev next_pc_of : Rv32 → Name
next_pc_of inst = 80 ∷ 67 ∷ decimal (index_j inst)

abbrev plus_name : Name → Name → Name
plus_name x y = x ++ 43 ∷ y

abbrev minus_name : Name → Name → Name
minus_name x y = x ++ 45 ∷ y

-- The flags: `<`, `=`, `>=`, `!=`, `<s` and `>=s` between two names, and `_31` after one.
abbrev lt_name : Name → Name → Name
lt_name x y = x ++ 60 ∷ y

abbrev eq_name : Name → Name → Name
eq_name x y = x ++ 61 ∷ y

abbrev ge_name : Name → Name → Name
ge_name x y = x ++ 62 ∷ 61 ∷ y

abbrev ne_name : Name → Name → Name
ne_name x y = x ++ 33 ∷ 61 ∷ y

abbrev slt_name : Name → Name → Name
slt_name x y = x ++ 60 ∷ 115 ∷ y

abbrev sge_name : Name → Name → Name
sge_name x y = x ++ 62 ∷ 61 ∷ 115 ∷ y

abbrev sign_name : Name → Name
sign_name x = x ++ 95 ∷ 51 ∷ 49 ∷ []

-- `(x as i32) < (y as i32)`.
abbrev signed_lt : ℕ → ℕ → Bool
signed_lt x y = ltb ((x + 2 ^ 31) % 2 ^ 32) ((y + 2 ^ 31) % 2 ^ 32)

module _ {F : Type 0} (ring : Ring F) (from_u64 : ℕ → F) where
  -- Entries of a row, in order.
  abbrev put_all : List (ℕ × F) → List F → Result (List F)
  put_all [] row = ok row
  put_all ((j, x) ∷ entries) row = put row j x >>= put_all entries

  -- A constraint whose rows have these entries.
  abbrev equation : List (ℕ × F) → List (ℕ × F) → List (ℕ × F) → R1cs F → Result (R1cs F)
  equation a b c =
      constraint ring (λ _ zs.
        put_all a zs >>= λ a'. put_all b zs >>= λ b'. put_all c zs >>= λ c'. ok (a', b', c'))

  abbrev set_eq_only : Name → Name → R1cs F → Result (R1cs F)
  set_eq_only name v cs = set_eq ring name v cs >>= λ p. ok (p.1)

  -- `2^32`, the constant `O`.
  abbrev overflow : F
  overflow = from_u64 (2 ^ 32)

  unfoldable pub add_cir : Name → Name → Name → ℕ → ℕ → R1cs F → Result (R1cs F)
  add_cir z_name x_name y_name x y cs =
      let of : Bool = not (ltb (x + y) (2 ^ 32)) in
      var cs x_name >>= λ xj. var cs y_name >>= λ yj.
      set_var ring from_u64 z_name ((x + y) % 2 ^ 32) cs >>= λ z.
      new_local_var ring (79 ∷ []) (z.1) >>= λ o.
      put_w ring (o.0) (if of then ring.minus ring.nil overflow else ring.nil) (o.1)
      >>= equation ((0, overflow) ∷ (o.0, ring.one) ∷ []) ((o.0, ring.one) ∷ []) []
      >>= equation ((xj, ring.one) ∷ (yj, ring.one) ∷ (o.0, ring.one) ∷ []) ((0, ring.one) ∷ [])
          ((z.0, ring.one) ∷ [])
      >>= λ cs'. ok (seal cs')

  -- The flags of a subtraction that do not look at signs: below, equal, and their negations.
  unfoldable pub sub_flags : Name → Name → Name → ℕ → ℕ → R1cs F → Result (ℕ × R1cs F)
  sub_flags z_name x_name y_name x y cs =
      let one : List (ℕ × F) = (0, ring.one) ∷ [] in
      var cs x_name >>= λ xj. var cs y_name >>= λ yj.
      set_bit ring (lt_name x_name y_name) (ltb x y) cs >>= λ o.
      set_var ring from_u64 z_name ((x + (2 ^ 32 - y)) % 2 ^ 32) (o.1) >>= λ z.
      equation ((xj, ring.one) ∷ (yj, minus_one ring) ∷ (o.0, overflow) ∷ []) one
        ((z.0, ring.one) ∷ []) (z.1)
      >>= set_bit ring (eq_name x_name y_name) (x == y)
      >>= λ e.
          equation ((z.0, ring.one) ∷ []) ((e.0, ring.one) ∷ []) [] (e.1)
          >>= set_bit ring (ge_name x_name y_name) (not (ltb x y))
          >>= λ g.
              equation ((o.0, ring.one) ∷ (g.0, ring.one) ∷ []) one one (g.1)
              >>= set_bit ring (ne_name x_name y_name) (not (x == y))
              >>= λ n. equation ((e.0, ring.one) ∷ (n.0, ring.one) ∷ []) one one (n.1) >>= λ cs'.
                  ok (o.0, cs')

  -- The signed flags, from the index of the unsigned one.
  unfoldable pub signed_flags : ℕ → Name → Name → ℕ → ℕ → R1cs F → Result (R1cs F)
  signed_flags ltj x_name y_name x y cs =
      let one : List (ℕ × F) = (0, ring.one) ∷ [] in
      let xs : ℕ = x / 2 ^ 31 in
      let ys : ℕ = y / 2 ^ 31 in
      let ds : Bool = not (xs == ys) in
      let ds_name : Name = 100 ∷ 115 ∷ [] in
      let product : Name = 88 ∷ 115 ∷ 42 ∷ 89 ∷ 115 ∷ [] in
      let left_name : Name = 115 ∷ 108 ∷ 116 ∷ 108 ∷ [] in
      let right_name : Name = 115 ∷ 108 ∷ 116 ∷ 114 ∷ [] in
      set_bit ring (slt_name x_name y_name) (signed_lt x y) cs >>= λ s.
      set_bit ring (sge_name x_name y_name) (not (signed_lt x y)) (s.1) >>= λ t.
      equation ((0, ring.one) ∷ (s.0, minus_one ring) ∷ []) one ((t.0, ring.one) ∷ []) (t.1)
      >>= new_local_var ring ds_name
      >>= λ d. set_bit ring ds_name ds (d.1) >>= λ d'. new_local_var ring product (d'.1) >>= λ m.
          put_w ring (m.0) (from_u64 (xs * ys)) (m.1)
          >>= mul ring product (sign_name x_name) (sign_name y_name)
          >>= constraint ring (λ cs' zs. var cs' (sign_name x_name) >>= λ xj.
              var cs' (sign_name y_name) >>= λ yj.
              put_all
                ((xj, ring.one) ∷ (yj, ring.one) ∷ (m.0, ring.minus ring.nil (from_u64 2)) ∷ []) zs
              >>= λ a. put zs 0 ring.one >>= λ b. put zs (d.0) ring.one >>= λ c. ok (a, b, c))
          >>= new_local_var ring left_name
          >>= λ l. set_bit ring left_name (ds && not (ltb x y)) (l.1) >>= λ l'.
              equation ((d.0, ring.one) ∷ []) ((0, ring.one) ∷ (ltj, minus_one ring) ∷ [])
                ((l.0, ring.one) ∷ []) (l'.1)
              >>= new_local_var ring right_name
              >>= λ r. set_bit ring right_name (not ds && ltb x y) (r.1) >>= λ r'.
                  equation ((0, ring.one) ∷ (d.0, minus_one ring) ∷ []) ((ltj, ring.one) ∷ [])
                    ((r.0, ring.one) ∷ []) (r'.1)
                  >>= equation ((l.0, ring.one) ∷ (r.0, ring.one) ∷ []) one ((s.0, ring.one) ∷ [])

  unfoldable pub sub_cir : Name → Name → Name → ℕ → ℕ → R1cs F → Result (R1cs F)
  sub_cir z_name x_name y_name x y cs = sub_flags z_name x_name y_name x y cs >>= λ p.
      signed_flags (p.0) x_name y_name x y (p.1) >>= λ cs'. ok (seal cs')

  unfoldable pub lui : ℕ → R1cs F → Result (R1cs F)
  lui i cs = set_var ring from_u64 (result_of (lui_inst 0 0)) i cs >>= λ p.
      set_eq_only (next_pc_of (lui_inst 0 0)) name_pc_four (p.1)

  unfoldable pub auipc : R1cs F → Result (R1cs F)
  auipc cs =
      set_eq_only (result_of (auipc_inst 0 0)) name_pc_i cs
      >>= set_eq_only (next_pc_of (auipc_inst 0 0)) name_pc_four

  unfoldable pub jal : R1cs F → Result (R1cs F)
  jal cs =
      set_eq_only (result_of (jal_inst 0 0)) name_pc_four cs
      >>= set_eq_only (next_pc_of (jal_inst 0 0)) name_pc_i

  unfoldable pub jalr : R1cs F → Result (R1cs F)
  jalr cs =
      set_eq_only (result_of (jalr_inst 0 0 0)) name_pc_four cs
      >>= set_eq_only (next_pc_of (jalr_inst 0 0 0)) (plus_name name_x name_i)

  -- `add` and `addi`, of the values of X and of Y or I.
  unfoldable pub add_alu : ℕ → ℕ → R1cs F → Result (R1cs F)
  add_alu x y cs =
      add_cir (plus_name name_x name_y) name_x name_y x y cs
      >>= set_eq_only (result_of (alu_inst Aop.add 0 0 0)) (plus_name name_x name_y)

  unfoldable pub add_alui : ℕ → ℕ → R1cs F → Result (R1cs F)
  add_alui x i cs =
      add_cir (plus_name name_x name_i) name_x name_i x i cs
      >>= set_eq_only (result_of (alui_inst Aop.add 0 0 0)) (plus_name name_x name_i)

  unfoldable pub sub_alu : ℕ → ℕ → R1cs F → Result (R1cs F)
  sub_alu x y cs =
      sub_cir (minus_name name_x name_y) name_x name_y x y cs
      >>= set_eq_only (result_of (alu_inst Aop.sub 0 0 0)) (minus_name name_x name_y)

  unfoldable pub sub_alui : ℕ → ℕ → R1cs F → Result (R1cs F)
  sub_alui x i cs =
      sub_cir (minus_name name_x name_i) name_x name_i x i cs
      >>= set_eq_only (result_of (alui_inst Aop.sub 0 0 0)) (minus_name name_x name_i)

  unfoldable pub slt : R1cs F → Result (R1cs F)
  slt cs =
      set_eq_only (result_of (alui_inst Aop.slt 0 0 0)) (slt_name name_x name_i) cs
      >>= set_eq_only (result_of (alui_inst Aop.sltu 0 0 0)) (lt_name name_x name_i)
      >>= set_eq_only (result_of (alu_inst Aop.slt 0 0 0)) (slt_name name_x name_y)
      >>= set_eq_only (result_of (alu_inst Aop.sltu 0 0 0)) (lt_name name_x name_y)

  -- A variable that is zero or one.
  abbrev as_bool : F → Result Bool
  as_bool x = if ring.eq x ring.nil then ok false else if ring.eq x ring.one then ok true else panic

  -- A local variable and its value, and the constraint that it is a product.
  abbrev set_product : Name → F → Name → Name → R1cs F → Result (R1cs F)
  set_product name x v1 v2 cs =
      new_local_var ring name cs >>= λ p. put_w ring (p.0) x (p.1) >>= mul ring name v1 v2

  unfoldable pub branch : Rv32 → Name → Name → R1cs F → Result (R1cs F)
  branch inst cond_name inverse_cond_name cs =
      let left_name : Name = 108 ∷ 101 ∷ 102 ∷ 116 ∷ [] in
      let right_name : Name = 114 ∷ 105 ∷ 103 ∷ 104 ∷ 116 ∷ [] in
      get_var cs cond_name >>= as_bool >>= λ cond. get_var cs name_pc_i >>= λ pc_imm.
      get_var cs name_pc_four >>= λ pc_four.
      set_product left_name (if cond then pc_imm else ring.nil) cond_name name_pc_i cs
      >>= set_product right_name (if cond then ring.nil else pc_four) inverse_cond_name name_pc_four
      >>= λ cs1.
          set_field_var ring (next_pc_of inst) (if cond then pc_imm else pc_four) cs1 >>= λ p.
          add ring (next_pc_of inst) left_name right_name (p.1)
          >>= set_var ring from_u64 (result_of inst) 0
          >>= λ z.
              equation ((z.0, ring.one) ∷ []) ((0, ring.one) ∷ []) [] (z.1) >>= λ cs'. ok (seal cs')

  unfoldable pub br : R1cs F → Result (R1cs F)
  br cs =
      branch (br_inst beq 0 0 0) (eq_name name_x name_y) (ne_name name_x name_y) cs
      >>= branch (br_inst bne 0 0 0) (ne_name name_x name_y) (eq_name name_x name_y)
      >>= branch (br_inst blt 0 0 0) (slt_name name_x name_y) (sge_name name_x name_y)
      >>= branch (br_inst bge 0 0 0) (sge_name name_x name_y) (slt_name name_x name_y)
      >>= branch (br_inst bltu 0 0 0) (lt_name name_x name_y) (ge_name name_x name_y)
      >>= branch (br_inst bgeu 0 0 0) (ge_name name_x name_y) (lt_name name_x name_y)
