-- ===== src/Circuit/Select.antt =====
-- Membership, selectors and register arrays (vm/src/circuit/r1cs.rs). The field's `F::from` and its
-- division, which panics on a zero divisor, are third-party code: parameters. The debug assertions panic.
use nexus_zkvm.Base.{
  ℕ, zero, suc, ◌+◌, ◌-◌, ◌/◌, ◌%◌, Bool, true, false, not, ◌&&◌, ◌||◌, List, [], ◌∷◌, ◌++◌, ltb,
  ◌==◌, if◌then◌else◌, length,
}
use nexus_zkvm.Base.Result.{Result, ok, ◌>>=◌, index}
use nexus_zkvm.R1cs.{Ring}
use nexus_zkvm.R1cs.Satisfied.{assert_then}
use nexus_zkvm.Circuit.{
  Name, R1cs, has_var, put, seal, var, get_var, new_var, put_w, set_field_var, new_local_var,
  constraint,
}
use nexus_zkvm.Circuit.Gadget.{minus_one, eqi, add, addi, mul, muli}

-- The digits of a number in decimal; the number itself is fuel enough.
abbrev pub digits_from : ℕ → ℕ → List ℕ
digits_from zero n = (48 + n % 10) ∷ []
digits_from (suc fuel) n =
    let rest = digits_from fuel (n / 10) in
    if ltb n 10 then (48 + n) ∷ [] else rest ++ (48 + n % 10) ∷ []

abbrev pub decimal : ℕ → List ℕ
decimal n = digits_from n n

abbrev pub contains : ℕ → List ℕ → Bool
contains k [] = false
contains k (x ∷ xs) = x == k || contains k xs

abbrev pub unique_values : List ℕ → Bool
unique_values [] = true
unique_values (x ∷ xs) = not (contains x xs) && unique_values xs

-- `Vec::from_iter(i..i + n)`.
abbrev pub from_iter : ℕ → ℕ → List ℕ
from_iter i zero = []
from_iter i (suc n) = i ∷ from_iter (i + 1) n

-- Names of intermediate variables: x-, l, r, cx, rsx and z before an index, and x' before one.
abbrev difference : ℕ → Name
difference i = 120 ∷ 45 ∷ decimal i

abbrev left_product : ℕ → Name
left_product i = 108 ∷ decimal i

abbrev right_product : ℕ → Name
right_product i = 114 ∷ decimal i

abbrev others_product : ℕ → Name
others_product i = 99 ∷ 120 ∷ decimal i

abbrev kept : ℕ → Name
kept i = 114 ∷ 115 ∷ 120 ∷ decimal i

abbrev stored : ℕ → Name
stored i = 122 ∷ decimal i

abbrev register : ℕ → Name
register i = 120 ∷ decimal i

abbrev next_register : ℕ → Name
next_register i = 120 ∷ 39 ∷ decimal i

-- `{name}={k}`.
abbrev selected : Name → ℕ → Name
selected name k = name ++ 61 ∷ decimal k

module _ {F : Type 0} (ring : Ring F) (from_u32 : ℕ → F) (div : F → F → Result F) where
  -- A fresh local variable and its value.
  abbrev set_local : Name → F → R1cs F → Result (R1cs F)
  set_local name x cs = new_local_var ring name cs >>= λ p. put_w ring (p.0) x (p.1)

  -- A variable and its value, where the index is not used.
  abbrev set_named : Name → F → R1cs F → Result (R1cs F)
  set_named name x cs = set_field_var ring name x cs >>= λ p. ok (p.1)

  -- The constant `C`: the product of the differences to the others.
  abbrev pub constant_from : F → List ℕ → ℕ → F
  constant_from c [] k = c
  constant_from c (x ∷ set) k =
      constant_from (if x == k then c else ring.times c (ring.minus (from_u32 k) (from_u32 x))) set
        k

  abbrev pub constant : List ℕ → ℕ → F
  constant set k = constant_from ring.one set k

  -- The turns of the loop that sets the witness, from `i` on.
  unfoldable pub member_witness : Name → ℕ → List ℕ → F → F → ℕ → ℕ → R1cs F → Result (R1cs F)
  member_witness name k set lp rp i zero cs = ok cs
  member_witness name k set lp rp i (suc n) cs =
      let i2 : ℕ = length set - 1 - i in
      let x = from_u32 k in
      index set i >>= λ si. index set i2 >>= λ si2.
      let lp' = ring.times lp (ring.minus x (from_u32 si)) in
      let rp' = ring.times rp (ring.minus x (from_u32 si2)) in
      set_local (difference i) (ring.minus x (from_u32 si)) cs
      >>= set_local (left_product i) lp'
      >>= set_local (right_product i2) rp'
      >>= set_local (others_product i) (if si == k then constant set si else ring.nil)
      >>= set_named (selected name si) (if si == k then ring.one else ring.nil)
      >>= member_witness name k set lp' rp' (i + 1) n

  -- The turns of the loop that adds the constraints.
  unfoldable pub member_constraints : Name → List ℕ → ℕ → ℕ → R1cs F → Result (R1cs F)
  member_constraints name set i zero cs = ok cs
  member_constraints name set i (suc n) cs =
      let last : ℕ = length set - 1 in
      index set i >>= λ si.
      addi ring (difference i) name (ring.minus ring.nil (from_u32 si)) cs
      >>= (if i == 0
          then muli ring (left_product 0) (difference 0) ring.one
          else mul ring (left_product i) (left_product (i - 1)) (difference i))
      >>= (if i == last
          then muli ring (right_product i) (difference i) ring.one
          else mul ring (right_product i) (difference i) (right_product (i + 1)))
      >>= (if i == 0
          then muli ring (others_product 0) (right_product 1) ring.one
          else if i == last
          then muli ring (others_product i) (left_product (i - 1)) ring.one
          else mul ring (others_product i) (left_product (i - 1)) (right_product (i + 1)))
      >>= (λ cs'. div ring.one (constant set si) >>= λ d.
          muli ring (selected name si) (others_product i) d cs')
      >>= member_constraints name set (i + 1) n

  -- What follows the witness: nothing where only the witness is wanted.
  abbrev finish : (R1cs F → Result (R1cs F)) → R1cs F → Result (R1cs F)
  finish constraints cs =
      if cs.witness_only then ok (seal cs) else (constraints cs >>= λ cs'. ok (seal cs'))

  unfoldable pub member : Name → ℕ → List ℕ → R1cs F → Result (R1cs F)
  member name k set cs = assert_then (ltb 1 (length set) && (contains k set && unique_values set)) (
      set_named name (from_u32 k) cs
      >>= member_witness name k set ring.one ring.one 0 (length set)
      >>= finish (λ cs'.
        eqi ring (right_product 0) ring.nil cs'
        >>= eqi ring (left_product (length set - 1)) ring.nil
        >>= member_constraints name set 0 (length set)))

  unfoldable pub selector : Name → ℕ → ℕ → R1cs F → Result (R1cs F)
  selector name n k cs = assert_then (ltb 2 n && ltb k n) (member name k (from_iter 0 n) cs)

  -- Whether there is a variable for each index of an array, from `i` on.
  abbrev pub all_vars : Name → ℕ → ℕ → R1cs F → Bool
  all_vars arr i zero cs = true
  all_vars arr i (suc n) cs = has_var cs (arr ++ decimal i) && all_vars arr (i + 1) n cs

  unfoldable pub load_witness : Name → ℕ → ℕ → ℕ → R1cs F → Result (R1cs F)
  load_witness arr rs i zero cs = ok cs
  load_witness arr rs i (suc n) cs = get_var cs (arr ++ decimal i) >>= λ reg.
      set_local (kept i) (if i == rs then reg else ring.nil) cs >>= load_witness arr rs (i + 1) n

  unfoldable pub load_constraints : Name → Name → ℕ → ℕ → R1cs F → Result (R1cs F)
  load_constraints input arr i zero cs = ok cs
  load_constraints input arr i (suc n) cs =
      mul ring (kept i) (selected input i) (arr ++ decimal i) cs
      >>= load_constraints input arr (i + 1) n

  -- A row with a one for each of the kept values.
  unfoldable pub put_kept : R1cs F → ℕ → ℕ → List F → Result (List F)
  put_kept cs i zero row = ok row
  put_kept cs i (suc n) row = var cs (kept i) >>= λ j. put row j ring.one >>= put_kept cs (i + 1) n

  unfoldable pub load_array : Name → Name → Name → ℕ → ℕ → R1cs F → Result (R1cs F)
  load_array input output arr size rs cs = assert_then (ltb rs size && all_vars arr 0 size cs) (
      selector input size rs cs
      >>= set_named input (from_u32 rs)
      >>= load_witness arr rs 0 size
      >>= λ cs1. get_var (new_var ring output cs1).1 (arr ++ decimal rs) >>= λ reg.
          set_field_var ring output reg cs1 >>= λ p.
          finish
            (λ cs2.
              load_constraints input arr 0 size cs2
              >>= constraint ring (λ cs3 zs. put_kept cs3 0 size zs >>= λ a.
                  put zs 0 ring.one >>= λ b. put zs (p.0) ring.one >>= λ c. ok (a, b, c)))
            (p.1))

  unfoldable pub load_reg : Name → Name → ℕ → R1cs F → Result (R1cs F)
  load_reg input output rs = load_array input output (120 ∷ []) 32 rs

  -- The registers after the store, from `i` on.
  unfoldable pub store_witness : ℕ → F → ℕ → ℕ → R1cs F → Result (R1cs F)
  store_witness rs z i zero cs = ok cs
  store_witness rs z i (suc n) cs = get_var cs (register i) >>= λ reg.
      set_named (next_register i) (if i == rs then z else reg) cs
      >>= set_local (kept i) (if i == rs then ring.nil else reg)
      >>= set_local (stored i) (if i == rs then z else ring.nil)
      >>= store_witness rs z (i + 1) n

  unfoldable pub store_constraints : Name → Name → ℕ → ℕ → R1cs F → Result (R1cs F)
  store_constraints input output i zero cs = ok cs
  store_constraints input output i (suc n) cs = var cs (selected input i) >>= λ j1.
      var cs (register i) >>= λ j2. var cs (kept i) >>= λ j3.
      constraint ring
        (λ _ zs. put zs 0 ring.one >>= λ a0. put a0 j1 (minus_one ring) >>= λ a.
          put zs j2 ring.one >>= λ b. put zs j3 ring.one >>= λ c. ok (a, b, c))
        cs
      >>= mul ring (stored i) (selected input i) output
      >>= add ring (next_register i) (kept i) (stored i)
      >>= store_constraints input output (i + 1) n

  unfoldable pub store_reg : Name → Name → ℕ → R1cs F → Result (R1cs F)
  store_reg input output rs cs =
      assert_then (ltb rs 32 && (all_vars (120 ∷ []) 0 32 cs && has_var cs output)) (
        get_var cs output >>= λ z.
        selector input 32 rs cs >>= set_named input (from_u32 rs) >>= λ cs1.
        new_local_var ring (kept 0) (new_var ring (next_register 0) cs1).1 >>= λ p.
        new_local_var ring (stored 0) (p.1) >>= λ q.
        store_witness rs z 1 31 (q.1) >>= finish (store_constraints input output 1 31))
