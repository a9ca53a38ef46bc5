-- ===== src/Examples/Circuits.antt =====
-- Systems over the field of two elements, with the names x, y and z.
use nexus_zkvm.Base.{ℕ, ◌%◌, ◌==◌, ◌≡◌, if◌then◌else◌, refl, Bool, true, false, [], ◌∷◌}
use nexus_zkvm.Base.Result.{Result, ok, panic, ◌>>=◌}
use nexus_zkvm.Examples.Parity.{two}
use nexus_zkvm.Circuit.{
  Name, R1cs, default, set_field_var, new_var, new_local_var, seal, constraint, is_sat, merge,
}
use nexus_zkvm.Circuit.Gadget.{set_var, eqi, addi, muli, add, mul}
use nexus_zkvm.Circuit.Select.{member, member_witness, member_constraints}
use nexus_zkvm.Circuit.Riscv.{add_cir}
use nexus_zkvm.Circuit.Merge.{merge-is_sat}
use nexus_zkvm.Circuit.Meaning.{IsNamed, mul_lem, add_lem}

abbrev x : Name
x = 120 ∷ []

abbrev y : Name
y = 121 ∷ []

abbrev z : Name
z = 122 ∷ []

-- Where `x` and `z` are one, `y` is zero, and there is no constraint.
abbrev free_system : R1cs Bool
free_system = record {
  w = true ∷ true ∷ false ∷ true ∷ [];
  a = [];
  b = [];
  c = [];
  arity = 0;
  witness_only = false;
  vars = (x, 1) ∷ (y, 2) ∷ (z, 3) ∷ [];
  locals = [];
}

-- The same with the constraint that `z` is the product of `x` and `y`, which does not hold.
abbrev product_system : R1cs Bool
product_system = record free_system {
  a = (false ∷ true ∷ false ∷ false ∷ []) ∷ [];
  b = (false ∷ false ∷ true ∷ false ∷ []) ∷ [];
  c = (false ∷ false ∷ false ∷ true ∷ []) ∷ [];
}

built_system :
    (set_field_var two x true (default two) >>= λ p. set_field_var two y false (p.1) >>= λ q.
    set_field_var two z true (q.1) >>= λ s. mul two z x y (s.1))
    ≡ ok product_system
unfolding set_field_var new_var mul constraint
built_system = refl

free_sat : is_sat two free_system ≡ ok true
unfolding is_sat
free_sat = refl

product_sat : is_sat two product_system ≡ ok false
unfolding is_sat
product_sat = refl

x-IsNamed : IsNamed two free_system x 1 true
x-IsNamed = record { at = refl; value = refl }

y-IsNamed : IsNamed two free_system y 2 false
y-IsNamed = record { at = refl; value = refl }

z-IsNamed : IsNamed two free_system z 3 true
z-IsNamed = record { at = refl; value = refl }

merge-is_sat_example : is_sat two (merge two free_system product_system) ≡ ok false
merge-is_sat_example = merge-is_sat two free_system product_system true false free_sat product_sat

mul_lem_example :
    (cs : R1cs Bool) × (mul two z x y free_system ≡ ok cs) × (is_sat two cs ≡ ok false)
mul_lem_example =
    mul_lem two free_system z x y 3 1 2 true true false true refl free_sat z-IsNamed x-IsNamed
      y-IsNamed

add_lem_example : (cs : R1cs Bool) × (add two z x y free_system ≡ ok cs) × (is_sat two cs ≡ ok true)
add_lem_example =
    add_lem two free_system z x y 3 1 2 true true false true refl refl free_sat z-IsNamed x-IsNamed
      y-IsNamed

-- The number from its lowest bit, and division.
abbrev odd : ℕ → Bool
odd n = n % 2 == 1

abbrev quotient : Bool → Bool → Result Bool
quotient a b = if b then ok a else panic

member_sat : (member two odd quotient x 1 (0 ∷ 1 ∷ []) (default two) >>= is_sat two) ≡ ok true
unfolding member member_witness member_constraints set_field_var new_local_var new_var eqi addi mul
    muli constraint seal is_sat
member_sat = refl

sum_sat : (add_cir two odd (97 ∷ []) x y 1 0 free_system >>= is_sat two) ≡ ok true
unfolding add_cir set_var set_field_var new_local_var new_var constraint seal is_sat
sum_sat = refl
