-- ===== src/Circuit/Meaning.antt =====
-- What a gadget adds to a system: one more equation between the values of its variables.
use mathlib.Core.Path.{ap₂}
use nexus_zkvm.Base.{
  ℕ, zero, suc, ◌<◌, ◌≡◌, ◌≢◌, refl, sym, ap, ◌∙◌, arith, inl, inr, Bool, true, false, ◌&&◌,
  Bool-cases, List, [], ◌∷◌, ◌++◌, ltb, ◌==◌, ==_refl, if◌then◌else◌, length, set, replicate,
  length-append, length-replicate, length-set,
}
use nexus_zkvm.Base.Result.{Result, ok, index}
use nexus_zkvm.R1cs.{Ring}
use nexus_zkvm.R1cs.Plain.{index-replicate}
use nexus_zkvm.Circuit.{Name, R1cs, put, var, constraint, dot, are_wide, is_sat}
use nexus_zkvm.Circuit.Gadget.{add, mul}
use nexus_zkvm.Circuit.Dots.{dot-set, dot-zeros}
use nexus_zkvm.Circuit.Merge.{IsEven, is_sat-eq-ok, IsEven-is_sat, all_rows-append, are_wide-append}

index-lt : {F : Type 0} (xs : List F) (i : ℕ) {x : F} → index xs i ≡ ok x → i < length xs
index-lt [] i h = cc
index-lt (y ∷ ys) zero h = omega arith
index-lt (y ∷ ys) (suc i) h = omega (arith, index-lt ys i h)

index-set_ne :
    {F : Type 0} (xs : List F) (i j : ℕ) (v : F) {x : F}
    → i ≢ j
    → index xs j ≡ ok x
    → index (set xs i v) j ≡ ok x
index-set_ne [] i j v ne h = h
index-set_ne (y ∷ ys) zero zero v ne h = absurd (ne refl)
index-set_ne (y ∷ ys) zero (suc j) v ne h = h
index-set_ne (y ∷ ys) (suc i) zero v ne h = h
index-set_ne (y ∷ ys) (suc i) (suc j) v ne h = index-set_ne ys i j v (λ e. ne (ap suc e)) h

set_twice : {F : Type 0} (xs : List F) (i : ℕ) (v : F) → set (set xs i v) i v ≡ set xs i v
set_twice [] i v = refl
set_twice (x ∷ xs) zero v = refl
set_twice (x ∷ xs) (suc i) v = ap (λ l. x ∷ l) (set_twice xs i v)

put-inside :
    {F : Type 0} (xs : List F) (i : ℕ) (v : F) → i < length xs → put xs i v ≡ ok (set xs i v)
put-inside xs i v h = let e : ltb i (length xs) ≡ true = ground arith in rw e refl

if_false : {A : Type 0} (b : Bool) (x y : A) → b ≡ false → (if b then x else y) ≡ y
if_false true x y h = cc
if_false false x y h = refl

module _ {F : Type 0} (ring : Ring F) where
  -- A name, its index and the value there.
  pub record IsNamed (cs : R1cs F) (name : Name) (j : ℕ) (x : F) : Type 0 where
    pub at : var cs name ≡ ok j
    pub value : index (cs.w) j ≡ ok x

  abbrev zeros : R1cs F → List F
  zeros cs = replicate (length (cs.w)) (ring.nil)

  -- The row with a one.
  abbrev unit_row : R1cs F → ℕ → List F
  unit_row cs j = set (zeros cs) j (ring.one)

  length-unit_row : (cs : R1cs F) (j : ℕ) → length (unit_row cs j) ≡ length (cs.w)
  length-unit_row cs j =
      length-set (zeros cs) j (ring.one) ∙ length-replicate (length (cs.w)) (ring.nil)

  put-zeros :
      (cs : R1cs F) (j : ℕ) {x : F}
      → index (cs.w) j ≡ ok x
      → put (zeros cs) j (ring.one) ≡ ok (unit_row cs j)
  put-zeros cs j h =
      put-inside (zeros cs) j (ring.one)
        (omega (arith, index-lt (cs.w) j h, length-replicate (length (cs.w)) (ring.nil)))

  dot-unit_row :
      (cs : R1cs F) (j : ℕ) {x : F} → index (cs.w) j ≡ ok x → dot ring (unit_row cs j) (cs.w) ≡ x
  dot-unit_row cs j {x} h =
      dot-set ring (zeros cs) (cs.w) j (ring.one)
        (index-replicate (length (cs.w)) j (ring.nil) (index-lt (cs.w) j h)) h
      ∙ ap₂ ring.plus (dot-zeros ring (length (cs.w)) (cs.w)) (ring.times-one x)
      ∙ ring.plus_comm (ring.nil) x
      ∙ ring.plus-nil x

  dot-two :
      (cs : R1cs F) (i j : ℕ) {x y : F}
      → i ≢ j
      → index (cs.w) i ≡ ok x
      → index (cs.w) j ≡ ok y
      → dot ring (set (unit_row cs i) j (ring.one)) (cs.w) ≡ ring.plus x y
  dot-two cs i j {x} {y} ne hx hy =
      dot-set ring (unit_row cs i) (cs.w) j (ring.one)
        (index-set_ne (zeros cs) i j (ring.one) ne
          (index-replicate (length (cs.w)) j (ring.nil) (index-lt (cs.w) j hy)))
        hy
      ∙ ap₂ ring.plus (dot-unit_row cs i hx) (ring.times-one y)

  -- A constraint adds its equation.
  constraint-is_sat :
      (f : R1cs F → List F → Result (List F × List F × List F)) (cs : R1cs F) (a b c : List F)
      (x : Bool)
      → cs.witness_only ≡ false
      → f cs (zeros cs) ≡ ok (a, b, c)
      → length a ≡ length (cs.w)
      → length b ≡ length (cs.w)
      → length c ≡ length (cs.w)
      → is_sat ring cs ≡ ok x
      → (cs' : R1cs F) × (constraint ring f cs ≡ ok cs')
        × (is_sat ring cs'
            ≡ ok (
                x
                && ring.eq
                    (ring.times (dot ring a (cs.w)) (dot ring b (cs.w)))
                    (dot ring c (cs.w))))
  unfolding constraint
  constraint-is_sat f cs a b c x full made la lb lc h =
      let (i, sat) = is_sat-eq-ok ring cs h in
      (
        record cs { a = cs.a ++ a ∷ []; b = cs.b ++ b ∷ []; c = cs.c ++ c ∷ [] },
        if_false cs.witness_only _ _ full ∙ rw made refl,
        IsEven-is_sat ring _ (even i)
            ∙ ap ok (
                all_rows-append ring (cs.a) (cs.b) (cs.c) (a ∷ []) (b ∷ []) (c ∷ []) (cs.w)
                  (i.same_b) (i.same_c)
                ∙ ap₂ ◌&&◌ sat (
                    and_last (
                      ring.eq (ring.times (dot ring a (cs.w)) (dot ring b (cs.w)))
                        (dot ring c (cs.w))))),
      )
    where
      and_last : (y : Bool) → y && true ≡ y
      and_last true = refl
      and_last false = refl

      wide :
          (row : List F)
          → length row ≡ length (cs.w)
          → are_wide ring (length (cs.w)) (row ∷ []) ≡ true
      wide row e = rw (e, ==_refl (length (cs.w))) refl

      even :
          IsEven ring cs
          → IsEven ring (record cs { a = cs.a ++ a ∷ []; b = cs.b ++ b ∷ []; c = cs.c ++ c ∷ [] })
      even i = record {
        same_b =
            omega (arith, i.same_b, length-append (cs.a) (a ∷ []), length-append (cs.b) (b ∷ []));
        same_c =
            omega (arith, i.same_c, length-append (cs.a) (a ∷ []), length-append (cs.c) (c ∷ []));
        wide_a = are_wide-append ring (length (cs.w)) (cs.a) (a ∷ []) (i.wide_a) (wide a la);
        wide_b = are_wide-append ring (length (cs.w)) (cs.b) (b ∷ []) (i.wide_b) (wide b lb);
        wide_c = are_wide-append ring (length (cs.w)) (cs.c) (c ∷ []) (i.wide_c) (wide c lc);
      }

  -- On a system with constraints, on which the assertions hold, `mul` of named variables succeeds and
  -- adds the equation of the product.
  pub mul_lem :
      (cs : R1cs F) (v0 v1 v2 : Name) (j0 j1 j2 : ℕ) (x0 x1 x2 : F) (sat : Bool)
      → cs.witness_only ≡ false
      → is_sat ring cs ≡ ok sat
      → IsNamed cs v0 j0 x0
      → IsNamed cs v1 j1 x1
      → IsNamed cs v2 j2 x2
      → (cs' : R1cs F) × (mul ring v0 v1 v2 cs ≡ ok cs')
        × (is_sat ring cs' ≡ ok (sat && ring.eq (ring.times x1 x2) x0))
  unfolding mul
  mul_lem cs v0 v1 v2 j0 j1 j2 x0 x1 x2 sat full h n0 n1 n2 =
      let (cs', ran, sat') =
        constraint-is_sat _ cs (unit_row cs j1) (unit_row cs j2) (unit_row cs j0) sat full
          (rw
            (
              n1.at,
              put-zeros cs j1 (n1.value),
              n2.at,
              put-zeros cs j2 (n2.value),
              n0.at,
              put-zeros cs j0 (n0.value),
            )
            refl)
          (length-unit_row cs j1) (length-unit_row cs j2) (length-unit_row cs j0) h in
      (
        cs',
        ran,
        sat'
            ∙ ap₂ (λ l r. ok (sat && ring.eq l r))
                (ap₂ ring.times (dot-unit_row cs j1 (n1.value)) (dot-unit_row cs j2 (n2.value)))
                (dot-unit_row cs j0 (n0.value)),
      )

  -- On a system with constraints, on which the assertions hold and whose witness starts with one,
  -- `add` of named variables succeeds and adds the equation of the sum where the two summands are
  -- different variables; of one variable twice it adds that the result is that variable.
  pub add_lem :
      (cs : R1cs F) (v0 v1 v2 : Name) (j0 j1 j2 : ℕ) (x0 x1 x2 : F) (sat : Bool)
      → cs.witness_only ≡ false
      → index (cs.w) 0 ≡ ok (ring.one)
      → is_sat ring cs ≡ ok sat
      → IsNamed cs v0 j0 x0
      → IsNamed cs v1 j1 x1
      → IsNamed cs v2 j2 x2
      → (cs' : R1cs F) × (add ring v0 v1 v2 cs ≡ ok cs')
        × (is_sat ring cs' ≡ ok (sat && ring.eq (if j1 == j2 then x1 else ring.plus x1 x2) x0))
  unfolding add
  add_lem cs v0 v1 v2 j0 j1 j2 x0 x1 x2 sat full first h n0 n1 n2 =
      let (cs', ran, sat') =
        constraint-is_sat _ cs (set (unit_row cs j1) j2 (ring.one)) (unit_row cs 0) (unit_row cs j0)
          sat full
          (rw
            (
              n1.at,
              put-zeros cs j1 (n1.value),
              n2.at,
              second,
              put-zeros cs 0 first,
              n0.at,
              put-zeros cs j0 (n0.value),
            )
            refl)
          (length-set (unit_row cs j1) j2 (ring.one) ∙ length-unit_row cs j1) (length-unit_row cs 0)
          (length-unit_row cs j0) h in
      (
        cs',
        ran,
        sat'
            ∙ ap₂ (λ l r. ok (sat && ring.eq l r))
                (ap₂ ring.times sum (dot-unit_row cs 0 first)
                  ∙ ring.times_comm _ (ring.one)
                  ∙ ring.times-one _)
                (dot-unit_row cs j0 (n0.value)),
      )
    where
      second : put (unit_row cs j1) j2 (ring.one) ≡ ok (set (unit_row cs j1) j2 (ring.one))
      second =
          put-inside (unit_row cs j1) j2 (ring.one)
            (omega (arith, length-unit_row cs j1, index-lt (cs.w) j2 (n2.value)))

      apart : (j1 == j2) ≡ false → j1 ≢ j2
      apart other e = ground arith

      sum :
          dot ring (set (unit_row cs j1) j2 (ring.one)) (cs.w)
          ≡ (if j1 == j2 then x1 else ring.plus x1 x2)
      sum = elim (Bool-cases (j1 == j2)) [
        | inl same ↦
            let e : j1 ≡ j2 = ground arith in
            rw same (
              ap (λ j. dot ring (set (unit_row cs j1) j (ring.one)) (cs.w)) (sym e)
              ∙ ap (λ row. dot ring row (cs.w)) (set_twice (zeros cs) j1 (ring.one))
              ∙ dot-unit_row cs j1 (n1.value))
        | inr other ↦ rw other (dot-two cs j1 j2 (apart other) (n1.value) (n2.value))
      ]
