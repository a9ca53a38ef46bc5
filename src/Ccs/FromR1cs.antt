-- ===== src/Ccs/FromR1cs.antt =====
-- The constraint system of an R1CS shape accepts what the shape accepts.
use mathlib.Core.Path.{ap₂}
use nexus_zkvm.Base.{
  ℕ, zero, suc, ◌+◌, ◌≡◌, refl, sym, ap, ◌∙◌, arith, Bool, true, false, not, ◌||◌, inl, inr,
  Bool-cases, List, [], ◌∷◌, ◌++◌, ◌==◌, if◌then◌else◌, length, replicate, length-replicate,
}
use nexus_zkvm.Base.Result.{Result, ok, err, panic, ◌>>=◌, index}
use nexus_zkvm.Sparse.{multiply_vec}
use nexus_zkvm.R1cs.{
  Ring, field_of, Commitment, Answer, okay, fail, R1csShape, R1csWitness, R1csInstance,
}
use nexus_zkvm.R1cs.Satisfied.{
  assert_then, products, violates, any, unless, is_satisfied as r1cs_is_satisfied,
}
use nexus_zkvm.R1cs.Fold.{circle}
use nexus_zkvm.R1cs.Linear.{length-multiply_vec}
use nexus_zkvm.R1cs.Folded.{IsShape}
use nexus_zkvm.Ccs.{
  PolyScheme, Outcome, done, failed, commit_witness, multiply_all, times_rows, hadamard, plus_rows,
  accumulate, any_nonzero, not_satisfied, check_commitment, is_satisfied, from_r1cs,
}

-- Whether an answer is positive.
abbrev pub accepts : Answer Unit → Bool
accepts (okay a) = true
accepts (fail e) = false

abbrev pub accepted : Outcome Unit → Bool
accepted (done a) = true
accepted (failed e) = false

module _ {F : Type 0} (ring : Ring F) where
  -- The sums of two lists of one length.
  abbrev sums : List F → List F → List F
  sums [] ys = []
  sums (x ∷ xs) [] = []
  sums (x ∷ xs) (y ∷ ys) = ring.plus x y ∷ sums xs ys

  -- From `j` on, a list reads what another reads from its start.
  Reads : List F → ℕ → List F → Type 0
  Reads row j m = (k : ℕ) → index row (j + k) ≡ index m k

  Reads-all : (m : List F) → Reads m 0 m
  unfolding Reads
  Reads-all m k = ap (index m) (omega arith)

  Reads-next :
      (row : List F) (j : ℕ) (y : F) (m : List F) → Reads row j (y ∷ m) → Reads row (j + 1) m
  unfolding Reads
  Reads-next row j y m r k = ap (index row) (omega arith) ∙ r (suc k)

  times_rows-circle :
      (mzs : List (List F)) (idx j : ℕ) (row m xs : List F)
      → index mzs idx ≡ ok row
      → Reads row j m
      → length xs ≡ length m
      → times_rows ring mzs idx j xs ≡ ok (circle ring xs m)
  unfolding times_rows Reads
  times_rows-circle mzs idx j row m [] h r e = refl
  times_rows-circle mzs idx j row [] (x ∷ xs) h r e = absurd (omega (arith, e))
  times_rows-circle mzs idx j row (y ∷ m) (x ∷ xs) h r e =
      let here : index row j ≡ ok y = ap (index row) (omega arith) ∙ r 0 in
      rw
        (
          h,
          here,
          times_rows-circle mzs idx (j + 1) row m xs h (Reads-next row j y m r) (omega (arith, e)),
        )
        refl

  eq-cong : (x y u v : F) → (x ≡ y → u ≡ v) → (u ≡ v → x ≡ y) → ring.eq x y ≡ ring.eq u v
  eq-cong x y u v f g = elim (Bool-cases (ring.eq x y)) [
    | inl same ↦ same ∙ sym (ap (ring.eq u) (sym (f (ring.eq_sound x y same))) ∙ ring.eq_refl u)
    | inr other ↦ elim (Bool-cases (ring.eq u v)) [
      | inl same ↦
          let e : ring.eq x y ≡ true =
            ap (ring.eq x) (sym (g (ring.eq_sound u v same))) ∙ ring.eq_refl x in
          e ∙ sym same
      | inr also ↦ other ∙ sym also
    ]
  ]

  abbrev minus_one : F
  minus_one = ring.minus (ring.nil) (ring.one)

  -- The sum of a row, as the constraint system adds it up.
  abbrev row_sum : F → F → F → F
  row_sum a b c =
      ring.plus (ring.plus (ring.nil) (ring.times (ring.times (ring.one) a) b))
        (ring.times minus_one c)

  minus_one-plus : (c : F) → ring.plus (ring.times minus_one c) c ≡ ring.nil
  minus_one-plus c =
      ap₂ ring.plus (ring.times_comm minus_one c)
        (sym (ring.times-one c) ∙ ring.times_comm (ring.one) c)
      ∙ sym (ring.times-plus c minus_one (ring.one))
      ∙ ap (ring.times c) (ring.minus-plus (ring.nil) (ring.one))
      ∙ ring.times_comm c (ring.nil)
      ∙ ring.times-nil c

  row_sum-eq : (a b c : F) → row_sum a b c ≡ ring.plus (ring.times a b) (ring.times minus_one c)
  row_sum-eq a b c =
      ap (λ p. ring.plus p (ring.times minus_one c))
        (ring.plus_comm (ring.nil) _
          ∙ ring.plus-nil _
          ∙ ap (λ p. ring.times p b) (ring.times-one a))

  row_lem : (a b c : F) → ring.eq (ring.times a b) c ≡ ring.eq (row_sum a b c) (ring.nil)
  row_lem a b c =
      eq-cong (ring.times a b) c (row_sum a b c) (ring.nil)
        (λ e.
          row_sum-eq a b c
          ∙ ap (λ p. ring.plus p (ring.times minus_one c)) e
          ∙ ring.plus_comm c _
          ∙ minus_one-plus c)
        (λ e.
          sym (ring.plus-nil (ring.times a b))
          ∙ ap (ring.plus (ring.times a b)) (sym (minus_one-plus c))
          ∙ sym (ring.plus_assoc (ring.times a b) (ring.times minus_one c) c)
          ∙ ap (λ p. ring.plus p c) (sym (row_sum-eq a b c) ∙ e)
          ∙ ring.plus_comm (ring.nil) c
          ∙ ring.plus-nil c)

  plus_rows-sums :
      (row : List F) (j : ℕ) (ys xs : List F)
      → Reads row j ys
      → length xs ≡ length ys
      → plus_rows ring row j xs ≡ ok (sums xs ys)
  unfolding plus_rows Reads
  plus_rows-sums row j ys [] r e = refl
  plus_rows-sums row j [] (x ∷ xs) r e = absurd (omega (arith, e))
  plus_rows-sums row j (y ∷ ys) (x ∷ xs) r e =
      let here : index row j ≡ ok y = ap (index row) (omega arith) ∙ r 0 in
      rw (here, plus_rows-sums row (j + 1) ys xs (Reads-next row j y ys r) (omega (arith, e))) refl

  any-shift :
      (az bz cz : List F) (a b c : F) (i n : ℕ)
      → any (violates ring (a ∷ az, b ∷ bz, c ∷ cz)) (suc i) n
        ≡ any (violates ring (az, bz, cz)) i n
  unfolding any violates
  any-shift az bz cz a b c i zero = refl
  any-shift az bz cz a b c i (suc n) =
      let e : suc i + 1 ≡ suc (i + 1) = omega arith in
      rw (e, any-shift az bz cz a b c (i + 1) n) refl

  -- The accumulated rows.
  abbrev acc_of : List F → List F → List F → List F
  acc_of az bz cz =
      let n = length az in
      sums
        (sums (replicate n (ring.nil)) (circle ring (circle ring (replicate n (ring.one)) az) bz))
        (circle ring (replicate n minus_one) cz)

  any-violates :
      (az bz cz : List F)
      → length bz ≡ length az
      → length cz ≡ length az
      → any (violates ring (az, bz, cz)) 0 (length az) ≡ ok (any_nonzero ring (acc_of az bz cz))
  unfolding any violates
  any-violates [] bz cz eb ec = refl
  any-violates (a ∷ az) [] cz eb ec = absurd (omega (arith, eb))
  any-violates (a ∷ az) (b ∷ bz) [] eb ec = absurd (omega (arith, ec))
  any-violates (a ∷ az) (b ∷ bz) (c ∷ cz) eb ec =
      let rest =
        any-shift az bz cz a b c 0 (length az)
        ∙ any-violates az bz cz (omega (arith, eb)) (omega (arith, ec)) in
      rw (rest, row_lem a b c) (settle (not (ring.eq (row_sum a b c) (ring.nil))))
    where
      settle :
          (x : Bool)
          → (if x then ok true else ok (any_nonzero ring (acc_of az bz cz)))
            ≡ ok (x || any_nonzero ring (acc_of az bz cz))
      settle true = refl
      settle false = refl

  length-circle : (xs ys : List F) → length xs ≡ length ys → length (circle ring xs ys) ≡ length ys
  length-circle [] [] e = refl
  length-circle [] (y ∷ ys) e = absurd (omega (arith, e))
  length-circle (x ∷ xs) [] e = absurd (omega (arith, e))
  length-circle (x ∷ xs) (y ∷ ys) e = ap suc (length-circle xs ys (omega (arith, e)))

  length-sums : (xs ys : List F) → length xs ≡ length ys → length (sums xs ys) ≡ length ys
  length-sums [] [] e = refl
  length-sums [] (y ∷ ys) e = absurd (omega (arith, e))
  length-sums (x ∷ xs) [] e = absurd (omega (arith, e))
  length-sums (x ∷ xs) (y ∷ ys) e = ap suc (length-sums xs ys (omega (arith, e)))

  -- One multiplication of the rows, and one addition to them.
  times_all :
      (mzs : List (List F)) (idx : ℕ) (m xs : List F)
      → index mzs idx ≡ ok m
      → length xs ≡ length m
      → times_rows ring mzs idx 0 xs ≡ ok (circle ring xs m)
  times_all mzs idx m xs h e = times_rows-circle mzs idx 0 m m xs h (Reads-all m) e

  plus_all : (ys xs : List F) → length xs ≡ length ys → plus_rows ring ys 0 xs ≡ ok (sums xs ys)
  plus_all ys xs e = plus_rows-sums ys 0 ys xs (Reads-all ys) e

  -- What the loop over the multisets of an R1CS shape leaves.
  accumulate_lem :
      (az bz cz : List F)
      → length bz ≡ length az
      → length cz ≡ length az
      → accumulate ring
          (az ∷ bz ∷ cz ∷ [])
          (length az)
          ((ring.one, 0 ∷ 1 ∷ []) ∷ (minus_one, 2 ∷ []) ∷ [])
          (replicate (length az) (ring.nil))
        ≡ ok (acc_of az bz cz)
  unfolding accumulate hadamard
  accumulate_lem az bz cz eb ec =
      let n = length az in
      let mzs = az ∷ bz ∷ cz ∷ [] in
      let ones = replicate n (ring.one) in
      let h1 = circle ring (circle ring ones az) bz in
      let h2 = circle ring (replicate n minus_one) cz in
      let zeros = replicate n (ring.nil) in
      let l0 : length ones ≡ n = length-replicate n (ring.one) in
      let l1 : length (circle ring ones az) ≡ n = length-circle ones az l0 in
      let l2 : length h1 ≡ n =
        omega (arith, length-circle (circle ring ones az) bz (omega (arith, l1, eb)), eb) in
      let l3 : length (replicate n minus_one) ≡ n = length-replicate n minus_one in
      let l4 : length h2 ≡ n =
        omega (arith, length-circle (replicate n minus_one) cz (omega (arith, l3, ec)), ec) in
      let l5 : length zeros ≡ n = length-replicate n (ring.nil) in
      let l6 : length (sums zeros h1) ≡ n =
        omega (arith, length-sums zeros h1 (omega (arith, l5, l2)), l2) in
      rw
        (
          times_all mzs 0 az ones refl l0,
          times_all mzs 1 bz (circle ring ones az) refl (omega (arith, l1, eb)),
          plus_all h1 zeros (omega (arith, l5, l2)),
          times_all mzs 2 cz (replicate n minus_one) refl (omega (arith, l3, ec)),
          plus_all h2 (sums zeros h1) (omega (arith, l6, l4)),
        )
        refl

-- Two runs with one assertion.
assert_cong :
    {A B : Type 0} (b : Bool) (x : Result A) (y : Result B) (f : A → Result Bool)
    (g : B → Result Bool)
    → (b ≡ true → (x >>= f) ≡ (y >>= g))
    → (assert_then b x >>= f) ≡ (assert_then b y >>= g)
assert_cong true x y f g h = h refl
assert_cong false x y f g h = refl

module _ {F C C' P : Type 0} (ring : Ring F) (scheme : Commitment F ring C)
    (polys : PolyScheme F C' P) where
  -- What both tests do with the products.
  verdicts :
      (commitment : C') (w : List F) (c : C') (bad b : Bool)
      → commit_witness ring polys (record { w = w }) ≡ ok c
      → polys.eq commitment c ≡ b
      → ((if bad
            then ok (failed not_satisfied)
            else check_commitment ring polys commitment (record { w = w }))
          >>= λ a. ok (accepted a))
        ≡ ok (accepts (unless bad (unless (not b) (okay tt))))
  verdicts commitment w c true b made agree = refl
  verdicts commitment w c false true made agree = rw (made, agree) refl
  verdicts commitment w c false false made agree = rw (made, agree) refl

  compare :
      (shape : R1csShape F) (u : R1csInstance F C) (w : R1csWitness F) (commitment c : C')
      (ra rb rc : Result (List F))
      → IsShape shape
      → commit_witness ring polys (record { w = w.w }) ≡ ok c
      → polys.eq commitment c ≡ scheme.eq (u.commitment_w) (scheme.commit (w.w))
      → multiply_vec (field_of ring) (shape.a) (u.x ++ w.w) ≡ ra
      → multiply_vec (field_of ring) (shape.b) (u.x ++ w.w) ≡ rb
      → multiply_vec (field_of ring) (shape.c) (u.x ++ w.w) ≡ rc
      → ((multiply_all ring (shape.a ∷ shape.b ∷ shape.c ∷ []) (u.x ++ w.w) >>= λ mzs.
            accumulate ring mzs
              (shape.num_constraints)
              ((from_r1cs ring shape).css)
              (replicate (shape.num_constraints) (ring.nil))
            >>= λ acc.
                if any_nonzero ring acc
                then ok (failed not_satisfied)
                else check_commitment ring polys commitment (record { w = w.w }))
          >>= λ a. ok (accepted a))
        ≡ ((products ring shape (u.x ++ w.w) >>= λ z.
              any (violates ring z) 0 (shape.num_constraints) >>= λ bad. ok (
                unless bad
                  (unless (not (scheme.eq (u.commitment_w) (scheme.commit (w.w)))) (okay tt))))
            >>= λ a. ok (accepts a))
  unfolding multiply_all
  compare shape u w commitment c panic rb rc i made agree fa fb fc = rw fa refl
  compare shape u w commitment c (err x) rb rc i made agree fa fb fc = rw fa refl
  compare shape u w commitment c (ok az) panic rc i made agree fa fb fc = rw (fa, fb) refl
  compare shape u w commitment c (ok az) (err x) rc i made agree fa fb fc = rw (fa, fb) refl
  compare shape u w commitment c (ok az) (ok bz) panic i made agree fa fb fc = rw (fa, fb, fc) refl
  compare shape u w commitment c (ok az) (ok bz) (err x) i made agree fa fb fc =
      rw (fa, fb, fc) refl
  compare shape u w commitment c (ok az) (ok bz) (ok cz) i made agree fa fb fc =
      let la : length az ≡ shape.num_constraints =
        omega (arith, length-multiply_vec ring (shape.a) _ fa, i.rows_a) in
      let lb : length bz ≡ length az =
        omega (arith, la, length-multiply_vec ring (shape.b) _ fb, i.rows_b) in
      let lc : length cz ≡ length az =
        omega (arith, la, length-multiply_vec ring (shape.c) _ fc, i.rows_c) in
      rw (fa, fb, fc, sym la, accumulate_lem ring az bz cz lb lc, any-violates ring az bz cz lb lc)
        (verdicts commitment (w.w) c (any_nonzero ring (acc_of ring az bz cz)) _ made agree)

  -- For a shape whose matrices have a row for each constraint, the test of its constraint system
  -- accepts, refuses or panics as the test of the shape does on the same input and witness, where the
  -- witness has a polynomial commitment and the comparisons of the two commitments agree.
  pub is_satisfied-from_r1cs :
      (shape : R1csShape F) (u : R1csInstance F C) (w : R1csWitness F) (commitment c : C')
      → IsShape shape
      → commit_witness ring polys (record { w = w.w }) ≡ ok c
      → polys.eq commitment c ≡ scheme.eq (u.commitment_w) (scheme.commit (w.w))
      → (is_satisfied ring polys
            (from_r1cs ring shape)
            (record { commitment_w = commitment; x = u.x })
            (record { w = w.w })
          >>= λ a. ok (accepted a))
        ≡ (r1cs_is_satisfied ring scheme shape u w >>= λ a. ok (accepts a))
  unfolding is_satisfied r1cs_is_satisfied
  is_satisfied-from_r1cs shape u w commitment c i made agree =
      assert_cong (length (w.w) == shape.num_vars) _ _ _ _ (λ _.
        assert_cong (length (u.x) == shape.num_io) _ _ _ _
          (λ _. compare shape u w commitment c _ _ _ i made agree refl refl refl))
