-- ===== src/Circuit/Merge.antt =====
-- `merge`: the merged system is satisfied where both are.
use mathlib.Core.Path.{ap₂}
use nexus_zkvm.Base.{
  ℕ, ◌+◌, ◌≡◌, refl, sym, ap, ◌∙◌, arith, inl, inr, Bool, true, false, ◌&&◌, Bool-cases, List, [],
  ◌∷◌, ◌++◌, map, ◌==◌, ==_refl, length, replicate, length-append, length-replicate, length-map,
}
use nexus_zkvm.Base.Result.{ok, panic, ok-inj}
use nexus_zkvm.R1cs.{Ring}
use nexus_zkvm.Circuit.{R1cs, dot, all_rows, are_wide, is_sat, resize, merge_rows, merge}
use nexus_zkvm.Circuit.Dots.{dot-resize, dot-zeros_append, resize_lem}

pub and_true : (a b : Bool) → a && b ≡ true → (a ≡ true) × (b ≡ true)
and_true true b h = (refl, h)
and_true false b h = cc

module _ {F : Type 0} (ring : Ring F) where
  -- What the debug assertions ask for.
  pub record IsEven (cs : R1cs F) : Type 0 where
    pub same_b : length (cs.a) ≡ length (cs.b)
    pub same_c : length (cs.a) ≡ length (cs.c)
    pub wide_a : are_wide ring (length (cs.w)) (cs.a) ≡ true
    pub wide_b : are_wide ring (length (cs.w)) (cs.b) ≡ true
    pub wide_c : are_wide ring (length (cs.w)) (cs.c) ≡ true

  pub is_sat-eq-ok :
      (cs : R1cs F) {x : Bool}
      → is_sat ring cs ≡ ok x
      → IsEven cs × (all_rows ring (cs.a) (cs.b) (cs.c) (cs.w) ≡ x)
  unfolding is_sat
  is_sat-eq-ok cs {x} h =
      elim (Bool-cases (
        length (cs.a) == length (cs.b)
        && (length (cs.a) == length (cs.c)
            && (are_wide ring (length (cs.w)) (cs.a)
                && (are_wide ring (length (cs.w)) (cs.b)
                    && are_wide ring (length (cs.w)) (cs.c)))))) [
                      | inl even ↦
                          let (e1, r1) = and_true _ _ even in
                          let (e2, r2) = and_true _ _ r1 in
                          let (e3, r3) = and_true _ _ r2 in
                          let (e4, e5) = and_true _ _ r3 in
                          (
                            record {
                              same_b = ground arith;
                              same_c = ground arith;
                              wide_a = e3;
                              wide_b = e4;
                              wide_c = e5;
                            },
                            ok-inj (rw even at h),
                          )
                      | inr odd ↦ let e : panic ≡ ok x = rw odd at h in cc
                    ]

  pub IsEven-is_sat :
      (cs : R1cs F) → IsEven cs → is_sat ring cs ≡ ok (all_rows ring (cs.a) (cs.b) (cs.c) (cs.w))
  unfolding is_sat
  IsEven-is_sat cs i =
      rw (sym (i.same_b), sym (i.same_c), ==_refl (length (cs.a)), i.wide_a, i.wide_b, i.wide_c)
        refl

  pub all_rows-append :
      (as' bs cs as'' bs' cs' : List (List F)) (w : List F)
      → length as' ≡ length bs
      → length as' ≡ length cs
      → all_rows ring (as' ++ as'') (bs ++ bs') (cs ++ cs') w
        ≡ all_rows ring as' bs cs w && all_rows ring as'' bs' cs' w
  all_rows-append [] [] [] as'' bs' cs' w e f = refl
  all_rows-append [] (b ∷ bs) cs as'' bs' cs' w e f = absurd (omega (arith, e))
  all_rows-append [] [] (c ∷ cs) as'' bs' cs' w e f = absurd (omega (arith, f))
  all_rows-append (a ∷ as') [] cs as'' bs' cs' w e f = absurd (omega (arith, e))
  all_rows-append (a ∷ as') (b ∷ bs) [] as'' bs' cs' w e f = absurd (omega (arith, f))
  all_rows-append (a ∷ as') (b ∷ bs) (c ∷ cs) as'' bs' cs' w e f =
      ap (λ x. ring.eq (ring.times (dot ring a w) (dot ring b w)) (dot ring c w) && x)
        (all_rows-append as' bs cs as'' bs' cs' w (omega (arith, e)) (omega (arith, f)))
      ∙ and_assoc (ring.eq (ring.times (dot ring a w) (dot ring b w)) (dot ring c w))
          (all_rows ring as' bs cs w) (all_rows ring as'' bs' cs' w)
    where
      and_assoc : (x y z : Bool) → x && (y && z) ≡ (x && y) && z
      and_assoc true y z = refl
      and_assoc false y z = refl

  -- Rows changed so that their products stay.
  all_rows-map :
      (f : List F → List F) (n : ℕ) (as' bs cs : List (List F)) (w w' : List F)
      → ((row : List F) → length row ≡ n → dot ring (f row) w' ≡ dot ring row w)
      → are_wide ring n as' ≡ true
      → are_wide ring n bs ≡ true
      → are_wide ring n cs ≡ true
      → all_rows ring (map f as') (map f bs) (map f cs) w' ≡ all_rows ring as' bs cs w
  all_rows-map f n [] bs cs w w' same ha hb hc = refl
  all_rows-map f n (a ∷ as') [] cs w w' same ha hb hc = refl
  all_rows-map f n (a ∷ as') (b ∷ bs) [] w w' same ha hb hc = refl
  all_rows-map f n (a ∷ as') (b ∷ bs) (c ∷ cs) w w' same ha hb hc =
      let (wa, ra) = and_true (length a == n) _ ha in
      let (wb, rb) = and_true (length b == n) _ hb in
      let (wc, rc) = and_true (length c == n) _ hc in
      rw (same a (ground arith), same b (ground arith), same c (ground arith))
        (ap (λ x. ring.eq (ring.times (dot ring a w) (dot ring b w)) (dot ring c w) && x)
          (all_rows-map f n as' bs cs w w' same ra rb rc))

  pub are_wide-append :
      (n : ℕ) (m m' : List (List F))
      → are_wide ring n m ≡ true
      → are_wide ring n m' ≡ true
      → are_wide ring n (m ++ m') ≡ true
  are_wide-append n [] m' h k = k
  are_wide-append n (row ∷ m) m' h k =
      let (w, rest) = and_true (length row == n) _ h in rw w (are_wide-append n m m' rest k)

  pub are_wide-map :
      (f : List F → List F) (n n' : ℕ) (m : List (List F))
      → ((row : List F) → length row ≡ n → length (f row) ≡ n')
      → are_wide ring n m ≡ true
      → are_wide ring n' (map f m) ≡ true
  are_wide-map f n n' [] grows h = refl
  are_wide-map f n n' (row ∷ m) grows h =
      let (w, rest) = and_true (length row == n) _ h in
      rw (grows row (ground arith), ==_refl n') (are_wide-map f n n' m grows rest)

  module _ (cs right : R1cs F) where
    -- The widths of the two systems and of the merged one.
    abbrev left_width : ℕ
    left_width = length (cs.w)

    abbrev width : ℕ
    width = length (cs.w) + length (right.w)

    are_wide-merge_rows :
        (m m' : List (List F))
        → are_wide ring left_width m ≡ true
        → are_wide ring (length (right.w)) m' ≡ true
        → are_wide ring (length (cs.w ++ right.w)) (merge_rows ring left_width width m m') ≡ true
    are_wide-merge_rows m m' h k = rw (length-append (cs.w) (right.w)) (
        are_wide-append width (map (resize ring width) m)
          (map (λ row. replicate left_width (ring.nil) ++ row) m')
          (are_wide-map (resize ring width) left_width width m left_grows h)
          (are_wide-map (λ row. replicate left_width (ring.nil) ++ row) (length (right.w)) width m'
            right_grows k))
      where
        left_grows :
            (row : List F) → length row ≡ left_width → length (resize ring width row) ≡ width
        left_grows row e =
            ap length (resize_lem ring left_width (length (right.w)) row e)
            ∙ omega (
              arith,
              e,
              length-append row (replicate (length (right.w)) (ring.nil)),
              length-replicate (length (right.w)) (ring.nil),
            )

        right_grows :
            (row : List F)
            → length row ≡ length (right.w)
            → length (replicate left_width (ring.nil) ++ row) ≡ width
        right_grows row e = omega (
          arith,
          e,
          length-append (replicate left_width (ring.nil)) row,
          length-replicate left_width (ring.nil),
        )

    length-merge_rows :
        (m m' n n' : List (List F))
        → length m ≡ length n
        → length m' ≡ length n'
        → length (merge_rows ring left_width width m m')
          ≡ length (merge_rows ring left_width width n n')
    length-merge_rows m m' n n' e f = omega (
      arith,
      e,
      f,
      length-append (map (resize ring width) m)
          (map (λ row. replicate left_width (ring.nil) ++ row) m'),
      length-append (map (resize ring width) n)
          (map (λ row. replicate left_width (ring.nil) ++ row) n'),
      length-map (resize ring width) m,
      length-map (resize ring width) n,
      length-map (λ row. replicate left_width (ring.nil) ++ row) m',
      length-map (λ row. replicate left_width (ring.nil) ++ row) n',
    )

    merge-IsEven : IsEven cs → IsEven right → IsEven (merge ring cs right)
    unfolding merge
    merge-IsEven i j = record {
      same_b = length-merge_rows (cs.a) (right.a) (cs.b) (right.b) (i.same_b) (j.same_b);
      same_c = length-merge_rows (cs.a) (right.a) (cs.c) (right.c) (i.same_c) (j.same_c);
      wide_a = are_wide-merge_rows (cs.a) (right.a) (i.wide_a) (j.wide_a);
      wide_b = are_wide-merge_rows (cs.b) (right.b) (i.wide_b) (j.wide_b);
      wide_c = are_wide-merge_rows (cs.c) (right.c) (i.wide_c) (j.wide_c);
    }

    all_rows-merge :
        IsEven cs
        → IsEven right
        → all_rows ring
            (merge_rows ring left_width width (cs.a) (right.a))
            (merge_rows ring left_width width (cs.b) (right.b))
            (merge_rows ring left_width width (cs.c) (right.c))
            (cs.w ++ right.w)
          ≡ all_rows ring (cs.a) (cs.b) (cs.c) (cs.w)
            && all_rows ring (right.a) (right.b) (right.c) (right.w)
    all_rows-merge i j =
        all_rows-append (map (resize ring width) (cs.a)) (map (resize ring width) (cs.b))
          (map (resize ring width) (cs.c)) _ _ _ (cs.w ++ right.w)
          (length-map (resize ring width) (cs.a)
            ∙ i.same_b
            ∙ sym (length-map (resize ring width) (cs.b)))
          (length-map (resize ring width) (cs.a)
            ∙ i.same_c
            ∙ sym (length-map (resize ring width) (cs.c)))
        ∙ ap₂ ◌&&◌
            (all_rows-map (resize ring width) left_width (cs.a) (cs.b) (cs.c) (cs.w)
              (cs.w ++ right.w) (λ row e. dot-resize ring row (cs.w) (right.w) e) (i.wide_a)
              (i.wide_b) (i.wide_c))
            (all_rows-map (λ row. replicate left_width (ring.nil) ++ row) (length (right.w))
              (right.a) (right.b) (right.c) (right.w) (cs.w ++ right.w)
              (λ row e. dot-zeros_append ring row (cs.w) (right.w)) (j.wide_a) (j.wide_b)
              (j.wide_c))

  -- Two systems on which the assertions of `is_sat` hold merge to one on which they hold, and which
  -- is satisfied exactly where both are.
  pub merge-is_sat :
      (cs right : R1cs F) (x y : Bool)
      → is_sat ring cs ≡ ok x
      → is_sat ring right ≡ ok y
      → is_sat ring (merge ring cs right) ≡ ok (x && y)
  unfolding merge
  merge-is_sat cs right x y h k =
      let (i, sat_x) = is_sat-eq-ok cs h in
      let (j, sat_y) = is_sat-eq-ok right k in
      IsEven-is_sat (merge ring cs right) (merge-IsEven cs right i j)
      ∙ ap ok (merged_rows cs right ∙ all_rows-merge cs right i j ∙ ap₂ ◌&&◌ sat_x sat_y)
    where
      merged_rows :
          (cs right : R1cs F)
          → all_rows ring
              ((merge ring cs right).a)
              ((merge ring cs right).b)
              ((merge ring cs right).c)
              ((merge ring cs right).w)
            ≡ all_rows ring
                (merge_rows ring
                  (length (cs.w))
                  (length (cs.w) + length (right.w))
                  (cs.a)
                  (right.a))
                (merge_rows ring
                  (length (cs.w))
                  (length (cs.w) + length (right.w))
                  (cs.b)
                  (right.b))
                (merge_rows ring
                  (length (cs.w))
                  (length (cs.w) + length (right.w))
                  (cs.c)
                  (right.c))
                (cs.w ++ right.w)
      merged_rows cs right = refl
