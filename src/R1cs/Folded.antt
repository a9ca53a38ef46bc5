-- ===== src/R1cs/Folded.antt =====
-- Folding keeps satisfaction: the folded instance is satisfied by the folded witness.
use mathlib.Core.Path.{ap₂}
use nexus_zkvm.Base.{
  ℕ, suc, ◌<◌, ◌≡◌, refl, sym, ap, ◌∙◌, arith, List, [], ◌∷◌, ◌++◌, ==_refl, length,
}
use nexus_zkvm.Base.Result.{ok, >>=-eq-ok, ok-inj}
use nexus_zkvm.Sparse.{multiply_vec}
use nexus_zkvm.R1cs.{
  Ring, field_of, combine, Commitment, okay, R1csShape, RelaxedR1csWitness, RelaxedR1csInstance,
}
use nexus_zkvm.R1cs.Satisfied.{products, is_relaxed_satisfied}
use nexus_zkvm.R1cs.Fold.{
  square, combine_errors, circle, cross_with_relaxed, fold_witness_with_relaxed, fold_with_relaxed,
  commit_t_with_relaxed,
}
use nexus_zkvm.R1cs.Algebra.{fold_equation}
use nexus_zkvm.R1cs.Linear.{
  length-combine, index-combine, combine-append, multiply_vec-combine, length-multiply_vec,
}
use nexus_zkvm.R1cs.Cross.{
  length-circle, length-combine_errors, index-combine_errors, cross_with_relaxed-Total,
  index-cross_with_relaxed,
}
use nexus_zkvm.R1cs.Relaxed.{
  IsRow, IsRelaxed, is_relaxed_satisfied-IsRelaxed, IsRelaxed-is_relaxed_satisfied,
}

-- Every matrix has a row for each constraint.
pub record IsShape {F : Type 0} (shape : R1csShape F) : Type 0 where
  pub rows_a : length (shape.a.indptr) ≡ suc (shape.num_constraints)
  pub rows_b : length (shape.b.indptr) ≡ suc (shape.num_constraints)
  pub rows_c : length (shape.c.indptr) ≡ suc (shape.num_constraints)

module _ {F : Type 0} (ring : Ring F) (r : F) where
  products-parts :
      (shape : R1csShape F) (z : List F) {p q s : List F}
      → products ring shape z ≡ ok (p, q, s)
      → (multiply_vec (field_of ring) (shape.a) z ≡ ok p)
        × (multiply_vec (field_of ring) (shape.b) z ≡ ok q)
        × (multiply_vec (field_of ring) (shape.c) z ≡ ok s)
  products-parts shape z h =
      let (a, ha, h1) = >>=-eq-ok (multiply_vec (field_of ring) (shape.a) z) _ h in
      let (b, hb, h2) = >>=-eq-ok (multiply_vec (field_of ring) (shape.b) z) _ h1 in
      let (c, hc, h3) = >>=-eq-ok (multiply_vec (field_of ring) (shape.c) z) _ h2 in
      let e = ok-inj h3 in
      (ha ∙ ap (λ t. ok (t.0)) e, hb ∙ ap (λ t. ok (t.1)) e, hc ∙ ap (λ t. ok (t.2)) e)

  products-combine :
      (shape : R1csShape F) (z z' : List F) {p q s p' q' s' : List F}
      → products ring shape z ≡ ok (p, q, s)
      → products ring shape z' ≡ ok (p', q', s')
      → products ring shape (combine ring r z z')
        ≡ ok (combine ring r p p', combine ring r q q', combine ring r s s')
  products-combine shape z z' h k =
      let (a, b, c) = products-parts shape z h in
      let (a', b', c') = products-parts shape z' k in
      rw
        (
          multiply_vec-combine ring r (shape.a) z z' a a',
          multiply_vec-combine ring r (shape.b) z z' b b',
          multiply_vec-combine ring r (shape.c) z z' c c',
        )
        refl

  length-products :
      (shape : R1csShape F) (z : List F) {p q s : List F}
      → IsShape shape
      → products ring shape z ≡ ok (p, q, s)
      → (length p ≡ shape.num_constraints)
        × (length q ≡ shape.num_constraints)
        × (length s ≡ shape.num_constraints)
  length-products shape z i h =
      let (a, b, c) = products-parts shape z h in
      (
        omega (arith, length-multiply_vec ring (shape.a) z a, i.rows_a),
        omega (arith, length-multiply_vec ring (shape.b) z b, i.rows_b),
        omega (arith, length-multiply_vec ring (shape.c) z c, i.rows_c),
      )

  combine_errors-combine :
      (es es' ts : List F)
      → length ts ≡ length es
      → combine_errors ring r es es' ts ≡ combine ring (square ring r) (combine ring r es ts) es'
  combine_errors-combine [] es' ts e = refl
  combine_errors-combine (x ∷ es) es' [] e = absurd (omega (arith, e))
  combine_errors-combine (x ∷ es) [] (t ∷ ts) e = refl
  combine_errors-combine (x ∷ es) (y ∷ es') (t ∷ ts) e =
      ap (λ l. ring.plus (ring.plus x (ring.times r t)) (ring.times (square ring r) y) ∷ l)
        (combine_errors-combine es es' ts (omega (arith, e)))

  -- The rows of two products, folded with the cross-term.
  fold-IsRow :
      (u1 u2 : F) (e1 e2 az1 bz1 cz1 az2 bz2 cz2 : List F) {ts : List F} (j : ℕ)
      → cross_with_relaxed ring u1 u2 (az1, bz1, cz1) (az2, bz2, cz2) ≡ ok ts
      → j < length (circle ring az1 bz2)
      → IsRow ring u1 e1 az1 bz1 cz1 j
      → IsRow ring u2 e2 az2 bz2 cz2 j
      → IsRow ring
          (ring.plus u1 (ring.times r u2))
          (combine_errors ring r e1 e2 ts)
          (combine ring r az1 az2)
          (combine ring r bz1 bz2)
          (combine ring r cz1 cz2)
          j
  fold-IsRow u1 u2 e1 e2 az1 bz1 cz1 az2 bz2 cz2 {ts} j ran inside s1 s2 =
      let at_t =
        index-cross_with_relaxed ring u1 u2 az1 bz1 cz1 az2 bz2 cz2 j ran inside s1.at_a s1.at_b
          s1.at_c s2.at_a s2.at_b s2.at_c in
      record {
        a = ring.plus s1.a (ring.times r s2.a);
        b = ring.plus s1.b (ring.times r s2.b);
        c = ring.plus s1.c (ring.times r s2.c);
        d = _;
        at_a = index-combine ring r az1 az2 j s1.at_a s2.at_a;
        at_b = index-combine ring r bz1 bz2 j s1.at_b s2.at_b;
        at_c = index-combine ring r cz1 cz2 j s1.at_c s2.at_c;
        at_e = index-combine_errors ring r e1 e2 ts j s1.at_e s2.at_e at_t;
        equation =
            fold_equation ring r s1.a s2.a s1.b s2.b s1.c s2.c u1 u2 s1.d s2.d s1.equation
              s2.equation;
      }

  module _ {C : Type 0} (scheme : Commitment F ring C) where
    commit-combine_errors :
        (es es' ts : List F)
        → length es ≡ length es'
        → length ts ≡ length es
        → scheme.commit (combine_errors ring r es es' ts)
          ≡ scheme.plus
              (scheme.plus (scheme.commit es) (scheme.scale (scheme.commit ts) r))
              (scheme.scale (scheme.commit es') (square ring r))
    commit-combine_errors es es' ts e f =
        ap scheme.commit (combine_errors-combine es es' ts f)
        ∙ scheme.commit-combine (square ring r) (combine ring r es ts) es'
            (length-combine ring r es ts (sym f) ∙ e)
        ∙ ap (λ c. scheme.plus c (scheme.scale (scheme.commit es') (square ring r)))
            (scheme.commit-combine r es ts (sym f))

    -- The witness that a cross-term folds to.
    abbrev folded_witness :
        RelaxedR1csWitness F → RelaxedR1csWitness F → List F → RelaxedR1csWitness F
    folded_witness w1 w2 t = record {
      w = combine ring r (w1.w) (w2.w);
      e = combine_errors ring r (w1.e) (w2.e) t;
    }

    folded-IsRelaxed :
        (shape : R1csShape F) (u1 u2 : RelaxedR1csInstance F C) (w1 w2 : RelaxedR1csWitness F)
        → IsShape shape
        → (s1 : IsRelaxed ring scheme shape u1 w1) → (s2 : IsRelaxed ring scheme shape u2 w2)
        → (ts : List F)
        → cross_with_relaxed ring
            (s1.scalar)
            (s2.scalar)
            (s1.az, s1.bz, s1.cz)
            (s2.az, s2.bz, s2.cz)
          ≡ ok ts
        → length ts ≡ shape.num_constraints
        → IsRelaxed ring scheme shape
            (fold_with_relaxed ring scheme u1 u2 (scheme.commit ts) r)
            (folded_witness w1 w2 ts)
    unfolding fold_with_relaxed
    folded-IsRelaxed shape u1 u2 w1 w2 i s1 s2 ts ran size =
        let xs = s1.x_len ∙ sym (s2.x_len) in
        let ws = s1.w_len ∙ sym (s2.w_len) in
        let es = s1.e_len ∙ sym (s2.e_len) in
        let ts_es = size ∙ sym (s1.e_len) in
        let (len_a1, _, _) = length-products shape (u1.x ++ w1.w) i (s1.multiplied) in
        let (_, len_b2, _) = length-products shape (u2.x ++ w2.w) i (s2.multiplied) in
        record {
          w_len = length-combine ring r (w1.w) (w2.w) ws ∙ s1.w_len;
          x_len = length-combine ring r (u1.x) (u2.x) xs ∙ s1.x_len;
          e_len = length-combine_errors ring r (w1.e) (w2.e) ts es ts_es ∙ s1.e_len;
          az = combine ring r (s1.az) (s2.az);
          bz = combine ring r (s1.bz) (s2.bz);
          cz = combine ring r (s1.cz) (s2.cz);
          scalar = ring.plus (s1.scalar) (ring.times r (s2.scalar));
          multiplied =
              ap (products ring shape) (sym (combine-append ring r (u1.x) (u2.x) (w1.w) (w2.w) xs))
              ∙ products-combine shape (u1.x ++ w1.w) (u2.x ++ w2.w) (s1.multiplied)
                  (s2.multiplied);
          first = index-combine ring r (u1.x) (u2.x) 0 (s1.first) (s2.first);
          rows = λ j inside.
              fold-IsRow (s1.scalar) (s2.scalar) (w1.e) (w2.e) (s1.az) (s1.bz) (s1.cz) (s2.az)
                (s2.bz) (s2.cz) j ran
                (omega
                  (arith, inside, len_a1, length-circle ring (s1.az) (s2.bz) (len_a1 ∙ sym len_b2)))
                (s1.rows j inside) (s2.rows j inside);
          commits_w =
              ap₂ (λ a b. scheme.plus a (scheme.scale b r)) (s1.commits_w) (s2.commits_w)
              ∙ sym (scheme.commit-combine r (w1.w) (w2.w) ws);
          commits_e =
              ap₂
                (λ a b.
                  scheme.plus (scheme.plus a (scheme.scale (scheme.commit ts) r))
                    (scheme.scale b (square ring r)))
                (s1.commits_e) (s2.commits_e)
              ∙ sym (commit-combine_errors (w1.e) (w2.e) ts es ts_es);
        }

module _ {F C : Type 0} (ring : Ring F) (scheme : Commitment F ring C) where
  -- The cross-term, and what every scalar makes of it.
  pub commit_t_with_relaxed-folds :
      (shape : R1csShape F) (u1 u2 : RelaxedR1csInstance F C) (w1 w2 : RelaxedR1csWitness F)
      → IsShape shape
      → is_relaxed_satisfied ring scheme shape u1 w1 ≡ ok (okay tt)
      → is_relaxed_satisfied ring scheme shape u2 w2 ≡ ok (okay tt)
      → (t : List F) × (comm_t : C) × (commit_t_with_relaxed ring scheme shape u1 w1 u2 w2
          ≡ ok (t, comm_t))
        × ((r : F)
            → (w : RelaxedR1csWitness F) × (fold_witness_with_relaxed ring w1 w2 t r ≡ okay w)
              × (is_relaxed_satisfied ring scheme shape
                    (fold_with_relaxed ring scheme u1 u2 comm_t r)
                    w
                  ≡ ok (okay tt)))
  unfolding commit_t_with_relaxed fold_witness_with_relaxed
  commit_t_with_relaxed-folds shape u1 u2 w1 w2 i h1 h2 =
      let s1 = is_relaxed_satisfied-IsRelaxed ring scheme shape u1 w1 h1 in
      let s2 = is_relaxed_satisfied-IsRelaxed ring scheme shape u2 w2 h2 in
      let (a1, b1, c1) = length-products ring ring.nil shape (u1.x ++ w1.w) i s1.multiplied in
      let (a2, b2, c2) = length-products ring ring.nil shape (u2.x ++ w2.w) i s2.multiplied in
      let (ts, ran, size) =
        cross_with_relaxed-Total ring shape.num_constraints s1.scalar s2.scalar s1.az s1.bz s1.cz
          s2.az s2.bz s2.cz a1 b1 c1 a2 b2 c2 in
      (
        ts,
        scheme.commit ts,
        rw (s1.multiplied, s2.multiplied, s1.first, s2.first, ran) refl,
        λ r. (
          folded_witness ring r scheme w1 w2 ts,
          rw
              (
                s1.w_len ∙ sym s2.w_len,
                s1.e_len ∙ sym s2.e_len,
                ==_refl (length w2.w),
                ==_refl (length w2.e),
              )
              refl,
          IsRelaxed-is_relaxed_satisfied ring scheme shape _ _
              (folded-IsRelaxed ring r scheme shape u1 u2 w1 w2 i s1 s2 ts ran size),
        ),
      )

  -- In a shape whose matrices have a row for each constraint, two relaxed pairs that the test accepts
  -- have a cross-term; with it both are folded, by any scalar, and the test accepts what they fold to.
  pub fold_with_relaxed-satisfied :
      (r : F) (shape : R1csShape F) (u1 u2 : RelaxedR1csInstance F C) (w1 w2 : RelaxedR1csWitness F)
      → IsShape shape
      → is_relaxed_satisfied ring scheme shape u1 w1 ≡ ok (okay tt)
      → is_relaxed_satisfied ring scheme shape u2 w2 ≡ ok (okay tt)
      → (t : List F) × (comm_t : C) × (w : RelaxedR1csWitness F) × (commit_t_with_relaxed ring
            scheme shape u1 w1 u2 w2
          ≡ ok (t, comm_t))
        × (fold_witness_with_relaxed ring w1 w2 t r ≡ okay w)
        × (is_relaxed_satisfied ring scheme shape (fold_with_relaxed ring scheme u1 u2 comm_t r) w
            ≡ ok (okay tt))
  fold_with_relaxed-satisfied r shape u1 u2 w1 w2 i h1 h2 =
      let (t, comm_t, crossed, folds) = commit_t_with_relaxed-folds shape u1 u2 w1 w2 i h1 h2 in
      let (w, folded, satisfied) = folds r in (t, comm_t, w, crossed, folded, satisfied)
