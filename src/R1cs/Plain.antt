-- ===== src/R1cs/Plain.antt =====
-- Plain instances as relaxed ones: they are satisfied alike, and folded alike.
use nexus_zkvm.Base.{
  ℕ, zero, suc, ◌<◌, ◌≡◌, refl, sym, ap, ◌∙◌, arith, false, List, [], ◌∷◌, ◌++◌, map, ◌==◌, ==_refl,
  Bool-cases, inl, inr, length, replicate, length-replicate,
}
use nexus_zkvm.Base.Result.{ok, ◌>>=◌, >>=-eq-ok, index, ok-inj, >>=-cong}
use nexus_zkvm.R1cs.{
  Ring, combine, Commitment, okay, R1csShape, R1csWitness, R1csInstance, RelaxedR1csWitness,
  RelaxedR1csInstance,
}
use nexus_zkvm.R1cs.Satisfied.{
  products, violates, any, is_satisfied, is_relaxed_satisfied, relaxed, from_r1cs_witness,
}
use nexus_zkvm.R1cs.Fold.{
  square, combine_errors, cross, cross_with_relaxed, fold_witness, fold_witness_with_relaxed, fold,
  fold_with_relaxed, commit_t, commit_t_with_relaxed,
}
use nexus_zkvm.R1cs.Linear.{if_ok}
use nexus_zkvm.R1cs.Relaxed.{
  any-none, unless_ok, not-false, IsRow, IsRelaxed-is_relaxed_satisfied,
  is_relaxed_satisfied-IsRelaxed,
}
use nexus_zkvm.R1cs.Folded.{IsShape, fold_with_relaxed-satisfied}

pub index-replicate : {F : Type 0} (n j : ℕ) (a : F) → j < n → index (replicate n a) j ≡ ok a
index-replicate zero j a h = absurd (omega arith)
index-replicate (suc n) zero a h = refl
index-replicate (suc n) (suc j) a h = index-replicate n j a (omega (arith, h))

module _ {F C : Type 0} (ring : Ring F) (scheme : Commitment F ring C) where
  plain-IsRow :
      (shape : R1csShape F) (az bz cz : List F) (j : ℕ)
      → j < shape.num_constraints
      → violates ring (az, bz, cz) j ≡ ok false
      → IsRow ring (ring.one) (replicate (shape.num_constraints) (ring.nil)) az bz cz j
  unfolding violates
  plain-IsRow shape az bz cz j inside h =
      let (a, ha, h1) = >>=-eq-ok (index az j) _ h in
      let (b, hb, h2) = >>=-eq-ok (index bz j) _ h1 in
      let (c, hc, h3) = >>=-eq-ok (index cz j) _ h2 in
      record {
        a = a;
        b = b;
        c = c;
        d = ring.nil;
        at_a = ha;
        at_b = hb;
        at_c = hc;
        at_e = index-replicate (shape.num_constraints) j (ring.nil) inside;
        equation =
            ring.eq_sound (ring.times a b) c (not-false (ring.eq (ring.times a b) c) (ok-inj h3))
            ∙ sym (ring.plus-nil (ring.times (ring.one) c) ∙ ring.times-one c);
      }

  -- A plain instance that starts with one, and that the test accepts with its witness, is accepted
  -- as a relaxed one.
  pub is_satisfied-relaxed :
      (shape : R1csShape F) (u : R1csInstance F C) (w : R1csWitness F)
      → index (u.x) 0 ≡ ok (ring.one)
      → is_satisfied ring scheme shape u w ≡ ok (okay tt)
      → is_relaxed_satisfied ring scheme shape
          (relaxed ring scheme u)
          (from_r1cs_witness ring shape w)
        ≡ ok (okay tt)
  unfolding is_satisfied
  is_satisfied-relaxed shape u w starts h =
      let (hw, h1) = if_ok (length (w.w)) (shape.num_vars) _ h in
      let (hx, h2) = if_ok (length (u.x)) (shape.num_io) _ h1 in
      let ((az, bz, cz), got, h3) = >>=-eq-ok (products ring shape (u.x ++ w.w)) _ h2 in
      let (bad, searched, h4) =
        >>=-eq-ok (any (violates ring (az, bz, cz)) 0 (shape.num_constraints)) _ h3 in
      let (fine, h5) = unless_ok bad _ (ok-inj h4) in
      let (committed, _) = unless_ok _ _ h5 in
      IsRelaxed-is_relaxed_satisfied ring scheme shape _ _ (record {
        w_len = hw;
        x_len = hx;
        e_len = length-replicate (shape.num_constraints) (ring.nil);
        az = az;
        bz = bz;
        cz = cz;
        scalar = ring.one;
        multiplied = got;
        first = starts;
        rows = λ j inside. plain-IsRow shape az bz cz j inside (
            any-none (violates ring (az, bz, cz)) 0 (shape.num_constraints) j
              (searched ∙ ap ok fine) (omega arith) (omega (arith, inside)));
        commits_w =
            scheme.eq_sound _ _
              (not-false (scheme.eq (u.commitment_w) (scheme.commit (w.w))) committed);
        commits_e = sym (scheme.commit-zeros (shape.num_constraints));
      })

  map-one : (xs : List F) → map (ring.times (ring.one)) xs ≡ xs
  map-one [] = refl
  map-one (x ∷ xs) =
      ap (λ l. ring.times (ring.one) x ∷ l) (map-one xs) ∙ ap (λ y. y ∷ xs) (ring.times-one x)

  cross-one :
      (u : F) (z1 z2 : List F × List F × List F)
      → cross_with_relaxed ring u (ring.one) z1 z2 ≡ cross ring u z1 z2
  unfolding cross cross_with_relaxed
  cross-one u (az1, bz1, cz1) (az2, bz2, cz2) = rw (map-one cz1) refl

  combine_errors-zeros :
      (r : F) (es ts : List F)
      → combine_errors ring r es (replicate (length es) (ring.nil)) ts ≡ combine ring r es ts
  combine_errors-zeros r [] ts = refl
  combine_errors-zeros r (e ∷ es) [] = refl
  combine_errors-zeros r (e ∷ es) (t ∷ ts) =
      ap (λ l. ring.plus (ring.plus e (ring.times r t)) (ring.times (square ring r) (ring.nil)) ∷ l)
        (combine_errors-zeros r es ts)
      ∙ ap (λ y. y ∷ combine ring r es ts)
          (ap (ring.plus (ring.plus e (ring.times r t)))
              (ring.times_comm (square ring r) (ring.nil) ∙ ring.times-nil (square ring r))
            ∙ ring.plus-nil (ring.plus e (ring.times r t)))

  fold-relaxed :
      (u1 : RelaxedR1csInstance F C) (u2 : R1csInstance F C) (comm_t : C) (r : F)
      → fold_with_relaxed ring scheme u1 (relaxed ring scheme u2) comm_t r
        ≡ fold ring scheme u1 u2 comm_t r
  unfolding fold fold_with_relaxed
  fold-relaxed u1 u2 comm_t r =
      ap
        (λ e. record {
          commitment_w = scheme.plus (u1.commitment_w) (scheme.scale (u2.commitment_w) r);
          commitment_e = e;
          x = combine ring r (u1.x) (u2.x);
        })
        (scheme.plus-default (scheme.plus (u1.commitment_e) (scheme.scale comm_t r))
          (square ring r))

  commit_t-relaxed :
      (shape : R1csShape F) (u1 : RelaxedR1csInstance F C) (w1 : RelaxedR1csWitness F)
      (u2 : R1csInstance F C) (w2 : R1csWitness F)
      → index (u2.x) 0 ≡ ok (ring.one)
      → commit_t_with_relaxed ring scheme shape u1 w1
          (relaxed ring scheme u2)
          (from_r1cs_witness ring shape w2)
        ≡ commit_t ring scheme shape u1 w1 u2 w2
  unfolding commit_t commit_t_with_relaxed
  commit_t-relaxed shape u1 w1 u2 w2 starts = >>=-cong (products ring shape (u1.x ++ w1.w)) (λ z1.
      >>=-cong (products ring shape (u2.x ++ w2.w)) (λ z2.
        >>=-cong (index (u1.x) 0)
          (λ s1. rw starts (ap (λ c. c >>= λ t. ok (t, scheme.commit t)) (cross-one s1 z1 z2)))))

  fold_witness-relaxed :
      (shape : R1csShape F) (w1 : RelaxedR1csWitness F) (w2 : R1csWitness F) (t : List F) (r : F)
      → length (w1.e) ≡ shape.num_constraints
      → fold_witness_with_relaxed ring w1 (from_r1cs_witness ring shape w2) t r
        ≡ fold_witness ring w1 w2 t r
  unfolding fold_witness fold_witness_with_relaxed
  fold_witness-relaxed shape w1 w2 t r e = rw (sym e) (
      rw
        (
          length-replicate (length (w1.e)) (ring.nil),
          ==_refl (length (w1.e)),
          combine_errors-zeros r (w1.e) t,
        )
        (elim (Bool-cases (length (w1.w) == length (w2.w))) [
          | inl h ↦ rw h refl
          | inr h ↦ rw h refl
        ]))

  -- In a shape whose matrices have a row for each constraint, an accepted relaxed pair and an accepted
  -- plain pair whose instance starts with one have a cross-term; with it both are folded, by any
  -- scalar, and the test accepts what they fold to.
  pub fold-satisfied :
      (r : F) (shape : R1csShape F) (u1 : RelaxedR1csInstance F C) (w1 : RelaxedR1csWitness F)
      (u2 : R1csInstance F C) (w2 : R1csWitness F)
      → IsShape shape
      → index (u2.x) 0 ≡ ok (ring.one)
      → is_relaxed_satisfied ring scheme shape u1 w1 ≡ ok (okay tt)
      → is_satisfied ring scheme shape u2 w2 ≡ ok (okay tt)
      → (t : List F) × (comm_t : C) × (w : RelaxedR1csWitness F) × (commit_t ring scheme shape u1 w1
            u2 w2
          ≡ ok (t, comm_t))
        × (fold_witness ring w1 w2 t r ≡ okay w)
        × (is_relaxed_satisfied ring scheme shape (fold ring scheme u1 u2 comm_t r) w
            ≡ ok (okay tt))
  fold-satisfied r shape u1 w1 u2 w2 i starts h1 h2 =
      let (t, comm_t, w, crossed, folded, satisfied) =
        fold_with_relaxed-satisfied ring scheme r shape u1 (relaxed ring scheme u2) w1
          (from_r1cs_witness ring shape w2) i h1 (is_satisfied-relaxed shape u2 w2 starts h2) in
      let e_len = (is_relaxed_satisfied-IsRelaxed ring scheme shape u1 w1 h1).e_len in
      (
        t,
        comm_t,
        w,
        sym (commit_t-relaxed shape u1 w1 u2 w2 starts) ∙ crossed,
        sym (fold_witness-relaxed shape w1 w2 t r e_len) ∙ folded,
        ap (λ u. is_relaxed_satisfied ring scheme shape u w) (sym (fold-relaxed u1 u2 comm_t r))
            ∙ satisfied,
      )
