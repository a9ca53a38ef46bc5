-- ===== src/R1cs/Relaxed.antt =====
-- What it is to be satisfied: the tests of the source, read as equations.
use nexus_zkvm.Base.{
  ℕ, zero, suc, ◌+◌, ◌≤◌, ◌<◌, ◌≡◌, refl, sym, ap, ◌∙◌, arith, Bool, true, false, not, ◌||◌, List,
  ◌++◌, ==_refl, if◌then◌else◌, length,
}
use native.Mathlib.Decide.{dec_lt}
use nexus_zkvm.Base.Result.{Result, ok, >>=-eq-ok, index, ok-inj}
use nexus_zkvm.R1cs.{
  Ring, Commitment, Answer, okay, R1csShape, RelaxedR1csWitness, RelaxedR1csInstance,
}
use nexus_zkvm.R1cs.Satisfied.{products, violates_relaxed, any, unless, is_relaxed_satisfied}
use nexus_zkvm.R1cs.Linear.{if_ok}

-- A search that finds nothing.
pub any-none :
    (test : ℕ → Result Bool) (i n j : ℕ)
    → any test i n ≡ ok false
    → i ≤ j
    → j < i + n
    → test j ≡ ok false
unfolding any
any-none test i zero j h low high = absurd (omega (arith, low, high))
any-none test i (suc n) j h low high =
    let (b, here, rest) = >>=-eq-ok (test i) _ h in
    elim (dec_lt i j) [
      | yes later ↦
          any-none test (i + 1) n j (later_none b rest) (omega (arith, later)) (omega (arith, high))
      | no now ↦
          let same : i ≡ j = omega (arith, now, low) in
          ap test (sym same) ∙ here ∙ ap ok (first_false b rest)
    ]
  where
    later_none :
        (b : Bool)
        → (if b then ok true else any test (i + 1) n) ≡ ok false
        → any test (i + 1) n ≡ ok false
    later_none true e = let e' : true ≡ false = ok-inj e in cc
    later_none false e = e

    first_false : (b : Bool) → (if b then ok true else any test (i + 1) n) ≡ ok false → b ≡ false
    first_false true e = let e' : true ≡ false = ok-inj e in cc
    first_false false e = refl

pub any-quiet :
    (test : ℕ → Result Bool) (i n : ℕ)
    → ((j : ℕ) → i ≤ j → j < i + n → test j ≡ ok false)
    → any test i n ≡ ok false
unfolding any
any-quiet test i zero h = refl
any-quiet test i (suc n) h =
    rw (h i (omega arith) (omega arith))
      (any-quiet test (i + 1) n (λ j low high. h j (omega (arith, low)) (omega (arith, high))))

pub unless_ok :
    (bad : Bool) (next : Answer Unit) → unless bad next ≡ okay tt → (bad ≡ false) × (next ≡ okay tt)
unless_ok true next h = cc
unless_ok false next h = (refl, h)

pub not-false : (b : Bool) → not b ≡ false → b ≡ true
not-false true h = refl
not-false false h = cc

or_false : (a b : Bool) → not a || not b ≡ false → (a ≡ true) × (b ≡ true)
or_false true true h = (refl, refl)
or_false true false h = cc
or_false false b h = cc

module _ {F : Type 0} (ring : Ring F) where
  -- The equation of a row of the three products.
  pub record IsRow (u : F) (e az bz cz : List F) (j : ℕ) : Type 0 where
    pub a : F
    pub b : F
    pub c : F
    pub d : F
    pub at_a : index az j ≡ ok a
    pub at_b : index bz j ≡ ok b
    pub at_c : index cz j ≡ ok c
    pub at_e : index e j ≡ ok d
    pub equation : ring.times a b ≡ ring.plus (ring.times u c) d

  pub violates_relaxed-IsRow :
      (u : F) (e az bz cz : List F) (j : ℕ)
      → violates_relaxed ring u e (az, bz, cz) j ≡ ok false
      → IsRow u e az bz cz j
  unfolding violates_relaxed
  violates_relaxed-IsRow u e az bz cz j h =
      let (a, ha, h1) = >>=-eq-ok (index az j) _ h in
      let (b, hb, h2) = >>=-eq-ok (index bz j) _ h1 in
      let (c, hc, h3) = >>=-eq-ok (index cz j) _ h2 in
      let (d, hd, h4) = >>=-eq-ok (index e j) _ h3 in
      record {
        a = a;
        b = b;
        c = c;
        d = d;
        at_a = ha;
        at_b = hb;
        at_c = hc;
        at_e = hd;
        equation =
            ring.eq_sound (ring.times a b) (ring.plus (ring.times u c) d)
              (not-false (ring.eq (ring.times a b) (ring.plus (ring.times u c) d)) (ok-inj h4));
      }

  pub IsRow-violates_relaxed :
      (u : F) (e az bz cz : List F) (j : ℕ)
      → IsRow u e az bz cz j
      → violates_relaxed ring u e (az, bz, cz) j ≡ ok false
  unfolding violates_relaxed
  IsRow-violates_relaxed u e az bz cz j r =
      rw
        (
          r.at_a,
          r.at_b,
          r.at_c,
          r.at_e,
          r.equation,
          ring.eq_refl (ring.plus (ring.times u (r.c)) (r.d)),
        )
        refl

  module _ {C : Type 0} (scheme : Commitment F ring C) where
    -- A relaxed instance and its witness: lengths, equations and commitments.
    pub record IsRelaxed (shape : R1csShape F) (u : RelaxedR1csInstance F C)
        (w : RelaxedR1csWitness F) : Type 0 where
      pub w_len : length (w.w) ≡ shape.num_vars
      pub x_len : length (u.x) ≡ shape.num_io
      pub e_len : length (w.e) ≡ shape.num_constraints
      pub az : List F
      pub bz : List F
      pub cz : List F
      pub scalar : F
      pub multiplied : products ring shape (u.x ++ w.w) ≡ ok (az, bz, cz)
      pub first : index (u.x) 0 ≡ ok scalar
      pub rows : (j : ℕ) → j < shape.num_constraints → IsRow scalar (w.e) az bz cz j
      pub commits_w : u.commitment_w ≡ scheme.commit (w.w)
      pub commits_e : u.commitment_e ≡ scheme.commit (w.e)

    pub is_relaxed_satisfied-IsRelaxed :
        (shape : R1csShape F) (u : RelaxedR1csInstance F C) (w : RelaxedR1csWitness F)
        → is_relaxed_satisfied ring scheme shape u w ≡ ok (okay tt)
        → IsRelaxed shape u w
    unfolding is_relaxed_satisfied
    is_relaxed_satisfied-IsRelaxed shape u w h =
        let (hw, h1) = if_ok (length (w.w)) (shape.num_vars) _ h in
        let (hx, h2) = if_ok (length (u.x)) (shape.num_io) _ h1 in
        let (he, h3) = if_ok (length (w.e)) (shape.num_constraints) _ h2 in
        let ((az, bz, cz), got, h4) = >>=-eq-ok (products ring shape (u.x ++ w.w)) _ h3 in
        let (scalar, at, h5) = >>=-eq-ok (index (u.x) 0) _ h4 in
        let (bad, searched, h6) =
          >>=-eq-ok
            (any (violates_relaxed ring scalar (w.e) (az, bz, cz)) 0 (shape.num_constraints)) _
            h5 in
        let (fine, h7) = unless_ok bad _ (ok-inj h6) in
        let (committed, _) = unless_ok _ _ h7 in
        let (cw, ce) =
          or_false (scheme.eq (u.commitment_w) (scheme.commit (w.w)))
            (scheme.eq (u.commitment_e) (scheme.commit (w.e))) committed in
        record {
          w_len = hw;
          x_len = hx;
          e_len = he;
          az = az;
          bz = bz;
          cz = cz;
          scalar = scalar;
          multiplied = got;
          first = at;
          rows = λ j inside. violates_relaxed-IsRow scalar (w.e) az bz cz j (
              any-none (violates_relaxed ring scalar (w.e) (az, bz, cz)) 0 (shape.num_constraints) j
                (searched ∙ ap ok fine) (omega arith) (omega (arith, inside)));
          commits_w = scheme.eq_sound _ _ cw;
          commits_e = scheme.eq_sound _ _ ce;
        }

    pub IsRelaxed-is_relaxed_satisfied :
        (shape : R1csShape F) (u : RelaxedR1csInstance F C) (w : RelaxedR1csWitness F)
        → IsRelaxed shape u w
        → is_relaxed_satisfied ring scheme shape u w ≡ ok (okay tt)
    unfolding is_relaxed_satisfied
    IsRelaxed-is_relaxed_satisfied shape u w s =
        let none =
          any-quiet (violates_relaxed ring (s.scalar) (w.e) (s.az, s.bz, s.cz)) 0
            (shape.num_constraints)
            (λ j low high.
              IsRow-violates_relaxed (s.scalar) (w.e) (s.az) (s.bz) (s.cz) j
                (s.rows j (omega (arith, high)))) in
        rw
          (
            s.w_len,
            s.x_len,
            s.e_len,
            ==_refl (shape.num_vars),
            ==_refl (shape.num_io),
            ==_refl (shape.num_constraints),
          )
          (rw (s.multiplied, s.first)
            (rw
              (
                none,
                s.commits_w,
                s.commits_e,
                scheme.eq_refl (scheme.commit (w.w)),
                scheme.eq_refl (scheme.commit (w.e)),
              )
              refl))
