-- ===== src/R1cs/Cross.antt =====
-- The cross-term of two products: it is computed where the products have one length, and its entries.
use mathlib.Core.Path.{ap₂}
use nexus_zkvm.Base.{
  ℕ, zero, suc, ◌+◌, ◌≤◌, ◌<◌, ◌≡◌, refl, sym, ap, ◌∙◌, arith, List, [], ◌∷◌, map, length,
  length-map, get_elem?-inside,
}
use nexus_zkvm.Base.Result.{Result, ok, >>=-eq-ok, index, ok-inj}
use nexus_zkvm.R1cs.{Ring}
use nexus_zkvm.R1cs.Fold.{square, combine_errors, circle, cross_terms, cross_with_relaxed}

pub index-inside :
    {F : Type 0} (xs : List F) (i : ℕ) → i < length xs → (x : F) × (index xs i ≡ ok x)
index-inside xs i h = let (x, at) = get_elem?-inside xs i h in (x, rw at refl)

pub index-map :
    {F : Type 0} (f : F → F) (xs : List F) (i : ℕ) {x : F}
    → index xs i ≡ ok x
    → index (map f xs) i ≡ ok (f x)
index-map f [] i h = cc
index-map f (x ∷ xs) zero h = ap (λ a. ok (f a)) (ok-inj h)
index-map f (x ∷ xs) (suc i) h = index-map f xs i h

module _ {F : Type 0} (ring : Ring F) where
  pub length-circle :
      (xs ys : List F) → length xs ≡ length ys → length (circle ring xs ys) ≡ length xs
  length-circle [] ys e = refl
  length-circle (x ∷ xs) [] e = absurd (omega (arith, e))
  length-circle (x ∷ xs) (y ∷ ys) e = ap suc (length-circle xs ys (omega (arith, e)))

  index-circle :
      (xs ys : List F) (i : ℕ) {x y : F}
      → index xs i ≡ ok x
      → index ys i ≡ ok y
      → index (circle ring xs ys) i ≡ ok (ring.times x y)
  index-circle [] ys i h k = cc
  index-circle (x ∷ xs) [] i h k = cc
  index-circle (x ∷ xs) (y ∷ ys) zero h k = ap₂ (λ a b. ok (ring.times a b)) (ok-inj h) (ok-inj k)
  index-circle (x ∷ xs) (y ∷ ys) (suc i) h k = index-circle xs ys i h k

  pub length-combine_errors :
      (r : F) (es es' ts : List F)
      → length es ≡ length es'
      → length ts ≡ length es
      → length (combine_errors ring r es es' ts) ≡ length es
  length-combine_errors r [] es' ts e f = refl
  length-combine_errors r (x ∷ es) [] ts e f = absurd (omega (arith, e))
  length-combine_errors r (x ∷ es) (y ∷ es') [] e f = absurd (omega (arith, f))
  length-combine_errors r (x ∷ es) (y ∷ es') (t ∷ ts) e f =
      ap suc (length-combine_errors r es es' ts (omega (arith, e)) (omega (arith, f)))

  pub index-combine_errors :
      (r : F) (es es' ts : List F) (i : ℕ) {x y t : F}
      → index es i ≡ ok x
      → index es' i ≡ ok y
      → index ts i ≡ ok t
      → index (combine_errors ring r es es' ts) i
        ≡ ok (ring.plus (ring.plus x (ring.times r t)) (ring.times (square ring r) y))
  index-combine_errors r [] es' ts i h k l = cc
  index-combine_errors r (x ∷ es) [] ts i h k l = cc
  index-combine_errors r (x ∷ es) (y ∷ es') [] i h k l = cc
  index-combine_errors r (x ∷ es) (y ∷ es') (t ∷ ts) zero h k l =
      ap₂ ok_plus (ap₂ (λ a b. ring.plus a (ring.times r b)) (ok-inj h) (ok-inj l)) (ok-inj k)
    where
      ok_plus : F → F → Result F
      ok_plus a b = ok (ring.plus a (ring.times (square ring r) b))
  index-combine_errors r (x ∷ es) (y ∷ es') (t ∷ ts) (suc i) h k l =
      index-combine_errors r es es' ts i h k l

  -- Four lists that are long enough.
  cross_terms-Total :
      (p q s v : List F) (i n : ℕ)
      → i + n ≤ length p
      → i + n ≤ length q
      → i + n ≤ length s
      → i + n ≤ length v
      → (ts : List F) × (cross_terms ring p q s v i n ≡ ok ts) × (length ts ≡ n)
  unfolding cross_terms
  cross_terms-Total p q s v i zero hp hq hs hv = ([], refl, refl)
  cross_terms-Total p q s v i (suc n) hp hq hs hv =
      let (a, ha) = index-inside p i (omega (arith, hp)) in
      let (b, hb) = index-inside q i (omega (arith, hq)) in
      let (c, hc) = index-inside s i (omega (arith, hs)) in
      let (d, hd) = index-inside v i (omega (arith, hv)) in
      let (ts, ran, size) =
        cross_terms-Total p q s v (i + 1) n (omega (arith, hp)) (omega (arith, hq))
          (omega (arith, hs)) (omega (arith, hv)) in
      (ring.minus (ring.minus (ring.plus a b) c) d ∷ ts, rw (ha, hb, hc, hd, ran) refl, ap suc size)

  cross_terms-cons :
      (p q s v : List F) (i n : ℕ) {ts : List F}
      → cross_terms ring p q s v i (suc n) ≡ ok ts
      → (a : F) × (b : F) × (c : F) × (d : F) × (rest : List F) × (index p i ≡ ok a)
        × (index q i ≡ ok b)
        × (index s i ≡ ok c)
        × (index v i ≡ ok d)
        × (cross_terms ring p q s v (i + 1) n ≡ ok rest)
        × (ring.minus (ring.minus (ring.plus a b) c) d ∷ rest ≡ ts)
  unfolding cross_terms
  cross_terms-cons p q s v i n e =
      let (a, ha, e1) = >>=-eq-ok (index p i) _ e in
      let (b, hb, e2) = >>=-eq-ok (index q i) _ e1 in
      let (c, hc, e3) = >>=-eq-ok (index s i) _ e2 in
      let (d, hd, e4) = >>=-eq-ok (index v i) _ e3 in
      let (rest, ran, end) = >>=-eq-ok (cross_terms ring p q s v (i + 1) n) _ e4 in
      (a, b, c, d, rest, ha, hb, hc, hd, ran, ok-inj end)

  -- Two readings of one place.
  same : (xs : List F) {i j : ℕ} {x y : F} → i ≡ j → index xs i ≡ ok x → index xs j ≡ ok y → x ≡ y
  same xs e h k = ok-inj (sym h ∙ ap (index xs) e ∙ k)

  index-cross_terms :
      (p q s v : List F) (i n k : ℕ) {a b c d : F} {ts : List F}
      → cross_terms ring p q s v i n ≡ ok ts
      → k < n
      → index p (i + k) ≡ ok a
      → index q (i + k) ≡ ok b
      → index s (i + k) ≡ ok c
      → index v (i + k) ≡ ok d
      → index ts k ≡ ok (ring.minus (ring.minus (ring.plus a b) c) d)
  index-cross_terms p q s v i zero k e h ha hb hc hd = absurd (omega (arith, h))
  index-cross_terms p q s v i (suc n) zero e h ha hb hc hd =
      let (a, b, c, d, rest, ra, rb, rc, rd, ran, end) = cross_terms-cons p q s v i n e in
      let here : i ≡ i + 0 = omega arith in
      ap (λ l. index l 0) (sym end)
      ∙ ap ok (
          ap₂ ring.minus
            (ap₂ ring.minus (ap₂ ring.plus (same p here ra ha) (same q here rb hb))
              (same s here rc hc))
            (same v here rd hd))
  index-cross_terms p q s v i (suc n) (suc k) e h ha hb hc hd =
      let (a, b, c, d, rest, ra, rb, rc, rd, ran, end) = cross_terms-cons p q s v i n e in
      let there : i + suc k ≡ i + 1 + k = omega arith in
      ap (λ l. index l (suc k)) (sym end)
      ∙ index-cross_terms p q s v (i + 1) n k ran (omega (arith, h)) (ap (index p) (sym there) ∙ ha)
          (ap (index q) (sym there) ∙ hb) (ap (index s) (sym there) ∙ hc)
          (ap (index v) (sym there) ∙ hd)

  pub cross_with_relaxed-Total :
      (n : ℕ) (u1 u2 : F) (az1 bz1 cz1 az2 bz2 cz2 : List F)
      → length az1 ≡ n
      → length bz1 ≡ n
      → length cz1 ≡ n
      → length az2 ≡ n
      → length bz2 ≡ n
      → length cz2 ≡ n
      → (ts : List F) × (cross_with_relaxed ring u1 u2 (az1, bz1, cz1) (az2, bz2, cz2) ≡ ok ts)
        × (length ts ≡ n)
  unfolding cross_with_relaxed
  cross_with_relaxed-Total n u1 u2 az1 bz1 cz1 az2 bz2 cz2 a1 b1 c1 a2 b2 c2 =
      let left : length (circle ring az1 bz2) ≡ n = length-circle az1 bz2 (a1 ∙ sym b2) ∙ a1 in
      let right : length (circle ring az2 bz1) ≡ n = length-circle az2 bz1 (a2 ∙ sym b1) ∙ a2 in
      let (ts, ran, size) =
        cross_terms-Total (circle ring az1 bz2) (circle ring az2 bz1) (map (ring.times u1) cz2)
          (map (ring.times u2) cz1) 0 (length (circle ring az1 bz2)) (omega arith)
          (omega (arith, left, right)) (omega (arith, left, length-map (ring.times u1) cz2, c2))
          (omega (arith, left, length-map (ring.times u2) cz1, c1)) in
      (ts, ran, size ∙ left)

  pub index-cross_with_relaxed :
      (u1 u2 : F) (az1 bz1 cz1 az2 bz2 cz2 : List F) (j : ℕ) {a1 b1 c1 a2 b2 c2 : F} {ts : List F}
      → cross_with_relaxed ring u1 u2 (az1, bz1, cz1) (az2, bz2, cz2) ≡ ok ts
      → j < length (circle ring az1 bz2)
      → index az1 j ≡ ok a1
      → index bz1 j ≡ ok b1
      → index cz1 j ≡ ok c1
      → index az2 j ≡ ok a2
      → index bz2 j ≡ ok b2
      → index cz2 j ≡ ok c2
      → index ts j
        ≡ ok (
            ring.minus
              (ring.minus (ring.plus (ring.times a1 b2) (ring.times a2 b1)) (ring.times u1 c2))
              (ring.times u2 c1))
  unfolding cross_with_relaxed
  index-cross_with_relaxed u1 u2 az1 bz1 cz1 az2 bz2 cz2 j e h ha1 hb1 hc1 ha2 hb2 hc2 =
      let here : 0 + j ≡ j = omega arith in
      index-cross_terms (circle ring az1 bz2) (circle ring az2 bz1) (map (ring.times u1) cz2)
        (map (ring.times u2) cz1) 0 (length (circle ring az1 bz2)) j e h
        (ap (index (circle ring az1 bz2)) here ∙ index-circle az1 bz2 j ha1 hb2)
        (ap (index (circle ring az2 bz1)) here ∙ index-circle az2 bz1 j ha2 hb1)
        (ap (index (map (ring.times u1) cz2)) here ∙ index-map (ring.times u1) cz2 j hc2)
        (ap (index (map (ring.times u2) cz1)) here ∙ index-map (ring.times u2) cz1 j hc1)
