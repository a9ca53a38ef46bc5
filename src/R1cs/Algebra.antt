-- ===== src/R1cs/Algebra.antt =====
-- Sums and products in the field: what the folding of two equations needs.
use nexus_zkvm.Base.{◌≡◌, sym, ap, ◌∙◌}
use mathlib.Core.Path.{ap₂}
use nexus_zkvm.R1cs.{Ring}

module _ {F : Type 0} (ring : Ring F) where
  infixl 60 ◌⊕◌
  abbrev ◌⊕◌ : F → F → F
  ◌⊕◌ = ring.plus

  infixl 70 ◌⊗◌
  abbrev ◌⊗◌ : F → F → F
  ◌⊗◌ = ring.times

  pub plus-swap : (a b c d : F) → (a ⊕ b) ⊕ (c ⊕ d) ≡ (a ⊕ c) ⊕ (b ⊕ d)
  plus-swap a b c d =
      ring.plus_assoc a b (c ⊕ d)
      ∙ ap (ring.plus a) (
          sym (ring.plus_assoc b c d)
          ∙ ap (λ e. e ⊕ d) (ring.plus_comm b c)
          ∙ ring.plus_assoc c b d)
      ∙ sym (ring.plus_assoc a c (b ⊕ d))

  pub plus-times : (a b c : F) → (a ⊕ b) ⊗ c ≡ (a ⊗ c) ⊕ (b ⊗ c)
  plus-times a b c =
      ring.times_comm (a ⊕ b) c
      ∙ ring.times-plus c a b
      ∙ ap₂ ring.plus (ring.times_comm c a) (ring.times_comm c b)

  pub times_left : (a b c : F) → a ⊗ (b ⊗ c) ≡ b ⊗ (a ⊗ c)
  times_left a b c =
      sym (ring.times_assoc a b c) ∙ ap (λ d. d ⊗ c) (ring.times_comm a b) ∙ ring.times_assoc b a c

  times-swap : (a b c d : F) → (a ⊗ b) ⊗ (c ⊗ d) ≡ (a ⊗ c) ⊗ (b ⊗ d)
  times-swap a b c d =
      ring.times_assoc a b (c ⊗ d)
      ∙ ap (ring.times a) (times_left b c d)
      ∙ sym (ring.times_assoc a c (b ⊗ d))

  -- The product of two folded values.
  expand :
      (r x1 x2 y1 y2 : F)
      → (x1 ⊕ (r ⊗ x2)) ⊗ (y1 ⊕ (r ⊗ y2))
        ≡ ((x1 ⊗ y1) ⊕ (r ⊗ ((x1 ⊗ y2) ⊕ (x2 ⊗ y1)))) ⊕ ((r ⊗ r) ⊗ (x2 ⊗ y2))
  expand r x1 x2 y1 y2 =
      ring.times-plus (x1 ⊕ (r ⊗ x2)) y1 (r ⊗ y2)
      ∙ ap₂ ring.plus
          (plus-times x1 (r ⊗ x2) y1 ∙ ap (ring.plus (x1 ⊗ y1)) (ring.times_assoc r x2 y1))
          (plus-times x1 (r ⊗ x2) (r ⊗ y2)
            ∙ ap₂ ring.plus (times_left x1 r y2) (times-swap r x2 r y2))
      ∙ sym (ring.plus_assoc ((x1 ⊗ y1) ⊕ (r ⊗ (x2 ⊗ y1))) (r ⊗ (x1 ⊗ y2)) ((r ⊗ r) ⊗ (x2 ⊗ y2)))
      ∙ ap (λ e. e ⊕ ((r ⊗ r) ⊗ (x2 ⊗ y2)))
          (ring.plus_assoc (x1 ⊗ y1) (r ⊗ (x2 ⊗ y1)) (r ⊗ (x1 ⊗ y2))
            ∙ ap (ring.plus (x1 ⊗ y1)) (
                ring.plus_comm (r ⊗ (x2 ⊗ y1)) (r ⊗ (x1 ⊗ y2))
                ∙ sym (ring.times-plus r (x1 ⊗ y2) (x2 ⊗ y1))))

  -- One term of a folded product added to a folded sum.
  pub combine_term :
      (r v a1 a2 x1 x2 : F)
      → (a1 ⊕ (r ⊗ a2)) ⊕ (v ⊗ (x1 ⊕ (r ⊗ x2))) ≡ (a1 ⊕ (v ⊗ x1)) ⊕ (r ⊗ (a2 ⊕ (v ⊗ x2)))
  combine_term r v a1 a2 x1 x2 =
      ap (ring.plus (a1 ⊕ (r ⊗ a2)))
        (ring.times-plus v x1 (r ⊗ x2) ∙ ap (ring.plus (v ⊗ x1)) (times_left v r x2))
      ∙ plus-swap a1 (r ⊗ a2) (v ⊗ x1) (r ⊗ (v ⊗ x2))
      ∙ ap (ring.plus (a1 ⊕ (v ⊗ x1))) (sym (ring.times-plus r a2 (v ⊗ x2)))

  -- The cross-term and what it takes away.
  cross-plus : (p q c d : F) → (c ⊕ d) ⊕ ring.minus (ring.minus (p ⊕ q) c) d ≡ p ⊕ q
  cross-plus p q c d =
      ring.plus_comm (c ⊕ d) t
      ∙ ap (ring.plus t) (ring.plus_comm c d)
      ∙ sym (ring.plus_assoc t d c)
      ∙ ap (λ e. e ⊕ c) (ring.minus-plus (ring.minus (p ⊕ q) c) d)
      ∙ ring.minus-plus (p ⊕ q) c
    where
      t : F
      t = ring.minus (ring.minus (p ⊕ q) c) d

  -- Two satisfied equations, folded.
  pub fold_equation :
      (r a1 a2 b1 b2 c1 c2 u1 u2 e1 e2 : F)
      → a1 ⊗ b1 ≡ (u1 ⊗ c1) ⊕ e1
      → a2 ⊗ b2 ≡ (u2 ⊗ c2) ⊕ e2
      → (a1 ⊕ (r ⊗ a2)) ⊗ (b1 ⊕ (r ⊗ b2))
        ≡ ((u1 ⊕ (r ⊗ u2)) ⊗ (c1 ⊕ (r ⊗ c2)))
          ⊕ ((e1 ⊕ (r ⊗ ring.minus (ring.minus ((a1 ⊗ b2) ⊕ (a2 ⊗ b1)) (u1 ⊗ c2)) (u2 ⊗ c1)))
              ⊕ ((r ⊗ r) ⊗ e2))
  fold_equation r a1 a2 b1 b2 c1 c2 u1 u2 e1 e2 h1 h2 =
      expand r a1 a2 b1 b2
      ∙ ap₂ ring.plus
          (ap₂ ring.plus h1 (
            ap (ring.times r) (sym (cross-plus (a1 ⊗ b2) (a2 ⊗ b1) (u1 ⊗ c2) (u2 ⊗ c1)))
            ∙ ring.times-plus r mid t))
          (ap (ring.times (r ⊗ r)) h2 ∙ ring.times-plus (r ⊗ r) (u2 ⊗ c2) e2)
      ∙ ap (λ e. e ⊕ (((r ⊗ r) ⊗ (u2 ⊗ c2)) ⊕ ((r ⊗ r) ⊗ e2)))
          (plus-swap (u1 ⊗ c1) e1 (r ⊗ mid) (r ⊗ t))
      ∙ plus-swap ((u1 ⊗ c1) ⊕ (r ⊗ mid)) (e1 ⊕ (r ⊗ t)) ((r ⊗ r) ⊗ (u2 ⊗ c2)) ((r ⊗ r) ⊗ e2)
      ∙ ap (λ e. e ⊕ ((e1 ⊕ (r ⊗ t)) ⊕ ((r ⊗ r) ⊗ e2))) (sym (expand r u1 u2 c1 c2))
    where
      mid : F
      mid = (u1 ⊗ c2) ⊕ (u2 ⊗ c1)

      t : F
      t = ring.minus (ring.minus ((a1 ⊗ b2) ⊕ (a2 ⊗ b1)) (u1 ⊗ c2)) (u2 ⊗ c1)
