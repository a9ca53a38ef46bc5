-- ===== src/Examples/Parity.antt =====
-- The field of two elements, and a commitment that is the parity.
use nexus_zkvm.Base.{
  ℕ, ◌≡◌, refl, arith, Bool, true, false, ◌&&◌, not, zero, suc, ap, ◌∙◌, sym, List, [], ◌∷◌, length,
  replicate,
}
use nexus_zkvm.R1cs.{Ring, Commitment, combine}

abbrev pub xor : Bool → Bool → Bool
xor true b = not b
xor false b = b

abbrev pub same : Bool → Bool → Bool
same a b = not (xor a b)

pub same_refl : (a : Bool) → same a a ≡ true
same_refl true = refl
same_refl false = refl

pub same_sound : (a b : Bool) → same a b ≡ true → a ≡ b
same_sound true true h = refl
same_sound true false h = cc
same_sound false true h = cc
same_sound false false h = refl

pub xor-false : (a : Bool) → xor a false ≡ a
xor-false true = refl
xor-false false = refl

pub xor_comm : (a b : Bool) → xor a b ≡ xor b a
xor_comm true true = refl
xor_comm true false = refl
xor_comm false true = refl
xor_comm false false = refl

pub xor_assoc : (a b c : Bool) → xor (xor a b) c ≡ xor a (xor b c)
xor_assoc true true true = refl
xor_assoc true true false = refl
xor_assoc true false c = refl
xor_assoc false b c = refl

pub xor-xor : (a b : Bool) → xor (xor a b) b ≡ a
xor-xor true true = refl
xor-xor true false = refl
xor-xor false true = refl
xor-xor false false = refl

pub and_comm : (a b : Bool) → a && b ≡ b && a
and_comm true true = refl
and_comm true false = refl
and_comm false true = refl
and_comm false false = refl

pub and_assoc : (a b c : Bool) → (a && b) && c ≡ a && (b && c)
and_assoc true b c = refl
and_assoc false b c = refl

pub and-xor : (a b c : Bool) → a && xor b c ≡ xor (a && b) (a && c)
and-xor true b c = refl
and-xor false b c = refl

abbrev pub two : Ring Bool
two = record {
  nil = false;
  one = true;
  plus = xor;
  minus = xor;
  times = ◌&&◌;
  eq = same;
  eq_refl = same_refl;
  eq_sound = same_sound;
  plus-nil = xor-false;
  plus_comm = xor_comm;
  plus_assoc = xor_assoc;
  minus-plus = xor-xor;
  times-nil = λ a. refl;
  times-one = λ a. refl;
  times_comm = and_comm;
  times_assoc = and_assoc;
  times-plus = and-xor;
}

abbrev pub parity : List Bool → Bool
parity [] = false
parity (x ∷ xs) = xor x (parity xs)

pub parity-zeros : (n : ℕ) → parity (replicate n false) ≡ false
parity-zeros zero = refl
parity-zeros (suc n) = parity-zeros n

-- The sum of two sums, the second scaled.
swap_sums :
    (r x y p q : Bool) → xor (xor x (r && y)) (xor p (q && r)) ≡ xor (xor x p) (xor y q && r)
swap_sums r x y p q =
    xor_assoc x (r && y) (xor p (q && r))
    ∙ ap (xor x) (
        sym (xor_assoc (r && y) p (q && r))
        ∙ ap (λ k. xor k (q && r)) (xor_comm (r && y) p)
        ∙ xor_assoc p (r && y) (q && r))
    ∙ sym (xor_assoc x p (xor (r && y) (q && r)))
    ∙ ap (xor (xor x p))
        (ap (xor (r && y)) (and_comm q r) ∙ sym (and-xor r y q) ∙ and_comm r (xor y q))

pub parity-combine :
    (r : Bool) (xs ys : List Bool)
    → length xs ≡ length ys
    → parity (combine two r xs ys) ≡ xor (parity xs) (parity ys && r)
parity-combine r [] [] h = refl
parity-combine r [] (y ∷ ys) h = absurd (omega (arith, h))
parity-combine r (x ∷ xs) [] h = absurd (omega (arith, h))
parity-combine r (x ∷ xs) (y ∷ ys) h =
    ap (xor (xor x (r && y))) (parity-combine r xs ys (omega (arith, h)))
    ∙ swap_sums r x y (parity xs) (parity ys)

abbrev pub by_parity : Commitment Bool two Bool
by_parity = record {
  commit = parity;
  default = false;
  plus = xor;
  scale = ◌&&◌;
  eq = same;
  eq_refl = same_refl;
  eq_sound = same_sound;
  plus-default = λ a r. xor-false a;
  commit-zeros = parity-zeros;
  commit-combine = parity-combine;
}
