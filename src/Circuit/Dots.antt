-- ===== src/Circuit/Dots.antt =====
-- Products of rows with the witness: rows of zeros with a few entries, and rows made longer.
use nexus_zkvm.Base.{
  ℕ, zero, suc, ◌+◌, ◌-◌, ◌≤◌, ◌≡◌, refl, sym, ap, ◌∙◌, arith, List, [], ◌∷◌, ◌++◌, length, set,
  take, replicate,
}
use nexus_zkvm.Base.Result.{ok, index, ok-inj}
use nexus_zkvm.R1cs.{Ring}
use nexus_zkvm.Circuit.{dot_from, dot, resize}

module _ {F : Type 0} (ring : Ring F) where
  -- An addend moves out of the sum.
  dot_from-plus :
      (acc d : F) (xs ys : List F)
      → dot_from ring (ring.plus acc d) xs ys ≡ ring.plus (dot_from ring acc xs ys) d
  dot_from-plus acc d [] ys = refl
  dot_from-plus acc d (x ∷ xs) [] = refl
  dot_from-plus acc d (x ∷ xs) (y ∷ ys) =
      ap (λ a. dot_from ring a xs ys)
        (ring.plus_assoc acc d (ring.times x y)
          ∙ ap (ring.plus acc) (ring.plus_comm d (ring.times x y))
          ∙ sym (ring.plus_assoc acc (ring.times x y) d))
      ∙ dot_from-plus (ring.plus acc (ring.times x y)) d xs ys

  plus_zero : (acc y : F) → ring.plus acc (ring.times ring.nil y) ≡ acc
  plus_zero acc y = ap (ring.plus acc) (ring.times-nil y) ∙ ring.plus-nil acc

  dot_from-set :
      (acc : F) (xs ys : List F) (i : ℕ) (x : F) {y : F}
      → index xs i ≡ ok ring.nil
      → index ys i ≡ ok y
      → dot_from ring acc (set xs i x) ys ≡ ring.plus (dot_from ring acc xs ys) (ring.times x y)
  dot_from-set acc [] ys i x h k = cc
  dot_from-set acc (z ∷ xs) [] i x h k = cc
  dot_from-set acc (z ∷ xs) (y' ∷ ys) zero x {y} h k =
      ap (λ v. dot_from ring (ring.plus acc (ring.times x v)) xs ys) (ok-inj k)
      ∙ dot_from-plus acc (ring.times x y) xs ys
      ∙ ap (λ a. ring.plus (dot_from ring a xs ys) (ring.times x y))
          (sym (ap (λ v. ring.plus acc (ring.times v y')) (ok-inj h) ∙ plus_zero acc y'))
  dot_from-set acc (z ∷ xs) (y' ∷ ys) (suc i) x h k =
      dot_from-set (ring.plus acc (ring.times z y')) xs ys i x h k

  -- Writing an entry of a row where it was zero adds its product.
  pub dot-set :
      (xs ys : List F) (i : ℕ) (x : F) {y : F}
      → index xs i ≡ ok ring.nil
      → index ys i ≡ ok y
      → dot ring (set xs i x) ys ≡ ring.plus (dot ring xs ys) (ring.times x y)
  dot-set xs ys i x h k = dot_from-set ring.nil xs ys i x h k

  dot_from-zeros :
      (acc : F) (n : ℕ) (ys : List F) → dot_from ring acc (replicate n ring.nil) ys ≡ acc
  dot_from-zeros acc zero ys = refl
  dot_from-zeros acc (suc n) [] = refl
  dot_from-zeros acc (suc n) (y ∷ ys) =
      ap (λ a. dot_from ring a (replicate n ring.nil) ys) (plus_zero acc y)
      ∙ dot_from-zeros acc n ys

  pub dot-zeros : (n : ℕ) (ys : List F) → dot ring (replicate n ring.nil) ys ≡ ring.nil
  dot-zeros n ys = dot_from-zeros ring.nil n ys

  dot_from-append_zeros :
      (acc : F) (xs ys ys' : List F) (n : ℕ)
      → length xs ≡ length ys
      → dot_from ring acc (xs ++ replicate n ring.nil) (ys ++ ys') ≡ dot_from ring acc xs ys
  dot_from-append_zeros acc [] [] ys' n e = dot_from-zeros acc n ys'
  dot_from-append_zeros acc [] (y ∷ ys) ys' n e = absurd (omega (arith, e))
  dot_from-append_zeros acc (x ∷ xs) [] ys' n e = absurd (omega (arith, e))
  dot_from-append_zeros acc (x ∷ xs) (y ∷ ys) ys' n e =
      dot_from-append_zeros (ring.plus acc (ring.times x y)) xs ys ys' n (omega (arith, e))

  dot_from-zeros_append :
      (acc : F) (xs ys ys' : List F)
      → dot_from ring acc (replicate (length ys) ring.nil ++ xs) (ys ++ ys')
        ≡ dot_from ring acc xs ys'
  dot_from-zeros_append acc xs [] ys' = refl
  dot_from-zeros_append acc xs (y ∷ ys) ys' =
      ap (λ a. dot_from ring a (replicate (length ys) ring.nil ++ xs) (ys ++ ys')) (plus_zero acc y)
      ∙ dot_from-zeros_append acc xs ys ys'

  take_all : (n : ℕ) (xs : List F) → length xs ≤ n → take n xs ≡ xs
  take_all zero [] h = refl
  take_all zero (x ∷ xs) h = absurd (omega (arith, h))
  take_all (suc n) [] h = refl
  take_all (suc n) (x ∷ xs) h = ap (λ l. x ∷ l) (take_all n xs (omega (arith, h)))

  pub resize_lem :
      (m n : ℕ) (xs : List F) → length xs ≡ m → resize ring (m + n) xs ≡ xs ++ replicate n ring.nil
  resize_lem m n xs e =
      let rest : m + n - length xs ≡ n = omega (arith, e) in
      rw (take_all (m + n) xs (omega (arith, e)), rest) refl

  -- A row of the left system in the merged one, and one of the right system.
  pub dot-resize :
      (xs ys ys' : List F)
      → length xs ≡ length ys
      → dot ring (resize ring (length ys + length ys') xs) (ys ++ ys') ≡ dot ring xs ys
  dot-resize xs ys ys' e =
      ap (λ row. dot ring row (ys ++ ys')) (resize_lem (length ys) (length ys') xs e)
      ∙ dot_from-append_zeros ring.nil xs ys ys' (length ys') e

  pub dot-zeros_append :
      (xs ys ys' : List F)
      → dot ring (replicate (length ys) ring.nil ++ xs) (ys ++ ys') ≡ dot ring xs ys'
  dot-zeros_append xs ys ys' = dot_from-zeros_append ring.nil xs ys ys'
