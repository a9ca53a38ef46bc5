-- ===== src/Memory/Trie/Keys.antt =====
-- Which bits of an address the trie's levels read.
use native.Mathlib.Nat.{pow-suc, zero-mul, one-mul}
use native.Mathlib.Decide.{dec_lt}
use nexus_zkvm.Base.{
  ℕ, zero, suc, ◌+◌, ◌*◌, ◌/◌, ◌%◌, ◌^◌, ◌<◌, ◌≡◌, ◌⊎◌, inl, inr, ap, ◌∙◌, arith, ◌==◌,
}
use nexus_zkvm.Base.Bits.{mod_double}
use nexus_zkvm.Memory.Trie.{reverse_bits}
use nexus_zkvm.Memory.Trie.Update.{same_key}
use nexus_zkvm.Memory.Trie.Alias.{reverse_bits_half}
use nexus_zkvm.Memory.Trie.Laws.{same_line}

same_key_mod : (n a b : ℕ) → same_key n a b ≡ (a / 2 % 2 ^ n == b / 2 % 2 ^ n)
same_key_mod zero a b = ground arith
same_key_mod (suc n) a b =
    ground (arith, same_key_mod n (a / 2) (b / 2), mod_double (a / 2) n, mod_double (b / 2) n)

-- The lowest bit times a number.
bit_cases : (x p : ℕ) → ((x % 2 ≡ 0) × (x % 2 * p ≡ 0)) ⊎ ((x % 2 ≡ 1) × (x % 2 * p ≡ p))
bit_cases x p = elim (dec_lt 0 (x % 2)) [
  | yes h ↦ let e : x % 2 ≡ 1 = omega arith in inr (e, rw e (one-mul p))
  | no h ↦ let e : x % 2 ≡ 0 = omega arith in inl (e, rw e (zero-mul p))
]

reverse_bits-lt : (n x : ℕ) → reverse_bits n x < 2 ^ n
unfolding reverse_bits
reverse_bits-lt zero x = omega arith
reverse_bits-lt (suc n) x = elim (bit_cases x (2 ^ n)) [
  | inl e ↦ omega (arith, e.1, reverse_bits-lt n (x / 2), pow-suc 2 n)
  | inr e ↦ omega (arith, e.1, reverse_bits-lt n (x / 2), pow-suc 2 n)
]

-- Two numbers of one more digit, the top digit of one side being the bottom digit of the other.
digit_eq :
    (p r s u v x y : ℕ)
    → r < p
    → s < p
    → (r == s) ≡ (u == v)
    → (x % 2 * p + r == y % 2 * p + s) ≡ (u * 2 + x % 2 == v * 2 + y % 2)
digit_eq p r s u v x y hr hs e = elim (bit_cases x p) [
  | inl bx ↦ elim (bit_cases y p) [ inl by ↦ ground arith | inr by ↦ ground arith ]
  | inr bx ↦ elim (bit_cases y p) [ inl by ↦ ground arith | inr by ↦ ground arith ]
]

reverse_bits_eq : (n x y : ℕ) → (reverse_bits n x == reverse_bits n y) ≡ (x % 2 ^ n == y % 2 ^ n)
unfolding reverse_bits
reverse_bits_eq zero x y = ground arith
reverse_bits_eq (suc n) x y =
    rw (mod_double x n, mod_double y n)
      (digit_eq (2 ^ n) (reverse_bits n (x / 2)) (reverse_bits n (y / 2)) (x / 2 % 2 ^ n)
        (y / 2 % 2 ^ n) x y (reverse_bits-lt n (x / 2)) (reverse_bits-lt n (y / 2))
        (reverse_bits_eq n (x / 2) (y / 2)))

reverse_bits_low : (x : ℕ) → reverse_bits 31 x % 2 ^ 27 ≡ reverse_bits 27 (x / 2 / 2 / 2 / 2)
unfolding reverse_bits
reverse_bits_low x = omega (arith, reverse_bits-lt 27 (x / 2 / 2 / 2 / 2))

-- The paths of two addresses are the same exactly when their bits 4 to 30 are.
pub same_line_bits : (a b : ℕ) → same_line a b ≡ (a / 16 % 2 ^ 27 == b / 16 % 2 ^ 27)
same_line_bits a b =
    same_key_mod 27 (reverse_bits 32 a) (reverse_bits 32 b)
    ∙ rw (key a, key b) (reverse_bits_eq 27 (a / 16) (b / 16))
  where
    key : (x : ℕ) → reverse_bits 32 x / 2 % 2 ^ 27 ≡ reverse_bits 27 (x / 16)
    key x =
        let e : x / 2 / 2 / 2 / 2 ≡ x / 16 = omega arith in
        ap (λ r. r % 2 ^ 27) (reverse_bits_half 31 x) ∙ reverse_bits_low x ∙ ap (reverse_bits 27) e
