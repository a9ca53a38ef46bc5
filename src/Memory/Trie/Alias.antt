-- ===== src/Memory/Trie/Alias.antt =====
-- Which addresses the trie does not tell apart.
use nexus_zkvm.Base.{
  ℕ, zero, suc, ◌+◌, ◌*◌, ◌/◌, ◌%◌, ◌^◌, ◌≡◌, refl, sym, ap, ◌∙◌, arith, List, [], Bool,
}
use native.Mathlib.Nat.{pow-suc}
use nexus_zkvm.Memory.Path.{Commitments}
use nexus_zkvm.Memory.Trie.{Tree, MerkleTrie, reverse_bits, query_inner, query}

bit_times : (b n : ℕ) → b * 2 ^ suc n ≡ 2 * (b * 2 ^ n)
bit_times b n = grind (arith, pow-suc 2 n)

-- The bit of weight 2 ^ n comes out lowest.
pub reverse_bits_half : (n x : ℕ) → reverse_bits (suc n) x / 2 ≡ reverse_bits n x
unfolding reverse_bits
reverse_bits_half zero x = omega arith
reverse_bits_half (suc n) x = omega (arith, reverse_bits_half n (x / 2), bit_times (x % 2) n)

reverse_bits-add : (n x : ℕ) → reverse_bits n (x + 2 ^ n) ≡ reverse_bits n x
unfolding reverse_bits
reverse_bits-add zero x = refl
reverse_bits-add (suc n) x =
    let low : (x + 2 ^ suc n) % 2 ≡ x % 2 = omega (arith, pow-suc 2 n) in
    let high : (x + 2 ^ suc n) / 2 ≡ x / 2 + 2 ^ n = omega (arith, pow-suc 2 n) in
    rw (low, high) (ap (λ r. x % 2 * 2 ^ n + r) (reverse_bits-add n (x / 2)))

module _ {F : Type 0} where
  query_inner-half :
      (zeros : List F) (n : ℕ) (t : Tree F) (auth : List (Bool × F)) (a b : ℕ)
      → a / 2 ≡ b / 2
      → query_inner zeros (suc n) t auth a ≡ query_inner zeros (suc n) t auth b
  unfolding query_inner
  query_inner-half zeros n t auth a b e = rw e refl

  -- A query at an address and a query 2 ^ 31 above it return the same: the trie never reads the
  -- highest bit of an address.
  pub query-add :
      (c : Commitments F) (m : MerkleTrie F) (addr : ℕ) → query c m (addr + 2 ^ 31) ≡ query c m addr
  unfolding query
  query-add c m addr =
      rw
        (query_inner-half m.zeros 26 m.root [] (reverse_bits 32 (addr + 2 ^ 31))
          (reverse_bits 32 addr)
          (reverse_bits_half 31 (addr + 2 ^ 31)
            ∙ reverse_bits-add 31 addr
            ∙ sym (reverse_bits_half 31 addr)))
        refl
