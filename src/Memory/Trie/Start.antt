-- ===== src/Memory/Trie/Start.antt =====
-- The trie that `MerkleTrie::default()` returns.
use nexus_zkvm.Base.{
  ℕ, zero, suc, ◌+◌, ◌-◌, ◌≡◌, refl, ap, ◌∙◌, arith, List, [], ◌∷◌, ◌++◌, some, get_elem?,
}
use mathlib.Core.List.{reverse, reverse-append}
use nexus_zkvm.Base.Result.{ok}
use nexus_zkvm.Memory.CacheLine.{zero_line}
use nexus_zkvm.Memory.Path.{Commitments, cache_log, push_zeros, compute_zeros}
use nexus_zkvm.Memory.Trie.{MerkleTrie, empty, default_trie}
use nexus_zkvm.Memory.Trie.Update.{IsTotal}
use nexus_zkvm.Memory.Trie.Laws.{IsMerkle, line_of}

-- `z n ∷ … ∷ z 0 ∷ []`.
abbrev downward : {F : Type 0} → (ℕ → F) → ℕ → List F
downward z zero = z 0 ∷ []
downward z (suc n) = z (suc n) ∷ downward z n

-- `z 0 ∷ … ∷ z (n - 1) ∷ []`, onto `v`.
abbrev upward : {F : Type 0} → (ℕ → F) → ℕ → List F
upward z zero = []
upward z (suc n) = upward z n ++ z n ∷ []

module _ {F : Type 0} (z : ℕ → F) where
  reverse-upward : (n : ℕ) → reverse (upward z n ++ z n ∷ []) ≡ downward z n
  reverse-upward zero = refl
  reverse-upward (suc n) =
      reverse-append (upward z n ++ z n ∷ []) (z (suc n) ∷ [])
      ∙ ap (λ l. z (suc n) ∷ l) (reverse-upward n)

  get_elem?-downward : (n i k : ℕ) → n ≡ i + k → get_elem? (downward z n) i ≡ some (z k)
  get_elem?-downward zero zero k e = ap (λ j. some (z j)) (omega arith)
  get_elem?-downward zero (suc i) k e = absurd (omega arith)
  get_elem?-downward (suc n) zero k e = ap (λ j. some (z j)) (omega arith)
  get_elem?-downward (suc n) (suc i) k e = get_elem?-downward n i k (omega arith)

module _ {F : Type 0} (c : Commitments F) (total : IsTotal c) where
  -- The digest of an empty tree of each height.
  abbrev pub empty_digest : ℕ → F
  empty_digest zero = (total.hashes zero_line).0
  empty_digest (suc n) = (total.compresses (empty_digest n) (empty_digest n)).0

  push_zeros_lem : (n : ℕ) → push_zeros c [] n ≡ ok (empty_digest n, upward empty_digest n)
  unfolding push_zeros
  push_zeros_lem zero = rw (total.hashes zero_line).1
  push_zeros_lem (suc n) =
      rw (push_zeros_lem n, (total.compresses (empty_digest n) (empty_digest n)).1)

  compute_zeros_lem : compute_zeros c ≡ ok (downward empty_digest cache_log)
  unfolding compute_zeros
  compute_zeros_lem = rw (push_zeros_lem cache_log) (ap ok (reverse-upward empty_digest cache_log))

  -- What the default trie is.
  pub record IsEmptyTrie : Type 0 where
    pub start : MerkleTrie F
    pub runs : default_trie c ≡ ok start
    pub keeps : IsMerkle c empty_digest start
    pub lines : (addr : ℕ) → line_of start addr ≡ zero_line

  -- With hash functions that do not fail, the default trie is built; it has the Merkle invariant,
  -- with the digests of the empty trees in its vector of zeros, and every line of it is zero.
  pub default_trie-IsEmptyTrie : IsEmptyTrie
  unfolding default_trie
  default_trie-IsEmptyTrie = record {
    start = record { root = empty; zeros = downward empty_digest cache_log };
    runs = rw compute_zeros_lem;
    keeps = record {
      zeros = record {
        base = (total.hashes zero_line).1;
        next = λ n h. (total.compresses (empty_digest n) (empty_digest n)).1;
        at_level =
            λ n h. rw (get_elem?-downward empty_digest cache_log (cache_log - n) n (omega arith));
      };
      tree = tt;
    };
    lines = λ addr. refl;
  }
