-- ===== src/Memory/Trie/Lines.antt =====
-- The trie is a map from addresses to cache lines.
use nexus_zkvm.Base.{
  ℕ, zero, suc, ◌/◌, ◌%◌, ◌^◌, ◌==◌, ==_refl, ◌∙◌, ap, ◌≡◌, refl, arith, Bool, true, false,
  if◌then◌else◌,
}
use nexus_zkvm.Memory.CacheLine.{CacheLine}
use nexus_zkvm.Memory.CacheLine.Bytes.{IsLine, zero_line-IsLine}
use nexus_zkvm.Memory.Lines.{Lines}
use nexus_zkvm.Memory.Path.{Commitments, cache_log}
use nexus_zkvm.Memory.Trie.{Tree, empty, leaf, branch, MerkleTrie, reverse_bits, merkle_trie}
use nexus_zkvm.Memory.Trie.Merkle.{line_at}
use nexus_zkvm.Memory.Trie.Update.{IsTotal, same_key}
use nexus_zkvm.Memory.Trie.Laws.{IsMerkle, line_of, same_line, query-IsQueried, update-IsReplaced}
use nexus_zkvm.Memory.Trie.Keys.{same_line_bits}
use nexus_zkvm.Memory.Trie.Start.{empty_digest, IsEmptyTrie}

-- The same bits 4 to 30.
abbrev pub same_bits : ℕ → ℕ → Bool
same_bits a b = a / 16 % 2 ^ 27 == b / 16 % 2 ^ 27

line_at-same_key :
    {F : Type 0} (n : ℕ) (t : Tree F) (a b : ℕ)
    → same_key n a b ≡ true
    → line_at n t a ≡ line_at n t b
line_at-same_key n empty a b h = refl
line_at-same_key zero (leaf d cl) a b h = refl
line_at-same_key zero (branch d l r) a b h = refl
line_at-same_key (suc n) (leaf d cl) a b h = refl
line_at-same_key (suc n) (branch d l r) a b h =
    ground (arith, line_at-same_key n l (a / 2) (b / 2), line_at-same_key n r (a / 2) (b / 2))

module _ {F : Type 0} (c : Commitments F) (refl_eq : (d : F) → c.digest_eq d d ≡ true)
    (total : IsTotal c) (first : IsEmptyTrie c total) where
  -- The Merkle invariant, and lines of 32 bytes.
  abbrev pub IsMemory : MerkleTrie F → Type 0
  IsMemory m = IsMerkle c (empty_digest c total) m × ((a : ℕ) → IsLine (line_of m a))

  if_IsLine : (b : Bool) (x y : CacheLine) → IsLine x → IsLine y → IsLine (if b then x else y)
  if_IsLine true x y h k = h
  if_IsLine false x y h k = k

  -- Where the equality of digests is reflexive and the hash functions do not fail, the trie is a map
  -- from addresses to lines, in which two addresses share a line exactly when their bits 4 to 30 are
  -- the same.
  pub merkle_trie-Lines : Lines (merkle_trie c first.start) same_bits
  merkle_trie-Lines = record {
    IsValid = IsMemory;
    line = line_of;
    same_refl = λ a. ==_refl (a / 16 % 2 ^ 27);
    same_line = λ s a b h.
        line_at-same_key cache_log s.root (reverse_bits 32 a) (reverse_bits 32 b)
          (same_line_bits a b ∙ h);
    initial_valid = (first.keeps, λ a. rw (first.lines a) zero_line-IsLine);
    initial_zero = first.lines;
    line_ok = λ s a i. i.1 a;
    queries = λ s a i.
        let q = query-IsQueried c (empty_digest c total) refl_eq s a i.0 in (q.path, q.runs);
    updates = λ s a f new i e ok_line.
        let u = update-IsReplaced c (empty_digest c total) refl_eq total s a f new i.0 e in
        (
          u.path,
          u.after,
          u.runs,
          (
            u.keeps,
            λ b. rw (u.lines b) (if_IsLine (same_line a b) new (line_of s b) ok_line (i.1 b)),
          ),
          λ b. u.lines b ∙ ap (λ k. if k then new else line_of s b) (same_line_bits a b),
        );
  }
