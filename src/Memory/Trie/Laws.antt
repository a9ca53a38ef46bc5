-- ===== src/Memory/Trie/Laws.antt =====
-- The trie as an authenticated memory: what `query` and `update` return, checked by `verify`.
use nexus_zkvm.Base.{ℕ, ◌≡◌, refl, ap, ◌∙◌, arith, Bool, true, List, [], if◌then◌else◌}
use nexus_zkvm.Base.Result.{ok, >>=-eq-ok}
use nexus_zkvm.Memory.CacheLine.{CacheLine}
use nexus_zkvm.Memory.Path.{
  Commitments, MerklePath, cache_log, scalars_of, hash_memory, fold_auth, verify,
}
use nexus_zkvm.Memory.Controller.{LineUpdate}
use nexus_zkvm.Memory.Trie.{
  Tree, empty, leaf, branch, MerkleTrie, reverse_bits, root_digest, query, update, new_root, or_new,
}
use nexus_zkvm.Memory.Trie.Merkle.{
  AreZeros, root_of, IsTrie, line_at, Proves, query_inner-Found, digest-root_of,
}
use nexus_zkvm.Memory.Trie.Update.{
  IsTotal, same_key, IsOpen, or_new-IsOpen, line_at-or_new, update_inner-IsUpdated,
}

module _ {F : Type 0} (c : Commitments F) (z : ℕ → F) where
  -- The invariant of the trie.
  pub record IsMerkle (m : MerkleTrie F) : Type 0 where
    pub zeros : AreZeros c m.zeros z
    pub tree : IsTrie c z cache_log m.root

-- The line of the memory that an address selects.
abbrev pub line_of : {F : Type 0} → MerkleTrie F → ℕ → CacheLine
line_of m addr = line_at cache_log m.root (reverse_bits 32 addr)

-- Two addresses whose paths through the trie are the same.
abbrev pub same_line : ℕ → ℕ → Bool
same_line a b = same_key cache_log (reverse_bits 32 a) (reverse_bits 32 b)

module _ {F : Type 0} (c : Commitments F) (z : ℕ → F)
    (refl_eq : (d : F) → c.digest_eq d d ≡ true) where
  -- A path whose fold gives its root is one that `verify` accepts.
  Proves-verify :
      (cl : CacheLine) (auth : List (Bool × F)) (d : F)
      → Proves c cl auth d
      → verify c (record { root = d; leaf = scalars_of c cl; auth = auth }) ≡ ok true
  unfolding verify hash_memory
  Proves-verify cl auth d p =
      let (h, first, rest) = >>=-eq-ok (hash_memory c cl) (λ x. fold_auth c x auth) p in
      rw (first, rest, refl_eq d)

  -- What a query returns.
  pub record IsQueried (m : MerkleTrie F) (addr : ℕ) : Type 0 where
    pub path : MerklePath F
    pub runs : query c m addr ≡ ok (line_of m addr, path)
    pub of_root : root_digest c m ≡ ok path.root
    pub of_line : path.leaf ≡ scalars_of c (line_of m addr)
    pub verifies : verify c path ≡ ok true

  -- Where the equality of digests is reflexive, in a trie with the Merkle invariant, a query at any address returns the line stored there and
  -- a path that `verify` accepts, from that line's scalars to the trie's root digest.
  pub query-IsQueried : (m : MerkleTrie F) (addr : ℕ) → IsMerkle c z m → IsQueried m addr
  unfolding query root_digest
  query-IsQueried m addr i =
      let (auth, runs, proves) =
        query_inner-Found c m.zeros z i.zeros cache_log m.root [] (reverse_bits 32 addr)
          (omega arith) i.tree in
      let top = digest-root_of c m.zeros z i.zeros cache_log m.root (omega arith) in
      let path : MerklePath F = record {
        root = root_of z cache_log m.root;
        leaf = scalars_of c (line_of m addr);
        auth = auth;
      } in
      record {
        path = path;
        runs = rw (runs, top);
        of_root = top;
        of_line = refl;
        verifies = Proves-verify (line_of m addr) auth path.root proves;
      }

  -- What an update leaves behind.
  pub record IsReplaced (m : MerkleTrie F) (addr : ℕ) (f : LineUpdate) (new : CacheLine)
      : Type 0 where
    pub path : MerklePath F
    pub after : MerkleTrie F
    pub runs : update c m addr f ≡ (ok path, after)
    pub keeps : IsMerkle c z after
    pub of_root : root_digest c after ≡ ok path.root
    pub of_line : path.leaf ≡ scalars_of c new
    pub verifies : verify c path ≡ ok true
    pub lines : (b : ℕ) → line_of after b ≡ (if same_line addr b then new else line_of m b)

  new_root-or_new : (t : Tree F) → new_root c t ≡ or_new c cache_log t
  new_root-or_new empty = refl
  new_root-or_new (leaf d cl) = refl
  new_root-or_new (branch d l r) = refl

  new_root-IsOpen :
      (m : MerkleTrie F) (i : IsMerkle c z m)
      → IsOpen c m.zeros z i.zeros cache_log (new_root c m.root)
  new_root-IsOpen m i =
      rw (new_root-or_new m.root) (or_new-IsOpen c m.zeros z i.zeros cache_log m.root i.tree)

  line_at-new_root :
      (m : MerkleTrie F)
      → IsMerkle c z m
      → (a : ℕ) → line_at cache_log (new_root c m.root) a ≡ line_at cache_log m.root a
  line_at-new_root m i a =
      ap (λ t. line_at cache_log t a) (new_root-or_new m.root)
      ∙ line_at-or_new c m.zeros z i.zeros cache_log m.root a

  -- Where the equality of digests is reflexive and the hash functions do not fail, in a trie with the
  -- Merkle invariant, an update by a closure
  -- that succeeds on the line stored at the address succeeds. It keeps the invariant, the lines of
  -- the same path become the closure's result and all others stay, and it returns a path that
  -- `verify` accepts, from the new line's scalars to the new root digest.
  pub update-IsReplaced :
      (total : IsTotal c) (m : MerkleTrie F) (addr : ℕ) (f : LineUpdate) (new : CacheLine)
      → IsMerkle c z m
      → f (line_of m addr) ≡ (ok tt, new)
      → IsReplaced m addr f new
  unfolding update root_digest
  update-IsReplaced total m addr f new i e =
      let u =
        update_inner-IsUpdated c m.zeros z i.zeros total f new cache_log (new_root c m.root) []
          (reverse_bits 32 addr) (omega arith) (new_root-IsOpen m i)
          (rw (line_at-new_root m i (reverse_bits 32 addr)) e) in
      let top = digest-root_of c m.zeros z i.zeros cache_log u.tree (omega arith) in
      let path : MerklePath F = record {
        root = root_of z cache_log u.tree;
        leaf = scalars_of c new;
        auth = u.path;
      } in
      let after : MerkleTrie F = record { root = u.tree; zeros = m.zeros } in
      record {
        path = path;
        after = after;
        runs = rw (u.runs, top);
        keeps = record { zeros = i.zeros; tree = u.keeps };
        of_root = top;
        of_line = refl;
        verifies = Proves-verify new u.path path.root u.proves;
        lines =
            λ b. rw (u.lines (reverse_bits 32 b), line_at-new_root m i (reverse_bits 32 b)) refl;
      }
