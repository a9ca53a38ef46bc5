-- ===== src/Memory/Trie/Update.antt =====
-- An update of the trie keeps the Merkle invariant and changes one line.
use nexus_zkvm.Base.{
  ℕ, zero, suc, ◌/◌, ◌≤◌, ◌≡◌, refl, ◌∙◌, arith, Bool, true, false, List, [], ◌∷◌, ◌++◌,
  if◌then◌else◌, Bool-cases, inl, inr,
}
use mathlib.Core.List.{append_assoc, append-nil}
use nexus_zkvm.Base.Result.{ok}
use nexus_zkvm.Memory.CacheLine.{CacheLine}
use nexus_zkvm.Memory.Path.{Commitments, cache_log, scalars_of, compress, hash_memory, fold_auth}
use nexus_zkvm.Memory.Controller.{LineUpdate}
use nexus_zkvm.Memory.Trie.{Tree, empty, leaf, branch, update_inner, or_new, finish_branch}
use nexus_zkvm.Memory.Trie.Merkle.{
  AreZeros, root_of, IsTrie, goes_left, line_at, Proves, Proves-snoc, digest-root_of,
}

-- The hash functions do not fail: Poseidon is defined on all inputs of these lengths.
pub record IsTotal {F : Type 0} (c : Commitments F) : Type 0 where
  pub hashes : (cl : CacheLine) → (d : F) × (hash_memory c cl ≡ ok d)
  pub compresses : (a b : F) → (d : F) × (compress c a b ≡ ok d)

-- Two addresses that select the same line of a tree of height `n`.
abbrev pub same_key : ℕ → ℕ → ℕ → Bool
same_key zero a b = true
same_key (suc n) a b =
    if goes_left a
    then if goes_left b then same_key n (a / 2) (b / 2) else false
    else if goes_left b
    then false
    else same_key n (a / 2) (b / 2)

module _ {F : Type 0} (c : Commitments F) (zeros : List F) (z : ℕ → F)
    (zs : AreZeros c zeros z) where
  -- An allocated node whose children keep the invariant; its own digest may be out of date.
  abbrev pub IsOpen : ℕ → Tree F → Type 0
  IsOpen n empty = ⊥
  IsOpen zero (leaf d cl) = Unit
  IsOpen zero (branch d l r) = ⊥
  IsOpen (suc n) (leaf d cl) = ⊥
  IsOpen (suc n) (branch d l r) = IsTrie c z n l × IsTrie c z n r

  pub or_new-IsOpen : (n : ℕ) (t : Tree F) → IsTrie c z n t → IsOpen n (or_new c n t)
  or_new-IsOpen zero empty i = tt
  or_new-IsOpen (suc n) empty i = (tt, tt)
  or_new-IsOpen zero (leaf d cl) i = tt
  or_new-IsOpen (suc n) (leaf d cl) i = i
  or_new-IsOpen zero (branch d l r) i = i
  or_new-IsOpen (suc n) (branch d l r) (il, ir, up) = (il, ir)

  pub line_at-or_new : (n : ℕ) (t : Tree F) (a : ℕ) → line_at n (or_new c n t) a ≡ line_at n t a
  line_at-or_new zero empty a = refl
  line_at-or_new (suc n) empty a = ground arith
  line_at-or_new n (leaf d cl) a = refl
  line_at-or_new n (branch d l r) a = refl

  finish_branch-ok :
      (n : ℕ) (d : F) (b : Bool) (l r : Tree F) (sc : F × F) (auth : List (Bool × F)) {h : F}
      → n ≤ cache_log
      → compress c (root_of z n l) (root_of z n r) ≡ ok h
      → finish_branch c zeros n d b l r (ok (sc, auth))
        ≡ (ok (sc, auth ++ (b, root_of z n (if b then r else l)) ∷ []), branch h l r)
  finish_branch-ok n d b l r sc auth le e = rw (
    digest-root_of c zeros z zs n (if b then r else l) le,
    digest-root_of c zeros z zs n l le,
    digest-root_of c zeros z zs n r le,
    e,
  )

  -- What an update below a node leaves behind, where the closure turned the line at the address
  -- into `new`.
  pub record IsUpdated (n : ℕ) (t : Tree F) (auth : List (Bool × F)) (addr : ℕ) (f : LineUpdate)
      (new : CacheLine) : Type 0 where
    pub path : List (Bool × F)
    pub tree : Tree F
    pub runs : update_inner c zeros n t auth addr f ≡ (ok (scalars_of c new, auth ++ path), tree)
    pub keeps : IsTrie c z n tree
    pub proves : Proves c new path (root_of z n tree)
    pub lines : (b : ℕ) → line_at n tree b ≡ (if same_key n addr b then new else line_at n t b)

  module _ (total : IsTotal c) (f : LineUpdate) (new : CacheLine) where
    update_leaf :
        (d : F) (cl : CacheLine) (auth : List (Bool × F)) (addr : ℕ)
        → f cl ≡ (ok tt, new)
        → IsUpdated zero (leaf d cl) auth addr f new
    unfolding update_inner fold_auth
    update_leaf d cl auth addr e =
        let (h, hashed) = total.hashes new in
        record {
          path = [];
          tree = leaf h new;
          runs = rw (e, hashed, append-nil);
          keeps = hashed;
          proves = rw hashed;
          lines = λ b. refl;
        }

    update_left :
        (n : ℕ) (d : F) (l r : Tree F) (auth : List (Bool × F)) (addr : ℕ)
        → n ≤ cache_log
        → IsTrie c z n r
        → goes_left addr ≡ true
        → IsUpdated n (or_new c n l) auth (addr / 2) f new
        → IsUpdated (suc n) (branch d l r) auth addr f new
    unfolding update_inner
    update_left n d l r auth addr le ir left u =
        let (h, up) = total.compresses (root_of z n u.tree) (root_of z n r) in
        record {
          path = u.path ++ (true, root_of z n r) ∷ [];
          tree = branch h u.tree r;
          runs =
              rw (left, u.runs)
                (finish_branch-ok n d true u.tree r (scalars_of c new) (auth ++ u.path) le up
                  ∙ rw append_assoc);
          keeps = (u.keeps, ir, up);
          proves = Proves-snoc c new u.path true (root_of z n r) u.proves up;
          lines = λ b. rw (u.lines (b / 2), line_at-or_new n l (b / 2)) (ground arith);
        }

    update_right :
        (n : ℕ) (d : F) (l r : Tree F) (auth : List (Bool × F)) (addr : ℕ)
        → n ≤ cache_log
        → IsTrie c z n l
        → goes_left addr ≡ false
        → IsUpdated n (or_new c n r) auth (addr / 2) f new
        → IsUpdated (suc n) (branch d l r) auth addr f new
    unfolding update_inner
    update_right n d l r auth addr le il right u =
        let (h, up) = total.compresses (root_of z n l) (root_of z n u.tree) in
        record {
          path = u.path ++ (false, root_of z n l) ∷ [];
          tree = branch h l u.tree;
          runs =
              rw (right, u.runs)
                (finish_branch-ok n d false l u.tree (scalars_of c new) (auth ++ u.path) le up
                  ∙ rw append_assoc);
          keeps = (il, u.keeps, up);
          proves = Proves-snoc c new u.path false (root_of z n l) u.proves up;
          lines = λ b. rw (u.lines (b / 2), line_at-or_new n r (b / 2)) (ground arith);
        }

    -- An update below an allocated node gives it a tree that keeps the invariant, in which only
    -- the line at the address has changed, and a path that proves the new line.
    pub update_inner-IsUpdated :
        (n : ℕ) (t : Tree F) (auth : List (Bool × F)) (addr : ℕ)
        → n ≤ cache_log
        → IsOpen n t
        → f (line_at n t addr) ≡ (ok tt, new)
        → IsUpdated n t auth addr f new
    update_inner-IsUpdated n empty auth addr le i e = absurd i
    update_inner-IsUpdated zero (leaf d cl) auth addr le i e = update_leaf d cl auth addr e
    update_inner-IsUpdated zero (branch d l r) auth addr le i e = absurd i
    update_inner-IsUpdated (suc n) (leaf d cl) auth addr le i e = absurd i
    update_inner-IsUpdated (suc n) (branch d l r) auth addr le (il, ir) e =
        elim (Bool-cases (goes_left addr)) [
          | inl left ↦ update_left n d l r auth addr (omega arith) ir left (
              update_inner-IsUpdated n (or_new c n l) auth (addr / 2) (omega arith)
                (or_new-IsOpen n l il) (rw (line_at-or_new n l (addr / 2)) (rw left at e)))
          | inr right ↦ update_right n d l r auth addr (omega arith) il right (
              update_inner-IsUpdated n (or_new c n r) auth (addr / 2) (omega arith)
                (or_new-IsOpen n r ir) (rw (line_at-or_new n r (addr / 2)) (rw right at e)))
        ]
