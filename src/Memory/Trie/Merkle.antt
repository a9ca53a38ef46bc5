-- ===== src/Memory/Trie/Merkle.antt =====
-- The Merkle invariant of the trie: every node's digest is the hash of what it holds.
use nexus_zkvm.Base.{
  ℕ, zero, suc, ◌-◌, ◌/◌, ◌%◌, ◌≤◌, ◌<◌, ◌≡◌, refl, ◌∙◌, arith, Bool, true, false, not, List, [],
  ◌∷◌, ◌++◌, ◌==◌, if◌then◌else◌, Bool-cases, inl, inr,
}
use mathlib.Core.List.{append_assoc, append-nil}
use nexus_zkvm.Base.Result.{Result, ok, ◌>>=◌, index, >>=-eq-ok, >>=-ok}
use nexus_zkvm.Memory.CacheLine.{CacheLine, zero_line}
use nexus_zkvm.Memory.Path.{Commitments, cache_log, compress, hash_memory, fold_auth}
use nexus_zkvm.Memory.Trie.{Tree, empty, leaf, branch, child, digest, query_inner}

-- The digests of empty trees by height, and the trie's vector of them by level.
pub record AreZeros {F : Type 0} (c : Commitments F) (zeros : List F) (z : ℕ → F) : Type 0 where
  pub base : hash_memory c zero_line ≡ ok (z 0)
  pub next : (n : ℕ) → n < cache_log → compress c (z n) (z n) ≡ ok (z (suc n))
  pub at_level : (n : ℕ) → n ≤ cache_log → index zeros (cache_log - n) ≡ ok (z n)

module _ {F : Type 0} (z : ℕ → F) where
  -- The digest of a tree of height `n`.
  abbrev pub root_of : ℕ → Tree F → F
  root_of n empty = z n
  root_of n (leaf d cl) = d
  root_of n (branch d l r) = d

module _ {F : Type 0} (c : Commitments F) (z : ℕ → F) where
  -- A tree of height `n` has its leaves at height 0, and each digest is the hash of the line or
  -- of the children's digests.
  abbrev pub IsTrie : ℕ → Tree F → Type 0
  IsTrie n empty = Unit
  IsTrie zero (leaf d cl) = hash_memory c cl ≡ ok d
  IsTrie zero (branch d l r) = ⊥
  IsTrie (suc n) (leaf d cl) = ⊥
  IsTrie (suc n) (branch d l r) =
      IsTrie n l × IsTrie n r × (compress c (root_of z n l) (root_of z n r) ≡ ok d)

-- Which child the bit of an address selects.
abbrev pub goes_left : ℕ → Bool
goes_left addr = addr / 2 % 2 == 0

module _ {F : Type 0} where
  -- The line of a tree of height `n` at an address: zero where nothing is allocated.
  abbrev pub line_at : ℕ → Tree F → ℕ → CacheLine
  line_at n empty addr = zero_line
  line_at zero (leaf d cl) addr = cl
  line_at zero (branch d l r) addr = zero_line
  line_at (suc n) (leaf d cl) addr = zero_line
  line_at (suc n) (branch d l r) addr =
      if goes_left addr then line_at n l (addr / 2) else line_at n r (addr / 2)

module _ {F : Type 0} (c : Commitments F) where
  -- A path folds to a digest from the hash of a line.
  abbrev pub Proves : CacheLine → List (Bool × F) → F → Type 0
  Proves cl auth d = (hash_memory c cl >>= λ h. fold_auth c h auth) ≡ ok d

  -- One more level at the end of a path.
  abbrev pub join : Bool → F → F → Result F
  join true g s = compress c g s
  join false g s = compress c s g

  fold_auth-snoc :
      (h : F) (auth : List (Bool × F)) (b : Bool) (s : F) {g : F}
      → fold_auth c h auth ≡ ok g
      → fold_auth c h (auth ++ (b, s) ∷ []) ≡ join b g s
  unfolding fold_auth
  fold_auth-snoc h [] true s e = simp >>=-ok (cc e)
  fold_auth-snoc h [] false s e = simp >>=-ok (cc e)
  fold_auth-snoc h ((true, d) ∷ auth) b s e =
      let (h', first, rest) = >>=-eq-ok (compress c h d) (λ x. fold_auth c x auth) e in
      rw first (fold_auth-snoc h' auth b s rest)
  fold_auth-snoc h ((false, d) ∷ auth) b s e =
      let (h', first, rest) = >>=-eq-ok (compress c d h) (λ x. fold_auth c x auth) e in
      rw first (fold_auth-snoc h' auth b s rest)

  pub Proves-snoc :
      (cl : CacheLine) (auth : List (Bool × F)) (b : Bool) (s : F) {g d : F}
      → Proves cl auth g
      → join b g s ≡ ok d
      → Proves cl (auth ++ (b, s) ∷ []) d
  Proves-snoc cl auth b s p j =
      let (h, first, rest) = >>=-eq-ok (hash_memory c cl) (λ x. fold_auth c x auth) p in
      rw first (fold_auth-snoc h auth b s rest ∙ j)

module _ {F : Type 0} (c : Commitments F) (zeros : List F) (z : ℕ → F)
    (zs : AreZeros c zeros z) where
  pub digest-root_of :
      (n : ℕ) (t : Tree F) → n ≤ cache_log → digest zeros (cache_log - n) t ≡ ok (root_of z n t)
  unfolding digest
  digest-root_of n empty h = zs.at_level n h
  digest-root_of n (leaf d cl) h = refl
  digest-root_of n (branch d l r) h = refl

  -- What a query returns below a node of height `n`, whose path so far is `auth`.
  abbrev pub Found : ℕ → Tree F → List (Bool × F) → ℕ → Type 0
  Found n t auth addr =
      (path : List (Bool × F)) × (query_inner zeros n t auth addr
        ≡ ok (line_at n t addr, auth ++ path))
      × Proves c (line_at n t addr) path (root_of z n t)

  Found-step :
      (n : ℕ) (t t' s : Tree F) (auth : List (Bool × F)) (addr : ℕ) (b : Bool)
      → n ≤ cache_log
      → goes_left addr ≡ b
      → child t b ≡ ok t'
      → child t (not b) ≡ ok s
      → line_at n t' (addr / 2) ≡ line_at (suc n) t addr
      → join c b (root_of z n t') (root_of z n s) ≡ ok (root_of z (suc n) t)
      → Found n t' auth (addr / 2)
      → Found (suc n) t auth addr
  unfolding query_inner
  Found-step n t t' s auth addr b h left near far line up (path, runs, proves) = (
    path ++ (b, root_of z n s) ∷ [],
    rw (left, near, runs, far, digest-root_of n s h, line, append_assoc),
    rw (← line) (Proves-snoc c (line_at n t' (addr / 2)) path b (root_of z n s) proves up),
  )

  join_zeros : (n : ℕ) (b : Bool) → n < cache_log → join c b (z n) (z n) ≡ ok (z (suc n))
  join_zeros n true h = zs.next n h
  join_zeros n false h = zs.next n h

  -- The path of a query proves the line that it returns, at every height.
  pub query_inner-Found :
      (n : ℕ) (t : Tree F) (auth : List (Bool × F)) (addr : ℕ)
      → n ≤ cache_log
      → IsTrie c z n t
      → Found n t auth addr
  unfolding query_inner fold_auth
  query_inner-Found zero empty auth addr h i = ([], rw append-nil, rw zs.base)
  query_inner-Found zero (leaf d cl) auth addr h i = ([], rw append-nil, rw i)
  query_inner-Found zero (branch d l r) auth addr h i = absurd i
  query_inner-Found (suc n) empty auth addr h i =
      Found-step n empty empty empty auth addr (goes_left addr) (omega arith) refl refl refl refl
        (join_zeros n (goes_left addr) h)
        (query_inner-Found n empty auth (addr / 2) (omega arith) tt)
  query_inner-Found (suc n) (leaf d cl) auth addr h i = absurd i
  query_inner-Found (suc n) (branch d l r) auth addr h (il, ir, up) =
      elim (Bool-cases (goes_left addr)) [
        | inl left ↦
            Found-step n (branch d l r) l r auth addr true (omega arith) left refl refl (rw left) up
              (query_inner-Found n l auth (addr / 2) (omega arith) il)
        | inr right ↦
            Found-step n (branch d l r) r l auth addr false (omega arith) right refl refl (rw right)
              up (query_inner-Found n r auth (addr / 2) (omega arith) ir)
      ]
