-- ===== src/Memory/Trie.antt =====
-- The sparse Merkle trie of cache lines (vm/src/memory/trie.rs).
pub mod Merkle
pub mod Laws
pub mod Start
pub mod Alias
pub mod Lines
pub mod Keys
pub mod Update
use nexus_zkvm.Base.{
  ℕ, zero, suc, ◌+◌, ◌-◌, ◌*◌, ◌/◌, ◌%◌, ◌^◌, Bool, true, false, not, List, [], ◌∷◌, ◌++◌, ◌==◌,
  if◌then◌else◌,
}
use nexus_zkvm.Base.Result.{Result, ok, err, panic, ◌>>=◌, index}
use nexus_zkvm.Memory.CacheLine.{CacheLine, zero_line}
use nexus_zkvm.Memory.Path.{
  Commitments, MerklePath, cache_log, scalars_of, compress, hash_memory, compute_zeros,
}
use nexus_zkvm.Memory.Controller.{LineUpdate, Controller}

-- `Option<Box<Node>>`: `empty` is `None`, and a node carries its digest.
pub data Tree (F : Type 0) : Type 0 where
  empty : Tree F
  leaf : F → CacheLine → Tree F
  branch : F → Tree F → Tree F → Tree F

pub record MerkleTrie (F : Type 0) : Type 0 where
  pub root : Tree F
  pub zeros : List F

-- `u32::reverse_bits`, on the lowest `n` bits.
unfoldable pub reverse_bits : ℕ → ℕ → ℕ
reverse_bits zero x = 0
reverse_bits (suc n) x = x % 2 * 2 ^ n + reverse_bits n (x / 2)

module _ {F : Type 0} where
  -- `Node::leaf`, with the panic of `NodeData::leaf` at an inner node.
  unfoldable pub leaf_of : Tree F → Result CacheLine
  leaf_of empty = ok zero_line
  leaf_of (leaf d cl) = ok cl
  leaf_of (branch d l r) = panic

  -- `Node::child`.
  unfoldable pub child : Tree F → Bool → Result (Tree F)
  child empty is_left = ok empty
  child (leaf d cl) is_left = panic
  child (branch d l r) true = ok l
  child (branch d l r) false = ok r

  -- `MerkleTrie::digest`.
  unfoldable pub digest : List F → ℕ → Tree F → Result F
  digest zeros level empty = index zeros level
  digest zeros level (leaf d cl) = ok d
  digest zeros level (branch d l r) = ok d

  -- `query_inner` with `n` levels to go, that is at level `cache_log - n`.
  unfoldable pub query_inner :
      List F → ℕ → Tree F → List (Bool × F) → ℕ → Result (CacheLine × List (Bool × F))
  unfolding leaf_of child digest
  query_inner zeros zero node auth addr = leaf_of node >>= λ cl. ok (cl, auth)
  query_inner zeros (suc n) node auth addr =
      let is_left = addr / 2 % 2 == 0 in
      child node is_left >>= λ next. query_inner zeros n next auth (addr / 2) >>= λ (cl, auth').
      child node (not is_left) >>= λ sibling.
      digest zeros (cache_log - n) sibling >>= λ d. ok (cl, auth' ++ (is_left, d) ∷ [])

module _ {F : Type 0} (c : Commitments F) where
  -- `MerkleTrie::root`.
  unfoldable pub root_digest : MerkleTrie F → Result F
  unfolding digest
  root_digest m = digest m.zeros 0 m.root

  unfoldable pub query : MerkleTrie F → ℕ → Result (CacheLine × MerklePath F)
  unfolding query_inner root_digest
  query m addr = query_inner m.zeros cache_log m.root [] (reverse_bits 32 addr) >>= λ (cl, auth).
      root_digest m >>= λ r. ok (cl, record { root = r; leaf = scalars_of c cl; auth = auth })

  -- What `Node::descend` allocates, with `n` levels to go below it.
  abbrev pub new_child : ℕ → Tree F
  new_child zero = leaf c.default_digest zero_line
  new_child (suc n) = branch c.default_digest empty empty

  abbrev pub or_new : ℕ → Tree F → Tree F
  or_new n empty = new_child n
  or_new n t = t

  -- The result of an update below a node: the line's scalars and the path so far.
  abbrev pub Updated : Type 0
  Updated = Result ((F × F) × List (Bool × F))

  -- A node gets its new digest if computing it succeeds, and stays as it is otherwise.
  abbrev pub seal : {A : Type 0} → (F → Tree F) → Tree F → Result (A × F) → Result A × Tree F
  seal rebuilt old (ok (a, h)) = (ok a, rebuilt h)
  seal rebuilt old (err e) = (err e, old)
  seal rebuilt old panic = (panic, old)

  -- `update_inner` at a leaf, after the closure has run.
  abbrev pub finish_leaf : F → CacheLine → List (Bool × F) → Result {0} Unit → Updated × Tree F
  finish_leaf d cl auth ran =
      seal (λ h. leaf h cl) (leaf d cl)
        (ran >>= λ _. hash_memory c cl >>= λ h. ok ((scalars_of c cl, auth), h))

  -- `update_inner` at an inner node whose children are `l` and `r` after the recursive call, with
  -- `n` levels to go below it.
  abbrev pub finish_branch : List F → ℕ → F → Bool → Tree F → Tree F → Updated → Updated × Tree F
  finish_branch zeros n d is_left l r res =
      seal (λ h. branch h l r) (branch d l r)
        (res >>= λ (cl, auth). digest zeros (cache_log - n) (if is_left then r else l) >>= λ sd.
          digest zeros (cache_log - n) l >>= λ lh. digest zeros (cache_log - n) r >>= λ rh.
          compress c lh rh >>= λ h. ok ((cl, auth ++ (is_left, sd) ∷ []), h))

  -- `update_inner` with `n` levels to go.
  unfoldable pub update_inner :
      List F → ℕ → Tree F → List (Bool × F) → ℕ → LineUpdate → Updated × Tree F
  unfolding digest
  update_inner zeros zero (leaf d cl) auth addr f = finish_leaf d (f cl).1 auth (f cl).0
  update_inner zeros zero t auth addr f = (panic, t)
  update_inner zeros (suc n) (branch d l r) auth addr f =
      let is_left = addr / 2 % 2 == 0 in
      let below = update_inner zeros n (or_new n (if is_left then l else r)) auth (addr / 2) f in
      finish_branch zeros n d is_left (if is_left then below.1 else l)
        (if is_left then r else below.1) below.0
  update_inner zeros (suc n) t auth addr f = (panic, t)

  abbrev pub new_root : Tree F → Tree F
  new_root empty = branch c.default_digest empty empty
  new_root t = t

  -- `MerkleTrie::update`.
  unfoldable pub update : MerkleTrie F → ℕ → LineUpdate → Result (MerklePath F) × MerkleTrie F
  unfolding update_inner root_digest
  update m addr f =
      let (res, t) = update_inner m.zeros cache_log (new_root m.root) [] (reverse_bits 32 addr) f in
      let m' : MerkleTrie F = record m { root = t } in
      (
        res >>= λ (cl, auth).
            root_digest m' >>= λ r. ok (record { root = r; leaf = cl; auth = auth }),
        m',
      )

  -- `MerkleTrie::default()`.
  unfoldable pub default_trie : Result (MerkleTrie F)
  unfolding compute_zeros
  default_trie = compute_zeros c >>= λ zs. ok (record { root = empty; zeros = zs })

  -- `impl Memory for MerkleTrie`, from a trie that `default_trie` returned.
  abbrev pub merkle_trie : MerkleTrie F → Controller (MerkleTrie F) (MerklePath F)
  merkle_trie start = record {
    initial = start;
    default_proof = record {
      root = c.default_digest;
      leaf = (c.default_digest, c.default_digest);
      auth = [];
    };
    query = query;
    update = update;
  }
