-- ===== src/Memory/Path.antt =====
-- Merkle paths (vm/src/memory/path.rs). The scalar field and the Poseidon hash are third-party
-- code: a value of `Commitments` stands for them.
use nexus_zkvm.Base.{ℕ, zero, suc, Bool, true, false, Option, List, [], ◌∷◌, ◌++◌}
use mathlib.Core.List.{reverse}
use nexus_zkvm.Base.Result.{Result, ok, ◌>>=◌, ok_or, hash_error}
use nexus_zkvm.Memory.CacheLine.{CacheLine, zero_line, scalars}

-- `none` of a hash function is its error.
pub record Commitments (F : Type 0) : Type 0 where
  pub from_le_bytes_mod_order : List ℕ → F
  pub default_digest : F
  pub digest_eq : F → F → Bool
  pub evaluate : F × F → Option F
  pub compress_two : F → F → Option F

abbrev pub cache_bits : ℕ
cache_bits = 5

abbrev pub cache_log : ℕ
cache_log = 27

-- `Path`; the type is `MerklePath` here, since `Path` is a name of the logic.
pub record MerklePath (F : Type 0) : Type 0 where
  pub root : F
  pub leaf : F × F
  pub auth : List (Bool × F)

module _ {F : Type 0} (c : Commitments F) where
  abbrev pub scalars_of : CacheLine → F × F
  scalars_of cl = scalars c.from_le_bytes_mod_order cl

  unfoldable pub hash_leaf : F × F → Result F
  hash_leaf leaf = ok_or (c.evaluate leaf) hash_error

  unfoldable pub compress : F → F → Result F
  compress left right = ok_or (c.compress_two left right) hash_error

  unfoldable pub hash_memory : CacheLine → Result F
  unfolding hash_leaf
  hash_memory cl = hash_leaf (scalars_of cl)

  -- The inner `f` of `compute_zeros`: the digest of an empty tree of height `n`, with those of
  -- the smaller ones pushed onto `v`.
  unfoldable pub push_zeros : List F → ℕ → Result (F × List F)
  push_zeros v zero = hash_memory zero_line >>= λ d. ok (d, v)
  push_zeros v (suc n) = push_zeros v n >>= λ (d, v'). compress d d >>= λ e. ok (e, v' ++ d ∷ [])

  unfoldable pub compute_zeros : Result (List F)
  unfolding push_zeros
  compute_zeros = push_zeros [] cache_log >>= λ (root, v). ok (reverse (v ++ root ∷ []))

  -- The loop of `Path::verify`.
  unfoldable pub fold_auth : F → List (Bool × F) → Result F
  fold_auth hash [] = ok hash
  fold_auth hash ((true, s) ∷ auth) = compress hash s >>= λ h. fold_auth h auth
  fold_auth hash ((false, s) ∷ auth) = compress s hash >>= λ h. fold_auth h auth

  unfoldable pub verify : MerklePath F → Result Bool
  unfolding fold_auth
  verify p = hash_leaf p.leaf >>= λ h. fold_auth h p.auth >>= λ r. ok (c.digest_eq p.root r)
