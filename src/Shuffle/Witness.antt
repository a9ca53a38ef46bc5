-- ===== src/Shuffle/Witness.antt =====
-- All levels of the shuffle: `prepare_witness_data` and `apply_rs_shuffle_permutation`
-- (nova/src/shuffling/rs_shuffle/witness_preparation.rs).
use nexus_zkvm.Base.{ℕ, ◌-◌, Bool, List, [], ◌∷◌, get_or, map}
use nexus_zkvm.Base.Result.{Result, ok, ◌>>=◌, index}
use nexus_zkvm.Shuffle.{deck_size, levels, UnsortedRow, SortedRow, WitnessData}
use nexus_zkvm.Shuffle.Bits.{Sponge, tabulate, derive_split_bits}
use nexus_zkvm.Shuffle.Level.{build_level}

-- Level 0 has one bucket of full length.
abbrev pub first_rows : ℕ → List SortedRow
first_rows n = tabulate 0 n (λ i. record { idx = i; length = n; bucket = 0 })

-- The `scan`: each level starts from the rows that the one before left.
unfoldable pub run_levels :
    List SortedRow → List (List Bool) → List (List UnsortedRow × List SortedRow)
run_levels prev [] = []
run_levels prev (bits ∷ rest) = let level = build_level prev bits in level ∷ run_levels level.1 rest

abbrev pub witness_of : ℕ → List (List Bool) → WitnessData
witness_of n mat = record {
  bits_mat = mat;
  uns_levels = map (λ (l : List UnsortedRow × List SortedRow). l.0) (run_levels (first_rows n) mat);
  next_levels =
      map (λ (l : List UnsortedRow × List SortedRow). l.1) (run_levels (first_rows n) mat);
}

-- The last level's indices, applied to the input.
unfoldable pub gather {ℓ} : {A : Type ℓ} → List A → List SortedRow → Result (List A)
gather input [] = ok []
gather input (r ∷ rs) = index input r.idx >>= λ a. gather input rs >>= λ rest. ok (a ∷ rest)

module _ {F S : Type 0} (sponge : Sponge F S) where
  unfoldable pub prepare_witness_data : F → Result (WitnessData × ℕ)
  unfolding run_levels
  prepare_witness_data seed =
      derive_split_bits sponge seed >>= λ (mat, n). ok (witness_of deck_size mat, n)

  unfoldable pub apply_rs_shuffle_permutation {ℓ} :
      {A : Type ℓ} → F → List A → Result (WitnessData × (ℕ × List A))
  unfolding prepare_witness_data gather
  apply_rs_shuffle_permutation seed input = prepare_witness_data seed >>= λ (w, n).
      gather input (get_or w.next_levels (levels - 1) []) >>= λ out. ok (w, (n, out))
