-- ===== src/Examples/Shuffles.antt =====
-- A deck of three cards in two levels.
use nexus_zkvm.Base.{
  ℕ, ◌+◌, ◌%◌, ◌==◌, replicate, ◌≡◌, refl, arith, Bool, true, false, List, [], ◌∷◌, take,
}
use mathlib.Core.List.{Perm}
use nexus_zkvm.Shuffle.Level.{build_level}
use nexus_zkvm.Shuffle.Kept.{indices, build_level-perm}
use nexus_zkvm.Base.Result.{ok}
use nexus_zkvm.Shuffle.Witness.{first_rows, witness_of, apply_rs_shuffle_permutation}
use nexus_zkvm.Shuffle.Bits.{
  Sponge, bit_matrix, bit_stream, num_elements_needed, squeeze_each, generate_random_values,
  derive_split_bits,
}
use nexus_zkvm.Shuffle.Output.{rows_after, apply_rs_shuffle_permutation-perm}
use nexus_zkvm.Shuffle.Buckets.{rows_of, split_groups, deal}
use nexus_zkvm.Shuffle.Fits.{All, FitsUnsorted, FitsSorted, build_level-deal}
use nexus_zkvm.Shuffle.Levels.{split_levels, one_bucket, rows_after-split_levels}

abbrev first_bits : List Bool
first_bits = true ∷ false ∷ true ∷ []

abbrev two_levels : List (List Bool)
two_levels = first_bits ∷ (false ∷ true ∷ false ∷ []) ∷ []

rows_after-split_levels_example :
    rows_after (first_rows 3) two_levels 1
    ≡ rows_of (split_levels (one_bucket 3) (take 2 two_levels))
rows_after-split_levels_example =
    rows_after-split_levels 3 two_levels 1 (refl, (refl, tt)) (omega arith)

build_level-deal_example :
    ((build_level (rows_of (one_bucket 3)) first_bits).1
      ≡ rows_of (split_groups (deal (one_bucket 3) first_bits)))
    × All FitsUnsorted (build_level (rows_of (one_bucket 3)) first_bits).0
    × All FitsSorted (build_level (rows_of (one_bucket 3)) first_bits).1
build_level-deal_example =
    build_level-deal (one_bucket 3) first_bits (tt, tt) (omega arith, tt) (omega arith)
      (omega arith)

build_level-perm_example :
    Perm
      (indices (build_level (rows_of (one_bucket 3)) first_bits).1)
      (indices (rows_of (one_bucket 3)))
build_level-perm_example = build_level-perm (rows_of (one_bucket 3)) first_bits refl

-- A sponge over the natural numbers whose elements have 262 bits.
abbrev echo : Sponge ℕ ℕ
echo = record {
  new = 0;
  absorb = λ f s. f + s;
  squeeze_field_elements = λ n s. (replicate n s, s + 1);
  modulus_bit_size = 262;
  get_bit = λ f i. (f + i) % 2 == 1;
}

abbrev full_deck : List ℕ
full_deck = replicate 52 7

echo_bits : derive_split_bits echo 3 ≡ ok (bit_matrix (bit_stream echo (3 ∷ [])), 1)
unfolding derive_split_bits num_elements_needed generate_random_values squeeze_each
echo_bits = refl

apply_rs_shuffle_permutation-perm_example :
    (out : List ℕ) × (apply_rs_shuffle_permutation echo 3 full_deck
      ≡ ok (witness_of 52 (bit_matrix (bit_stream echo (3 ∷ []))), (1, out)))
    × Perm out full_deck
apply_rs_shuffle_permutation-perm_example =
    apply_rs_shuffle_permutation-perm echo 3 full_deck refl echo_bits
