-- ===== src/Shuffle.antt =====
-- The shuffle by repeated stable splits (nova/src/shuffling/rs_shuffle): its constants and the rows
-- of its witness tables (mod.rs and data_structures.rs). Numbers of type u16 are natural
-- numbers: with 52 rows and 32 buckets at most they stay below 2 ^ 16 (Fits).
pub mod Level
pub mod Bits
pub mod Witness
pub mod Kept
pub mod Output
pub mod Buckets
pub mod Sorting
pub mod Survey
pub mod Known
pub mod Refines
pub mod Counted
pub mod Fits
pub mod Levels
use nexus_zkvm.Base.{ℕ, ◌*◌, Bool, List}

-- `N`, `LEVELS` and `BITS_NEED`.
abbrev pub deck_size : ℕ
deck_size = 52

abbrev pub levels : ℕ
levels = 5

abbrev pub bits_need : ℕ
bits_need = deck_size * levels

pub record UnsortedRow : Type 0 where
  pub bit : Bool
  pub num_zeros : ℕ
  pub num_ones : ℕ
  pub num_zeros_in_bucket : ℕ
  pub bucket_length : ℕ
  pub idx : ℕ
  pub next_pos : ℕ
  pub bucket_id : ℕ

pub record SortedRow : Type 0 where
  pub idx : ℕ
  pub length : ℕ
  pub bucket : ℕ

-- Arrays are lists here.
pub record WitnessData : Type 0 where
  pub bits_mat : List (List Bool)
  pub uns_levels : List (List UnsortedRow)
  pub next_levels : List (List SortedRow)
