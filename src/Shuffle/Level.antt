-- ===== src/Shuffle/Level.antt =====
-- One level of the shuffle: `build_level` (nova/src/shuffling/rs_shuffle/witness_preparation.rs). The
-- source's u16 numbers are natural numbers here, which is what they are for tables of at most 2 ^ 14
-- rows in buckets below 2 ^ 15 (Shuffle/Fits); on others the source may overflow.
use mathlib.Core.Option
use nexus_zkvm.Base.{
  ℕ, ◌+◌, ◌*◌, Bool, true, false, Option, none, some, List, [], ◌∷◌, leb, ◌==◌, if◌then◌else◌, map,
}
use nexus_zkvm.Base.Assoc.{Assoc, lookup, insert}
use nexus_zkvm.Shuffle.{UnsortedRow, SortedRow}

-- A row with its split bit; `zip` stops at the shorter list.
abbrev pub Split : Type 0
Split = SortedRow × Bool

abbrev pub zip_bits : List SortedRow → List Bool → List Split
zip_bits [] bits = []
zip_bits (r ∷ rs) [] = []
zip_bits (r ∷ rs) (b ∷ bs) = (r, b) ∷ zip_bits rs bs

-- What the first pass knows of the buckets.
pub record Stats : Type 0 where
  pub zeros : Assoc ℕ
  pub ones : Assoc ℕ
  pub starts : Assoc ℕ
  pub lengths : Assoc ℕ
  pub current_pos : ℕ

-- `*map.get(&bucket).unwrap_or(&0)`.
abbrev pub count_of : Assoc ℕ → ℕ → ℕ
count_of m b = Option.get_or (lookup m b) 0

-- `*map.entry(bucket).or_insert(0) += 1`.
unfoldable pub bump : Assoc ℕ → ℕ → Assoc ℕ
bump m b = insert m b (count_of m b + 1)

-- `map.entry(bucket).or_insert(v)`, on what the map has for the bucket.
abbrev pub or_insert_at : Assoc ℕ → ℕ → ℕ → Option ℕ → Assoc ℕ
or_insert_at m b v none = insert m b v
or_insert_at m b v (some old) = m

abbrev pub or_insert : Assoc ℕ → ℕ → ℕ → Assoc ℕ
or_insert m b v = or_insert_at m b v (lookup m b)

-- The body of the first pass.
unfoldable pub observe : Stats → Split → Stats
unfolding bump
observe s (row, bit) = record {
  zeros = if bit then s.zeros else bump s.zeros row.bucket;
  ones = if bit then bump s.ones row.bucket else s.ones;
  starts = or_insert s.starts row.bucket s.current_pos;
  lengths = bump s.lengths row.bucket;
  current_pos = s.current_pos + 1;
}

unfoldable pub survey : Stats → List Split → Stats
unfolding observe
survey s [] = s
survey s (r ∷ rs) = survey (observe s r) rs

abbrev pub no_stats : Stats
no_stats = record { zeros = []; ones = []; starts = []; lengths = []; current_pos = 0 }

-- The running counters of the second pass.
pub record Counters : Type 0 where
  pub current_bucket : Option ℕ
  pub num_zeros : ℕ
  pub num_ones : ℕ

abbrev pub same_bucket : Option ℕ → ℕ → Bool
same_bucket none b = false
same_bucket (some c) b = c == b

-- The counters are reset on entering a new bucket.
abbrev pub enter : Counters → ℕ → Counters
enter c b =
    if same_bucket c.current_bucket b
    then c
    else record { current_bucket = some b; num_zeros = 0; num_ones = 0 }

abbrev pub count_bit : Counters → Bool → Counters
count_bit c false = record c { num_zeros = c.num_zeros + 1 }
count_bit c true = record c { num_ones = c.num_ones + 1 }

-- The row of the unsorted table, with the counters after `enter`.
unfoldable pub unsorted_row : Stats → Counters → Split → UnsortedRow
unsorted_row s c (row, bit) = record {
  bit = bit;
  num_zeros = c.num_zeros;
  num_ones = c.num_ones;
  num_zeros_in_bucket = count_of s.zeros row.bucket;
  bucket_length = count_of s.lengths row.bucket;
  idx = row.idx;
  next_pos =
      count_of s.starts row.bucket
      + (if bit then count_of s.zeros row.bucket + c.num_ones else c.num_zeros);
  bucket_id = row.bucket;
}

-- The second pass.
unfoldable pub unsorted_rows : Stats → Counters → List Split → List UnsortedRow
unfolding unsorted_row
unsorted_rows s c [] = []
unsorted_rows s c (r ∷ rs) =
    unsorted_row s (enter c r.0.bucket) r ∷ unsorted_rows s (count_bit (enter c r.0.bucket) r.1) rs

abbrev pub no_counters : Counters
no_counters = record { current_bucket = none; num_zeros = 0; num_ones = 0 }

-- `(uns.next_pos, row.idx, *bit, row.bucket)`.
pub record Placed : Type 0 where
  pub next_pos : ℕ
  pub idx : ℕ
  pub bit : Bool
  pub parent_bucket : ℕ

abbrev pub placed : UnsortedRow → Split → Placed
placed u (row, bit) = record {
  next_pos = u.next_pos;
  idx = row.idx;
  bit = bit;
  parent_bucket = row.bucket;
}

unfoldable pub sortable : List UnsortedRow → List Split → List Placed
sortable [] rs = []
sortable (u ∷ us) [] = []
sortable (u ∷ us) (r ∷ rs) = placed u r ∷ sortable us rs

-- `sort_by_key`, which is stable: an earlier element comes before one with an equal key.
abbrev pub insert_by_pos : Placed → List Placed → List Placed
insert_by_pos p [] = p ∷ []
insert_by_pos p (q ∷ qs) = if leb p.next_pos q.next_pos then p ∷ q ∷ qs else q ∷ insert_by_pos p qs

unfoldable pub sort_by_pos : List Placed → List Placed
sort_by_pos [] = []
sort_by_pos (p ∷ ps) = insert_by_pos p (sort_by_pos ps)

-- The bucket and its length follow from the parent bucket and the bit.
unfoldable pub next_row : Stats → Placed → SortedRow
next_row s p = record {
  idx = p.idx;
  length = if p.bit then count_of s.ones p.parent_bucket else count_of s.zeros p.parent_bucket;
  bucket = if p.bit then p.parent_bucket * 2 + 1 else p.parent_bucket * 2;
}

unfoldable pub build_level : List SortedRow → List Bool → List UnsortedRow × List SortedRow
unfolding survey unsorted_rows sortable sort_by_pos next_row
build_level prev bits =
    let rows = zip_bits prev bits in
    let s = survey no_stats rows in
    let unsorted = unsorted_rows s no_counters rows in
    (unsorted, map (next_row s) (sort_by_pos (sortable unsorted rows)))
