-- ===== src/Shuffle/Fits.antt =====
-- The counters, positions and bucket numbers of a level stay below 2 ^ 16, so no u16 of the source
-- overflows.
use nexus_zkvm.Base.{
  ℕ, ◌+◌, ◌*◌, ◌^◌, ◌≤◌, ◌<◌, ◌≡◌, arith, subst, Bool, true, false, some, List, [], ◌∷◌, ◌++◌, leb,
  if◌then◌else◌, length, map,
}
use nexus_zkvm.Shuffle.{UnsortedRow, SortedRow}
use nexus_zkvm.Shuffle.Buckets.{Buckets, AllIds, AreDistinct, row_of, rows_of, split_groups, deal}
use nexus_zkvm.Shuffle.Counted.{IsCounted, survey-IsCounted, no_stats-IsCounted}
use nexus_zkvm.Shuffle.Refines.{build_level-split_groups}
use nexus_zkvm.Shuffle.Level.{
  Split, Stats, Counters, Placed, zip_bits, count_of, survey, no_stats, no_counters, enter,
  count_bit, same_bucket, unsorted_row, unsorted_rows, sortable, insert_by_pos, sort_by_pos,
  next_row, build_level,
}

abbrev pub All {ℓ} : {A : Type ℓ} → (A → Type 0) → List A → Type 0
All R [] = Unit
All R (x ∷ xs) = R x × All R xs

-- The numbers of a row of either table, but its index.
abbrev pub FitsUnsorted : UnsortedRow → Type 0
FitsUnsorted u =
    (u.num_zeros < 2 ^ 16)
    × (u.num_ones < 2 ^ 16)
    × (u.num_zeros_in_bucket < 2 ^ 16)
    × (u.bucket_length < 2 ^ 16)
    × (u.next_pos < 2 ^ 16)
    × (u.bucket_id < 2 ^ 16)

abbrev pub FitsSorted : SortedRow → Type 0
FitsSorted r = (r.length < 2 ^ 16) × (r.bucket < 2 ^ 16)

-- A bucket that may be split.
abbrev pub IsSplittable : SortedRow → Type 0
IsSplittable r = r.bucket < 2 ^ 15

abbrev IsSplit : Split → Type 0
IsSplit r = IsSplittable r.0

enter-le :
    (c : Counters) (b : ℕ)
    → ((enter c b).num_zeros ≤ c.num_zeros) × ((enter c b).num_ones ≤ c.num_ones)
enter-le c b = by_case (same_bucket c.current_bucket b)
  where
    by_case :
        (t : Bool)
        → ((if t
              then c
              else record { current_bucket = some b; num_zeros = 0; num_ones = 0 }).num_zeros
            ≤ c.num_zeros)
          × ((if t
                then c
                else record { current_bucket = some b; num_zeros = 0; num_ones = 0 }).num_ones
              ≤ c.num_ones)
    by_case true = (omega arith, omega arith)
    by_case false = (omega arith, omega arith)

count_bit-le :
    (c : Counters) (b : Bool)
    → ((count_bit c b).num_zeros ≤ c.num_zeros + 1) × ((count_bit c b).num_ones ≤ c.num_ones + 1)
count_bit-le c true = (omega arith, omega arith)
count_bit-le c false = (omega arith, omega arith)

module _ (s : Stats) (n : ℕ) (small : n ≤ 2 ^ 14) (i : IsCounted s n) where
  unsorted_row-FitsUnsorted :
      (c : Counters) (r : Split)
      → c.num_zeros ≤ n
      → c.num_ones ≤ n
      → IsSplit r
      → FitsUnsorted (unsorted_row s c r)
  unfolding unsorted_row
  unsorted_row-FitsUnsorted c (row, true) hz ho split = (
    omega arith,
    omega arith,
    omega (arith, i.zeros row.bucket),
    omega (arith, i.lengths row.bucket),
    omega (arith, i.starts row.bucket, i.zeros row.bucket),
    omega arith,
  )
  unsorted_row-FitsUnsorted c (row, false) hz ho split = (
    omega arith,
    omega arith,
    omega (arith, i.zeros row.bucket),
    omega (arith, i.lengths row.bucket),
    omega (arith, i.starts row.bucket),
    omega arith,
  )

  unsorted_rows-FitsUnsorted :
      (c : Counters) (rows : List Split)
      → c.num_zeros + length rows ≤ n
      → c.num_ones + length rows ≤ n
      → All IsSplit rows
      → All FitsUnsorted (unsorted_rows s c rows)
  unfolding unsorted_rows
  unsorted_rows-FitsUnsorted c [] hz ho a = tt
  unsorted_rows-FitsUnsorted c (r ∷ rows) hz ho (split, a) =
      let (ez, eo) = enter-le c r.0.bucket in
      let (bz, bo) = count_bit-le (enter c r.0.bucket) r.1 in
      (
        unsorted_row-FitsUnsorted (enter c r.0.bucket) r (omega (arith, ez)) (omega (arith, eo))
            split,
        unsorted_rows-FitsUnsorted (count_bit (enter c r.0.bucket) r.1) rows (omega (arith, ez, bz))
            (omega (arith, eo, bo)) a,
      )

  abbrev IsLow : Placed → Type 0
  IsLow p = p.parent_bucket < 2 ^ 15

  sortable-IsLow :
      (us : List UnsortedRow) (rows : List Split) → All IsSplit rows → All IsLow (sortable us rows)
  unfolding sortable
  sortable-IsLow [] rows a = tt
  sortable-IsLow (u ∷ us) [] a = tt
  sortable-IsLow (u ∷ us) (r ∷ rows) (split, a) = (split, sortable-IsLow us rows a)

  insert_by_pos-IsLow :
      (p : Placed) (ps : List Placed) → IsLow p → All IsLow ps → All IsLow (insert_by_pos p ps)
  insert_by_pos-IsLow p [] h a = (h, tt)
  insert_by_pos-IsLow p (q ∷ qs) h (hq, a) =
      by_case (leb p.next_pos q.next_pos) (insert_by_pos-IsLow p qs h a)
    where
      by_case :
          (t : Bool)
          → All IsLow (insert_by_pos p qs)
          → All IsLow (if t then p ∷ q ∷ qs else q ∷ insert_by_pos p qs)
      by_case true rest = (h, (hq, a))
      by_case false rest = (hq, rest)

  sort_by_pos-IsLow : (ps : List Placed) → All IsLow ps → All IsLow (sort_by_pos ps)
  unfolding sort_by_pos
  sort_by_pos-IsLow [] a = tt
  sort_by_pos-IsLow (p ∷ ps) (h, a) =
      insert_by_pos-IsLow p (sort_by_pos ps) h (sort_by_pos-IsLow ps a)

  next_row-FitsSorted : (ps : List Placed) → All IsLow ps → All FitsSorted (map (next_row s) ps)
  unfolding next_row
  next_row-FitsSorted [] a = tt
  next_row-FitsSorted (p ∷ ps) (h, a) = (by_bit p.bit, next_row-FitsSorted ps a)
    where
      by_bit :
          (t : Bool)
          → ((if t then count_of s.ones p.parent_bucket else count_of s.zeros p.parent_bucket)
              < 2 ^ 16)
            × ((if t then p.parent_bucket * 2 + 1 else p.parent_bucket * 2) < 2 ^ 16)
      by_bit true = (omega (arith, i.ones p.parent_bucket), omega arith)
      by_bit false = (omega (arith, i.zeros p.parent_bucket), omega arith)

zip_bits-IsSplit :
    (rows : List SortedRow) (bits : List Bool)
    → All IsSplittable rows
    → All IsSplit (zip_bits rows bits)
zip_bits-IsSplit [] bits a = tt
zip_bits-IsSplit (r ∷ rows) [] a = tt
zip_bits-IsSplit (r ∷ rows) (b ∷ bits) (h, a) = (h, zip_bits-IsSplit rows bits a)

length-zip_bits :
    (rows : List SortedRow) (bits : List Bool) → length (zip_bits rows bits) ≤ length rows
length-zip_bits [] bits = omega arith
length-zip_bits (r ∷ rows) [] = omega arith
length-zip_bits (r ∷ rows) (b ∷ bits) = omega (arith, length-zip_bits rows bits)

-- Of at most 2 ^ 14 rows in buckets below 2 ^ 15, both tables of a level hold numbers below 2 ^ 16.
build_level-FitsSorted :
    (rows : List SortedRow) (bits : List Bool)
    → length rows ≤ 2 ^ 14
    → All IsSplittable rows
    → All FitsUnsorted (build_level rows bits).0 × All FitsSorted (build_level rows bits).1
unfolding build_level
build_level-FitsSorted rows bits small a =
    let split = zip_bits rows bits in
    let n = length split in
    let le : n ≤ 2 ^ 14 = omega (arith, length-zip_bits rows bits) in
    let s = survey no_stats split in
    let i : IsCounted s n =
      let e : 0 + n ≡ n = omega arith in
      subst (IsCounted s) e (survey-IsCounted no_stats split 0 no_stats-IsCounted) in
    let b = zip_bits-IsSplit rows bits a in
    (
      unsorted_rows-FitsUnsorted s n le i no_counters split (omega arith) (omega arith) b,
      next_row-FitsSorted s n le i
          (sort_by_pos (sortable (unsorted_rows s no_counters split) split))
          (sort_by_pos-IsLow s n le i _
            (sortable-IsLow s n le i (unsorted_rows s no_counters split) split b)),
    )

All-append : {A : Type 0} (R : A → Type 0) (xs ys : List A) → All R xs → All R ys → All R (xs ++ ys)
All-append R [] ys a b = b
All-append R (x ∷ xs) ys (h, a) b = (h, All-append R xs ys a b)

row_of-IsSplittable : (n b : ℕ) (is : List ℕ) → b < 2 ^ 15 → All IsSplittable (map (row_of n b) is)
row_of-IsSplittable n b [] h = tt
row_of-IsSplittable n b (i ∷ is) h = (h, row_of-IsSplittable n b is h)

rows_of-IsSplittable : (bs : Buckets) → AllIds (λ b. b < 2 ^ 15) bs → All IsSplittable (rows_of bs)
rows_of-IsSplittable [] a = tt
rows_of-IsSplittable ((b, is) ∷ bs) (h, a) =
    All-append IsSplittable (map (row_of (length is) b) is) (rows_of bs)
      (row_of-IsSplittable (length is) b is h) (rows_of-IsSplittable bs a)

-- On the table of some buckets with different numbers below 2 ^ 15 and at most 2 ^ 14 rows in all, and
-- at least as many bits as rows, a level leaves the table of the buckets after a stable split by these
-- bits, zeros before ones; every counter, position, length and bucket number of its two tables is below
-- 2 ^ 16.
pub build_level-deal :
    (bs : Buckets) (bits : List Bool)
    → AreDistinct bs
    → AllIds (λ b. b < 2 ^ 15) bs
    → length (rows_of bs) ≤ 2 ^ 14
    → length (rows_of bs) ≤ length bits
    → ((build_level (rows_of bs) bits).1 ≡ rows_of (split_groups (deal bs bits)))
      × All FitsUnsorted (build_level (rows_of bs) bits).0
      × All FitsSorted (build_level (rows_of bs) bits).1
build_level-deal bs bits distinct low small enough =
    let fits = build_level-FitsSorted (rows_of bs) bits small (rows_of-IsSplittable bs low) in
    (build_level-split_groups bs bits distinct enough, fits.0, fits.1)
