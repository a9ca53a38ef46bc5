-- ===== src/Shuffle/Refines.antt =====
-- `build_level` splits whole buckets.
use mathlib.Core.List.{append_assoc, map-append}
use native.Mathlib.Nat.{add-zero}
use nexus_zkvm.Base.{
  ℕ, suc, ◌+◌, ◌*◌, ◌≤◌, ◌<◌, ◌≡◌, refl, sym, ap, ◌∙◌, arith, Bool, true, false, none, some, List,
  [], ◌∷◌, ◌++◌, ==_ne, ==_refl, length, map,
}
use nexus_zkvm.Shuffle.Level.{
  Split, Stats, Counters, Placed, count_of, survey, no_stats, no_counters, same_bucket,
  unsorted_rows, unsorted_row, sortable, sort_by_pos, next_row, build_level,
}
use nexus_zkvm.Shuffle.Buckets.{
  Items, Groups, Buckets, zeros_of, ones_of, split_of, splits_of, row_of, rows_of, split_groups,
  deal, AllIds, IsFresh, AreDistinct, zip_bits-rows_of, AreDistinct-deal,
}
use nexus_zkvm.Shuffle.Sorting.{
  place_all, place_from, AreAbove, AreBelow, sort_by_pos-append, sort_by_pos-place_all,
}
use nexus_zkvm.Shuffle.Known.{Knows, survey-Knows}

-- The rows of all buckets with their next positions, in the order of the table and sorted.
abbrev place_groups : ℕ → Groups → List Placed
place_groups pos [] = []
place_groups pos ((b, items) ∷ g) =
    place_all b pos (length (zeros_of items)) 0 0 items ++ place_groups (pos + length items) g

abbrev sorted_groups : ℕ → Groups → List Placed
sorted_groups pos [] = []
sorted_groups pos ((b, items) ∷ g) =
    (place_from b false pos (zeros_of items)
      ++ place_from b true (pos + length (zeros_of items)) (ones_of items))
    ++ sorted_groups (pos + length items) g

abbrev at_bucket : ℕ → ℕ → ℕ → Counters
at_bucket b z o = record { current_bucket = some b; num_zeros = z; num_ones = o }

module _ (s : Stats) where
  abbrev placed_rows : Counters → List Split → List Placed
  placed_rows c rows = sortable (unsorted_rows s c rows) rows

  -- The rows of a bucket, once it has been entered.
  placed_rows-at_bucket :
      (n b start total z o : ℕ) (items : Items) (rest : List Split)
      → count_of s.zeros b ≡ total
      → (0 < length items → count_of s.starts b ≡ start)
      → placed_rows (at_bucket b z o) (map (split_of n b) items ++ rest)
        ≡ place_all b start total z o items
          ++ placed_rows
              (at_bucket b (z + length (zeros_of items)) (o + length (ones_of items)))
              rest
  unfolding unsorted_rows unsorted_row sortable
  placed_rows-at_bucket n b start total z o [] rest hz hs = rw (add-zero, add-zero) refl
  placed_rows-at_bucket n b start total z o ((i, false) ∷ items) rest hz hs =
      let start_eq = hs (omega arith) in
      let rec = placed_rows-at_bucket n b start total (z + 1) o items rest hz (λ _. start_eq) in
      let shift : z + 1 + length (zeros_of items) ≡ z + suc (length (zeros_of items)) =
        omega arith in
      rw (==_refl b, start_eq, rec, shift) refl
  placed_rows-at_bucket n b start total z o ((i, true) ∷ items) rest hz hs =
      let start_eq = hs (omega arith) in
      let rec = placed_rows-at_bucket n b start total z (o + 1) items rest hz (λ _. start_eq) in
      let shift : o + 1 + length (ones_of items) ≡ o + suc (length (ones_of items)) = omega arith in
      rw (==_refl b, start_eq, hz, rec, shift) refl

  -- Entering a bucket that the counters do not stand at.
  placed_rows-enter :
      (n b : ℕ) (c : Counters) (i : ℕ) (bit : Bool) (rows : List Split)
      → same_bucket c.current_bucket b ≡ false
      → placed_rows c (split_of n b (i, bit) ∷ rows)
        ≡ placed_rows (at_bucket b 0 0) (split_of n b (i, bit) ∷ rows)
  unfolding unsorted_rows unsorted_row sortable
  placed_rows-enter n b c i bit rows h = rw (h, ==_refl b) refl

  leave : (b z o : ℕ) (g : Groups) → IsFresh b g → AllIds (λ d. same_bucket (some b) d ≡ false) g
  leave b z o [] f = tt
  leave b z o ((d, items) ∷ g) (ne, f) = (==_ne b d (λ e. ne (sym e)), leave b z o g f)

  placed_rows-groups :
      (pos : ℕ) (c : Counters) (g : Groups)
      → AllIds (λ d. same_bucket c.current_bucket d ≡ false) g
      → AreDistinct g
      → Knows
          (record { zeros = count_of s.zeros; ones = count_of s.ones; starts = count_of s.starts })
          pos
          g
      → placed_rows c (splits_of g) ≡ place_groups pos g
  unfolding unsorted_rows sortable
  placed_rows-groups pos c [] new d known = refl
  placed_rows-groups pos c ((b, []) ∷ g) (n, new) (f, d) (hz, ho, hs, known) =
      placed_rows-groups (pos + 0) c g new d known
  placed_rows-groups pos c ((b, (i, bit) ∷ items) ∷ g) (n, new) (f, d) (hz, ho, hs, known) =
      let all = (i, bit) ∷ items in
      let zs = length (zeros_of all) in
      let os = length (ones_of all) in
      placed_rows-enter (length all) b c i bit (map (split_of (length all) b) items ++ splits_of g)
        n
      ∙ placed_rows-at_bucket (length all) b pos zs 0 0 all (splits_of g) hz hs
      ∙ ap (λ l. place_all b pos zs 0 0 all ++ l)
          (placed_rows-groups (pos + length all) (at_bucket b (0 + zs) (0 + os)) g
            (leave b (0 + zs) (0 + os) g f) d known)

length-split : (items : Items) → length (zeros_of items) + length (ones_of items) ≡ length items
length-split [] = refl
length-split ((i, false) ∷ items) = omega (arith, length-split items)
length-split ((i, true) ∷ items) = omega (arith, length-split items)

AreBelow-place_all :
    (b start total z o n : ℕ) (items : Items)
    → z + length (zeros_of items) ≤ total
    → total + o + length (ones_of items) ≤ n
    → AreBelow (start + n) (place_all b start total z o items)
AreBelow-place_all b start total z o n [] hz hn = tt
AreBelow-place_all b start total z o n ((i, false) ∷ items) hz hn =
    (omega arith, AreBelow-place_all b start total (z + 1) o n items (omega arith) hn)
AreBelow-place_all b start total z o n ((i, true) ∷ items) hz hn =
    (omega arith, AreBelow-place_all b start total z (o + 1) n items hz (omega arith))

AreAbove-append-place_all :
    (m b start total z o : ℕ) (items : Items) (ps : List Placed)
    → m ≤ start
    → AreAbove m ps
    → AreAbove m (place_all b start total z o items ++ ps)
AreAbove-append-place_all m b start total z o [] ps h a = a
AreAbove-append-place_all m b start total z o ((i, false) ∷ items) ps h a =
    (omega arith, AreAbove-append-place_all m b start total (z + 1) o items ps h a)
AreAbove-append-place_all m b start total z o ((i, true) ∷ items) ps h a =
    (omega arith, AreAbove-append-place_all m b start total z (o + 1) items ps h a)

AreAbove-place_groups : (m pos : ℕ) (g : Groups) → m ≤ pos → AreAbove m (place_groups pos g)
AreAbove-place_groups m pos [] h = tt
AreAbove-place_groups m pos ((b, items) ∷ g) h =
    AreAbove-append-place_all m b pos (length (zeros_of items)) 0 0 items
      (place_groups (pos + length items) g) h
      (AreAbove-place_groups m (pos + length items) g (omega arith))

sort_by_pos-bucket :
    (b pos : ℕ) (items : Items)
    → sort_by_pos (place_all b pos (length (zeros_of items)) 0 0 items)
      ≡ place_from b false pos (zeros_of items)
        ++ place_from b true (pos + length (zeros_of items)) (ones_of items)
sort_by_pos-bucket b pos items =
    let zs = length (zeros_of items) in
    let first : pos + 0 ≡ pos = omega arith in
    let second : pos + (zs + 0) ≡ pos + zs = omega arith in
    sort_by_pos-place_all b pos zs 0 0 items (omega arith) ∙ rw (first, second) refl

sort_by_pos-groups : (pos : ℕ) (g : Groups) → sort_by_pos (place_groups pos g) ≡ sorted_groups pos g
unfolding sort_by_pos
sort_by_pos-groups pos [] = refl
sort_by_pos-groups pos ((b, items) ∷ g) =
    let zs = length (zeros_of items) in
    let n = length items in
    sort_by_pos-append (pos + n) (place_all b pos zs 0 0 items) (place_groups (pos + n) g)
      (AreBelow-place_all b pos zs 0 0 n items (omega arith) (omega (arith, length-split items)))
      (AreAbove-place_groups (pos + n) (pos + n) g (omega arith))
    ∙ rw (sort_by_pos-bucket b pos items, sort_by_pos-groups (pos + n) g) refl

module _ (s : Stats) where
  map-next_row-zeros :
      (b pos n : ℕ) (is : List ℕ)
      → count_of s.zeros b ≡ n
      → map (next_row s) (place_from b false pos is) ≡ map (row_of n (b * 2)) is
  unfolding next_row
  map-next_row-zeros b pos n [] h = refl
  map-next_row-zeros b pos n (i ∷ is) h = rw (h, map-next_row-zeros b (pos + 1) n is h) refl

  map-next_row-ones :
      (b pos n : ℕ) (is : List ℕ)
      → count_of s.ones b ≡ n
      → map (next_row s) (place_from b true pos is) ≡ map (row_of n (b * 2 + 1)) is
  unfolding next_row
  map-next_row-ones b pos n [] h = refl
  map-next_row-ones b pos n (i ∷ is) h = rw (h, map-next_row-ones b (pos + 1) n is h) refl

  map-next_row-groups :
      (pos : ℕ) (g : Groups)
      → Knows
          (record { zeros = count_of s.zeros; ones = count_of s.ones; starts = count_of s.starts })
          pos
          g
      → map (next_row s) (sorted_groups pos g) ≡ rows_of (split_groups g)
  map-next_row-groups pos [] known = refl
  map-next_row-groups pos ((b, items) ∷ g) (hz, ho, hs, known) =
      let zs = length (zeros_of items) in
      rw
        (
          map-append,
          map-append,
          map-next_row-zeros b pos zs (zeros_of items) hz,
          map-next_row-ones b (pos + zs) (length (ones_of items)) (ones_of items) ho,
          map-next_row-groups (pos + length items) g known,
          append_assoc,
        )
        refl

none_new : (g : Groups) → AllIds (λ d. same_bucket none d ≡ false) g
none_new [] = tt
none_new ((b, items) ∷ g) = (refl, none_new g)

pub build_level-split_groups :
    (bs : Buckets) (bits : List Bool)
    → AreDistinct bs
    → length (rows_of bs) ≤ length bits
    → (build_level (rows_of bs) bits).1 ≡ rows_of (split_groups (deal bs bits))
unfolding build_level
build_level-split_groups bs bits distinct enough =
    let g = deal bs bits in
    let known = survey-Knows g (AreDistinct-deal bs bits distinct) in
    let s = survey no_stats (splits_of g) in
    rw
      (
        zip_bits-rows_of bs bits enough,
        placed_rows-groups s 0 no_counters g (none_new g) (AreDistinct-deal bs bits distinct) known,
        sort_by_pos-groups 0 g,
      )
      (map-next_row-groups s 0 g known)
