-- ===== src/Shuffle/Sorting.antt =====
-- Sorting the rows of a bucket by their next positions splits it.
use nexus_zkvm.Base.{
  ℕ, ◌+◌, ◌≤◌, ◌<◌, ◌≡◌, refl, ap, ◌∙◌, arith, Bool, true, false, List, [], ◌∷◌, ◌++◌, length,
}
use nexus_zkvm.Shuffle.Level.{Placed, insert_by_pos, sort_by_pos}
use nexus_zkvm.Shuffle.Buckets.{Items, zeros_of, ones_of}

abbrev place : ℕ → ℕ → Bool → ℕ → Placed
place b i bit pos = record { next_pos = pos; idx = i; bit = bit; parent_bucket = b }

-- The rows of bucket `b` from `start` on, whose zeros number `total`, after `z` zeros and `o` ones.
abbrev pub place_all : ℕ → ℕ → ℕ → ℕ → ℕ → Items → List Placed
place_all b start total z o [] = []
place_all b start total z o ((i, false) ∷ rest) =
    place b i false (start + z) ∷ place_all b start total (z + 1) o rest
place_all b start total z o ((i, true) ∷ rest) =
    place b i true (start + (total + o)) ∷ place_all b start total z (o + 1) rest

-- Rows one after the other.
abbrev pub place_from : ℕ → Bool → ℕ → List ℕ → List Placed
place_from b bit pos [] = []
place_from b bit pos (i ∷ is) = place b i bit pos ∷ place_from b bit (pos + 1) is

-- Every next position is at least `n`.
abbrev pub AreAbove : ℕ → List Placed → Type 0
AreAbove n [] = Unit
AreAbove n (p ∷ ps) = (n ≤ p.next_pos) × AreAbove n ps

-- Every next position is below `n`.
abbrev pub AreBelow : ℕ → List Placed → Type 0
AreBelow n [] = Unit
AreBelow n (p ∷ ps) = (p.next_pos < n) × AreBelow n ps

insert_by_pos-first :
    (p : Placed) (ps : List Placed) → AreAbove p.next_pos ps → insert_by_pos p ps ≡ p ∷ ps
insert_by_pos-first p [] h = refl
insert_by_pos-first p (q ∷ qs) (le, h) = ground arith

insert_by_pos-after :
    (p : Placed) (ps qs : List Placed)
    → AreBelow p.next_pos ps
    → AreAbove p.next_pos qs
    → insert_by_pos p (ps ++ qs) ≡ ps ++ p ∷ qs
insert_by_pos-after p [] qs b a = insert_by_pos-first p qs a
insert_by_pos-after p (q ∷ ps) qs (lt, b) a = ground (arith, insert_by_pos-after p ps qs b a)

insert_by_pos-append :
    (p : Placed) (ps qs : List Placed)
    → AreAbove p.next_pos qs
    → insert_by_pos p (ps ++ qs) ≡ insert_by_pos p ps ++ qs
insert_by_pos-append p [] qs a = insert_by_pos-first p qs a
insert_by_pos-append p (q ∷ ps) qs a = ground (arith, insert_by_pos-append p ps qs a)

AreAbove-weaken : (m n : ℕ) (ps : List Placed) → m ≤ n → AreAbove n ps → AreAbove m ps
AreAbove-weaken m n [] h a = tt
AreAbove-weaken m n (p ∷ ps) h (le, a) = (omega arith, AreAbove-weaken m n ps h a)

AreAbove-append :
    (n : ℕ) (ps qs : List Placed) → AreAbove n ps → AreAbove n qs → AreAbove n (ps ++ qs)
AreAbove-append n [] qs a b = b
AreAbove-append n (p ∷ ps) qs (le, a) b = (le, AreAbove-append n ps qs a b)

AreAbove-insert :
    (n : ℕ) (p : Placed) (ps : List Placed)
    → n ≤ p.next_pos
    → AreAbove n ps
    → AreAbove n (insert_by_pos p ps)
AreAbove-insert n p [] h a = (h, tt)
AreAbove-insert n p (q ∷ qs) h (le, a) = ground (arith, AreAbove-insert n p qs h a)

AreAbove-sort : (n : ℕ) (ps : List Placed) → AreAbove n ps → AreAbove n (sort_by_pos ps)
unfolding sort_by_pos
AreAbove-sort n [] a = tt
AreAbove-sort n (p ∷ ps) (le, a) = AreAbove-insert n p (sort_by_pos ps) le (AreAbove-sort n ps a)

-- Rows that all come before others are sorted by themselves.
pub sort_by_pos-append :
    (n : ℕ) (ps qs : List Placed)
    → AreBelow n ps
    → AreAbove n qs
    → sort_by_pos (ps ++ qs) ≡ sort_by_pos ps ++ sort_by_pos qs
unfolding sort_by_pos
sort_by_pos-append n [] qs b a = refl
sort_by_pos-append n (p ∷ ps) qs (lt, b) a =
    ap (insert_by_pos p) (sort_by_pos-append n ps qs b a)
    ∙ insert_by_pos-append p (sort_by_pos ps) (sort_by_pos qs)
        (AreAbove-weaken p.next_pos n (sort_by_pos qs) (omega arith) (AreAbove-sort n qs a))

AreAbove-place_from :
    (b : ℕ) (bit : Bool) (n pos : ℕ) (is : List ℕ) → n ≤ pos → AreAbove n (place_from b bit pos is)
AreAbove-place_from b bit n pos [] h = tt
AreAbove-place_from b bit n pos (i ∷ is) h =
    (h, AreAbove-place_from b bit n (pos + 1) is (omega arith))

AreBelow-place_from :
    (b : ℕ) (bit : Bool) (n pos : ℕ) (is : List ℕ)
    → pos + length is ≤ n
    → AreBelow n (place_from b bit pos is)
AreBelow-place_from b bit n pos [] h = tt
AreBelow-place_from b bit n pos (i ∷ is) h =
    (omega arith, AreBelow-place_from b bit n (pos + 1) is (omega arith))

-- A bucket's rows, sorted: its zeros from `start + z` on, then its ones.
pub sort_by_pos-place_all :
    (b start total z o : ℕ) (items : Items)
    → z + length (zeros_of items) ≤ total
    → sort_by_pos (place_all b start total z o items)
      ≡ place_from b false (start + z) (zeros_of items)
        ++ place_from b true (start + (total + o)) (ones_of items)
unfolding sort_by_pos
sort_by_pos-place_all b start total z o [] h = refl
sort_by_pos-place_all b start total z o ((i, false) ∷ rest) h =
    let rec = sort_by_pos-place_all b start total (z + 1) o rest (omega arith) in
    let shift : start + (z + 1) ≡ start + z + 1 = omega arith in
    rw (rec, shift)
      (insert_by_pos-first (place b i false (start + z)) _ (
        AreAbove-append (start + z) _ _
          (AreAbove-place_from b false (start + z) (start + z + 1) (zeros_of rest) (omega arith))
          (AreAbove-place_from b true (start + z) (start + (total + o)) (ones_of rest)
            (omega arith))))
sort_by_pos-place_all b start total z o ((i, true) ∷ rest) h =
    let rec = sort_by_pos-place_all b start total z (o + 1) rest (omega arith) in
    let shift : start + (total + (o + 1)) ≡ start + (total + o) + 1 = omega arith in
    rw (rec, shift)
      (insert_by_pos-after (place b i true (start + (total + o))) _ _
        (AreBelow-place_from b false (start + (total + o)) (start + z) (zeros_of rest)
          (omega arith))
        (AreAbove-place_from b true (start + (total + o)) (start + (total + o) + 1) (ones_of rest)
          (omega arith)))
