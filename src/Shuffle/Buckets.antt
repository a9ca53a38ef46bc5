-- ===== src/Shuffle/Buckets.antt =====
-- The shuffle on whole buckets: each is split into those with bit 0 and those with bit 1, in order.
use nexus_zkvm.Base.{
  ℕ, suc, ◌+◌, ◌*◌, ◌≤◌, ◌≡◌, ◌≢◌, refl, ap, arith, Bool, true, false, List, [], ◌∷◌, ◌++◌, length,
  map, drop, length-append, length-map, length-drop,
}
use nexus_zkvm.Shuffle.{SortedRow}
use nexus_zkvm.Shuffle.Level.{Split, zip_bits}

-- A bucket's number and the indices in it.
abbrev pub Buckets : Type 0
Buckets = List (ℕ × List ℕ)

-- The indices of a bucket with their bits.
abbrev pub Items : Type 0
Items = List (ℕ × Bool)

abbrev pub Groups : Type 0
Groups = List (ℕ × Items)

abbrev pub zeros_of : Items → List ℕ
zeros_of [] = []
zeros_of ((i, false) ∷ rest) = i ∷ zeros_of rest
zeros_of ((i, true) ∷ rest) = zeros_of rest

abbrev pub ones_of : Items → List ℕ
ones_of [] = []
ones_of ((i, false) ∷ rest) = ones_of rest
ones_of ((i, true) ∷ rest) = i ∷ ones_of rest

-- One level: bucket b becomes the buckets 2 b and 2 b + 1.
abbrev pub split_groups : Groups → Buckets
split_groups [] = []
split_groups ((b, items) ∷ g) =
    (b * 2, zeros_of items) ∷ (b * 2 + 1, ones_of items) ∷ split_groups g

-- Each bucket takes its bits from the front.
abbrev pub zip_items : List ℕ → List Bool → Items
zip_items [] bits = []
zip_items (i ∷ is) [] = []
zip_items (i ∷ is) (b ∷ bs) = (i, b) ∷ zip_items is bs

abbrev pub deal : Buckets → List Bool → Groups
deal [] bits = []
deal ((b, is) ∷ rest) bits = (b, zip_items is bits) ∷ deal rest (drop (length is) bits)

-- The rows of a table with these buckets.
abbrev pub row_of : ℕ → ℕ → ℕ → SortedRow
row_of n b i = record { idx = i; length = n; bucket = b }

abbrev pub rows_of : Buckets → List SortedRow
rows_of [] = []
rows_of ((b, is) ∷ rest) = map (row_of (length is) b) is ++ rows_of rest

abbrev pub split_of : ℕ → ℕ → ℕ × Bool → Split
split_of n b (i, bit) = (row_of n b i, bit)

abbrev pub splits_of : Groups → List Split
splits_of [] = []
splits_of ((b, items) ∷ g) = map (split_of (length items) b) items ++ splits_of g

-- A property of every bucket's number.
abbrev pub AllIds {ℓ} : {A : Type ℓ} → (ℕ → Type 0) → List (ℕ × A) → Type 0
AllIds R [] = Unit
AllIds R ((b, items) ∷ g) = R b × AllIds R g

-- The numbers of the buckets are different.
abbrev pub IsFresh {ℓ} : {A : Type ℓ} → ℕ → List (ℕ × A) → Type 0
IsFresh b g = AllIds (λ c. c ≢ b) g

abbrev pub AreDistinct {ℓ} : {A : Type ℓ} → List (ℕ × A) → Type 0
AreDistinct [] = Unit
AreDistinct ((b, items) ∷ g) = IsFresh b g × AreDistinct g

zip_bits-row_of :
    (n b : ℕ) (is : List ℕ) (rest : List SortedRow) (bits : List Bool)
    → length is ≤ length bits
    → zip_bits (map (row_of n b) is ++ rest) bits
      ≡ map (split_of n b) (zip_items is bits) ++ zip_bits rest (drop (length is) bits)
zip_bits-row_of n b [] rest bits h = refl
zip_bits-row_of n b (i ∷ is) rest [] h = absurd (omega arith)
zip_bits-row_of n b (i ∷ is) rest (x ∷ bits) h =
    ap (◌∷◌ (row_of n b i, x)) (zip_bits-row_of n b is rest bits (omega arith))

length-zip_items :
    (is : List ℕ) (bits : List Bool)
    → length is ≤ length bits
    → length (zip_items is bits) ≡ length is
length-zip_items [] bits h = refl
length-zip_items (i ∷ is) [] h = absurd (omega arith)
length-zip_items (i ∷ is) (x ∷ bits) h = ap suc (length-zip_items is bits (omega arith))

pub zip_bits-rows_of :
    (bs : Buckets) (bits : List Bool)
    → length (rows_of bs) ≤ length bits
    → zip_bits (rows_of bs) bits ≡ splits_of (deal bs bits)
zip_bits-rows_of [] bits h = refl
zip_bits-rows_of ((b, is) ∷ rest) bits h =
    let cut : length (rows_of ((b, is) ∷ rest)) ≡ length is + length (rows_of rest) = omega (
      arith,
      length-append (map (row_of (length is) b) is) (rows_of rest),
      length-map (row_of (length is) b) is,
    ) in
    rw
      (
        zip_bits-row_of (length is) b is (rows_of rest) bits (omega arith),
        zip_bits-rows_of rest (drop (length is) bits) (omega (arith, length-drop (length is) bits)),
        length-zip_items is bits (omega arith),
      )
      refl

IsFresh-deal : (c : ℕ) (bs : Buckets) (bits : List Bool) → IsFresh c bs → IsFresh c (deal bs bits)
IsFresh-deal c [] bits f = tt
IsFresh-deal c ((b, is) ∷ rest) bits (ne, f) = (ne, IsFresh-deal c rest (drop (length is) bits) f)

pub AreDistinct-deal :
    (bs : Buckets) (bits : List Bool) → AreDistinct bs → AreDistinct (deal bs bits)
AreDistinct-deal [] bits d = tt
AreDistinct-deal ((b, is) ∷ rest) bits (f, d) =
    (IsFresh-deal b rest (drop (length is) bits) f, AreDistinct-deal rest (drop (length is) bits) d)

IsFresh-split_groups :
    (c : ℕ) (g : Groups)
    → IsFresh c g
    → IsFresh (c * 2) (split_groups g) × IsFresh (c * 2 + 1) (split_groups g)
IsFresh-split_groups c [] f = (tt, tt)
IsFresh-split_groups c ((b, items) ∷ g) (ne, f) =
    let (even, odd) = IsFresh-split_groups c g f in
    (
      (λ e. ne (omega (arith, e)), (λ e. omega (arith, e), even)),
      (λ e. omega (arith, e), (λ e. ne (omega (arith, e)), odd)),
    )

-- Splitting keeps the numbers of the buckets different.
pub AreDistinct-split_groups : (g : Groups) → AreDistinct g → AreDistinct (split_groups g)
AreDistinct-split_groups [] d = tt
AreDistinct-split_groups ((b, items) ∷ g) (f, d) =
    let (even, odd) = IsFresh-split_groups b g f in
    ((λ e. omega (arith, e), even), (odd, AreDistinct-split_groups g d))
