-- ===== src/Shuffle/Known.antt =====
-- The first pass on a table of buckets: the zeros, the ones and the start of each.
use native.Mathlib.Nat.{zero-add}
use nexus_zkvm.Base.{
  ℕ, suc, ◌+◌, ◌<◌, ◌≡◌, ◌≢◌, refl, sym, ap, ◌∙◌, arith, true, false, List, [], ◌∷◌, ◌++◌, length,
  map,
}
use nexus_zkvm.Base.Assoc.{lookup}
use nexus_zkvm.Shuffle.Level.{Split, count_of, survey, no_stats}
use nexus_zkvm.Shuffle.Buckets.{
  Items, Groups, zeros_of, ones_of, split_of, splits_of, AllIds, IsFresh, AreDistinct,
}
use nexus_zkvm.Shuffle.Survey.{
  count_zeros, count_ones, start_in, survey-zeros, survey-ones, survey-starts,
}

count_zeros-same :
    (n b : ℕ) (items : Items) (rest : List Split)
    → count_zeros b (map (split_of n b) items ++ rest)
      ≡ length (zeros_of items) + count_zeros b rest
count_zeros-same n b [] rest = omega arith
count_zeros-same n b ((i, true) ∷ items) rest = count_zeros-same n b items rest
count_zeros-same n b ((i, false) ∷ items) rest = ground (arith, count_zeros-same n b items rest)

count_ones-same :
    (n b : ℕ) (items : Items) (rest : List Split)
    → count_ones b (map (split_of n b) items ++ rest) ≡ length (ones_of items) + count_ones b rest
count_ones-same n b [] rest = omega arith
count_ones-same n b ((i, false) ∷ items) rest = count_ones-same n b items rest
count_ones-same n b ((i, true) ∷ items) rest = ground (arith, count_ones-same n b items rest)

start_in-same :
    (n b pos : ℕ) (items : Items) (rest : List Split)
    → 0 < length items
    → start_in b pos (map (split_of n b) items ++ rest) ≡ pos
start_in-same n b pos [] rest h = absurd (omega arith)
start_in-same n b pos ((i, bit) ∷ items) rest h = ground arith

-- The rows of another bucket.
count_zeros-other :
    (n b c : ℕ) (items : Items) (rest : List Split)
    → b ≢ c
    → count_zeros c (map (split_of n b) items ++ rest) ≡ count_zeros c rest
count_zeros-other n b c [] rest h = refl
count_zeros-other n b c ((i, true) ∷ items) rest h = count_zeros-other n b c items rest h
count_zeros-other n b c ((i, false) ∷ items) rest h =
    ground (arith, count_zeros-other n b c items rest h)

count_ones-other :
    (n b c : ℕ) (items : Items) (rest : List Split)
    → b ≢ c
    → count_ones c (map (split_of n b) items ++ rest) ≡ count_ones c rest
count_ones-other n b c [] rest h = refl
count_ones-other n b c ((i, false) ∷ items) rest h = count_ones-other n b c items rest h
count_ones-other n b c ((i, true) ∷ items) rest h =
    ground (arith, count_ones-other n b c items rest h)

start_in-other :
    (n b c pos : ℕ) (items : Items) (rest : List Split)
    → b ≢ c
    → start_in c pos (map (split_of n b) items ++ rest) ≡ start_in c (pos + length items) rest
start_in-other n b c pos [] rest h = ap (λ p. start_in c p rest) (omega arith)
start_in-other n b c pos ((i, bit) ∷ items) rest h =
    let shift : pos + 1 + length items ≡ pos + suc (length items) = omega arith in
    ground (arith, start_in-other n b c (pos + 1) items rest h, ap (λ p. start_in c p rest) shift)

count_zeros-fresh : (b : ℕ) (g : Groups) → IsFresh b g → count_zeros b (splits_of g) ≡ 0
count_zeros-fresh b [] f = refl
count_zeros-fresh b ((c, items) ∷ g) (ne, f) =
    count_zeros-other (length items) c b items (splits_of g) ne ∙ count_zeros-fresh b g f

count_ones-fresh : (b : ℕ) (g : Groups) → IsFresh b g → count_ones b (splits_of g) ≡ 0
count_ones-fresh b [] f = refl
count_ones-fresh b ((c, items) ∷ g) (ne, f) =
    count_ones-other (length items) c b items (splits_of g) ne ∙ count_ones-fresh b g f

-- What is known of each bucket.
pub record Facts : Type 0 where
  pub zeros : ℕ → ℕ
  pub ones : ℕ → ℕ
  pub starts : ℕ → ℕ

-- The facts are true of buckets that stand from `pos` on.
abbrev pub Knows : Facts → ℕ → Groups → Type 0
Knows k pos [] = Unit
Knows k pos ((b, items) ∷ g) =
    (k.zeros b ≡ length (zeros_of items))
    × (k.ones b ≡ length (ones_of items))
    × (0 < length items → k.starts b ≡ pos)
    × Knows k (pos + length items) g

abbrev Agree : Facts → Facts → ℕ → Type 0
Agree k k' c = (k.zeros c ≡ k'.zeros c) × (k.ones c ≡ k'.ones c) × (k.starts c ≡ k'.starts c)

Knows-Agree :
    (k k' : Facts) (R : ℕ → Type 0) (pos : ℕ) (g : Groups)
    → ((c : ℕ) → R c → Agree k k' c)
    → AllIds R g
    → Knows k' pos g
    → Knows k pos g
Knows-Agree k k' R pos [] agree all known = tt
Knows-Agree k k' R pos ((b, items) ∷ g) agree (here, all) (zs, os, st, known) =
    let (az, ao, ast) = agree b here in
    (az ∙ zs, ao ∙ os, (λ h. ast ∙ st h), Knows-Agree k k' R (pos + length items) g agree all known)

abbrev facts_of : ℕ → List Split → Facts
facts_of pos rows = record {
  zeros = λ b. count_zeros b rows;
  ones = λ b. count_ones b rows;
  starts = λ b. start_in b pos rows;
}

Knows-splits_of : (pos : ℕ) (g : Groups) → AreDistinct g → Knows (facts_of pos (splits_of g)) pos g
Knows-splits_of pos [] d = tt
Knows-splits_of pos ((b, items) ∷ g) (f, d) =
    let n = length items in
    let rest = splits_of g in
    (
      omega (arith, count_zeros-same n b items rest, count_zeros-fresh b g f),
      omega (arith, count_ones-same n b items rest, count_ones-fresh b g f),
      start_in-same n b pos items rest,
      Knows-Agree (facts_of pos (splits_of ((b, items) ∷ g))) (facts_of (pos + n) rest) (λ c. c ≢ b)
          (pos + n) g
          (λ c ne. (
            count_zeros-other n b c items rest (λ e. ne (sym e)),
            count_ones-other n b c items rest (λ e. ne (sym e)),
            start_in-other n b c pos items rest (λ e. ne (sym e)),
          ))
          f (Knows-splits_of (pos + n) g d),
    )

abbrev pub surveyed : List Split → Facts
surveyed rows =
    let s = survey no_stats rows in
    record { zeros = count_of s.zeros; ones = count_of s.ones; starts = count_of s.starts }

all_ids : (g : Groups) → AllIds (λ c. Unit) g
all_ids [] = tt
all_ids ((b, items) ∷ g) = (tt, all_ids g)

-- The first pass on a table of buckets with different numbers finds the zeros and the ones of each
-- bucket, and where each bucket starts that has a row.
pub survey-Knows : (g : Groups) → AreDistinct g → Knows (surveyed (splits_of g)) 0 g
unfolding lookup
survey-Knows g d =
    let rows = splits_of g in
    Knows-Agree (surveyed rows) (facts_of 0 rows) (λ c. Unit) 0 g
      (λ c _. (
        survey-zeros no_stats c rows ∙ zero-add _,
        survey-ones no_stats c rows ∙ zero-add _,
        survey-starts no_stats c rows refl,
      ))
      (all_ids g) (Knows-splits_of 0 g d)
