-- ===== src/Shuffle/Survey.antt =====
-- What the first pass of a level finds out about the buckets of a table.
use mathlib.Core.Option
use nexus_zkvm.Base.{
  ℕ, suc, ◌+◌, ◌≡◌, arith, true, false, none, some, List, [], ◌∷◌, ◌==◌, if◌then◌else◌, Bool-cases,
  Option-cases, inl, inr,
}
use nexus_zkvm.Base.Assoc.{Assoc, lookup, lookup-insert}
use nexus_zkvm.Shuffle.Level.{Split, Stats, count_of, bump, or_insert, observe, survey}

-- The zeros and the ones of a bucket.
abbrev pub count_zeros : ℕ → List Split → ℕ
count_zeros b [] = 0
count_zeros b ((r, true) ∷ rs) = count_zeros b rs
count_zeros b ((r, false) ∷ rs) = if r.bucket == b then suc (count_zeros b rs) else count_zeros b rs

abbrev pub count_ones : ℕ → List Split → ℕ
count_ones b [] = 0
count_ones b ((r, true) ∷ rs) = if r.bucket == b then suc (count_ones b rs) else count_ones b rs
count_ones b ((r, false) ∷ rs) = count_ones b rs

-- Where a bucket starts, in rows from `pos` on; 0 if it has no row.
abbrev pub start_in : ℕ → ℕ → List Split → ℕ
start_in b pos [] = 0
start_in b pos ((r, bit) ∷ rs) = if r.bucket == b then pos else start_in b (pos + 1) rs

count_of-bump :
    (m : Assoc ℕ) (b c : ℕ)
    → count_of (bump m b) c ≡ (if b == c then suc (count_of m b) else count_of m c)
unfolding bump
count_of-bump m b c = ground (arith, lookup-insert m b c (count_of m b + 1))

pub survey-zeros :
    (s : Stats) (b : ℕ) (rows : List Split)
    → count_of (survey s rows).zeros b ≡ count_of s.zeros b + count_zeros b rows
unfolding survey observe
survey-zeros s b [] = omega arith
survey-zeros s b ((r, true) ∷ rs) = survey-zeros (observe s (r, true)) b rs
survey-zeros s b ((r, false) ∷ rs) =
    ground (arith, survey-zeros (observe s (r, false)) b rs, count_of-bump s.zeros r.bucket b)

pub survey-ones :
    (s : Stats) (b : ℕ) (rows : List Split)
    → count_of (survey s rows).ones b ≡ count_of s.ones b + count_ones b rows
unfolding survey observe
survey-ones s b [] = omega arith
survey-ones s b ((r, false) ∷ rs) = survey-ones (observe s (r, false)) b rs
survey-ones s b ((r, true) ∷ rs) =
    ground (arith, survey-ones (observe s (r, true)) b rs, count_of-bump s.ones r.bucket b)

lookup-or_insert :
    (m : Assoc ℕ) (c b v : ℕ)
    → lookup (or_insert m c v) b
      ≡ (if c == b then some (Option.get_or (lookup m b) v) else lookup m b)
lookup-or_insert m c b v = elim (Option-cases (lookup m c)) [
  | inl e ↦ rw e (ground (arith, lookup-insert m c b v))
  | inr (w, e) ↦ rw e (ground arith)
]

survey-started :
    (s : Stats) (b : ℕ) (rows : List Split) {v : ℕ}
    → lookup s.starts b ≡ some v
    → count_of (survey s rows).starts b ≡ v
unfolding survey observe
survey-started s b [] h = ground arith
survey-started s b ((r, bit) ∷ rs) h =
    survey-started (observe s (r, bit)) b rs
      (ground (arith, lookup-or_insert s.starts r.bucket b s.current_pos))

pub survey-starts :
    (s : Stats) (b : ℕ) (rows : List Split)
    → lookup s.starts b ≡ none
    → count_of (survey s rows).starts b ≡ start_in b s.current_pos rows
unfolding survey observe
survey-starts s b [] h = ground arith
survey-starts s b ((r, bit) ∷ rs) h = elim (Bool-cases (r.bucket == b)) [
  | inl same ↦ rw same (
      survey-started (observe s (r, bit)) b rs
        (ground (arith, lookup-or_insert s.starts r.bucket b s.current_pos)))
  | inr differs ↦ rw differs (
      survey-starts (observe s (r, bit)) b rs
        (ground (arith, lookup-or_insert s.starts r.bucket b s.current_pos)))
]
