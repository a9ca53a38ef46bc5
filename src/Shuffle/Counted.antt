-- ===== src/Shuffle/Counted.antt =====
-- The maps and the position of a level's first pass never pass the number of its rows.
use mathlib.Core.Option
use nexus_zkvm.Base.{
  ℕ, suc, ◌+◌, ◌≤◌, ◌≡◌, refl, ap, ◌∙◌, arith, Bool, true, false, Option, none, some, List, [], ◌∷◌,
  ◌==◌, if◌then◌else◌, length,
}
use nexus_zkvm.Base.Assoc.{Assoc, lookup, insert, lookup-insert}
use nexus_zkvm.Shuffle.Level.{
  Split, Stats, count_of, bump, or_insert_at, or_insert, observe, survey, no_stats,
}

-- No count of the map is above `k`.
abbrev pub Below : Assoc ℕ → ℕ → Type 0
Below m k = (c : ℕ) → count_of m c ≤ k

Below-more : (m : Assoc ℕ) (k j : ℕ) → k ≤ j → Below m k → Below m j
Below-more m k j h b c = omega (arith, b c, h)

count_of-insert :
    (m : Assoc ℕ) (b v c : ℕ) → count_of (insert m b v) c ≡ (if b == c then v else count_of m c)
count_of-insert m b v c = ap (λ o. Option.get_or o 0) (lookup-insert m b c v) ∙ pick (b == c)
  where
    pick :
        (t : Bool)
        → Option.get_or (if t then some v else lookup m c) 0 ≡ (if t then v else count_of m c)
    pick true = refl
    pick false = refl

insert-Below : (m : Assoc ℕ) (b v k : ℕ) → Below m k → v ≤ k → Below (insert m b v) k
insert-Below m b v k h le c = ground (arith, count_of-insert m b v c, h c, le)

bump-Below : (m : Assoc ℕ) (b k : ℕ) → Below m k → Below (bump m b) (k + 1)
unfolding bump
bump-Below m b k h =
    insert-Below m b (count_of m b + 1) (k + 1) (Below-more m k (k + 1) (omega arith) h)
      (omega (arith, h b))

or_insert-Below : (m : Assoc ℕ) (b v k : ℕ) → Below m k → v ≤ k → Below (or_insert m b v) k
or_insert-Below m b v k h le = by_case (lookup m b)
  where
    by_case : (o : Option ℕ) → Below (or_insert_at m b v o) k
    by_case none = insert-Below m b v k h le
    by_case (some old) = h

-- What the first pass holds after `k` rows.
pub record IsCounted (s : Stats) (k : ℕ) : Type 0 where
  pub zeros : Below s.zeros k
  pub ones : Below s.ones k
  pub starts : Below s.starts k
  pub lengths : Below s.lengths k
  pub pos : s.current_pos ≤ k

if_Below : (b : Bool) (m n : Assoc ℕ) (k : ℕ) → Below m k → Below n k → Below (if b then m else n) k
if_Below true m n k h j = h
if_Below false m n k h j = j

observe-IsCounted :
    (s : Stats) (r : Split) (k : ℕ) → IsCounted s k → IsCounted (observe s r) (k + 1)
unfolding observe
observe-IsCounted s (row, bit) k i = record {
  zeros =
      if_Below bit _ _ (k + 1) (Below-more s.zeros k (k + 1) (omega arith) i.zeros)
        (bump-Below s.zeros row.bucket k i.zeros);
  ones =
      if_Below bit _ _ (k + 1) (bump-Below s.ones row.bucket k i.ones)
        (Below-more s.ones k (k + 1) (omega arith) i.ones);
  starts =
      Below-more (or_insert s.starts row.bucket s.current_pos) k (k + 1) (omega arith)
        (or_insert-Below s.starts row.bucket s.current_pos k i.starts i.pos);
  lengths = bump-Below s.lengths row.bucket k i.lengths;
  pos = omega (arith, i.pos);
}

pub survey-IsCounted :
    (s : Stats) (rows : List Split) (k : ℕ)
    → IsCounted s k
    → IsCounted (survey s rows) (k + length rows)
unfolding survey
survey-IsCounted s [] k i = let e : k + 0 ≡ k = omega arith in rw e i
survey-IsCounted s (r ∷ rows) k i =
    let e : k + suc (length rows) ≡ k + 1 + length rows = omega arith in
    rw e (survey-IsCounted (observe s r) rows (k + 1) (observe-IsCounted s r k i))

pub no_stats-IsCounted : IsCounted no_stats 0
unfolding lookup
no_stats-IsCounted = record {
  zeros = λ c. omega arith;
  ones = λ c. omega arith;
  starts = λ c. omega arith;
  lengths = λ c. omega arith;
  pos = omega arith;
}
