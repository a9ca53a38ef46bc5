-- ===== src/Shuffle/Levels.antt =====
-- All levels of the shuffle on whole buckets.
use mathlib.Core.List.{append-nil}
use nexus_zkvm.Base.{
  ℕ, zero, suc, ◌+◌, ◌<◌, ◌≡◌, refl, sym, ap, ◌∙◌, subst, arith, Bool, List, [], ◌∷◌, length, map,
  take,
}
use nexus_zkvm.Shuffle.{SortedRow}
use nexus_zkvm.Shuffle.Bits.{tabulate, length-tabulate}
use nexus_zkvm.Shuffle.Level.{build_level}
use nexus_zkvm.Shuffle.Witness.{first_rows, run_levels}
use nexus_zkvm.Shuffle.Kept.{length-build_level}
use nexus_zkvm.Shuffle.Output.{AreFull, rows_after}
use nexus_zkvm.Shuffle.Buckets.{
  Buckets, row_of, rows_of, split_groups, deal, AreDistinct, AreDistinct-deal,
  AreDistinct-split_groups,
}
use nexus_zkvm.Shuffle.Refines.{build_level-split_groups}

-- One split after the other.
abbrev pub split_levels : Buckets → List (List Bool) → Buckets
split_levels bs [] = bs
split_levels bs (bits ∷ rest) = split_levels (split_groups (deal bs bits)) rest

rows_after-step :
    (prev : List SortedRow) (bits : List Bool) (rest : List (List Bool)) (j : ℕ)
    → rows_after prev (bits ∷ rest) (suc j) ≡ rows_after (build_level prev bits).1 rest j
unfolding run_levels
rows_after-step prev bits rest j = refl

rows_after-first :
    (prev : List SortedRow) (bits : List Bool) (rest : List (List Bool))
    → rows_after prev (bits ∷ rest) 0 ≡ (build_level prev bits).1
unfolding run_levels
rows_after-first prev bits rest = refl

rows_after-rows_of :
    (bs : Buckets) (mat : List (List Bool)) (j : ℕ)
    → AreDistinct bs
    → AreFull (length (rows_of bs)) mat
    → j < length mat
    → rows_after (rows_of bs) mat j ≡ rows_of (split_levels bs (take (suc j) mat))
rows_after-rows_of bs [] j d full h = absurd (omega arith)
rows_after-rows_of bs (bits ∷ rest) zero d full h =
    rows_after-first (rows_of bs) bits rest
    ∙ build_level-split_groups bs bits d (omega (arith, full.0))
rows_after-rows_of bs (bits ∷ rest) (suc j) d full h =
    let next = split_groups (deal bs bits) in
    let step = build_level-split_groups bs bits d (omega (arith, full.0)) in
    let same : length (rows_of bs) ≡ length (rows_of next) =
      sym (length-build_level (rows_of bs) bits full.0) ∙ ap length step in
    rows_after-step (rows_of bs) bits rest j
    ∙ ap (λ l. rows_after l rest j) step
    ∙ rows_after-rows_of next rest j
        (AreDistinct-split_groups (deal bs bits) (AreDistinct-deal bs bits d))
        (subst (λ n. AreFull n rest) same full.1) (omega arith)

-- The bucket that the shuffle starts from.
abbrev pub one_bucket : ℕ → Buckets
one_bucket n = (0, tabulate 0 n (λ k. k)) ∷ []

first_rows-from :
    (i n len : ℕ) → tabulate i n (row_of len 0) ≡ map (row_of len 0) (tabulate i n (λ k. k))
first_rows-from i zero len = refl
first_rows-from i (suc n) len = ap (◌∷◌ (row_of len 0 i)) (first_rows-from (i + 1) n len)

first_rows-rows_of : (n : ℕ) → first_rows n ≡ rows_of (one_bucket n)
first_rows-rows_of n = rw (append-nil, length-tabulate 0 n (λ k. k)) (first_rows-from 0 n n)

-- With n bits in every level, the rows that level j leaves, from the rows of level 0 on, are the
-- table of the buckets that j + 1 stable splits make of the one bucket of all indices.
pub rows_after-split_levels :
    (n : ℕ) (mat : List (List Bool)) (j : ℕ)
    → AreFull n mat
    → j < length mat
    → rows_after (first_rows n) mat j ≡ rows_of (split_levels (one_bucket n) (take (suc j) mat))
rows_after-split_levels n mat j full h =
    let start = first_rows-rows_of n in
    let size : n ≡ length (rows_of (one_bucket n)) =
      sym (length-tabulate 0 n (row_of n 0)) ∙ ap length start in
    ap (λ l. rows_after l mat j) start
    ∙ rows_after-rows_of (one_bucket n) mat j (tt, tt) (subst (λ m. AreFull m mat) size full) h
