-- ===== src/Shuffle/Output.antt =====
-- The output of the shuffle is a permutation of its input.
use mathlib.Core.List.{Perm, Mem, mem-cons, mem-cons_self, mem-cons_of_mem, not-mem-nil}
use mathlib.Core.List.Perm
use mathlib.Core.Logic.Or
use native.Mathlib.Bridge.{le_prop}
use native.Mathlib.Numerals.{add-one}
use nexus_zkvm.Base.{
  ℕ, zero, suc, ◌+◌, ◌*◌, ◌-◌, ◌<◌, ◌≡◌, refl, sym, ap, ◌∙◌, subst, arith, Bool, false, List, [],
  ◌∷◌, length, map, get_or, get_elem?-get_or,
}
use nexus_zkvm.Base.Result.{ok}
use nexus_zkvm.Shuffle.{UnsortedRow, SortedRow, deck_size, levels}
use nexus_zkvm.Shuffle.Bits.{
  Sponge, tabulate, bit_matrix, bit_stream, derive_split_bits, derive_split_bits-enough,
}
use nexus_zkvm.Shuffle.Level.{build_level}
use nexus_zkvm.Shuffle.Kept.{indices, build_level-perm, length-build_level}
use nexus_zkvm.Shuffle.Witness.{
  first_rows, run_levels, witness_of, gather, prepare_witness_data, apply_rs_shuffle_permutation,
}

-- `n` split bits in every level.
abbrev pub AreFull : ℕ → List (List Bool) → Type 0
AreFull n [] = Unit
AreFull n (bits ∷ rest) = (n ≡ length bits) × AreFull n rest

-- The rows that level `j` leaves.
abbrev pub rows_after : List SortedRow → List (List Bool) → ℕ → List SortedRow
rows_after prev mat j =
    get_or (map (λ (l : List UnsortedRow × List SortedRow). l.1) (run_levels prev mat)) j []

rows_after-perm :
    (prev : List SortedRow) (mat : List (List Bool)) (j : ℕ)
    → AreFull (length prev) mat
    → j < length mat
    → Perm (indices (rows_after prev mat j)) (indices prev)
unfolding run_levels
rows_after-perm prev [] j full h = absurd (omega arith)
rows_after-perm prev (bits ∷ rest) zero full h = build_level-perm prev bits full.0
rows_after-perm prev (bits ∷ rest) (suc j) full h =
    let same = length-build_level prev bits full.0 in
    Perm.trans
      (rows_after-perm (build_level prev bits).1 rest j
        (subst (λ n. AreFull n rest) (sym same) full.1) (omega arith))
      (build_level-perm prev bits full.0)

indices-first_rows :
    (i n len : ℕ)
    → indices (tabulate i n (λ k. record { idx = k; length = len; bucket = 0 }))
      ≡ tabulate i n (λ k. k)
indices-first_rows i zero len = refl
indices-first_rows i (suc n) len = ap (◌∷◌ i) (indices-first_rows (i + 1) n len)

mem-tabulate : (i n k : ℕ) → Mem k (tabulate i n (λ j. j)) → k < i + n
mem-tabulate i zero k m = absurd (not-mem-nil m)
mem-tabulate i (suc n) k m =
    Or.elim le_prop (mem-cons.0 m) (λ e. omega (arith, e))
      (λ rest. omega (arith, mem-tabulate (i + 1) n k rest))

mem-first : (n k : ℕ) → Mem k (tabulate 0 n (λ j. j)) → k < n
mem-first n k m = omega (arith, mem-tabulate 0 n k m)

module _ {ℓ} {A : Type ℓ} (input : List A) (d : A) where
  gather-map :
      (rs : List SortedRow)
      → ((k : ℕ) → Mem k (indices rs) → k < length input)
      → gather input rs ≡ ok (map (λ k. get_or input k d) (indices rs))
  unfolding gather
  gather-map [] h = refl
  gather-map (r ∷ rs) h =
      rw
        (
          get_elem?-get_or input r.idx d (h r.idx mem-cons_self),
          gather-map rs (λ k m. h k (mem-cons_of_mem r.idx m)),
        )
        refl

map-tabulate-suc {ℓ} :
    {A : Type ℓ} (f : ℕ → A) (i n : ℕ)
    → map f (tabulate (i + 1) n (λ k. k)) ≡ map (λ k. f (suc k)) (tabulate i n (λ k. k))
map-tabulate-suc f i zero = refl
map-tabulate-suc f i (suc n) =
    rw (map-tabulate-suc f (i + 1) n)
      (ap (λ h. f h ∷ map (λ k. f (suc k)) (tabulate (i + 1) n (λ k. k))) (add-one i))

map-tabulate {ℓ} :
    {A : Type ℓ} (xs : List A) (d : A)
    → map (λ k. get_or xs k d) (tabulate 0 (length xs) (λ k. k)) ≡ xs
map-tabulate [] d = refl
map-tabulate (x ∷ xs) d =
    ap (◌∷◌ x) (map-tabulate-suc (λ k. get_or (x ∷ xs) k d) 0 (length xs) ∙ map-tabulate xs d)

-- Rows whose indices are those of the input, in any order, gather a permutation of it.
gather-perm {ℓ} :
    {A : Type ℓ} (a : A) (as' : List A) (rs : List SortedRow)
    → Perm (indices rs) (tabulate 0 (length (a ∷ as')) (λ k. k))
    → (out : List A) × (gather (a ∷ as') rs ≡ ok out) × Perm out (a ∷ as')
gather-perm a as' rs p =
    let input = a ∷ as' in
    (
      map (λ k. get_or input k a) (indices rs),
      gather-map input a rs (λ k m. mem-first (length input) k ((Perm.mem_iff p).0 m)),
      subst (Perm (map (λ k. get_or input k a) (indices rs))) (map-tabulate input a)
          (Perm.map (λ k. get_or input k a) p),
    )

AreFull-tabulate :
    (stream : List Bool) (i n : ℕ)
    → AreFull deck_size (
        tabulate i n
          (λ level. tabulate 0 deck_size (λ j. get_or stream (level * deck_size + j) false)))
AreFull-tabulate stream i zero = tt
AreFull-tabulate stream i (suc n) = (refl, AreFull-tabulate stream (i + 1) n)

bit_matrix-AreFull : (stream : List Bool) → AreFull deck_size (bit_matrix stream)
unfolding bit_matrix
bit_matrix-AreFull stream = AreFull-tabulate stream 0 levels

length-bit_matrix : (stream : List Bool) → length (bit_matrix stream) ≡ levels
unfolding bit_matrix
length-bit_matrix stream = refl

module _ {F S : Type 0} (sponge : Sponge F S) where
  last_rows-perm :
      (seed : F) {mat : List (List Bool)} {n : ℕ}
      → derive_split_bits sponge seed ≡ ok (mat, n)
      → Perm
          (indices (rows_after (first_rows deck_size) mat (levels - 1)))
          (tabulate 0 deck_size (λ k. k))
  last_rows-perm seed drawn =
      let (vs, _, _, same) = derive_split_bits-enough sponge seed drawn in
      let stream = bit_stream sponge vs in
      rw same (
        subst (Perm (indices (rows_after (first_rows deck_size) (bit_matrix stream) (levels - 1))))
          (indices-first_rows 0 deck_size deck_size)
          (rows_after-perm (first_rows deck_size) (bit_matrix stream) (levels - 1)
            (bit_matrix-AreFull stream) (omega (arith, length-bit_matrix stream))))

  -- Where the split bits of a seed are derived, the shuffle of a full deck returns, with the witness
  -- tables of these bits, a permutation of the deck.
  pub apply_rs_shuffle_permutation-perm {ℓ} :
      {A : Type ℓ} (seed : F) (deck : List A) {mat : List (List Bool)} {n : ℕ}
      → length deck ≡ deck_size
      → derive_split_bits sponge seed ≡ ok (mat, n)
      → (out : List A) × (apply_rs_shuffle_permutation sponge seed deck
          ≡ ok (witness_of deck_size mat, (n, out)))
        × Perm out deck
  unfolding apply_rs_shuffle_permutation prepare_witness_data
  apply_rs_shuffle_permutation-perm seed [] full drawn = absurd (omega arith)
  apply_rs_shuffle_permutation-perm seed (a ∷ as') {mat} {n} full drawn =
      let rows = rows_after (first_rows deck_size) mat (levels - 1) in
      let (out, gathered, p) = gather-perm a as' rows (
        subst (λ m. Perm (indices rows) (tabulate 0 m (λ k. k))) (sym full)
          (last_rows-perm seed drawn)) in
      (out, rw (drawn, gathered), p)
