-- ===== src/Shuffle/Bits.antt =====
-- The split bits: `derive_split_bits` (nova/src/shuffling/rs_shuffle/bit_generation.rs) and
-- `generate_random_values` (nova/src/shuffling/utils.rs). The Poseidon sponge and the field are
-- third-party code: parameters stand for them.
use nexus_zkvm.Base.{
  ℕ, zero, suc, ◌+◌, ◌-◌, ◌*◌, ◌/◌, ◌<◌, ◌≤◌, ◌≡◌, refl, sym, ap, subst, arith, Bool, false, List,
  [], ◌∷◌, ◌++◌, ltb, ◌==◌, if◌then◌else◌, length, length-append, length-drop, get_or, take, drop,
  length-take,
}
use native.Mathlib.Nat.{div-add-mod', mod-lt}
use nexus_zkvm.Base.Result.{Result, ok, panic, ◌>>=◌, >>=-eq-ok, index}
use nexus_zkvm.Shuffle.{deck_size, levels, bits_need}

-- A sponge with states `S` over the field `F`, and the bits of a field element.
pub record Sponge (F S : Type 0) : Type 0 where
  pub new : S
  pub absorb : F → S → S
  pub squeeze_field_elements : ℕ → S → List F × S
  pub modulus_bit_size : ℕ
  pub get_bit : F → ℕ → Bool

-- `f(i), f(i + 1), …`, n of them.
abbrev pub tabulate {ℓ} : {A : Type ℓ} → ℕ → ℕ → (ℕ → A) → List A
tabulate i zero f = []
tabulate i (suc n) f = f i ∷ tabulate (i + 1) n f

pub length-tabulate {ℓ} : {A : Type ℓ} (i n : ℕ) (f : ℕ → A) → length (tabulate i n f) ≡ n
length-tabulate i zero f = refl
length-tabulate i (suc n) f = ap suc (length-tabulate (i + 1) n f)

-- Bits that the stream lacks are false.
unfoldable pub bit_matrix : List Bool → List (List Bool)
bit_matrix stream =
    tabulate 0 levels
      (λ level. tabulate 0 deck_size (λ i. get_or stream (level * deck_size + i) false))

ok-pair : {A B : Type 0} {p q : A × B} → ok p ≡ ok q → (p.0 ≡ q.0) × (p.1 ≡ q.1)
ok-pair e = ground arith

module _ {F S : Type 0} (sponge : Sponge F S) where
  -- The `map` over `0..count`, each turn of which squeezes one element.
  unfoldable pub squeeze_each : ℕ → S → Result (List F)
  squeeze_each zero s = ok []
  squeeze_each (suc n) s =
      let (vs, s') = sponge.squeeze_field_elements 1 s in
      index vs 0 >>= λ v. squeeze_each n s' >>= λ rest. ok (v ∷ rest)

  unfoldable pub generate_random_values : F → ℕ → Result (List F)
  unfolding squeeze_each
  generate_random_values seed count = squeeze_each count (sponge.absorb seed sponge.new)

  abbrev pub value_bits : F → List Bool
  value_bits v = tabulate 0 sponge.modulus_bit_size (sponge.get_bit v)

  -- Without the first and the last bit.
  abbrev pub trim : List Bool → List Bool
  trim bits = if ltb 2 (length bits) then take (length bits - 2) (drop 1 bits) else []

  unfoldable pub bit_stream : List F → List Bool
  bit_stream [] = []
  bit_stream (v ∷ vs) = trim (value_bits v) ++ bit_stream vs

  abbrev pub usable_bits : ℕ
  usable_bits = sponge.modulus_bit_size - 2

  -- The division by the usable bits panics where there are none.
  unfoldable pub num_elements_needed : Result ℕ
  num_elements_needed =
      if usable_bits == 0 then panic else ok ((deck_size * levels + usable_bits - 1) / usable_bits)

  unfoldable pub derive_split_bits : F → Result (List (List Bool) × ℕ)
  unfolding num_elements_needed generate_random_values
  derive_split_bits seed = num_elements_needed >>= λ n.
      generate_random_values seed n >>= λ vs. ok (bit_matrix (bit_stream vs), n)

  length-trim : (bits : List Bool) → length (trim bits) ≡ length bits - 2
  length-trim bits = ground (arith, length-drop 1 bits, length-take (length bits - 2) (drop 1 bits))

  length-bit_stream : (vs : List F) → length (bit_stream vs) ≡ length vs * usable_bits
  unfolding bit_stream
  length-bit_stream [] = omega arith
  length-bit_stream (v ∷ vs) = omega (
    arith,
    length-append (trim (value_bits v)) (bit_stream vs),
    length-trim (value_bits v),
    length-tabulate 0 sponge.modulus_bit_size (sponge.get_bit v),
    length-bit_stream vs,
  )

  length-squeeze_each : (n : ℕ) (s : S) {vs : List F} → squeeze_each n s ≡ ok vs → length vs ≡ n
  unfolding squeeze_each
  length-squeeze_each zero s h = ground arith
  length-squeeze_each (suc n) s h =
      let drawn = sponge.squeeze_field_elements 1 s in
      let (v, _, others) =
        >>=-eq-ok (index drawn.0 0) (λ v. squeeze_each n drawn.1 >>= λ rest. ok (v ∷ rest)) h in
      let (rest, ran, end) = >>=-eq-ok (squeeze_each n drawn.1) (λ rest. ok (v ∷ rest)) others in
      ground (arith, length-squeeze_each n drawn.1 ran)

  needed-enough : {n : ℕ} → num_elements_needed ≡ ok n → bits_need ≤ n * usable_bits
  unfolding num_elements_needed
  needed-enough h = ground (
    arith,
    div-add-mod' (bits_need + usable_bits - 1) usable_bits,
    λ (pos : 0 < usable_bits). mod-lt (bits_need + usable_bits - 1) pos,
  )

  bit_stream-enough :
      (seed : F) {k : ℕ} {vs : List F}
      → num_elements_needed ≡ ok k
      → generate_random_values seed k ≡ ok vs
      → bits_need ≤ length (bit_stream vs)
  unfolding generate_random_values
  bit_stream-enough seed {k} {vs} needed ran =
      let drawn : length vs ≡ k = length-squeeze_each k (sponge.absorb seed sponge.new) ran in
      rw (length-bit_stream vs, drawn) (needed-enough needed)

  -- The elements that are drawn have bits enough: where the bits are derived, the stream that fills
  -- the matrix has all the `BITS_NEED` bits, and none of them is the default.
  pub derive_split_bits-enough :
      (seed : F) {mat : List (List Bool)} {n : ℕ}
      → derive_split_bits seed ≡ ok (mat, n)
      → (vs : List F) × (generate_random_values seed n ≡ ok vs)
        × (bits_need ≤ length (bit_stream vs))
        × (mat ≡ bit_matrix (bit_stream vs))
  unfolding derive_split_bits num_elements_needed generate_random_values
  derive_split_bits-enough seed h =
      let (k, needed, rest) =
        >>=-eq-ok num_elements_needed
          (λ k. generate_random_values seed k >>= λ vs. ok (bit_matrix (bit_stream vs), k)) h in
      let (vs, ran, end) =
        >>=-eq-ok (generate_random_values seed k) (λ vs. ok (bit_matrix (bit_stream vs), k)) rest in
      let (same_mat, same_n) = ok-pair end in
      (
        vs,
        subst (λ m. generate_random_values seed m ≡ ok vs) same_n ran,
        bit_stream-enough seed needed ran,
        sym same_mat,
      )
