-- ===== src/Parse/Bytes.antt =====
-- Instruction sizes and words as arithmetic on bytes.
use nexus_zkvm.Base.{
  ℕ, zero, suc, ◌+◌, ◌*◌, ◌/◌, ◌%◌, ◌-◌, ◌^◌, ◌≡◌, ◌<◌, refl, ap, ◌∙◌, arith, not, ◌&&◌, ◌==◌,
  ==_refl, ==_ne, if◌then◌else◌, inl, inr, Bool-cases, bit_or, bit_xor, shl32, List, get_or,
}
use mathlib.Core.Path.{ap₂}
use Prim.Native.Nat.{differ}
use native.Mathlib.Decide.{dec_lt}
use nexus_zkvm.Base.Bits.{bit_xor_digit, bit_and_low, bit_or_disjoint}
use nexus_zkvm.Parse.{ax, inst_size, translate_nexus, le_word}

bit_xor-zero : (n x y : ℕ) → x + y < n → bit_xor x y ≡ 0 → x ≡ y
bit_xor-zero zero x y h e = absurd (omega (arith, h))
bit_xor-zero (suc n) x y h e = elim (dec_lt 0 (x + y)) [
  | yes more ↦
      let d = bit_xor_digit x y in
      let half : bit_xor (x / 2) (y / 2) ≡ 0 = omega (arith, d, e) in
      let same = bit_xor-zero n (x / 2) (y / 2) (omega (arith, h, more)) half in
      ground (arith, d, e, half, same)
  | no none ↦ omega (arith, none)
]

differ_self : (x : ℕ) → x < 2 → differ x x ≡ 0
differ_self zero h = refl
differ_self (suc zero) h = refl
differ_self (suc (suc x)) h = absurd (omega (arith, h))

bit_xor_self : (n x : ℕ) → x < n → bit_xor x x ≡ 0
bit_xor_self zero x h = absurd (omega (arith, h))
bit_xor_self (suc n) x h = elim (dec_lt 0 x) [
  | yes more ↦ omega (
    arith,
    differ_self (x % 2) (omega arith),
    bit_xor_digit x x,
    bit_xor_self n (x / 2) (omega (arith, h, more)),
  )
  | no none ↦ let e : x ≡ 0 = omega (arith, none) in rw e refl
]

ax_low : (k b : ℕ) → ax b (2 ^ k - 1) ≡ not (b % 2 ^ k == 2 ^ k - 1)
ax_low k b = rw bit_and_low (ap not (same (b % 2 ^ k) (2 ^ k - 1)))
  where
    same : (x y : ℕ) → (bit_xor x y == 0) ≡ (x == y)
    same x y = elim (Bool-cases (x == y)) [
      | inl e ↦
          let e' : x ≡ y = ground arith in
          rw (e', bit_xor_self (suc y) y (omega arith), ==_refl y) refl
      | inr e ↦ rw e (
          ==_ne (bit_xor x y) 0
            (λ z. let z' = bit_xor-zero (suc (x + y)) x y (omega arith) z in ground arith))
    ]

-- An instruction has four bytes exactly where the low two bits are set and the next three are not
-- all set.
pub inst_size_four : (b0 b1 : ℕ) → (inst_size b0 b1 == 4) ≡ (b0 % 4 == 3 && not (b0 % 32 == 31))
unfolding inst_size
inst_size_four b0 b1 = ground (arith, ax_low 2 b0, ax_low 5 b0)

-- The little-endian number of four bytes.
abbrev pub word_of : List ℕ → ℕ
word_of mem =
    get_or mem 0 0 + 2 ^ 8 * get_or mem 1 0 + 2 ^ 16 * get_or mem 2 0 + 2 ^ 24 * get_or mem 3 0

pub le_word_lem :
    (b0 b1 b2 b3 : ℕ)
    → b0 < 256
    → b1 < 256
    → b2 < 256
    → b3 < 256
    → le_word b0 b1 b2 b3 ≡ b0 + 2 ^ 8 * b1 + 2 ^ 16 * b2 + 2 ^ 24 * b3
le_word_lem b0 b1 b2 b3 h0 h1 h2 h3 =
    let e3 : shl32 b3 24 ≡ b3 * 2 ^ 24 = omega arith in
    let e2 : shl32 b2 16 ≡ b2 * 2 ^ 16 = omega arith in
    let e1 : shl32 b1 8 ≡ b1 * 2 ^ 8 = omega arith in
    let top : bit_or (shl32 b3 24) (shl32 b2 16) ≡ (b3 * 2 ^ 8 + b2) * 2 ^ 16 =
      ap₂ bit_or e3 e2 ∙ bit_or_disjoint 24 b3 (b2 * 2 ^ 16) (omega arith) ∙ omega arith in
    let upper : bit_or (bit_or (shl32 b3 24) (shl32 b2 16)) (shl32 b1 8)
        ≡ (b3 * 2 ^ 16 + b2 * 2 ^ 8 + b1) * 2 ^ 8 =
      ap₂ bit_or top e1
      ∙ bit_or_disjoint 16 (b3 * 2 ^ 8 + b2) (b1 * 2 ^ 8) (omega arith)
      ∙ omega arith in
    ap (λ k. bit_or k b0) upper
    ∙ bit_or_disjoint 8 (b3 * 2 ^ 16 + b2 * 2 ^ 8 + b1) b0 (omega arith)
    ∙ omega arith

-- ECALL and EBREAK name x10; every other word is kept.
abbrev pub nexus_word : ℕ → ℕ
nexus_word w = if w == 0x73 then 0x573 else if w == 0x100073 then 0x100573 else w

pub translate_nexus_lem : (w : ℕ) → translate_nexus w ≡ nexus_word w
unfolding translate_nexus
translate_nexus_lem w = ground arith
