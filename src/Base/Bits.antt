-- ===== src/Base/Bits.antt =====
-- `&`, `|` and `^` on machine words as arithmetic. The native operations stand for a recursion on
-- binary digits with the first number as fuel; the fuel is dropped first.
use Prim.Native.Nat.{min, max, digits, differ, bit_or-bitwise, bit_and-bitwise, bit_xor-bitwise}
use Prim.Native.Nat.{ℕ, zero, suc, ◌+◌, ◌-◌, ◌*◌, ◌/◌, ◌%◌, ◌^◌, ◌≤◌, ◌<◌, bit_and, bit_or, bit_xor}
use mathlib.Core.Path.{◌≡◌, refl, ap, ◌∙◌}
use native.Mathlib.Nat.{
  pow-suc, one-le-pow, div-div-eq-div-mul, mul_comm, mod-lt, mod-eq_of_lt, div-add-mod,
  add-mul-mod_self_right,
}
use native.Mathlib.Omega.{arith}

module _ (rest : ℕ → ℕ) (op : ℕ → ℕ → ℕ) where
  -- Any fuel that bounds the first number gives the same digits.
  digits_enough : (n m a b : ℕ) → a ≤ n → a ≤ m → digits rest op n a b ≡ digits rest op m a b
  digits_enough zero zero a b p q = refl
  digits_enough zero (suc m) zero b p q = refl
  digits_enough zero (suc m) (suc a) b p q = absurd (omega arith)
  digits_enough (suc n) zero zero b p q = refl
  digits_enough (suc n) zero (suc a) b p q = absurd (omega arith)
  digits_enough (suc n) (suc m) zero b p q = refl
  digits_enough (suc n) (suc m) (suc a) b p q =
      omega (arith, digits_enough n m (suc a / 2) (b / 2) (omega arith) (omega arith))

-- One equation for the lowest digit of each operation.
pub bit_and_digit : (a b : ℕ) → bit_and a b ≡ bit_and (a / 2) (b / 2) * 2 + min (a % 2) (b % 2)
bit_and_digit zero b = omega (arith, bit_and-bitwise 0 b, bit_and-bitwise 0 (b / 2))
bit_and_digit (suc a) b = omega (
  arith,
  bit_and-bitwise (suc a) b,
  bit_and-bitwise (suc a / 2) (b / 2),
  digits_enough (λ _. 0) min a (suc a / 2) (suc a / 2) (b / 2) (omega arith) (omega arith),
)

pub bit_or_digit : (a b : ℕ) → bit_or a b ≡ bit_or (a / 2) (b / 2) * 2 + max (a % 2) (b % 2)
bit_or_digit zero b = omega (arith, bit_or-bitwise 0 b, bit_or-bitwise 0 (b / 2))
bit_or_digit (suc a) b = omega (
  arith,
  bit_or-bitwise (suc a) b,
  bit_or-bitwise (suc a / 2) (b / 2),
  digits_enough (λ y. y) max a (suc a / 2) (suc a / 2) (b / 2) (omega arith) (omega arith),
)

pub bit_xor_digit : (a b : ℕ) → bit_xor a b ≡ bit_xor (a / 2) (b / 2) * 2 + differ (a % 2) (b % 2)
bit_xor_digit zero b = omega (arith, bit_xor-bitwise 0 b, bit_xor-bitwise 0 (b / 2))
bit_xor_digit (suc a) b = omega (
  arith,
  bit_xor-bitwise (suc a) b,
  bit_xor-bitwise (suc a / 2) (b / 2),
  digits_enough (λ y. y) differ a (suc a / 2) (suc a / 2) (b / 2) (omega arith) (omega arith),
)

bit_or-zero_below : (n a : ℕ) → a ≤ n → bit_or a 0 ≡ a
bit_or-zero_below n zero h = refl
bit_or-zero_below zero (suc a) h = absurd (omega arith)
bit_or-zero_below (suc n) (suc a) h =
    omega (arith, bit_or_digit (suc a) 0, bit_or-zero_below n (suc a / 2) (omega arith))

pub bit_or-zero : (a : ℕ) → bit_or a 0 ≡ a
bit_or-zero a = bit_or-zero_below a a (omega arith)

bit_and-zero_below : (n a : ℕ) → a ≤ n → bit_and a 0 ≡ 0
bit_and-zero_below n zero h = refl
bit_and-zero_below zero (suc a) h = absurd (omega arith)
bit_and-zero_below (suc n) (suc a) h =
    omega (arith, bit_and_digit (suc a) 0, bit_and-zero_below n (suc a / 2) (omega arith))

pub bit_and-zero : (a : ℕ) → bit_and a 0 ≡ 0
bit_and-zero a = bit_and-zero_below a a (omega arith)

twice_pow : (q k : ℕ) → q * 2 ^ suc k ≡ q * 2 ^ k * 2
twice_pow q k = omega (arith, ap (λ (t : ℕ). q * t) (pow-suc 2 k))

-- A field `q << k` and a value that fits the low `k` bits are added by `|`.
pub bit_or_disjoint : (k q r : ℕ) → r < 2 ^ k → bit_or (q * 2 ^ k) r ≡ q * 2 ^ k + r
bit_or_disjoint zero q r h = ground (arith, bit_or-zero q)
bit_or_disjoint (suc k) q r h = ground (
  arith,
  bit_or_digit (q * 2 ^ suc k) r,
  twice_pow q k,
  pow-suc 2 k,
  bit_or_disjoint k q (r / 2) (omega (arith, pow-suc 2 k)),
)

halve : (x : ℕ) → x * 2 / 2 ≡ x
halve x = omega arith

low_half : (k : ℕ) → (2 ^ suc k - 1) / 2 ≡ 2 ^ k - 1
low_half k = omega (arith, pow-suc 2 k)

-- `a` by its lowest digit, the `k` digits above it and the rest.
split : (a k : ℕ) → a ≡ a / 2 % 2 ^ k * 2 + a % 2 + a / 2 / 2 ^ k * 2 ^ suc k
split a k = omega (arith, div-add-mod (a / 2) (2 ^ k), twice_pow (a / 2 / 2 ^ k) k)

fits : (a k : ℕ) → a / 2 % 2 ^ k * 2 + a % 2 < 2 ^ suc k
fits a k = omega (arith, mod-lt (a / 2) (one-le-pow k 2 (omega arith)), pow-suc 2 k)

pub mod_double : (a k : ℕ) → a % 2 ^ suc k ≡ a / 2 % 2 ^ k * 2 + a % 2
mod_double a k =
    ap (λ (t : ℕ). t % 2 ^ suc k) (split a k)
    ∙ add-mul-mod_self_right (a / 2 % 2 ^ k * 2 + a % 2) (a / 2 / 2 ^ k) (2 ^ suc k)
    ∙ mod-eq_of_lt (fits a k)

-- A mask whose low `k` bits are clear.
pub bit_and_shifted : (k a m : ℕ) → bit_and a (m * 2 ^ k) ≡ bit_and (a / 2 ^ k) m * 2 ^ k
bit_and_shifted zero a m = ground arith
bit_and_shifted (suc k) a m =
    rw (twice_pow m k, pow-suc 2 k, mul_comm (2 ^ k) 2, ← div-div-eq-div-mul a 2 (2 ^ k))
      (omega (
        arith,
        bit_and_digit a (m * 2 ^ k * 2),
        ap (bit_and (a / 2)) (halve (m * 2 ^ k)),
        bit_and_shifted k (a / 2) m,
      ))

-- A mask of the low `k` bits is the remainder by `2 ^ k`.
pub bit_and_low : (k a : ℕ) → bit_and a (2 ^ k - 1) ≡ a % 2 ^ k
bit_and_low zero a = ground (arith, bit_and-zero a)
bit_and_low (suc k) a = ground (
  arith,
  bit_and_digit a (2 ^ suc k - 1),
  pow-suc 2 k,
  one-le-pow k 2,
  ap (bit_and (a / 2)) (low_half k),
  bit_and_low k (a / 2),
  mod_double a k,
)

below_one : (a : ℕ) → a < 2 ^ 0 → a ≡ 0
below_one a h = omega arith

-- Results stay within the width of the operands.
pub bit_and-lt : (k a b : ℕ) → a < 2 ^ k → bit_and a b < 2 ^ k
bit_and-lt zero a b h =
    omega (arith, ap (λ (t : ℕ). bit_and t b) (below_one a h), bit_and-bitwise 0 b)
bit_and-lt (suc k) a b h = omega (
  arith,
  bit_and_digit a b,
  pow-suc 2 k,
  bit_and-lt k (a / 2) (b / 2) (omega (arith, pow-suc 2 k)),
)

pub bit_or-lt : (k a b : ℕ) → a < 2 ^ k → b < 2 ^ k → bit_or a b < 2 ^ k
bit_or-lt zero a b h j =
    omega (arith, ap (λ (t : ℕ). bit_or t b) (below_one a h), below_one b j, bit_or-bitwise 0 b)
bit_or-lt (suc k) a b h j = omega (
  arith,
  bit_or_digit a b,
  pow-suc 2 k,
  bit_or-lt k (a / 2) (b / 2) (omega (arith, pow-suc 2 k)) (omega (arith, pow-suc 2 k)),
)

differ-lt : (x y : ℕ) → x < 2 → y < 2 → differ x y < 2
differ-lt zero y h j = j
differ-lt (suc zero) zero h j = omega arith
differ-lt (suc zero) (suc y) h j = omega arith
differ-lt (suc (suc x)) y h j = absurd (omega arith)

pub bit_xor-lt : (k a b : ℕ) → a < 2 ^ k → b < 2 ^ k → bit_xor a b < 2 ^ k
bit_xor-lt zero a b h j =
    omega (arith, ap (λ (t : ℕ). bit_xor t b) (below_one a h), below_one b j, bit_xor-bitwise 0 b)
bit_xor-lt (suc k) a b h j = omega (
  arith,
  bit_xor_digit a b,
  differ-lt (a % 2) (b % 2) (omega arith) (omega arith),
  pow-suc 2 k,
  bit_xor-lt k (a / 2) (b / 2) (omega (arith, pow-suc 2 k)) (omega (arith, pow-suc 2 k)),
)
