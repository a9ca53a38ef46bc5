-- ===== src/Memory/CacheLine/Access.antt =====
-- Loads and stores of a cache line against the byte view of it.
use nexus_zkvm.Base.{
  ℕ, zero, suc, ◌⊎◌, ◌+◌, ◌*◌, ◌/◌, ◌%◌, ◌≤◌, ◌<◌, ◌≡◌, ◌≢◌, arith, ltb, ◌==◌, if◌then◌else◌,
  bit_and, bit_or, ap, ◌∙◌, ◌-◌, subst, Bool-cases, inl, inr, ==_iff, false,
}
use native.Mathlib.Decide.{dec_lt}
use nexus_zkvm.Base.Bits.{bit_and_shifted, bit_or_disjoint}
use nexus_zkvm.Base.Result.{ok, err, misaligned}
use nexus_zkvm.Rv32.{Lop, lb, lh, lw, lbu, lhu, Sop, sb, sh, sw}
use nexus_zkvm.Memory.CacheLine.{CacheLine, byte, half, load_line, store_line}
use nexus_zkvm.Memory.CacheLine.Bytes.{
  IsLine, offset, load_width, store_width, nth_byte, low1, low2, low3, low4, low5,
  store_line-inside, store_line-outside, store_line-length, store_line-ok,
}

-- The little-endian number of `n` bytes from the offset `o` on.
abbrev pub le_value : CacheLine → ℕ → ℕ → ℕ
le_value cl o zero = 0
le_value cl o (suc n) = byte cl o + 256 * le_value cl (o + 1) n

-- Sign extension for LB and LH, zero extension otherwise.
abbrev pub extend : Lop → ℕ → ℕ
extend lb v = if ltb v 0x80 then v else v + 0xffff_ff00
extend lh v = if ltb v 0x8000 then v else v + 0xffff_0000
extend lw v = v
extend lbu v = v
extend lhu v = v

bit_7 : (v : ℕ) → v < 256 → bit_and v 0x80 ≡ v / 128 * 128
bit_7 v h = ground (arith, bit_and_shifted 7 v 1, low1 (v / 128))

bit_15 : (v : ℕ) → v < 65536 → bit_and v 0x8000 ≡ v / 32768 * 32768
bit_15 v h = ground (arith, bit_and_shifted 15 v 1, low1 (v / 32768))

sign_8 : (v : ℕ) → v < 256 → bit_or 0xffff_ff00 v ≡ v + 0xffff_ff00
sign_8 v h = omega (arith, bit_or_disjoint 8 0xff_ffff v h)

sign_16 : (v : ℕ) → v < 65536 → bit_or 0xffff_0000 v ≡ v + 0xffff_0000
sign_16 v h = omega (arith, bit_or_disjoint 16 0xffff v h)

==-false : (a : ℕ) → (a == 0) ≡ false → a ≢ 0
==-false a h e = ground arith

half-lt : (cl : CacheLine) → IsLine cl → (i : ℕ) → half cl i < 65536
half-lt cl line i = omega (arith, line.1 (2 * i), line.1 (2 * i + 1))

module _ (cl : CacheLine) (line : IsLine cl) where
  load_line-aligned :
      (lop : Lop) (addr : ℕ)
      → addr % load_width lop ≡ 0
      → load_line cl lop addr ≡ ok (extend lop (le_value cl (offset addr) (load_width lop)))
  unfolding load_line
  load_line-aligned lb addr a =
      let v = byte cl (addr % 32) in
      ground (arith, low5 addr, bit_7 v, sign_8 v, line.1 (addr % 32))
  load_line-aligned lh addr a =
      let v = half cl (addr / 2 % 16) in
      ground
        (arith, low1 addr, low4 (addr / 2), bit_15 v, sign_16 v, half-lt cl line (addr / 2 % 16))
  load_line-aligned lw addr a = ground (arith, low2 addr, low3 (addr / 4))
  load_line-aligned lbu addr a = ground (arith, low5 addr)
  load_line-aligned lhu addr a = ground (arith, low1 addr, low4 (addr / 2))

  load_line-misaligned :
      (lop : Lop) (addr : ℕ)
      → addr % load_width lop ≢ 0
      → load_line cl lop addr ≡ err (misaligned addr)
  unfolding load_line
  load_line-misaligned lb addr h = absurd (h (omega arith))
  load_line-misaligned lh addr h = ground (arith, low1 addr)
  load_line-misaligned lw addr h = ground (arith, low2 addr)
  load_line-misaligned lbu addr h = absurd (h (omega arith))
  load_line-misaligned lhu addr h = ground (arith, low1 addr)

  -- From a line of 32 bytes, each below 256, a load at an aligned address reads its width in bytes,
  -- little-endian, from the address's offset in the line, and extends the number as the operation
  -- says; at any other address it is a misaligned access.
  pub load_line_lem :
      (lop : Lop) (addr : ℕ)
      → load_line cl lop addr ≡ (
          if addr % load_width lop == 0
          then ok (extend lop (le_value cl (offset addr) (load_width lop)))
          else err (misaligned addr))
  load_line_lem lop addr = elim (Bool-cases (addr % load_width lop == 0)) [
    | inl yes_aligned ↦ rw yes_aligned (load_line-aligned lop addr ((==_iff _ 0).0 yes_aligned))
    | inr not_aligned ↦
        rw not_aligned (load_line-misaligned lop addr (λ e. ==-false _ not_aligned e))
  ]

nth_byte-lt : (v k : ℕ) → nth_byte v k < 256
nth_byte-lt v zero = omega arith
nth_byte-lt v (suc k) = nth_byte-lt (v / 256) k

-- What a store leaves behind: the bytes of the value inside its range, the old bytes outside.
pub record IsStored (cl : CacheLine) (sop : Sop) (addr val : ℕ) (new : CacheLine) : Type 0 where
  pub inside : (k : ℕ) → k < store_width sop → byte new (offset addr + k) ≡ nth_byte val k
  pub outside :
      (j : ℕ) → (j < offset addr) ⊎ (offset addr + store_width sop ≤ j) → byte new j ≡ byte cl j
  pub is_line : IsLine new

module _ (cl : CacheLine) (line : IsLine cl) (sop : Sop) (addr val : ℕ) (fits : val < 0x1_0000_0000)
    (aligned : addr % store_width sop ≡ 0) where
  stored-lt : (j : ℕ) → byte (store_line cl sop addr val).1 j < 256
  stored-lt j = elim (dec_lt j (offset addr)) [
    | yes below ↦ rw (store_line-outside cl line.0 sop addr val j (inl below)) (line.1 j)
    | no above ↦ elim (dec_lt j (offset addr + store_width sop)) [
      | yes within ↦
          let back : offset addr + (j - offset addr) ≡ j = omega arith in
          subst (λ n. byte (store_line cl sop addr val).1 n < 256) back
            (rw
              (store_line-inside cl line.0 sop addr val (j - offset addr) fits aligned
                (omega arith))
              (nth_byte-lt val (j - offset addr)))
      | no past ↦ rw (store_line-outside cl line.0 sop addr val j (inr (omega arith))) (line.1 j)
    ]
  ]

  -- A store of a u32 at an aligned address of a line of 32 bytes, each below 256, succeeds; it
  -- writes the bytes of the value, lowest first, to its range, leaves the other bytes as they were,
  -- and leaves such a line.
  pub store_line-IsStored :
      ((store_line cl sop addr val).0 ≡ ok tt)
      × IsStored cl sop addr val (store_line cl sop addr val).1
  store_line-IsStored = (
    store_line-ok cl line.0 sop addr val aligned,
    record {
      inside = λ k h. store_line-inside cl line.0 sop addr val k fits aligned h;
      outside = λ j h. store_line-outside cl line.0 sop addr val j h;
      is_line = (store_line-length cl line.0 sop addr val, stored-lt);
    },
  )

-- The value of the bytes that a store wrote.
abbrev pub truncate : Sop → ℕ → ℕ
truncate sb v = v % 0x100
truncate sh v = v % 0x1_0000
truncate sw v = v

stored-le_value :
    (cl new : CacheLine) (sop : Sop) (addr val : ℕ)
    → val < 0x1_0000_0000
    → IsStored cl sop addr val new
    → le_value new (offset addr) (store_width sop) ≡ truncate sop val
stored-le_value cl new sb addr val v s = ground (arith, s.inside 0)
stored-le_value cl new sh addr val v s = ground (arith, s.inside 0, s.inside 1)
stored-le_value cl new sw addr val v s =
    ground (arith, s.inside 0, s.inside 1, s.inside 2, s.inside 3)

-- In a line of 32 bytes, each below 256, a load of a width from the aligned address of a store of
-- that width gives the stored u32, cut to the width and extended as the load says.
pub load_line-store_line :
    (cl : CacheLine) (sop : Sop) (lop : Lop) (addr val : ℕ)
    → IsLine cl
    → val < 0x1_0000_0000
    → load_width lop ≡ store_width sop
    → addr % store_width sop ≡ 0
    → load_line (store_line cl sop addr val).1 lop addr ≡ ok (extend lop (truncate sop val))
load_line-store_line cl sop lop addr val line v w a =
    let (_, s) = store_line-IsStored cl line sop addr val v a in
    load_line-aligned (store_line cl sop addr val).1 s.is_line lop addr (rw w a)
    ∙ ap (λ (n : ℕ). ok (extend lop n))
        (rw w (stored-le_value cl (store_line cl sop addr val).1 sop addr val v s))
