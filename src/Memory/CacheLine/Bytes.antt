-- ===== src/Memory/CacheLine/Bytes.antt =====
-- A cache line as 32 bytes: what each load reads and each store writes, byte by byte.
use nexus_zkvm.Base.{
  ℕ, zero, suc, ◌⊎◌, ◌+◌, ◌*◌, ◌/◌, ◌%◌, ◌≤◌, ◌<◌, ◌≡◌, ◌≢◌, refl, arith, ◌==◌, if◌then◌else◌,
  length, length-set, get_or-set_self, get_or-set_ne, get_or-replicate, bit_and,
}
use nexus_zkvm.Base.Bits.{bit_and_low}
use nexus_zkvm.Base.Result.{ok, err, misaligned}
use nexus_zkvm.Rv32.{Lop, lb, lh, lw, lbu, lhu, Sop, sb, sh, sw}
use nexus_zkvm.Memory.CacheLine.{
  CacheLine, zero_line, byte, set_byte, set_half, set_word, store_line,
}

-- A line has 32 bytes.
abbrev pub IsLine : CacheLine → Type 0
IsLine cl = (length cl ≡ 32) × ((j : ℕ) → byte cl j < 256)

module _ (cl : CacheLine) (size : length cl ≡ 32) where
  byte-set_byte :
      (i j v : ℕ) → i < 32 → byte (set_byte cl i v) j ≡ (if i == j then v else byte cl j)
  byte-set_byte i j v h = ground (arith, get_or-set_self cl i v 0, get_or-set_ne cl i j v 0)

module _ (cl : CacheLine) (size : length cl ≡ 32) where
  byte-set_half :
      (i j v : ℕ)
      → i < 16
      → byte (set_half cl i v) j
        ≡ (if 2 * i == j then v % 256 else if 2 * i + 1 == j then v / 256 else byte cl j)
  byte-set_half i j v h = ground (
    arith,
    byte-set_byte cl size (2 * i) j (v % 256),
    byte-set_byte (set_byte cl (2 * i) (v % 256)) (omega (arith, length-set cl (2 * i) (v % 256)))
        (2 * i + 1) j (v / 256),
  )

  length-set_half : (i v : ℕ) → length (set_half cl i v) ≡ 32
  length-set_half i v = omega (
    arith,
    length-set cl (2 * i) (v % 256),
    length-set (set_byte cl (2 * i) (v % 256)) (2 * i + 1) (v / 256),
  )

module _ (cl : CacheLine) (size : length cl ≡ 32) where
  byte-set_word :
      (i j v : ℕ)
      → i < 8
      → byte (set_word cl i v) j ≡ (
          if 4 * i == j
          then v % 65536 % 256
          else if 4 * i + 1 == j
          then v % 65536 / 256
          else if 4 * i + 2 == j
          then v / 65536 % 256
          else if 4 * i + 3 == j
          then v / 65536 / 256
          else byte cl j)
  byte-set_word i j v h = ground (
    arith,
    byte-set_half cl size (2 * i) j (v % 65536),
    byte-set_half (set_half cl (2 * i) (v % 65536)) (length-set_half cl size (2 * i) (v % 65536))
        (2 * i + 1) j (v / 65536),
  )

  length-set_word : (i v : ℕ) → length (set_word cl i v) ≡ 32
  length-set_word i v =
      length-set_half (set_half cl (2 * i) (v % 65536))
        (length-set_half cl size (2 * i) (v % 65536)) (2 * i + 1) (v / 65536)

-- The offset of an address in its line, and the widths of the accesses.
abbrev pub offset : ℕ → ℕ
offset addr = addr % 32

abbrev pub store_width : Sop → ℕ
store_width sb = 1
store_width sh = 2
store_width sw = 4

abbrev pub load_width : Lop → ℕ
load_width lb = 1
load_width lh = 2
load_width lw = 4
load_width lbu = 1
load_width lhu = 2

-- The n-th byte of a value, lowest first.
abbrev pub nth_byte : ℕ → ℕ → ℕ
nth_byte v zero = v % 256
nth_byte v (suc n) = nth_byte (v / 256) n

-- The masks of the source as remainders.
pub low1 : (a : ℕ) → bit_and a 1 ≡ a % 2
low1 a = bit_and_low 1 a

pub low2 : (a : ℕ) → bit_and a 3 ≡ a % 4
low2 a = bit_and_low 2 a

pub low3 : (a : ℕ) → bit_and a 7 ≡ a % 8
low3 a = bit_and_low 3 a

pub low4 : (a : ℕ) → bit_and a 15 ≡ a % 16
low4 a = bit_and_low 4 a

pub low5 : (a : ℕ) → bit_and a 31 ≡ a % 32
low5 a = bit_and_low 5 a

module _ (cl : CacheLine) (size : length cl ≡ 32) where
  -- A store at an address that is no multiple of its width fails with that address and leaves the
  -- line, of 32 bytes, as it was.
  pub store_line-misaligned :
      (sop : Sop) (addr val : ℕ)
      → addr % store_width sop ≢ 0
      → store_line cl sop addr val ≡ (err (misaligned addr), cl)
  unfolding store_line
  store_line-misaligned sb addr val h = absurd (h (omega arith))
  store_line-misaligned sh addr val h = ground (arith, low1 addr)
  store_line-misaligned sw addr val h = ground (arith, low2 addr)

  pub store_line-inside :
      (sop : Sop) (addr val k : ℕ)
      → val < 0x1_0000_0000
      → addr % store_width sop ≡ 0
      → k < store_width sop
      → byte (store_line cl sop addr val).1 (offset addr + k) ≡ nth_byte val k
  unfolding store_line
  store_line-inside sb addr val zero v a h =
      ground (arith, low5 addr, byte-set_byte cl size (addr % 32) (addr % 32 + 0) (val % 256))
  store_line-inside sh addr val zero v a h = ground (
    arith,
    low1 addr,
    low4 (addr / 2),
    byte-set_half cl size (addr / 2 % 16) (addr % 32 + 0) (val % 65536),
  )
  store_line-inside sh addr val (suc zero) v a h = ground (
    arith,
    low1 addr,
    low4 (addr / 2),
    byte-set_half cl size (addr / 2 % 16) (addr % 32 + 1) (val % 65536),
  )
  store_line-inside sw addr val zero v a h =
      ground (
        arith,
        low2 addr,
        low3 (addr / 4),
        byte-set_word cl size (addr / 4 % 8) (addr % 32 + 0) val,
      )
  store_line-inside sw addr val (suc zero) v a h =
      ground (
        arith,
        low2 addr,
        low3 (addr / 4),
        byte-set_word cl size (addr / 4 % 8) (addr % 32 + 1) val,
      )
  store_line-inside sw addr val (suc (suc zero)) v a h =
      ground (
        arith,
        low2 addr,
        low3 (addr / 4),
        byte-set_word cl size (addr / 4 % 8) (addr % 32 + 2) val,
      )
  store_line-inside sw addr val (suc (suc (suc zero))) v a h =
      ground (
        arith,
        low2 addr,
        low3 (addr / 4),
        byte-set_word cl size (addr / 4 % 8) (addr % 32 + 3) val,
      )
  store_line-inside sb addr val (suc k) v a h = absurd (omega arith)
  store_line-inside sh addr val (suc (suc k)) v a h = absurd (omega arith)
  store_line-inside sw addr val (suc (suc (suc (suc k)))) v a h = absurd (omega arith)

  pub store_line-outside :
      (sop : Sop) (addr val j : ℕ)
      → (j < offset addr) ⊎ (offset addr + store_width sop ≤ j)
      → byte (store_line cl sop addr val).1 j ≡ byte cl j
  unfolding store_line
  store_line-outside sb addr val j h =
      ground (arith, low5 addr, byte-set_byte cl size (addr % 32) j (val % 256))
  store_line-outside sh addr val j h =
      ground
        (arith, low1 addr, low4 (addr / 2), byte-set_half cl size (addr / 2 % 16) j (val % 65536))
  store_line-outside sw addr val j h =
      ground (arith, low2 addr, low3 (addr / 4), byte-set_word cl size (addr / 4 % 8) j val)

  pub store_line-length : (sop : Sop) (addr val : ℕ) → length (store_line cl sop addr val).1 ≡ 32
  unfolding store_line
  store_line-length sb addr val = omega (arith, length-set cl (bit_and addr 31) (val % 256))
  store_line-length sh addr val =
      ground (arith, length-set_half cl size (bit_and (addr / 2) 15) (val % 65536))
  store_line-length sw addr val = ground (arith, length-set_word cl size (bit_and (addr / 4) 7) val)

  pub store_line-ok :
      (sop : Sop) (addr val : ℕ)
      → addr % store_width sop ≡ 0
      → (store_line cl sop addr val).0 ≡ ok tt
  unfolding store_line
  store_line-ok sb addr val a = refl
  store_line-ok sh addr val a = ground (arith, low1 addr)
  store_line-ok sw addr val a = ground (arith, low2 addr)

pub zero_line-IsLine : IsLine zero_line
zero_line-IsLine = (refl, λ j. omega (arith, get_or-replicate {A = ℕ} 32 j 0))
