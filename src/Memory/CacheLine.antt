-- ===== src/Memory/CacheLine.antt =====
-- Cache lines (vm/src/memory/cacheline.rs). The source's union of words, halves and bytes is its
-- 32 bytes; a half or a word of it is read and written in little-endian order, as on the targets
-- that the source's own tests suppose.
pub mod Bytes
pub mod Access
use nexus_zkvm.Base.{
  ℕ, ◌+◌, ◌*◌, ◌/◌, ◌%◌, ◌^◌, bit_and, bit_or, List, [], ◌∷◌, ◌==◌, get_or, set, replicate, take,
  drop, if◌then◌else◌,
}
use nexus_zkvm.Base.Result.{Result, ok, err, ◌>>=◌, misaligned}
use nexus_zkvm.Rv32.{Lop, lb, lh, lw, lbu, lhu, Sop, sb, sh, sw}

-- `union CacheLine`.
abbrev pub CacheLine : Type 0
CacheLine = List ℕ

-- `CacheLine::default()` and `CacheLine::ZERO`.
abbrev pub zero_line : CacheLine
zero_line = replicate 32 0

-- `self.bytes[i]`, `self.halfs[i]` and `self.words[i]`.
abbrev pub byte : CacheLine → ℕ → ℕ
byte cl i = get_or cl i 0

abbrev pub half : CacheLine → ℕ → ℕ
half cl i = byte cl (2 * i) + 2 ^ 8 * byte cl (2 * i + 1)

abbrev pub word : CacheLine → ℕ → ℕ
word cl i = half cl (2 * i) + 2 ^ 16 * half cl (2 * i + 1)

abbrev pub set_byte : CacheLine → ℕ → ℕ → CacheLine
set_byte cl i v = set cl i v

abbrev pub set_half : CacheLine → ℕ → ℕ → CacheLine
set_half cl i v = set_byte (set_byte cl (2 * i) (v % 2 ^ 8)) (2 * i + 1) (v / 2 ^ 8)

abbrev pub set_word : CacheLine → ℕ → ℕ → CacheLine
set_word cl i v = set_half (set_half cl (2 * i) (v % 2 ^ 16)) (2 * i + 1) (v / 2 ^ 16)

unfoldable pub load_lbu : CacheLine → ℕ → Result ℕ
load_lbu cl addr = ok (byte cl (bit_and addr 31))

unfoldable pub load_lhu : CacheLine → ℕ → Result ℕ
load_lhu cl addr =
    if bit_and addr 1 == 0 then ok (half cl (bit_and (addr / 2 ^ 1) 15)) else err (misaligned addr)

unfoldable pub load_lw : CacheLine → ℕ → Result ℕ
load_lw cl addr =
    if bit_and addr 3 == 0 then ok (word cl (bit_and (addr / 2 ^ 2) 7)) else err (misaligned addr)

unfoldable pub load_lb : CacheLine → ℕ → Result ℕ
unfolding load_lbu
load_lb cl addr = load_lbu cl addr >>= λ val.
    if bit_and val 0x80 == 0 then ok val else ok (bit_or 0xffff_ff00 val)

unfoldable pub load_lh : CacheLine → ℕ → Result ℕ
unfolding load_lhu
load_lh cl addr = load_lhu cl addr >>= λ val.
    if bit_and val 0x8000 == 0 then ok val else ok (bit_or 0xffff_0000 val)

-- `CacheLine::load`.
unfoldable pub load_line : CacheLine → Lop → ℕ → Result ℕ
unfolding load_lb load_lh load_lw load_lbu load_lhu
load_line cl lb addr = load_lb cl addr
load_line cl lh addr = load_lh cl addr
load_line cl lw addr = load_lw cl addr
load_line cl lbu addr = load_lbu cl addr
load_line cl lhu addr = load_lhu cl addr

-- The stores return the line that they leave behind; they write nothing where they fail.
unfoldable pub store_sb : CacheLine → ℕ → ℕ → Result {0} Unit × CacheLine
store_sb cl addr val = (ok tt, set_byte cl (bit_and addr 31) val)

unfoldable pub store_sh : CacheLine → ℕ → ℕ → Result {0} Unit × CacheLine
store_sh cl addr val =
    if bit_and addr 1 == 0
    then (ok tt, set_half cl (bit_and (addr / 2 ^ 1) 15) val)
    else (err (misaligned addr), cl)

unfoldable pub store_sw : CacheLine → ℕ → ℕ → Result {0} Unit × CacheLine
store_sw cl addr val =
    if bit_and addr 3 == 0
    then (ok tt, set_word cl (bit_and (addr / 2 ^ 2) 7) val)
    else (err (misaligned addr), cl)

-- `CacheLine::store`, with the casts `val as u8` and `val as u16`.
unfoldable pub store_line : CacheLine → Sop → ℕ → ℕ → Result {0} Unit × CacheLine
unfolding store_sb store_sh store_sw
store_line cl sb addr val = store_sb cl addr (val % 2 ^ 8)
store_line cl sh addr val = store_sh cl addr (val % 2 ^ 16)
store_line cl sw addr val = store_sw cl addr val

-- The field of the commitments is `ark_bn254::Fr`; its `from_le_bytes_mod_order` is a parameter.
module _ {F : Type 0} (from_le_bytes_mod_order : List ℕ → F) where
  -- `CacheLine::scalars`.
  unfoldable pub scalars : CacheLine → F × F
  scalars cl =
      (from_le_bytes_mod_order (take 16 cl), from_le_bytes_mod_order (take 16 (drop 16 cl)))
