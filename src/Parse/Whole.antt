-- ===== src/Parse/Whole.antt =====
-- `parse_inst` and `parse_buf`: what a parsed instruction records, and the errors.
use nexus_zkvm.Base.{
  ℕ, zero, suc, ◌+◌, ◌*◌, ◌-◌, ◌%◌, ◌^◌, ◌≡◌, ◌≢◌, ◌≤◌, ◌<◌, ◌↔◌, ap, sym, ◌∙◌, arith, false, not,
  ◌&&◌, ◌==◌, Option, some, List, [], ◌∷◌, length, drop, get_or, length-drop, refl, Bool-cases, ltb,
  leb, leb→le, inl, inr, u32_mod,
}
use nexus_zkvm.Base.Result.{Result, ok, err, panic, ◌>>=◌}
use nexus_zkvm.Rv32.{Inst}
use nexus_zkvm.Parse.{
  parse_u32, parse_word, parse_inst, parse_from, parse_buf, push_inst, checked_add, translate_nexus,
  le_word, inst_size,
}
use nexus_zkvm.Parse.Bytes.{inst_size_four, word_of, le_word_lem, nexus_word, translate_nexus_lem}

-- The numbers are bytes.
abbrev pub AreBytes : List ℕ → Type 0
AreBytes [] = Unit
AreBytes (b ∷ bs) = (b < 256) × AreBytes bs

-- A parsed instruction records where it was found, the four bytes of its length, and the
-- little-endian word of the first four bytes, which has the size bits of four bytes and parses to its
-- syntax.
pub record IsParsed (pc : ℕ) (mem : List ℕ) (i : Inst) : Type 0 where
  pub at_pc : i.pc ≡ pc
  pub four_bytes : i.len ≡ 4
  pub has_four : 4 ≤ length mem
  pub low_bits : get_or mem 0 0 % 4 ≡ 3
  pub next_bits : get_or mem 0 0 % 32 ≢ 31
  pub same_word : i.word ≡ nexus_word (word_of mem)
  pub word_parses : parse_u32 i.word ≡ ok (some i.inst)

parse_word-eq-ok :
    (pc sz word : ℕ) {i : Inst}
    → parse_word pc sz word ≡ ok i
    → (i.pc ≡ pc) × (i.len ≡ sz) × (i.word ≡ word) × (parse_u32 word ≡ ok (some i.inst))
unfolding parse_word
parse_word-eq-ok pc sz word h = ground arith

parse_word-ok :
    (pc sz word : ℕ) (i : Inst)
    → i.pc ≡ pc
    → i.len ≡ sz
    → i.word ≡ word
    → parse_u32 word ≡ ok (some i.inst)
    → parse_word pc sz word ≡ ok i
unfolding parse_word
parse_word-ok pc sz word i e1 e2 e3 h = rw (h, ← e1, ← e2, ← e3) refl

-- What is not an instruction is not the result.
parse_inst-short :
    (pc : ℕ) (mem : List ℕ) (i : Inst) → length mem < 4 → parse_inst pc mem ≡ ok i → ⊥
unfolding parse_inst
parse_inst-short pc [] i s h = cc
parse_inst-short pc (b0 ∷ []) i s h = cc
parse_inst-short pc (b0 ∷ b1 ∷ []) i s h = ground arith
parse_inst-short pc (b0 ∷ b1 ∷ b2 ∷ []) i s h = ground arith
parse_inst-short pc (b0 ∷ b1 ∷ b2 ∷ b3 ∷ r) i s h = omega (arith, s)

module _ (pc b0 b1 b2 b3 : ℕ) (r : List ℕ) where
  abbrev bytes : List ℕ
  bytes = b0 ∷ b1 ∷ b2 ∷ b3 ∷ r

  parse_inst-four :
      inst_size b0 b1 ≡ 4
      → parse_inst pc bytes
        ≡ parse_word pc (inst_size b0 b1) (translate_nexus (le_word b0 b1 b2 b3))
  unfolding parse_inst
  parse_inst-four e = let room : ltb (length bytes) 4 ≡ false = ground arith in rw (e, room) refl

  parse_inst-size : (i : Inst) → parse_inst pc bytes ≡ ok i → inst_size b0 b1 ≡ 4
  unfolding parse_inst
  parse_inst-size i h = ground arith

  word_lem :
      b0 < 256
      → b1 < 256
      → b2 < 256
      → b3 < 256
      → translate_nexus (le_word b0 b1 b2 b3) ≡ nexus_word (word_of bytes)
  word_lem h0 h1 h2 h3 =
      ap translate_nexus (le_word_lem b0 b1 b2 b3 h0 h1 h2 h3) ∙ translate_nexus_lem _

-- On bytes, `parse_inst` returns an instruction exactly where there are four bytes of which the first
-- has the size bits of four bytes and the little-endian word parses, with ECALL and EBREAK naming
-- x10. It records the given address, the length 4, the word and its syntax.
pub parse_inst-IsParsed :
    (pc : ℕ) (mem : List ℕ) (i : Inst)
    → AreBytes mem
    → (parse_inst pc mem ≡ ok i) ↔ IsParsed pc mem i
parse_inst-IsParsed pc [] i b = (
  λ h. absurd (parse_inst-short pc [] i (omega arith) h),
  λ p. absurd (omega (arith, p.has_four)),
)
parse_inst-IsParsed pc (b0 ∷ []) i b = (
  λ h. absurd (parse_inst-short pc (b0 ∷ []) i (omega arith) h),
  λ p. absurd (omega (arith, p.has_four)),
)
parse_inst-IsParsed pc (b0 ∷ b1 ∷ []) i b = (
  λ h. absurd (parse_inst-short pc (b0 ∷ b1 ∷ []) i (omega arith) h),
  λ p. absurd (omega (arith, p.has_four)),
)
parse_inst-IsParsed pc (b0 ∷ b1 ∷ b2 ∷ []) i b = (
  λ h. absurd (parse_inst-short pc (b0 ∷ b1 ∷ b2 ∷ []) i (omega arith) h),
  λ p. absurd (omega (arith, p.has_four)),
)
parse_inst-IsParsed pc (b0 ∷ b1 ∷ b2 ∷ b3 ∷ r) i (h0, (h1, (h2, (h3, _)))) = (forward, backward)
  where
    size : (inst_size b0 b1 == 4) ≡ (b0 % 4 == 3 && not (b0 % 32 == 31))
    size = inst_size_four b0 b1

    same : translate_nexus (le_word b0 b1 b2 b3) ≡ nexus_word (word_of (b0 ∷ b1 ∷ b2 ∷ b3 ∷ r))
    same = word_lem pc b0 b1 b2 b3 r h0 h1 h2 h3

    forward : parse_inst pc (b0 ∷ b1 ∷ b2 ∷ b3 ∷ r) ≡ ok i → IsParsed pc (b0 ∷ b1 ∷ b2 ∷ b3 ∷ r) i
    forward h =
        let four = parse_inst-size pc b0 b1 b2 b3 r i h in
        let (at, len, word, parses) =
          parse_word-eq-ok pc _ _ (sym (parse_inst-four pc b0 b1 b2 b3 r four) ∙ h) in
        record {
          at_pc = at;
          four_bytes = len ∙ four;
          has_four = omega arith;
          low_bits = ground (arith, size, four);
          next_bits = λ e. ground (arith, size, four);
          same_word = word ∙ same;
          word_parses = ap parse_u32 word ∙ parses;
        }

    backward : IsParsed pc (b0 ∷ b1 ∷ b2 ∷ b3 ∷ r) i → parse_inst pc (b0 ∷ b1 ∷ b2 ∷ b3 ∷ r) ≡ ok i
    backward p =
        let four : inst_size b0 b1 ≡ 4 = ground (arith, size, p.low_bits, p.next_bits) in
        parse_inst-four pc b0 b1 b2 b3 r four
        ∙ parse_word-ok pc (inst_size b0 b1) _ i (p.at_pc) (p.four_bytes ∙ sym four)
            (p.same_word ∙ sym same) (ap parse_u32 (same ∙ sym (p.same_word)) ∙ p.word_parses)

-- The instructions stand one after the other from offset `i` on, each at an address that adds the
-- offset's lower 32 bits to `pc`, and each parsed from its four bytes.
abbrev pub ArePlaced : ℕ → List ℕ → ℕ → List Inst → Type 0
ArePlaced pc mem i [] = Unit
ArePlaced pc mem i (inst ∷ v) =
    IsParsed (pc + i % 2 ^ 32) (drop i mem) inst × ArePlaced pc mem (i + 4) v

-- What the loop parses at an offset.
abbrev pub at_offset : ℕ → List ℕ → ℕ → Result Inst
at_offset pc mem i = checked_add pc (i % u32_mod) >>= λ at. parse_inst at (drop i mem)

-- Some instructions from offset `i` on, and what the loop meets after them, inside the buffer.
abbrev pub StopsAt : ℕ → List ℕ → ℕ → Result Inst → Type 0
StopsAt pc mem i q =
    (v : List Inst) × ArePlaced pc mem i v
    × (i + length v * 4 < length mem)
    × (at_offset pc mem (i + length v * 4) ≡ q)

-- What a run of the loop from offset `i` says about the rest of the bytes: all of them are the
-- instructions that it returns, or it ends as the parse of the first four bytes that fail.
abbrev pub Covers : ℕ → List ℕ → ℕ → Result (List Inst) → Type 0
Covers pc mem i (ok v) = ArePlaced pc mem i v × (length mem - i ≡ length v * 4)
Covers pc mem i (err e) = StopsAt pc mem i (err e)
Covers pc mem i panic = StopsAt pc mem i panic

StopsAt-here :
    (pc : ℕ) (mem : List ℕ) (i : ℕ) (q : Result Inst)
    → i < length mem
    → at_offset pc mem i ≡ q
    → StopsAt pc mem i q
StopsAt-here pc mem i q h e =
    let same : i + 0 ≡ i = omega arith in ([], tt, omega arith, ap (at_offset pc mem) same ∙ e)

StopsAt-cons :
    (pc : ℕ) (mem : List ℕ) (i : ℕ) (inst : Inst) (q : Result Inst)
    → IsParsed (pc + i % 2 ^ 32) (drop i mem) inst
    → StopsAt pc mem (i + 4) q
    → StopsAt pc mem i q
StopsAt-cons pc mem i inst q p (v, placed, inside, stops) =
    let same : i + length (inst ∷ v) * 4 ≡ i + 4 + length v * 4 = omega arith in
    (inst ∷ v, (p, placed), omega (arith, inside), ap (at_offset pc mem) same ∙ stops)

-- One instruction before those of a run that covers the rest.
Covers-cons :
    (pc : ℕ) (mem : List ℕ) (i : ℕ) (inst : Inst) (r : Result (List Inst))
    → IsParsed (pc + i % 2 ^ 32) (drop i mem) inst
    → Covers pc mem (i + 4) r
    → Covers pc mem i (r >>= λ v. ok (inst ∷ v))
Covers-cons pc mem i inst (ok v) p (placed, count) =
    ((p, placed), omega (arith, p.has_four, length-drop i mem, count))
Covers-cons pc mem i inst (err e) p c = StopsAt-cons pc mem i inst (err e) p c
Covers-cons pc mem i inst panic p c = StopsAt-cons pc mem i inst panic p c

AreBytes-drop : (n : ℕ) (mem : List ℕ) → AreBytes mem → AreBytes (drop n mem)
AreBytes-drop zero mem b = b
AreBytes-drop (suc n) [] b = b
AreBytes-drop (suc n) (x ∷ mem) b = AreBytes-drop n mem (b.1)

module _ (pc : ℕ) (mem : List ℕ) (b : AreBytes mem) where
  at_offset-IsParsed :
      (i : ℕ) {inst : Inst}
      → at_offset pc mem i ≡ ok inst
      → IsParsed (pc + i % 2 ^ 32) (drop i mem) inst
  at_offset-IsParsed i {inst} h =
      (parse_inst-IsParsed (pc + i % 2 ^ 32) (drop i mem) inst (AreBytes-drop i mem b)).0
        (ground arith)

  abbrev Total : ℕ → Option (Result (List Inst)) → Type 0
  Total i o = (r : Result (List Inst)) × (o ≡ some r) × Covers pc mem i r

  push_inst-Total :
      (fuel i : ℕ) (q : Result Inst)
      → i < length mem
      → at_offset pc mem i ≡ q
      → ((inst : Inst) → q ≡ ok inst → Total (i + 4) (parse_from fuel pc mem (i + 4)))
      → Total i (push_inst (λ n. parse_from fuel pc mem (i + n)) q)
  push_inst-Total fuel i (ok inst) h e rest =
      let (r, found, covered) = rest inst refl in
      let p = at_offset-IsParsed i e in
      (r >>= λ v. ok (inst ∷ v), rw (p.four_bytes, found), Covers-cons pc mem i inst r p covered)
  push_inst-Total fuel i (err x) h e rest = (err x, refl, StopsAt-here pc mem i (err x) h e)
  push_inst-Total fuel i panic h e rest = (panic, refl, StopsAt-here pc mem i panic h e)

  parse_from-Total : (fuel i : ℕ) → length mem - i < fuel → Total i (parse_from fuel pc mem i)
  unfolding parse_from
  parse_from-Total zero i h = absurd (omega arith)
  parse_from-Total (suc fuel) i h = elim (Bool-cases (leb (length mem) i)) [
    | inl past ↦ rw past (ok [], refl, (tt, omega (arith, leb→le _ _ past)))
    | inr inside ↦ rw inside (
        push_inst-Total fuel i (at_offset pc mem i) (ground arith) refl λ inst parsed.
          let p = at_offset-IsParsed i {inst = inst} parsed in
          parse_from-Total fuel (i + 4) (omega (arith, p.has_four, length-drop i mem)))
  ]

-- On bytes, `parse_buf` always returns. Where it succeeds it has turned the whole buffer into
-- instructions of four bytes each: the k-th was parsed from the four bytes at offset `4 * k`, by
-- their little-endian word, and its address is `pc` plus the lower 32 bits of that offset. Where it
-- fails or panics, it does so as the parse does at some offset `4 * k` inside the buffer, and the
-- instructions before it were parsed at their places.
pub parse_buf-Total :
    (pc : ℕ) (mem : List ℕ)
    → AreBytes mem
    → (r : Result (List Inst)) × (parse_buf pc mem ≡ some r) × Covers pc mem 0 r
unfolding parse_buf
parse_buf-Total pc mem b = parse_from-Total pc mem b (suc (length mem)) 0 (omega arith)
