-- ===== src/Memory/Lines/Access.antt =====
-- Loads and stores through any memory controller that is a map of cache lines: the memory is an
-- array of bytes.
use native.Mathlib.Decide.{dec_lt}
use nexus_zkvm.Base.{
  ℕ, ◌+◌, ◌-◌, ◌%◌, ◌≤◌, ◌<◌, ◌≡◌, refl, ap, arith, Bool, false, ◌==◌, ◌&&◌, leb, ltb,
  if◌then◌else◌, inl, inr, Bool-cases, ◌⊎◌, subst,
}
use nexus_zkvm.Base.Result.{ok, err, misaligned, >>=-if}
use nexus_zkvm.Rv32.{Lop, Sop}
use nexus_zkvm.Memory.CacheLine.{CacheLine, byte, store_line}
use nexus_zkvm.Memory.CacheLine.Bytes.{offset, load_width, store_width, nth_byte}
use nexus_zkvm.Memory.CacheLine.Access.{
  extend, truncate, load_line_lem, IsStored, store_line-IsStored, load_line-store_line, le_value,
}
use nexus_zkvm.Memory.Controller
use nexus_zkvm.Memory.Controller.{Controller}
use nexus_zkvm.Memory.Lines.{Lines}

-- The bytes of a line after a store.
stored_byte :
    (cl new : CacheLine) (sop : Sop) (addr val j : ℕ)
    → IsStored cl sop addr val new
    → byte new j ≡ (
        if leb (offset addr) j && ltb j (offset addr + store_width sop)
        then nth_byte val (j - offset addr)
        else byte cl j)
stored_byte cl new sop addr val j s =
    elim (Bool-cases (leb (offset addr) j && ltb j (offset addr + store_width sop))) [
      | inl within ↦
          let back : offset addr + (j - offset addr) ≡ j = ground arith in
          rw within (
            subst (λ n. byte new n ≡ nth_byte val (j - offset addr)) back
              (s.inside (j - offset addr) (ground arith)))
      | inr beside ↦ rw beside (s.outside j (beside-cases (offset addr) j (store_width sop) beside))
    ]
  where
    beside-cases : (o j w : ℕ) → leb o j && ltb j (o + w) ≡ false → (j < o) ⊎ (o + w ≤ j)
    beside-cases o j w h = elim (dec_lt j o) [
      | yes below ↦ inl below
      | no above ↦ inr (ground arith)
    ]

module _ {S P : Type 0} (mem : Controller S P) {same : ℕ → ℕ → Bool} (l : Lines mem same) where
  -- The byte of the memory at an address.
  abbrev pub byte_at : S → ℕ → ℕ
  byte_at s a = byte (l.line s a) (offset a)

  -- Whether the byte at `a` is one of the `n` bytes from `addr` on, in the line of `addr`.
  abbrev pub in_range : ℕ → ℕ → ℕ → Bool
  in_range addr n a =
      same addr a && leb (offset addr) (offset a) && ltb (offset a) (offset addr + n)

  -- In a valid memory, a load returns the little-endian value of its bytes in the line of its
  -- address, extended as the load says, where the address is a multiple of its width, and the
  -- misalignment error otherwise.
  pub load_lem :
      (s : S) (lop : Lop) (addr : ℕ)
      → l.IsValid s
      → (p : P) × (Controller.load mem s lop addr ≡ (
          if addr % load_width lop == 0
          then ok (extend lop (le_value (l.line s addr) (offset addr) (load_width lop)), p)
          else err (misaligned addr)))
  unfolding Controller.load
  load_lem s lop addr valid =
      let (p, found) = l.queries s addr valid in
      (
        p,
        rw (found, load_line_lem (l.line s addr) (l.line_ok s addr valid) lop addr)
            (>>=-if (addr % load_width lop == 0) _ _ _),
      )

  -- What a store leaves behind.
  pub record IsWritten (s : S) (sop : Sop) (addr val : ℕ) : Type 0 where
    pub proof : P
    pub after : S
    pub runs : Controller.store mem s sop addr val ≡ (ok proof, after)
    pub valid : l.IsValid after
    pub bytes :
        (a : ℕ)
        → byte_at after a ≡ (
            if in_range addr (store_width sop) a
            then nth_byte val (offset a - offset addr)
            else byte_at s a)
    pub reads :
        (lop : Lop)
        → load_width lop ≡ store_width sop
        → (p : P) × (Controller.load mem after lop addr ≡ ok (extend lop (truncate sop val), p))

  written_byte :
      (s : S) {sop : Sop} (addr a : ℕ) {val : ℕ} {new : CacheLine}
      → IsStored (l.line s addr) sop addr val new
      → byte (if same addr a then new else l.line s a) (offset a) ≡ (
          if in_range addr (store_width sop) a
          then nth_byte val (offset a - offset addr)
          else byte_at s a)
  written_byte s {sop} addr a {val} {new} stored = elim (Bool-cases (same addr a)) [
    | inl here ↦ rw here (
        subst
          (λ cl. byte new (offset a) ≡ (
            if leb (offset addr) (offset a) && ltb (offset a) (offset addr + store_width sop)
            then nth_byte val (offset a - offset addr)
            else byte cl (offset a)))
          (l.same_line s addr a here)
          (stored_byte (l.line s addr) new sop addr val (offset a) stored))
    | inr other ↦ rw other refl
  ]

  -- In a valid memory, a store of a u32 at an address that is a multiple of its width succeeds and
  -- leaves a valid memory. The bytes of its range become those of the value, lowest first, and all
  -- others stay; a load of the same width at the address returns the value, cut to the width and
  -- extended as the load says.
  pub store-IsWritten :
      (s : S) (sop : Sop) (addr val : ℕ)
      → l.IsValid s
      → val < 0x1_0000_0000
      → addr % store_width sop ≡ 0
      → IsWritten s sop addr val
  unfolding Controller.store Controller.load
  store-IsWritten s sop addr val valid fits aligned =
      let cl = l.line s addr in
      let ok_cl = l.line_ok s addr valid in
      let new = (store_line cl sop addr val).1 in
      let (stores, stored) = store_line-IsStored cl ok_cl sop addr val fits aligned in
      let (p, s', ran, valid', lines) =
        l.updates s addr (λ c. store_line c sop addr val) new valid (ap (λ r. (r, new)) stores)
          stored.is_line in
      record {
        proof = p;
        after = s';
        runs = ran;
        valid = valid';
        bytes = λ a. rw (lines a) (written_byte s addr a stored);
        reads = λ lop width.
            let (q, found) = l.queries s' addr valid' in
            (
              q,
              rw
                  (
                    found,
                    lines addr,
                    l.same_refl addr,
                    load_line-store_line cl sop lop addr val ok_cl fits width aligned,
                  )
                  refl,
            );
      }
