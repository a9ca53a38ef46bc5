-- ===== src/Memory/Paged/Lines.antt =====
-- The paged memory is a map from addresses to cache lines.
use mathlib.Core.Option
use mathlib.Core.Path.{ap₂}
use nexus_zkvm.Base.{
  ℕ, ◌/◌, ◌^◌, ◌<◌, ◌≡◌, refl, sym, ap, ◌∙◌, arith, Bool, true, false, some, List, [], ◌==◌, ◌&&◌,
  if◌then◌else◌, length, get_or, set, get_elem?-get_or, length-set, get_or-set_self, get_or-set_ne,
  get_or-replicate, Option-cases, inl, inr, ==_refl, ==_iff, Bool-cases, subst,
}
use nexus_zkvm.Base.Assoc.{lookup, insert, lookup-insert}
use nexus_zkvm.Base.Bits.{bit_and_low}
use nexus_zkvm.Base.Result.{ok}
use nexus_zkvm.Memory.CacheLine.{CacheLine, zero_line}
use nexus_zkvm.Memory.CacheLine.Bytes.{IsLine, zero_line-IsLine}
use nexus_zkvm.Memory.Controller.{LineUpdate}
use nexus_zkvm.Memory.Lines.{Lines}
use nexus_zkvm.Memory.Paged.{
  Page, Paged, empty_page, page_of, offset_of, proof_of, query, update, paged,
}

-- A page has 128 lines.
abbrev IsPage : Page → Type 0
IsPage arr = (length arr ≡ 128) × ((i : ℕ) → IsLine (get_or arr i zero_line))

-- Every page that the map has.
abbrev pub IsPaged : Paged → Type 0
IsPaged m = (k : ℕ) (arr : Page) → lookup m.tree k ≡ some arr → IsPage arr

abbrev page_at : Paged → ℕ → Page
page_at m a = Option.get_or (lookup m.tree (page_of a)) empty_page

-- The line at an address.
abbrev pub paged_line : Paged → ℕ → CacheLine
paged_line m a = get_or (page_at m a) (offset_of a) zero_line

-- Two addresses in one line.
abbrev pub same_paged : ℕ → ℕ → Bool
same_paged a b = page_of a == page_of b && offset_of a == offset_of b

-- One block of 32 bytes.
abbrev pub same_block : ℕ → ℕ → Bool
same_block a b = a / 32 == b / 32

same_paged-block : (a b : ℕ) → same_paged a b ≡ same_block a b
same_paged-block a b = ground (arith, bit_and_low 7 (a / 2 ^ 5), bit_and_low 7 (b / 2 ^ 5))

offset_of-lt : (a : ℕ) → offset_of a < 128
offset_of-lt a = omega (arith, bit_and_low 7 (a / 2 ^ 5))

empty_page-IsPage : IsPage empty_page
empty_page-IsPage = (refl, λ i. rw (get_or-replicate 128 i zero_line) zero_line-IsLine)

page_at-IsPage : (m : Paged) (a : ℕ) → IsPaged m → IsPage (page_at m a)
page_at-IsPage m a i = elim (Option-cases (lookup m.tree (page_of a))) [
  | inl e ↦ rw e empty_page-IsPage
  | inr (arr, e) ↦ rw e (i (page_of a) arr e)
]

get_or-set :
    (arr : Page) (j i : ℕ) (new : CacheLine)
    → j < length arr
    → get_or (set arr j new) i zero_line ≡ (if j == i then new else get_or arr i zero_line)
get_or-set arr j i new h =
    ground (arith, get_or-set_self arr j new zero_line h, get_or-set_ne arr j i new zero_line)

set-IsPage :
    (arr : Page) (j : ℕ) (new : CacheLine)
    → j < 128
    → IsPage arr
    → IsLine new
    → IsPage (set arr j new)
set-IsPage arr j new h (size, lines) ok_line = (
  length-set arr j new ∙ size,
  λ i. rw (get_or-set arr j i new (omega arith)) (if_IsLine (j == i) i),
)
  where
    if_IsLine : (b : Bool) (i : ℕ) → IsLine (if b then new else get_or arr i zero_line)
    if_IsLine true i = ok_line
    if_IsLine false i = lines i

some-inj : {x y : Page} → some x ≡ some y → x ≡ y
some-inj e = ap (λ o. Option.get_or o empty_page) e

-- The memory after a write.
abbrev written : Paged → ℕ → CacheLine → Paged
written m a new = record { tree = insert m.tree (page_of a) (set (page_at m a) (offset_of a) new) }

written-IsPaged :
    (m : Paged) (a : ℕ) (new : CacheLine) → IsPaged m → IsLine new → IsPaged (written m a new)
written-IsPaged m a new i ok_line k arr e =
    let page =
      set-IsPage (page_at m a) (offset_of a) new (offset_of-lt a) (page_at-IsPage m a i) ok_line in
    elim (Bool-cases (page_of a == k)) [
      | inl here ↦
          subst IsPage (some-inj (rw here at (sym (lookup-insert m.tree (page_of a) k _) ∙ e))) page
      | inr there ↦ i k arr (rw there at (sym (lookup-insert m.tree (page_of a) k _) ∙ e))
    ]

page_at-written :
    (m : Paged) (a b : ℕ) (new : CacheLine)
    → page_at (written m a new) b
      ≡ (if page_of a == page_of b then set (page_at m a) (offset_of a) new else page_at m b)
page_at-written m a b new =
    ap (λ o. Option.get_or o empty_page) (lookup-insert m.tree (page_of a) (page_of b) _)
    ∙ get_or-if (page_of a == page_of b)
  where
    get_or-if :
        (c : Bool)
        → Option.get_or
            (if c then some (set (page_at m a) (offset_of a) new) else lookup m.tree (page_of b))
            empty_page
          ≡ (if c then set (page_at m a) (offset_of a) new else page_at m b)
    get_or-if true = refl
    get_or-if false = refl

paged_line-written :
    (m : Paged) (a b : ℕ) (new : CacheLine)
    → IsPaged m
    → paged_line (written m a new) b ≡ (if same_paged a b then new else paged_line m b)
paged_line-written m a b new i = elim (Bool-cases (page_of a == page_of b)) [
  | inl here ↦
      let same : page_of a ≡ page_of b = (==_iff (page_of a) (page_of b)).0 here in
      ap (λ arr. get_or arr (offset_of b) zero_line) (rw here at (page_at-written m a b new))
      ∙ get_or-set (page_at m a) (offset_of a) (offset_of b) new
          (omega (arith, offset_of-lt a, (page_at-IsPage m a i).0))
      ∙ rw here (
          ap
            (λ k.
              if offset_of a == offset_of b
              then new
              else get_or (Option.get_or (lookup m.tree k) empty_page) (offset_of b) zero_line)
            same)
  | inr there ↦
      ap (λ arr. get_or arr (offset_of b) zero_line) (rw there at (page_at-written m a b new))
      ∙ rw there refl
]

same_paged-line : (m : Paged) (a b : ℕ) → same_paged a b ≡ true → paged_line m a ≡ paged_line m b
same_paged-line m a b h =
    let page : page_of a ≡ page_of b = ground arith in
    let off : offset_of a ≡ offset_of b = ground arith in
    ap₂ (λ p o. get_or (Option.get_or (lookup m.tree p) empty_page) o zero_line) page off

initial-IsPaged : IsPaged (record { tree = [] })
unfolding lookup
initial-IsPaged k arr e = cc

initial_zero_line : (a : ℕ) → paged_line (record { tree = [] }) a ≡ zero_line
unfolding lookup
initial_zero_line a = get_or-replicate 128 (offset_of a) zero_line

module _ {F : Type 0} (zero_scalar : F) (from_le_bytes_mod_order : List ℕ → F) where
  query-line :
      (m : Paged) (a : ℕ)
      → IsPaged m
      → (p : F × F) × (query zero_scalar from_le_bytes_mod_order m a ≡ ok (paged_line m a, p))
  unfolding query
  query-line m a i = elim (Option-cases (lookup m.tree (page_of a))) [
    | inl e ↦ (
      proof_of zero_scalar from_le_bytes_mod_order zero_line,
      rw (e, get_or-replicate 128 (offset_of a) zero_line) refl,
    )
    | inr (arr, e) ↦ (
      proof_of zero_scalar from_le_bytes_mod_order (get_or arr (offset_of a) zero_line),
      rw
          (
            e,
            get_elem?-get_or arr (offset_of a) zero_line
                (omega (arith, offset_of-lt a, (i (page_of a) arr e).0)),
          )
          refl,
    )
  ]

  update-line :
      (m : Paged) (a : ℕ) (f : LineUpdate) (new : CacheLine)
      → IsPaged m
      → f (paged_line m a) ≡ (ok tt, new)
      → (p : F × F) × (update zero_scalar from_le_bytes_mod_order m a f ≡ (ok p, written m a new))
  unfolding update
  update-line m a f new i e =
      let inside : offset_of a < length (page_at m a) =
        omega (arith, offset_of-lt a, (page_at-IsPage m a i).0) in
      (
        proof_of zero_scalar from_le_bytes_mod_order new,
        rw (get_elem?-get_or (page_at m a) (offset_of a) zero_line inside, e) refl,
      )

  -- The paged memory is a map from addresses to lines, in which two addresses share a line exactly
  -- when they lie in one block of 32 bytes.
  pub paged-Lines : Lines (paged zero_scalar from_le_bytes_mod_order) same_block
  paged-Lines = record {
    IsValid = IsPaged;
    line = paged_line;
    same_refl = λ a. ==_refl (a / 32);
    same_line = λ s a b h. same_paged-line s a b (same_paged-block a b ∙ h);
    initial_valid = initial-IsPaged;
    initial_zero = initial_zero_line;
    line_ok = λ s a i. (page_at-IsPage s a i).1 (offset_of a);
    queries = query-line;
    updates = λ s a f new i e ok_line.
        let (p, ran) = update-line s a f new i e in
        (
          p,
          written s a new,
          ran,
          written-IsPaged s a new i ok_line,
          λ b.
              paged_line-written s a b new i
              ∙ ap (λ k. if k then new else paged_line s b) (same_paged-block a b),
        );
  }
