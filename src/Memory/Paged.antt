-- ===== src/Memory/Paged.antt =====
-- The paged memory controller without commitments (vm/src/memory/paged.rs).
pub mod Lines
use mathlib.Core.Option
use nexus_zkvm.Base.{
  ℕ, ◌/◌, ◌^◌, bit_and, Option, none, some, List, [], ◌∷◌, ◌==◌, get_elem?, set, replicate,
  if◌then◌else◌,
}
use nexus_zkvm.Base.Assoc.{Assoc, lookup, insert}
use nexus_zkvm.Base.Result.{Result, ok, panic, ◌>>=◌, index}
use nexus_zkvm.Memory.CacheLine.{CacheLine, zero_line, scalars}
use nexus_zkvm.Memory.Controller.{LineUpdate, Controller}

-- `[CacheLine; 128]`.
abbrev pub Page : Type 0
Page = List CacheLine

-- The `BTreeMap`, whose order is never read.
pub record Paged : Type 0 where
  pub tree : Assoc Page

abbrev pub empty_page : Page
empty_page = replicate 128 zero_line

-- The page and the line in it that hold an address.
abbrev pub page_of : ℕ → ℕ
page_of addr = addr / 2 ^ 12

abbrev pub offset_of : ℕ → ℕ
offset_of addr = bit_and (addr / 2 ^ 5) 0x7f

-- `UncheckedMemory` holds the line's two scalars and nothing else.
module _ {F : Type 0} (zero_scalar : F) (from_le_bytes_mod_order : List ℕ → F) where
  abbrev pub proof_of : CacheLine → F × F
  proof_of cl = scalars from_le_bytes_mod_order cl

  -- A page that was never written is a page of zeros.
  abbrev pub query_page : ℕ → Option Page → Result (CacheLine × (F × F))
  query_page addr none = ok (zero_line, proof_of zero_line)
  query_page addr (some arr) = index arr (offset_of addr) >>= λ cl. ok (cl, proof_of cl)

  unfoldable pub query : Paged → ℕ → Result (CacheLine × (F × F))
  unfolding lookup
  query m addr = query_page addr (lookup m.tree (page_of addr))

  -- `self.tree.entry(page).or_insert_with(…)`.
  abbrev entry : Paged → ℕ → Page
  entry m addr = Option.get_or (lookup m.tree (page_of addr)) empty_page

  abbrev write_back : Paged → ℕ → Page → CacheLine → Paged
  write_back m addr arr cl = record {
    tree = insert m.tree (page_of addr) (set arr (offset_of addr) cl);
  }

  abbrev proof_or_error : Result {0} Unit → CacheLine → Result (F × F)
  proof_or_error r cl = r >>= λ _. ok (proof_of cl)

  -- The page stays allocated where the closure fails.
  abbrev update_line : Paged → ℕ → LineUpdate → Page → Option CacheLine → Result (F × F) × Paged
  update_line m addr f arr none = (panic, m)
  update_line m addr f arr (some cl) =
      (proof_or_error (f cl).0 (f cl).1, write_back m addr arr (f cl).1)

  unfoldable pub update : Paged → ℕ → LineUpdate → Result (F × F) × Paged
  unfolding lookup insert
  update m addr f =
      let arr = entry m addr in update_line m addr f arr (get_elem? arr (offset_of addr))

  -- `impl Memory for Paged`.
  abbrev pub paged : Controller Paged (F × F)
  paged = record {
    initial = record { tree = [] };
    default_proof = (zero_scalar, zero_scalar);
    query = query;
    update = update;
  }
