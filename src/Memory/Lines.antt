-- ===== src/Memory/Lines.antt =====
-- What the machine relies on in a memory controller: it is a map from addresses to cache lines.
pub mod Access
use nexus_zkvm.Base.{ℕ, ◌≡◌, Bool, true, if◌then◌else◌}
use nexus_zkvm.Base.Result.{Result, ok}
use nexus_zkvm.Memory.CacheLine.{CacheLine, zero_line}
use nexus_zkvm.Memory.CacheLine.Bytes.{IsLine}
use nexus_zkvm.Memory.Controller.{LineUpdate, Controller}

-- The states are valid ones, `line` is the line at an address, and the parameter `same` says which
-- addresses share one. A query returns the line at its address, and an update by a closure that succeeds
-- there replaces that line alone.
pub record Lines {S P : Type 0} (mem : Controller S P) (same : ℕ → ℕ → Bool) : Type 1 where
  pub IsValid : S → Type 0
  pub line : S → ℕ → CacheLine
  pub same_refl : (a : ℕ) → same a a ≡ true
  pub same_line : (s : S) (a b : ℕ) → same a b ≡ true → line s a ≡ line s b
  pub initial_valid : IsValid mem.initial
  pub initial_zero : (a : ℕ) → line mem.initial a ≡ zero_line
  pub line_ok : (s : S) (a : ℕ) → IsValid s → IsLine (line s a)
  pub queries : (s : S) (a : ℕ) → IsValid s → (p : P) × (mem.query s a ≡ ok (line s a, p))
  pub updates :
      (s : S) (a : ℕ) (f : LineUpdate) (new : CacheLine)
      → IsValid s
      → f (line s a) ≡ (ok tt, new)
      → IsLine new
      → (p : P) × (s' : S) × (mem.update s a f ≡ (ok p, s'))
        × IsValid s'
        × ((b : ℕ) → line s' b ≡ (if same a b then new else line s b))
