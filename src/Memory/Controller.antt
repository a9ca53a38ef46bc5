-- ===== src/Memory/Controller.antt =====
-- The `Memory` trait (vm/src/memory.rs): what a memory controller provides, and what the trait
-- derives from it. A method that takes `&mut self` returns the state that it leaves behind.
use nexus_zkvm.Base.{ℕ, zero, suc, ◌+◌, ◌%◌, ◌^◌, ltb, List, [], ◌∷◌, if◌then◌else◌, u32_mod}
use nexus_zkvm.Base.Result.{Result, ok, panic, ◌>>=◌}
use nexus_zkvm.Rv32.{Lop, lbu, Sop}
use nexus_zkvm.Memory.CacheLine.{CacheLine, load_line, load_lw, store_line, store_sw}

-- A closure `Fn(&mut CacheLine) -> Result<()>`.
abbrev pub LineUpdate : Type 0
LineUpdate = CacheLine → Result {0} Unit × CacheLine

-- A controller with states `S` and proofs `P`; `initial` and `default_proof` are their
-- `Default::default()`.
pub record Controller (S P : Type 0) : Type 0 where
  pub initial : S
  pub default_proof : P
  pub query : S → ℕ → Result (CacheLine × P)
  pub update : S → ℕ → LineUpdate → Result P × S

module _ {S P : Type 0} (mem : Controller S P) where
  unfoldable pub read_inst : S → ℕ → Result (ℕ × P)
  read_inst s addr = mem.query s addr >>= λ (cl, path). load_lw cl addr >>= λ w. ok (w, path)

  abbrev discard : Result P × S → Result {0} Unit × S
  discard (r, s) = (r >>= λ _. ok tt, s)

  unfoldable pub write_inst : S → ℕ → ℕ → Result {0} Unit × S
  write_inst s addr val = discard (mem.update s addr (λ cl. store_sw cl addr val))

  unfoldable pub load : S → Lop → ℕ → Result (ℕ × P)
  load s lop addr = mem.query s addr >>= λ (cl, path). load_line cl lop addr >>= λ v. ok (v, path)

  -- `(address..address + len).map(…).collect()`, from the first address on.
  load_range : S → ℕ → ℕ → Result (List ℕ)
  load_range s addr zero = ok []
  load_range s addr (suc len) =
      load s lbu addr >>= λ (b, _). load_range s (addr + 1) len >>= λ bs. ok ((b % 2 ^ 8) ∷ bs)

  -- The end of the range is a u32, computed first.
  unfoldable pub load_n : S → ℕ → ℕ → Result (List ℕ)
  unfolding load_range
  load_n s address len = if ltb (address + len) u32_mod then load_range s address len else panic

  unfoldable pub store : S → Sop → ℕ → ℕ → Result P × S
  store s sop addr val = mem.update s addr (λ cl. store_line cl sop addr val)
