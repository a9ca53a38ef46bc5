-- ===== src/Base/Result.antt =====
-- `Result<T, NexusVMError>` of vm/src/error.rs, and methods on `&mut self` that return one.
-- `panic` is a Rust panic: an index out of range, an `unwrap` of nothing, `unreachable!()`, or an
-- arithmetic overflow (checked, as in a build with overflow checks).
use Prim.Native.Nat.{ℕ}
use mathlib.Core.Path.{◌≡◌, refl}
use native.Mathlib.Omega.{arith}
use mathlib.Core.Option.{Option, none, some}
use mathlib.Core.List.{List}
use mathlib.Core.Bool.{Bool, true, false}
use nexus_zkvm.Base.Lists.{get_elem?}
use nexus_zkvm.Base.Tests.{if◌then◌else◌}

pub data NexusVmError : Type 0 where
  partial_instruction : ℕ → NexusVmError
  invalid_size : ℕ → ℕ → NexusVmError
  invalid_instruction : ℕ → ℕ → NexusVmError
  unknown_ecall : ℕ → ℕ → NexusVmError
  io_error : NexusVmError
  unknown_machine : List ℕ → NexusVmError
  elf_error : NexusVmError
  elf_format : List ℕ → NexusVmError
  misaligned : ℕ → NexusVmError
  hash_error : NexusVmError
  max_trace_length_exceeded : ℕ → NexusVmError
  invalid_profile_label : NexusVmError

pub data Result {ℓ} (A : Type ℓ) : Type ℓ where
  ok : A → Result A
  err : NexusVmError → Result A
  panic : Result A

-- `v[i]`, `v.get(i).unwrap()`.
abbrev pub from_option {ℓ} : {A : Type ℓ} → Option A → Result A
from_option none = panic
from_option (some a) = ok a

abbrev pub index {ℓ} : {A : Type ℓ} → List A → ℕ → Result A
index xs i = from_option (get_elem? xs i)

abbrev pub ok_or {ℓ} : {A : Type ℓ} → Option A → NexusVmError → Result A
ok_or none e = err e
ok_or (some a) e = ok a

module _ {ℓ κ} {A : Type ℓ} {B : Type κ} where
  -- The `?` operator.
  infixl 5 ◌>>=◌
  abbrev pub ◌>>=◌ : Result A → (A → Result B) → Result B
  panic >>= next = panic
  err x >>= next = err x
  ok a >>= next = next a

  -- A chain that succeeds went through its first part.
  pub >>=-eq-ok :
      (r : Result A) (next : A → Result B) {b : B}
      → (r >>= next) ≡ ok b
      → (a : A) × (r ≡ ok a) × (next a ≡ ok b)
  >>=-eq-ok panic next e = cc
  >>=-eq-ok (err x) next e = cc
  >>=-eq-ok (ok a) next e = (a, refl, e)

-- A computation that goes on without failing succeeds where its first part does.
pub then-ok {ℓ κ} :
    {A : Type ℓ} {B : Type κ} (m : Result A) (f : A → B) {a : A}
    → m ≡ ok a
    → (b : B) × ((m >>= λ x. ok (f x)) ≡ ok b)
then-ok (ok x) f e = (f x, refl)
then-ok (err x) f e = cc
then-ok panic f e = cc

pub >>=-ok {ℓ} : {A : Type ℓ} (m : Result A) → (m >>= λ x. ok x) ≡ m
>>=-ok (ok x) = refl
>>=-ok (err x) = refl
>>=-ok panic = refl

pub >>=-if {ℓ κ} :
    {A : Type ℓ} {B : Type κ} (b : Bool) (x y : Result A) (f : A → Result B)
    → ((if b then x else y) >>= f) ≡ (if b then (x >>= f) else (y >>= f))
>>=-if true x y f = refl
>>=-if false x y f = refl

pub ok-inj {ℓ} : {A : Type ℓ} {x y : A} → ok x ≡ ok y → x ≡ y
ok-inj e = ground arith

pub >>=-cong {ℓ κ} :
    {A : Type ℓ} {B : Type κ} (m : Result A) {f g : A → Result B}
    → ((a : A) → f a ≡ g a)
    → (m >>= f) ≡ (m >>= g)
>>=-cong (ok a) e = e a
>>=-cong (err x) e = refl
>>=-cong panic e = refl
