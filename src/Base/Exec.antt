-- ===== src/Base/Exec.antt =====
-- Methods that change an object of type `S` and return a `Result`. What was written before an
-- error stays written, so the state comes back beside the error too.
use mathlib.Core.Path.{◌≡◌, refl, ap}
use nexus_zkvm.Base.Result.{NexusVmError, Result, ok, err, panic}

abbrev pub Exec {ℓ} : Type ℓ → Type ℓ → Type ℓ
Exec S A = S → Result A × S

module _ {ℓ} {S A : Type ℓ} where
  abbrev pub pure : A → Exec S A
  pure a s = (ok a, s)

  abbrev pub throw : NexusVmError → Exec S A
  throw e s = (err e, s)

  -- A computation that reads the state and may fail.
  abbrev pub reads : (S → Result A) → Exec S A
  reads f s = (f s, s)

no_error {ℓ} : {A : Type ℓ} {a : A} (x : NexusVmError) → err x ≡ ok a → ⊥
no_error x h = cc

no_panic {ℓ} : {A : Type ℓ} {a : A} → panic ≡ ok a → ⊥
no_panic h = cc

module _ {ℓ} {S A B : Type ℓ} where
  abbrev proceed : Result A → (A → Exec S B) → Exec S B
  proceed (ok a) f s = f a s
  proceed (err e) f s = (err e, s)
  proceed panic f s = (panic, s)

  infixl 5 ◌>>=◌ ◌>>◌
  abbrev pub ◌>>=◌ : Exec S A → (A → Exec S B) → Exec S B
  ◌>>=◌ m f s = let r = m s in proceed r.0 f r.1

  abbrev pub ◌>>◌ : Exec S A → Exec S B → Exec S B
  m >> n = m >>= λ _. n

  -- A run that succeeds is a run of the first part, then one of the rest from where it ended.
  pub bind-eq-ok :
      (m : Exec S A) (f : A → Exec S B) (s : S) {b : B} {t : S}
      → (m >>= f) s ≡ (ok b, t)
      → (a : A) × (u : S) × (m s ≡ (ok a, u)) × (f a u ≡ (ok b, t))
  bind-eq-ok m f s {b} {t} h = split (m s).0 (m s).1 refl h
    where
      split :
          (r : Result A) (u : S)
          → m s ≡ (r, u)
          → proceed r f u ≡ (ok b, t)
          → (a : A) × (u' : S) × (m s ≡ (ok a, u')) × (f a u' ≡ (ok b, t))
      split (ok a) u e g = (a, u, e, g)
      split (err x) u e g = absurd (no_error x (ap (λ (p : Result B × S). p.0) g))
      split panic u e g = absurd (no_panic (ap (λ (p : Result B × S). p.0) g))

abbrev pub modify {ℓ} : {S : Type ℓ} → (S → S) → S → Result {0} Unit × S
modify f s = (ok tt, f s)
