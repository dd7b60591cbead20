-- ===== src/Prelude/Exec.antt =====
-- Python calls that mutate and may raise: what was written before a raise stays written, so the
-- state comes back beside the error too.
use mathlib.Core.Path.{◌≡◌, refl}
use mathlib.Core.Logic.{◌⊎◌, inl, inr}

pub data Result {ℓ} (E A : Type ℓ) : Type ℓ where
  ok : A → Result E A
  err : E → Result E A

pub Result-cases {ℓ} :
    {E A : Type ℓ} (r : Result E A) → ((e : E) × (r ≡ err e)) ⊎ ((a : A) × (r ≡ ok a))
Result-cases (ok a) = inr (a, refl)
Result-cases (err e) = inl (e, refl)

abbrev pub Exec {ℓ} : Type ℓ → Type ℓ → Type ℓ → Type ℓ
Exec S E A = S → Result E A × S

module _ {ℓ} {S E A : Type ℓ} where
  abbrev pub pure : A → Exec S E A
  pure a s = (ok a, s)

  abbrev pub raise : E → Exec S E A
  raise e s = (err e, s)

  abbrev pub gets : (S → A) → Exec S E A
  gets f s = (ok (f s), s)

  -- `except Exception: pass`: whatever was raised, the handler's value is returned.
  abbrev pub catch : Exec S E A → A → Exec S E A
  catch m a s = let (r, s') = m s in elim r [ ok b ↦ (ok b, s') | err e ↦ (ok a, s') ]

infixl 5 ◌>>=◌ ◌>>◌
abbrev pub ◌>>=◌ {ℓ} : {S E A B : Type ℓ} → Exec S E A → (A → Exec S E B) → Exec S E B
◌>>=◌ m f s = let (r, s') = m s in elim r [ ok a ↦ f a s' | err e ↦ (err e, s') ]

abbrev pub ◌>>◌ {ℓ} : {S E A B : Type ℓ} → Exec S E A → Exec S E B → Exec S E B
m >> k = m >>= λ _. k

abbrev pub modify {ℓ} : {S E : Type ℓ} → (S → S) → Exec S E Unit
modify f s = (ok tt, f s)
