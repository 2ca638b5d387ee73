-- ===== src/Base/Effects.antt =====
-- Results that may be an exception, and methods that change an object and may raise: what was
-- written before the exception stays written.
use mathlib.Core.Bool.{Bool, true, false}
use mathlib.Core.Logic.{◌⊎◌, inl, inr}
use mathlib.Core.Path.{◌≡◌, refl}
use native.Mathlib.Omega.{arith}
use my_digital_brain.Base.Tests.{if◌then◌else◌}

pub data Result {ℓ} (E A : Type ℓ) : Type ℓ where
  ok : A → Result E A
  err : E → Result E A

pub Result-cases {ℓ} :
    {E A : Type ℓ} (r : Result E A) → ((a : A) × (r ≡ ok a)) ⊎ ((e : E) × (r ≡ err e))
Result-cases (ok a) = inl (a, refl)
Result-cases (err e) = inr (e, refl)

abbrev pub Exec {ℓ} : Type ℓ → Type ℓ → Type ℓ → Type ℓ
Exec S E A = S → Result E A × S

module _ {ℓ} {S E A B : Type ℓ} where
  abbrev pub continue : Result E A → (A → Exec S E B) → Exec S E B
  continue (ok a) f s = f a s
  continue (err e) f s = (err e, s)

  infixl 10 ◌>>=◌ ◌>>◌
  abbrev pub ◌>>=◌ : Exec S E A → (A → Exec S E B) → Exec S E B
  ◌>>=◌ m f s = continue (m s).0 f (m s).1

  abbrev pub ◌>>◌ : Exec S E A → Exec S E B → Exec S E B
  m >> n = m >>= λ _. n

module _ {ℓ} {S E A : Type ℓ} where
  abbrev pub pure : A → Exec S E A
  pure a s = (ok a, s)

  abbrev pub raise : E → Exec S E A
  raise e s = (err e, s)

  abbrev pub lift : Result E A → Exec S E A
  lift r s = (r, s)

-- The state that a call leaves satisfies `P`, whether it returned or raised.
pub record Kept {ℓ} {S R : Type ℓ} (P : S → Type ℓ) (outcome : R × S) : Type ℓ where
  pub at : P outcome.1

-- `m` keeps `P`.
abbrev pub Keeps {ℓ} : {S E A : Type ℓ} → (S → Type ℓ) → Exec S E A → Type ℓ
Keeps {S} P m = (s : S) → P s → Kept P (m s)

module _ {ℓ} {S R : Type ℓ} (P : S → Type ℓ) where
  pub kept : (r : R) {s : S} → P s → Kept P (r, s)
  kept r h = record { at = h }

  -- Both branches of a test keep `P`.
  pub kept-if :
      (b : Bool) {x y : R × S}
      → (b ≡ true → Kept P x)
      → (b ≡ false → Kept P y)
      → Kept P (if b then x else y)
  kept-if true hx hy = hx refl
  kept-if false hx hy = hy refl

-- A chain that returned: both parts returned.
module _ {ℓ} {S E A B : Type ℓ} where
  continue-ok :
      (x : Result E A × S) (f : A → Exec S E B) (b : B) (u : S)
      → continue x.0 f x.1 ≡ (ok b, u)
      → (a : A) × (t : S) × (x ≡ (ok a, t)) × (f a t ≡ (ok b, u))
  continue-ok (ok a, s) f b u h = (a, s, refl, h)
  continue-ok (err e, s) f b u h = absurd (ground arith)

  pub bind-ok :
      (m : Exec S E A) (f : A → Exec S E B) (s : S) (b : B) (u : S)
      → (m >>= f) s ≡ (ok b, u)
      → (a : A) × (t : S) × (m s ≡ (ok a, t)) × (f a t ≡ (ok b, u))
  bind-ok m f s b u h = continue-ok (m s) f b u h

module _ {ℓ} {S E A B : Type ℓ} (P : S → Type ℓ) where
  kept-continue :
      (x : Result E A × S) (f : A → Exec S E B)
      → Kept P x
      → ((a : A) → x.0 ≡ ok a → Keeps P (f a))
      → Kept P (continue x.0 f x.1)
  kept-continue (ok a, s) f h kf = kf a refl s h.at
  kept-continue (err e, s) f h kf = record { at = h.at }

  pub Keeps-bind :
      (m : Exec S E A) (f : A → Exec S E B)
      → Keeps P m
      → ((a : A) → Keeps P (f a))
      → Keeps P (m >>= f)
  Keeps-bind m f km kf s h = kept-continue (m s) f (km s h) (λ a _. kf a)

  -- As `Keeps-bind`, from one state.
  pub kept-bind :
      (m : Exec S E A) (f : A → Exec S E B) (s : S)
      → Kept P (m s)
      → ((a : A) → Keeps P (f a))
      → Kept P ((m >>= f) s)
  kept-bind m f s km kf = kept-continue (m s) f km (λ a _. kf a)

  -- A step that may raise and writes nothing: the rest may use that it did not raise.
  pub Keeps-lift :
      (r : Result E A) (f : A → Exec S E B)
      → ((a : A) → r ≡ ok a → Keeps P (f a))
      → Keeps P (lift r >>= f)
  Keeps-lift (ok a) f kf s h = kf a refl s h
  Keeps-lift (err e) f kf s h = record { at = h }

module _ {ℓ} {S E A : Type ℓ} (P : S → Type ℓ) where
  pub Keeps-pure : (a : A) → Keeps P (pure {E = E} a)
  Keeps-pure a s h = record { at = h }

  pub Keeps-raise : (e : E) → Keeps P (raise {A = A} e)
  Keeps-raise e s h = record { at = h }
