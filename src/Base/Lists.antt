-- ===== src/Base/Lists.antt =====
-- Lists measured by native numbers, and membership by recursion.
use Prim.Native.Nat.{ℕ, zero, suc, ◌+◌, max}
use mathlib.Core.Bool.{Bool, true, false, ◌&&◌, ◌||◌}
use mathlib.Core.List.{List, [], ◌∷◌, ◌++◌}
use mathlib.Core.Logic.{◌⊎◌, inl, inr, ite}
use mathlib.Core.Path.{◌≡◌, refl}
use native.Mathlib.Omega.{arith}

module _ {ℓ} {A : Type ℓ} where
  abbrev pub length : List A → ℕ
  length [] = 0
  length (x ∷ xs) = suc (length xs)

  abbrev pub take : ℕ → List A → List A
  take zero xs = []
  take (suc n) [] = []
  take (suc n) (x ∷ xs) = x ∷ take n xs

  abbrev pub drop : ℕ → List A → List A
  drop zero xs = xs
  drop (suc n) [] = []
  drop (suc n) (x ∷ xs) = drop n xs

  pub length-append : (xs ys : List A) → length (xs ++ ys) ≡ length xs + length ys
  length-append [] ys = omega arith
  length-append (x ∷ xs) ys = omega (arith, length-append xs ys)

abbrev pub All {ℓ κ} : {A : Type ℓ} → (A → Type κ) → List A → Type κ
All P [] = Unit
All P (x ∷ xs) = P x × All P xs

module _ {ℓ κ} {A : Type ℓ} where
  pub All-map : (P Q : A → Type κ) → ((x : A) → P x → Q x) → (xs : List A) → All P xs → All Q xs
  All-map P Q f [] h = tt
  All-map P Q f (x ∷ xs) (first, h) = (f x first, All-map P Q f xs h)

  pub All-append : (P : A → Type κ) (xs ys : List A) → All P xs → All P ys → All P (xs ++ ys)
  All-append P [] ys h h' = h'
  All-append P (x ∷ xs) ys (first, h) h' = (first, All-append P xs ys h h')

-- `all(p(x) for x in xs)` and `any(p(x) for x in xs)`.
abbrev pub every {ℓ} : {A : Type ℓ} → (A → Bool) → List A → Bool
every p [] = true
every p (x ∷ xs) = p x && every p xs

abbrev pub some_of {ℓ} : {A : Type ℓ} → (A → Bool) → List A → Bool
some_of p [] = false
some_of p (x ∷ xs) = p x || some_of p xs

-- `max(xs, default=0)`
abbrev pub maximum : List ℕ → ℕ
maximum [] = 0
maximum (x ∷ xs) = max x (maximum xs)

-- `a in xs`
abbrev pub elem {ℓ} : {A : Type ℓ} → Discrete A → A → List A → Bool
elem dec a [] = false
elem dec a (x ∷ xs) = ite (dec x a) true (elem dec a xs)

pub List-cases {ℓ} :
    {A : Type ℓ} (xs : List A) → (xs ≡ []) ⊎ ((x : A) × (r : List A) × (xs ≡ x ∷ r))
List-cases [] = inl refl
List-cases (x ∷ r) = inr (x, r, refl)
