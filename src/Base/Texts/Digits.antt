-- ===== src/Base/Texts/Digits.antt =====
-- The laws of decimal numerals, of `rpartition` and of `startswith`.
use Prim.Native.Nat.{ℕ, zero, suc, ◌+◌, ◌-◌, ◌*◌, ◌/◌, ◌%◌, ◌≤◌, ◌<◌}
use mathlib.Core.Bool.{Bool, true, ◌&&◌}
use mathlib.Core.List.{[], ◌∷◌, ◌++◌}
use mathlib.Core.Option.{none, some}
use mathlib.Core.Path.{◌≡◌, refl, ap}
use native.Mathlib.Omega.{arith}
use my_digital_brain.Base.Lists.{length, every, length-append}
use my_digital_brain.Base.Texts.{
  Text, starts_with, is_digit, isdigit, value_from, int_of, decimal_fuel, zeros, padded, rpartition,
}

value_from-append : (a : ℕ) (s t : Text) → value_from a (s ++ t) ≡ value_from (value_from a s) t
unfolding value_from
value_from-append a [] t = refl
value_from-append a (c ∷ s) t = value_from-append (a * 10 + (c - 48)) s t

value_from-zeros : (k : ℕ) → value_from 0 (zeros k) ≡ 0
unfolding value_from zeros
value_from-zeros zero = refl
value_from-zeros (suc k) = value_from-zeros k

value_from-decimal_fuel : (f n : ℕ) → n < f → value_from 0 (decimal_fuel f n) ≡ n
unfolding value_from decimal_fuel
value_from-decimal_fuel zero n h = elim h [ ]
value_from-decimal_fuel (suc f) n h = ground (
  arith,
  value_from-decimal_fuel f (n / 10),
  value_from-append 0 (decimal_fuel f (n / 10)) ((48 + n % 10) ∷ []),
)

-- Reading back a padded number gives the number.
pub int_of-padded : (w n : ℕ) → int_of (padded w n) ≡ n
unfolding padded int_of
int_of-padded w n =
    let k : ℕ = w - length (decimal_fuel (suc n) n) in
    cc (
      value_from-append 0 (zeros k) (decimal_fuel (suc n) n),
      value_from-zeros k,
      value_from-decimal_fuel (suc n) n (omega arith),
    )

every-append : (p : ℕ → Bool) (s t : Text) → every p (s ++ t) ≡ (every p s && every p t)
every-append p [] t = refl
every-append p (c ∷ s) t = ground (arith, every-append p s t)

is_digit-decimal_fuel : (f n : ℕ) → every is_digit (decimal_fuel f n) ≡ true
unfolding decimal_fuel is_digit
is_digit-decimal_fuel zero n = refl
is_digit-decimal_fuel (suc f) n = ground (
  arith,
  is_digit-decimal_fuel f (n / 10),
  every-append is_digit (decimal_fuel f (n / 10)) ((48 + n % 10) ∷ []),
)

is_digit-zeros : (k : ℕ) → every is_digit (zeros k) ≡ true
unfolding zeros is_digit
is_digit-zeros zero = refl
is_digit-zeros (suc k) = is_digit-zeros k

pub is_digit-padded : (w n : ℕ) → every is_digit (padded w n) ≡ true
unfolding padded
is_digit-padded w n =
    let k : ℕ = w - length (decimal_fuel (suc n) n) in
    ground (
      arith,
      every-append is_digit (zeros k) (decimal_fuel (suc n) n),
      is_digit-zeros k,
      is_digit-decimal_fuel (suc n) n,
    )

length-decimal_fuel : (f n : ℕ) → n < f → 0 < length (decimal_fuel f n)
unfolding decimal_fuel
length-decimal_fuel zero n h = elim h [ ]
length-decimal_fuel (suc f) n h =
    ground (arith, length-append (decimal_fuel f (n / 10)) ((48 + n % 10) ∷ []))

length-padded : (w n : ℕ) → 0 < length (padded w n)
unfolding padded
length-padded w n =
    let k : ℕ = w - length (decimal_fuel (suc n) n) in
    omega (
      arith,
      length-append (zeros k) (decimal_fuel (suc n) n),
      length-decimal_fuel (suc n) n (omega arith),
    )

isdigit_of_every : (s : Text) → 0 < length s → every is_digit s ≡ true → isdigit s ≡ true
unfolding isdigit
isdigit_of_every [] h e = elim h [ ]
isdigit_of_every (c ∷ s) h e = e

-- A padded number is a text of digits.
pub isdigit-padded : (w n : ℕ) → isdigit (padded w n) ≡ true
isdigit-padded w n = isdigit_of_every (padded w n) (length-padded w n) (is_digit-padded w n)

rpartition_digits : (s : Text) → every is_digit s ≡ true → rpartition s ≡ none
unfolding rpartition is_digit
rpartition_digits [] h = refl
rpartition_digits (c ∷ s) h = ground (arith, rpartition_digits s)

-- The last underscore of `prefix_digits` is the one before the digits.
pub rpartition-digits :
    (p s : Text) → every is_digit s ≡ true → rpartition (p ++ 95 ∷ s) ≡ some (p, s)
unfolding rpartition
rpartition-digits [] s h = ground (arith, rpartition_digits s h)
rpartition-digits (c ∷ p) s h = rw (rpartition-digits p s h)

pub starts_with-append : (p s : Text) → starts_with (p ++ s) p ≡ true
unfolding starts_with
starts_with-append [] s = refl
starts_with-append (c ∷ p) s = ground (arith, starts_with-append p s)

-- The prefix that ends in the separator.
pub starts_with-separator : (p s : Text) (c : ℕ) → starts_with (p ++ c ∷ s) (p ++ c ∷ []) ≡ true
unfolding starts_with
starts_with-separator [] s c = ground arith
starts_with-separator (d ∷ p) s c = ground (arith, starts_with-separator p s c)

-- 10 ^ (k + 1)
abbrev limit : ℕ → ℕ
limit zero = 10
limit (suc k) = 10 * limit k

length-decimal_fuel-le : (k f n : ℕ) → n < f → n < limit k → length (decimal_fuel f n) ≤ suc k
unfolding decimal_fuel
length-decimal_fuel-le k zero n h b = elim h [ ]
length-decimal_fuel-le zero (suc f) n h b = ground arith
length-decimal_fuel-le (suc k) (suc f) n h b = ground (
  arith,
  length-append (decimal_fuel f (n / 10)) ((48 + n % 10) ∷ []),
  length-decimal_fuel-le k f (n / 10),
)

length-zeros : (k : ℕ) → length (zeros k) ≡ k
unfolding zeros
length-zeros zero = refl
length-zeros (suc k) = ap suc (length-zeros k)

-- `f"{n:06d}"` has six digits for every number below a million.
pub length-padded_six : (n : ℕ) → n < 1000000 → length (padded 6 n) ≡ 6
unfolding padded
length-padded_six n h =
    let k : ℕ = 6 - length (decimal_fuel (suc n) n) in
    omega (
      arith,
      length-append (zeros k) (decimal_fuel (suc n) n),
      length-zeros k,
      length-decimal_fuel-le 5 (suc n) n (omega arith) h,
    )
