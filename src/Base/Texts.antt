-- ===== src/Base/Texts.antt =====
-- Texts as lists of code points, with the operations of `str` that the program uses.
pub mod Digits
pub mod Strip
use Prim.Native.Nat.{ℕ, zero, suc, ◌+◌, ◌-◌, ◌*◌, ◌/◌, ◌%◌}
use Prim.Native.Char.{code}
use Prim.Native.String.{String}
use mathlib.Core.Bool.{Bool, true, false, ◌&&◌, ◌||◌}
use mathlib.Core.List.{List, [], ◌∷◌, ◌++◌, reverse}
use mathlib.Core.Option.{Option, none, some}
use native.Mathlib.Decide.{ℕ_discrete}
use my_digital_brain.Base.Lists.{length, every}
use my_digital_brain.Base.Tests.{leb, ltb, ◌==◌, if◌then◌else◌}

abbrev pub Text : Type 0
Text = List ℕ

-- The code points of a literal.
abbrev pub codes : String → Text
codes String.[] = []
codes (String.◌∷◌ c s) = code c ∷ codes s

unfoldable pub text_discrete : Discrete Text
unfolding ℕ_discrete
text_discrete = hlevel ℕ_discrete

-- `c.isspace()`
unfoldable pub is_space : ℕ → Bool
is_space c =
    (leb 9 c && leb c 13)
    || (leb 28 c && leb c 32)
    || (c == 0x85)
    || (c == 0xa0)
    || (c == 0x1680)
    || (leb 0x2000 c && leb c 0x200a)
    || (c == 0x2028)
    || (c == 0x2029)
    || (c == 0x202f)
    || (c == 0x205f)
    || (c == 0x3000)

unfoldable pub lstrip : Text → Text
unfolding is_space
lstrip [] = []
lstrip (c ∷ s) = if is_space c then lstrip s else c ∷ s

-- `s.strip()`
unfoldable pub strip : Text → Text
unfolding lstrip
strip s = reverse (lstrip (reverse (lstrip s)))

-- `s.startswith(p)`
unfoldable pub starts_with : Text → Text → Bool
starts_with s [] = true
starts_with [] (c ∷ p) = false
starts_with (d ∷ s) (c ∷ p) = d == c && starts_with s p

-- `[0-9]`
unfoldable pub is_digit : ℕ → Bool
is_digit c = leb 48 c && leb c 57

-- `s.isdigit()`, on ASCII
unfoldable pub isdigit : Text → Bool
unfolding is_digit
isdigit [] = false
isdigit (c ∷ s) = every is_digit (c ∷ s)

-- `int(s)` for a text of digits
unfoldable pub value_from : ℕ → Text → ℕ
value_from acc [] = acc
value_from acc (c ∷ s) = value_from (acc * 10 + (c - 48)) s

unfoldable pub int_of : Text → ℕ
unfolding value_from
int_of = value_from 0

unfoldable pub decimal_fuel : ℕ → ℕ → Text
decimal_fuel zero n = []
decimal_fuel (suc f) n =
    let rest = decimal_fuel f (n / 10) in
    if ltb n 10 then (48 + n) ∷ [] else rest ++ (48 + n % 10) ∷ []

-- `str(n)`
unfoldable pub decimal : ℕ → Text
unfolding decimal_fuel
decimal n = decimal_fuel (suc n) n

unfoldable pub zeros : ℕ → Text
zeros zero = []
zeros (suc n) = 48 ∷ zeros n

-- `f"{n:0wd}"`
unfoldable pub padded : ℕ → ℕ → Text
unfolding decimal zeros
padded w n = zeros (w - length (decimal n)) ++ decimal n

-- `s.rpartition("_")` where the separator occurs
unfoldable pub rpartition : Text → Option (Text × Text)
rpartition [] = none
rpartition (c ∷ s) = elim (rpartition s) [
  | some (a, b) ↦ some (c ∷ a, b)
  | none ↦ if c == 95 then some ([], s) else none
]
