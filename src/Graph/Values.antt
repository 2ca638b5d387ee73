-- ===== src/Graph/Values.antt =====
-- The values of graph properties: JSON as Python reads it. A number is its shortest decimal, so
-- that `1` and `1.0` are the same; a dictionary is kept as its text.
use my_digital_brain.Base.{
  Bool, Option, Table, Text, codes, false, holds, if◌then◌else◌, some, text_discrete, true, values,
  ◌&&◌, ◌||◌,
}

mutual
  pub data Value : Type 0 where
    null : Value
    flag : Bool → Value
    number : Text → Value
    text : Text → Value
    dictionary : Text → Value
    many : Values → Value

  pub data Values : Type 0 where
    nil : Values
    cons : Value → Values → Values

abbrev pub Properties : Type 0
Properties = Table Value

-- The number that a flag equals.
unfoldable pub flag_number : Bool → Text
flag_number true = codes "1"
flag_number false = codes "0"

-- `a == b`
unfoldable mutual
  unfolding flag_number

  pub same_value : Value → Value → Bool
  same_value null null = true
  same_value (flag a) (flag b) = holds (text_discrete (flag_number a) (flag_number b))
  same_value (flag a) (number b) = holds (text_discrete (flag_number a) b)
  same_value (number a) (flag b) = holds (text_discrete a (flag_number b))
  same_value (number a) (number b) = holds (text_discrete a b)
  same_value (text a) (text b) = holds (text_discrete a b)
  same_value (dictionary a) (dictionary b) = holds (text_discrete a b)
  same_value (many a) (many b) = same_values a b
  same_value _ _ = false

  pub same_values : Values → Values → Bool
  same_values nil nil = true
  same_values (cons a rest) (cons b others) = same_value a b && same_values rest others
  same_values _ _ = false

-- `a in values`
unfoldable pub contains : Value → Values → Bool
unfolding same_value
contains a nil = false
contains a (cons b values) = same_value b a || contains a values

-- `values.append(a)`
unfoldable pub add_value : Values → Value → Values
add_value nil a = cons a nil
add_value (cons b values) a = cons b (add_value values a)

-- `[b for b in values if b != a]`
unfoldable pub without : Value → Values → Values
unfolding same_value
without a nil = nil
without a (cons b values) =
    let rest = without a values in if same_value b a then rest else cons b rest

-- `current is True`
unfoldable pub is_true : Option Value → Bool
is_true (some (flag true)) = true
is_true _ = false
