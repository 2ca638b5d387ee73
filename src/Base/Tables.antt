-- ===== src/Base/Tables.antt =====
-- `dict` with `str` keys.
use mathlib.Core.Bool.{Bool, true, false}
use mathlib.Core.List.{List, [], map}
use mathlib.Core.Logic.{ite, if_pos}
use mathlib.Core.Option.{Option, none, some}
use mathlib.Core.Path.{◌≡◌, refl, ◌∙◌}
use my_digital_brain.Base.Dicts.{Dict, lookup, insert, lookup-insert}
use my_digital_brain.Base.Texts.{Text, text_discrete}

abbrev pub Table : Type 0 → Type 0
Table V = Dict Text V

module _ {V : Type 0} where
  abbrev pub empty : Table V
  empty = []

  -- `d.get(k)`
  unfoldable pub get : Table V → Text → Option V
  unfolding lookup
  get d k = lookup text_discrete k d

  -- `d[k] = v`
  unfoldable pub put : Table V → Text → V → Table V
  unfolding insert
  put d k v = insert text_discrete k v d

  -- `k in d`
  abbrev pub has : Table V → Text → Bool
  has d k = elim (get d k) [ none ↦ false | some _ ↦ true ]

  -- `list(d)`
  abbrev pub keys : Table V → List Text
  keys = map (λ e. e.0)

  -- `d.values()`
  abbrev pub values : Table V → List V
  values = map (λ e. e.1)

  pub get-put :
      (d : Table V) (k j : Text) (v : V)
      → get (put d k v) j ≡ ite (text_discrete k j) (some v) (get d j)
  unfolding get put
  get-put d k j v = lookup-insert text_discrete k j v d

  pub get-put_self : (d : Table V) (k : Text) (v : V) → get (put d k v) k ≡ some v
  get-put_self d k v = get-put d k k v ∙ if_pos (text_discrete k k) refl _ _
