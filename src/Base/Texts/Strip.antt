-- ===== src/Base/Texts/Strip.antt =====
-- Stripping twice is stripping once.
use mathlib.Core.Bool.{Bool, true, not}
use mathlib.Core.List.{[], ◌∷◌, ◌++◌, reverse, reverse-append, reverse-reverse}
use mathlib.Core.Path.{◌≡◌, refl, sym, ap, ◌∙◌, subst}
use native.Mathlib.Omega.{arith}
use my_digital_brain.Base.Tests.{if◌then◌else◌}
use my_digital_brain.Base.Texts.{Text, is_space, lstrip, strip}

-- No white space at the front.
abbrev bare : Text → Bool
bare [] = true
bare (c ∷ s) = not (is_space c)

bare-lstrip : (s : Text) → bare (lstrip s) ≡ true
unfolding lstrip
bare-lstrip [] = refl
bare-lstrip (c ∷ s) = ground (arith, bare-lstrip s)

lstrip_of_bare : (s : Text) → bare s ≡ true → lstrip s ≡ s
unfolding lstrip
lstrip_of_bare [] h = refl
lstrip_of_bare (c ∷ s) h = ground arith

bare_of_append : (s t : Text) → bare (s ++ t) ≡ true → bare s ≡ true
bare_of_append [] t h = refl
bare_of_append (c ∷ s) t h = h

-- What `lstrip` takes away.
dropped : Text → Text
dropped [] = []
dropped (c ∷ s) = if is_space c then c ∷ dropped s else []

dropped-lstrip : (s : Text) → s ≡ dropped s ++ lstrip s
unfolding lstrip dropped
dropped-lstrip [] = refl
dropped-lstrip (c ∷ s) = ground (arith, dropped-lstrip s)

-- `rstrip` keeps a front that is no white space.
bare_rstrip : (t : Text) → bare t ≡ true → bare (reverse (lstrip (reverse t))) ≡ true
bare_rstrip t h =
    bare_of_append (reverse (lstrip (reverse t))) (reverse (dropped (reverse t)))
      (subst (λ x. bare x ≡ true) regroup h)
  where
    regroup : t ≡ reverse (lstrip (reverse t)) ++ reverse (dropped (reverse t))
    regroup =
        sym (reverse-reverse t)
        ∙ ap reverse (dropped-lstrip (reverse t))
        ∙ reverse-append (dropped (reverse t)) (lstrip (reverse t))

pub strip-strip : (s : Text) → strip (strip s) ≡ strip s
unfolding strip
strip-strip s =
    let t = lstrip s in
    let front : lstrip (reverse (lstrip (reverse t))) ≡ reverse (lstrip (reverse t)) =
      lstrip_of_bare _ (bare_rstrip t (bare-lstrip s)) in
    ap (λ x. reverse (lstrip (reverse x))) front
    ∙ ap (λ x. reverse (lstrip x)) (reverse-reverse (lstrip (reverse t)))
    ∙ ap reverse (lstrip_of_bare (lstrip (reverse t)) (bare-lstrip (reverse t)))
