-- ===== src/Graph/Canonical/Chain.antt =====
-- The chain of merges that `get_canonical_node` follows.
use my_digital_brain.Base.{
  Bool-cases, List, List-cases, Option-cases, Result, Text, [], ap, arith, elem, err, false,
  if◌then◌else◌, inl, inr, length, none, ok, refl, some, suc, sym, text_discrete, true, zero, ℕ,
  ◌+◌, ◌<◌, ◌∙◌, ◌∷◌, ◌≡◌, ◌≢◌, ◌≤◌, ◌⊎◌,
}
use my_digital_brain.Graph.Canonical.{
  Node, MergeError, not_found, cycle, several, out_of_fuel, MergeReads, follow, get_canonical_node,
}

-- The nodes that are not yet seen.
abbrev unseen : List Text → List Text → ℕ
unseen seen [] = 0
unseen seen (id ∷ ids) = (if elem text_discrete id seen then 0 else 1) + unseen seen ids

unseen-seen : (id : Text) (seen ids : List Text) → unseen (id ∷ seen) ids ≤ unseen seen ids
unseen-seen id seen [] = omega arith
unseen-seen id seen (x ∷ ids) = ground (arith, unseen-seen id seen ids)

unseen-new :
    (id : Text) (seen ids : List Text)
    → elem text_discrete id seen ≡ false
    → elem text_discrete id ids ≡ true
    → unseen (id ∷ seen) ids < unseen seen ids
unseen-new id seen [] new known = absurd (ground arith)
unseen-new id seen (x ∷ ids) new known = elim (text_discrete x id) [
  | yes same ↦ ground (arith, unseen-seen id seen ids, same, new)
  | no other ↦ ground (arith, unseen-new id seen ids new)
]

unseen-all : (ids : List Text) → unseen [] ids ≡ length ids
unseen-all [] = refl
unseen-all (x ∷ ids) = omega (arith, unseen-all ids)

follow-ends :
    (g : MergeReads) (ids : List Text)
    → ((id : Text) (n : Node) → g.node id ≡ some n → elem text_discrete id ids ≡ true)
    → (fuel : ℕ) (seen : List Text) (id : Text) → unseen seen ids < fuel
    → follow g fuel seen id ≢ err out_of_fuel
unfolding follow
follow-ends g ids finite zero seen id enough stuck = absurd (omega arith)
follow-ends g ids finite (suc fuel) seen id enough stuck =
    elim (Bool-cases (elem text_discrete id seen)) [
      | inl again ↦ ground arith
      | inr new ↦ elim (Option-cases (g.node id)) [
        | inl absent ↦ ground arith
        | inr (n, at) ↦ elim (List-cases (g.merged_into id)) [
          | inl last ↦ ground arith
          | inr (next, others, one) ↦ elim (List-cases others) [
            | inr (other, rest, two) ↦ ground arith
            | inl only ↦
                follow-ends g ids finite fuel (id ∷ seen) next
                  (omega (arith, unseen-new id seen ids new (finite id n at))) (ground arith)
          ]
        ]
      ]
    ]

-- In a graph of which the nodes are among finitely many ids, the search for a canonical node ends: fuel
-- above their number is never used up.
pub get_canonical_node-ends :
    (g : MergeReads) (ids : List Text) (fuel : ℕ) (id : Text)
    → ((id : Text) (n : Node) → g.node id ≡ some n → elem text_discrete id ids ≡ true)
    → length ids < fuel
    → get_canonical_node g fuel id ≢ err out_of_fuel
unfolding get_canonical_node
get_canonical_node-ends g ids fuel id finite enough =
    follow-ends g ids finite fuel [] id (omega (arith, unseen-all ids))

-- One or more merges lead from a node to another.
pub data Leads (g : MergeReads) : Text → Text → Type 0 where
  one : {a b : Text} → g.merged_into a ≡ b ∷ [] → Leads g a b
  more : {a b c : Text} → g.merged_into a ≡ b ∷ [] → Leads g b c → Leads g a c

Leads-one : (g : MergeReads) (a b c : Text) → Leads g a b → g.merged_into b ≡ c ∷ [] → Leads g a c
Leads-one g a b c (one h) last = more h (one last)
Leads-one g a b c (more h rest) last = more h (Leads-one g _ b c rest last)

-- The node itself, or one that merges lead to.
abbrev pub Reaches : MergeReads → Text → Text → Type 0
Reaches g a b = (a ≡ b) ⊎ Leads g a b

Reaches-one :
    (g : MergeReads) (a b c : Text) → Reaches g a b → g.merged_into b ≡ c ∷ [] → Leads g a c
Reaches-one g a b c (inl same) h = one (ap g.merged_into same ∙ h)
Reaches-one g a b c (inr leads) h = Leads-one g a b c leads h

-- What a result says of the merges that start at a node.
abbrev pub Explains : MergeReads → Text → Result MergeError Node → Type 0
Explains g start (ok n) =
    (id : Text) × Reaches g start id × (g.node id ≡ some n) × (g.merged_into id ≡ [])
Explains g start (err (cycle id)) = Reaches g start id × Leads g id id
Explains g start (err (not_found id)) = Reaches g start id × (g.node id ≡ none)
Explains g start (err (several id)) =
    Reaches g start id
    × (a : Text) × (b : Text) × (rest : List Text) × (g.merged_into id ≡ a ∷ b ∷ rest)
Explains g start (err out_of_fuel) = Unit
Explains g start (err _) = ⊥

follow-Explains :
    (g : MergeReads) (start : Text) (fuel : ℕ) (seen : List Text) (id : Text)
    → Reaches g start id
    → ((s : Text) → elem text_discrete s seen ≡ true → Leads g s id)
    → Explains g start (follow g fuel seen id)
unfolding follow
follow-Explains g start zero seen id reach back = tt
follow-Explains g start (suc fuel) seen id reach back =
    elim (Bool-cases (elem text_discrete id seen)) [
      | inl again ↦ rw (follow, again) (reach, back id again)
      | inr new ↦ elim (Option-cases (g.node id)) [
        | inl absent ↦ rw (follow, new, absent) (reach, absent)
        | inr (n, at) ↦ elim (List-cases (g.merged_into id)) [
          | inl last ↦ rw (follow, new, at, last) (id, reach, at, last)
          | inr (next, others, h) ↦ elim (List-cases others) [
            | inr (other, rest, two) ↦
                let both = h ∙ ap (λ x. next ∷ x) two in
                rw (follow, new, at, both) (reach, next, other, rest, both)
            | inl only ↦
                let single = h ∙ ap (λ x. next ∷ x) only in
                rw (follow, new, at, single)
                  (follow-Explains g start fuel (id ∷ seen) next
                    (inr (Reaches-one g start id next reach single))
                    (λ s known. elim (text_discrete id s) [
                      | yes same ↦ one (ap g.merged_into (sym same) ∙ single)
                      | no other ↦ Leads-one g s id next (back s (ground (arith, other))) single
                    ]))
          ]
        ]
      ]
    ]

-- Unless the fuel is used up: a canonical node stands at the end of the merges that start at the given
-- node; a cycle is reported where merges lead from a node on the way to itself, a missing node where
-- the way leads to an id without a node, and several canonical nodes where a node on the way has two
-- merges.
pub get_canonical_node-Explains :
    (g : MergeReads) (fuel : ℕ) (id : Text) → Explains g id (get_canonical_node g fuel id)
unfolding get_canonical_node
get_canonical_node-Explains g fuel id =
    follow-Explains g id fuel [] id (inl refl) (λ s none_seen. absurd (ground arith))
