-- ===== src/Ingest/Execute/Known.antt =====
-- References that grow, and what still resolves then.

use my_digital_brain.Base.{
  put, get-put, get-put_self, List-cases, Option-cases, Table, Text, arith, get, has, inl, inr, ok,
  true, ◌∷◌, ◌≡◌,
}
use my_digital_brain.Ingest.Plan.{NodeWrite}
use my_digital_brain.Ingest.Targets.{resolve_ref, implied_target, resolve_node_write_target}

-- Every reference that was noted is still noted.
pub record Grows (m m' : Table Text) : Type 0 where
  pub at : (ref : Text) → has m ref ≡ true → has m' ref ≡ true

pub Grows-refl : (m : Table Text) → Grows m m
Grows-refl m = record { at = λ ref h. h }

pub Grows-trans : (m m' m'' : Table Text) → Grows m m' → Grows m' m'' → Grows m m''
Grows-trans m m' m'' h h' = record { at = λ ref x. h'.at ref (h.at ref x) }

pub Grows-put : (m : Table Text) (ref id : Text) → Grows m (put m ref id)
Grows-put m ref id = record { at = λ r h. ground (arith, get-put m ref r id) }

pub has-put : (m : Table Text) (ref id : Text) → has (put m ref id) ref ≡ true
has-put m ref id = ground (arith, get-put_self m ref id)

-- The reference resolves.
abbrev pub Resolves : Text → Table Text → Type 0
Resolves ref m = (id : Text) × (resolve_ref ref m ≡ ok id)

abbrev pub HasTarget : NodeWrite → Table Text → Type 0
HasTarget w m = (id : Text) × (resolve_node_write_target w m ≡ ok id)

pub Resolves-Grows :
    (ref : Text) (m m' : Table Text) → Grows m m' → Resolves ref m → Resolves ref m'
unfolding resolve_ref
Resolves-Grows ref m m' g (id, h) = elim (Option-cases (get m' ref)) [
  | inr (id', at) ↦ (id', ground (arith, at))
  | inl absent ↦ (id, ground (arith, g.at ref, absent))
]

implied_target-Grows :
    (w : NodeWrite) (m m' : Table Text) (id : Text)
    → Grows m m'
    → implied_target w m ≡ ok id
    → (id' : Text) × (implied_target w m' ≡ ok id')
unfolding implied_target
implied_target-Grows w m m' id g h = elim (Option-cases (get m' w.local_ref)) [
  | inr (id', at) ↦ (id', ground (arith, at))
  | inl absent ↦ (id, ground (arith, g.at w.local_ref, absent))
]

pub HasTarget-Grows :
    (w : NodeWrite) (m m' : Table Text) → Grows m m' → HasTarget w m → HasTarget w m'
unfolding resolve_node_write_target
HasTarget-Grows w m m' g (id, h) = elim (Option-cases w.target_ref) [
  | inl absent ↦
      let (id', r) = implied_target-Grows w m m' id g (ground arith) in (id', ground arith)
  | inr (target, given) ↦ elim (List-cases target) [
    | inl blank ↦
        let (id', r) = implied_target-Grows w m m' id g (ground arith) in (id', ground arith)
    | inr (c, s, filled) ↦
        let (id', r) = Resolves-Grows (c ∷ s) m m' g (id, ground arith) in (id', ground arith)
  ]
]
