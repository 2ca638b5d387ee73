-- ===== src/Refs/Context/Unique.antt =====
-- Writes to a context keep one reference for each backend object.
use mathlib.Core.Path.{subst}
use my_digital_brain.Base.{
  refl, ap, sym, ◌∙◌, Bool-cases, Option-cases, ◌≡◌, ◌≢◌, true, false, inl, inr, Option, none, some,
  [], ◌∷◌, arith, Text, text_discrete, Table, get, put, values, get-put, insert, lookup, Kept, ite,
}
use my_digital_brain.Refs.Entry.{RefEntry}
use my_digital_brain.Refs.Context.{
  RefContext, is_bound_to, find_backend, ref_for_backend_id, is_elsewhere, write_entry,
}

-- Every entry stands under its own reference, and no reference twice.
abbrev pub Keyed : Table RefEntry → Type 0
Keyed [] = Unit
Keyed ((ref, e) ∷ entries) = (e.ref ≡ ref) × (get entries ref ≡ none) × Keyed entries

pub Keyed-get :
    (entries : Table RefEntry) (ref : Text) (e : RefEntry)
    → Keyed entries
    → get entries ref ≡ some e
    → e.ref ≡ ref
unfolding get lookup
Keyed-get [] ref e h at = absurd (ground arith)
Keyed-get ((j, w) ∷ entries) ref e (own, once, h) at = ground (arith, Keyed-get entries ref e h)

Keyed-put :
    (entries : Table RefEntry) (ref : Text) (e : RefEntry)
    → Keyed entries
    → e.ref ≡ ref
    → Keyed (put entries ref e)
unfolding put insert get
Keyed-put [] ref e h same = (same, refl, tt)
Keyed-put ((j, w) ∷ entries) ref e (own, once, h) same =
    elim (text_discrete j ref)
      as (λ (d : Dec (j ≡ ref)). Keyed (ite d ((ref, e) ∷ entries) ((j, w) ∷ put entries ref e))) [
        | yes here ↦ (same, ground (arith, here), h)
        | no away ↦ (own, ground (arith, get-put entries ref j e), Keyed-put entries ref e h same)
      ]

-- An entry that is written is found by its backend id, unless another entry has it.
find-new :
    (entries : Table RefEntry) (ref id : Text) (e : RefEntry)
    → Keyed entries
    → e.ref ≡ ref
    → is_bound_to id e ≡ true
    → is_elsewhere (find_backend id (values entries)) ref ≡ false
    → find_backend id (values (put entries ref e)) ≡ some ref
unfolding put insert find_backend is_elsewhere
find-new [] ref id e h same bound free = ground arith
find-new ((j, w) ∷ entries) ref id e (own, once, h) same bound free =
    ground (arith, find-new entries ref id e h same bound)

-- Other objects are found as before.
find-other :
    (entries : Table RefEntry) (ref ref' id : Text) (e : RefEntry)
    → Keyed entries
    → is_bound_to id e ≡ false
    → ref' ≢ ref
    → find_backend id (values entries) ≡ some ref'
    → find_backend id (values (put entries ref e)) ≡ some ref'
unfolding put insert find_backend
find-other [] ref ref' id e h other away found = absurd (ground arith)
find-other ((j, w) ∷ entries) ref ref' id e (own, once, h) other away found =
    ground (arith, find-other entries ref ref' id e h other away)

-- Every entry stands under its own reference, and its backend id leads to it.
pub record IsUnique (c : RefContext) : Type 0 where
  pub keyed : Keyed c.entries
  pub found :
      (ref id : Text) (e : RefEntry)
      → get c.entries ref ≡ some e
      → e.backend_id ≡ some id
      → ref_for_backend_id c id ≡ some ref

-- The entry's backend id is free for the reference.
abbrev pub IsFree : RefContext → Text → Option Text → Type 0
IsFree c ref none = Unit
IsFree c ref (some id) = is_elsewhere (ref_for_backend_id c id) ref ≡ false

bound_true : (e : RefEntry) (id : Text) → e.backend_id ≡ some id → is_bound_to id e ≡ true
unfolding is_bound_to
bound_true e id h = ground arith

bound_id : (e : RefEntry) (id : Text) → is_bound_to id e ≡ true → e.backend_id ≡ some id
unfolding is_bound_to
bound_id e id h = elim (Option-cases e.backend_id) [
  | inl absent ↦ absurd (ground arith)
  | inr (b, at) ↦ ground arith
]

written-own :
    (c : RefContext) (ref id : Text) (e : RefEntry)
    → IsUnique c
    → e.ref ≡ ref
    → IsFree c ref e.backend_id
    → e.backend_id ≡ some id
    → find_backend id (values (put c.entries ref e)) ≡ some ref
unfolding ref_for_backend_id
written-own c ref id e h same free bound =
    find-new c.entries ref id e h.keyed same (bound_true e id bound)
      (subst (IsFree c ref) bound free)

-- An entry elsewhere has another backend id.
not_bound_elsewhere :
    (c : RefContext) (ref ref' id : Text) (e : RefEntry)
    → IsFree c ref e.backend_id
    → ref_for_backend_id c id ≡ some ref'
    → ref' ≢ ref
    → is_bound_to id e ≡ false
unfolding is_elsewhere
not_bound_elsewhere c ref ref' id e free found away = elim (Bool-cases (is_bound_to id e)) [
  | inr other ↦ other
  | inl bound ↦
      let taken = subst (IsFree c ref) (bound_id e id bound) free in
      absurd (ground (arith, taken, found))
]

written-other :
    (c : RefContext) (ref ref' id : Text) (e : RefEntry)
    → IsUnique c
    → IsFree c ref e.backend_id
    → ref' ≢ ref
    → ref_for_backend_id c id ≡ some ref'
    → find_backend id (values (put c.entries ref e)) ≡ some ref'
unfolding ref_for_backend_id
written-other c ref ref' id e h free away found =
    find-other c.entries ref ref' id e h.keyed (not_bound_elsewhere c ref ref' id e free found away)
      away found

pub write_entry-IsUnique :
    (ref : Text) (e : RefEntry) (c : RefContext)
    → IsUnique c
    → e.ref ≡ ref
    → IsFree c ref e.backend_id
    → Kept IsUnique (write_entry ref e c)
unfolding write_entry ref_for_backend_id
write_entry-IsUnique ref e c h same free = record {
  at = record {
    keyed = Keyed-put c.entries ref e h.keyed same;
    found = λ ref' id e' at bound. elim (text_discrete ref ref') [
      | yes here ↦
          let this : e ≡ e' = ground (arith, get-put c.entries ref ref' e) in
          written-own c ref id e h same free (ap (λ (x : RefEntry). x.backend_id) this ∙ bound)
          ∙ ap (λ x. some x) here
      | no away ↦
          written-other c ref ref' id e h free (λ p. away (sym p))
            (h.found ref' id e' (ground (arith, get-put c.entries ref ref' e)) bound)
    ];
  };
}

-- The reference that is found for a backend id has an entry with that id.
pub find-get :
    (entries : Table RefEntry) (id ref : Text)
    → Keyed entries
    → find_backend id (values entries) ≡ some ref
    → (e : RefEntry) × (get entries ref ≡ some e) × (e.backend_id ≡ some id)
unfolding get lookup find_backend
find-get [] id ref h found = absurd (ground arith)
find-get ((j, w) ∷ entries) id ref (own, once, h) found = elim (Bool-cases (is_bound_to id w)) [
  | inl bound ↦ (w, ground (arith, own, found, bound), bound_id w id bound)
  | inr other ↦
      let (e, at, b) = find-get entries id ref h (ground arith) in (e, ground (arith, once, at), b)
]
