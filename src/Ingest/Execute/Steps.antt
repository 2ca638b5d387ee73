-- ===== src/Ingest/Execute/Steps.antt =====
-- Writes that succeed, and the references that they note.
use my_digital_brain.Ingest.Execute.Known.{
  Grows, Grows-refl, Grows-trans, Grows-put, has-put, HasTarget, HasTarget-Grows, Resolves,
  Resolves-Grows,
}
use my_digital_brain.Graph.Values.{Value}
use my_digital_brain.Base.{
  length, ◌∙◌, ap, sym, Option-cases, inl, inr, lift, pure, bind-ok, ◌>>=◌, ◌>>◌, All, Exec, List,
  Option, Result, Table, Text, [], arith, false, get, has, ok, put, refl, some_of, true, ℕ, ◌+◌,
  ◌==◌, ◌∷◌, ◌≡◌,
}
use my_digital_brain.Graph.Values.{Properties}
use my_digital_brain.Ingest.Plan.{NodeWrite, RelationshipWrite, Patch, set, append, remove}
use my_digital_brain.Ingest.Plan
use my_digital_brain.Ingest.Targets.{
  Failure, Stored, resolve_ref, resolve_node_write_target, stored_id,
}
use my_digital_brain.Ingest.Execute.{
  GraphService, Run, on_graph, with_refs, note_ref, create_node, update_node, write_relationship,
  metadata_patch_properties, patch_metadata, each, without_id, appended, removed,
}

-- The call noted what it left: the references before it, and `P`.
pub record Noted {G : Type 0} (P : Table Text → Type 0) (r r' : Run G) : Type 0 where
  pub grows : Grows r.ref_map r'.ref_map
  pub holds_after : P r'.ref_map

module _ {G : Type 0} where
  -- A call of the service that returned left the references.
  on_graph-ok :
      {A : Type 0} (m : Exec G Failure A) (r r' : Run G) (a : A)
      → on_graph m r ≡ (ok a, r')
      → r'.ref_map ≡ r.ref_map
  unfolding on_graph
  on_graph-ok m r r' a h = ap (λ x. x.1.ref_map) (sym h)

  with_refs-ok :
      {A : Type 0} (f : Table Text → Result Failure A) (r r' : Run G) (a : A)
      → with_refs f r ≡ (ok a, r')
      → (f r.ref_map ≡ ok a) × (r'.ref_map ≡ r.ref_map)
  unfolding with_refs
  with_refs-ok f r r' a h = (ap (λ x. x.0) h, ap (λ x. x.1.ref_map) (sym h))

  -- The end of a write.
  abbrev note : Text → Stored → Exec (Run G) Failure Stored
  note ref s = do id ← lift (stored_id s); note_ref ref id; pure s

  note-ok :
      (ref : Text) (s s' : Stored) (r r' : Run G)
      → note ref s r ≡ (ok s', r')
      → (id : Text) × (r'.ref_map ≡ put r.ref_map ref id)
  unfolding stored_id note_ref
  note-ok ref s s' r r' h = elim (Option-cases s.id) [
    | inl absent ↦ absurd (ground arith)
    | inr (id, at) ↦ (id, ground arith)
  ]

  Noted-put :
      (ref id : Text) (r r1 r' : Run G)
      → r1.ref_map ≡ r.ref_map
      → r'.ref_map ≡ put r1.ref_map ref id
      → Noted (λ m. has m ref ≡ true) r r'
  Noted-put ref id r r1 r' same at =
      rw (at, same)
        (record { grows = Grows-put r.ref_map ref id; holds_after = has-put r.ref_map ref id })

module _ {G : Type 0} (service : GraphService G) where
  pub create_node-Noted :
      (w : NodeWrite) (r r' : Run G) (s : Stored)
      → create_node service w r ≡ (ok s, r')
      → Noted (λ m. has m w.local_ref ≡ true) r r'
  unfolding create_node
  create_node-Noted w r r' s h =
      let m : Exec (Run G) Failure Stored = on_graph (service.upsert_node w.label w.properties) in
      let (s1, r1, called, h1) = bind-ok m (note w.local_ref) r s r' h in
      let (id, at) = note-ok w.local_ref s1 s r1 r' h1 in
      Noted-put w.local_ref id r r1 r'
        (on_graph-ok (service.upsert_node w.label w.properties) r r1 s1 called) at

  pub update_node-Noted :
      (w : NodeWrite) (r r' : Run G) (s : Stored)
      → update_node service w r ≡ (ok s, r')
      → Noted (λ m. (has m w.local_ref ≡ true) × HasTarget w m) r r'
  unfolding update_node
  update_node-Noted w r r' s h =
      let m : Text → Exec (Run G) Failure Stored =
        λ target. on_graph (service.patch_node target (without_id w.properties)) in
      let (target, r1, known, h1) =
        bind-ok (with_refs (resolve_node_write_target w)) (λ target. m target >>= note w.local_ref)
          r s r' h in
      let (s2, r2, called, h2) = bind-ok (m target) (note w.local_ref) r1 s r' h1 in
      let (id, at) = note-ok w.local_ref s2 s r2 r' h2 in
      let (found, same) = with_refs-ok (resolve_node_write_target w) r r1 target known in
      let noted_here =
        Noted-put w.local_ref id r r2 r'
          (on_graph-ok (service.patch_node target (without_id w.properties)) r1 r2 s2 called ∙ same)
          at in
      record {
        grows = noted_here.grows;
        holds_after = (
          noted_here.holds_after,
          HasTarget-Grows w r.ref_map r'.ref_map noted_here.grows (target, found),
        );
      }

  pub write_relationship-Noted :
      (w : RelationshipWrite) (r r' : Run G) (s : Stored)
      → write_relationship service w r ≡ (ok s, r')
      → Noted (λ m. (has m w.local_ref ≡ true) × Resolves w.from_ref m × Resolves w.to_ref m) r r'
  unfolding write_relationship
  write_relationship-Noted w r r' s h =
      let m : Text → Text → Exec (Run G) Failure Stored = λ from_id to_id.
        on_graph (service.upsert_relationship w.relationship_type from_id to_id w.properties) in
      let (from_id, r1, from_known, h1) =
        bind-ok (with_refs (resolve_ref w.from_ref))
          (λ a. with_refs (resolve_ref w.to_ref) >>= (λ b. m a b >>= note w.local_ref)) r s r' h in
      let (to_id, r2, to_known, h2) =
        bind-ok (with_refs (resolve_ref w.to_ref)) (λ b. m from_id b >>= note w.local_ref) r1 s r'
          h1 in
      let (s3, r3, called, h3) = bind-ok (m from_id to_id) (note w.local_ref) r2 s r' h2 in
      let (id, at) = note-ok w.local_ref s3 s r3 r' h3 in
      let (from_found, same1) = with_refs-ok (resolve_ref w.from_ref) r r1 from_id from_known in
      let (to_found, same2) = with_refs-ok (resolve_ref w.to_ref) r1 r2 to_id to_known in
      let noted_here =
        Noted-put w.local_ref id r r3 r'
          (on_graph-ok (service.upsert_relationship w.relationship_type from_id to_id w.properties)
              r2 r3 s3 called
            ∙ same2
            ∙ same1)
          at in
      record {
        grows = noted_here.grows;
        holds_after = (
          noted_here.holds_after,
          Resolves-Grows w.from_ref r.ref_map r'.ref_map noted_here.grows (from_id, from_found),
          Resolves-Grows w.to_ref r.ref_map r'.ref_map noted_here.grows
              (to_id, ap (resolve_ref w.to_ref) (sym same1) ∙ to_found),
        );
      }

  read_properties :
      (f : Option Value → Value) (path target : Text) (r r' : Run G) (ps : Properties)
      → (do
        node ← on_graph (service.get_node target)
        pure ((path, f (get node.properties path)) ∷ []))
          r
        ≡ (ok ps, r')
      → r'.ref_map ≡ r.ref_map
  read_properties f path target r r' ps h =
      let (node, r1, called, h1) =
        bind-ok (on_graph (service.get_node target))
          (λ node. pure ((path, f (get node.properties path)) ∷ [])) r ps r' h in
      ap (λ y. y.1.ref_map) (sym h1) ∙ on_graph-ok (service.get_node target) r r1 node called

  -- A patch, below its check of the path.
  abbrev patched : Patch → Exec (Run G) Failure Stored
  patched x = do
    target ← with_refs (resolve_ref x.target_ref)
    properties ← metadata_patch_properties service x target
    on_graph (service.patch_node target properties)

  -- The part of a patch that computes the properties leaves the references.
  properties-ok :
      (x : Patch) (target : Text) (r r' : Run G) (ps : Properties)
      → metadata_patch_properties service x target r ≡ (ok ps, r')
      → r'.ref_map ≡ r.ref_map
  unfolding metadata_patch_properties
  properties-ok x target r r' ps h =
      elim x.operation
          as (λ o.
            metadata_patch_properties service (record x { operation = o }) target r ≡ (ok ps, r')
            → r'.ref_map ≡ r.ref_map) [
              | Plan.set ↦ λ e. ap (λ y. y.1.ref_map) (sym e)
              | Plan.append ↦ λ e. read_properties (λ v. appended v x.value) x.path target r r' ps e
              | Plan.remove ↦ λ e. read_properties (λ v. removed v x.value) x.path target r r' ps e
            ]
        h

  patch_flat :
      (x : Patch) (r : Run G)
      → some_of (λ c. c == b'.') x.path ≡ false
      → patch_metadata service x r ≡ patched x r
  unfolding patch_metadata
  patch_flat x r flat = rw (flat, patch_metadata) refl

  patch_nested :
      (x : Patch) (r r' : Run G) (s : Stored)
      → patch_metadata service x r ≡ (ok s, r')
      → some_of (λ c. c == b'.') x.path ≡ false
  unfolding patch_metadata
  patch_nested x r r' s h = ground arith

  pub patch_metadata-Noted :
      (x : Patch) (r r' : Run G) (s : Stored)
      → patch_metadata service x r ≡ (ok s, r')
      → Noted (λ m. (some_of (λ c. c == b'.') x.path ≡ false) × Resolves x.target_ref m) r r'
  patch_metadata-Noted x r r' s h =
      let flat = patch_nested x r r' s h in
      let write : Text → Properties → Exec (Run G) Failure Stored =
        λ target ps. on_graph (service.patch_node target ps) in
      let (target, r1, known, h1) =
        bind-ok (with_refs (resolve_ref x.target_ref))
          (λ target. metadata_patch_properties service x target >>= write target) r s r'
          (sym (patch_flat x r flat) ∙ h) in
      let (ps, r2, computed, h2) =
        bind-ok (metadata_patch_properties service x target) (write target) r1 s r' h1 in
      let (found, same1) = with_refs-ok (resolve_ref x.target_ref) r r1 target known in
      let same =
        on_graph-ok (service.patch_node target ps) r2 r' s h2
        ∙ properties-ok x target r1 r2 ps computed
        ∙ same1 in
      record {
        grows = rw same (Grows-refl r.ref_map);
        holds_after = (flat, (target, ap (resolve_ref x.target_ref) same ∙ found));
      }

module _ {G A : Type 0} (write : A → Exec (Run G) Failure Stored) (P : A → Table Text → Type 0)
    (keeps : (x : A) (m m' : Table Text) → Grows m m' → P x m → P x m')
    (step : (x : A) (r r' : Run G) (s : Stored) → write x r ≡ (ok s, r') → Noted (P x) r r') where
  -- A loop that returns has counted its elements and noted what each of them leaves.
  pub each-Noted :
      (xs : List A) (r r' : Run G) (n : ℕ)
      → each write xs r ≡ (ok n, r')
      → (n ≡ length xs) × Noted (λ m. All (λ x. P x m) xs) r r'
  unfolding each
  each-Noted [] r r' n h =
      let same : r ≡ r' = ap (λ y. y.1) h in
      (ground arith, rw (sym same) (record { grows = Grows-refl r.ref_map; holds_after = tt }))
  each-Noted (x ∷ xs) r r' n h =
      let (s, r1, first, h1) =
        bind-ok (write x) (λ _. each write xs >>= (λ k. pure (k + 1))) r n r' h in
      let (k, r2, others, h2) = bind-ok (each write xs) (λ k. pure (k + 1)) r1 n r' h1 in
      let same : r2 ≡ r' = ap (λ y. y.1) h2 in
      let one = step x r r1 s first in
      let (count, rest) = each-Noted xs r1 r2 k others in
      (
        ground (arith, count),
        rw (sym same) (record {
          grows = Grows-trans r.ref_map r1.ref_map r2.ref_map one.grows rest.grows;
          holds_after =
              (keeps x r1.ref_map r2.ref_map rest.grows one.holds_after, rest.holds_after);
        }),
      )
