-- ===== src/Ingest/Execute/Written.antt =====
-- What an execution did that reports its plan as written.
use my_digital_brain.Ingest.Execute.Guards.{IsReady}
use my_digital_brain.Base.{
  ◌==◌, ◌++◌, ◌∷◌, ℕ, length, All, Table, Text, has, true, false, some_of, Exec, ok, ◌>>=◌, ◌≡◌,
  List, [],
}
use my_digital_brain.Ingest.Plan.{Plan, NodeWrite, RelationshipWrite, Patch}
use my_digital_brain.Ingest.Validate.{node_writes}
use my_digital_brain.Ingest.Targets.{Failure, Stored}
use my_digital_brain.Ingest.Execute.{
  GraphService, Run, each, write_plan, IngestionResult, result_of, initial_ref_map, executed,
}
use my_digital_brain.Ingest.Execute.Known.{Grows, HasTarget, Resolves}
use my_digital_brain.Ingest.Execute.Steps.{Noted}

-- What a write leaves in the references: its own reference, and what it needed.
abbrev pub IsNoted : NodeWrite → Table Text → Type 0
IsNoted w m = has m w.local_ref ≡ true

abbrev pub IsUpdated : NodeWrite → Table Text → Type 0
IsUpdated w m = (has m w.local_ref ≡ true) × HasTarget w m

abbrev pub IsLinked : RelationshipWrite → Table Text → Type 0
IsLinked w m = (has m w.local_ref ≡ true) × Resolves w.from_ref m × Resolves w.to_ref m

abbrev pub IsPatched : Patch → Table Text → Type 0
IsPatched x m = (some_of (λ c. c == b'.') x.path ≡ false) × Resolves x.target_ref m

abbrev Rest : Type 0 → Type 0
Rest G = List ℕ → Exec (Run G) Failure (List ℕ)

module _ {G : Type 0} where
  -- Whenever the rest of the writes returns, its counts are the given ones, after those before it,
  -- the references grow, and `Q` is true of them.
  abbrev Leaves : Rest G → List ℕ → (Table Text → Type 0) → Type 0
  Leaves rest given Q =
      (counts all : List ℕ) (r r' : Run G)
      → rest counts r ≡ (ok all, r')
      → (all ≡ counts ++ given) × Noted Q r r'

  -- A loop, before the rest.
  abbrev before : {A : Type 0} → (A → Exec (Run G) Failure Stored) → List A → Rest G → Rest G
  before write xs rest counts = each write xs >>= λ n. rest (counts ++ n ∷ [])

-- The writes of a plan, as the references after it show them.
pub record AreWritten (p : Plan) (m : Table Text) : Type 0 where
  nodes : All (λ w. IsNoted w m) (node_writes p)
  updates : All (λ w. HasTarget w m) p.nodes_to_update
  patches : All (λ x. IsPatched x m) p.metadata_patches
  relationships : All (λ x. IsLinked x m) (p.relationships_to_create ++ p.relationships_to_update)

-- How many writes of each kind a plan has.
abbrev pub sizes : Plan → List ℕ
sizes p =
    length p.nodes_to_create
    ∷ length p.nodes_to_update
    ∷ length p.claims_to_create
    ∷ length p.perceptions_to_create
    ∷ length p.relationship_contexts_to_create
    ∷ length p.memory_logs_to_create
    ∷ length p.profile_memories_to_create
    ∷ length p.metadata_patches
    ∷ length (p.relationships_to_create ++ p.relationships_to_update)
    ∷ []

module _ {G : Type 0} (service : GraphService G) (p : Plan) where
  -- What `write_plan` leaves in the references.
  abbrev Outcome : Table Text → Type 0
  Outcome m =
      All (λ w. IsNoted w m) p.nodes_to_create
      × (All (λ w. IsUpdated w m) p.nodes_to_update
          × (All (λ w. IsNoted w m) p.claims_to_create
              × (All (λ w. IsNoted w m) p.perceptions_to_create
                  × (All (λ w. IsNoted w m) p.relationship_contexts_to_create
                      × (All (λ w. IsNoted w m) p.memory_logs_to_create
                          × (All (λ w. IsNoted w m) p.profile_memories_to_create
                              × (All (λ x. IsPatched x m) p.metadata_patches
                                  × (All (λ x. IsLinked x m)
                                        (p.relationships_to_create ++ p.relationships_to_update)
                                      × Unit {0}))))))))

  -- The run of an execution that reports its plan as written.
  record Ran (graph : G) (result : IngestionResult) : Type 0 where
    refs : Table Text
    counts : List ℕ
    after : Run G
    start : initial_ref_map p.metadata ≡ ok refs
    ran : write_plan service p (record { graph = graph; ref_map = refs }) ≡ (ok counts, after)
    same : result ≡ result_of p counts after.ref_map

-- What an execution returns that reports its plan as written.
pub record IsWritten (p : Plan) (result : IngestionResult) : Type 0 where
  ready : IsReady p
  marked : result.write_plan ≡ record p { status = executed }
  counted : result.counts ≡ sizes p
  refs : Table Text
  start : initial_ref_map p.metadata ≡ ok refs
  grows : Grows refs result.ref_map
  done : AreWritten p result.ref_map
