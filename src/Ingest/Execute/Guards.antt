-- ===== src/Ingest/Execute/Guards.antt =====
-- When an execution writes to the graph.
use my_digital_brain.Base.{
  Bool-cases, Result-cases, [], arith, codes, inl, inr, ok, refl, true, ◌∷◌, ◌≡◌, ◌≢◌, ◌⊎◌,
}
use my_digital_brain.Ingest.Plan.{Plan, executed}
use my_digital_brain.Ingest.Issues.{issue}
use my_digital_brain.Ingest.Validate.{validate_write_plan}
use my_digital_brain.Ingest.Targets.{validate_status, write_plan_has_mutations}
use my_digital_brain.Ingest.Execute.{
  GraphService, IngestionResult, written, failed_status, not_written, result_of, execute_writes,
  execute_checked, caught, execute,
}

-- What an execution checks of a plan before its first write.
pub record IsReady (p : Plan) : Type 0 where
  pub status : validate_status p.status ≡ ok tt
  pub valid : (validate_write_plan p).is_valid ≡ true
  pub mutates : write_plan_has_mutations p ≡ true

-- An execution of a plan that was executed, that failed, that the validator rejects or that has no
-- mutations leaves the graph and does not report the plan as written.
pub execute-guarded :
    {G : Type 0} (service : GraphService G) (p : Plan) (graph graph' : G) (result : IngestionResult)
    → execute service p graph ≡ (ok result, graph')
    → IsReady p ⊎ ((graph' ≡ graph) × (result.status ≢ written))
unfolding execute execute_checked caught not_written
execute-guarded service p graph graph' result h = elim (Result-cases (validate_status p.status)) [
  | inr (error, s) ↦ inr (ground arith)
  | inl (u, s) ↦ elim (Bool-cases (validate_write_plan p).is_valid) [
    | inr invalid ↦ inr (ground arith)
    | inl valid ↦ elim (Bool-cases (write_plan_has_mutations p)) [
      | inr idle ↦ inr (ground arith)
      | inl mutates ↦ inl (record { status = s; valid = valid; mutates = mutates })
    ]
  ]
]

-- A result that is written: its plan is marked as executed.
marked :
    {G : Type 0} (service : GraphService G) (p : Plan) (graph graph' : G) (result : IngestionResult)
    → execute service p graph ≡ (ok result, graph')
    → result.status ≡ written
    → result.write_plan.status ≡ executed
unfolding execute execute_checked execute_writes caught not_written result_of
marked service p graph graph' result h done = ground arith

-- A plan that was written is not written again: its next execution fails and leaves the graph.
pub execute-again :
    {G : Type 0} (service : GraphService G) (p : Plan) (graph graph' later : G)
    (result : IngestionResult)
    → execute service p graph ≡ (ok result, graph')
    → result.status ≡ written
    → execute service result.write_plan later ≡ (
      ok (
          not_written result.write_plan failed_status
            (issue (codes "write_plan") (codes "write_plan_execution_failed") ∷ [])),
      later,
    )
unfolding execute execute_checked validate_status caught
execute-again service p graph graph' later result h done =
    rw (marked service p graph graph' result h done) refl
