-- ===== src/Ingest/Plan.antt =====
-- ingestion/contracts/write_plan.py: `GraphWritePlan`. Evidence, sources, decisions and keys are
-- kept with a plan and read by none of the operations here; they are left out.
use my_digital_brain.Base.{List, Option, Table, Text}
use my_digital_brain.References.Registry.Read.{Snapshot}
use my_digital_brain.Graph.Values.{Value, Properties}

-- `GraphNodeWrite`
pub record NodeWrite : Type 0 where
  pub local_ref : Text
  pub label : Text
  pub target_ref : Option Text
  pub properties : Properties

-- `GraphRelationshipWrite`
pub record RelationshipWrite : Type 0 where
  pub local_ref : Text
  pub relationship_type : Text
  pub from_ref : Text
  pub to_ref : Text
  pub properties : Properties

-- The operations of `CandidateMetadataPatch`.
pub data Operation : Type 0 where
  set append remove : Operation

-- `CandidateMetadataPatch`
pub record Patch : Type 0 where
  pub target_ref : Text
  pub operation : Operation
  pub path : Text
  pub value : Value

-- `GraphWritePlanStatus`
pub data PlanStatus : Type 0 where
  draft validated executed failed : PlanStatus

-- What is read of the plan's metadata; `none` stands for a snapshot that is missing or empty.
pub record Metadata : Type 0 where
  pub alias_map : Table Text
  pub local_ref_resolution : Table Text
  pub reference_registry_snapshot : Option Snapshot

-- `GraphWritePlan`
pub record Plan : Type 0 where
  pub source_id : Text
  pub status : PlanStatus
  pub nodes_to_create : List NodeWrite
  pub nodes_to_update : List NodeWrite
  pub relationships_to_create : List RelationshipWrite
  pub relationships_to_update : List RelationshipWrite
  pub claims_to_create : List NodeWrite
  pub perceptions_to_create : List NodeWrite
  pub relationship_contexts_to_create : List NodeWrite
  pub memory_logs_to_create : List NodeWrite
  pub profile_memories_to_create : List NodeWrite
  pub metadata_patches : List Patch
  pub metadata : Metadata
