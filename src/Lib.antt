-- ===== src/Lib.antt =====
-- My Digital Brain: a verification library for the Python package `src/my_digital_brain`.
--
-- The program keeps a personal memory graph. A run of the ingestion gives short references to graph
-- objects so that a language model never sees a database id; a session with a model calls tools,
-- pauses for the user's answers and goes on; calls to the model are kept within its context window
-- and are retried; each state of the agent is allowed a set of tools. What an extraction proposes
-- is validated, planned and written to the graph, and nodes of the graph are merged.
--
-- Which file models which part:
--   References/Mapper       core/ids.py, `IdAliasMapper`: the counters and the two tables
--   References/Entry        ingestion/contracts/identity_resolution.py, `ReferenceRegistryEntry`
--   References/Registry     ingestion/reference_registry.py, `RunReferenceRegistry`: the state and
--                           `_store_entry`; Register has the methods that register, Read the reads
--                           and `from_snapshot`, Calls the sequences of calls
--   Session/Types           ai/session/contracts.py, ai/models.py, ai/schemas.py: the data
--   Session/Contracts       ai/session/contracts.py: requests, continuations and results
--   Session/Tools           ai/session/tool_executor.py, and the tool messages of a session
--   Session/Packets         `_combined_clarification_packet` of ai/session/runner.py
--   Session/Batch           `_execute_batch` of ai/session/runner.py
--   Session/Runner          the rest of ai/session/runner.py, and ai/session/continuation.py
--   Context/Limits          ai/context.py, `ModelContextRegistry` and `ContextBudgetResolver`
--   Context/Compaction      ai/context.py, `GenAIContextManager`
--   Client/Params           ai/client/compatibility.py and the renamings of ai/client/retrying.py
--   Client/Retry            ai/client/retrying.py, `_call_with_retries`
--   Client/Router           ai/router.py, `StaticModelRouter`
--   Agentic/Ids, States     agentic/enums.py and agentic/state.py
--   Agentic/Mutations       agentic/mutations.py
--   Agentic/Tools, Toolbox  agentic/tools/registry.py
--   Refs/Entry, Context     agentic/refs.py, `RefEntry` and `RefContext`
--   Clarification/Contracts clarification/contracts.py: questions, packets and answers
--   Clarification/Handoff   clarification/contracts.py: doubts and the report that resolves them
--   Clarification/Build     `build_clarification_packet` of clarification/interaction.py
--   Clarification/Answers   `validate_clarification_answers` of clarification/interaction.py
--   Clarification/Progress  the answers of several turns, clarification/interaction.py and
--                           `answer_clarification` of chat/runtime.py
--   Graph/Labels, Values    graph/registry.py, and the values of graph properties
--   Graph/Canonical         graph/merge_service.py: canonical nodes and the nodes of a merge
--   Graph/Merge             graph/merge_service.py: merge records, Apply has `apply_merge`
--   Ingest/Plan, Issues     ingestion/contracts: `GraphWritePlan` and `ValidationIssue`
--   Ingest/Validate         ingestion/validation.py, `IngestionValidator`
--   Ingest/Candidates       ingestion/contracts/candidates.py and memory_logs.py; Validate and Logs
--                           have `validate_candidate_graph` of ingestion/validation.py
--   Ingest/Targets, Execute ingestion/executor.py, `GraphWritePlanExecutor`
--   Base                    texts, dictionaries, results and lemmas that the parts share
--   Tests                   the theorems at concrete inputs
-- All paths are below src/my_digital_brain.
--
-- A registry calls its mapper for each alias, as `_store_entry` does, and keeps what was written
-- before an exception. A session runs one batch of tool calls per turn and hands the messages on.
-- The retries call the context manager before each attempt, and its exceptions like the provider's
-- end in their handler. The executor validates a plan with the
-- rules of the validator, reads the references of a run from a snapshot of the registry, and calls
-- the graph service for each write.
--
-- Texts are lists of code points. `upper`, `lower` and `isdigit` are those of ASCII texts; the
-- references and the names of models are ASCII. Dictionaries keep their order of insertion.
--
-- Fuel: the loop over provider turns takes fuel, and the cap on tool calls plus the repairs plus
-- two is enough, since each turn with tools uses up the cap and each repair an attempt. The search
-- for a canonical node takes fuel above the number of nodes, since no node is visited twice. All
-- other loops are structural.
--
-- Parameters: the provider, the tools, JSON, uuids and the rendering of questions (`Library`), the
-- token counter and the ratio of the context manager (`Manager`), and the client around the retries
-- (`Client`), the graph service of an execution (`GraphService`), the writer of merges
-- (`MergeServices`) and the parse of uuids. Logging, tracing, usage data and pauses stay out.
--
-- Not modelled: the pipeline of extraction, the graph database, the store of chats, retrieval, the
-- HTTP interface, storage, prompts and the frontend.
pub mod Base
pub mod References
pub mod Refs
pub mod Graph
pub mod Ingest
pub mod Session
pub mod Clarification
pub mod Client
pub mod Context
pub mod Agentic
pub mod Tests
