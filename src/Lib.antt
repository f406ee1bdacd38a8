-- ===== src/Lib.antt =====
-- The core of the maeglagi backend (backend/app): how a source that a user uploads is turned into
-- chunks, how the work on it is queued and retried, and how what was learned from it is kept.
--
-- The parts and the files that model them:
--
-- - Base (Base.antt and Base/): the Boolean tests and the equality of the model, lists, tables of
--   rows with a key (Base/Rows), texts as lists of code points (Base/Text) and the stable insertion
--   sort that stands for `sorted` (Base/Sort).
-- - States: the enums of modules/workspaces/domain/source_state.py.
-- - Jobs: the work queue of modules/ingestion/infrastructure. Jobs.antt has the row of pg_jobs.py
--   and the statements of pg_executor.py (`enqueue_source`, `claim_job`, `_fenced_update`,
--   `_renew`), Jobs/Execution has `_execute_claim`, Jobs/Recovery has pg_recovery.py. A statement is
--   a function on the table of rows at the instant at which it runs; a transaction of another
--   session is seen through the row locks it holds. Jobs/Steps is the step relation of any number
--   of executors, enqueuing requests and reconciliations on one table, in any order and with clocks
--   that do not run backwards: the interleavings are its sequences of steps. Budget and Fence are
--   invariants of it; Claiming, Outcomes and Reconcile are about one operation each.
-- - Ingestion: modules/ingestion/domain/models.py (Ingestion/Models, where a validator is a function
--   that returns nothing on the input it refuses), application/normalization.py
--   (Ingestion/Normalization) and application/chunking.py (Ingestion/Chunking).
-- - Temporal: the dates and the validity intervals of
--   modules/context_engine/application/temporal.py.
-- - Extraction: the kinds and records of modules/context_engine/domain/ontology.py and
--   domain/extraction.py, and `normalize_name` of application/entity_resolution.py.
-- - Store: the context store of a workspace, application/context_store.py of the same module. Store.antt
--   has `merge_extraction`, Store/Timeline `timeline_records`, Store/Closing `_close`, Store/Update
--   the updater, Store/Service the service over the tables of
--   infrastructure/context_store_repository.py.
-- - Broker: the fanout of source events, api/workspaces/source_event_broker.py. Broker.antt has the
--   operations, Broker/Steps the moves of the callers, the task and the streams, in any order.
-- - Access: who may use a workspace, modules/workspaces/application/access.py.
-- - Attempts: how a failed attempt is classified, `_safe_attempt_error` of
--   modules/ingestion/infrastructure/source_processor.py.
-- - Validation: what an external agent may propose, modules/agent_workflows/validation.py.
-- - Uploads: the check of a recording, modules/ingestion/application/upload_validation.py;
--   Uploads/Signatures describes the formats by what their files begin with.
-- - Sources: the rows of workspaces, sources, people, projects and chunks, from
--   modules/workspaces/infrastructure/models.py and modules/context_engine/infrastructure/models.py.
-- - Directory: `canonicalize_directory_entities`, modules/context_engine/application/directory_resolution.py.
-- - Resolution: which mentions are one entity, modules/context_engine/application/entity_resolution.py.
--   Resolution.antt has the groups, Resolution/Entities and Linking the entities and the replaced
--   decisions, Resolution/Graph the relations and `resolve_extraction`, Resolution/Returns when it
--   returns.
-- - Keyless: the context update without a model, modules/agent_workflows/context_updater.py.
-- - Agents: the service behind the tools of external agents, modules/agent_workflows/service.py and
--   repositories.py. Agents.antt has the scope of an actor, Agents/Directory the snapshot of the
--   directory, Agents/Creation new rows, Agents/Editing the edits, Agents/Reading what is listed,
--   Agents/Recovering the recovery of a recording (modules/ingestion/application/
--   transcript_recovery.py). A call that raises is rolled back, so an error carries no database.
-- - Analysis: the submission of an analysis to that service. Analysis.antt has the text, the
--   fingerprints and the index, Analysis/Submission the run as the list of its commits: a process may
--   die after any of them, and Analysis/Once takes any number of such runs one after the other, as the
--   advisory locks order them. Analysis/Context has `analysis_context`.
--
-- The jobs call the processor of a source as a parameter, an attempt that ends in one of four ways.
-- The processor normalizes and chunks with Ingestion.
--
-- Numbers and bounds: instants and durations are natural numbers on one fixed scale, so that
-- PostgreSQL's `now()` is the argument `now`; uuids are numbers that are only compared. The code
-- has no machine-width integers here: Python's are unbounded, and the counters of a row stay far
-- below the bounds of their columns. Texts are lists of code points. The loop of `_split` runs on
-- fuel, one more than the length of the text, which is enough since each turn moves the start on;
-- all other loops are structural recursion.
--
-- Not modelled: the HTTP and MCP surface, authentication, the adapters of the model providers, the
-- SQL and Cypher of the graph, migrations, configuration and logging, which are glue around
-- libraries, and the frontend, which is another program. `datetime.fromisoformat`, `astimezone`,
-- `isoformat`, uuid5, Unicode normalization and case folding belong to libraries: where the code
-- relies on them they are parameters, with the exceptions that they raise.
pub mod Base
pub mod States
pub mod Jobs
pub mod Ingestion
pub mod Temporal
pub mod Access
pub mod Agents
pub mod Analysis
pub mod Attempts
pub mod Broker
pub mod Directory
pub mod Extraction
pub mod Keyless
pub mod Resolution
pub mod Sources
pub mod Store
pub mod Uploads
pub mod Validation
