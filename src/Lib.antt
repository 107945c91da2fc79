-- ===== src/Lib.antt =====
-- Verification library for MingJian (src/planagent), a decision-support service: sources are
-- ingested in runs, staged as raw items, turned into claims and review items by background
-- workers, and the workers are driven by an event bus. Logins are throttled at the API.
--
-- Parts and files
--   Base (Lists, Dict, Table)   Shared numbers, lists, Python dictionaries (association lists in
--                               the order of insertion) and database tables (lists of rows in the
--                               order of creation).
--   LoginThrottle               src/planagent/services/login_throttle.py. Each method is a function
--                               of the clock's reading and the limiter's state. The lock makes a
--                               method one step; the OrderedDict is the association list.
--   Lease                       The claim loop that src/planagent/services/pipeline.py writes out
--                               per table: select the ids of claimable rows, take each by an UPDATE
--                               that tests again, stop at the limit. It is written over the
--                               interface LeaseQueue, whose laws an instance proves; the pipeline's
--                               run_queue and raw_queue are instances.
--   Schema                      The columns of src/planagent/domain/models.py and the enums of
--                               domain/enums.py that the pipeline reads or writes, as the
--                               record Db of tables.
--   Pipeline.Ingest             `_claim_ingest_runs`, `_persist_raw_item`, `_stage_run_items`,
--                               `process_queued_runs` of src/planagent/services/pipeline.py.
--   Pipeline.Knowledge          `_claim_raw_items`, `_materialize_knowledge_for_raw_item`,
--                               `_create_claim`, `_finalize_queued_run`,
--                               `process_pending_knowledge` of the same file.
--   EventBus                    `InMemoryEventBus` and the attempt counters of
--                               `build_event_envelope`, of src/planagent/events/bus.py.
--   StreamWorker                `_run_stream_worker`, `_retry_or_dead_letter_event`, `_ack_events`
--                               of src/planagent/worker_cli.py, over the in-memory bus.
--   QueueHealth                 `RuntimeMonitorService` of src/planagent/services/runtime.py: the
--                               queue buckets, the review reasons and the back-pressure flag.
--   Review                      `ReviewWorker` of src/planagent/workers/review.py and the review
--                               decisions of src/planagent/services/pipeline.py; its queue is one
--                               more instance of LeaseQueue. The debate service, and whether the
--                               bus takes an event, are the record Debates.
--   Watch                       The watch-rule leases of src/planagent/services/watch_execution.py,
--                               the 24-hour window of src/planagent/services/community_monitoring.py
--                               and the marking of polls of src/planagent/workers/watch_ingest.py.
--   SourceState                 `SourceStateService` of src/planagent/services/source_state.py: the
--                               cursor state of a source, its retries and its back-off.
--   Auth, Auth/Tokens,          `AuthService` of src/planagent/services/auth.py on its database
--   Auth/Users                  path: the token methods and the account methods. PyJWT, bcrypt,
--                               hashlib, uuid and secrets are the record Crypto. Auth/History has
--                               the calls in any order, Auth/Change breaks a call into small changes
--                               of the tables, Auth/Sample has the data of the tests.
--   Access, Access/Body,        `CommunityAccessMiddleware` of src/planagent/api/access.py with the
--   Access/Middleware,          body limit, and the account routes of src/planagent/api/routes/auth.py
--   Access/Routes               over Auth and LoginThrottle.
--   Prediction,                 `PredictionService` of src/planagent/services/prediction.py: the jobs
--   Prediction/Enqueue,         that revise a prediction when evidence arrives, one more instance of
--   Prediction/Revision,        LeaseQueue, and the versions that they make. Prediction/Change and
--   Prediction/Process          Prediction/Steps break a call into small changes; calls follow one
--                               another, each as a whole, and the calls that make the first
--                               versions of a run are left out.
--   Recommendation              `RecommendationVersionService` of
--                               src/planagent/services/recommendations.py; Recommendation/Log is its
--                               abstract view, a log for each session.
--   Simulation,                 the simulation service: src/planagent/services/simulation/engine.py,
--   Simulation/Shocks,          impact.py and report.py. Shocks and the claims that drive a run, the
--   Simulation/Evidence,        loop over the ticks, the rows that a run adds to the session, and the
--   Simulation/Run,             queue calls, two more instances of LeaseQueue.
--   Simulation/Ticks,
--   Simulation/Execution,
--   Simulation/Queue
--   Debate, Debate/Workflow     the verdict of a debate (src/planagent/services/debate/adjudication.py)
--                               and its course, the generator `observe` of workflow.py.
--   StreamTopology              src/planagent/events/topology.py: the table of topics with their readers
--                               and writers, and its check. The workers' descriptions are an argument.
--
-- The other files under these hold the proofs, named for what they prove, and tests.
--
-- How the parts interact: every request passes the middleware of Access, which asks Auth to verify
-- its token; the login route asks LoginThrottle first; the stream worker consumes events and runs a
-- worker once per batch; the ingest, knowledge, review and simulation workers claim rows by the
-- Lease loop, change the tables and append to the event archive; a finished simulation run is what
-- a prediction's revision waits for.
--
-- Conventions
--   Time: whole seconds in Auth, whole microseconds elsewhere, also for the monotonic float of
--   LoginThrottle; one reading stands for the readings of one call. Timestamps that no modelled code
--   reads (updated_at) are left out.
--   Confidences are whole numbers on a fixed scale, because the code only compares them; in Debate
--   they are thousandths. Python's floats in Simulation are an abstract type with the operations
--   that the code uses.
--   Items stand by their dedupe keys, identifiers by Strings, a message id "mem-n" by n. The small
--   form of a text is taken of the ASCII letters.
--   An exception is a value: `none`, a flag that is false, or a constructor.
--   A database session: where code rolls back or a constraint can stop a commit, what is committed
--   and what the session sees are told apart (Simulation/Queue, Debate/Workflow); elsewhere a call is
--   a change of the tables.
--   What is not in the repository or not modelled is an argument: uuid4, the archive storage and the
--   claim extraction are the fields of Outside; whether a worker's run raises is an input of
--   `stream_round`; what a simulation run and a debate call are the fields of Services and World, whose
--   answers may be others for another call of the queue.
--   Concurrent workers are sequences of UPDATE attempts, which the database makes atomic.
--   No function needs fuel: each loop runs over a list or a number of ticks.
--
-- Not modelled: the Redis bus (a client of a server outside the repository); the HTTP routes but
-- those of accounts, the in-memory accounts of AuthService (no database URL), MCP server, user
-- interface and templates; source adapters and language model calls; the rules, scenarios and domain
-- packs of the simulation, the assessments and texts of a debate, calibration and reporting services;
-- the polling of watched sources; the inline ingest path and the SQLite path of `_persist_raw_item`;
-- the text heuristics and floating-point scores of the claim extraction. Of the materialisation's
-- rows, evidence and artifact rows are left out, since the modelled code never reads them; of an
-- event's payload the attempt counters are kept, and the rest as one text.
pub mod Auth
pub mod Access
pub mod Base
pub mod LoginThrottle
pub mod Lease
pub mod Schema
pub mod Pipeline
pub mod EventBus
pub mod StreamWorker
pub mod QueueHealth
pub mod Review
pub mod Watch
pub mod SourceState
pub mod Prediction
pub mod Recommendation
pub mod StreamTopology
pub mod Simulation
pub mod Debate
