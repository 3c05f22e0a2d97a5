-- ===== src/Lib.antt =====
-- The Python core of an alert triage system: security alerts are accepted, logged and published to a
-- broker; a worker takes them from the stream and runs a graph of nodes on each, in which language
-- models and connectors are asked for evidence, until there is a verdict.
--
-- Parts and files. Each definition has the name of the Python function, class or constant it
-- translates, without a leading underscore; helpers say which lines they are.
--   Router.antt, Router/Table.antt    services/mitre_router.py: the table of techniques, tools, windows
--   Enrichment.antt, Enrichment/      agents/enrichment_node.py: parameters, one tool, the burst
--   Pipeline/State, Nodes, Finish     services/triage_pipeline.py: the state and the seven nodes
--   Pipeline/Graph                    the conditional edges, the graph, `run_triage`
--   Runtime/Reconciler.antt           services/_runtime/ingest_reconciler.py: the write-ahead log
--   Runtime/Worker.antt               services/_runtime/triage_worker.py: one message of the stream,
--                                     and the requests to cancel
--   Runtime/Jwt.antt                  services/_runtime/jwt_service.py: service tokens
--   Runtime/Secrets.antt              services/_runtime/secret_store.py: the store in the process
--   Runtime/Cancel.antt               services/_runtime/cancel.py: grace timers, as interleaved steps
--   Runtime/EventSeq.antt             services/_runtime/event_seq.py: the numbers of an alert's events
--   Runtime/Tenant.antt               services/_runtime/tenant.py: the tenant of a request
--   Runtime/Subjects.antt             services/_runtime/nats_broker.py: the subjects and the streams
--   Runtime/Glue.antt                 app/_runtime_glue.py: an alert on its way to the broker
--   Ingest.antt, Ingest/              components/alert_normalizer.py, components/auto_ingest.py and
--                                     components/detection_finding_builder.py: payloads to alerts
--   Storage/Alerts.antt               services/alert_persistence.py: alerts, verdicts and jobs
--   Storage/Cache.antt                services/context_cache.py: the cache of tool results
--   Extraction.antt, Extraction/      components/entity_extractor.py: entities, from models or patterns
--   Connectors.antt, Connectors/      agents/tools/: netflow, backup, threat intelligence and CrowdStrike,
--                                     the last with services/query_builder.py
--   Security.antt, Security/          security/: keys, payloads, verdicts and tool parameters
--   App.antt, App/                    app/main.py and observability/feedback.py: the endpoints, the
--                                     background triage, the stream of events and the feedback
--   Schema.antt, Json.antt            schemas/: the records that the parts exchange, and JSON values
--   Effects.antt                      coroutines that may raise, over an outside state
--   Common.antt, Samples.antt         shared helpers, and the data of the tests
-- The worker calls the token service and the pipeline, the pipeline calls the router and the
-- enrichment, the reconciler feeds the stream that the worker reads. The endpoints clean a payload, make
-- an alert of it, store it, and hand it to the broker through the log that the reconciler reads, or to a
-- background triage; other endpoints read the store. The other modules under a part
-- hold its lemmas and its tests.
--
-- State. A node takes the graph's state and gives the whole next state, where the source returns the
-- keys that change. The code of services/_runtime is in a monad of results and states (Effects.antt):
-- an exception keeps the state that was reached. Whatever is outside the repository is a field of an
-- environment record (`ToolEnv`, `PipelineEnv`, `ReconcilerEnv`, `WorkerEnv`, `JwtLibrary`, `SeqEnv`,
-- `StoreEnv`, `CacheEnv`, `GlueEnv`, `AppEnv`, `IntakeEnv`, `Http`, `Patterns`, `Python`, `Models`)
-- over a state type that nothing is known about; what is relied on of it is a record of laws
-- (`Documented`, `Reliable`, `Keeps`, `Constructs`) beside what can be seen of that state.
--
-- Bounds and fuel. `run_graph` spends one unit of fuel for each node; the fuel is LangGraph's recursion
-- limit. 36 units are enough: four nodes before the loop, at most fifteen rounds of two nodes, since a
-- round that does not spend the budget ends the loop, and two nodes at the end. The envelopes of a
-- payload are taken off in at most six rounds and a stream polls at most 1200 times, as in the source.
-- All other loops are structural. The numbers are Python integers that never go below zero, but for
-- `threshold_bytes` of a netflow query; `max(0, a - b)` is the difference that stops at 0.
--
-- Assumptions. The tasks of one `asyncio.gather` run in their order. The tagged Redis keys stand for
-- texts that differ. `list(set(xs))` keeps the last occurrence of each name, one of the orders that
-- Python allows. An entry of the write-ahead log may expire during every command of Redis. The
-- revocation of a cancel is one step with its DELETE. `json.loads` of a tool's arguments raises
-- nothing but a `JSONDecodeError`. `str.upper`, `json`, the clock, random ids and the texts of
-- summaries are parameters, and so are regular expressions, the comparison of floats and the
-- constructor of pydantic, which builds an alert from its keyword arguments. The cost tracker is an
-- action of the intake's environment. Closing an HTTP client does not raise. Exceptions are those of
-- class `Exception`; that a task is cancelled from outside is modelled for the grace timers of
-- Runtime/Cancel.antt only.
--
-- Not modelled: prompts, logs and traces, the SPL and KQL texts, the connectors of Splunk, AWS, CMDB
-- and VulnCheck, the checkpointer and the resumption of a run, the loops that only repeat a modelled
-- step (the reconciler's timer, the fetches of the worker), the audit store and its endpoint, health
-- and metrics, the wiring of the clients at startup, the Postgres store of secrets, and the TypeScript
-- services.
pub mod App
pub mod Common
pub mod Connectors
pub mod Effects
pub mod Enrichment
pub mod Extraction
pub mod Ingest
pub mod Json
pub mod Pipeline
pub mod Router
pub mod Runtime
pub mod Samples
pub mod Schema
pub mod Security
pub mod Storage
