-- ===== src/Lib.antt =====
-- A verification library for the AI Task Orchestrator.
--
-- The program. Clients post tasks, chains and DAGs to an HTTP API (apps/api), which adds jobs to one
-- BullMQ queue for each user. A worker (apps/worker) takes the jobs, routes each to a language
-- model, bills it and, where the job is a node of a DAG, adds the jobs of the nodes that have become
-- ready. The state of a DAG is kept in Redis. A stream shows the events of the queues to clients. The web
-- client (apps/web) edits DAGs, sends them to the API and watches the queues, the DAGs and the costs.
--
-- The files.
--   Api                   the bodies of requests: the decorators of class-validator as an interface with
--                         their documented laws. Below it: the DTOs of apps/api (Bodies), the handlers of
--                         tasks.controller.ts, workflows.controller.ts and chaos.controller.ts that take
--                         a body (Handlers), what the decorators say of a body (Types, Admitted), the
--                         answers (Requests), and a reading of the decorators that meets the
--                         laws (Decorators)
--   Base, Base/*          tests, lists over native numbers, counting, dictionaries, integers, results
--                         and JSON values
--   Queue                 libs/queue/src/task.interface.ts
--   Jobs                  the jobs that the services add, as effects in the order of the calls
--   Workflow              libs/workflow/src/dag.interface.ts
--   Workflow/Sort         libs/workflow/src/topological-sort.ts: topologicalLayers is
--                         topological_layers and its loops are collect_ids, init_graph, add_nodes and
--                         peel; buildDependents is build_dependents. Below it: the graph that is built
--                         (Graphs), one round (Rounds), the layers (Layers), the errors (Validity),
--                         both outcomes (Outcome, Correct), the reverse adjacency (Dependents)
--   Workflow/Store        the Redis commands that a DAG uses, as an interface with their laws
--   Workflow/Memory       a store that meets these laws
--   Workflow/Coordinator  libs/workflow/src/dag-coordinator.ts, a function for each method. Below it:
--                         what is stored (Persist), the countdown (Countdown), one completion
--                         (Progress), all completions (Runs)
--   Workflow/Interleaving markCompleteAndFindReady command by command, with other calls in between, as
--                         a step relation on the store and the calls. Below it: one command (Commands),
--                         the invariant of the calls (Calls), their end (Returned), the stored results
--                         (Results)
--   Workflows             apps/api/src/workflows/workflows.service.ts: createChain, findOne,
--                         createDag, findDag. Below it: the order of a chain (Chains), the roots
--                         of a DAG (Dags), a DAG from its creation to its last job (Lifecycle)
--   Worker                apps/worker/src/fair-scheduler.service.ts: the handlers of the completed and
--                         failed events, and the payload that a model is asked with; below it, the
--                         failures of a job (Failures), processJob (Processing), and all attempts of
--                         a job while a latency is injected (Latency, with Window and Spacing)
--   Tasks                 apps/api/src/tasks/tasks.service.ts and guards/backpressure.guard.ts
--   Models                libs/cost-governor/src: model-registry.ts, cost-tracker.service.ts and
--                         llm.service.ts; below it, the registry (Registry) and the answers of the
--                         SDKs (Providers)
--   Router                libs/router/src/router.service.ts
--   Stream                apps/api/src/stream: the ring buffer of stream.service.ts and the cursor of
--                         stream.controller.ts
--   Idempotency           libs/idempotency/src/idempotency.service.ts and the interceptor of apps/api
--                         that uses it; below it, the requests under one key (Requests)
--   Chaos                 libs/queue/src/chaos.interface.ts, apps/api/src/admin/chaos.service.ts, and
--                         pollChaos and discoverQueues of the worker; below it, the window of
--                         killWorker (Windows), with what may happen between two awaits as events
--   RateLimiter           libs/cost-governor/src/rate-limiter.service.ts; below it, the script on a
--                         bucket that has expired (Script), the tokens over a time (Budget) and
--                         waitForToken (Waiting)
--   Stream/Sources        of stream.service.ts: the queues that are found, their events and the
--                         snapshot; Stream/Delivery is about them
--   CostSummary           apps/api/src/metrics/cost-summary.service.ts; its patterns are functions on
--                         lists of characters; below it, the summary (Report) and what is
--                         read (Rows)
--   AdminGuard            apps/api/src/admin/admin-token.guard.ts
--   Editor                apps/web/src/lib/dagValidation.ts and the state of pages/DagEditor.tsx. Below
--                         it: paths (Paths), wouldCreateCycle (Search), validateDag (Checks), its
--                         relation to the API (Agreement), the edits of the page (Edits, Sessions)
--   Client                the hooks and requests of apps/web/src/lib: useQueueStream.ts (Feed),
--                         useCostSummary.ts (Costs), useDagStatus.ts (Polling), api.ts (Requests);
--                         components/DagGraph.tsx (Graph, Drawing); of the pages, Chaos.tsx
--                         (ChaosPage), Workflows.tsx (Presets) and DagView.tsx (Pages)
--   */Examples, Readings  tests, and instances of the theorems at concrete inputs
--
-- Conventions. A method takes the state and returns the new one beside its result. Fresh ids, the
-- clock, and the answers of BullMQ and of the providers are arguments. An exception is a value of an
-- error type. A key that a JavaScript map lacks is `none`.
--
-- Bounds and fuel. The while loop of topologicalLayers takes a unit of fuel for each round, as many
-- as there are nodes. Each round takes at least one node, so this is enough: the error `diverges` is
-- never returned. Prices are whole cents per million tokens, so costs are whole numbers of 10⁻⁸ US
-- dollars; the program computes them in floating point.
--
-- The search of wouldCreateCycle takes a unit of fuel for each entry of its stack: one more than
-- there are edges is enough, and `diverges` and `diverging` are never reached. waitForToken tries
-- again at most 61 times if no other caller touches the bucket. A token of the rate limiter is 60000
-- units, so that the refill of each millisecond is a whole number of them; the program computes in
-- floating point. A number that the cost summary reads is kept as its decimal digits.
--
-- Not modelled: BullMQ, Redis and the SDKs of the providers, class-validator beyond its documented
-- laws (nothing is said of elements of nested arrays that are no objects), dependency injection and
-- routes, the rendering of the web pages, logging, the expiry of keys other than the rate limiter's,
-- and timers, of which only the order of the ticks is kept. The texts of the chaos catalog and the
-- registration of the counters are not modelled either.
pub mod Api
pub mod Base
pub mod Queue
pub mod Workflow
pub mod Models
pub mod Router
pub mod Jobs
pub mod Tasks
pub mod Worker
pub mod Stream
pub mod Workflows
pub mod Idempotency
pub mod Chaos
pub mod RateLimiter
pub mod Editor
pub mod Client
pub mod CostSummary
pub mod AdminGuard
