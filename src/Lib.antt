-- ===== src/Lib.antt =====
-- The verification library of agentspec, a toolchain that plans, applies and runs agents that are
-- described in a language of their own.
--
-- The parts and how they meet:
--
-- * Ir, State and Adapters are the shared data: resources and bindings (internal/ir/ir.go), state
--   entries and the backend's interface (internal/state/state.go), planned actions and their outcomes
--   (internal/adapters/adapter.go). Adapters/Local is the local-mcp adapter
--   (internal/adapters/local/local.go), which reports a success for each action.
-- * Plan is internal/plan/plan.go: `compute_plan` is ComputePlan, with its loops as `plan_desired` and
--   `plan_deletes`; `resolve_binding` and `resolve_deploy_target` are the choices of a target. Plan/Closed
--   writes the loops in closed form; Plan/Index, Plan/Order, Plan/Sync and Plan/Resolve prove.
--   Plan/Drift is internal/plan/drift.go.
-- * Apply is internal/apply/apply.go: `apply` is Apply over any backend, adapter and clock, with the
--   events it emits. Its state map is built from what the backend loads, changed by one adapter result
--   after the other (`record_results`) and saved. Apply/Record, Apply/Final and Apply/Converge prove the
--   run without failures, Apply/Failure any run. `Stores` in Apply/Converge is the contract with a
--   backend, which State/Local/Implements fills.
-- * State/Local is internal/state/local.go: `load` (Load with the recovery from the backup), Save (Save,
--   each system call failing or not), Query (Get and List), Extras (the budgets and versions in the same
--   file). The proofs are in Coherent (the cache's invariant), Loading, Save/Stored, Query/Lookup and
--   Extras/RoundTrip; Query/Reached has the backends that all operations lead to, with the invariants
--   of Indexed, Save/Indexed and Extras/Kept. State/Migrate is internal/state/migrate.go.
-- * Auth/RateLimit is internal/auth/ratelimit.go with internal/eviction/policy.go: `allow`, the token
--   buckets and their eviction, and the blocking of addresses after failed authentications. Blocking/Sane
--   is about every sequence of calls, Blocking/Others about a block among the calls for others.
-- * Pipeline/Dag is internal/pipeline/dag.go: `build_dag` is BuildDAG. Edges, Rounds, Loop, Linking and
--   Sound prove that the layers are an order of the steps.
-- * Pipeline/Executor is internal/pipeline/executor.go, which executes the layers of a built graph; Executor/
--   Steps and Executor/Ordered prove it together with Pipeline/Dag.
-- * Operator/Dag is internal/operator/controller/dag.go, the tasks of a workflow; it shares the counting of
--   edges with Pipeline/Dag. Order and Enough are about the sort, Waves and Stuck about the run.
-- * Operator/Merge is internal/operator/controller/policy_merge.go: `merge_policies` is MergePolicies. Its
--   proof is in Merge/Restrictive, over the sets in Merge/Members, with Limits and Restrictions beside it.
-- * Memory/Lru and Memory/SlidingWindow are internal/memory/lru.go and sliding.go.
-- * Session/MemoryStore is internal/session/memory_store.go.
-- * Policy is internal/policy/policy.go: `evaluate` is Evaluate, proved in Policy/Collected against the
--   description of a broken rule in Policy/Broken.
-- * Validation is internal/validation: `validate` and its rules, and Validation/Retry the retry loop, whose
--   end is proved in Retry/Ends.
-- * Llm is internal/llm: the client's interface, Llm/Tokens the token budget and Llm/Fallback the chain of
--   clients, which is itself a client.
-- * Loop is internal/loop: Loop/React is the ReAct loop over any client and any executor of tools. Its limits
--   are in React/Limits, the conversation that it sends in React/Paired. Tools is internal/tools/registry.go,
--   an executor for the loop: Tools/Answers proves what React/Paired asks of it.
-- * Parser is internal/parser/token.go and Parser/Lexer lexer.go: `tokenize` is Tokenize. Lexer/Located and
--   Lexer/Tokenized prove where the tokens stand.
-- * Imports is internal/imports: Versions is mvs.go with the order of versions, and Locking is lock.go.
-- * Examples runs the parts at concrete inputs.
-- * Base has what they share: lists, association lists for Go's maps, sorting, and the order of texts.
--
-- Conventions. A Go map is an association list, ranged over in the order of insertion, except where the
-- order is a parameter. Times are numbers of ticks or nanoseconds, 0 being the zero time, and each
-- operation is given the time that it reads. Strings are the native ones. A failing call is an argument
-- of the operation that makes it. Operations under a lock are one step.
--
-- Fuel. The layers of the graph are built on fuel, the number of steps, and the eviction of sessions on
-- the length of the tracker. The retry loop runs on one more than all retries together, which
-- Validation/Retry/Ends shows to be enough. The sort of tasks runs on the length of its queue and all counts
-- (Operator/Dag/Enough), their waves on a number that is given. The lexer runs on one more than
-- the characters of the text (Parser/Lexer/Tokenized). The proofs of the loops show that this is enough.
--
-- Not modelled: the file lock of the local backend, which needs flock and the liveness of processes; the
-- rounding of float64 in the token buckets; goroutines, logging and HTTP; the parser behind the lexer, the compiler, the
-- runtime server, the operator's controllers, and the clients of external services.
pub mod Base
pub mod Ir
pub mod State
pub mod Adapters
pub mod Plan
pub mod Apply
pub mod Auth
pub mod Pipeline
pub mod Memory
pub mod Session
pub mod Policy
pub mod Validation
pub mod Llm
pub mod Loop
pub mod Tools
pub mod Operator
pub mod Parser
pub mod Imports
pub mod Examples
