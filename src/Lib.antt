-- ===== src/Lib.antt =====
-- OmniCare policyholder assistant: what the backend decides without the model.
--
-- A message reaches the gateway, which records it and queues a run; a worker takes it from the queue
-- and runs the agent's graph, whose model answers or calls tools; the events of the run go back
-- through the queue to the gateway, which records the answer. The tools search the policy, read
-- and write claims, and settle amounts by the figures of the policy.
-- Calls of the model's provider pass a limiter, a circuit breaker, retries and a fallback.
--
-- Parts, and the code that they translate (paths from the root of the repository):
--   * Resilience: `CircuitBreaker`, `RetryPolicy` and `call_with_retry` of
--     backend/libs/resilience/policy.py (Breaker, Retry); `classify`, `ResilientChatModel.ainvoke` and
--     `EgressLimiter` of backend/agent/app/providers/resilient.py (Fallback, Egress). The state of the
--     breaker and the limiter is a record; the clock, the jitter and the outcome of each call are read
--     from an environment of attempts.
--   * Policy: backend/libs/policy/rules.py. Money has the rounding of `Decimal`; Extract reads the
--     figures out of the prose; Governing picks the section; Settlement splits a claim. Amounts are
--     integers in a unit of which `u` make a cent.
--   * Claims: backend/libs/contracts/claims.py (Contracts), the stores of
--     backend/libs/adapters/claims_memory.py and claims_json.py (Repository), and the tools of
--     backend/agent/app/tools/claims.py with the idempotency store of
--     backend/libs/adapters/queue_memory.py (Tools). The hash of a key is a parameter.
--   * Guardrails, of backend/libs/guardrails: `screen` and the markers around tool output of
--     injection.py (Screen, Markers), the identifiers and amounts of normalize.py (Vocabulary,
--     Normalize, Amounts), and response.py: the reading of a structured reply with the JSON that it
--     uses (Json, Response) and the plain text of Markdown (Markdown).
--   * Graph, of backend/agent/app/graph: the state, the routing and `capture` of state.py and build.py
--     (State, Run), the tools node of build.py (Tools), and the nodes of nodes.py: `guard` (Guard),
--     `confirm` (Confirm), `agent`, `readback`, `parse` and `format` (Reply, with the messages of
--     Prompt), `ground` (Ground, with the helpers of Answer, Figures, Citations and Attribution),
--     `_confidence_for` (Confidence) and `_without_stale_tool_output` (History). A turn (Run) is the
--     steps of the compiled graph from the entry to the end; what the model and the policyholder
--     answer at each step, and whether the call of the model raises, comes from outside. A node that
--     raises ends the turn.
--   * Retrieval, of backend/retrieval/app: `chunk_markdown` of chunker.py (Chunker), the terms, the
--     lexical ranking and the fusion of hybrid.py (Terms, Bm25, Hybrid), `HybridIndex.search` of
--     index.py (Index). Scores are fractions.
--   * Conversations: `InMemoryConversationRepo` of backend/libs/adapters/conversations_memory.py.
--   * Runs: `AgentWorker.handle` and a round of `run_forever` of backend/agent/app/worker.py, with `ack`
--     and `dead_letter` of backend/libs/adapters/queue_redis.py (Worker, Worker/Loop; which calls of the
--     queue raise, and what the server keeps of the dead letters, are arguments), the events of
--     backend/libs/contracts/events.py and `InMemoryQueue` (Events), and `_collect` and `chat` of
--     backend/gateway/app/main.py (Gateway, Chat). What the rate limiter says, and what the other tasks
--     do to the queue while the gateway waits, are arguments.
--   * Text: Python's strings as lists of code points, and a backtracking matcher for its regular
--     expressions (Text/Regex). Prelude: the names and lemmas that all parts share.
--
-- Bounds and fuel: a repetition of the matcher runs on the length of what is left, since each of its
-- rounds consumes a character; so do the searches for all matches, on one more than the length. The
-- loop of `call_with_retry` is on the attempts left. The digits of a number are printed on fuel equal
-- to the number, which is no smaller than the count of its digits. Amounts of claims are at most a million
-- dollars.
--
-- The recursion of a turn is on a number of steps, and four steps for each iteration and six more are
-- enough. The JSON scanner runs on two more than twice the length of the text; the limits that Python
-- puts on the nesting of JSON, and on the digits of the integers that other texts are read as, are not
-- in the model. A confidence is
-- read in units, rounded down.
--
-- Not modelled: PostgreSQL, Redis, Qdrant, the voice service and the browser client; the ingestion of
-- documents and the embedder, for which the dense ranking is an argument; the logarithm in the weight
-- of a term, an argument too; the rounding of floats; letters, digits and spaces beyond ASCII, so that
-- what is proved of texts is of ASCII texts; the recursion limit that the worker sets for a turn; the
-- expiry of idempotency keys; the interleaving of concurrent calls of one tool.
pub mod Claims
pub mod Conversations
pub mod Graph
pub mod Guardrails
pub mod Policy
pub mod Prelude
pub mod Resilience
pub mod Retrieval
pub mod Runs
pub mod Text
