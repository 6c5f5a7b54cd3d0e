-- ===== src/Lib.antt =====
-- The Rust services of the online judge: a model of the crates under services/crates and theorems
-- about it.
--
-- A submission reaches the system through the gateway, which routes it to a service; the service
-- stores it and puts a message into a queue; the submission processor takes the message and hands the judging to the manager by the SDK; the manager queues the task,
-- sends it to an agent, and the agent compiles the program and runs it on the test cases.
-- Rankings are computed from what has been judged.
--
-- Files, by the crate that they model (paths from services/crates):
--   * Ranking: algorithm/src/ranking.rs. `sort`, `rank` and `penalty` under the source's names;
--     penalties and ranks are u64 and usize and wrap.
--   * Shared.Models, Shared.Http, Shared.Wire, Shared.Protocol, Shared.Framing: judge_core_shared.
--     Verdicts, their HTTP forms, the envelopes and error codes, and the frames between manager and
--     agent.
--   * Manager.Config, Manager.Pool and its children, Manager.Scaler, Manager.Router:
--     judge_core_manager. The pool is one record. Handles of agents, whose atomics are shared, are
--     addresses of a store. `submit`, the dispatcher, the spawned tasks, the health check, draining
--     and shutdown are cut at their locks and waits into functions on the pool (Pool.Tasks,
--     Pool.Agents, Pool.Upkeep); `Event` and `step` (Pool.Steps) name every one of them, and a run
--     over a list of events is an interleaving. Statements about all lists of events are about all
--     interleavings. Manager.Scaler has the scaler's decisions and a round of its loop, `tick`.
--     Manager.Provisioner logs the calls of containerd in their order; Spec is the container that an
--     agent gets, and Waiting the wait for its socket.
--   * Agent.Verdict, Agent.Cpp: judge_core_agent/src/verdict. `handle` works for any `Judge` and any
--     order of completions within a batch; `compile` and `verdict` of C++ start from what the
--     operating system answers to each call. Agent.Server is the handler of a connection in main.rs.
--     Agent.Standalone is judge_core_standalone, with the client of judge_core_sdk.
--   * Sdk: judge_core_sdk. What the client makes of an answer.
--   * Auth.Token, Auth.Store, Auth.Endpoints, Auth.Registration, Auth.KeyDocument, Auth.Extractor:
--     auth/src. The database is its two tables, and each query may fail (`faulty`). A handler
--     is one function on the database, but that `register` takes what other requests do between
--     its checks and its insertion.
--   * Gateway: gateway. Configuration and its validation (Config), routing (Router), the cache of
--     public keys (Jwks), and the layers in the order in which main.rs puts them together
--     (Layers), from `pipeline` inwards; the limiter in memory (Limiter); and the loop that accepts
--     connections (Connections), where `advance_all` over a list of events is a history of the server.
--   * Api.Store: the tables and models of api_server_db. Api.Problems (with Listing for `list`),
--     Api.Cases and Api.Submissions: its repositories. Api.Routes: api_server/src/routers/problems.rs.
--     Api.Queue: api_server_submission. Api.Processor: submission_processor, whose loop (Consumer)
--     runs over the sequence of what the queue brings. The database is its tables, and each
--     statement may fail (`faulty`) and, where it is a write, have taken place all the same (`kept`).
--     Where the source has no ORDER BY, rows come in any order (`problem_rows`, `tag_rows`,
--     `case_rows`). Where an operation reads before it writes, the tables at the two times are
--     two arguments, so that other requests may do anything in between. Submissions.Spec is what
--     the repository of submissions promises, with its step relation `Step`.
--   * Base has what they share. The files Tests run the definitions on concrete inputs.
--
-- Numbers are natural numbers, and arithmetic on a w-bit integer is taken modulo 2 ^ w where the
-- source can leave its range. Texts are UTF-8, measured in bytes. A panic is `none`. An error of
-- another library is carried by its message.
--
-- Fuel: `run_batches` gets the number of cases, and each of its rounds takes one case or more;
-- `join_all` gets the number of running cases, and each join takes one. `trim_slashes`, and
-- `trim_start` and `trim_end` of the limiter, get the number of bytes, and each step takes one. The
-- wait for a socket gets 301 rounds of at least 100 ms each, and has 30 s.
--
-- Parameters: `f64` in the scaler; `Governor` (governor) and the eviction of moka; `Jwt`
-- (jsonwebtoken, ed25519, uuid); the `World` of a request (argon2, chrono, new ids, failing
-- statements, LIKE, the order of rows); `Codec` (postcard), `ValueCodec` and `Json` (serde_json);
-- base64; the parser of URIs and the upstream's client; the texts that thiserror derives; the
-- operating system's answers in the agent; what containerd answers, PEM, SHA-256 and the clock of
-- the wait. The only laws assumed of them are the hypotheses that theorems name: postcard,
-- serde_json and base64 read what they have written, a printed uuid is read as itself, a public key
-- is one key as a PEM document and as its 32 bytes, a SELECT gives every row as often as it is
-- there, and `sleep` waits at least as long as it is told to.
--
-- Not modelled: start-up, signals and logging; cgroup and seccomp; the
-- connections to the database and the queue; the web front end.
pub mod Base
pub mod Agent
pub mod Api
pub mod Auth
pub mod Gateway
pub mod Sdk
pub mod Shared
pub mod Ranking
pub mod Manager
