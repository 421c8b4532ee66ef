-- ===== src/Lib.antt =====
-- Verification of the AI IDE gateway (LLMAPI-GateWay), a server in Go that offers OpenAI's chat
-- API and forwards each request to one of three upstream services. A request is authenticated,
-- limited, charged to the token quotas of its user, app and model, routed to an API key of the
-- model's rule, sent through a circuit breaker, and converted on the way out and back. This
-- library models the parts below as functions on explicit states and proves what they promise.
--
-- Common is shared: integers, association lists, clock readings, floating point, results, and the
-- lemmas and rule sets on them.
--
-- Auth (internal/auth): Auth/Keys.antt has the methods of authenticator.go over a key store;
-- SHA-256, the random bytes and the JSON decoder are parameters. Auth/Sound is about the requests
-- that are let in, Auth/Issue about revoked keys.
--
-- Breaker (internal/breaker): the circuit breaker (circuit.go, types.go) and the rate limiter
-- (limiter.go). Breaker/Circuit.antt has a function for each method of `CircuitBreaker` and
-- `SlidingWindow` on the map of windows; a clock reading is an argument. `run` makes a history of
-- calls. Circuit/States, HalfOpen, Window and Threshold have the proofs. Breaker/Limiter.antt is
-- the token bucket script with its callers, over the commands of Redis (`Hashes`), Lua's texts
-- (`Texts`) and float64; Limiter/Budget is about the grants of one bucket where the numbers are
-- exact (up to 2^53), with the seconds that a bucket has left before Redis drops it, an hour
-- after its last use; Limiter/Payment and Limiter/Dimensions about the three buckets of a
-- request.
--
-- Router (internal/router): Router/Types.antt has the records of types.go; Router/Manager.antt
-- the rule table and the choice of a key by round robin, at random or by weight (`SelectAPIKey`),
-- with the values of `rand.Intn` as an argument; Router/Failover.antt the four levels of
-- `ExecuteWithFailover` over a `World`: the interface `CircuitBreaker` of failover.go, the
-- executor that sends the request, and the random source. Failover/Keeps is the induction over a
-- run; Failover/Trace writes down what is asked of such a world, and Failover/Protocol proves the
-- shape of that log; Failover/Guarded has the circuit breaker of Breaker in it.
-- Router/Health.antt is health.go: a round of probes, with the upstream services as a parameter,
-- and the marking of a key as failed or active. Router/Publish.antt is `UpdateRule`, which drops
-- the error of PUBLISH, and the reading of stored rules.
--
-- Adapter (internal/adapter): the conversions of cursor.go, antigravity.go and kiro.go, the
-- factory and the errors of error.go. encoding/json is a parameter, a codec for each type. Kiro's
-- token manager is passed through the calls.
--
-- Quota (internal/quota): the three Lua scripts and the operations of manager.go. Redis is the
-- parameter `Redis` of Quota/Redis.antt with the laws `RedisLaws`; Quota/Tests.antt has a store
-- in memory that satisfies them.
--
-- Config (internal/config/config.go): loading, the overrides from the environment, the
-- validation. The files, the YAML parser and the environment are parameters.
--
-- Replay (internal/replay): Replay/Service.antt and Replay/Run.antt are `FetchHistory`, `Replay`
-- and `compare` of service.go, Replay/Similarity.antt is `contentSimilarity`. The Kafka reader is
-- the list of the messages that it gives, the HTTP client works on a state. Replay/Collector.antt
-- is `Collect` of collector.go, one write for each record.
--
-- Proxy (internal/proxy): Proxy/Connections.antt is connection.go, the pool of stream
-- connections. Proxy/Stream.antt is what stream.go makes of each line, with the counts of the
-- tokens, and Stream/Machine.antt is `ProxyStream`: a step relation of the reader of the upstream
-- body, the copier to the client, the caller that waits, and a client that goes away, in any
-- order. A step is what happens between two points where a goroutine can wait or see another one:
-- a line up to its write to the pipe, a read of the pipe, a write to the client, the reaction of
-- the `select` with all its calls. `io.Pipe` is two ends that keep the first error they are
-- closed with. Stream/Bound is about how long schedules can be, Stream/Proper about the
-- connection and the pipe, Stream/Progress about what can come next, Stream/Delivery and
-- Stream/Exact about what the client and the caller get, Stream/Cause about the errors.
--
-- Handler (internal/handler): Handler/Replays.antt is replay.go over the replay service;
-- Replays/Wanted says what a request for the history asks for, without the code's filter. For
-- chat.go, Handler/Gateway.antt is the interface of what the chat handler asks of the other
-- components, Handler/Upstream.antt the functions that it gives to failover, Handler/Chat.antt
-- `Handle` and its two branches, with the router and failover above inside. Handler/Wired.antt
-- fills the interface with the authenticator, the rate limiter and the quota manager. Chat/Trace
-- writes down what the handler asks, and Chat/Tries and Chat/Protocol prove the shape of that
-- log.
--
-- Server (internal/server/server.go): Server.antt has the routes and the start, over gin's router
-- as a parameter `Gin` with `GinLaws`, which speak of paths without parameters;
-- Server/Memory.antt is a router that satisfies them.
--
-- Startup (cmd/gateway/main.go): `main` takes a process through its steps: the list of what it
-- has done, and the stack of the closings that it has deferred. It uses Config, Breaker and
-- Server.
--
-- Storage (internal/storage) and Logging (internal/logger/logger.go): the reading of a batch from
-- Kafka, the opening of the clients, the tables of PostgreSQL, and the making of a logger.
--
-- Bounds. A Go int, int64 or `time.Duration` is an unbounded integer; only the difference of two
-- clock readings saturates, as in package time. Texts are byte strings, and in
-- Replay/Similarity.antt and for the contents that Proxy/Stream.antt counts sequences of runes.
-- All loops run over lists or a count of turns, so that no function needs fuel but the printing
-- of decimals, whose fuel covers the 19 digits of an int64. Apart from a stream, a run of a
-- component is a sequence of whole calls. That is how the code behaves where a method holds a
-- lock (the breaker's window) or a script runs in Redis; the rule table is taken to stay as it is
-- while one request is routed, and a round robin turn to be read and advanced at once.
--
-- Not modelled: internal/monitor, which only makes the counters of Prometheus; the methods of
-- internal/storage that pass a call on to the clients of Redis, Kafka and PostgreSQL; the logging
-- calls; in a stream, the idle cleanup of the pool by another goroutine and sessions with the
-- same id, and the splitting of the upstream body into lines, which is bufio's: the lines are an
-- argument, with how they end, and a line above its limit of 1 MB is such an end.
--
-- Each module named Tests has runs at concrete inputs, one for each result that has hypotheses.
pub mod Common
pub mod Breaker
pub mod Router
pub mod Adapter
pub mod Quota
pub mod Config
pub mod Auth
pub mod Replay
pub mod Handler
pub mod Proxy
pub mod Server
pub mod Startup
pub mod Storage
pub mod Logging
