-- ===== src/Lib.antt =====
-- A verification library for StageSync, a game backend: the HTTP handlers of internal/endpoint call
-- the services of internal/service, which call repositories through the interfaces that they declare;
-- internal/persistence/inmem has a repository in memory for each of them. An error of a service goes
-- through internal/apperror to the client.
--
-- Base holds lists, maps as association lists, signed integers with 64-bit wrap-around, `sort.Slice`
-- and the order on strings. Runtime holds Go's `error` values with `errors.Is`, and `Action`, a call
-- that changes a state and returns a value or an error. A method that holds a mutex is one step. A
-- `context.Context` is not modelled but for the ways a queued call can be cancelled and for the claims
-- that authentication puts into it. Times are natural numbers of nanoseconds.
--
-- The files and the code that they model:
--   AppError: internal/apperror/apperror.go (`Error`, `NotFound`, ...) and http.go (`WriteJSON`).
--   Battle: internal/domain/battle and the interface `Repo`; Battle/Inmem: `BattleRepo` of
--     internal/persistence/inmem/battle_repo.go; Battle/Queue: `V2UserQueue` of
--     internal/service/battle/service.go as a step relation with the calls, the queues, the
--     workers and the database in one state: a worker receives a request, applies it and replies in three
--     steps, and any steps of others may come between them. Battle/Mysql: `BattleRepo` of
--     internal/persistence/mysql/battle_repo.go over `database/sql` with the laws of its transactions and
--     of the collation by which player_hp compares IDs.
--     Battle/Damage, Battle/Queue/*, Battle/Mysql/Statements and Battle/Mysql/Atomic hold proofs.
--   Gacha: internal/domain/gacha (`WeightedPick`); Gacha/Pool: pool_data.go; Gacha/Repo: `GachaRepo` of
--     internal/persistence/inmem/gacha_repo.go; Gacha/Service: internal/service/gacha/service.go. The
--     generator, the UUID library and the clock are parameters. The other files of Gacha but
--     Gacha/Mysql hold proofs.
--   Ranking: internal/domain/ranking and the interface `Store`; Ranking/Board: `Leaderboard` of
--     internal/persistence/inmem/leaderboard.go; Ranking/Service: internal/service/ranking/service.go.
--     The order in which a map is visited is the order of its association list. Ranking/Order,
--     Ranking/Rank, Ranking/Window and Ranking/Increments hold proofs. Ranking/Redis: `Leaderboard` of
--     internal/persistence/redis/leaderboard.go over a client whose laws are what Redis documents;
--     Ranking/Redis/Reads and Ranking/Redis/Refines hold proofs.
--   Event: internal/domain/event and the interfaces `Repository` and `LeaderboardWriter`; Event/Repo:
--     `EventRepo` of internal/persistence/inmem/event_repo.go; Event/Service:
--     internal/service/event/service.go. Event/Agreement, Event/Rewards and Event/Stored hold proofs;
--     the first puts the service over the leaderboard of Ranking/Board.
--   Idempotency: internal/idempotency/idempotency.go and inmem.go; Idempotency/Middleware:
--     internal/endpoint/idempotency.go. Idempotency/Redis: internal/idempotency/redis.go.
--     Idempotency/Kept, Idempotency/Replay and Idempotency/Redis/Answered hold proofs.
--   Profile: internal/domain/profile, internal/persistence/inmem/profile_repo.go and
--     internal/service/profile/service.go.
--   Auth: internal/auth/auth.go. Tokens are the jwt library's, a parameter with its documented
--     behaviour as laws; Auth/Tests/Plain is a library that keeps them. Auth/RoundTrip holds proofs.
--   RateLimit: internal/ratelimit/ratelimit.go over any `rate.Limiter`. RateLimit/Isolated holds proofs.
--   Endpoint/Http: what the middlewares read of a request; Endpoint/Auth: auth.go of internal/endpoint;
--     Endpoint/RateLimit: ratelimit.go there; Endpoint/Chain: the order of the middlewares in
--     cmd/server/main.go. Endpoint/Auth/Tokens and Endpoint/Chain/Order hold proofs.
--   Room: internal/room/room.go and internal/endpoint/ws.go: a connection's `ServeHTTP` is cut into a
--     step for each frame and for its end, so that connections come in any order. Room/Sessions holds
--     proofs.
--   Aoi: internal/service/aoi, with slices over their backing arrays. Aoi/Buffers holds proofs.
--   Lifecycle: internal/lifecycle; Endpoint/Operations: optimize.go, health.go and metrics.go of
--     internal/endpoint. Lifecycle/Probes holds a proof.
--   Config: internal/config/config.go, and `buildAuth` of cmd/server/main.go. Config/Bounds holds proofs.
--   Server: `run` of cmd/server/main.go, over the Server/Opening of connections (with mysql.go and
--     migrate.go of internal/persistence/mysql) and the Server/Parts that are chosen from the
--     configuration (with `Build` of internal/service/battle/service.go). A deferred call runs after the
--     rest of its function. Server/Laws says what the libraries hold; the other files of Server hold
--     proofs.
--   Bench: `runBench` of cmd/battlebench/main.go; its goroutines end in any order. Bench/Quantiles and
--     Bench/Unordered hold proofs.
--   Bots: cmd/bots/main.go; a round of a bot is one pass of its `select`, and the rounds of all bots come
--     in any order. Bots/Moves holds proofs, over the server of Room.
--   Endpoint: what the handlers share; Endpoint/Event, Endpoint/Gacha, Endpoint/Ranking,
--     Endpoint/Battle and Endpoint/Profile: event.go, gacha.go, ranking.go, battle.go and profile.go of
--     internal/endpoint; Endpoint/Replies holds proofs. Endpoint/Observed: middleware.go and the gauges of
--     prometheus.go there; Endpoint/Observed/Once holds proofs. What json.Decode, the validator and
--     strconv.Atoi make of a request is the input of a handler.
--
-- Every loop of the modelled code runs over a list or counts down from a number that is known at its
-- start, so the definitions recurse on that list or number and take no fuel. Only the workers of the
-- queue, the sessions of the room and the bots run without a bound: their rounds are steps.
--
-- Profile/Mysql, Event/Mysql and Gacha/Mysql are the other repositories of internal/persistence/mysql,
-- over the queries that sqlc generates. Gacha/Mysql/Atomic and Gacha/Mysql/Called hold proofs, for tables
-- whose rows have no order, keep a time to the second and compare IDs by a collation. Runtime/Post has the rules by which the proofs on Server and Gacha/Mysql go
-- through a series of calls that can fail; Base/Rank has the lemmas on sorted numbers.
--
-- Not modelled: JSON encoding, HTTP headers, the routes of each handler and the text of log lines, which
-- call libraries; the flags of the two commands and the report that cmd/battlebench prints; and what sqlc
-- and protoc generate.
pub mod Base
pub mod Runtime
pub mod AppError
pub mod Battle
pub mod Gacha
pub mod Ranking
pub mod Event
pub mod Idempotency
pub mod Profile
pub mod Endpoint
pub mod Auth
pub mod RateLimit
pub mod Room
pub mod Aoi
pub mod Lifecycle
pub mod Config
pub mod Server
pub mod Bench
pub mod Bots
