-- ===== src/Lib.antt =====
-- XStreamRoll takes events of streams in through an API, processes them in workers, and publishes
-- the results. This library models the worker's core, services of the API, its gateway and helpers
-- of the SDK.
--
-- The worker (xstreamroll-processing/src). It polls the API for events and passes each, unless its
-- event filter drops it, to the session registry. The registry claims the stream at a lock manager,
-- spawns a session for it, keeps the claim alive by heartbeats, and releases it when the session
-- ends. A session publishes the events of its queue one by one, with retries and dead letters.
--   Locks.Token, Locks.Memory  LockToken and MemoryLockManager of leader-election.ts: acquire, renew,
--                              release, releaseAll, evictIfCurrent and the eviction timers
--   Locks.Postgres             PostgresLockManager of leader-election.ts: its statements on the table
--   Session, Session.Event     StreamSession of session.ts: start, enqueue, stop, fail, pump
--   Metrics                    the counters of metrics.ts that the registry changes
--   Registry                   SessionRegistry of session-registry.ts: route, acquireDeduplicated,
--                              spawn, the state listener, startHeartbeat, drainAll
--   Filters                    EventFilter and RedisFilterConfigStore of pipeline/, and its messages
--   Shutdown                   GracefulShutdown of lifecycle.ts
--   Worker                     pollOnce and logRouteError of worker.ts
--   DeadLetter                 FileDeadLetterStore of dead-letter-store.ts
--   Lifecycle                  SessionLifecycleManager of session/lifecycle.ts
-- The API (api/src).
--   Webhooks                   WebhooksService of webhooks/webhooks.service.ts, with the in-memory
--                              repositories of webhooks/repository in Webhooks.Subscriptions and
--                              Webhooks.Deliveries
--   Streams                    StreamsService of streams/streams.service.ts with the repository of
--                              streams/repository/streams.repository.ts
--   Streams.Database           StreamsDbRepository of streams/repository/streams-db.repository.ts, and in
--                              Swap the two repositories side by side
--   Notifications              NotificationsService of notifications/notifications.service.ts with the
--                              in-memory repository of notifications/repository
--   Auth, Auth.Reset           AuthService, TokenDenylistService, UsersRepository and
--                              PasswordResetService of auth/, JwtExtractorService of common/guards
--   Auth.Profile               UsersService of users/users.service.ts
--   Gateway                    StreamsGateway of gateways/streams.gateway.ts, with canSubscribe of
--                              common/guards/stream-ownership.service.ts
--   Tags                       TagsService of tags/tags.service.ts with the repository of
--                              tags/repository/tags.repository.ts; slugify of tags/slugify.ts
-- The SDK (xstreamroll-sdk/src).
--   Retry                      withRetry of retry.ts
--   Pagination                 PaginatedIterator of pagination.ts
--   Sdk.Http, Sdk.Client       HttpClient of http.ts and StreamingClient of client.ts
-- The web application (app).
--   Live                       useStreamSocket of hooks/useStreamSocket.ts
--   Live.Rooms                 subscribeToStream and unsubscribeFromStream of lib/websocket.ts
--
-- Conventions. A class is a record of its fields, a method a function from the record to what it
-- returns and the record after it. An asynchronous method is cut at its awaits: one function up to
-- the await, one for what follows, and the state says what is waited for. A `Call` is what can happen
-- next, `step` does it, and `run` does a list of them in any order, so that theorems about `run`
-- hold for all interleavings at those cuts. Not cut, and so taken as calls that do not overlap, are those
-- of Auth and Auth.Profile, of Tags, of the repositories, the changes of a config in Filters and, but in
-- Filters.Starting, its starts, and those of the SDK; `handleSubscribe` of the gateway is a step at the
-- answer that it waits for. Times, random identifiers and what other systems answer
-- are arguments. Calls of other systems and emitted events are logged in the record. A `Map` is the
-- list of its entries (Shared.Dict). Numbers are natural; where the source subtracts, the result is
-- not negative. The loops recurse on a list or on the
-- number of rounds left, or are cut at an await; two have fuel. That of the sweep of the notifications
-- is their number and one more, since each round but the last deletes some; that of toArray is an
-- argument, and more than the number of items is enough.
--
-- Shared holds the helpers: Boolean tests, lists on native numbers, decidable keys, sorting, maps.
-- A module's theorems stand in its children, which are named for what they prove; its runs on
-- concrete inputs stand in its child Tests.
--
-- Not modelled: logging, HTTP, Redis, Postgres and timers beyond the above, the parsing of messages,
-- administration and audit, the sockets of the SDK, the controllers and the SQL repositories of the
-- API but that of the streams, and the pages of the web application.
pub mod Shared
pub mod Locks
pub mod Session
pub mod Metrics
pub mod Registry
pub mod Webhooks
pub mod Shutdown
pub mod Filters
pub mod Streams
pub mod Lifecycle
pub mod Retry
pub mod Worker
pub mod Notifications
pub mod Auth
pub mod Pagination
pub mod DeadLetter
pub mod Gateway
pub mod Sdk
pub mod Tags
pub mod Live
