-- ===== src/Lib.antt =====
-- The off-chain services of AetherDEX: the Cloudflare worker under apps/api, which keeps the
-- database (D1), the key-value caches (KV) and the queues, and the fee and zap arithmetic of apps/web.
--
-- The parts and how they meet. The HTTP routes write take-profit and stop-loss orders through
-- `TpSlService`. A cron tick hands the live orders to a queue and expires the overdue ones; the
-- queue's handler reads an order and the prices, and has the keeper's signer send a transaction. The
-- same tick and queue watch positions that a policy keeps in range. Two more ticks of the cron index
-- events, one those of v3 positions, from which a reducer rebuilds the positions, and one those of
-- three sources, whose older blocks the queue fills in; another announces pools whose volume spikes.
-- The routes that change something stand behind a sign-in, a rate limit, a circuit breaker and a
-- slippage cap.
--
-- Which file models which part:
--
--   Orders            the rows of `tp_sl_orders` and `keeper_executions`
--   Orders/Service    TpSlService, apps/api/src/services/tp-sl.service.ts
--   Orders/Trigger    apps/api/src/lib/chain-id.ts, the pure part of apps/api/src/lib/keeper-signer.ts,
--                     and the two-price trigger of apps/api/src/workers/queue-handler.ts
--   Orders/Evaluate   handleTpSlEvaluate of apps/api/src/workers/queue-handler.ts
--   Orders/Keeps, Orders/Keys, Orders/Access, Orders/Soundness    proofs about them
--   Signer            the configuration and errors of apps/api/src/lib/keeper-signer.ts
--   Signer/World, Signer/Send    createKeeperSigner of the same file; Checks, Guard, Confirm and Nonces beside it
--                     are proofs, and Confirm puts it behind the queue's handler
--   Keeper            apps/api/src/services/keeper.service.ts
--   Keeper/Recenter   handleAutoRecenterCheck of apps/api/src/workers/queue-handler.ts
--   Keeper/Range      computeOptimalRange of apps/api/src/services/auto-recenter.service.ts
--   Cron              runKeeperTick of apps/api/src/workers/cron-handler.ts
--   Lifecycle         the orders under all that writes them, as a step relation
--   Positions         apps/api/src/services/v3-position-reducer.ts
--   Indexer           insertLiquidityEvent of apps/api/src/db/queries.ts
--   Indexer/Decode    apps/api/src/services/v3-liquidity-events.ts
--   Indexer/Run       apps/api/src/services/v3-liquidity-indexer.service.ts, the ranges of
--                     apps/api/src/workers/v3-indexer-cursor.ts, and runV3LiquidityIndexer of
--                     apps/api/src/workers/cron-handler.ts
--   Sources           apps/api/src/services/indexer-events.ts
--   Sources/Config    apps/api/src/workers/indexer-config.ts
--   Sources/Tables    the tables and upserts of apps/api/src/db/queries.ts
--   Sources/Store, Sources/Window, Sources/Run    apps/api/src/services/indexer.service.ts: what is
--                     stored of an event, what is read of a window, and the operations; and
--                     runPhase3Indexer of apps/api/src/workers/cron-handler.ts
--   Sources/Backfill  handleIndexerBackfill of apps/api/src/workers/queue-handler.ts
--   Alerts            apps/api/src/services/volume-alerts.service.ts
--   Zap, Zap/Search   apps/web/src/lib/v4-liquidity.ts
--   Safety            apps/api/src/lib/safety-config.ts
--   Safety/RateLimit, Safety/Breaker, Safety/Mev    rate-limit.ts, circuit-breaker.ts and
--                     mev-protection.ts under apps/api/src/middleware
--   Auth              apps/api/src/durable-objects/siwe-nonce-do.ts
--   Auth/Verify       apps/api/src/auth/siwe.ts
--   Auth/Session      authMiddleware of apps/api/src/auth/middleware.ts, and deleteSession
--   Fee               apps/api/src/lib/protocol-fee.ts and apps/web/src/lib/protocol-fee.ts
--   Prelude           the shared helpers
--
-- How state and operations correspond. A table is the list of its rows in the order of insertion, and
-- an SQL statement one of the functions of Prelude/Table; `ORDER BY` is a stable sort. A map or a KV
-- namespace is an association list (Prelude/Dict) whose reads return the last write. An operation is a
-- function from the state to a result and a state, under the source's name. `Date.now()` is an
-- argument wherever it is read, and calls that can fail are arguments that say whether they do. The
-- handler of the orders' queue and the circuit breaker are in two halves, and the rate limit reads one
-- store and writes another, since other requests may run between.
--
-- Parameters, for code outside the repository: what the SQL client reports for an update; `BigInt`,
-- `JSON`, `parseInt` and `parseFloat`; viem's decoding, encoding, units, addresses, accounts and
-- wallets; the node; the private relay; the Uniswap SDK's positions; the parser and the signature
-- check of sign-in messages; random tokens.
--
-- Bounds. Numbers are natural numbers or integers without a bound, as `bigint` is; where the source has
-- a `number` it holds an integer below 2^53, and quotients of such numbers round as those of integers.
-- The settings that the source reads as floats, and the amounts in dollars of Alerts, are taken without
-- their fractions. Loops go over a list; the one loop of the source that counts its rounds, the search
-- of Zap, counts them down from the source's twelve.
--
-- Not modelled: a private key of 64 hexadecimal digits that viem refuses, on which the signer throws;
-- writes between the read and the write of one auto-recenter check; the entries' time to live in KV,
-- save in Alerts and Safety/Breaker; the HTTP routes, the React application and the contracts in
-- Solidity; the delivery of alerts, quotes, token lists, the position service, the WebSocket objects,
-- and the services that only query.
pub mod Prelude
pub mod Positions
pub mod Orders
pub mod Keeper
pub mod Cron
pub mod Lifecycle
pub mod Safety
pub mod Fee
pub mod Indexer
pub mod Auth
pub mod Signer
pub mod Sources
pub mod Zap
pub mod Alerts
