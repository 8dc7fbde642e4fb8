-- ===== src/Lib.antt =====
-- The serverless matching engine: orders of a spot market, matched against a book in Valkey by one
-- script, and settled in PostgreSQL.
--
-- Parts and files:
--   Prelude, Text: the integers, Boolean tests, lists, and the decimal texts of an `i64`;
--     Text.Exponent is how Lua's `tonumber` reads a text, also one with an exponent.
--   Types: crates/shared/src/types.rs. A Uuid and a time are opaque numbers, a Decimal is a whole
--     number of units of 10^-28, and a quantity, which is never negative, a natural number of them.
--   Engine: match_order of crates/shared/src/engine.rs. `walk` is its loop, `visit` one round,
--     `prevent` the self-trade prevention, `apply_tif` the rules behind the loop. New ids and
--     times come from an `Env`.
--   Cache.Scale, Cache.Fields: the scaled integers and the order hash of crates/shared/src/cache.rs.
--     Cache.Double is the rounding of whole numbers to the doubles of the scripts.
--   Cache.Script, with Cache.Script.Terms: crates/shared/src/lua/match_order.lua (`visit`, `meet`,
--     `prevent`, `trade_with`), with the balance lock before and the resting order behind.
--   Cache.Match: match_order_lua of cache.rs, which builds the script's arguments and reads its
--     reply.
--   Cache.Book, Cache.Book.Cas: the access to the book in cache.rs, and the compare-and-swap of
--     apply_book_mutations_cas with its script.
--   Cache.Balance, Cache.Seed, Cache.Snapshot: of cache.rs, the lock of one balance with its script,
--     the start of Valkey from the tables, and the levels of the book.
--   Ws: crates/ws-handler/src/main.rs, the subscriptions of connections to channels. Ws.Push is
--     push_ws_updates of crates/gateway/src/worker.rs, which posts the views to them.
--   Lock: crates/shared/src/lock.rs, the lock of a pair with its fence.
--   Worker: crates/gateway/src/worker.rs. Worker.Message reads and validates a message,
--     Worker.Process is process_order, Worker.Persist the transaction of persist_order, and
--     Worker.Views the views that are written after it.
--   Gateway.Orders: crates/gateway/src/routes.rs, the handlers that create, cancel and modify orders
--     by a message to the worker. Gateway.UserCache is the cache of a user's answers there, Gateway.Reads
--     the handlers that use it, and Gateway.Manage the commands of internal_manage that change the
--     data. Gateway.Broadcasts, of crates/gateway/src/lib.rs, is the views on their way to the
--     clients.
--   Api.Orders, Api.Cancel, Api.Persist: the older deployment, process_queued_order and
--     process_cancellation of crates/api/src/worker.rs, and the persistence of jobs of
--     crates/api/src/routes.rs.
--   Metrics: crates/shared/src/metrics.rs, and the batch of metrics of crates/api/src/worker.rs.
--   Cache.Memory and the modules named Tests: a database in memory, and runs at inputs.
--
-- process_order reads a message, computes what to lock, calls match_order_lua, which runs the
-- script, and settles the trades. The engine is a match of its own, over a list of orders in place
-- of a store; the tests and the benches call it.
--
-- Parameters: Valkey is a record of commands (Cache.Valkey), with no laws but those that a theorem
-- names as a hypothesis; so are the crates uuid and chrono (Cache.Crates), the parsers of the
-- messages, the clock, the printers of JSON, the posts to connections, and the products of
-- rust_decimal. The exponent form in which Lua prints a number of 15 digits or more is one too.
--
-- Bounds: an `i64` is an integer with the test `in_i64`; what does not fit becomes 0, as the source
-- has it. The script's quantities and prices are taken to be below 2^53, where the doubles of Lua are
-- exact; the lock of a balance is modelled with doubles. Costs and the rows of `balances` in
-- Worker.Persist and Api.Persist are natural numbers: prices and rows below 0, which the source does
-- not rule out, are outside that model. The overflow of rust_decimal, which panics, is not modelled.
-- Every loop runs over a list, or over the 20 attempts of the lock, but for the batches of jobs in
-- Api.Persist, whose fuel is the number of jobs: every batch takes at least one.
--
-- Not modelled: the other handlers that only read cached views or run queries, the JSON texts,
-- connection pools, migrations, streams, logging, the start of the servers, and of crates/api the
-- loops that take messages from the queues, the debouncer and the dashboard.
pub mod Prelude
pub mod Text
pub mod Types
pub mod Engine
pub mod Cache
pub mod Worker
pub mod Ws
pub mod Lock
pub mod Gateway
pub mod Api
pub mod Metrics
