-- ===== src/Lib.antt =====
-- The central limit order book of this repository: its matching engine (crates/clob-engine) and the
-- service around it (crates/clob-api).
--
-- The program. Orders come in over HTTP (handlers/orders.rs) or from a Yellowstone stream
-- (ingest/yellowstone.rs) and are published to Kafka. The consumer (kafka/consumer.rs) stamps each
-- with its offset and hands it to the engine thread (ingest/processor.rs), which matches it in the
-- book, sends out the fills and the best prices, and saves a snapshot of the book from time to time.
-- main.rs passes the fills on to the websockets, to Kafka, to a cache and to the fill writer
-- (persistence/fills.rs). A Kubernetes lease (leader.rs) decides which replica leads; the others
-- replay the same orders (follower.rs).
--
-- Where each part is:
--   Crates        rust_decimal, uuid and slab, as one record of operations and of the laws that their
--                 documentation gives. A `Decimal` has a place in the numeric order; + and - are
--                 exact on a grid, the values of the scale in which a deployment trades.
--   Engine.Types  types.rs, order.rs, events.rs and error.rs.
--   Engine.Levels one BTreeMap of price levels, as the list of its entries in reading order.
--   Engine.Book   orderbook.rs: insert_order, cancel_order, pop_front, best_bid, best_ask and the
--                 rest of OrderBook. The HashMap of ids is a function.
--   Engine.Matching, Engine.Process
--                 matching.rs: match_against_book and sweep_book are match_loop at limit and at
--                 market; execute_fill, process_limit, process_market, process_order and cancel.
--   Engine.Spec   what the engine promises: a market is two queues in price-time order, and an order
--                 is matched against the head of the other queue (place).
--   Engine.Refine how an engine stands for a market: Models says that slab and levels hold just the
--                 queued orders and that what the index knows is right; Indexed says what becomes of
--                 the index.
--   Engine.Market the fills, the depth, the reachable engines, the order of arrival in their queues,
--                 and what the index knows where no id is given twice (Cancellable).
--   Engine.Snapshot
--                 snapshot.rs.
--   Api.Health, Api.Leader, Api.Orders, Api.Consumer, Api.Threads, Api.Fills, Api.Ingest, Api.Store,
--   Api.Clients, Api.Fanout, Api.Markets, Api.Modes, Api.Producers, Api.Settings, Api.Service
--                 health.rs; leader.rs; handlers/orders.rs; kafka/consumer.rs; ingest/processor.rs
--                 and follower.rs; persistence/fills.rs; the mapping of updates and
--                 ingest/yellowstone.rs; persistence/snapshot.rs and persistence/orders.rs;
--                 handlers/ws.rs; the loops of main.rs; handlers/markets.rs; the start and the
--                 modes of main.rs; kafka/producer.rs and kafka/fill_publisher.rs; the
--                 environment variables; the tasks of run_leader together.
--   Api.Broadcast, Api.Clients.Served
--                 ws/broadcast.rs over an interface of tokio's broadcast channel, and one client of
--                 handlers/ws.rs beside the task that publishes the fills.
--   Api.Metrics, Api.App, Api.Kafka
--                 metrics.rs and middleware/metrics.rs; the HTTP server of main.rs; the options of the
--                 Kafka clients.
--   Api.Standby   main.rs again: the tasks of run_follower together.
--   Api.Leader.Cluster
--                 leader.rs again: any number of electors as a step relation.
--   Api.Threads.Saves
--                 the snapshots that the leader's thread saves, and a restart from one.
--   Mock          crates/yellowstone-mock: config.rs, generator.rs and server.rs.
--   Common.Settings
--                 numbers in environment variables.
--   Examples      the interfaces filled by concrete data (Demo, Slots, Services), each theorem at a
--                 concrete input, and the unit tests of the engine run on the model (Tests).
--
-- How it is modelled. State is passed along in records; a Result is Result, and the `none` of an
-- Option is a panic or a loop out of fuel. u64 counters wrap. The matching loops take one unit of
-- fuel for each order on the other side and one more (loop_fuel): each round that does not end the
-- loop takes an order off the other side or spends the taker, so this is enough. Loops over channels
-- run over the list of what the channel yields; where a channel can be found closed, a function
-- tells from what was sent so far whether the next send gets through. An attempt at the lease is a
-- plan made of a read and a write of that plan, so that other writes can come between.
--
-- An acceptable order (IsAcceptable) has its quantities on the grid, is filled no further than its
-- quantity, and is neither filled nor cancelled by its status. A limit order without a price counts
-- as one of limit zero for a buyer and of the largest Decimal for a seller.
--
-- Not modelled: logging and tracing, and the values of the metrics but for the gauge of clients, the
-- lag and the latency of requests; the waiting of bounded channels and timers; connecting and spawning
-- in main.rs; the module cache, which main.rs names and the repository does not hold; the benchmarks.
pub mod Api
pub mod Common
pub mod Crates
pub mod Engine
pub mod Examples
pub mod Mock
