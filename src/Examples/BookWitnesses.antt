-- ===== src/Examples/BookWitnesses.antt =====
-- The theorems on threads, snapshots, stores and the order route at the engine of EngineRuns.
use lmax_clob.Common.{
  ◌*◌, ◌/◌, false, List, refl, ℕ, ◌≡◌, ◌≢◌, ◌≤◌, ◌∷◌, [], some, none, true, arith,
}
use lmax_clob.Engine.Types.{Fill, ok, ProcessResult}
use lmax_clob.Engine.Book.{OrderBook}
use lmax_clob.Engine.Matching.{MatchingEngine, new_engine}
use lmax_clob.Engine.Process.{process_order}
use lmax_clob.Engine.Refine.Models.{Models}
use lmax_clob.Engine.Snapshot.{serialize_book, deserialize_book, snapshot_of}
use lmax_clob.Engine.Snapshot.Complete.{IsQueued}
use lmax_clob.Common.{All}
use lmax_clob.Engine.Spec.{queue}
use lmax_clob.Engine.Types.{Order}
use lmax_clob.Api.Threads.{Thread, start_thread, run_thread}
use lmax_clob.Api.Threads.Replicas.{Runs}
use lmax_clob.Api.Orders.{
  PlaceOrderRequest, HttpResponse, place_order, place_parsed, place_sided, place_priced,
  place_typed,
}
use lmax_clob.Api.Orders.Accepted.{place_order-process_order}
use lmax_clob.Common.{◌↔◌}
use lmax_clob.Engine.Spec.{Market}
use lmax_clob.Engine.Snapshot.Priority.{level_of, orders_of, deserialize_book-priority}
use lmax_clob.Common.{◌+◌, ◌≤◌}
use lmax_clob.Api.Threads.Ledger.{resting, given, Runs-given}
use lmax_clob.Engine.Market.Ledger.{traded}
use lmax_clob.Common.{◌++◌}
use lmax_clob.Api.Health.{healthz, new_health}
use lmax_clob.Api.Threads.Stopped.{run_thread-healthz}
use lmax_clob.Examples.Demo.{demo}
use lmax_clob.Examples.EngineRuns.{
  crossing_bid_run, resting_ask_run, first_fill, traded_engine, resting_ask, crossing_bid,
  ask_engine, ask_market, ask_engine-Models,
}
use lmax_clob.Engine.Types.{OrderStatus}
use lmax_clob.Api.Store.{OrderTable, upsert}
use lmax_clob.Engine.Types.{bid, ask}
use lmax_clob.Examples.EngineRuns.{limit_order-IsAcceptable}
use lmax_clob.Examples.Services.{plain_postcard, ready_server}

written_book :
    serialize_book ask_engine.book "SOL/USDC" 1 ≡ ok (snapshot_of ask_engine.book "SOL/USDC" 1)
unfolding serialize_book
written_book = refl

deserialize_book-priority_example :
    (book : OrderBook) × (r : Market) × (deserialize_book (snapshot_of ask_engine.book "SOL/USDC" 1)
      ≡ ok (book, snapshot_of ask_engine.book "SOL/USDC" 1))
    × Models (record (new_engine "SOL/USDC") { book = book }) r
    × All (λ (y : ℕ × Order). IsQueued y.1 (queue ask r)) ((200, resting_ask) ∷ [])
    × All (λ (y : ℕ × Order). IsQueued y.1 ((200, resting_ask) ∷ [])) (queue ask r)
    × ((p : ℕ)
        → level_of ask p (orders_of (queue ask r))
          ≡ level_of ask p (demo.slab_values ask_engine.book.orders))
    × ((orders_of (queue ask r) ≡ resting_ask ∷ []) ↔ (
        (p : ℕ)
        → level_of ask p (demo.slab_values ask_engine.book.orders)
          ≡ level_of ask p (resting_ask ∷ [])))
deserialize_book-priority_example =
    deserialize_book-priority ask_engine ask_market "SOL/USDC" 1
      (snapshot_of ask_engine.book "SOL/USDC" 1) ask ask_engine-Models written_book

every_two : ◌≢◌ {A = ℕ} 2 0
every_two e = absurd (omega (arith, e))

abbrev buy_request : PlaceOrderRequest
buy_request = record {
  market_id = "SOL/USDC";
  side = "buy";
  order_type = "limit";
  price = some 210;
  quantity = 103;
}

sent_run :
    place_order (λ s. s) 3 true buy_request
    ≡ (HttpResponse.order_response 3, some (record crossing_bid { sequence = 0 }))
unfolding place_order place_parsed place_sided place_priced place_typed
sent_run = refl

on_grid : ◌≤◌ 100 103
on_grid = omega arith

place_order-process_order_example :
    (e' : MatchingEngine) × (x : ProcessResult) × (process_order ask_engine crossing_bid
      ≡ some (e', ok x))
place_order-process_order_example =
    place_order-process_order (λ s. s) 3 true buy_request (HttpResponse.order_response 3)
      crossing_bid ask_engine ask_market sent_run on_grid ask_engine-Models

-- A column that keeps the even positions only.
abbrev halved : ℕ → ℕ
halved n = (n / 2) * 2

abbrev twice_written : OrderTable
twice_written =
    upsert halved (record resting_ask { status = OrderStatus.cancelled })
      (upsert halved resting_ask (λ id. none))

-- The fill channel is closed from the start.
run_thread-healthz_example :
    (t : Thread) × (e : MatchingEngine) × (fs : List Fill) × (unsent : List Fill) × (run_thread
        (λ _. false)
        2
        (start_thread none)
        (resting_ask ∷ crossing_bid ∷ [])
      ≡ some t)
    × Runs (new_engine "SOL/USDC") (resting_ask ∷ crossing_bid ∷ []) e fs
    × (t.fills ++ unsent ≡ fs)
    × ((healthz true (record new_health { engine_alive = t.engine_alive })).0 ≡ 503)
run_thread-healthz_example =
    run_thread-healthz (λ _. false) 2 every_two (resting_ask ∷ crossing_bid ∷ []) true new_health
      (limit_order-IsAcceptable 1 ask 200 5, (limit_order-IsAcceptable 3 bid 210 3, tt))

two_orders :
    Runs (new_engine "SOL/USDC") (resting_ask ∷ crossing_bid ∷ []) traded_engine (first_fill ∷ [])
two_orders = ((_, _), _, resting_ask_run, ((_, _), _, crossing_bid_run, (refl, refl), refl), refl)

Runs-given_example :
    (a : Market) × Models traded_engine a
    × (traded 3 (first_fill ∷ []) + resting 3 a ≤ given 3 (resting_ask ∷ crossing_bid ∷ []))
Runs-given_example =
    Runs-given 3 "SOL/USDC" traded_engine (resting_ask ∷ crossing_bid ∷ []) (first_fill ∷ [])
      (limit_order-IsAcceptable 1 ask 200 5, (limit_order-IsAcceptable 3 bid 210 3, tt)) two_orders
