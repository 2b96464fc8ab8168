-- ===== src/Examples/ErrorWitnesses.antt =====
-- The theorems on refused orders, on the answers of the order route and on saved books, at concrete
-- input.
use lmax_clob.Common.{refl, ◌≡◌, ◌⊎◌, [], ◌∷◌, All, some, none, true, false, arith}
use lmax_clob.Crates.Decimal.{leq}
use lmax_clob.Engine.Types.{
  ask, remaining, bid, Order, OrderType, EngineError, ProcessResult, Result, ok, err,
}
use lmax_clob.Engine.Matching.{pick_maker, match_loop, MatchingEngine}
use lmax_clob.Engine.Process.{
  resting_result, rest_remainder, start_matching, loop_fuel, run_loop, process_order, cancel,
  dispatch,
}
use lmax_clob.Engine.Market.Errors.{IsRefused, process_order-err, cancel_twice}
use lmax_clob.Api.Orders.{PlaceOrderRequest, place_order, parse_side, parse_order_type}
use lmax_clob.Api.Orders.Answers.{Answers, place_order-Answers}
use lmax_clob.Api.Threads.{
  Thread, start_thread, run_thread, handle_order, handle_reply, count_order, save_book,
  restore_engine,
}
use lmax_clob.Engine.Snapshot.{serialize_book, snapshot_of, snapshot_order}
use lmax_clob.Api.Threads.Saves.Restart.{Restarts, run_thread-Restarts}
use lmax_clob.Api.Threads.Saves.Resume.{Resumes, run_thread-Resumes}
use lmax_clob.Engine.Book.{best_bid, best_ask, best_bid_front, best_ask_front, insert_order}
use lmax_clob.Engine.Levels.{first_price, push_back, level_at, write_level, keep_level}
use lmax_clob.Examples.Demo.{demo}
use lmax_clob.Examples.Services.{plain_postcard}
use lmax_clob.Examples.EngineRuns.{
  limit_order, resting_ask, ask_engine, ask_market, ask_engine-Models, limit_order-IsAcceptable,
}

-- A bid for nothing.
abbrev empty_bid : Order
empty_bid = record (limit_order 4 bid 210 0) { filled = 100 }

empty_bid_run :
    process_order ask_engine empty_bid ≡ some (ask_engine, err EngineError.invalid_quantity)
unfolding process_order dispatch
empty_bid_run = refl

process_order-err_example :
    ((x : EngineError)
      → ◌≡◌ {A = Result EngineError ProcessResult} (err EngineError.invalid_quantity) (err x)
      → (x ≡ EngineError.invalid_quantity) × IsRefused OrderType.limit ask_market empty_bid)
    × (IsRefused OrderType.limit ask_market empty_bid
        → ◌≡◌ {A = Result EngineError ProcessResult}
            (err EngineError.invalid_quantity)
            (err EngineError.invalid_quantity))
    × (leq empty_bid.quantity 100 ≡ true → ask_engine ≡ ask_engine)
process_order-err_example =
    process_order-err ask_engine ask_market empty_bid (ask_engine, err EngineError.invalid_quantity)
      ask_engine-Models (limit_order-IsAcceptable 4 bid 210 0) empty_bid_run

cancel_twice_example :
    (e' : MatchingEngine) × (((e' ≡ ask_engine)
        × (cancel ask_engine 1 ≡ some (e', err (EngineError.order_not_found 1))))
      ⊎ (cancel ask_engine 1 ≡ some (e', ok ProcessResult.cancelled)))
    × (cancel e' 1 ≡ some (e', err (EngineError.order_not_found 1)))
cancel_twice_example = cancel_twice ask_engine ask_market 1 ask_engine-Models

abbrev unpriced_request : PlaceOrderRequest
unpriced_request = record {
  market_id = "SOL/USDC";
  side = "sell";
  order_type = "limit";
  price = none;
  quantity = 103;
}

place_order-Answers_example :
    Answers unpriced_request 3 true
      (parse_side "sell")
      (parse_order_type "limit")
      (place_order (λ s. s) 3 true unpriced_request)
place_order-Answers_example = place_order-Answers (λ s. s) 3 true unpriced_request

abbrev ask_thread : Thread
ask_thread = record {
  engine = ask_engine;
  processed = 1;
  last_offset = (false, 0);
  fills = [];
  updates = [];
  saved =
      record {
        payload = snapshot_of ask_engine.book "SOL/USDC" 1;
        kafka_offset = (false, 0);
        sequence = 1;
      }
      ∷ [];
  engine_alive = false;
}

ask_thread_run : run_thread (λ _. true) 1 (start_thread none) (resting_ask ∷ []) ≡ some ask_thread
unfolding run_thread start_thread restore_engine handle_order process_order dispatch snapshot_order
    run_loop loop_fuel start_matching match_loop remaining pick_maker best_bid best_ask
    best_bid_front best_ask_front first_price handle_reply rest_remainder resting_result
    insert_order count_order save_book serialize_book push_back level_at write_level keep_level
ask_thread_run = refl

run_thread-Resumes_example :
    All (Resumes 1 (start_thread none).engine (resting_ask ∷ [])) ask_thread.saved
run_thread-Resumes_example =
    run_thread-Resumes (λ _. true) 1 none (resting_ask ∷ []) ask_thread (tt, tt) (omega arith, tt)
      ask_thread_run

run_thread-Restarts_example : All (Restarts (resting_ask ∷ [])) ask_thread.saved
run_thread-Restarts_example =
    run_thread-Restarts (λ _. true) 1 (resting_ask ∷ []) ask_thread
      (limit_order-IsAcceptable 1 ask 200 5, tt) (tt, tt) (omega arith, tt) ask_thread_run
