-- ===== src/Examples/EngineWitnesses.antt =====
-- The theorems on the engine at the concrete engine and orders of EngineRuns.
use lmax_clob.Common.{
  refl, ℕ, ◌≡◌, ◌<◌, ◌≤◌, ◌+◌, ◌%◌, ◌^◌, ◌++◌, ◌∷◌, [], List, All, map, some, none, true, arith,
}
use lmax_clob.Crates.Decimal.{amount}
use lmax_clob.Engine.Types.{Side, bid, ask, Fill, OrderType, ProcessResult, ok, remaining}
use lmax_clob.Engine.Levels.{push_back, level_at, write_level, first_price, keep_level}
use lmax_clob.Engine.Book.{
  index_put, insert_order, best_bid, best_ask, best_bid_front, best_ask_front, pop_front, get_order,
  set_order,
}
use lmax_clob.Engine.Matching.{
  MatchingEngine, new_engine, next_sequence, add_fill, execute_fill, pick_maker, match_loop,
}
use lmax_clob.Engine.Process.{
  Reply, process_order, cancel, dispatch, run_loop, rest_remainder, resting_result, loop_fuel,
  start_matching,
}
use lmax_clob.Engine.Spec.{Market, place, queue, accepts}
use lmax_clob.Engine.Refine.Models.{Models}
use lmax_clob.Engine.Refine.Indexed.{Listed, process_order-Listed}
use lmax_clob.Engine.Refine.Cancel.{Cancels, cancel-Cancels}
use lmax_clob.Engine.Market.Fills.{total, depth, Numbered, fill_line, order_line}
use lmax_clob.Engine.Market.Properties.{
  fills_bounded, fills_conserved, fills_accepted, fills-Numbered,
}
use lmax_clob.Engine.Market.Crossing.{IsUncrossed}
use lmax_clob.Engine.Market.Arrivals.{InTime}
use lmax_clob.Engine.Market.Cancellable.{IsCancellable, Reachable-IsCancellable}
use lmax_clob.Engine.Market.Sorted.{IsSorted}
use lmax_clob.Engine.Market.Reachable.{
  PriceTime, Reachable-fills, Reachable, Reachable-Models, Reachable-returns, Reachable-spread,
}
use lmax_clob.Engine.Book.{level_depth}
use lmax_clob.Engine.Market.Depth.{count, level_depth-count}
use lmax_clob.Examples.Demo.{demo}
use lmax_clob.Examples.EngineRuns.{
  limit_order, resting_ask, crossing_bid, limit_order-IsAcceptable, ask_engine, ask_market,
  resting_ask_run, ask_engine-Models, traded_engine, first_fill, crossing_bid_run,
}

process_order-Listed_example :
    (r : Reply) × (process_order ask_engine crossing_bid ≡ some r)
    × Models r.0 (place ask_market crossing_bid).0
    × (r.1 ≡ (place ask_market crossing_bid).1)
    × Listed ask_engine ask_market crossing_bid (place ask_market crossing_bid).0 r.0
process_order-Listed_example =
    process_order-Listed ask_engine ask_market crossing_bid ask_engine-Models
      (limit_order-IsAcceptable 3 bid 210 3)

fills_bounded_example :
    All (λ (f : Fill). 0 < amount f.quantity) (first_fill ∷ [])
    × (total (first_fill ∷ []) + 100 ≤ 103)
fills_bounded_example =
    fills_bounded ask_engine traded_engine ask_market crossing_bid (first_fill ∷ [])
      ask_engine-Models (limit_order-IsAcceptable 3 bid 210 3) crossing_bid_run

fills_conserved_example :
    (a' : Market) × Models traded_engine a'
    × (depth (queue ask ask_market) ≡ total (first_fill ∷ []) + depth (queue ask a'))
fills_conserved_example =
    fills_conserved ask_engine traded_engine ask_market crossing_bid (first_fill ∷ [])
      ask_engine-Models (limit_order-IsAcceptable 3 bid 210 3) crossing_bid_run

fills_accepted_example :
    All (λ (f : Fill). accepts OrderType.limit crossing_bid f.price ≡ true) (first_fill ∷ [])
fills_accepted_example =
    fills_accepted ask_engine traded_engine ask_market crossing_bid (first_fill ∷ [])
      ask_engine-Models (limit_order-IsAcceptable 3 bid 210 3) crossing_bid_run

small_sequence : ◌<◌ 0 (2 ^ 64)
small_sequence = omega arith

fills-Numbered_example : Numbered 0 (first_fill ∷ []) × (1 ≡ (0 + 1) % 2 ^ 64)
fills-Numbered_example =
    fills-Numbered ask_engine traded_engine ask_market crossing_bid (first_fill ∷ [])
      ask_engine-Models (limit_order-IsAcceptable 3 bid 210 3) crossing_bid_run small_sequence

abbrev ask_engine-Reachable : Reachable ask_engine
ask_engine-Reachable =
    Reachable.processed (new_engine "SOL/USDC") resting_ask (ask_engine, ok ProcessResult.resting)
      (Reachable.started "SOL/USDC") (limit_order-IsAcceptable 1 ask 200 5) resting_ask_run

Reachable-Models_example : (a : Market) × Models ask_engine a × IsUncrossed a × PriceTime a (1 ∷ [])
Reachable-Models_example = Reachable-Models ask_engine ask_engine-Reachable

Reachable-fills_example :
    (a : Market) × Models ask_engine a
    × (later : List (ℕ × ℕ)) × (map order_line (queue ask a)
        ≡ map fill_line (first_fill ∷ []) ++ later)
    × IsSorted ask (queue ask a)
    × InTime ask (queue ask a) (1 ∷ [])
Reachable-fills_example =
    Reachable-fills ask_engine traded_engine crossing_bid (first_fill ∷ []) ask_engine-Reachable
      (limit_order-IsAcceptable 3 bid 210 3) crossing_bid_run

Reachable-IsCancellable_example :
    (a : Market) × Models ask_engine a
    × ((s : Side) → All (λ x. IsCancellable ask_engine a x.1) (queue s a))
Reachable-IsCancellable_example = Reachable-IsCancellable ask_engine ask_engine-Reachable (refl, tt)

Reachable-returns_example :
    ((r : Reply) × (process_order ask_engine crossing_bid ≡ some r))
    × ((r : Reply) × (cancel ask_engine 1 ≡ some r))
Reachable-returns_example =
    Reachable-returns ask_engine crossing_bid 1 ask_engine-Reachable
      (limit_order-IsAcceptable 3 bid 210 3)

cancel-Cancels_example : Cancels ask_engine ask_market 1
cancel-Cancels_example = cancel-Cancels ask_engine ask_market 1 ask_engine-Models

-- The engine with a bid below the resting ask.
abbrev two_sided_engine : MatchingEngine
two_sided_engine = record {
  book = record {
    orders = some resting_ask ∷ some (limit_order 2 bid 190 4) ∷ [];
    index = index_put 2 (some 1) (index_put 1 (some 0) (λ id. none));
    bids = (190, 1 ∷ []) ∷ [];
    asks = (200, 0 ∷ []) ∷ [];
  };
  market_id = "SOL/USDC";
  sequence = 0;
}

resting_bid_run :
    process_order ask_engine (limit_order 2 bid 190 4)
    ≡ some (two_sided_engine, ok ProcessResult.resting)
unfolding process_order dispatch run_loop loop_fuel start_matching rest_remainder resting_result
    match_loop pick_maker execute_fill pop_front get_order set_order best_bid best_ask
    best_bid_front best_ask_front push_back level_at write_level first_price keep_level remaining
    add_fill insert_order next_sequence
resting_bid_run = refl

two_sided_engine-Reachable : Reachable two_sided_engine
two_sided_engine-Reachable =
    Reachable.processed ask_engine (limit_order 2 bid 190 4)
      (two_sided_engine, ok ProcessResult.resting) ask_engine-Reachable
      (limit_order-IsAcceptable 2 bid 190 4) resting_bid_run

best_bid_run : best_bid two_sided_engine.book ≡ some 190
unfolding best_bid first_price
best_bid_run = refl

best_ask_run : best_ask two_sided_engine.book ≡ some 200
unfolding best_ask first_price
best_ask_run = refl

Reachable-spread_example : 190 < 200
Reachable-spread_example =
    Reachable-spread two_sided_engine 190 200 two_sided_engine-Reachable best_bid_run best_ask_run

level_depth-count_example :
    level_depth ask_engine.book ask 200 ≡ count ask 200 (queue ask ask_market)
level_depth-count_example = level_depth-count ask_engine ask_market ask 200 ask_engine-Models
