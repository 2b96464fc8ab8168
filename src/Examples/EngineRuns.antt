-- ===== src/Examples/EngineRuns.antt =====
-- Concrete orders, and the engine that holds one of them.
use lmax_clob.Common.{
  refl, ◌∙◌, sym, some-injective, arith, subst, ◌≡◌, ℕ, none, some, [], ◌∷◌, ◌+◌,
}
use lmax_clob.Engine.Types.{
  ProcessResult, ok, Fill, is_complete, Side, bid, ask, Order, OrderType, OrderStatus, remaining,
}
use lmax_clob.Engine.Levels.{push_back, level_at, write_level, first_price, keep_level}
use lmax_clob.Engine.Book.{
  index_put, insert_order, best_bid, best_ask, best_bid_front, best_ask_front, pop_front, get_order,
  set_order,
}
use lmax_clob.Engine.Matching.{
  MatchingEngine, new_engine, next_sequence, add_fill, execute_fill, pick_maker, match_loop,
}
use lmax_clob.Engine.Process.{
  Reply, process_order, dispatch, run_loop, rest_remainder, resting_result, loop_fuel,
  start_matching,
}
use lmax_clob.Engine.Spec.{Market, place, place_as, sweep, settle, after_sweep, enqueue, rest_reply}
use lmax_clob.Engine.Refine.Models.{Models, IsAcceptable, empty_market, new_engine-Models}
use lmax_clob.Engine.Refine.Process.{process_order-place}
use lmax_clob.Examples.Demo.{demo}

-- A limit order for `q` at the price `p`.
abbrev pub limit_order : ℕ → Side → ℕ → ℕ → Order
limit_order id side p q = record {
  id = id;
  market_id = "SOL/USDC";
  side = side;
  order_type = OrderType.limit;
  price = some p;
  quantity = q + 100;
  filled = 100;
  status = OrderStatus.open_order;
  sequence = 0;
}

abbrev pub resting_ask : Order
resting_ask = limit_order 1 ask 200 5

abbrev pub crossing_bid : Order
crossing_bid = limit_order 3 bid 210 3

pub limit_order-IsAcceptable :
    (id : ℕ) (side : Side) (p q : ℕ) → IsAcceptable (limit_order id side p q)
unfolding is_complete
limit_order-IsAcceptable id side p q = record {
  fillable = record {
    quantity_grid = omega arith;
    filled_grid = omega arith;
    not_negative = omega arith;
    within = omega arith;
  };
  incomplete = refl;
}

-- The engine with the resting ask, and the market that it stands for.
abbrev pub ask_engine : MatchingEngine
ask_engine = record {
  book = record {
    orders = some resting_ask ∷ [];
    index = index_put 1 (some 0) (λ id. none);
    bids = [];
    asks = (200, 0 ∷ []) ∷ [];
  };
  market_id = "SOL/USDC";
  sequence = 0;
}

abbrev pub ask_market : Market
ask_market = record { bids = []; asks = (200, resting_ask) ∷ []; sequence = 0 }

-- It is the engine after `process_order` of that order.
pub resting_ask_run :
    process_order (new_engine "SOL/USDC") resting_ask ≡ some (ask_engine, ok ProcessResult.resting)
unfolding process_order dispatch run_loop loop_fuel start_matching rest_remainder resting_result
    match_loop pick_maker execute_fill pop_front get_order set_order best_bid best_ask
    best_bid_front best_ask_front push_back level_at write_level first_price keep_level remaining
    add_fill insert_order
resting_ask_run = refl

resting_ask-place : (place empty_market resting_ask).0 ≡ ask_market
unfolding place_as sweep settle after_sweep enqueue remaining rest_reply
resting_ask-place = refl

pub ask_engine-Models : Models ask_engine ask_market
ask_engine-Models =
    let placed =
      process_order-place (new_engine "SOL/USDC") empty_market resting_ask
        (new_engine-Models "SOL/USDC") (limit_order-IsAcceptable 1 ask 200 5) in
    subst (Models ask_engine) resting_ask-place (
      subst (λ (x : Reply). Models x.0 (place empty_market resting_ask).0)
        (some-injective _ (ask_engine, ok ProcessResult.resting) (sym placed.1 ∙ resting_ask_run))
        placed.2)

-- The engine after the bid has taken 3 of it.
abbrev pub traded_engine : MatchingEngine
traded_engine = record {
  book = record {
    orders = some (record resting_ask { filled = 103; status = OrderStatus.partially_filled }) ∷ [];
    index = index_put 1 (some 0) (λ id. none);
    bids = [];
    asks = (200, 0 ∷ []) ∷ [];
  };
  market_id = "SOL/USDC";
  sequence = 1;
}

abbrev pub first_fill : Fill
first_fill = record {
  maker_order_id = 1;
  taker_order_id = 3;
  price = 200;
  quantity = 103;
  sequence = 1;
}

pub crossing_bid_run :
    process_order ask_engine crossing_bid
    ≡ some (traded_engine, ok (ProcessResult.fills (first_fill ∷ [])))
unfolding process_order dispatch run_loop loop_fuel start_matching rest_remainder resting_result
    match_loop pick_maker execute_fill pop_front get_order set_order best_bid best_ask
    best_bid_front best_ask_front push_back level_at write_level first_price keep_level remaining
    add_fill insert_order next_sequence
crossing_bid_run = refl
