-- ===== src/Engine/Process.antt =====
-- matching.rs: `process_order` and `cancel`, which drive the matching loops.
use lmax_clob.Common.{ℕ, suc, Option, none, some, List, [], ◌∷◌, length, if◌then◌else◌}
use lmax_clob.Crates.{Crates}
use lmax_clob.Crates.Decimal.{leq, less}
use lmax_clob.Engine.Types.{
  Order, OrderType, remaining, Fill, ProcessResult, EngineError, CancelError, InsertError, Result,
  ok, err,
}
use lmax_clob.Engine.Levels.Flat.{flatten}
use lmax_clob.Engine.Book.{OrderBook, levels, insert_order, cancel_order}
use lmax_clob.Engine.Matching.{MatchingEngine, Matching, opposite, match_loop}

module _ ⦃c : Crates⦄ where
  -- What `process_limit` and `process_market` return, beside the engine that they leave.
  abbrev pub Reply : Type 0
  Reply = MatchingEngine × Result EngineError ProcessResult

  -- A round for each order on the other side, and one to find that nothing is left.
  unfoldable pub loop_fuel : OrderBook → Order → ℕ
  loop_fuel b taker = suc (length (flatten (levels (opposite taker.side) b)))

  unfoldable pub start_matching : MatchingEngine → Order → Matching
  start_matching e taker = record { engine = e; taker = taker; fills = [] }

  unfoldable pub run_loop : OrderType → MatchingEngine → Order → Option Matching
  unfolding loop_fuel start_matching
  run_loop kind e taker = match_loop kind (loop_fuel e.book taker) (start_matching e taker)

  unfoldable pub resting_result : List Fill → ProcessResult
  resting_result [] = ProcessResult.resting
  resting_result (f ∷ fs) = ProcessResult.fills (f ∷ fs)

  after_insert : Matching → Result InsertError (OrderBook × ℕ) → Reply
  unfolding resting_result
  after_insert m (err e) = (m.engine, err EngineError.invalid_quantity)
  after_insert m (ok (b, key)) = (record m.engine { book = b }, ok (resting_result m.fills))

  unfoldable pub rest_remainder : Matching → Reply
  unfolding after_insert
  rest_remainder m =
      if less c.zero (remaining m.taker)
      then after_insert m (insert_order m.engine.book m.taker)
      else (m.engine, ok (ProcessResult.fills m.fills))

  process_limit : MatchingEngine → Order → Option Reply
  process_limit e taker =
      if leq taker.quantity c.zero
      then some (e, err EngineError.invalid_quantity)
      else elim (run_loop OrderType.limit e taker) [
        | none ↦ none
        | some m ↦ some (rest_remainder m)
      ]

  process_market : MatchingEngine → Order → Option Reply
  process_market e taker =
      if leq taker.quantity c.zero
      then some (e, err EngineError.invalid_quantity)
      else elim (run_loop OrderType.market e taker) [
        | none ↦ none
        | some m ↦ some (m.engine, ok (ProcessResult.fills m.fills))
      ]

  unfoldable pub dispatch : OrderType → MatchingEngine → Order → Option Reply
  unfolding process_limit process_market
  dispatch OrderType.limit e o = process_limit e o
  dispatch OrderType.market e o = process_market e o

  unfoldable pub process_order : MatchingEngine → Order → Option Reply
  unfolding dispatch
  process_order e o = dispatch o.order_type e o

  cancel_reply : MatchingEngine → c.Uuid → Result CancelError OrderBook → Reply
  cancel_reply e id (err _) = (e, err (EngineError.order_not_found id))
  cancel_reply e id (ok b) = (record e { book = b }, ok ProcessResult.cancelled)

  -- `none` where `cancel_order` panics.
  unfoldable pub cancel : MatchingEngine → c.Uuid → Option Reply
  unfolding cancel_reply
  cancel e id = elim (cancel_order e.book id) [ none ↦ none | some r ↦ some (cancel_reply e id r) ]
