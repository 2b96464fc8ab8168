-- ===== src/Examples/Tests/Base.antt =====
-- What the test modules of matching.rs, orderbook.rs and snapshot.rs share.
use lmax_clob.Common.{ℕ, ◌+◌, ◌==◌, Bool, true, false, ◌&&◌, Option, none, some, List, [], ◌∷◌}
use lmax_clob.Engine.Types.{Side, Order, OrderType, OrderStatus, Fill, ProcessResult, ok, err}
use lmax_clob.Engine.Matching.{MatchingEngine, new_engine}
use lmax_clob.Engine.Process.{Reply, process_order}
use lmax_clob.Examples.Demo.{demo}

-- `dec!(n)`
abbrev pub dec : ℕ → ℕ
dec n = n + 100

abbrev pub limit_of : Side → ℕ → ℕ → ℕ → Order
limit_of side price qty seq = record {
  id = seq;
  market_id = "SOL-USDC";
  side = side;
  order_type = OrderType.limit;
  price = some (dec price);
  quantity = dec qty;
  filled = dec 0;
  status = OrderStatus.open_order;
  sequence = seq;
}

abbrev pub market_of : Side → ℕ → ℕ → Order
market_of side qty seq = record {
  id = seq;
  market_id = "SOL-USDC";
  side = side;
  order_type = OrderType.market;
  price = none;
  quantity = dec qty;
  filled = dec 0;
  status = OrderStatus.open_order;
  sequence = seq;
}

-- `assert_eq!` on two prices that may be missing.
abbrev pub same_price : Option ℕ → Option ℕ → Bool
same_price none none = true
same_price (some a) (some b) = a == b
same_price none (some b) = false
same_price (some a) none = false

-- `.unwrap()`
abbrev unwrapped : Option Reply → Option (MatchingEngine × ProcessResult)
unwrapped none = none
unwrapped (some (e, ok r)) = some (e, r)
unwrapped (some (e, err x)) = none

-- The engine after these orders, each of which is unwrapped, and the result of one more.
abbrev pub process_all : List Order → MatchingEngine → Option MatchingEngine
process_all [] e = some e
process_all (o ∷ os) e = elim (unwrapped (process_order e o)) [
  | none ↦ none
  | some (e', r) ↦ process_all os e'
]

abbrev pub then_process : Option MatchingEngine → Order → Option (MatchingEngine × ProcessResult)
then_process none o = none
then_process (some e) o = unwrapped (process_order e o)

abbrev pub after : List Order → Order → Option (MatchingEngine × ProcessResult)
after os o = then_process (process_all os (new_engine "SOL-USDC")) o

-- `match result { Fills(fills) => ..., _ => panic!() }`
abbrev pub expect_fills :
    Option (MatchingEngine × ProcessResult) → (MatchingEngine → List Fill → Bool) → Bool
expect_fills none check = false
expect_fills (some (e, ProcessResult.fills fs)) check = check e fs
expect_fills (some (e, ProcessResult.resting)) check = false
expect_fills (some (e, ProcessResult.cancelled)) check = false

abbrev pub is_resting : ProcessResult → Bool
is_resting (ProcessResult.fills fs) = false
is_resting ProcessResult.resting = true
is_resting ProcessResult.cancelled = false

abbrev pub every {ℓ} : {A : Type ℓ} → (A → Bool) → List A → Bool
every p [] = true
every p (x ∷ xs) = p x && every p xs

-- `fills[0]`: an index out of range panics.
abbrev pub first : (Fill → Bool) → List Fill → Bool
first check [] = false
first check (f ∷ fs) = check f

abbrev pub prices_are : List ℕ → List Fill → Bool
prices_are [] [] = true
prices_are (p ∷ ps) (f ∷ fs) = (f.price == dec p) && prices_are ps fs
prices_are _ _ = false
