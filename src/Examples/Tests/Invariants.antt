-- ===== src/Examples/Tests/Invariants.antt =====
-- The tests of matching.rs that check an invariant over a table of cases.
use lmax_clob.Common.{
  zero, leb, ltb, suc, ℕ, ◌≡◌, refl, Bool, true, false, ◌&&◌, Option, none, some, List, [], ◌∷◌,
  ◌++◌,
}
use lmax_clob.Engine.Types.{bid, ask, Order, Fill, ProcessResult, remaining}
use lmax_clob.Engine.Levels.{push_back, level_at, write_level, first_price, keep_level}
use lmax_clob.Engine.Book.{
  insert_order, best_bid, best_ask, best_bid_front, best_ask_front, pop_front, get_order, set_order,
}
use lmax_clob.Engine.Matching.{
  MatchingEngine, new_engine, next_sequence, add_fill, execute_fill, pick_maker, match_loop,
}
use lmax_clob.Engine.Process.{
  Reply, process_order, dispatch, run_loop, rest_remainder, resting_result, loop_fuel,
  start_matching,
}
use lmax_clob.Examples.Demo.{demo}
use lmax_clob.Examples.Tests.Base.{dec, limit_of, market_of, after, every}

abbrev sum_of : List Fill → ℕ
sum_of [] = dec 0
sum_of (f ∷ fs) = demo.add f.quantity (sum_of fs)

-- The cases of quantities of an ask and of a bid.
abbrev fills_within : ℕ × ℕ → Bool
fills_within (ask_qty, bid_qty) =
    elim (after (limit_of ask 100 ask_qty 1 ∷ []) (limit_of bid 100 bid_qty 2)) [
      | none ↦ false
      | some (e, ProcessResult.fills fs) ↦
          leb (sum_of fs) (dec ask_qty) && leb (sum_of fs) (dec bid_qty)
      | some (e, _) ↦ true
    ]

abbrev invariant_no_order_filled_beyond_quantity : Bool
invariant_no_order_filled_beyond_quantity =
    every fills_within ((1, 1) ∷ (5, 3) ∷ (3, 5) ∷ (10, 10) ∷ (1, 100) ∷ (100, 1) ∷ (7, 7) ∷ [])

abbrev left_by : Option Reply → MatchingEngine → MatchingEngine
left_by none e = e
left_by (some r) e = r.0

abbrev is_uncrossed : Option ℕ → Option ℕ → Bool
is_uncrossed (some b) (some a) = ltb b a
is_uncrossed _ _ = true

-- The cases of prices of a bid and of an ask. Errors are not looked at.
abbrev never_crossed : ℕ × ℕ → Bool
never_crossed (bid_price, ask_price) =
    let e = new_engine "SOL-USDC" in
    let e1 = left_by (process_order e (limit_of bid bid_price 1 1)) e in
    let e2 = left_by (process_order e1 (limit_of ask ask_price 1 2)) e1 in
    is_uncrossed (best_bid e2.book) (best_ask e2.book)

abbrev invariant_book_bid_ask_never_cross : Bool
invariant_book_bid_ask_never_cross =
    every never_crossed ((99, 101) ∷ (50, 50) ∷ (1, 200) ∷ (100, 100) ∷ (75, 76) ∷ [])

-- So many asks of two each, numbered from one.
abbrev asks_of : ℕ → List Order
asks_of zero = []
asks_of (suc n) = asks_of n ++ limit_of ask 100 2 (suc n) ∷ []

abbrev fills_positive : ℕ × ℕ → Bool
fills_positive (n_asks, bid_qty) =
    elim (after (asks_of n_asks) (market_of bid bid_qty (suc n_asks))) [
      | none ↦ false
      | some (e, ProcessResult.fills fs) ↦ every (λ f. ltb (dec 0) f.quantity) fs
      | some (e, _) ↦ true
    ]

abbrev invariant_fill_quantity_always_positive : Bool
invariant_fill_quantity_always_positive =
    every fills_positive ((1, 1) ∷ (1, 10) ∷ (3, 5) ∷ (5, 50) ∷ (2, 1) ∷ [])

invariant_tests :
    (invariant_no_order_filled_beyond_quantity ≡ true)
    × (invariant_book_bid_ask_never_cross ≡ true)
    × (invariant_fill_quantity_always_positive ≡ true)
unfolding process_order dispatch run_loop loop_fuel start_matching rest_remainder resting_result
    match_loop pick_maker execute_fill pop_front get_order set_order best_bid best_ask
    best_bid_front best_ask_front push_back level_at write_level first_price keep_level remaining
    add_fill insert_order next_sequence
invariant_tests = (refl, refl, refl)
