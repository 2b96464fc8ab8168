-- ===== src/Examples/Tests/Matching.antt =====
-- The tests of matching.rs on matching, priority and cancelling.
use lmax_clob.Common.{
  ◌≡◌, refl, ◌==◌, length, Bool, true, false, ◌&&◌, Option, none, some, List, [], ◌∷◌, ◌++◌,
}
use lmax_clob.Engine.Types.{bid, ask, Order, Fill, ProcessResult, ok, remaining, is_complete}
use lmax_clob.Engine.Levels.{push_back, level_at, write_level, first_price, keep_level, retain}
use lmax_clob.Engine.Book.{
  insert_order, cancel_order, best_bid, best_ask, best_bid_front, best_ask_front, pop_front,
  get_order, set_order, level_depth, unlink, cancel_live,
}
use lmax_clob.Engine.Matching.{
  MatchingEngine, new_engine, next_sequence, add_fill, execute_fill, pick_maker, match_loop,
}
use lmax_clob.Engine.Process.{
  Reply, process_order, cancel, dispatch, run_loop, rest_remainder, resting_result, loop_fuel,
  start_matching,
}
use lmax_clob.Examples.Demo.{demo}
use lmax_clob.Examples.Tests.Base.{
  dec, limit_of, market_of, same_price, process_all, after, expect_fills, is_resting, first,
  prices_are,
}

abbrev limit_bid_matches_resting_ask : Bool
limit_bid_matches_resting_ask =
    expect_fills (after (limit_of ask 100 5 1 ∷ []) (limit_of bid 100 5 2))
      (λ e fs. (length fs == 1) && first (λ f. (f.price == dec 100) && (f.quantity == dec 5)) fs)

abbrev no_match_when_spread_exists : Bool
no_match_when_spread_exists = elim (after (limit_of ask 101 5 1 ∷ []) (limit_of bid 99 5 2)) [
  | none ↦ false
  | some (e, r) ↦
      is_resting r
      && (same_price (best_bid e.book) (some (dec 99))
          && same_price (best_ask e.book) (some (dec 101)))
]

abbrev partial_fill_leaves_remainder_resting : Bool
partial_fill_leaves_remainder_resting =
    expect_fills (after (limit_of ask 100 3 1 ∷ []) (limit_of bid 100 5 2)) (λ e fs.
      (length fs == 1)
      && (first (λ f. f.quantity == dec 3) fs
          && (same_price (best_bid e.book) (some (dec 100))
              && (level_depth e.book bid (dec 100) == 1))))

abbrev market_order_sweeps_multiple_levels : Bool
market_order_sweeps_multiple_levels =
    expect_fills
      (after (limit_of ask 100 2 1 ∷ limit_of ask 101 2 2 ∷ limit_of ask 102 2 3 ∷ [])
        (market_of bid 6 4))
      (λ e fs. prices_are (100 ∷ 101 ∷ 102 ∷ []) fs && same_price (best_ask e.book) none)

abbrev market_order_partial_sweep_when_insufficient_liquidity : Bool
market_order_partial_sweep_when_insufficient_liquidity =
    expect_fills (after (limit_of ask 100 2 1 ∷ []) (market_of bid 10 2))
      (λ e fs. (length fs == 1) && first (λ f. f.quantity == dec 2) fs)

abbrev price_time_priority_respected : Bool
price_time_priority_respected =
    expect_fills
      (after (limit_of ask 100 1 1 ∷ limit_of ask 100 1 2 ∷ limit_of ask 100 1 3 ∷ [])
        (limit_of bid 100 1 4))
      (λ e fs. first (λ f. f.maker_order_id == 1) fs)

abbrev fill_price_is_maker_price : Bool
fill_price_is_maker_price =
    expect_fills (after (limit_of ask 100 5 1 ∷ []) (limit_of bid 105 5 2))
      (λ e fs. first (λ f. f.price == dec 100) fs)

abbrev cancelled_reply : Option Reply → Option MatchingEngine
cancelled_reply (some (e, ok ProcessResult.cancelled)) = some e
cancelled_reply _ = none

abbrev cancel_resting_order : Bool
cancel_resting_order = elim (process_all (limit_of ask 100 5 1 ∷ []) (new_engine "SOL-USDC")) [
  | none ↦ false
  | some e ↦ elim (cancelled_reply (cancel e 1)) [
    | none ↦ false
    | some e' ↦ same_price (best_ask e'.book) none
  ]
]

abbrev fills_in_reply : Reply → List Fill
fills_in_reply (e, ok (ProcessResult.fills fs)) = fs
fills_in_reply _ = []

abbrev run_sequence : List Order → MatchingEngine → List Fill
run_sequence [] e = []
run_sequence (o ∷ os) e = elim (process_order e o) [
  | none ↦ []
  | some r ↦ fills_in_reply r ++ run_sequence os r.0
]

abbrev same_fills : List Fill → List Fill → Bool
same_fills [] [] = true
same_fills (f ∷ fs) (g ∷ gs) =
    (f.price == g.price) && ((f.quantity == g.quantity) && same_fills fs gs)
same_fills _ _ = false

abbrev determinism_same_inputs_same_fills : Bool
determinism_same_inputs_same_fills =
    let orders = limit_of ask 100 3 1 ∷ limit_of ask 101 2 2 ∷ limit_of bid 101 4 3 ∷ [] in
    same_fills (run_sequence orders (new_engine "SOL-USDC"))
      (run_sequence orders (new_engine "SOL-USDC"))

matching_tests :
    (limit_bid_matches_resting_ask ≡ true)
    × (no_match_when_spread_exists ≡ true)
    × (partial_fill_leaves_remainder_resting ≡ true)
    × (market_order_sweeps_multiple_levels ≡ true)
    × (market_order_partial_sweep_when_insufficient_liquidity ≡ true)
    × (price_time_priority_respected ≡ true)
    × (fill_price_is_maker_price ≡ true)
    × (cancel_resting_order ≡ true)
    × (determinism_same_inputs_same_fills ≡ true)
unfolding process_order dispatch run_loop loop_fuel start_matching rest_remainder resting_result
    match_loop pick_maker execute_fill pop_front get_order set_order best_bid best_ask
    best_bid_front best_ask_front push_back level_at write_level first_price keep_level remaining
    add_fill insert_order next_sequence level_depth cancel cancel_order cancel_live unlink retain
    is_complete
matching_tests = (refl, refl, refl, refl, refl, refl, refl, refl, refl)
