-- ===== src/Engine/Market/Reachable.antt =====
-- The engines that `new` and any calls of `process_order` and `cancel` lead to.
use mathlib.Core.List.Sublist
use lmax_clob.Common.{
  map, [], List, ◌≡◌, ◌∙◌, sym, subst, inl, inr, some, some-injective, ◌<◌, String, All-imp, ◌∷◌,
  ◌++◌,
}
use lmax_clob.Crates.{Crates}
use lmax_clob.Engine.Types.{Fill, Side, bid, ask, Order, ProcessResult, ok}
use lmax_clob.Engine.Book.{best_bid, best_ask}
use lmax_clob.Engine.Matching.{opposite, MatchingEngine, new_engine}
use lmax_clob.Engine.Process.{Reply, process_order, cancel}
use lmax_clob.Engine.Spec.{Priced, Market, queue, with_queue, place}
use lmax_clob.Engine.Refine.Drop.{All-cut}
use lmax_clob.Engine.Refine.Models.{empty_market, Models, IsAcceptable, new_engine-Models}
use lmax_clob.Engine.Refine.Cancel.{Withdrawn, cancel-Cancels}
use lmax_clob.Engine.Refine.Process.{process_order-place}
use lmax_clob.Engine.Market.Arrivals.{InTime, InTime-cut, place-InTime, queue-IsSorted}
use lmax_clob.Engine.Market.Sorted.{IsSorted}
use lmax_clob.Engine.Market.Fills.{order_line, fill_line}
use lmax_clob.Engine.Market.Properties.{fills_priority}
use lmax_clob.Engine.Market.Crossing.{Apart, IsUncrossed}
use lmax_clob.Engine.Market.Uncrossed.{process_order-IsUncrossed, best-IsUncrossed}

module _ ⦃c : Crates⦄ where
  pub data Reachable : MatchingEngine → Type 0 where
    started : (market_id : String) → Reachable (new_engine market_id)
    processed :
        (e : MatchingEngine) (o : Order) (r : Reply)
        → Reachable e
        → IsAcceptable o
        → process_order e o ≡ some r
        → Reachable r.0
    withdrawn :
        (e : MatchingEngine) (id : c.Uuid) (r : Reply)
        → Reachable e
        → cancel e id ≡ some r
        → Reachable r.0

  Apart-cut :
      (s : Side) (x : c.Num × Order) (before later other : Priced Order)
      → Apart s other (before ++ x ∷ later)
      → Apart s other (before ++ later)
  Apart-cut s x before later other h = All-imp (λ b. All-cut _ x before later) other h

  Withdrawn-IsUncrossed :
      (id : c.Uuid) (a a' : Market) → Withdrawn id a a' → IsUncrossed a → IsUncrossed a'
  Withdrawn-IsUncrossed id a a' w un = subst IsUncrossed (sym w.left) (on w.side w.queued)
    where
      on :
          (s : Side)
          → queue s a ≡ w.before ++ (w.level, w.order) ∷ w.later
          → IsUncrossed (with_queue s (w.before ++ w.later) a)
      on bid q =
          All-cut _ (w.level, w.order) w.before w.later (subst (λ x. Apart bid x a.asks) q un)
      on ask q =
          Apart-cut bid (w.level, w.order) w.before w.later a.bids (subst (Apart bid a.bids) q un)

  -- The ids of the orders that `process_order` was given on the way to an engine, in turn.
  abbrev pub arrivals : {e : MatchingEngine} → Reachable e → List c.Uuid
  arrivals (started market_id) = []
  arrivals (processed e o r h good run) = arrivals h ++ o.id ∷ []
  arrivals (withdrawn e id r h run) = arrivals h

  -- The queues of a market are in price-time order: the best price first, and at each price in
  -- the order of these ids.
  pub record PriceTime (a : Market) (os : List c.Uuid) : Type 0 where
    pub by_price : (s : Side) → IsSorted s (queue s a)
    pub by_time : (s : Side) → InTime s (queue s a) os

  Withdrawn-InTime :
      (id : c.Uuid) (a a' : Market) (os : List c.Uuid)
      → Withdrawn id a a'
      → ((s : Side) → InTime s (queue s a) os)
      → (s : Side) → InTime s (queue s a') os
  Withdrawn-InTime id a a' os w h s =
      subst (λ x. InTime s (queue s x) os) (sym w.left) (on s w.side w.queued (h w.side))
    where
      on :
          (s t : Side)
          → queue t a ≡ w.before ++ (w.level, w.order) ∷ w.later
          → InTime t (queue t a) os
          → InTime s (queue s (with_queue t (w.before ++ w.later) a)) os
      on bid bid q k = InTime-cut bid _ w.before w.later os (subst (λ x. InTime bid x os) q k)
      on ask ask q k = InTime-cut ask _ w.before w.later os (subst (λ x. InTime ask x os) q k)
      on bid ask q k = h bid
      on ask bid q k = h ask

  empty-InTime : (s : Side) → InTime s (queue s empty_market) []
  empty-InTime bid p = Sublist.refl []
  empty-InTime ask p = Sublist.refl []

  price_time :
      (e : MatchingEngine) (a : Market) (os : List c.Uuid)
      → Models e a
      → ((s : Side) → InTime s (queue s a) os)
      → PriceTime a os
  price_time e a os models time = record {
    by_price = λ s. queue-IsSorted e a s models;
    by_time = time;
  }

  -- Every engine reached from MatchingEngine::new by process_order of acceptable orders and by
  -- cancel stands for a market whose bids are all below its asks and whose queues are in
  -- price-time order: the best price first, and at each price in the order in which
  -- process_order was given the orders, the ids there being some of those given, in turn.
  pub Reachable-Models :
      (e : MatchingEngine) (h : Reachable e)
      → (a : Market) × Models e a × IsUncrossed a × PriceTime a (arrivals h)
  Reachable-Models _ (started market_id) =
      let models = new_engine-Models market_id in
      (empty_market, models, tt, price_time _ empty_market [] models empty-InTime)
  Reachable-Models _ (processed e o r h good run) =
      let (a, models, un, order) = Reachable-Models e h in
      let after = process_order-IsUncrossed e a o r models good un run in
      (
        (place a o).0,
        after.0,
        after.1,
        price_time r.0 (place a o).0 _ after.0
            (place-InTime e a o (arrivals h) models good order.by_time),
      )
  Reachable-Models _ (withdrawn e id r h run) =
      let (a, models, un, order) = Reachable-Models e h in
      elim (cancel-Cancels e a id models) [
        | inl (_, same) ↦ (
          a,
          subst (λ (x : Reply). Models x.0 a) (some-injective _ r (sym same ∙ run)) models,
          un,
          order,
        )
        | inr (e', a', same, gone, after, _) ↦ (
          a',
          subst (λ (x : Reply). Models x.0 a') (some-injective _ r (sym same ∙ run)) after,
          Withdrawn-IsUncrossed id a a' gone un,
          price_time r.0 a' (arrivals h)
              (subst (λ (x : Reply). Models x.0 a') (some-injective _ r (sym same ∙ run)) after)
              (Withdrawn-InTime id a a' (arrivals h) gone order.by_time),
        )
      ]

  -- In a reachable engine process_order of an acceptable order returns, and cancel returns: no
  -- loop runs on and no slab access panics.
  pub Reachable-returns :
      (e : MatchingEngine) (o : Order) (id : c.Uuid)
      → Reachable e
      → IsAcceptable o
      → ((r : Reply) × (process_order e o ≡ some r)) × ((r : Reply) × (cancel e id ≡ some r))
  Reachable-returns e o id h good =
      let (a, models, _, _) = Reachable-Models e h in
      let placed = process_order-place e a o models good in
      (
        (placed.0, placed.1),
        elim (cancel-Cancels e a id models) [
          | inl (_, same) ↦ (_, same)
          | inr x ↦ ((x.0, ok ProcessResult.cancelled), x.2)
        ],
      )

  -- In a reachable engine the best bid is below the best ask.
  pub Reachable-spread :
      (e : MatchingEngine) (p q : c.Num)
      → Reachable e
      → best_bid e.book ≡ some p
      → best_ask e.book ≡ some q
      → c.position p < c.position q
  Reachable-spread e p q h b k =
      let (a, models, un, _) = Reachable-Models e h in best-IsUncrossed e a p q models un b k

  -- Where an engine reached from MatchingEngine::new by process_order of acceptable orders and
  -- by cancel replies to an acceptable order with fills, the fills name the front of the other
  -- side's queue, each maker once and at the price of its level; and that queue has the best
  -- price first, and at each price the orders in the order in which process_order was given
  -- them.
  pub Reachable-fills :
      (e e' : MatchingEngine) (o : Order) (fs : List Fill) (h : Reachable e)
      → IsAcceptable o
      → process_order e o ≡ some (e', ok (ProcessResult.fills fs))
      → (a : Market) × Models e a
        × (later : List (c.Num × c.Uuid)) × (map order_line (queue (opposite o.side) a)
            ≡ map fill_line fs ++ later)
        × IsSorted (opposite o.side) (queue (opposite o.side) a)
        × InTime (opposite o.side) (queue (opposite o.side) a) (arrivals h)
  Reachable-fills e e' o fs h good run =
      let (a, models, _, order) = Reachable-Models e h in
      let (later, front) = fills_priority e e' a o fs models good run in
      (a, models, later, front, order.by_price (opposite o.side), order.by_time (opposite o.side))
