-- ===== src/Engine/Market/Uncrossed.antt =====
-- Bids below asks, and the orders that the engine processes.
use lmax_clob.Common.{
  ℕ, ◌<◌, ◌≡◌, refl, sym, ap, ◌∙◌, subst, inl, inr, some, List, [], ◌∷◌, All, All-imp, Bool-cases,
  Option-cases, some-injective,
}
use lmax_clob.Crates.{Crates}
use lmax_clob.Crates.Decimal.{leq}
use lmax_clob.Engine.Types.{Side, bid, ask, Order, OrderType}
use lmax_clob.Engine.Levels.{first_price}
use lmax_clob.Engine.Book.{best_bid, best_ask}
use lmax_clob.Engine.Matching.{MatchingEngine, opposite, is_spent}
use lmax_clob.Engine.Process.{Reply, process_order}
use lmax_clob.Engine.Spec.{
  Priced, Swept, Market, queue, with_queue, enqueue, sweep, after_sweep, settle, place, place_as,
}
use lmax_clob.Engine.Refine.Holds.{Holds, IsResting, Resolves-head, Resolves-nil}
use lmax_clob.Engine.Refine.Keeps.{SameOrder, sweep-SameOrder}
use lmax_clob.Engine.Refine.Models.{Models, IsAcceptable}
use lmax_clob.Engine.Refine.Process.{settle-rested, process_order-place}
use lmax_clob.Engine.Market.Trades.{Trades, Halts, sweep-Trades}
use lmax_clob.Engine.Market.Fills.{Trades-rest, Trades-Halts}
use lmax_clob.Engine.Market.Sorted.{IsSorted, Holds-IsSorted, Trades-IsSorted}
use lmax_clob.Engine.Market.Crossing.{
  Beyond, Apart, IsUncrossed, queues-Apart, after_sweep-IsUncrossed, rested-IsUncrossed,
  Blocked-Beyond,
}

module _ ⦃c : Crates⦄ where
  -- The orders on the other side may rest there, and are sorted.
  pub opposite-IsResting :
      (s : Side) {e : MatchingEngine} {a : Market}
      → Models e a
      → All (λ x. IsResting (opposite s) x.0 x.1) (queue (opposite s) a)
        × IsSorted (opposite s) (queue (opposite s) a)
  opposite-IsResting bid {a = a} h = (h.asks.resting, Holds-IsSorted a.asks h.asks)
  opposite-IsResting ask {a = a} h = (h.bids.resting, Holds-IsSorted a.bids h.bids)

  module _ (a : Market) (o : Order) (kind : OrderType) (w : Swept)
      (apart : Apart o.side (queue o.side a) w.rest) (same : SameOrder o w.taker)
      (halts : Halts kind w.taker w.rest) (sorted : IsSorted (opposite o.side) w.rest) where
    settle_limit-IsUncrossed :
        kind ≡ OrderType.limit
        → IsUncrossed (settle OrderType.limit (after_sweep o.side a w) w.taker w.fills).0
    unfolding settle after_sweep
    settle_limit-IsUncrossed limit = elim (Bool-cases (is_spent w.taker)) [
      | inl spent ↦ rw (spent, settle) (after_sweep-IsUncrossed o.side a w apart)
      | inr live ↦ elim (Option-cases w.taker.price) [
        | inl unpriced ↦ rw (live, unpriced, settle) (after_sweep-IsUncrossed o.side a w apart)
        | inr (l, priced) ↦
            rw (settle-rested (after_sweep o.side a w) w.taker w.fills l live priced) (
              subst
                (λ s.
                  let x = after_sweep o.side a w in
                  IsUncrossed (with_queue s (enqueue s l w.taker (queue s x)) x))
                (sym same.side)
                (rested-IsUncrossed o.side a w l w.taker apart
                  (elim (subst (λ k. Halts k w.taker w.rest) limit halts) [
                    | inl spent ↦ cc
                    | inr bad ↦ Blocked-Beyond o.side w.taker l w.rest same.side priced bad sorted
                  ])))
      ]
    ]

  place-IsUncrossed :
      (e : MatchingEngine) (a : Market) (o : Order)
      → Models e a
      → IsAcceptable o
      → IsUncrossed a
      → (kind : OrderType) → IsUncrossed (place_as kind a o).0
  unfolding place_as
  place-IsUncrossed e a o h good un kind = elim (Bool-cases (leq o.quantity c.zero)) [
    | inl zero ↦ rw (zero) un
    | inr positive ↦ rw (positive) (settled kind refl)
  ]
    where
      es : Priced Order
      es = queue (opposite o.side) a

      trades : (k : OrderType) → Trades k a.sequence o es (sweep k a.sequence o es)
      trades k =
          sweep-Trades k (opposite o.side) a.sequence o es good.fillable
            (opposite-IsResting o.side h).0

      apart : (k : OrderType) → Apart o.side (queue o.side a) (sweep k a.sequence o es).rest
      apart k =
          All-imp (λ b r. Trades-rest (λ q. Beyond o.side b.0 q) (trades k) r) (queue o.side a)
            (queues-Apart o.side a un)

      settled :
          (k : OrderType)
          → k ≡ kind
          → let w = sweep k a.sequence o es in
            IsUncrossed (settle k (after_sweep o.side a w) w.taker w.fills).0
      settled OrderType.limit e =
          settle_limit-IsUncrossed a o OrderType.limit (sweep OrderType.limit a.sequence o es)
            (apart OrderType.limit)
            (sweep-SameOrder OrderType.limit a.sequence o es good.incomplete)
            (Trades-Halts (trades OrderType.limit))
            (Trades-IsSorted (opposite o.side) (trades OrderType.limit)
              (opposite-IsResting o.side h).1)
            refl
      settled OrderType.market e =
          after_sweep-IsUncrossed o.side a (sweep OrderType.market a.sequence o es)
            (apart OrderType.market)

  best-Holds :
      (s : Side) (slab : c.Slab Order) (ls : List (c.Num × List ℕ)) (es : Priced Order) (p : c.Num)
      → Holds s slab ls es
      → first_price ls ≡ some p
      → (o : Order) × (rest : Priced Order) × (es ≡ (p, o) ∷ rest)
  unfolding first_price
  best-Holds s slab ls [] p h e = absurd (
      cc (
        Resolves-nil s slab ls h.ordered h.resolves,
        e,
        ap first_price (Resolves-nil s slab ls h.ordered h.resolves),
      ))
  best-Holds s slab ls ((q, o) ∷ es) p h e =
      let (k, ks, rest, same) = Resolves-head s slab q o es ls h.ordered h.resolves in
      (o, es, ap (λ x. (x, o) ∷ es) (some-injective q p (ap first_price (sym same) ∙ e)))

  -- In an engine that stands for an uncrossed market the best bid is below the best ask.
  pub best-IsUncrossed :
      (e : MatchingEngine) (a : Market) (p q : c.Num)
      → Models e a
      → IsUncrossed a
      → best_bid e.book ≡ some p
      → best_ask e.book ≡ some q
      → c.position p < c.position q
  unfolding best_bid best_ask
  best-IsUncrossed e a p q h un b k =
      let (o, os, bids) = best-Holds bid e.book.orders e.book.bids a.bids p h.bids b in
      let (m, ms, asks) = best-Holds ask e.book.orders e.book.asks a.asks q h.asks k in
      (subst (λ x. Apart bid x ((q, m) ∷ ms)) bids (subst (Apart bid a.bids) asks un)).0.0

  pub process_order-IsUncrossed :
      (e : MatchingEngine) (a : Market) (o : Order) (r : Reply)
      → Models e a
      → IsAcceptable o
      → IsUncrossed a
      → process_order e o ≡ some r
      → Models r.0 (place a o).0 × IsUncrossed (place a o).0
  process_order-IsUncrossed e a o r h good un run =
      let (r', run', models, reply) = process_order-place e a o h good in
      (
        subst (λ (x : Reply). Models x.0 (place a o).0) (some-injective r' r (sym run' ∙ run))
            models,
        place-IsUncrossed e a o h good un o.order_type,
      )
