-- ===== src/Engine/Snapshot/Priority.antt =====
-- The time priority in a restored book.
use lmax_clob.Common.{
  ℕ, Ordering, ◌≡◌, ◌↔◌, refl, sym, ap, ◌∙◌, String, Option, List, [], ◌∷◌, ◌++◌, map, append_assoc,
  append-nil, All, unwrap_or,
}
use lmax_clob.Crates.{Crates}
use lmax_clob.Engine.Types.{Side, bid, ask, Order, ok}
use lmax_clob.Engine.Book.{OrderBook}
use lmax_clob.Engine.Levels.{order_on}
use lmax_clob.Engine.Matching.{MatchingEngine, new_engine}
use lmax_clob.Engine.Spec.{Priced, Market, queue, with_queue, enqueue}
use lmax_clob.Engine.Refine.Holds.{IsResting}
use lmax_clob.Engine.Refine.Models.{Models, empty_market}
use lmax_clob.Engine.Market.Sorted.{IsSorted}
use lmax_clob.Engine.Market.Arrivals.{queue-IsSorted}
use lmax_clob.Engine.Snapshot.{Postcard, snapshot_of, serialize_book, deserialize_book}
use lmax_clob.Engine.Snapshot.Complete.{behind, queued, IsQueued}
use lmax_clob.Engine.Snapshot.Levels.{
  pick, at_price, at_price-enqueue, IsSorted-enqueue, same_levels, order-SamePrice_right,
  pick-append,
}
use lmax_clob.Engine.Snapshot.Restore.{deserialize_book-serialize_book}

module _ ⦃c : Crates⦄ where
  -- The price under which an order rests.
  abbrev pub price_of : Order → c.Num
  price_of o = unwrap_or o.price c.zero

  abbrev on_side : Side → Side → Ordering → Ordering
  on_side bid bid t = t
  on_side ask ask t = t
  on_side bid ask t = Ordering.lt
  on_side ask bid t = Ordering.lt

  -- The orders of a list that have this side and this price.
  abbrev pub level_of : Side → c.Num → List Order → List Order
  level_of s p [] = []
  level_of s p (o ∷ os) = pick (on_side s o.side (order_on s p (price_of o))) o (level_of s p os)

  abbrev pub orders_of : Priced Order → List Order
  orders_of es = map (λ (y : c.Num × Order). y.1) es

  behind-IsSorted :
      (o : Order) (a : Market) (s : Side)
      → IsSorted s (queue s a)
      → IsSorted s (queue s (behind o a))
  behind-IsSorted o a s h = on s o.side h
    where
      on :
          (s t : Side)
          → IsSorted s (queue s a)
          → IsSorted s (queue s (with_queue t (enqueue t (price_of o) o (queue t a)) a))
      on bid bid h = IsSorted-enqueue bid (price_of o) o a.bids h
      on ask ask h = IsSorted-enqueue ask (price_of o) o a.asks h
      on bid ask h = h
      on ask bid h = h

  at_price-behind :
      (o : Order) (a : Market) (s : Side) (p : c.Num)
      → IsSorted s (queue s a)
      → at_price s p (queue s (behind o a)) ≡ at_price s p (queue s a) ++ level_of s p (o ∷ [])
  at_price-behind o a s p h = on s o.side h
    where
      on :
          (s t : Side)
          → IsSorted s (queue s a)
          → at_price s p (queue s (with_queue t (enqueue t (price_of o) o (queue t a)) a))
            ≡ at_price s p (queue s a) ++ pick (on_side s t (order_on s p (price_of o))) o []
      on bid bid h = at_price-enqueue bid p (price_of o) o a.bids h
      on ask ask h = at_price-enqueue ask p (price_of o) o a.asks h
      on bid ask h = sym (append-nil (at_price bid p a.bids))
      on ask bid h = sym (append-nil (at_price ask p a.asks))

  queued-IsSorted :
      (os : List Order) (a : Market) (s : Side)
      → IsSorted s (queue s a)
      → IsSorted s (queue s (queued a os))
  queued-IsSorted [] a s h = h
  queued-IsSorted (o ∷ os) a s h = queued-IsSorted os (behind o a) s (behind-IsSorted o a s h)

  at_price-queued :
      (os : List Order) (a : Market) (s : Side) (p : c.Num)
      → IsSorted s (queue s a)
      → at_price s p (queue s (queued a os)) ≡ at_price s p (queue s a) ++ level_of s p os
  at_price-queued [] a s p h = sym (append-nil (at_price s p (queue s a)))
  at_price-queued (o ∷ os) a s p h =
      at_price-queued os (behind o a) s p (behind-IsSorted o a s h)
      ∙ ap (λ xs. xs ++ level_of s p os) (at_price-behind o a s p h)
      ∙ append_assoc (at_price s p (queue s a)) (level_of s p (o ∷ [])) (level_of s p os)
      ∙ ap (◌++◌ (at_price s p (queue s a)))
          (sym (pick-append (on_side s o.side (order_on s p (price_of o))) o [] (level_of s p os)))

  -- The labels of a queue of resting orders are their prices.
  at_price-level_of :
      (s : Side) (p : c.Num) (es : Priced Order)
      → All (λ e. IsResting s e.0 e.1) es
      → at_price s p es ≡ level_of s p (orders_of es)
  at_price-level_of s p [] h = refl
  at_price-level_of s p ((q, o) ∷ es) h =
      ap (λ t. pick t o (at_price s p es)) (label h.0)
      ∙ ap (pick (on_side s o.side (order_on s p (price_of o))) o) (at_price-level_of s p es h.1)
    where
      with_side : (s t : Side) (r : Ordering) → t ≡ s → r ≡ on_side s t r
      with_side bid bid r e = refl
      with_side ask ask r e = refl
      with_side bid ask r e = absurd cc
      with_side ask bid r e = absurd cc

      label : IsResting s q o → order_on s p q ≡ on_side s o.side (order_on s p (price_of o))
      label r =
          order-SamePrice_right s p q (price_of o) (
            sym r.at_level
            ∙ ap (λ (l : Option c.Num). c.position (unwrap_or l c.zero)) (sym r.priced))
          ∙ with_side s o.side _ r.on_side

  queue-IsResting :
      (e : MatchingEngine) (a : Market) (s : Side)
      → Models e a
      → All (λ x. IsResting s x.0 x.1) (queue s a)
  queue-IsResting e a bid h = h.bids.resting
  queue-IsResting e a ask h = h.asks.resting

  empty-IsSorted : (s : Side) → IsSorted s (queue s empty_market)
  empty-IsSorted bid = tt
  empty-IsSorted ask = tt

  empty-at_price : (s : Side) (p : c.Num) → at_price s p (queue s empty_market) ≡ []
  empty-at_price bid p = refl
  empty-at_price ask p = refl

  restored_level :
      (os : List Order) (s : Side) (p : c.Num)
      → at_price s p (queue s (queued empty_market os)) ≡ level_of s p os
  restored_level os s p =
      at_price-queued os empty_market s p (empty-IsSorted s)
      ∙ ap (λ xs. xs ++ level_of s p os) (empty-at_price s p)

  -- At each price it holds the orders of the list, in their order.
  pub queued_levels :
      (e : MatchingEngine) (os : List Order) (s : Side) (p : c.Num)
      → Models e (queued empty_market os)
      → level_of s p (orders_of (queue s (queued empty_market os))) ≡ level_of s p os
  queued_levels e os s p stands =
      sym (
        at_price-level_of s p (queue s (queued empty_market os))
          (queue-IsResting e (queued empty_market os) s stands))
      ∙ restored_level os s p

  -- The queue that a list of orders makes is one that holds them in the same order at each price.
  pub queued_iff :
      (e e' : MatchingEngine) (a : Market) (s : Side) (os : List Order)
      → Models e a
      → Models e' (queued empty_market os)
      → (orders_of (queue s (queued empty_market os)) ≡ orders_of (queue s a))
        ↔ ((p : c.Num) → level_of s p os ≡ level_of s p (orders_of (queue s a)))
  queued_iff e e' a s os h h' = (
    λ same p.
        sym (restored_level os s p)
        ∙ at_price-level_of s p (queue s (queued empty_market os))
            (queue-IsResting e' (queued empty_market os) s h')
        ∙ ap (level_of s p) same,
    λ same.
        same_levels s (queue s (queued empty_market os)) (queue s a)
          (queue-IsSorted e' (queued empty_market os) s h') (queue-IsSorted e a s h)
          (λ p.
            restored_level os s p
            ∙ same p
            ∙ sym (at_price-level_of s p (queue s a) (queue-IsResting e a s h))),
  )

  module _ ⦃b : Postcard⦄ where
    -- The book of an engine that stands for a market, if it can be written, is read back as a
    -- book with which a fresh engine stands for a market in which, on each side, just the
    -- orders are queued that were queued before, and at each price the orders of the slab with
    -- that side and price, in the order in which it is walked; a side's queue is the one
    -- before, in price and in time, just where at each price that order is the queue's.
    pub deserialize_book-priority :
        (e : MatchingEngine) (a : Market) (market_id : String) (n : ℕ) (bytes : b.Bytes) (s : Side)
        → Models e a
        → serialize_book e.book market_id n ≡ ok bytes
        → (book : OrderBook) × (r : Market) × (deserialize_book bytes
            ≡ ok (book, snapshot_of e.book market_id n))
          × Models (record (new_engine market_id) { book = book }) r
          × All (λ y. IsQueued y.1 (queue s r)) (queue s a)
          × All (λ y. IsQueued y.1 (queue s a)) (queue s r)
          × ((p : c.Num)
              → level_of s p (orders_of (queue s r)) ≡ level_of s p (c.slab_values e.book.orders))
          × ((orders_of (queue s r) ≡ orders_of (queue s a)) ↔ (
              (p : c.Num)
              → level_of s p (c.slab_values e.book.orders) ≡ level_of s p (orders_of (queue s a))))
    deserialize_book-priority e a market_id n bytes s h run =
        let (book, read, stands, lost, added) =
          deserialize_book-serialize_book e a market_id n bytes s h run in
        let os = c.slab_values e.book.orders in
        let e' : MatchingEngine = record (new_engine market_id) { book = book } in
        (
          book,
          queued empty_market os,
          read,
          stands,
          lost,
          added,
          λ p. queued_levels e' os s p stands,
          queued_iff e e' a s os h stands,
        )
