-- ===== src/Engine/Snapshot/Restore.antt =====
-- A restored book, beside the market of its orders.
use lmax_clob.Common.{
  All-zip, ℕ, ◌≡◌, refl, sym, ap, ◌∙◌, subst, false, String, some, List, [], ◌∷◌, map, All, All-imp,
  unwrap_or, inl, inr, arith,
}
use lmax_clob.Crates.{Crates}
use lmax_clob.Crates.Decimal.{leq, leq_cases}
use lmax_clob.Engine.Types.{Side, Order, ok}
use lmax_clob.Engine.Book.{OrderBook}
use lmax_clob.Engine.Matching.{MatchingEngine, new_engine}
use lmax_clob.Engine.Spec.{Market, queue, with_queue, enqueue}
use lmax_clob.Engine.Refine.Holds.{IsResting}
use lmax_clob.Engine.Refine.Insert.{linked, insert_order-linked}
use lmax_clob.Engine.Refine.Models.{Models, empty_market, linked-Models, new_engine-Models}
use lmax_clob.Engine.Refine.Cancel.{slab-IsResting}
use lmax_clob.Engine.Types.{bid, ask}
use lmax_clob.Engine.Levels.Flat.{flatten}
use lmax_clob.Engine.Snapshot.Complete.{behind, queued, IsQueued, queued-IsQueued, Resolves-held}
use lmax_clob.Engine.Snapshot.Sound.{none_added}
use lmax_clob.Engine.Snapshot.{
  Postcard, snapshot_order, snapshot_of, restored_order, restore_order, restore_orders,
  serialize_book, deserialize_book,
}

module _ ⦃c : Crates⦄ where
  -- An order that rests in a book.
  abbrev pub Rests : Order → Type 0
  Rests o = (l : c.Num) × (o.price ≡ some l) × IsResting o.side l o

  restored-same : (o : Order) → Rests o → restored_order (snapshot_order o) ≡ o
  unfolding restored_order snapshot_order
  restored-same o r =
      ap (λ p. record o { price = p }) (ap (λ p. some (unwrap_or p c.zero)) r.1 ∙ sym r.1)

  IsResting-quantity :
      (s : Side) (l : c.Num) (o : Order) → IsResting s l o → leq o.quantity c.zero ≡ false
  IsResting-quantity s l o r = elim (leq_cases o.quantity c.zero) [
    | inl (e, le) ↦ absurd (omega (arith, r.live.0.not_negative, r.live.1))
    | inr (e, lt) ↦ e
  ]

  restored_book :
      (b : OrderBook) (o : Order) (r : Rests o) → restore_order b o ≡ linked o.side b o r.0
  unfolding restore_order
  restored_book b o r = rw (
    r.2.incomplete,
    insert_order-linked o.side b o r.0 refl r.1 (IsResting-quantity o.side r.0 o r.2),
  )

  restore_order-Models :
      (e : MatchingEngine) (a : Market) (o : Order)
      → Models e a
      → Rests o
      → Models (record e { book = restore_order e.book o }) (behind o a)
  restore_order-Models e a o h r =
      subst (λ b. Models (record e { book = b }) (behind o a)) (sym (restored_book e.book o r))
        (subst
          (λ l.
            Models (record e { book = linked o.side e.book o r.0 })
              (with_queue o.side (enqueue o.side l o (queue o.side a)) a))
          (sym (ap (λ p. unwrap_or p c.zero) r.1)) (linked-Models o.side e a o r.0 h r.2))

  restore_orders-Models :
      (e : MatchingEngine) (a : Market) (os : List Order)
      → Models e a
      → All Rests os
      → Models (record e { book = restore_orders e.book (map snapshot_order os) }) (queued a os)
  unfolding restore_orders
  restore_orders-Models e a [] h r = h
  restore_orders-Models e a (o ∷ os) h r =
      rw (restore_orders, restored-same o r.0)
        (restore_orders-Models (record e { book = restore_order e.book o }) _ os
          (restore_order-Models e a o h r.0) r.1)

  queue-held :
      (e : MatchingEngine) (a : Market) (s : Side)
      → Models e a
      → All (λ x. (x.1.side ≡ s) × ((k : ℕ) × (c.slab_get e.book.orders k ≡ some x.1))) (queue s a)
  queue-held e a bid h =
      All-zip (λ x r held. (r.on_side, held)) a.bids h.bids.resting
        (Resolves-held e.book.orders (flatten e.book.bids) a.bids h.bids.resolves)
  queue-held e a ask h =
      All-zip (λ x r held. (r.on_side, held)) a.asks h.asks.resting
        (Resolves-held e.book.orders (flatten e.book.asks) a.asks h.asks.resolves)

  none_lost :
      (e : MatchingEngine) (a : Market) (s : Side)
      → Models e a
      → All
          (λ x. IsQueued x.1 (queue s (queued empty_market (c.slab_values e.book.orders))))
          (queue s a)
  none_lost e a s h =
      All-imp
        (λ x held.
          subst (λ t. IsQueued x.1 (queue t (queued empty_market (c.slab_values e.book.orders))))
            held.0
            (queued-IsQueued (c.slab_values e.book.orders) x.1 empty_market
              (c.values-complete e.book.orders held.1.0 x.1 held.1.1)))
        (queue s a) (queue-held e a s h)

  module _ ⦃p : Postcard⦄ where
    -- The book of an engine that stands for a market, if it can be written, is read back as a
    -- book with which a fresh engine stands for the market of the orders in the slab, queued in
    -- the order of their keys; and on each side just the orders are queued that were queued on
    -- it before.
    pub deserialize_book-serialize_book :
        (e : MatchingEngine) (a : Market) (market_id : String) (n : ℕ) (bytes : p.Bytes) (s : Side)
        → Models e a
        → serialize_book e.book market_id n ≡ ok bytes
        → (b : OrderBook) × (deserialize_book bytes ≡ ok (b, snapshot_of e.book market_id n))
          × Models
              (record (new_engine market_id) { book = b })
              (queued empty_market (c.slab_values e.book.orders))
          × All
              (λ x. IsQueued x.1 (queue s (queued empty_market (c.slab_values e.book.orders))))
              (queue s a)
          × All
              (λ x. IsQueued x.1 (queue s a))
              (queue s (queued empty_market (c.slab_values e.book.orders)))
    unfolding serialize_book deserialize_book
    deserialize_book-serialize_book e a market_id n bytes s h run = (
      _,
      rw (p.from_bytes_lem _ bytes run, deserialize_book),
      restore_orders-Models (new_engine market_id) empty_market (c.slab_values e.book.orders)
          (new_engine-Models market_id)
          (All-imp (λ o held. slab-IsResting e a h held.0 o held.1) _
            (c.values-held e.book.orders)),
      none_lost e a s h,
      none_added e a s h,
    )
