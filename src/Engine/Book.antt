-- ===== src/Engine/Book.antt =====
-- orderbook.rs: `OrderBook` and its methods. The `HashMap` from order ids to slab keys is a
-- function.
use lmax_clob.Common.{ℕ, Option, none, some, List, [], ◌∷◌, length, if◌then◌else◌}
use lmax_clob.Crates.{Crates}
use lmax_clob.Crates.Decimal.{leq}
use lmax_clob.Engine.Types.{
  Side, bid, ask, Order, OrderStatus, is_complete, InsertError, CancelError, Result, ok, err,
}
use lmax_clob.Engine.Levels.{Levels, push_back, level_at, write_level, first_price, retain}

module _ ⦃c : Crates⦄ where
  pub record OrderBook : Type 0 where
    pub orders : c.Slab Order
    pub index : c.Uuid → Option ℕ
    pub bids : Levels
    pub asks : Levels

  abbrev pub new_book : OrderBook
  new_book = record { orders = c.slab_new; index = λ _. none; bids = []; asks = [] }

  abbrev pub levels : Side → OrderBook → Levels
  levels bid b = b.bids
  levels ask b = b.asks

  abbrev pub with_levels : Side → Levels → OrderBook → OrderBook
  with_levels bid ls b = record b { bids = ls }
  with_levels ask ls b = record b { asks = ls }

  -- `index.insert(id, key)` and `index.remove(&id)`
  abbrev pub index_put : c.Uuid → Option ℕ → (c.Uuid → Option ℕ) → c.Uuid → Option ℕ
  index_put id v f j = if c.uuid_eq id j then v else f j

  link_order : c.Num → Order → OrderBook → ℕ × c.Slab Order → OrderBook × ℕ
  link_order price o b (key, slab) = (
    with_levels o.side (push_back o.side price key (levels o.side b))
        (record b { orders = slab; index = index_put o.id (some key) b.index }),
    key,
  )

  insert_priced : OrderBook → Order → Option c.Num → Result InsertError (OrderBook × ℕ)
  unfolding link_order
  insert_priced b o none = err InsertError.market_order_not_allowed
  insert_priced b o (some price) =
      if leq o.quantity c.zero
      then err InsertError.invalid_quantity
      else ok (link_order price o b (c.slab_insert b.orders o))

  unfoldable pub insert_order : OrderBook → Order → Result InsertError (OrderBook × ℕ)
  unfolding insert_priced
  insert_order b o = insert_priced b o o.price

  -- The level that held the order, without it. An absent level stays absent.
  unfoldable pub unlink : Side → c.Num → ℕ → OrderBook → OrderBook
  unlink s price key b = elim (level_at s price (levels s b)) [
    | none ↦ b
    | some level ↦ with_levels s (write_level s price (retain key level) (levels s b)) b
  ]

  unfoldable pub cancel_live :
      OrderBook → c.Uuid → ℕ → Order → Option c.Num → Result CancelError OrderBook
  cancel_live b id key o none = err (CancelError.not_found id)
  cancel_live b id key o (some price) =
      let b' = unlink o.side price key b in
      ok (record b' {
        orders =
            c.slab_remove (c.slab_set b'.orders key (record o { status = OrderStatus.cancelled }))
              key;
        index = index_put id none b'.index;
      })

  cancel_at : OrderBook → c.Uuid → ℕ → Option Order → Option (Result CancelError OrderBook)
  cancel_at b id key none = none
  cancel_at b id key (some o) = some (
      if is_complete o
      then err (CancelError.already_complete id)
      else cancel_live b id key o o.price)

  -- `none` is the panic of `self.orders[key]` at a vacant key.
  unfoldable pub cancel_order : OrderBook → c.Uuid → Option (Result CancelError OrderBook)
  unfolding cancel_at
  cancel_order b id = elim (b.index id) [
    | none ↦ some (err (CancelError.not_found id))
    | some key ↦ cancel_at b id key (c.slab_get b.orders key)
  ]

  unfoldable pub best_bid : OrderBook → Option c.Num
  best_bid b = first_price b.bids

  unfoldable pub best_ask : OrderBook → Option c.Num
  best_ask b = first_price b.asks

  unfoldable pub level_length : Option (List ℕ) → ℕ
  level_length none = 0
  level_length (some level) = length level

  unfoldable pub level_depth : OrderBook → Side → c.Num → ℕ
  unfolding level_length
  level_depth b bid price = level_length (level_at bid price b.bids)
  level_depth b ask price = level_length (level_at ask price b.asks)

  -- `front().copied()`
  abbrev pub front : List ℕ → Option ℕ
  front [] = none
  front (k ∷ ks) = some k

  unfoldable pub best_bid_front : OrderBook → Option ℕ
  best_bid_front b = elim (best_bid b) [
    | none ↦ none
    | some price ↦ elim (level_at bid price b.bids) [ none ↦ none | some level ↦ front level ]
  ]

  unfoldable pub best_ask_front : OrderBook → Option ℕ
  best_ask_front b = elim (best_ask b) [
    | none ↦ none
    | some price ↦ elim (level_at ask price b.asks) [ none ↦ none | some level ↦ front level ]
  ]

  -- `orders.try_remove(key)`, and the index entry of what it returns.
  drop_order : ℕ → OrderBook → OrderBook
  drop_order key b = elim (c.slab_get b.orders key) [
    | none ↦ b
    | some o ↦ record b { orders = c.slab_remove b.orders key; index = index_put o.id none b.index }
  ]

  pop_level : Side → c.Num → List ℕ → OrderBook → OrderBook
  unfolding drop_order
  pop_level s price [] b = with_levels s (write_level s price [] (levels s b)) b
  pop_level s price (key ∷ rest) b =
      drop_order key (with_levels s (write_level s price rest (levels s b)) b)

  unfoldable pub pop_front : OrderBook → Side → c.Num → OrderBook
  unfolding pop_level
  pop_front b s price = elim (level_at s price (levels s b)) [
    | none ↦ b
    | some level ↦ pop_level s price level b
  ]

  unfoldable pub get_order : OrderBook → ℕ → Option Order
  get_order b key = c.slab_get b.orders key

  -- A write through `get_order_mut`.
  unfoldable pub set_order : OrderBook → ℕ → Order → OrderBook
  set_order b key o = record b { orders = c.slab_set b.orders key o }
