-- ===== src/Engine/Spec.antt =====
-- What the matching engine promises: a market is two lists of resting orders in price-time
-- priority, each under the price of its level, and an order is matched against the head of the
-- other side until it is spent or meets a price that it does not accept. No slab, no levels, no
-- index.
use lmax_clob.Common.{
  ℕ, Ordering, Bool, true, ◌||◌, not, Option, none, some, List, [], ◌∷◌, if◌then◌else◌,
}
use lmax_clob.Crates.{Crates}
use lmax_clob.Crates.Decimal.{leq, less}
use lmax_clob.Engine.Types.{
  Side, bid, ask, Order, OrderType, remaining, Fill, ProcessResult, EngineError, Result, ok, err,
  next_u64,
}
use lmax_clob.Engine.Levels.{order_on}
use lmax_clob.Engine.Matching.{is_spent, add_fill, opposite}

module _ ⦃c : Crates⦄ where
  abbrev pub Priced {ℓ} : Type ℓ → Type ℓ
  Priced A = List (c.Num × A)

  -- Behind everything at the same price or a better one, under the price of its level.
  unfoldable pub enqueue {ℓ} : {A : Type ℓ} → Side → c.Num → A → Priced A → Priced A
  enqueue s p a [] = (p, a) ∷ []
  enqueue s p a ((q, x) ∷ es) = elim (order_on s p q) [
    | Ordering.lt ↦ (p, a) ∷ (q, x) ∷ es
    | Ordering.eq ↦ (q, x) ∷ enqueue s q a es
    | Ordering.gt ↦ (q, x) ∷ enqueue s p a es
  ]

  -- Whether an order of this kind trades at this price.
  abbrev pub accepts_limit : Side → Option c.Num → c.Num → Bool
  accepts_limit bid none p = not (less c.zero p)
  accepts_limit bid (some l) p = not (less l p)
  accepts_limit ask none p = not (less p c.max_value)
  accepts_limit ask (some l) p = not (less p l)

  abbrev pub accepts : OrderType → Order → c.Num → Bool
  accepts OrderType.limit t p = accepts_limit t.side t.price p
  accepts OrderType.market t p = true

  pub record Swept : Type 0 where
    pub fills : List Fill
    pub taker : Order
    pub rest : Priced Order
    pub sequence : ℕ

  -- Maker and taker trade all that both have left.
  abbrev pub fill_of : c.Num → Order → Order → ℕ → Fill
  fill_of p maker taker seq = record {
    maker_order_id = maker.id;
    taker_order_id = taker.id;
    price = p;
    quantity = c.min (remaining taker) (remaining maker);
    sequence = seq;
  }

  unfoldable pub sweep : OrderType → ℕ → Order → Priced Order → Swept
  sweep kind n t [] = record { fills = []; taker = t; rest = []; sequence = n }
  sweep kind n t ((p, m) ∷ es) =
      let q = c.min (remaining t) (remaining m) in
      let t' = add_fill t q in
      let m' = add_fill m q in
      let f = fill_of p m t (next_u64 n) in
      let later = sweep kind (next_u64 n) t' es in
      if is_spent t || not (accepts kind t p)
      then record { fills = []; taker = t; rest = (p, m) ∷ es; sequence = n }
      else if is_spent m'
      then record later { fills = f ∷ later.fills }
      else record { fills = f ∷ []; taker = t'; rest = (p, m') ∷ es; sequence = next_u64 n }

  pub record Market : Type 0 where
    pub bids : Priced Order
    pub asks : Priced Order
    pub sequence : ℕ

  abbrev pub queue : Side → Market → Priced Order
  queue bid a = a.bids
  queue ask a = a.asks

  abbrev pub with_queue : Side → Priced Order → Market → Market
  with_queue bid es a = record a { bids = es }
  with_queue ask es a = record a { asks = es }

  abbrev pub Outcome : Type 0
  Outcome = Market × Result EngineError ProcessResult

  unfoldable pub after_sweep : Side → Market → Swept → Market
  after_sweep s a w = record (with_queue (opposite s) w.rest a) { sequence = w.sequence }

  -- The reply to a limit order of which something is left.
  unfoldable pub rest_reply : List Fill → ProcessResult
  rest_reply [] = ProcessResult.resting
  rest_reply (f ∷ fs) = ProcessResult.fills (f ∷ fs)

  pub rest_at : Option c.Num → Market → Order → List Fill → Outcome
  unfolding rest_reply
  rest_at none a t fs = (a, err EngineError.invalid_quantity)
  rest_at (some p) a t fs =
      (with_queue t.side (enqueue t.side p t (queue t.side a)) a, ok (rest_reply fs))

  -- What is left of a limit order rests at its price; of a market order it is dropped.
  unfoldable pub settle : OrderType → Market → Order → List Fill → Outcome
  unfolding rest_at
  settle OrderType.market a t fs = (a, ok (ProcessResult.fills fs))
  settle OrderType.limit a t fs =
      if is_spent t then (a, ok (ProcessResult.fills fs)) else rest_at t.price a t fs

  unfoldable pub place_as : OrderType → Market → Order → Outcome
  unfolding settle after_sweep
  place_as kind a o =
      let w = sweep kind a.sequence o (queue (opposite o.side) a) in
      if leq o.quantity c.zero
      then (a, err EngineError.invalid_quantity)
      else settle kind (after_sweep o.side a w) w.taker w.fills

  abbrev pub place : Market → Order → Outcome
  place a o = place_as o.order_type a o
