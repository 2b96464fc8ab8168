-- ===== src/Engine/Matching.antt =====
-- matching.rs: `MatchingEngine`. The source's `loop`s take fuel here, and `none` means that it ran
-- out (Refine/Sweep is about the fuel).
use lmax_clob.Common.{
  ℕ, zero, suc, Bool, Option, none, some, List, [], ◌∷◌, ◌++◌, String, if◌then◌else◌,
}
use lmax_clob.Crates.{Crates}
use lmax_clob.Crates.Decimal.{leq, less}
use lmax_clob.Engine.Types.{
  Side, bid, ask, Order, OrderType, OrderStatus, remaining, Fill, next_u64,
}
use lmax_clob.Engine.Book.{
  OrderBook, new_book, best_bid, best_ask, best_bid_front, best_ask_front, pop_front, get_order,
  set_order,
}

abbrev pub opposite : Side → Side
opposite bid = ask
opposite ask = bid

module _ ⦃c : Crates⦄ where
  pub record MatchingEngine : Type 0 where
    pub book : OrderBook
    pub market_id : String
    pub sequence : ℕ

  abbrev pub new_engine : String → MatchingEngine
  new_engine market_id = record { book = new_book; market_id = market_id; sequence = 0 }

  unfoldable pub next_sequence : MatchingEngine → MatchingEngine × ℕ
  next_sequence e = (record e { sequence = next_u64 e.sequence }, next_u64 e.sequence)

  -- `remaining() <= Decimal::ZERO`
  abbrev pub is_spent : Order → Bool
  is_spent o = leq (remaining o) c.zero

  -- `filled += quantity`, and the status that follows.
  unfoldable pub add_fill : Order → c.Num → Order
  add_fill o q =
      let o' = record o { filled = c.add o.filled q } in
      record o' {
        status = if is_spent o' then OrderStatus.filled else OrderStatus.partially_filled;
      }

  -- The last step of `execute_fill`: a maker that is spent leaves the book.
  settle_maker : MatchingEngine → Side → ℕ → c.Num → MatchingEngine
  settle_maker e taker_side maker_key maker_price = elim (get_order e.book maker_key) [
    | none ↦ e
    | some o ↦
        if is_spent o
        then record e { book = pop_front e.book (opposite taker_side) maker_price }
        else e
  ]

  -- The state that a loop carries: the engine, the taker and the fills so far.
  pub record Matching : Type 0 where
    pub engine : MatchingEngine
    pub taker : Order
    pub fills : List Fill

  fill_maker : Matching → ℕ → c.Num → Order → c.Num → Matching
  unfolding settle_maker
  fill_maker m maker_key maker_price maker fill_qty =
      let seq = next_u64 m.engine.sequence in
      let maker' = add_fill maker fill_qty in
      let engine' = record m.engine {
        book = set_order m.engine.book maker_key maker';
        sequence = seq;
      } in
      record {
        engine = settle_maker engine' m.taker.side maker_key maker_price;
        taker = add_fill m.taker fill_qty;
        fills =
            m.fills
            ++ record {
              maker_order_id = maker.id;
              taker_order_id = m.taker.id;
              price = maker_price;
              quantity = fill_qty;
              sequence = seq;
            }
              ∷ [];
      }

  unfoldable pub execute_fill : Matching → ℕ → c.Num → Matching
  unfolding fill_maker
  execute_fill m maker_key maker_price = elim (get_order m.engine.book maker_key) [
    | none ↦ m
    | some maker ↦
        let fill_qty = c.min (remaining m.taker) (remaining maker) in
        if leq fill_qty c.zero then m else fill_maker m maker_key maker_price maker fill_qty
  ]

  abbrev or_default : Option c.Num → c.Num → c.Num
  or_default none d = d
  or_default (some p) d = p

  abbrev paired : Option ℕ → c.Num → Option (ℕ × c.Num)
  paired none p = none
  paired (some k) p = some (k, p)

  -- The maker that a round of `match_against_book` picks, or `none` where it breaks.
  limit_maker : OrderBook → Order → Side → Option (ℕ × c.Num)
  limit_maker b taker bid = elim (best_ask b) [
    | none ↦ none
    | some price ↦
        if less (or_default taker.price c.zero) price then none else paired (best_ask_front b) price
  ]
  limit_maker b taker ask = elim (best_bid b) [
    | none ↦ none
    | some price ↦
        if less price (or_default taker.price c.max_value)
        then none
        else paired (best_bid_front b) price
  ]

  -- The same for `sweep_book`, which looks at no price.
  market_maker : OrderBook → Order → Side → Option (ℕ × c.Num)
  market_maker b taker bid = elim (best_ask_front b) [
    | none ↦ none
    | some k ↦ some (k, or_default (best_ask b) c.zero)
  ]
  market_maker b taker ask = elim (best_bid_front b) [
    | none ↦ none
    | some k ↦ some (k, or_default (best_bid b) c.zero)
  ]

  unfoldable pub pick_maker : OrderType → OrderBook → Order → Option (ℕ × c.Num)
  unfolding limit_maker market_maker
  pick_maker OrderType.limit b taker = limit_maker b taker taker.side
  pick_maker OrderType.market b taker = market_maker b taker taker.side

  -- `match_against_book` at `limit`, `sweep_book` at `market`.
  unfoldable pub match_loop : OrderType → ℕ → Matching → Option Matching
  match_loop kind zero m = none
  match_loop kind (suc fuel) m =
      let round : Option Matching = elim (pick_maker kind m.engine.book m.taker) [
        | none ↦ some m
        | some (key, price) ↦ match_loop kind fuel (execute_fill m key price)
      ] in
      if is_spent m.taker then some m else round
