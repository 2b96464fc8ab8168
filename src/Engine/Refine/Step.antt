-- ===== src/Engine/Refine/Step.antt =====
-- One round of a matching loop: which maker it picks, and what `execute_fill` does to the book.
use lmax_clob.Common.{ℕ, ◌≡◌, false, none, some, List, [], ◌∷◌, ◌++◌, arith, if◌then◌else◌}
use lmax_clob.Crates.{Crates}
use lmax_clob.Crates.Decimal.{leq}
use lmax_clob.Engine.Types.{Side, bid, ask, Order, OrderType, remaining, next_u64}
use lmax_clob.Engine.Levels.{Levels, level_at, write_level, keep_level, first_price}
use lmax_clob.Engine.Book.{
  OrderBook, levels, index_put, best_bid, best_ask, best_bid_front, best_ask_front, pop_front,
  get_order, set_order,
}
use lmax_clob.Engine.Matching.{
  MatchingEngine, Matching, opposite, is_spent, add_fill, execute_fill, pick_maker,
}
use lmax_clob.Engine.Spec.{accepts, fill_of}
use lmax_clob.Engine.Refine.Order.{order_refl}
use lmax_clob.Engine.Refine.Holds.{get-set_self}

module _ ⦃c : Crates⦄ where
  -- No maker where the other side is empty.
  pub pick_maker-empty :
      (kind : OrderType) (b : OrderBook) (t : Order)
      → levels (opposite t.side) b ≡ []
      → pick_maker kind b t ≡ none
  unfolding pick_maker best_bid best_ask best_bid_front best_ask_front first_price level_at
  pick_maker-empty kind b t h = ground arith

  -- The front of the best level otherwise, if its price is accepted.
  pub pick_maker-head :
      (kind : OrderType) (b : OrderBook) (t : Order) (p : c.Num) (k : ℕ) (ks : List ℕ) (ls : Levels)
      → levels (opposite t.side) b ≡ (p, k ∷ ks) ∷ ls
      → pick_maker kind b t ≡ (if accepts kind t p then some (k, p) else none)
  unfolding pick_maker best_bid best_ask best_bid_front best_ask_front first_price level_at
  pick_maker-head kind b t p k ks ls h = ground (arith, order_refl bid p, order_refl ask p)

  module _ (b : OrderBook) (s : Side) (p : c.Num) (k : ℕ) (ks : List ℕ) (ls : Levels) (o : Order)
      (best : levels s b ≡ (p, k ∷ ks) ∷ ls) (held : c.slab_get b.orders k ≡ some o) where
    pub levels-pop_front : levels s (pop_front b s p) ≡ keep_level p ks ls
    unfolding pop_front level_at write_level
    levels-pop_front = ground (arith, order_refl bid p, order_refl ask p)

    pub levels-pop_front-opposite : levels (opposite s) (pop_front b s p) ≡ levels (opposite s) b
    unfolding pop_front level_at
    levels-pop_front-opposite = ground (arith, order_refl bid p, order_refl ask p)

    pub orders-pop_front : (pop_front b s p).orders ≡ c.slab_remove b.orders k
    unfolding pop_front level_at
    orders-pop_front = ground (arith, order_refl bid p, order_refl ask p)

    pub index-pop_front : (pop_front b s p).index ≡ index_put o.id none b.index
    unfolding pop_front level_at
    index-pop_front = ground (arith, order_refl bid p, order_refl ask p)

  -- The engine once maker and taker have traded, before the maker may leave.
  abbrev pub filled_engine : Matching → ℕ → Order → c.Num → MatchingEngine
  filled_engine m k o q = record m.engine {
    book = record m.engine.book { orders = c.slab_set m.engine.book.orders k (add_fill o q) };
    sequence = next_u64 m.engine.sequence;
  }

  abbrev pub settled_engine : Matching → ℕ → c.Num → Order → c.Num → MatchingEngine
  settled_engine m k p o q =
      if is_spent (add_fill o q)
      then record (filled_engine m k o q) {
        book = pop_front (filled_engine m k o q).book (opposite m.taker.side) p;
      }
      else filled_engine m k o q

  pub execute_fill_lem :
      (m : Matching) (k : ℕ) (p : c.Num) (o : Order)
      → c.slab_get m.engine.book.orders k ≡ some o
      → leq (c.min (remaining m.taker) (remaining o)) c.zero ≡ false
      → execute_fill m k p ≡ record {
        engine = settled_engine m k p o (c.min (remaining m.taker) (remaining o));
        taker = add_fill m.taker (c.min (remaining m.taker) (remaining o));
        fills = m.fills ++ fill_of p o m.taker (next_u64 m.engine.sequence) ∷ [];
      }
  unfolding execute_fill get_order set_order
  execute_fill_lem m k p o held live = ground (
    arith,
    get-set_self m.engine.book.orders k (add_fill o (c.min (remaining m.taker) (remaining o))) o
        held,
  )
