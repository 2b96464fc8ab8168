-- ===== src/Engine/Snapshot.antt =====
-- snapshot.rs: `serialize_book` and `deserialize_book`.
pub mod Complete
pub mod Restore
pub mod Levels
pub mod Priority
pub mod Sound
use lmax_clob.Common.{
  ℕ, ◌≡◌, String, Option, none, some, List, [], ◌∷◌, map, unwrap_or, if◌then◌else◌,
}
use lmax_clob.Crates.{Crates}
use lmax_clob.Engine.Types.{
  Side, Order, OrderType, OrderStatus, is_complete, InsertError, Result, ok, err,
}
use lmax_clob.Engine.Book.{OrderBook, new_book, insert_order}

module _ ⦃c : Crates⦄ where
  pub record SnapshotOrder : Type 0 where
    pub id : c.Uuid
    pub market_id : String
    pub side : Side
    pub order_type : OrderType
    pub price : c.Num
    pub quantity : c.Num
    pub filled : c.Num
    pub status : OrderStatus
    pub sequence : ℕ

  pub record BookSnapshot : Type 0 where
    pub market_id : String
    pub sequence : ℕ
    pub orders : List SnapshotOrder

  -- `postcard` on snapshots: what it writes it reads back.
  pub record Postcard : Type 1 where
    pub Bytes : Type 0
    pub to_allocvec : BookSnapshot → Result c.PostcardError Bytes
    pub from_bytes : Bytes → Result c.PostcardError BookSnapshot
    pub from_bytes_lem : (s : BookSnapshot) (b : Bytes) → to_allocvec s ≡ ok b → from_bytes b ≡ ok s

  -- `price.unwrap_or_default()`: the default of `Decimal` is zero.
  unfoldable pub snapshot_order : Order → SnapshotOrder
  snapshot_order o = record {
    id = o.id;
    market_id = o.market_id;
    side = o.side;
    order_type = o.order_type;
    price = unwrap_or o.price c.zero;
    quantity = o.quantity;
    filled = o.filled;
    status = o.status;
    sequence = o.sequence;
  }

  abbrev pub snapshot_of : OrderBook → String → ℕ → BookSnapshot
  snapshot_of b market_id sequence = record {
    market_id = market_id;
    sequence = sequence;
    orders = map snapshot_order (c.slab_values b.orders);
  }

  unfoldable pub restored_order : SnapshotOrder → Order
  restored_order s = record {
    id = s.id;
    market_id = s.market_id;
    side = s.side;
    order_type = s.order_type;
    price = some s.price;
    quantity = s.quantity;
    filled = s.filled;
    status = s.status;
    sequence = s.sequence;
  }

  -- `let _ = book.insert_order(order)`: a refused order changes nothing.
  abbrev pub after_restore : OrderBook → Result InsertError (OrderBook × ℕ) → OrderBook
  after_restore b (ok (b', key)) = b'
  after_restore b (err e) = b

  unfoldable pub restore_order : OrderBook → Order → OrderBook
  restore_order b o = if is_complete o then b else after_restore b (insert_order b o)

  unfoldable pub restore_orders : OrderBook → List SnapshotOrder → OrderBook
  restore_orders b [] = b
  restore_orders b (s ∷ ss) = restore_orders (restore_order b (restored_order s)) ss

  module _ ⦃p : Postcard⦄ where
    unfoldable pub serialize_book : OrderBook → String → ℕ → Result c.PostcardError p.Bytes
    serialize_book b market_id sequence = p.to_allocvec (snapshot_of b market_id sequence)

    unfoldable pub deserialize_book : p.Bytes → Result c.PostcardError (OrderBook × BookSnapshot)
    deserialize_book bytes = elim (p.from_bytes bytes) [
      | ok s ↦ ok (restore_orders new_book s.orders, s)
      | err e ↦ err e
    ]
