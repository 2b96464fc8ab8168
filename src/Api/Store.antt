-- ===== src/Api/Store.antt =====
-- persistence/snapshot.rs and persistence/orders.rs, and the route that reads an order back. A table
-- is a function of its key: what `ON CONFLICT` does is written out, and the statements succeed.
use mathlib.Core.Option
use lmax_clob.Common.{
  ℕ, ◌+◌, ◌≡◌, ◌≢◌, refl, Bool, true, inl, inr, String, Option, none, some, same_text,
  same_text_iff, if◌then◌else◌, Bool-cases,
}
use lmax_clob.Crates.{Crates}
use lmax_clob.Engine.Types.{Side, bid, ask, Order, OrderStatus, Result, ok, err}
use lmax_clob.Engine.Book.{OrderBook}
use lmax_clob.Engine.Snapshot.{
  BookSnapshot, Postcard, serialize_book, deserialize_book, snapshot_of,
}
use lmax_clob.Api.Fills.Rows.{as_i64}
use lmax_clob.Api.Consumer.{start_offset}

module _ ⦃c : Crates⦄ where
  module _ ⦃p : Postcard⦄ where
    -- A row of `snapshots`.
    pub record SnapshotRow : Type 0 where
      pub sequence : ℕ
      pub state : p.Bytes
      pub kafka_offset : ℕ

    abbrev pub SnapshotTable : Type 0
    SnapshotTable = String → Option SnapshotRow

    -- One row for each market: a later save takes the place of the earlier.
    unfoldable pub save_raw : String → p.Bytes → ℕ → ℕ → SnapshotTable → SnapshotTable
    save_raw market_id payload kafka_offset sequence t m =
        if same_text market_id m
        then some (record { sequence = sequence; state = payload; kafka_offset = kafka_offset })
        else t m

    load_row : Option SnapshotRow → Result c.PostcardError (Option (BookSnapshot × ℕ))
    load_row none = ok none
    load_row (some r) = elim (deserialize_book r.state) [
      | ok (book, snapshot) ↦ ok (some (snapshot, r.kafka_offset))
      | err e ↦ err e
    ]

    unfoldable pub load :
        String → SnapshotTable → Result c.PostcardError (Option (BookSnapshot × ℕ))
    unfolding load_row
    load market_id t = load_row (t market_id)

    same_text_refl : (s : String) → same_text s s ≡ true
    same_text_refl s = (same_text_iff s s).1 refl

    pub load-save_raw :
        (market_id other : String) (b : OrderBook) (name : String) (n offset : ℕ) (bytes : p.Bytes)
        (t : SnapshotTable)
        → serialize_book b name n ≡ ok bytes
        → market_id ≢ other
        → (load market_id (save_raw market_id bytes offset n t)
            ≡ ok (some (snapshot_of b name n, offset)))
          × (start_offset (some (snapshot_of b name n, offset)) ≡ offset + 1)
          × (load other (save_raw market_id bytes offset n t) ≡ load other t)
    unfolding load load_row save_raw serialize_book deserialize_book
    load-save_raw market_id other b name n offset bytes t written differs = (
      rw (same_text_refl market_id)
          (rw (load_row, p.from_bytes_lem _ bytes written, deserialize_book)),
      refl,
      elim (Bool-cases (same_text market_id other)) [
        | inl same ↦ absurd (differs ((same_text_iff market_id other).0 same))
        | inr apart ↦ rw apart
      ],
    )

  -- A row of `orders`.
  pub record OrderRow : Type 0 where
    pub market_id : String
    pub side : String
    pub price : Option c.Num
    pub quantity : c.Num
    pub status : String
    pub sequence : Bool × ℕ

  abbrev pub OrderTable : Type 0
  OrderTable = c.Uuid → Option OrderRow

  -- `format!("{:?}", side).to_lowercase()`
  abbrev pub side_text : Side → String
  side_text bid = "bid"
  side_text ask = "ask"

  abbrev pub status_text : OrderStatus → String
  status_text OrderStatus.open_order = "open"
  status_text OrderStatus.partially_filled = "partiallyfilled"
  status_text OrderStatus.filled = "filled"
  status_text OrderStatus.cancelled = "cancelled"

  -- `numeric` is what a column `NUMERIC(20, 8)` keeps of a decimal: it rounds to eight places.
  module _ (numeric : c.Num → c.Num) where
    abbrev pub row_of : Order → OrderRow
    row_of o = record {
      market_id = o.market_id;
      side = side_text o.side;
      price = Option.map numeric o.price;
      quantity = numeric o.quantity;
      status = status_text o.status;
      sequence = as_i64 o.sequence;
    }

    -- On a conflict only the status is written.
    abbrev upsert_row : Order → Option OrderRow → OrderRow
    upsert_row o none = row_of o
    upsert_row o (some r) = record r { status = status_text o.status }

    unfoldable pub upsert : Order → OrderTable → OrderTable
    upsert o t id = if c.uuid_eq o.id id then some (upsert_row o (t id)) else t id

  -- The status code and the row that `get_order` answers with.
  unfoldable pub read_order : c.Uuid → OrderTable → ℕ × Option OrderRow
  read_order id t = elim (t id) [ none ↦ (404, none) | some r ↦ (200, some r) ]
