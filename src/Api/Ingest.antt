-- ===== src/Api/Ingest.antt =====
-- ingest/processor.rs and ingest/yellowstone.rs: orders made of the updates of the Yellowstone
-- stream. The counter of `map_update_to_order` is a static, passed along here.
use lmax_clob.Common.{
  ℕ, ◌%◌, ◌<◌, ◌≡◌, ◌≢◌, refl, Bool, true, false, Option, none, some, List, [], ◌∷◌, ◌==◌, All,
  arith, unwrap_or, if◌then◌else◌, inl, inr,
}
use lmax_clob.Crates.{Crates}
use lmax_clob.Crates.Decimal.{leq, leq_cases}
use lmax_clob.Engine.Types.{
  Result, ok, err, Side, bid, ask, Order, OrderType, OrderStatus, is_complete, next_u64,
}
use lmax_clob.Engine.Refine.Models.{IsAcceptable}

-- The time of an update, whose nanoseconds are never negative.
pub record SubscribeUpdate : Type 0 where
  pub created_at : Option ℕ

pub data IngestError : Type 0 where
  invalid_endpoint not_connected subscribe_failed : IngestError

module _ ⦃c : Crates⦄ where
  -- Bids at 101 and asks at 100 take turns.
  abbrev pub side_and_price : ℕ → Side × c.Num
  side_and_price seq = if seq % 2 == 0 then (bid, c.whole 101) else (ask, c.whole 100)

  -- `seq` is what `COUNTER.fetch_add` gives, and `id` the fresh `Uuid`.
  unfoldable pub map_update_to_order : ℕ → c.Uuid → SubscribeUpdate → Order
  map_update_to_order seq id update = record {
    id = id;
    market_id = "SOL/USDC";
    side = (side_and_price seq).0;
    order_type = OrderType.limit;
    price = some (side_and_price seq).1;
    quantity = c.whole 1;
    filled = c.zero;
    status = OrderStatus.open_order;
    sequence = unwrap_or update.created_at seq;
  }

  -- What the stream yields: an update, with the `Uuid` that its order gets, or a status.
  pub data StreamItem : Type 0 where
    update : c.Uuid → SubscribeUpdate → StreamItem
    status : StreamItem

  -- The orders given to `send_order`, whose failures are only logged. A status ends the loop.
  unfoldable pub run_ingestor : ℕ → List StreamItem → List Order
  run_ingestor counter [] = []
  run_ingestor counter (update id u ∷ items) =
      map_update_to_order counter id u ∷ run_ingestor (next_u64 counter) items
  run_ingestor counter (status ∷ items) = []

  -- `run_ingestor` with its connection: whether the endpoint is one, is connected to, and takes the
  -- subscription.
  ingest_connected : Bool → Bool → ℕ → List StreamItem → Result IngestError (List Order)
  ingest_connected false subscribed counter items = err IngestError.not_connected
  ingest_connected true false counter items = err IngestError.subscribe_failed
  ingest_connected true true counter items = ok (run_ingestor counter items)

  pub ingest : Bool → Bool → Bool → ℕ → List StreamItem → Result IngestError (List Order)
  unfolding ingest_connected
  ingest false connected subscribed counter items = err IngestError.invalid_endpoint
  ingest true connected subscribed counter items =
      ingest_connected connected subscribed counter items

  -- The engine takes such an order and can rest it.
  abbrev pub IsPlaceable : Order → Type 0
  IsPlaceable o = IsAcceptable o × (leq o.quantity c.zero ≡ false) × (o.price ≢ none)

  map_update_to_order-IsPlaceable :
      (seq : ℕ) (id : c.Uuid) (u : SubscribeUpdate) → IsPlaceable (map_update_to_order seq id u)
  unfolding map_update_to_order is_complete
  map_update_to_order-IsPlaceable seq id u = (
    record {
      fillable = record {
        quantity_grid = c.whole-OnGrid 1 (omega arith);
        filled_grid = c.zero-OnGrid;
        not_negative = omega arith;
        within = omega (arith, one_above);
      };
      incomplete = refl;
    },
    positive,
    λ e. cc e,
  )
    where
      one_above : c.position c.zero < c.position (c.whole 1)
      one_above = omega (arith, c.whole_less 0 1 (omega arith) (omega arith), c.whole_zero)

      positive : leq (c.whole 1) c.zero ≡ false
      positive = elim (leq_cases (c.whole 1) c.zero) [
        | inl (e, le) ↦ absurd (omega (arith, one_above, le))
        | inr (e, lt) ↦ e
      ]

  -- Every order that the ingestor sends is acceptable to the engine, of positive quantity, and
  -- priced.
  pub run_ingestor-IsPlaceable :
      (counter : ℕ) (items : List StreamItem) → All IsPlaceable (run_ingestor counter items)
  unfolding run_ingestor
  run_ingestor-IsPlaceable counter [] = tt
  run_ingestor-IsPlaceable counter (update id u ∷ items) = (
    map_update_to_order-IsPlaceable counter id u,
    run_ingestor-IsPlaceable (next_u64 counter) items,
  )
  run_ingestor-IsPlaceable counter (status ∷ items) = tt
