-- ===== src/Api/Producers/Pipeline.antt =====
-- The way of the orders from the producer to the engine, through the topic.
use lmax_clob.Common.{ℕ, ◌+◌, ◌≡◌, Bool, String, Option, some, List, [], ◌∷◌, All, Any}
use lmax_clob.Crates.{Crates}
use lmax_clob.Engine.Types.{Order, Result, ok, err}
use lmax_clob.Api.Consumer.Open.{all_open}
use lmax_clob.Api.Consumer.{Delivery, delivered, Consumer, topic_orders_in, stamped, orders}
use lmax_clob.Api.Producers.{SendError, Published, to_record, send_order}

module _ {Bytes : Type 0} where
  -- One partition of the topic, whose next offset is `n`, as the consumer reads it.
  abbrev pub deliveries : ℕ → List (Published Bytes) → List (Delivery Bytes)
  deliveries n [] = []
  deliveries n (r ∷ rs) =
      delivered (record { offset = n; payload = some r.payload }) ∷ deliveries (n + 1) rs

module _ ⦃c : Crates⦄ {Bytes : Type 0} (to_string : c.Uuid → String) (encode : Order → Option Bytes)
    (decode : Bytes → Option Order) (takes : Published Bytes → Bool) where
  -- The codec reads back what it has written.
  abbrev pub IsCodec : Type 0
  IsCodec = (o : Order) (b : Bytes) → encode o ≡ some b → decode b ≡ some o

  -- The record is in the topic.
  abbrev pub IsStored : List (Published Bytes) → Result SendError (Published Bytes) → Type 0
  IsStored topic (ok r) = Any (λ x. x ≡ r) topic
  IsStored topic (err e) = Unit

  -- The record is one that a send of the order makes.
  abbrev pub IsRecordOf : Published Bytes → Order → Type 0
  IsRecordOf x o =
      (b : Bytes) × (encode o ≡ some b) × (x ≡ to_record topic_orders_in (to_string o.id) b)

  -- What the broker keeps: a send that it has reported delivered is in the topic, and nothing is but
  -- what was sent. A send that has failed may be there all the same, a record may be there more than
  -- once, and the order is open.
  pub record Keeps (os : List Order) (topic : List (Published Bytes)) : Type 0 where
    pub stored : All (λ o. IsStored topic (send_order to_string encode takes o)) os
    pub sent : All (λ x. Any (IsRecordOf x) os) topic

  -- The order with some offset as its sequence.
  abbrev pub IsStampOf : Order → Order → Type 0
  IsStampOf x o = (n : ℕ) × (x ≡ stamped n o)

  -- An order whose send succeeds is among these.
  abbrev pub IsTaken : List Order → Order → Result SendError (Published Bytes) → Type 0
  IsTaken got o (ok r) = Any (λ x. IsStampOf x o) got
  IsTaken got o (err e) = Unit

  abbrev orders_from : ℕ → List (Published Bytes) → List Order
  orders_from n topic = orders decode all_open (deliveries n topic)
