-- ===== src/Api/Consumer.antt =====
-- kafka/consumer.rs: `KafkaConsumer`, and the offset from which main.rs lets it start. Offsets are
-- natural numbers below 2^63, as the broker gives them. The lag gauge is left out.
pub mod Handled
pub mod Open
use lmax_clob.Common.{
  some-injective, subst, Option-cases, All, ℕ, ◌+◌, ◌≡◌, refl, sym, ap, ◌∙◌, Bool, true, false, inl,
  inr, ◌⊎◌, String, Option, none, some, List, [], ◌∷◌, ◌++◌, map, append_assoc, append-nil,
  same_text, Bool-cases, if◌then◌else◌,
}
use lmax_clob.Crates.{Crates}
use lmax_clob.Engine.Types.{Order, next_u64}

-- `TOPIC_ORDERS_IN`
abbrev pub topic_orders_in : String
topic_orders_in = "orders-in"

-- main.rs: one past the offset of the snapshot, or the beginning.
abbrev pub start_offset {ℓ} : {A : Type ℓ} → Option (A × ℕ) → ℕ
start_offset none = 0
start_offset (some (snap, offset)) = offset + 1

pub record Topic : Type 0 where
  pub name : String
  pub partitions : List ℕ

find_topic : List Topic → Option Topic
find_topic [] = none
find_topic (t ∷ ts) =
    let rest = find_topic ts in if same_text t.name topic_orders_in then some t else rest

-- The assignment that `seek_to` makes, or `none` where it fails with an error: the broker's
-- metadata comes as an argument, `none` where it cannot be had.
unfoldable pub seek_to : Option (List Topic) → ℕ → Option (List (String × ℕ × ℕ))
unfolding find_topic
seek_to none offset = none
seek_to (some topics) offset = elim (find_topic topics) [
  | none ↦ none
  | some t ↦ some (map (λ p. (topic_orders_in, p, offset)) t.partitions)
]

assigned_at :
    (offset : ℕ) (ps : List ℕ)
    → All (λ (a : String × ℕ × ℕ). a.2 ≡ offset) (map (λ p. (topic_orders_in, p, offset)) ps)
assigned_at offset [] = tt
assigned_at offset (p ∷ ps) = (refl, assigned_at offset ps)

-- Each partition of the topic is read from the offset.
pub seek_to-All :
    (topics : Option (List Topic)) (offset : ℕ) (tpl : List (String × ℕ × ℕ))
    → seek_to topics offset ≡ some tpl
    → All (λ (a : String × ℕ × ℕ). a.2 ≡ offset) tpl
unfolding seek_to
seek_to-All none offset tpl run = absurd cc
seek_to-All (some topics) offset tpl run = elim (Option-cases (find_topic topics)) [
  | inl missing ↦ absurd (cc (rw (missing, seek_to) at run))
  | inr (t, found) ↦
      subst (All (λ (a : String × ℕ × ℕ). a.2 ≡ offset))
        (some-injective _ tpl (rw (found, seek_to) at run)) (assigned_at offset t.partitions)
]

pub record Message (Bytes : Type 0) : Type 0 where
  pub offset : ℕ
  pub payload : Option Bytes

-- What the stream yields: a broker error, or a message.
pub data Delivery (Bytes : Type 0) : Type 0 where
  broker_error : Delivery Bytes
  delivered : Message Bytes → Delivery Bytes

module _ ⦃c : Crates⦄ where
  -- The orders sent to the engine, the offsets committed, and the loop's counter and flag.
  pub record Consumer : Type 0 where
    pub sent : List Order
    pub committed : List ℕ
    pub count : ℕ
    pub kafka_ready : Bool

  abbrev pub new_consumer : Consumer
  new_consumer = record { sent = []; committed = []; count = 0; kafka_ready = false }

  -- A loop that goes on, or one that has returned.
  pub data Round : Type 0 where
    continue : Consumer → Round
    returned : Consumer → Round

  abbrev pub commit : ℕ → Consumer → Consumer
  commit offset s = record s { committed = s.committed ++ offset ∷ [] }

  -- The commit and the flag that follow every message with a payload.
  abbrev pub finish : ℕ → Consumer → Round
  finish offset s = continue (record (commit offset s) { kafka_ready = true })

  -- `order.sequence = offset as u64`
  abbrev pub stamped : ℕ → Order → Order
  stamped offset o = record o { sequence = offset }

  module _ {Bytes : Type 0} (decode : Bytes → Option Order) (is_open : List Order → Bool) where
    -- `is_open` tells from the orders already sent whether the engine still takes the next one.
    deliver : Consumer → ℕ → Option Order → Round
    deliver s offset none = finish offset s
    deliver s offset (some o) =
        if is_open s.sent
        then finish offset
            (record s { sent = s.sent ++ stamped offset o ∷ []; count = next_u64 s.count })
        else returned s

    consume_payload : Consumer → ℕ → Option Bytes → Round
    unfolding deliver
    consume_payload s offset none = continue (commit offset s)
    consume_payload s offset (some bytes) = deliver s offset (decode bytes)

    unfoldable pub consume : Consumer → Delivery Bytes → Round
    unfolding consume_payload
    consume s broker_error = continue s
    consume s (delivered m) = consume_payload s m.offset m.payload

    unfoldable pub run : Consumer → List (Delivery Bytes) → Consumer
    run s [] = s
    run s (d ∷ ds) = elim (consume s d) [ continue s' ↦ run s' ds | returned s' ↦ s' ]

    -- The offsets of all messages, and the orders that they hold, stamped with their offsets.
    abbrev pub offsets : List (Delivery Bytes) → List ℕ
    offsets [] = []
    offsets (broker_error ∷ ds) = offsets ds
    offsets (delivered m ∷ ds) = m.offset ∷ offsets ds

    abbrev pub order_in : ℕ → Option Order → List Order
    order_in offset none = []
    order_in offset (some o) = stamped offset o ∷ []

    abbrev pub payload_orders : ℕ → Option Bytes → List Order
    payload_orders offset none = []
    payload_orders offset (some bytes) = order_in offset (decode bytes)

    abbrev pub orders_in : Message Bytes → List Order
    orders_in m = payload_orders m.offset m.payload

    abbrev pub orders : List (Delivery Bytes) → List Order
    orders [] = []
    orders (broker_error ∷ ds) = orders ds
    orders (delivered m ∷ ds) = orders_in m ++ orders ds
