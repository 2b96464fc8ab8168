-- ===== src/Api/Producers.antt =====
-- kafka/producer.rs and kafka/fill_publisher.rs: one record for each order and for each fill, and the
-- way of the orders to the engine, through the topic. The codec and the broker are arguments; a send
-- waits for the broker's answer, and what a failed one leaves in the topic is open.
pub mod Pipeline
use lmax_clob.Common.{
  ℕ, ◌+◌, ◌≤◌, ◌<◌, ◌≡◌, refl, sym, ap, ◌∙◌, subst, Bool, true, false, inl, inr, String, Option,
  none, some, List, [], ◌∷◌, ◌++◌, All, All-imp, arith, Bool-cases, Option-cases, if◌then◌else◌,
  append-nil,
}
use lmax_clob.Crates.{Crates}
use lmax_clob.Engine.Types.{Order, Fill, Result, ok, err}
use lmax_clob.Api.Consumer.{
  Message, Delivery, delivered, Consumer, new_consumer, topic_orders_in, stamped, run, orders,
}
use lmax_clob.Api.Consumer.Handled.{Handled, run-Handled}
use lmax_clob.Api.Threads.Saves.Resume.{IsAscending}

-- `TOPIC_FILLS_OUT`
abbrev topic_fills_out : String
topic_fills_out = "fills-out"

pub data SendError : Type 0 where
  not_serialized not_sent : SendError

pub record Published (Bytes : Type 0) : Type 0 where
  pub topic : String
  pub key : String
  pub payload : Bytes

module _ {Bytes : Type 0} where
  -- `send(record).await`: whether the broker takes it.
  abbrev pub send : Bool → Published Bytes → Result SendError (Published Bytes)
  send true r = ok r
  send false r = err SendError.not_sent

  abbrev pub to_record : String → String → Bytes → Published Bytes
  to_record topic key bytes = record { topic = topic; key = key; payload = bytes }

  abbrev publish :
      String → String → Option Bytes → (Published Bytes → Bool) → Result SendError (Published Bytes)
  publish topic key none takes = err SendError.not_serialized
  publish topic key (some bytes) takes =
      send (takes (to_record topic key bytes)) (to_record topic key bytes)

module _ ⦃c : Crates⦄ {Bytes : Type 0} (to_string : c.Uuid → String) where
  unfoldable pub send_order :
      (Order → Option Bytes) → (Published Bytes → Bool) → Order → Result SendError (Published Bytes)
  send_order encode takes o = publish topic_orders_in (to_string o.id) (encode o) takes

  unfoldable pub send_fill :
      (Fill → Option Bytes) → (Published Bytes → Bool) → Fill → Result SendError (Published Bytes)
  send_fill encode takes f = publish topic_fills_out (to_string f.maker_order_id) (encode f) takes
