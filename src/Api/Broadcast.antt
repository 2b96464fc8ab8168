-- ===== src/Api/Broadcast.antt =====
-- ws/broadcast.rs: `FillBroadcast`, and the interface of `tokio::sync::broadcast` under it.
use mathlib.Core.Option
use lmax_clob.Common.{
  ℕ, ◌+◌, ◌≤◌, ◌<◌, suc, ◌≡◌, String, Option, none, some, List, ◌∷◌, [], ◌++◌, length, get_elem?,
}
use lmax_clob.Crates.{Crates}
use lmax_clob.Engine.Types.{Fill}

-- `Ok(msg)`, `Err(RecvError::Lagged(n))` and `Err(RecvError::Closed)`.
pub data RecvResult : Type 0 where
  message : String → RecvResult
  lagged : ℕ → RecvResult
  closed : RecvResult

-- What a poll of `recv` may give to a receiver at `seen` of all the texts in `history`, with the
-- place at which the receiver then is; `none` where it waits.
abbrev pub Receives : List String → ℕ → ℕ → Option (RecvResult × ℕ) → Type 0
Receives history capacity seen none = length history ≤ seen
Receives history capacity seen (some (message m, next)) =
    (get_elem? history seen ≡ some m) × (next ≡ suc seen)
Receives history capacity seen (some (lagged n, next)) = seen + capacity < length history
Receives history capacity seen (some (closed, next)) = length history ≤ seen

-- A channel keeps at least `capacity` of the last texts for each receiver. `history` and `seen` are
-- all the texts that were sent and how many of them a receiver is past.
pub record Tokio : Type 1 where
  pub Channel : Type 0
  pub Receiver : Type 0
  pub channel : ℕ → Channel
  pub send : Channel → String → Channel
  pub subscribe : Channel → Channel × Receiver
  pub receiver_count : Channel → ℕ
  pub recv : Channel → Receiver → Option (RecvResult × Receiver)
  pub history : Channel → List String
  pub capacity : Channel → ℕ
  pub seen : Receiver → ℕ
  pub channel-history : (n : ℕ) → history (channel n) ≡ []
  pub channel-capacity : (n : ℕ) → n ≤ capacity (channel n)
  pub send-history : (t : Channel) (m : String) → history (send t m) ≡ history t ++ m ∷ []
  pub send-capacity : (t : Channel) (m : String) → capacity (send t m) ≡ capacity t
  pub subscribe-history : (t : Channel) → history (subscribe t).0 ≡ history t
  pub subscribe-capacity : (t : Channel) → capacity (subscribe t).0 ≡ capacity t
  pub subscribe-seen : (t : Channel) → seen (subscribe t).1 ≡ length (history t)
  pub recv_lem :
      (t : Channel) (r : Receiver)
      → Receives (history t) (capacity t) (seen r) (Option.map (λ x. (x.0, seen x.1)) (recv t r))

-- A value of `serde_json::json!`.
pub data Json : Type 0 where
  text : String → Json
  number : ℕ → Json

-- The texts of the crates' values, and of an object of `serde_json`.
pub record Texts ⦃c : Crates⦄ : Type 0 where
  pub uuid_to_string : c.Uuid → String
  pub num_to_string : c.Num → String
  pub object_to_string : List (String × Json) → String

-- `CHANNEL_CAPACITY`
abbrev pub channel_capacity : ℕ
channel_capacity = 1024

module _ ⦃b : Tokio⦄ where
  pub record FillBroadcast : Type 0 where
    pub tx : b.Channel

  abbrev pub new_broadcast : FillBroadcast
  new_broadcast = record { tx = b.channel channel_capacity }

  abbrev pub subscribe : FillBroadcast → FillBroadcast × b.Receiver
  subscribe t = let (tx, rx) = b.subscribe t.tx in (record t { tx = tx }, rx)

  abbrev pub receiver_count : FillBroadcast → ℕ
  receiver_count t = b.receiver_count t.tx

module _ ⦃c : Crates⦄ (x : Texts) where
  pub fill_message : Fill → String
  fill_message f = x.object_to_string (
      ("maker_order_id", Json.text (x.uuid_to_string f.maker_order_id))
      ∷ ("taker_order_id", Json.text (x.uuid_to_string f.taker_order_id))
      ∷ ("price", Json.text (x.num_to_string f.price))
      ∷ ("quantity", Json.text (x.num_to_string f.quantity))
      ∷ ("sequence", Json.number f.sequence)
      ∷ [])

  module _ ⦃b : Tokio⦄ where
    -- The result of the send, an error where there is no receiver, is dropped.
    abbrev pub publish : FillBroadcast → Fill → FillBroadcast
    publish t f = record t { tx = b.send t.tx (fill_message f) }
