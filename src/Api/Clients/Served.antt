-- ===== src/Api/Clients/Served.antt =====
-- handlers/ws.rs with ws/broadcast.rs: one client beside the task that publishes the fills.
pub mod Prefix
pub mod Drained
use lmax_clob.Common.{
  ℕ, suc, ◌+◌, ◌≡◌, Bool, true, false, String, Option, none, some, List, [], ◌∷◌, ◌++◌,
}
use lmax_clob.Crates.{Crates}
use lmax_clob.Engine.Types.{Fill}
use lmax_clob.Api.Broadcast.{
  RecvResult, message, Tokio, Texts, FillBroadcast, subscribe, publish, fill_message,
}
use lmax_clob.Api.Clients.{Client, Event, SendResult, Step, new_client, serve}

-- What happens next: a fill is published, or the task's `select!` polls one of its branches: the
-- receiver, with the result of the send that a text leads to, or the client's messages.
module _ ⦃c : Crates⦄ where
  pub data Happening : Type 0 where
    published : Fill → Happening
    polled : SendResult → Happening
    pinged : Bool → Happening
    closed_by_client other_message : Happening

  -- The fills that are published.
  abbrev pub fills_of : List Happening → List Fill
  fills_of [] = []
  fills_of (published f ∷ hs) = f ∷ fills_of hs
  fills_of (_ ∷ hs) = fills_of hs

module _ ⦃b : Tokio⦄ where
  pub record Connection : Type 0 where
    pub broadcast : FillBroadcast
    pub rx : b.Receiver
    pub client : Client
    pub is_running : Bool

  -- `ws_market` subscribes and spawns the task.
  unfoldable pub connect : FillBroadcast → Connection
  connect t =
      let (t', rx) = subscribe t in
      record { broadcast = t'; rx = rx; client = new_client; is_running = true }

  settle : Connection → Step → Connection
  settle w (Step.continue k) = record w { client = k }
  settle w (Step.returned k) = record w { client = k; is_running = false }

  -- Nothing to receive: the branch is not taken.
  pub received : Connection → SendResult → Option (RecvResult × b.Receiver) → Connection
  unfolding settle
  received w r none = w
  received w r (some (message m, rx)) =
      settle (record w { rx = rx }) (serve w.client (Event.broadcast m r))
  received w r (some (RecvResult.lagged n, rx)) =
      settle (record w { rx = rx }) (serve w.client Event.lagged)
  received w r (some (RecvResult.closed, rx)) =
      settle (record w { rx = rx }) (serve w.client Event.channel_closed)

module _ ⦃c : Crates⦄ ⦃b : Tokio⦄ (x : Texts) where
  take_turn : Connection → Happening → Connection
  unfolding received settle
  take_turn w (published f) = record w { broadcast = publish x w.broadcast f }
  take_turn w (polled r) = received w r (b.recv w.broadcast.tx w.rx)
  take_turn w (pinged reached) = settle w (serve w.client (Event.ping reached))
  take_turn w closed_by_client = settle w (serve w.client Event.close)
  take_turn w other_message = settle w (serve w.client Event.other)

  -- A task that has returned polls no more.
  when_running : Bool → Connection → Happening → Connection
  unfolding take_turn
  when_running true w h = take_turn w h
  when_running false w (published f) = record w { broadcast = publish x w.broadcast f }
  when_running false w _ = w

  unfoldable pub run : Connection → List Happening → Connection
  unfolding when_running
  run w [] = w
  run w (h ∷ hs) = run (when_running w.is_running w h) hs
