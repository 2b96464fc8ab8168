-- ===== src/Api/Clients.antt =====
-- handlers/ws.rs: the task that serves one websocket client, from the broadcast of fills.
pub mod Served
use lmax_clob.Common.{
  subst, ℕ, suc, ◌≡◌, ◌⊎◌, refl, inl, inr, Bool, true, false, String, List, [], ◌∷◌, ◌++◌,
}

-- How the send of one message ends.
pub data SendResult : Type 0 where
  sent send_error timed_out : SendResult

-- What wakes the task: the broadcast, or the client.
pub data Event : Type 0 where
  broadcast : String → SendResult → Event
  lagged channel_closed : Event
  ping : Bool → Event
  close other : Event

-- The messages sent, whether the session was closed by the task, and the changes of the gauge
-- `WS_CLIENT_COUNT`: ups and downs.
pub record Client : Type 0 where
  pub texts : List String
  pub closed_session : Bool
  pub increments : ℕ
  pub decrements : ℕ

-- A task that goes on, or one that has returned.
pub data Step : Type 0 where
  continue : Client → Step
  returned : Client → Step

-- `ws_market` counts the client before it spawns the task.
abbrev pub new_client : Client
new_client = record { texts = []; closed_session = false; increments = 1; decrements = 0 }

leave : Client → Step
leave k = returned (record k { decrements = suc k.decrements })

drop_client : Client → Step
unfolding leave
drop_client k = leave (record k { closed_session = true })

sent_text : Client → String → SendResult → Step
unfolding drop_client
sent_text k msg sent = continue (record k { texts = k.texts ++ msg ∷ [] })
sent_text k msg send_error = drop_client k
sent_text k msg timed_out = drop_client k

unfoldable pub serve : Client → Event → Step
unfolding leave drop_client sent_text
serve k (broadcast msg r) = sent_text k msg r
serve k lagged = drop_client k
serve k channel_closed = leave k
serve k (ping true) = continue k
serve k (ping false) = leave k
serve k close = leave k
serve k other = continue k

-- The gauge stands one up while the task runs, and even once it has returned.
abbrev pub Counted : Client × Bool → Type 0
Counted (k, true) = k.increments ≡ suc k.decrements
Counted (k, false) = k.increments ≡ k.decrements

abbrev pub Steps : Client → Step → Type 0
Steps k (continue k') = Counted (k', true)
Steps k (returned k') = Counted (k', false)

pub serve-Counted : (k : Client) (e : Event) → Counted (k, true) → Steps k (serve k e)
unfolding serve leave drop_client sent_text
serve-Counted k (broadcast msg sent) h = h
serve-Counted k (broadcast msg send_error) h = h
serve-Counted k (broadcast msg timed_out) h = h
serve-Counted k lagged h = h
serve-Counted k channel_closed h = h
serve-Counted k (ping true) h = h
serve-Counted k (ping false) h = h
serve-Counted k close h = h
serve-Counted k other h = h
