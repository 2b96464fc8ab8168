-- ===== src/Api/Standby.antt =====
-- main.rs: the tasks of `run_follower` together: the consumer, the engine's thread behind it, and the
-- wait for the promotion.
pub mod Same
use lmax_clob.Common.{ℕ, zero, suc, Bool, true, false, Option, none, some, List, [], ◌∷◌}
use lmax_clob.Crates.{Crates}
use lmax_clob.Engine.Types.{Order}
use lmax_clob.Engine.Snapshot.{BookSnapshot, Postcard}
use lmax_clob.Api.Consumer
use lmax_clob.Api.Consumer.{Delivery, Consumer, new_consumer}
use lmax_clob.Api.Leader.Elector.{Elector}
use lmax_clob.Api.Modes.{Happening, await_promotion}
use lmax_clob.Api.Threads.{Receipt, Follower, start_follower, run_follower}

-- What `recv_timeout` meets: a channel with an order in it or closed, or one that stays empty for 50
-- milliseconds.
pub data Wait : Type 0 where
  ready timed_out : Wait

-- The rounds of the thread before it sees the flag and finds an order.
abbrev pub turns : List (Bool × Wait) → ℕ
turns [] = 0
turns ((true, w) ∷ ws) = 0
turns ((false, timed_out) ∷ ws) = turns ws
turns ((false, ready) ∷ ws) = suc (turns ws)

-- Whether the thread meets the flag, or the channel closed behind these orders, in its rounds.
abbrev pub ends {ℓ} : {A : Type ℓ} → List A → List (Bool × Wait) → Bool
ends os [] = false
ends os ((true, w) ∷ ws) = true
ends os ((false, timed_out) ∷ ws) = ends os ws
ends [] ((false, ready) ∷ ws) = true
ends (o ∷ os) ((false, ready) ∷ ws) = ends os ws

module _ ⦃c : Crates⦄ ⦃p : Postcard⦄ where
  -- The rounds of the thread at a channel that holds the orders and is then closed.
  unfoldable pub receipts : List Order → List (Bool × Wait) → List (Bool × Receipt)
  receipts os [] = []
  receipts os ((leads, timed_out) ∷ ws) = (leads, Receipt.timeout) ∷ receipts os ws
  receipts [] ((leads, ready) ∷ ws) = (leads, Receipt.disconnected) ∷ receipts [] ws
  receipts (o ∷ os) ((leads, ready) ∷ ws) = (leads, Receipt.order o) ∷ receipts os ws

module _ ⦃c : Crates⦄ ⦃p : Postcard⦄ {Bytes : Type 0} (decode : Bytes → Option Order) where
  -- The tasks after their work, and the code with which the process exits, if it does.
  pub record Followed : Type 0 where
    pub consumer : Consumer
    pub follower : Follower
    -- Whether the follower's thread has returned.
    pub returned : Bool
    pub exit_code : Option ℕ

  followed : Consumer → Option ℕ → Option (Bool × Follower) → Option Followed
  followed k code none = none
  followed k code (some (returned, f)) =
      some (record { consumer = k; follower = f; returned = returned; exit_code = code })

  -- `is_open` tells from the orders sent so far whether the thread still takes the next one; `ws` are
  -- the rounds of the thread, each with the flag that it sees, and `hs` what `main` meets.
  unfoldable pub run_standby :
      {E : Type 0}
      → (List Order → Bool)
      → Option BookSnapshot
      → List (Delivery Bytes)
      → List (Bool × Wait)
      → Elector
      → List (Happening E)
      → Option Followed
  unfolding followed
  run_standby is_open snap ds ws e hs =
      let k = Consumer.run decode is_open new_consumer ds in
      followed k (await_promotion e hs) (run_follower (start_follower snap) (receipts k.sent ws))
