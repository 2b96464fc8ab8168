-- ===== src/Api/Clients/Served/Drained.antt =====
-- A websocket client that keeps up with the fills.
use lmax_clob.Common.{
  length-map, ℕ, zero, suc, ◌+◌, ◌≤◌, ◌<◌, ◌≡◌, refl, sym, ap, ◌∙◌, subst, Bool, true, false,
  String, Option, none, some, List, [], ◌∷◌, ◌++◌, map, append-nil, length, length-append, arith,
}
use mathlib.Core.Option
use lmax_clob.Crates.{Crates}
use lmax_clob.Api.Broadcast.{
  RecvResult, message, Receives, Tokio, Texts, FillBroadcast, channel_capacity, fill_message,
}
use lmax_clob.Api.Clients.{SendResult, Step, Event, serve, sent_text}
use lmax_clob.Api.Clients.Served.{
  Happening, published, polled, pinged, closed_by_client, other_message, fills_of, Connection,
  connect, settle, received, take_turn, when_running, run,
}
use lmax_clob.Api.Clients.Served.Prefix.{Follows, received-Follows, run-Follows, connect-Follows}

module _ ⦃c : Crates⦄ where
  -- The receiver is polled, and each text that it gives is sent.
  abbrev pub polls : ℕ → List Happening
  polls zero = []
  polls (suc n) = polled SendResult.sent ∷ polls n

module _ ⦃b : Tokio⦄ where
  settle-broadcast : (w : Connection) (s : Step) → (settle w s).broadcast ≡ w.broadcast
  unfolding settle
  settle-broadcast w (Step.continue k) = refl
  settle-broadcast w (Step.returned k) = refl

  received-broadcast :
      (w : Connection) (r : SendResult) (o : Option (RecvResult × b.Receiver))
      → (received w r o).broadcast ≡ w.broadcast
  unfolding received
  received-broadcast w r none = refl
  received-broadcast w r (some (message m, rx)) =
      settle-broadcast (record w { rx = rx }) (serve w.client (Event.broadcast m r))
  received-broadcast w r (some (RecvResult.lagged n, rx)) =
      settle-broadcast (record w { rx = rx }) (serve w.client Event.lagged)
  received-broadcast w r (some (RecvResult.closed, rx)) =
      settle-broadcast (record w { rx = rx }) (serve w.client Event.channel_closed)

  -- With something unread, and no more than the channel keeps, a poll whose send succeeds sends one
  -- more text.
  received-sent :
      (before later : List String) (w : Connection) (o : Option (RecvResult × b.Receiver))
      → Follows before later w
      → w.is_running ≡ true
      → length w.client.texts < length later
      → length later ≤ length w.client.texts + b.capacity w.broadcast.tx
      → Receives
          (before ++ later)
          (b.capacity w.broadcast.tx)
          (b.seen w.rx)
          (Option.map (λ y. (y.0, b.seen y.1)) o)
      → ((received w SendResult.sent o).is_running ≡ true)
        × (length (received w SendResult.sent o).client.texts ≡ suc (length w.client.texts))
  unfolding received settle serve sent_text
  received-sent before later w none h running more near law =
      absurd (omega (arith, h.place running, length-append before later, law))
  received-sent before later w (some (message m, rx)) h running more near law =
      (running, omega (arith, length-append w.client.texts (m ∷ [])))
  received-sent before later w (some (RecvResult.lagged n, rx)) h running more near law =
      absurd (omega (arith, h.place running, length-append before later, law))
  received-sent before later w (some (RecvResult.closed, rx)) h running more near law =
      absurd (omega (arith, h.place running, length-append before later, law))

  module _ ⦃c : Crates⦄ (x : Texts) where
    when_running-capacity :
        (w : Connection) (r : Bool) (e : Happening)
        → b.capacity (when_running x r w e).broadcast.tx ≡ b.capacity w.broadcast.tx
    unfolding when_running take_turn
    when_running-capacity w true (published f) = b.send-capacity w.broadcast.tx (fill_message x f)
    when_running-capacity w true (polled r) =
        ap (λ t. b.capacity t.tx) (received-broadcast w r (b.recv w.broadcast.tx w.rx))
    when_running-capacity w true (pinged r) =
        ap (λ t. b.capacity t.tx) (settle-broadcast w (serve w.client (Event.ping r)))
    when_running-capacity w true closed_by_client =
        ap (λ t. b.capacity t.tx) (settle-broadcast w (serve w.client Event.close))
    when_running-capacity w true other_message =
        ap (λ t. b.capacity t.tx) (settle-broadcast w (serve w.client Event.other))
    when_running-capacity w false (published f) = b.send-capacity w.broadcast.tx (fill_message x f)
    when_running-capacity w false (polled r) = refl
    when_running-capacity w false (pinged r) = refl
    when_running-capacity w false closed_by_client = refl
    when_running-capacity w false other_message = refl

    run-capacity :
        (w : Connection) (hs : List Happening)
        → b.capacity (run x w hs).broadcast.tx ≡ b.capacity w.broadcast.tx
    unfolding run
    run-capacity w [] = refl
    run-capacity w (e ∷ hs) =
        run-capacity (when_running x w.is_running w e) hs ∙ when_running-capacity w w.is_running e

    run-polls :
        (before later : List String) (w : Connection) (n : ℕ)
        → Follows before later w
        → w.is_running ≡ true
        → length w.client.texts + n ≡ length later
        → n ≤ b.capacity w.broadcast.tx
        → ((run x w (polls n)).is_running ≡ true) × ((run x w (polls n)).client.texts ≡ later)
    unfolding run when_running take_turn
    run-polls before later w zero h running count near = (running, whole h.unread h.split)
      where
        whole : (us : List String) → w.client.texts ++ us ≡ later → w.client.texts ≡ later
        whole [] e = sym (append-nil w.client.texts) ∙ e
        whole (u ∷ us) e =
            absurd (omega (arith, count, ap length e, length-append w.client.texts (u ∷ us)))
    run-polls before later w (suc n) h running count near =
        let o = b.recv w.broadcast.tx w.rx in
        let law =
          subst
            (λ xs.
              Receives xs (b.capacity w.broadcast.tx) (b.seen w.rx)
                (Option.map (λ y. (y.0, b.seen y.1)) o))
            h.history (b.recv_lem w.broadcast.tx w.rx) in
        let (on, one) = received-sent before later w o h running (omega arith) (omega arith) law in
        let w' = received w SendResult.sent o in
        let kept =
          ap (λ (t : FillBroadcast). b.capacity t.tx) (received-broadcast w SendResult.sent o) in
        subst (λ (v : Connection). (v.is_running ≡ true) × (v.client.texts ≡ later))
          (ap (λ r. run x (when_running x r w (polled SendResult.sent)) (polls n)) (sym running))
          (run-polls before later w' n
            (received-Follows before later w h running SendResult.sent o law) on
            (omega (arith, one, count)) (omega (arith, kept, near)))

    connect-capacity : (t : FillBroadcast) → b.capacity (connect t).broadcast.tx ≡ b.capacity t.tx
    unfolding connect
    connect-capacity t = b.subscribe-capacity t.tx

    -- On a channel that keeps at least the 1024 texts asked for, a client whose task still
    -- runs, and which has been sent all but at most 1024 of the messages of the fills published
    -- since it came, is not dropped by polls of its receiver whose sends succeed, and after as
    -- many of them as messages were left it has been sent all messages.
    pub run-drained :
        (t : FillBroadcast) (hs : List Happening) (n : ℕ)
        → channel_capacity ≤ b.capacity t.tx
        → (run x (connect t) hs).is_running ≡ true
        → length (run x (connect t) hs).client.texts + n ≡ length (fills_of hs)
        → n ≤ channel_capacity
        → ((run x (run x (connect t) hs) (polls n)).is_running ≡ true)
          × ((run x (run x (connect t) hs) (polls n)).client.texts
              ≡ map (fill_message x) (fills_of hs))
    run-drained t hs n wide running count near =
        run-polls (b.history t.tx) (map (fill_message x) (fills_of hs)) (run x (connect t) hs) n
          (run-Follows x (b.history t.tx) [] (connect t) hs (connect-Follows x t)) running
          (omega (arith, count, length-map (fill_message x) (fills_of hs)))
          (omega (arith, run-capacity (connect t) hs, connect-capacity t, wide, near))
