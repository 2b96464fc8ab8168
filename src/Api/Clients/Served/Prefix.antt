-- ===== src/Api/Clients/Served/Prefix.antt =====
-- What a websocket client is sent, of the fills that are published from its connection on.
use lmax_clob.Common.{
  ℕ, suc, ◌+◌, ◌≡◌, refl, sym, ap, ◌∙◌, subst, Bool, true, false, String, Option, none, some,
  some-injective, List, [], ◌∷◌, ◌++◌, map, append_assoc, append-nil, length, length-append,
  get_elem?, get_elem?-append, arith,
}
use mathlib.Core.Option
use lmax_clob.Crates.{Crates}
use lmax_clob.Engine.Types.{Fill}
use lmax_clob.Api.Broadcast.{
  RecvResult, message, Receives, Tokio, Texts, FillBroadcast, publish, fill_message,
}
use lmax_clob.Api.Clients.{
  Client, Event, SendResult, serve, Counted, serve-Counted, leave, drop_client, sent_text,
}
use lmax_clob.Api.Clients.Served.{
  Happening, published, polled, pinged, closed_by_client, other_message, fills_of, Connection,
  connect, settle, received, take_turn, when_running, run,
}

next_unread :
    (before texts unread : List String) (n : ℕ) (m : String)
    → n ≡ length before + length texts
    → get_elem? (before ++ (texts ++ unread)) n ≡ some m
    → (rest : List String) × (unread ≡ m ∷ rest)
next_unread before texts unread n m at found = first unread (
    sym (get_elem?-append (before ++ texts) unread)
    ∙ ap (get_elem? ((before ++ texts) ++ unread)) (length-append before texts ∙ sym at)
    ∙ ap (λ xs. get_elem? xs n) (append_assoc before texts unread)
    ∙ found)
  where
    first : (us : List String) → get_elem? us 0 ≡ some m → (rest : List String) × (us ≡ m ∷ rest)
    first [] e = absurd cc
    first (u ∷ us) e = (us, ap (λ v. v ∷ us) (some-injective u m e))

module _ ⦃b : Tokio⦄ where
  -- `before` was sent before the client came, and `later` since; the client has been sent the texts
  -- of `later` but for those that are unread, and while its task runs, its receiver is just there.
  pub record Follows (before later : List String) (w : Connection) : Type 0 where
    pub history : b.history w.broadcast.tx ≡ before ++ later
    pub unread : List String
    pub split : w.client.texts ++ unread ≡ later
    pub place : w.is_running ≡ true → b.seen w.rx ≡ length before + length w.client.texts
    pub counted : Counted (w.client, w.is_running)

  module _ (before later : List String) (w : Connection) (h : Follows before later w)
      (running : w.is_running ≡ true) where
    still_up : Counted (w.client, true)
    still_up = subst (λ r. Counted (w.client, r)) running h.counted

    -- The task goes on and nothing was sent, or it has returned.
    quiet :
        (k : Client) (rx : b.Receiver)
        → k.texts ≡ w.client.texts
        → b.seen rx ≡ b.seen w.rx
        → Counted (k, true)
        → Follows before later (record w { client = k; rx = rx })
    quiet k rx same still counted = record {
      history = h.history;
      unread = h.unread;
      split = ap (λ xs. xs ++ h.unread) same ∙ h.split;
      place = λ r. still ∙ h.place running ∙ ap (λ xs. length before + length xs) (sym same);
      counted = subst (λ r. Counted (k, r)) (sym running) counted;
    }

    gone :
        (k : Client) (rx : b.Receiver)
        → k.texts ≡ w.client.texts
        → Counted (k, false)
        → Follows before later (record w { client = k; rx = rx; is_running = false })
    gone k rx same counted = record {
      history = h.history;
      unread = h.unread;
      split = ap (λ xs. xs ++ h.unread) same ∙ h.split;
      place = λ r. absurd cc;
      counted = counted;
    }

    sent :
        (m : String) (rx : b.Receiver)
        → get_elem? (before ++ later) (b.seen w.rx) ≡ some m
        → b.seen rx ≡ suc (b.seen w.rx)
        → Follows before later
            (record w { client = record w.client { texts = w.client.texts ++ m ∷ [] }; rx = rx })
    sent m rx found moved =
        let (rest, first) =
          next_unread before w.client.texts h.unread (b.seen w.rx) m (h.place running)
            (subst (λ xs. get_elem? (before ++ xs) (b.seen w.rx) ≡ some m) (sym h.split) found) in
        record {
          history = h.history;
          unread = rest;
          split =
              append_assoc w.client.texts (m ∷ []) rest
              ∙ ap (◌++◌ w.client.texts) (sym first)
              ∙ h.split;
          place = λ r. omega (arith, moved, h.place running, length-append w.client.texts (m ∷ []));
          counted = subst (λ r. Counted (w.client, r)) (sym running) still_up;
        }

    pub received-Follows :
        (r : SendResult) (o : Option (RecvResult × b.Receiver))
        → Receives
            (before ++ later)
            (b.capacity w.broadcast.tx)
            (b.seen w.rx)
            (Option.map (λ y. (y.0, b.seen y.1)) o)
        → Follows before later (received w r o)
    unfolding received settle serve leave drop_client sent_text
    received-Follows r none law = h
    received-Follows SendResult.sent (some (message m, rx)) law = sent m rx law.0 law.1
    received-Follows SendResult.send_error (some (message m, rx)) law =
        gone _ rx refl (serve-Counted w.client (Event.broadcast m SendResult.send_error) still_up)
    received-Follows SendResult.timed_out (some (message m, rx)) law =
        gone _ rx refl (serve-Counted w.client (Event.broadcast m SendResult.timed_out) still_up)
    received-Follows r (some (RecvResult.lagged n, rx)) law =
        gone _ rx refl (serve-Counted w.client Event.lagged still_up)
    received-Follows r (some (RecvResult.closed, rx)) law =
        gone _ rx refl (serve-Counted w.client Event.channel_closed still_up)

  module _ ⦃c : Crates⦄ (x : Texts) where
    published-Follows :
        (before later : List String) (w : Connection) (f : Fill)
        → Follows before later w
        → Follows before
            (later ++ fill_message x f ∷ [])
            (record w { broadcast = publish x w.broadcast f })
    published-Follows before later w f h = record {
      history =
          b.send-history w.broadcast.tx (fill_message x f)
          ∙ ap (λ xs. xs ++ fill_message x f ∷ []) h.history
          ∙ append_assoc before later (fill_message x f ∷ []);
      unread = h.unread ++ fill_message x f ∷ [];
      split =
          sym (append_assoc w.client.texts h.unread (fill_message x f ∷ []))
          ∙ ap (λ xs. xs ++ fill_message x f ∷ []) h.split;
      place = h.place;
      counted = h.counted;
    }

    -- What one happening adds.
    abbrev pub added : Happening → List String
    added (published f) = fill_message x f ∷ []
    added _ = []

    take_turn-Follows :
        (before later : List String) (w : Connection) (e : Happening)
        → Follows before later w
        → w.is_running ≡ true
        → Follows before (later ++ added e) (take_turn x w e)
    unfolding take_turn settle serve leave
    take_turn-Follows before later w (published f) h running = published-Follows before later w f h
    take_turn-Follows before later w (polled r) h running = rw (append-nil later) (
        received-Follows before later w h running r (b.recv w.broadcast.tx w.rx) (
          subst
            (λ xs.
              Receives xs (b.capacity w.broadcast.tx) (b.seen w.rx)
                (Option.map (λ y. (y.0, b.seen y.1)) (b.recv w.broadcast.tx w.rx)))
            h.history (b.recv_lem w.broadcast.tx w.rx)))
    take_turn-Follows before later w (pinged true) h running =
        rw (append-nil later) (
          quiet before later w h running w.client w.rx refl refl
            (still_up before later w h running))
    take_turn-Follows before later w (pinged false) h running = rw (append-nil later) (
        gone before later w h running _ w.rx refl
          (serve-Counted w.client (Event.ping false) (still_up before later w h running)))
    take_turn-Follows before later w closed_by_client h running = rw (append-nil later) (
        gone before later w h running _ w.rx refl
          (serve-Counted w.client Event.close (still_up before later w h running)))
    take_turn-Follows before later w other_message h running =
        rw (append-nil later) (
          quiet before later w h running w.client w.rx refl refl
            (still_up before later w h running))

    when_running-Follows :
        (before later : List String) (w : Connection) (r : Bool) (e : Happening)
        → Follows before later w
        → w.is_running ≡ r
        → Follows before (later ++ added e) (when_running x r w e)
    unfolding when_running
    when_running-Follows before later w true e h is = take_turn-Follows before later w e h is
    when_running-Follows before later w false (published f) h is =
        published-Follows before later w f h
    when_running-Follows before later w false (polled r) h is = rw (append-nil later) h
    when_running-Follows before later w false (pinged r) h is = rw (append-nil later) h
    when_running-Follows before later w false closed_by_client h is = rw (append-nil later) h
    when_running-Follows before later w false other_message h is = rw (append-nil later) h

    fills_of-added :
        (e : Happening) (hs : List Happening)
        → map (fill_message x) (fills_of (e ∷ hs)) ≡ added e ++ map (fill_message x) (fills_of hs)
    fills_of-added (published f) hs = refl
    fills_of-added (polled r) hs = refl
    fills_of-added (pinged r) hs = refl
    fills_of-added closed_by_client hs = refl
    fills_of-added other_message hs = refl

    pub run-Follows :
        (before later : List String) (w : Connection) (hs : List Happening)
        → Follows before later w
        → Follows before (later ++ map (fill_message x) (fills_of hs)) (run x w hs)
    unfolding run
    run-Follows before later w [] h = rw (append-nil later) h
    run-Follows before later w (e ∷ hs) h =
        subst (λ xs. Follows before xs (run x (when_running x w.is_running w e) hs))
          (append_assoc later (added e) _ ∙ ap (◌++◌ later) (sym (fills_of-added e hs)))
          (run-Follows before (later ++ added e) (when_running x w.is_running w e) hs
            (when_running-Follows before later w w.is_running e h refl))

    pub connect-Follows : (t : FillBroadcast) → Follows (b.history t.tx) [] (connect t)
    unfolding connect
    connect-Follows t = record {
      history = b.subscribe-history t.tx ∙ sym (append-nil (b.history t.tx));
      unread = [];
      split = refl;
      place = λ r. omega (arith, b.subscribe-seen t.tx);
      counted = refl;
    }

    -- Whatever happens from a client's connection on, the texts that it is sent are the first
    -- of the messages of the fills published since, in order, with none left out, doubled or
    -- from before, also where it lags, is too slow or leaves; and the gauge of clients is one
    -- up for it while its task runs, and its increment is taken back exactly once by the time
    -- the task has returned.
    pub run-connect :
        (t : FillBroadcast) (hs : List Happening)
        → (unread : List String) × ((run x (connect t) hs).client.texts ++ unread
            ≡ map (fill_message x) (fills_of hs))
          × Counted ((run x (connect t) hs).client, (run x (connect t) hs).is_running)
    run-connect t hs =
        let h = run-Follows (b.history t.tx) [] (connect t) hs (connect-Follows t) in
        (h.unread, h.split, h.counted)
