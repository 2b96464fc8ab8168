-- ===== src/Api/Consumer/Handled.antt =====
-- What the consumer has sent and committed of its stream.
use lmax_clob.Common.{
  ℕ, ◌≡◌, refl, sym, ap, ◌∙◌, Bool, false, inl, inr, ◌⊎◌, Option, none, some, List, [], ◌∷◌, ◌++◌,
  append_assoc, append-nil, Bool-cases,
}
use lmax_clob.Crates.{Crates}
use lmax_clob.Engine.Types.{Order}
use lmax_clob.Api.Consumer.{
  Delivery, broker_error, delivered, Consumer, Round, continue, returned, deliver, consume_payload,
  consume, run, offsets, order_in, payload_orders, orders_in, orders,
}

module _ ⦃c : Crates⦄ {Bytes : Type 0} (decode : Bytes → Option Order)
    (is_open : List Order → Bool) where
  -- What a run has handled of its stream: exactly these deliveries were committed and their
  -- orders sent, and the rest is left only if the engine has gone.
  pub record Handled (s s' : Consumer) (ds : List (Delivery Bytes)) : Type 0 where
    pub done : List (Delivery Bytes)
    pub left : List (Delivery Bytes)
    pub split : ds ≡ done ++ left
    pub committed : s'.committed ≡ s.committed ++ offsets decode is_open done
    pub sent : s'.sent ≡ s.sent ++ orders decode is_open done
    pub rest : (left ≡ []) ⊎ (is_open s'.sent ≡ false)

  Handled-more :
      (s s1 s' : Consumer) (d : Delivery Bytes) (ds : List (Delivery Bytes))
      → s1.committed ≡ s.committed ++ offsets decode is_open (d ∷ [])
      → s1.sent ≡ s.sent ++ orders decode is_open (d ∷ [])
      → Handled s1 s' ds
      → Handled s s' (d ∷ ds)
  Handled-more s s1 s' d ds committed sent h = record {
    done = d ∷ h.done;
    left = h.left;
    split = ap (◌∷◌ d) h.split;
    committed =
        h.committed
        ∙ ap (λ os. os ++ offsets decode is_open h.done) committed
        ∙ append_assoc s.committed (offsets decode is_open (d ∷ [])) (offsets decode is_open h.done)
        ∙ ap (◌++◌ s.committed) (offsets_cons d h.done);
    sent =
        h.sent
        ∙ ap (λ os. os ++ orders decode is_open h.done) sent
        ∙ append_assoc s.sent (orders decode is_open (d ∷ [])) (orders decode is_open h.done)
        ∙ ap (◌++◌ s.sent) (orders_cons d h.done);
    rest = h.rest;
  }
    where
      offsets_cons :
          (x : Delivery Bytes) (xs : List (Delivery Bytes))
          → offsets decode is_open (x ∷ []) ++ offsets decode is_open xs
            ≡ offsets decode is_open (x ∷ xs)
      offsets_cons broker_error xs = refl
      offsets_cons (delivered m) xs = refl

      orders_cons :
          (x : Delivery Bytes) (xs : List (Delivery Bytes))
          → orders decode is_open (x ∷ []) ++ orders decode is_open xs
            ≡ orders decode is_open (x ∷ xs)
      orders_cons broker_error xs = refl
      orders_cons (delivered m) xs =
          ap (λ os. os ++ orders decode is_open xs) (append-nil (orders_in decode is_open m))

  Handled-stop :
      (s : Consumer) (ds : List (Delivery Bytes))
      → (ds ≡ []) ⊎ (is_open s.sent ≡ false)
      → Handled s s ds
  Handled-stop s ds h = record {
    done = [];
    left = ds;
    split = refl;
    committed = sym (append-nil s.committed);
    sent = sym (append-nil s.sent);
    rest = h;
  }

  -- A round that commits the message and sends these orders, or the last one.
  abbrev Moves : Consumer → Round → ℕ → List Order → Type 0
  Moves s r offset os =
      ((s1 : Consumer) × (r ≡ continue s1)
        × (s1.committed ≡ s.committed ++ offset ∷ [])
        × (s1.sent ≡ s.sent ++ os))
      ⊎ ((r ≡ returned s) × (is_open s.sent ≡ false))

  deliver-Moves :
      (s : Consumer) (offset : ℕ) (o : Option Order)
      → Moves s (deliver decode is_open s offset o) offset (order_in decode is_open offset o)
  unfolding deliver
  deliver-Moves s offset none = inl (_, refl, refl, sym (append-nil s.sent))
  deliver-Moves s offset (some o) = elim (Bool-cases (is_open s.sent)) [
    | inl takes ↦ rw takes (inl (_, refl, refl, refl))
    | inr gone ↦ inr (rw gone, gone)
  ]

  consume_payload-Moves :
      (s : Consumer) (offset : ℕ) (p : Option Bytes)
      → Moves s
          (consume_payload decode is_open s offset p)
          offset
          (payload_orders decode is_open offset p)
  unfolding consume_payload
  consume_payload-Moves s offset none = inl (_, refl, refl, sym (append-nil s.sent))
  consume_payload-Moves s offset (some bytes) = deliver-Moves s offset (decode bytes)

  -- The consumer commits each message once, in order, and only when its order, if it holds one,
  -- has been sent to the engine with the message's offset as its sequence; it stops early only
  -- where the engine takes no more, and then leaves the refused message uncommitted.
  pub run-Handled :
      (s : Consumer) (ds : List (Delivery Bytes)) → Handled s (run decode is_open s ds) ds
  unfolding run consume
  run-Handled s [] = Handled-stop s [] (inl refl)
  run-Handled s (broker_error ∷ ds) =
      Handled-more s s (run decode is_open s ds) broker_error ds (sym (append-nil s.committed))
        (sym (append-nil s.sent)) (run-Handled s ds)
  run-Handled s (delivered m ∷ ds) = elim (consume_payload-Moves s m.offset m.payload) [
    | inl (s1, goes, committed, sent) ↦
        rw (goes, run, consume)
          (Handled-more s s1 (run decode is_open s1 ds) (delivered m) ds committed
            (sent ∙ ap (◌++◌ s.sent) (sym (append-nil (orders_in decode is_open m))))
            (run-Handled s1 ds))
    | inr (stops, gone) ↦ rw (stops, run, consume) (Handled-stop s (delivered m ∷ ds) (inr gone))
  ]
