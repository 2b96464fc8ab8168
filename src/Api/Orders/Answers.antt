-- ===== src/Api/Orders/Answers.antt =====
-- The answers of the order route, on every branch.
use lmax_clob.Common.{
  ◌≡◌, ◌≢◌, ◌⊎◌, refl, sym, Bool, true, false, inl, inr, String, Option, none, some, some-injective,
  Bool-cases, if◌then◌else◌,
}
use lmax_clob.Crates.{Crates}
use lmax_clob.Crates.Decimal.{leq}
use lmax_clob.Engine.Types.{Side, Order, OrderType}
use lmax_clob.Api.Orders.{
  PlaceOrderRequest, HttpResponse, Placed, parse_side, parse_order_type, place_order, place_typed,
  place_priced, place_sided, place_parsed, send_order, new_order,
}

module _ ⦃c : Crates⦄ where
  -- A side and an order type that parse, a price where the type needs one, and a positive quantity.
  abbrev pub IsComplete : PlaceOrderRequest → Option Side → Option OrderType → Type 0
  IsComplete body side kind =
      (s : Side) × (k : OrderType) × (side ≡ some s)
      × (kind ≡ some k)
      × (k ≡ OrderType.limit → body.price ≢ none)
      × (leq body.quantity c.zero ≡ false)

  -- A complete request is sent to the broker as an order, and answered by its id if the broker
  -- takes it and by the status 500 if not. Any other is answered by the status 400, and nothing
  -- is sent.
  abbrev pub Answers :
      PlaceOrderRequest → c.Uuid → Bool → Option Side → Option OrderType → Placed → Type 0
  Answers body id taken side kind r =
      (IsComplete body side kind
        × ((o : Order) × (r.1 ≡ some o)
            × (o.id ≡ id)
            × (r.0 ≡ (
                if taken
                then HttpResponse.order_response id
                else HttpResponse.error_response 500 "failed to publish order"))))
      ⊎ ((IsComplete body side kind → ⊥)
          × ((m : String) × (r ≡ (HttpResponse.error_response 400 m, none))))

  send_order-id :
      (taken : Bool) (o : Order)
      → ((send_order taken o).1 ≡ some o)
        × ((send_order taken o).0 ≡ (
            if taken
            then HttpResponse.order_response o.id
            else HttpResponse.error_response 500 "failed to publish order"))
  send_order-id true o = (refl, refl)
  send_order-id false o = (refl, refl)

  place_typed-Answers :
      (body : PlaceOrderRequest) (id : c.Uuid) (taken : Bool) (side : Side) (kind : OrderType)
      → (kind ≡ OrderType.limit → body.price ≢ none)
      → Answers body id taken (some side) (some kind) (place_typed body id taken side kind)
  unfolding place_typed
  place_typed-Answers body id taken side kind priced =
      elim (Bool-cases (leq body.quantity c.zero)) [
        | inl zero ↦ rw zero (inr (λ full. cc full.5, ("quantity must be positive", refl)))
        | inr positive ↦ rw positive (
            inl (
              (side, kind, refl, refl, priced, refl),
              (
                new_order body id side kind,
                (send_order-id taken _).0,
                refl,
                (send_order-id taken _).1,
              ),
            ))
      ]

  place_priced-Answers :
      (body : PlaceOrderRequest) (id : c.Uuid) (taken : Bool) (side : Side) (kind : OrderType)
      (price : Option c.Num)
      → body.price ≡ price
      → Answers body id taken (some side) (some kind) (place_priced body id taken side kind price)
  unfolding place_priced
  place_priced-Answers body id taken side OrderType.limit none p = inr (
    λ full. full.4 (sym (some-injective _ _ full.3)) p,
    ("price required for limit orders", refl),
  )
  place_priced-Answers body id taken side OrderType.limit (some l) p =
      place_typed-Answers body id taken side OrderType.limit (λ limit missing. cc (p, missing))
  place_priced-Answers body id taken side OrderType.market price p =
      place_typed-Answers body id taken side OrderType.market (λ market. absurd cc)

  place_sided-Answers :
      (body : PlaceOrderRequest) (id : c.Uuid) (taken : Bool) (side : Side)
      (kind : Option OrderType)
      → Answers body id taken (some side) kind (place_sided body id taken side kind)
  unfolding place_sided
  place_sided-Answers body id taken side none =
      inr (λ full. cc full.3, ("invalid order_type", refl))
  place_sided-Answers body id taken side (some kind) =
      place_priced-Answers body id taken side kind body.price refl

  place_parsed-Answers :
      (body : PlaceOrderRequest) (id : c.Uuid) (taken : Bool) (side : Option Side)
      (kind : Option OrderType)
      → Answers body id taken side kind (place_parsed body id taken side kind)
  unfolding place_parsed
  place_parsed-Answers body id taken none kind = inr (λ full. cc full.2, ("invalid side", refl))
  place_parsed-Answers body id taken (some side) kind = place_sided-Answers body id taken side kind

  -- Whatever the request: one whose side and order type parse, with a price where it is a limit
  -- order and with a positive quantity, is sent to the broker as an order of the fresh id, and
  -- answered by that id if the broker takes it and by the status 500 if not; any other is
  -- answered by the status 400, and nothing is sent.
  pub place_order-Answers :
      (to_lowercase : String → String) (id : c.Uuid) (taken : Bool) (body : PlaceOrderRequest)
      → Answers body id taken
          (parse_side (to_lowercase body.side))
          (parse_order_type (to_lowercase body.order_type))
          (place_order to_lowercase id taken body)
  unfolding place_order
  place_order-Answers to_lowercase id taken body = place_parsed-Answers body id taken _ _
