-- ===== src/Api/Orders/Accepted.antt =====
-- The orders that the route lets through, in the engine.
use lmax_clob.Common.{
  ◌≡◌, ◌≢◌, refl, sym, ap, ◌∙◌, subst, Bool, true, false, inl, inr, String, Option, none, some,
  some-injective, List, arith, Bool-cases, Option-cases,
}
use lmax_clob.Crates.{Crates}
use lmax_clob.Crates.Decimal.{leq, leq_cases}
use lmax_clob.Engine.Types.{
  Side, Order, OrderType, OrderStatus, is_complete, Fill, ProcessResult, EngineError, Result, ok,
}
use lmax_clob.Engine.Matching.{MatchingEngine, is_spent, opposite}
use lmax_clob.Engine.Process.{process_order}
use lmax_clob.Engine.Spec.{Market, queue, settle, place_as}
use lmax_clob.Engine.Refine.Models.{Models, IsAcceptable}
use lmax_clob.Engine.Refine.Keeps.{sweep-SameOrder}
use lmax_clob.Engine.Refine.Process.{process_order-place, settle-rested}
use lmax_clob.Api.Orders.{
  PlaceOrderRequest, HttpResponse, place_order, place_typed, place_priced, place_sided,
  place_parsed, send_order,
}

module _ ⦃c : Crates⦄ where
  -- What the route has checked of an order that it sends.
  pub record IsChecked (body : PlaceOrderRequest) (o : Order) : Type 0 where
    pub quantity_eq : o.quantity ≡ body.quantity
    pub positive : leq o.quantity c.zero ≡ false
    pub unfilled : o.filled ≡ c.zero
    pub fresh : o.status ≡ OrderStatus.open_order
    pub priced : o.order_type ≡ OrderType.limit → o.price ≢ none

  send_order-made :
      (delivered : Bool) (made : Order) (r : HttpResponse) (o : Order)
      → send_order delivered made ≡ (r, some o)
      → made ≡ o
  send_order-made true made r o e =
      some-injective made o (ap (λ (x : HttpResponse × Option Order). x.1) e)
  send_order-made false made r o e =
      some-injective made o (ap (λ (x : HttpResponse × Option Order). x.1) e)

  place_typed-IsChecked :
      (body : PlaceOrderRequest) (id : c.Uuid) (delivered : Bool) (side : Side) (kind : OrderType)
      (r : HttpResponse) (o : Order)
      → (kind ≡ OrderType.limit → body.price ≢ none)
      → place_typed body id delivered side kind ≡ (r, some o)
      → IsChecked body o
  unfolding place_typed
  place_typed-IsChecked body id delivered side kind r o priced e =
      elim (Bool-cases (leq body.quantity c.zero)) [
        | inl zero ↦ absurd (cc (ap (λ (x : HttpResponse × Option Order). x.1) (rw zero at e)))
        | inr positive ↦
            subst (IsChecked body)
              (send_order-made delivered _ r o (rw (positive, place_typed) at e))
              (record {
                quantity_eq = refl;
                positive = positive;
                unfilled = refl;
                fresh = refl;
                priced = priced;
              })
      ]

  place_priced-IsChecked :
      (body : PlaceOrderRequest) (id : c.Uuid) (delivered : Bool) (side : Side) (kind : OrderType)
      (price : Option c.Num) (r : HttpResponse) (o : Order)
      → body.price ≡ price
      → place_priced body id delivered side kind price ≡ (r, some o)
      → IsChecked body o
  unfolding place_priced
  place_priced-IsChecked body id delivered side OrderType.limit none r o p e =
      absurd (cc (ap (λ (x : HttpResponse × Option Order). x.1) e))
  place_priced-IsChecked body id delivered side OrderType.limit (some l) r o p e =
      place_typed-IsChecked body id delivered side OrderType.limit r o
        (λ limit missing. cc (p, missing)) e
  place_priced-IsChecked body id delivered side OrderType.market price r o p e =
      place_typed-IsChecked body id delivered side OrderType.market r o (λ market. absurd cc) e

  place_sided-IsChecked :
      (body : PlaceOrderRequest) (id : c.Uuid) (delivered : Bool) (side : Side)
      (kind : Option OrderType) (r : HttpResponse) (o : Order)
      → place_sided body id delivered side kind ≡ (r, some o)
      → IsChecked body o
  unfolding place_sided
  place_sided-IsChecked body id delivered side none r o e =
      absurd (cc (ap (λ (x : HttpResponse × Option Order). x.1) e))
  place_sided-IsChecked body id delivered side (some kind) r o e =
      place_priced-IsChecked body id delivered side kind body.price r o refl e

  place_parsed-IsChecked :
      (body : PlaceOrderRequest) (id : c.Uuid) (delivered : Bool) (side : Option Side)
      (kind : Option OrderType) (r : HttpResponse) (o : Order)
      → place_parsed body id delivered side kind ≡ (r, some o)
      → IsChecked body o
  unfolding place_parsed
  place_parsed-IsChecked body id delivered none kind r o e =
      absurd (cc (ap (λ (x : HttpResponse × Option Order). x.1) e))
  place_parsed-IsChecked body id delivered (some side) kind r o e =
      place_sided-IsChecked body id delivered side kind r o e

  pub IsChecked-IsAcceptable :
      (body : PlaceOrderRequest) (o : Order)
      → c.OnGrid body.quantity
      → IsChecked body o
      → IsAcceptable o
  unfolding is_complete
  IsChecked-IsAcceptable body o grid h = record {
    fillable = record {
      quantity_grid = rw h.quantity_eq grid;
      filled_grid = rw h.unfilled c.zero-OnGrid;
      not_negative = rw h.unfilled (omega arith);
      within = elim (leq_cases o.quantity c.zero) [
        | inl (e, le) ↦ absurd (cc (e, h.positive))
        | inr (e, lt) ↦ rw h.unfilled (omega (arith, lt))
      ];
    };
    incomplete = rw (h.fresh, is_complete);
  }

  -- A reply that is not an error.
  abbrev pub IsOk : Result EngineError ProcessResult → Type 0
  IsOk r = (x : ProcessResult) × (r ≡ ok x)

  settle_limit-IsOk :
      (a : Market) (t : Order) (fs : List Fill)
      → t.price ≢ none
      → IsOk (settle OrderType.limit a t fs).1
  unfolding settle
  settle_limit-IsOk a t fs priced = elim (Bool-cases (is_spent t)) [
    | inl spent ↦ rw (spent, settle) (_, refl)
    | inr live ↦ elim (Option-cases t.price) [
      | inl missing ↦ absurd (priced missing)
      | inr (l, e) ↦ rw (settle-rested a t fs l live e) (_, refl)
    ]
  ]

  place-IsOk :
      (a : Market) (o : Order) (kind : OrderType)
      → leq o.quantity c.zero ≡ false
      → is_complete o ≡ false
      → (kind ≡ OrderType.limit → o.price ≢ none)
      → IsOk (place_as kind a o).1
  unfolding place_as settle
  place-IsOk a o OrderType.limit positive live priced =
      let same = sweep-SameOrder OrderType.limit a.sequence o (queue (opposite o.side) a) live in
      rw positive (settle_limit-IsOk _ _ _ (λ missing. priced refl (sym same.price ∙ missing)))
  place-IsOk a o OrderType.market positive live priced = rw (positive, settle) (_, refl)

  -- An order that the order route sends is never refused by an engine that stands for a market,
  -- as long as its quantity is on the grid: process_order returns, and its reply is no error.
  pub place_order-process_order :
      (to_lowercase : String → String) (id : c.Uuid) (delivered : Bool) (body : PlaceOrderRequest)
      (answer : HttpResponse) (o : Order) (e : MatchingEngine) (a : Market)
      → place_order to_lowercase id delivered body ≡ (answer, some o)
      → c.OnGrid body.quantity
      → Models e a
      → (e' : MatchingEngine) × (x : ProcessResult) × (process_order e o ≡ some (e', ok x))
  unfolding place_order
  place_order-process_order to_lowercase id delivered body answer o e a sent grid h =
      let checked = place_parsed-IsChecked body id delivered _ _ answer o sent in
      let good = IsChecked-IsAcceptable body o grid checked in
      let placed = process_order-place e a o h good in
      let fine = place-IsOk a o o.order_type checked.positive good.incomplete checked.priced in
      (placed.0.0, fine.0, placed.1 ∙ ap (λ r. some (placed.0.0, r)) (placed.3 ∙ fine.1))
