-- ===== src/Engine/Market/Errors.antt =====
-- matching.rs: the error replies of `process_order` and `cancel`.
use lmax_clob.Common.{
  ◌≡◌, ◌⊎◌, refl, sym, ap, ◌∙◌, true, false, inl, inr, none, some, some-injective, List, Bool-cases,
  Option-cases,
}
use lmax_clob.Crates.{Crates}
use lmax_clob.Crates.Decimal.{leq}
use lmax_clob.Engine.Types.{
  Order, OrderType, is_complete, Fill, EngineError, ProcessResult, ok, err,
}
use lmax_clob.Engine.Matching.{MatchingEngine, is_spent, opposite}
use lmax_clob.Engine.Process.{Reply, process_order, cancel, dispatch}
use lmax_clob.Engine.Spec.{Market, queue, sweep, settle, place_as}
use lmax_clob.Engine.Refine.Models.{Models, IsAcceptable}
use lmax_clob.Engine.Refine.Cancel.{cancel-Cancels, cancel-unknown}
use lmax_clob.Engine.Refine.Keeps.{sweep-SameOrder}
use lmax_clob.Engine.Refine.Process.{process_order-place, settle-rested}

module _ ⦃c : Crates⦄ where
  -- A limit order without a price that matching does not spend.
  abbrev pub IsUnpriced : OrderType → Market → Order → Type 0
  IsUnpriced kind a o =
      (kind ≡ OrderType.limit)
      × (o.price ≡ none)
      × (is_spent (sweep kind a.sequence o (queue (opposite o.side) a)).taker ≡ false)

  abbrev pub IsRefused : OrderType → Market → Order → Type 0
  IsRefused kind a o = (leq o.quantity c.zero ≡ true) ⊎ IsUnpriced kind a o

  settle_limit-unpriced :
      (a : Market) (t : Order) (fs : List Fill)
      → is_spent t ≡ false
      → t.price ≡ none
      → settle OrderType.limit a t fs ≡ (a, err EngineError.invalid_quantity)
  unfolding settle
  settle_limit-unpriced a t fs live missing = rw (live, missing) refl

  settle_limit-err :
      (a : Market) (t : Order) (fs : List Fill) (x : EngineError)
      → (settle OrderType.limit a t fs).1 ≡ err x
      → (x ≡ EngineError.invalid_quantity) × (t.price ≡ none) × (is_spent t ≡ false)
  unfolding settle
  settle_limit-err a t fs x e = elim (Bool-cases (is_spent t)) [
    | inl spent ↦ absurd (cc (rw (spent, settle) at e))
    | inr live ↦ elim (Option-cases t.price) [
      | inl missing ↦
          let refused = ap (λ y. y.1) (settle_limit-unpriced a t fs live missing) in
          (cc (refused, e), missing, live)
      | inr (l, priced) ↦ absurd (cc (ap (λ y. y.1) (settle-rested a t fs l live priced), e))
    ]
  ]

  settle-IsRefused :
      (kind : OrderType) (a b : Market) (o : Order) (fs : List Fill) (x : EngineError)
      → is_complete o ≡ false
      → (settle kind b (sweep kind a.sequence o (queue (opposite o.side) a)).taker fs).1 ≡ err x
      → (x ≡ EngineError.invalid_quantity) × IsRefused kind a o
  unfolding settle
  settle-IsRefused OrderType.market a b o fs x live e = absurd (cc e)
  settle-IsRefused OrderType.limit a b o fs x live e =
      let (what, missing, left) = settle_limit-err b _ fs x e in
      let same = sweep-SameOrder OrderType.limit a.sequence o (queue (opposite o.side) a) live in
      (what, inr (refl, sym same.price ∙ missing, left))

  place_as-err :
      (kind : OrderType) (a : Market) (o : Order) (x : EngineError)
      → is_complete o ≡ false
      → (place_as kind a o).1 ≡ err x
      → (x ≡ EngineError.invalid_quantity) × IsRefused kind a o
  unfolding place_as
  place_as-err kind a o x live e = elim (Bool-cases (leq o.quantity c.zero)) [
    | inl zero ↦ (cc (rw (zero, place_as) at e), inl zero)
    | inr positive ↦ settle-IsRefused kind a _ o _ x live (rw (positive, place_as) at e)
  ]

  place_as-unpriced :
      (kind : OrderType) (a : Market) (o : Order)
      → leq o.quantity c.zero ≡ false
      → is_complete o ≡ false
      → IsUnpriced kind a o
      → (place_as kind a o).1 ≡ err EngineError.invalid_quantity
  unfolding place_as
  place_as-unpriced OrderType.market a o positive live (limit, missing, left) = absurd (cc limit)
  place_as-unpriced OrderType.limit a o positive live (limit, missing, left) =
      let same = sweep-SameOrder OrderType.limit a.sequence o (queue (opposite o.side) a) live in
      rw positive (ap (λ y. y.1) (settle_limit-unpriced _ _ _ left (same.price ∙ missing)))

  place_as-refused :
      (kind : OrderType) (a : Market) (o : Order)
      → is_complete o ≡ false
      → IsRefused kind a o
      → (place_as kind a o).1 ≡ err EngineError.invalid_quantity
  unfolding place_as
  place_as-refused kind a o live (inl zero) = rw zero refl
  place_as-refused kind a o live (inr h) = elim (Bool-cases (leq o.quantity c.zero)) [
    | inl zero ↦ rw zero refl
    | inr positive ↦ place_as-unpriced kind a o positive live h
  ]

  dispatch-zero :
      (kind : OrderType) (e : MatchingEngine) (o : Order)
      → leq o.quantity c.zero ≡ true
      → dispatch kind e o ≡ some (e, err EngineError.invalid_quantity)
  unfolding dispatch
  dispatch-zero OrderType.limit e o zero = rw zero refl
  dispatch-zero OrderType.market e o zero = rw zero refl

  -- process_order of an acceptable order replies with an error just where the quantity is not
  -- positive, or where matching does not spend a limit order that has no price; the error is
  -- InvalidQuantity, and for a quantity that is not positive the engine stays as it is.
  pub process_order-err :
      (e : MatchingEngine) (a : Market) (o : Order) (r : Reply)
      → Models e a
      → IsAcceptable o
      → process_order e o ≡ some r
      → ((x : EngineError)
          → r.1 ≡ err x
          → (x ≡ EngineError.invalid_quantity) × IsRefused o.order_type a o)
        × (IsRefused o.order_type a o → r.1 ≡ err EngineError.invalid_quantity)
        × (leq o.quantity c.zero ≡ true → r.0 ≡ e)
  unfolding process_order
  process_order-err e a o r h good run =
      let placed = process_order-place e a o h good in
      let same = some-injective placed.0 r (sym placed.1 ∙ run) in
      let reply = sym placed.3 ∙ ap (λ (y : Reply). y.1) same in
      (
        λ x failed. place_as-err o.order_type a o x good.incomplete (reply ∙ failed),
        λ refused. sym reply ∙ place_as-refused o.order_type a o good.incomplete refused,
        λ zero.
            ap (λ (y : Reply). y.0)
              (some-injective r _ (sym run ∙ dispatch-zero o.order_type e o zero)),
      )

  -- On an engine that stands for a market a second cancel of an id is refused: the first one
  -- cancels an order, or is refused and leaves the engine as it is, and the next one is refused
  -- as OrderNotFound and leaves the engine as it is.
  pub cancel_twice :
      (e : MatchingEngine) (a : Market) (id : c.Uuid)
      → Models e a
      → (e' : MatchingEngine) × (((e' ≡ e)
            × (cancel e id ≡ some (e', err (EngineError.order_not_found id))))
          ⊎ (cancel e id ≡ some (e', ok ProcessResult.cancelled)))
        × (cancel e' id ≡ some (e', err (EngineError.order_not_found id)))
  cancel_twice e a id h = elim (cancel-Cancels e a id h) [
    | inl (unknown, refused) ↦ (e, inl (refl, refused), refused)
    | inr (e', a', done, _, _, unknown) ↦ (e', inr done, cancel-unknown e' id unknown)
  ]
