-- ===== src/Engine/Market/Ledger.antt =====
-- What is traded under one id, beside what is left of the orders of that id.
use lmax_clob.Common.{
  ℕ, ◌+◌, ◌-◌, ◌≡◌, refl, sym, ap, ◌∙◌, Bool, true, false, inl, inr, List, [], ◌∷◌, ◌++◌, arith,
}
use lmax_clob.Crates.{Crates}
use lmax_clob.Crates.Decimal.{amount}
use lmax_clob.Engine.Types.{Side, Order, OrderType, remaining, Fill}
use lmax_clob.Engine.Levels.{order_on}
use lmax_clob.Engine.Matching.{add_fill}
use lmax_clob.Engine.Spec.{Priced, Swept, enqueue}
use lmax_clob.Engine.Refine.Amounts.{full_of_spent, quantity-add_fill}
use lmax_clob.Engine.Refine.Order.{Ordering-cases}
use lmax_clob.Engine.Market.Trades.{Trade, Trades, stop, pop, stay}

abbrev pub when : Bool → ℕ → ℕ
when true n = n
when false n = 0

when_add : (b : Bool) (m n : ℕ) → when b (m + n) ≡ when b m + when b n
when_add true m n = refl
when_add false m n = omega arith

module _ ⦃c : Crates⦄ where
  -- What an order has left.
  abbrev pub left : Order → ℕ
  left o = c.position o.quantity - c.position o.filled

  -- What these orders have left, of those with this id.
  abbrev pub owed : c.Uuid → Priced Order → ℕ
  owed id [] = 0
  owed id ((p, o) ∷ es) = when (c.uuid_eq o.id id) (left o) + owed id es

  -- What these fills trade for an order of this id, as their maker or as their taker.
  abbrev pub traded : c.Uuid → List Fill → ℕ
  traded id [] = 0
  traded id (f ∷ fs) =
      when (c.uuid_eq f.maker_order_id id) (amount f.quantity)
      + when (c.uuid_eq f.taker_order_id id) (amount f.quantity)
      + traded id fs

  pub traded-append :
      (id : c.Uuid) (fs gs : List Fill) → traded id (fs ++ gs) ≡ traded id fs + traded id gs
  traded-append id [] gs = omega arith
  traded-append id (f ∷ fs) gs = omega (arith, traded-append id fs gs)

  id-add_fill : (o : Order) (q : c.Num) → (add_fill o q).id ≡ o.id
  unfolding add_fill
  id-add_fill o q = refl

  -- A trade takes as much from either side as it is of.
  left-Trade :
      {kind : OrderType} {t o : Order} {p : c.Num}
      → Trade kind t o p
      → (left t
          ≡ left (add_fill t (c.min (remaining t) (remaining o)))
            + amount (c.min (remaining t) (remaining o)))
        × (left o
            ≡ left (add_fill o (c.min (remaining t) (remaining o)))
              + amount (c.min (remaining t) (remaining o)))
  left-Trade {t = t} {o = o} tr =
      let q = c.min (remaining t) (remaining o) in
      (
        omega (
          arith,
          tr.taker.filled_eq,
          tr.amounts.positive,
          tr.taker.fillable.within,
          quantity-add_fill t q,
        ),
        omega (
          arith,
          tr.maker.filled_eq,
          tr.amounts.positive,
          tr.maker.fillable.within,
          quantity-add_fill o q,
        ),
      )

  when-split :
      (id : c.Uuid) (o o' : Order) (q : ℕ)
      → o'.id ≡ o.id
      → left o ≡ left o' + q
      → when (c.uuid_eq o.id id) (left o)
        ≡ when (c.uuid_eq o'.id id) (left o') + when (c.uuid_eq o.id id) q
  when-split id o o' q same split =
      ap (when (c.uuid_eq o.id id)) split
      ∙ when_add (c.uuid_eq o.id id) (left o') q
      ∙ ap (λ x. when (c.uuid_eq x id) (left o') + when (c.uuid_eq o.id id) q) (sym same)

  pub traded-Trades :
      (id : c.Uuid) {kind : OrderType} {n : ℕ} {t : Order} {es : Priced Order} {w : Swept}
      → Trades kind n t es w
      → traded id w.fills + owed id w.rest + when (c.uuid_eq w.taker.id id) (left w.taker)
        ≡ owed id es + when (c.uuid_eq t.id id) (left t)
  traded-Trades id (stop f halt) = omega arith
  traded-Trades id (pop {t = t} {o = o} tr gone run) =
      let q = c.min (remaining t) (remaining o) in
      let full = full_of_spent (add_fill o q) tr.maker.fillable gone in
      let split = left-Trade tr in
      let all : left o ≡ amount q = omega (arith, split.1, full) in
      omega (
        arith,
        traded-Trades id run,
        when-split id t (add_fill t q) (amount q) (id-add_fill t q) split.0,
        ap (when (c.uuid_eq o.id id)) all,
      )
  traded-Trades id (stay {t = t} {o = o} tr more) =
      let q = c.min (remaining t) (remaining o) in
      let split = left-Trade tr in
      omega (
        arith,
        when-split id t (add_fill t q) (amount q) (id-add_fill t q) split.0,
        when-split id o (add_fill o q) (amount q) (id-add_fill o q) split.1,
      )

  pub owed-enqueue :
      (id : c.Uuid) (s : Side) (p : c.Num) (o : Order) (es : Priced Order)
      → owed id (enqueue s p o es) ≡ owed id es + when (c.uuid_eq o.id id) (left o)
  unfolding enqueue
  owed-enqueue id s p o [] = omega arith
  owed-enqueue id s p o ((q, x) ∷ es) = elim (Ordering-cases (order_on s p q)) [
    | inl e ↦ rw (e, enqueue) (omega arith)
    | inr (inl e) ↦ rw (e, enqueue) (omega (arith, owed-enqueue id s q o es))
    | inr (inr e) ↦ rw (e, enqueue) (omega (arith, owed-enqueue id s p o es))
  ]
