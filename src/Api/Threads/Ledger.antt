-- ===== src/Api/Threads/Ledger.antt =====
-- What is traded under one id in the whole run of an engine.
use lmax_clob.Common.{
  ℕ, ◌+◌, ◌≤◌, ◌≡◌, refl, sym, ap, ◌∙◌, subst, inl, inr, Option, none, some, some-injective, List,
  [], ◌∷◌, All, arith, Bool-cases, String,
}
use lmax_clob.Crates.{Crates}
use lmax_clob.Crates.Decimal.{leq}
use lmax_clob.Engine.Types.{Side, bid, ask, Order, OrderType, Fill, ok}
use lmax_clob.Engine.Matching.{MatchingEngine, new_engine, opposite, is_spent}
use lmax_clob.Engine.Process.{Reply}
use lmax_clob.Engine.Spec.{
  Swept, Market, Outcome, queue, with_queue, enqueue, sweep, after_sweep, rest_reply, rest_at,
  settle, place, place_as,
}
use lmax_clob.Engine.Refine.Holds.{IsResting}
use lmax_clob.Engine.Refine.Keeps.{sweep-SameOrder}
use lmax_clob.Engine.Refine.Models.{Models, IsAcceptable, empty_market, new_engine-Models}
use lmax_clob.Engine.Refine.Process.{process_order-place}
use lmax_clob.Engine.Market.Ledger.{
  when, left, owed, traded, traded-append, traded-Trades, owed-enqueue,
}
use lmax_clob.Engine.Market.Trades.{sweep-Trades}
use lmax_clob.Api.Threads.Replicas.{Runs, fills_in}

module _ ⦃c : Crates⦄ (id : c.Uuid) where
  -- What the resting orders of this id have left.
  abbrev pub resting : Market → ℕ
  resting a = owed id a.bids + owed id a.asks

  -- What the orders of this id had left when they were given.
  abbrev pub given : List Order → ℕ
  given [] = 0
  given (o ∷ os) = when (c.uuid_eq o.id id) (left o) + given os

  -- What an outcome trades, and what then rests.
  abbrev spent : Outcome → ℕ
  spent r = traded id (fills_in r.1) + resting r.0

  resting-after_sweep :
      (s : Side) (a : Market) (w : Swept)
      → resting (after_sweep s a w) ≡ owed id w.rest + owed id (queue s a)
  unfolding after_sweep
  resting-after_sweep bid a w = omega arith
  resting-after_sweep ask a w = omega arith

  resting-sides :
      (s : Side) (a : Market) → resting a ≡ owed id (queue (opposite s) a) + owed id (queue s a)
  resting-sides bid a = omega arith
  resting-sides ask a = omega arith

  resting-enqueue :
      (s : Side) (p : c.Num) (o : Order) (a : Market)
      → resting (with_queue s (enqueue s p o (queue s a)) a)
        ≡ resting a + when (c.uuid_eq o.id id) (left o)
  resting-enqueue bid p o a = omega (arith, owed-enqueue id bid p o a.bids)
  resting-enqueue ask p o a = omega (arith, owed-enqueue id ask p o a.asks)

  fills_in-rest_reply : (fs : List Fill) → fills_in (ok (rest_reply fs)) ≡ fs
  unfolding rest_reply
  fills_in-rest_reply [] = refl
  fills_in-rest_reply (f ∷ fs) = refl

  spent-settle :
      (kind : OrderType) (a : Market) (t : Order) (fs : List Fill)
      → spent (settle kind a t fs) ≤ traded id fs + resting a + when (c.uuid_eq t.id id) (left t)
  unfolding settle
  spent-settle OrderType.market a t fs = omega arith
  spent-settle OrderType.limit a t fs = elim (Bool-cases (is_spent t)) [
    | inl done ↦ rw (done, settle) (omega arith)
    | inr more ↦ rw (more, settle) (rests t.price)
  ]
    where
      rests :
          (price : Option c.Num)
          → spent (rest_at price a t fs)
            ≤ traded id fs + resting a + when (c.uuid_eq t.id id) (left t)
      rests none = omega arith
      rests (some p) =
          omega (arith, resting-enqueue t.side p t a, ap (traded id) (fills_in-rest_reply fs))

  spent-place :
      (e : MatchingEngine) (a : Market) (o : Order)
      → Models e a
      → IsAcceptable o
      → spent (place a o) ≤ resting a + when (c.uuid_eq o.id id) (left o)
  unfolding place_as
  spent-place e a o h good = elim (Bool-cases (leq o.quantity c.zero)) [
    | inl zero ↦ rw zero (omega arith)
    | inr positive ↦
        let w = sweep o.order_type a.sequence o (queue (opposite o.side) a) in
        let same =
          sweep-SameOrder o.order_type a.sequence o (queue (opposite o.side) a) good.incomplete in
        let trades =
          sweep-Trades o.order_type (opposite o.side) a.sequence o (queue (opposite o.side) a)
            good.fillable (makers_resting o.side) in
        rw positive (
          omega (
            arith,
            spent-settle o.order_type (after_sweep o.side a w) w.taker w.fills,
            resting-after_sweep o.side a w,
            resting-sides o.side a,
            traded-Trades id trades,
          ))
  ]
    where
      makers_resting : (s : Side) → All (λ x. IsResting (opposite s) x.0 x.1) (queue (opposite s) a)
      makers_resting bid = h.asks.resting
      makers_resting ask = h.bids.resting

  Runs-spent :
      (e e' : MatchingEngine) (a : Market) (os : List Order) (fs : List Fill)
      → Models e a
      → All IsAcceptable os
      → Runs e os e' fs
      → (a' : Market) × Models e' a' × (traded id fs + resting a' ≤ resting a + given os)
  Runs-spent e e' a [] fs h good (same, nothing) =
      (a, subst (λ x. Models x a) same h, omega (arith, ap (traded id) nothing))
  Runs-spent e e' a (o ∷ os) fs h good (r, later, run, more, all) =
      let (x, run', models, reply) = process_order-place e a o h good.0 in
      let same : x ≡ r = some-injective x r (sym run' ∙ run) in
      let (a', stands, bound) =
        Runs-spent r.0 e' (place a o).0 os later
          (subst (λ (y : Reply). Models y.0 (place a o).0) same models) good.1 more in
      let reported = ap fills_in (sym (ap (λ (y : Reply). y.1) same) ∙ reply) in
      (
        a',
        stands,
        omega (
          arith,
          bound,
          spent-place e a o h good.0,
          ap (traded id) all,
          traded-append id (fills_in r.1) later,
          ap (traded id) reported,
        ),
      )

  -- In a run of acceptable orders from a new engine, what all the fills trade for orders of one
  -- id, as makers or as takers, and what orders of that id have left in the book at the end, is
  -- together no more than what the orders of that id had left when they were given: whatever
  -- its fills are spread over, no order is filled beyond its quantity.
  pub Runs-given :
      (market_id : String) (e : MatchingEngine) (os : List Order) (fs : List Fill)
      → All IsAcceptable os
      → Runs (new_engine market_id) os e fs
      → (a : Market) × Models e a × (traded id fs + resting a ≤ given os)
  Runs-given market_id e os fs good run =
      let (a, stands, bound) =
        Runs-spent (new_engine market_id) e empty_market os fs (new_engine-Models market_id) good
          run in
      (a, stands, omega (arith, bound))
