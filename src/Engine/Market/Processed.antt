-- ===== src/Engine/Market/Processed.antt =====
-- `process_order` as the trades that its fills record.
use lmax_clob.Common.{
  ◌≡◌, refl, sym, ap, ◌∙◌, subst, inl, inr, some, List, [], ◌∷◌, arith, Bool-cases, Option-cases,
  some-injective, All,
}
use lmax_clob.Crates.{Crates}
use lmax_clob.Crates.Decimal.{leq}
use lmax_clob.Engine.Types.{Side, bid, ask, Order, OrderType, Fill, ProcessResult, ok}
use lmax_clob.Engine.Matching.{MatchingEngine, opposite, is_spent}
use lmax_clob.Engine.Process.{Reply, process_order}
use lmax_clob.Engine.Spec.{
  Priced, Swept, Market, queue, with_queue, sweep, after_sweep, rest_reply, settle, place, place_as,
}
use lmax_clob.Engine.Refine.Holds.{IsResting}
use lmax_clob.Engine.Refine.Models.{Models, IsAcceptable}
use lmax_clob.Engine.Refine.Keeps.{sweep-SameOrder}
use lmax_clob.Engine.Refine.Process.{process_order-place}
use lmax_clob.Engine.Market.Trades.{Trades, sweep-Trades}

module _ ⦃c : Crates⦄ where
  queue-with_queue-opposite :
      (s : Side) (es : Priced Order) (a : Market)
      → queue (opposite s) (with_queue s es a) ≡ queue (opposite s) a
  queue-with_queue-opposite bid es a = refl
  queue-with_queue-opposite ask es a = refl

  sequence-with_queue :
      (s : Side) (es : Priced Order) (a : Market) → (with_queue s es a).sequence ≡ a.sequence
  sequence-with_queue bid es a = refl
  sequence-with_queue ask es a = refl

  queue-after_sweep :
      (s : Side) (a : Market) (w : Swept) → queue (opposite s) (after_sweep s a w) ≡ w.rest
  unfolding after_sweep
  queue-after_sweep bid a w = refl
  queue-after_sweep ask a w = refl

  sequence-after_sweep :
      (s : Side) (a : Market) (w : Swept) → (after_sweep s a w).sequence ≡ w.sequence
  unfolding after_sweep
  sequence-after_sweep s a w = refl

  rest_reply-fills : (fs gs : List Fill) → rest_reply fs ≡ ProcessResult.fills gs → fs ≡ gs
  unfolding rest_reply
  rest_reply-fills [] gs e = cc
  rest_reply-fills (f ∷ fs) gs e = cc

  -- What the settling of an order keeps of the swept market, and what its reply says.
  pub record Settled (s : Side) (a : Market) (fs : List Fill) (x : Market) (gs : List Fill)
      : Type 0 where
    pub fills_eq : gs ≡ fs
    pub queue_eq : queue (opposite s) x ≡ queue (opposite s) a
    pub sequence_eq : x.sequence ≡ a.sequence

  settle-Settled :
      (kind : OrderType) (a : Market) (t : Order) (fs gs : List Fill)
      → (settle kind a t fs).1 ≡ ok (ProcessResult.fills gs)
      → Settled t.side a fs (settle kind a t fs).0 gs
  unfolding settle
  settle-Settled OrderType.market a t fs gs e = record {
    fills_eq = cc;
    queue_eq = refl;
    sequence_eq = refl;
  }
  settle-Settled OrderType.limit a t fs gs e = elim (Bool-cases (is_spent t)) [
    | inl spent ↦
        rw (spent, settle) (record { fills_eq = ground arith; queue_eq = refl; sequence_eq = refl })
    | inr live ↦ elim (Option-cases t.price) [
      | inl unpriced ↦ absurd (ground arith)
      | inr (p, priced) ↦ record {
        fills_eq = sym (rest_reply-fills fs gs (ground arith));
        queue_eq = ground (arith, queue-with_queue-opposite t.side _ a);
        sequence_eq = ground (arith, sequence-with_queue t.side _ a);
      }
    ]
  ]

  pub record Processed (a : Market) (o : Order) (e' : MatchingEngine) (fs : List Fill)
      : Type 0 where
    pub swept : Swept
    pub trades : Trades o.order_type a.sequence o (queue (opposite o.side) a) swept
    pub fills_eq : fs ≡ swept.fills
    pub after : Market
    pub models : Models e' after
    pub queue_eq : queue (opposite o.side) after ≡ swept.rest
    pub sequence_eq : after.sequence ≡ swept.sequence

  place-Settled :
      (a : Market) (o : Order) (fs : List Fill)
      → IsAcceptable o
      → (place a o).1 ≡ ok (ProcessResult.fills fs)
      → let w = sweep o.order_type a.sequence o (queue (opposite o.side) a) in
        Settled o.side (after_sweep o.side a w) w.fills (place a o).0 fs
  unfolding place_as
  place-Settled a o fs good e = elim (Bool-cases (leq o.quantity c.zero)) [
    | inl zero ↦ absurd (ground arith)
    | inr positive ↦
        let w = sweep o.order_type a.sequence o (queue (opposite o.side) a) in
        let same =
          sweep-SameOrder o.order_type a.sequence o (queue (opposite o.side) a) good.incomplete in
        rw positive (
          subst
            (λ s.
              Settled s (after_sweep o.side a w) w.fills
                (settle o.order_type (after_sweep o.side a w) w.taker w.fills).0 fs)
            same.side
            (settle-Settled o.order_type (after_sweep o.side a w) w.taker w.fills fs
              (rw positive at e)))
  ]

  pub process_order-Processed :
      (e e' : MatchingEngine) (a : Market) (o : Order) (fs : List Fill)
      → Models e a
      → IsAcceptable o
      → process_order e o ≡ some (e', ok (ProcessResult.fills fs))
      → Processed a o e' fs
  process_order-Processed e e' a o fs h good run =
      let (r, run', models, reply) = process_order-place e a o h good in
      let same : r ≡ (e', ok (ProcessResult.fills fs)) = some-injective _ _ (sym run' ∙ run) in
      let settled = place-Settled a o fs good (sym reply ∙ ap (λ (x : Reply). x.1) same) in
      record {
        swept = sweep o.order_type a.sequence o (queue (opposite o.side) a);
        trades =
            sweep-Trades o.order_type (opposite o.side) a.sequence o (queue (opposite o.side) a)
              good.fillable (makers_resting o.side);
        fills_eq = settled.fills_eq;
        after = (place a o).0;
        models = subst (λ x. Models x (place a o).0) (ap (λ (x : Reply). x.0) same) models;
        queue_eq = settled.queue_eq ∙ queue-after_sweep o.side a _;
        sequence_eq = settled.sequence_eq ∙ sequence-after_sweep o.side a _;
      }
    where
      makers_resting : (s : Side) → All (λ x. IsResting (opposite s) x.0 x.1) (queue (opposite s) a)
      makers_resting bid = h.asks.resting
      makers_resting ask = h.bids.resting
