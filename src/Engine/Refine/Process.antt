-- ===== src/Engine/Refine/Process.antt =====
-- matching.rs: `process_order`, beside `place` in the market.
use lmax_clob.Common.{
  ◌++◌, ◌≡◌, refl, ap, ◌∙◌, subst, true, false, not, inl, inr, none, some, List, [], ◌∷◌, arith,
  Bool-cases, Option-cases,
}
use lmax_clob.Crates.{Crates}
use lmax_clob.Crates.Decimal.{leq, less}
use lmax_clob.Engine.Types.{
  Order, OrderType, remaining, is_complete, Fill, ProcessResult, EngineError, ok, err,
}
use lmax_clob.Engine.Levels.Flat.{flatten}
use lmax_clob.Engine.Book.{levels}
use lmax_clob.Engine.Matching.{MatchingEngine, Matching, opposite, is_spent}
use lmax_clob.Engine.Process.{
  Reply, resting_result, loop_fuel, start_matching, run_loop, rest_remainder, process_order,
  dispatch,
}
use lmax_clob.Engine.Spec.{
  Swept, Market, Outcome, queue, with_queue, enqueue, sweep, after_sweep, rest_reply, settle, place,
  place_as,
}
use lmax_clob.Engine.Refine.Amounts.{IsFillable, IsLive-of_not_spent}
use lmax_clob.Engine.Refine.Holds.{IsResting, length-Resolves}
use lmax_clob.Engine.Refine.Sweep.{match_loop-sweep}
use lmax_clob.Engine.Refine.Traded.{BookIsComplete}
use lmax_clob.Engine.Refine.Loop.{forget, ids}
use lmax_clob.Engine.Refine.Insert.{insert_order-none, insert_order-linked, linked}
use lmax_clob.Engine.Refine.Models.{Models, IsAcceptable, start-Facing, swept-Models, linked-Models}
use lmax_clob.Engine.Refine.Keeps.{sweep-SameOrder}

module _ ⦃c : Crates⦄ where
  pub less-zero_remaining : (t : Order) → less c.zero (remaining t) ≡ not (is_spent t)
  less-zero_remaining t =
      ground (arith, c.cmp_lem c.zero (remaining t), c.cmp_lem (remaining t) c.zero)

  -- A reply that agrees with the outcome in the market.
  abbrev pub Agrees : Reply → Outcome → Type 0
  Agrees r x = Models r.0 x.0 × (r.1 ≡ x.1)

  rest_remainder-spent :
      (m : Matching) (a : Market)
      → Models m.engine a
      → is_spent m.taker ≡ true
      → Agrees (rest_remainder m) (settle OrderType.limit a m.taker m.fills)
  unfolding rest_remainder settle
  rest_remainder-spent m a h e = rw (less-zero_remaining m.taker, e) (h, refl)

  rest_remainder-unpriced :
      (m : Matching) (a : Market)
      → Models m.engine a
      → is_spent m.taker ≡ false
      → m.taker.price ≡ none
      → Agrees (rest_remainder m) (settle OrderType.limit a m.taker m.fills)
  unfolding rest_remainder settle
  rest_remainder-unpriced m a h e unpriced =
      rw
        (
          less-zero_remaining m.taker,
          e,
          insert_order-none m.engine.book m.taker unpriced,
          unpriced,
          rest_remainder,
          settle,
        )
        (h, refl)

  resting_result-rest_reply : (fs : List Fill) → resting_result fs ≡ rest_reply fs
  unfolding resting_result rest_reply
  resting_result-rest_reply [] = refl
  resting_result-rest_reply (f ∷ fs) = refl

  pub settle-rested :
      (a : Market) (t : Order) (fs : List Fill) (p : c.Num)
      → is_spent t ≡ false
      → t.price ≡ some p
      → settle OrderType.limit a t fs
        ≡ (with_queue t.side (enqueue t.side p t (queue t.side a)) a, ok (rest_reply fs))
  unfolding settle
  settle-rested a t fs p e priced = ground arith

  pub rest_remainder-linked :
      (m : Matching) (p : c.Num)
      → is_spent m.taker ≡ false
      → m.taker.price ≡ some p
      → leq m.taker.quantity c.zero ≡ false
      → rest_remainder m ≡ (
        record m.engine { book = linked m.taker.side m.engine.book m.taker p },
        ok (resting_result m.fills),
      )
  unfolding rest_remainder
  rest_remainder-linked m p e priced positive =
      rw (less-zero_remaining m.taker, e)
        (rw (insert_order-linked m.taker.side m.engine.book m.taker p refl priced positive))

  rest_remainder-rested :
      (m : Matching) (a : Market) (p : c.Num)
      → Models m.engine a
      → is_spent m.taker ≡ false
      → m.taker.price ≡ some p
      → leq m.taker.quantity c.zero ≡ false
      → IsResting m.taker.side p m.taker
      → Agrees (rest_remainder m) (settle OrderType.limit a m.taker m.fills)
  rest_remainder-rested m a p h e priced positive resting =
      rw (rest_remainder-linked m p e priced positive, settle-rested a m.taker m.fills p e priced)
        (
          linked-Models m.taker.side m.engine a m.taker p h resting,
          ap ok (resting_result-rest_reply m.fills),
        )

  rest_remainder-settle :
      (m : Matching) (a : Market)
      → Models m.engine a
      → IsFillable m.taker
      → leq m.taker.quantity c.zero ≡ false
      → (is_spent m.taker ≡ false → is_complete m.taker ≡ false)
      → Agrees (rest_remainder m) (settle OrderType.limit a m.taker m.fills)
  rest_remainder-settle m a h f positive unspent = elim (Bool-cases (is_spent m.taker)) [
    | inl e ↦ rest_remainder-spent m a h e
    | inr e ↦ elim (Option-cases m.taker.price) [
      | inl unpriced ↦ rest_remainder-unpriced m a h e unpriced
      | inr (p, priced) ↦ rest_remainder-rested m a p h e priced positive (record {
        live = IsLive-of_not_spent m.taker f e;
        on_side = refl;
        limit = p;
        priced = priced;
        at_level = refl;
        incomplete = unspent e;
      })
    ]
  ]

  module _ (e : MatchingEngine) (a : Market) (o : Order) (h : Models e a)
      (good : IsAcceptable o) where
    abbrev pub swept : OrderType → Swept
    swept kind = sweep kind a.sequence o (queue (opposite o.side) a)

    -- The loop ends, and its state stands for the market after the sweep.
    pub run_loop-sweep :
        (kind : OrderType)
        → (m : Matching) × (run_loop kind e o ≡ some m)
          × (m.taker ≡ (swept kind).taker)
          × (m.fills ≡ (swept kind).fills)
          × Models m.engine (after_sweep o.side a (swept kind))
          × IsFillable m.taker
          × ((gone : List c.Uuid) × (ids (queue (opposite o.side) a)
                ≡ gone ++ ids (swept kind).rest)
              × (m.engine.book.index ≡ forget gone e.book.index))
          × (BookIsComplete e.book → BookIsComplete m.engine.book)
    unfolding run_loop loop_fuel start_matching
    run_loop-sweep kind =
        let start = start-Facing o.side e a o h refl good.fillable in
        let size =
          length-Resolves e.book.orders (flatten (levels (opposite o.side) e.book))
            (queue (opposite o.side) a) start.makers.resolves in
        let (m, run, w) =
          match_loop-sweep kind (loop_fuel e.book o) (opposite o.side) (start_matching e o)
            (queue (opposite o.side) a) (queue o.side a) (omega (arith, size)) start in
        let same = ap (λ n. sweep kind n o (queue (opposite o.side) a)) h.sequence_eq in
        (
          m,
          run,
          w.taker_eq ∙ ap (λ (x : Swept). x.taker) same,
          w.fills_eq ∙ ap (λ (x : Swept). x.fills) same,
          subst (λ x. Models m.engine (after_sweep o.side a x)) same
              (swept-Models o.side m a _ w.facing w.sequence_eq),
          w.facing.taker,
          (w.gone, w.gone_eq ∙ ap (λ (x : Swept). w.gone ++ ids x.rest) same, w.index_eq),
          w.complete,
        )

    abbrev Placed : OrderType → Type 0
    Placed kind =
        (r : Reply) × (dispatch kind e o ≡ some r)
        × Models r.0 (place_as kind a o).0
        × (r.1 ≡ (place_as kind a o).1)

    refused : (kind : OrderType) → leq o.quantity c.zero ≡ true → Placed kind
    unfolding dispatch place_as
    refused OrderType.limit zero = rw zero ((e, err EngineError.invalid_quantity), refl, h, refl)
    refused OrderType.market zero = rw zero ((e, err EngineError.invalid_quantity), refl, h, refl)

    accepted : (kind : OrderType) → leq o.quantity c.zero ≡ false → Placed kind
    unfolding dispatch place_as
    accepted OrderType.limit positive =
        let (m, run, taker, fs, models, fillable, _, _) = run_loop-sweep OrderType.limit in
        let same =
          sweep-SameOrder OrderType.limit a.sequence o (queue (opposite o.side) a)
            good.incomplete in
        let settled =
          rest_remainder-settle m (after_sweep o.side a (swept OrderType.limit)) models fillable
            (rw (taker, same.quantity) positive) (rw taker same.unspent) in
        rw positive
          (rest_remainder m, rw run, rw (← taker, ← fs) settled.0, rw (← taker, ← fs) settled.1)
    accepted OrderType.market positive =
        let (m, run, taker, fs, models, fillable, _, _) = run_loop-sweep OrderType.market in
        rw positive (
          (m.engine, ok (ProcessResult.fills m.fills)),
          rw run,
          models,
          ap (λ x. ok (ProcessResult.fills x)) fs,
        )

    -- An engine that stands for a market (its slab, price levels and index hold exactly the
    -- queued orders) and an acceptable order: process_order returns, and its reply and the
    -- market that its engine then stands for are those of the abstract market, which matches
    -- against the head of the other queue.
    pub process_order-place :
        (r : Reply) × (process_order e o ≡ some r)
        × Models r.0 (place a o).0
        × (r.1 ≡ (place a o).1)
    unfolding process_order
    process_order-place = elim (Bool-cases (leq o.quantity c.zero)) [
      | inl zero ↦ refused o.order_type zero
      | inr positive ↦ accepted o.order_type positive
    ]
