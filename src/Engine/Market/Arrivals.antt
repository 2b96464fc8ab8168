-- ===== src/Engine/Market/Arrivals.antt =====
-- The time order in the queues of a market.
use mathlib.Core.List.Sublist
use mathlib.Core.List.{Sublist, nil-sublist, sublist-append_left}
use lmax_clob.Common.{
  Ordering, ◌≡◌, refl, sym, ap, ◌∙◌, subst, ◌⊎◌, inl, inr, List, [], ◌∷◌, ◌++◌, map, Bool-cases,
  Option-cases,
}
use lmax_clob.Crates.{Crates}
use lmax_clob.Crates.Decimal.{leq}
use lmax_clob.Engine.Types.{Side, bid, ask, Order, OrderType, Fill}
use lmax_clob.Engine.Levels.{order_on}
use lmax_clob.Engine.Matching.{MatchingEngine, opposite, is_spent}
use lmax_clob.Engine.Spec.{
  Priced, Swept, Market, queue, enqueue, sweep, after_sweep, settle, place, place_as,
}
use lmax_clob.Engine.Refine.Trade.{id-add_fill}
use lmax_clob.Engine.Refine.Models.{Models, IsAcceptable}
use lmax_clob.Engine.Refine.Keeps.{sweep-SameOrder}
use lmax_clob.Engine.Refine.Process.{settle-rested}
use lmax_clob.Engine.Refine.Indexed.{after_sweep-queues, queue-with_queue, queue-with_queue-other}
use lmax_clob.Engine.Market.Sorted.{IsSorted, Holds-IsSorted}
use lmax_clob.Engine.Market.Trades.{Trades, stop, pop, stay, sweep-Trades}
use lmax_clob.Engine.Market.Uncrossed.{opposite-IsResting}
use lmax_clob.Engine.Snapshot.Levels.{pick, at_price, at_price-enqueue}

module _ ⦃c : Crates⦄ where
  abbrev id_of : Order → c.Uuid
  id_of o = o.id

  -- The ids under a price, in the order of the queue.
  abbrev pub ids_at : Side → c.Num → Priced Order → List c.Uuid
  ids_at s p es = map id_of (at_price s p es)

  -- At each price the orders stand in the order of this list.
  abbrev pub InTime : Side → Priced Order → List c.Uuid → Type 0
  InTime s es os = (p : c.Num) → Sublist (ids_at s p es) os

  pub queue-IsSorted :
      (e : MatchingEngine) (a : Market) (s : Side) → Models e a → IsSorted s (queue s a)
  queue-IsSorted e a bid h = Holds-IsSorted a.bids h.bids
  queue-IsSorted e a ask h = Holds-IsSorted a.asks h.asks

  pick-sublist :
      (t : Ordering) (o : Order) (xs : List Order)
      → Sublist (map id_of xs) (map id_of (pick t o xs))
  pick-sublist Ordering.lt o xs = Sublist.refl (map id_of xs)
  pick-sublist Ordering.eq o xs = Sublist.cons o.id (Sublist.refl (map id_of xs))
  pick-sublist Ordering.gt o xs = Sublist.refl (map id_of xs)

  pick-mono :
      (t : Ordering) (o m : Order) (xs ys : List Order)
      → o.id ≡ m.id
      → Sublist (map id_of xs) (map id_of ys)
      → Sublist (map id_of (pick t o xs)) (map id_of (pick t m ys))
  pick-mono Ordering.lt o m xs ys e h = h
  pick-mono Ordering.gt o m xs ys e h = h
  pick-mono Ordering.eq o m xs ys e h =
      subst (λ id. Sublist (o.id ∷ map id_of xs) (id ∷ map id_of ys)) e (Sublist.cons-cons o.id h)

  -- What a sweep leaves of a queue is in its order.
  Trades-sublist :
      (s : Side) (q : c.Num) {kind : OrderType} {n : _} {t : Order} {es : Priced Order} {w : Swept}
      → Trades kind n t es w
      → Sublist (ids_at s q w.rest) (ids_at s q es)
  Trades-sublist s q (stop {es = es} f halt) = Sublist.refl (ids_at s q es)
  Trades-sublist s q (pop {o = o} {p = p} {es = es} tr gone run) =
      Sublist.trans (Trades-sublist s q run) (pick-sublist (order_on s q p) o (at_price s q es))
  Trades-sublist s q (stay {o = o} {p = p} {es = es} tr more) =
      pick-mono (order_on s q p) _ o (at_price s q es) (at_price s q es) (id-add_fill o _)
        (Sublist.refl (ids_at s q es))

  -- So is what the withdrawal of an order leaves.
  pub InTime-cut :
      (s : Side) (x : c.Num × Order) (before later : Priced Order) (os : List c.Uuid)
      → InTime s (before ++ x ∷ later) os
      → InTime s (before ++ later) os
  InTime-cut s x before later os h p = Sublist.trans (cut before) (h p)
    where
      cut : (es : Priced Order) → Sublist (ids_at s p (es ++ later)) (ids_at s p (es ++ x ∷ later))
      cut [] = pick-sublist (order_on s p x.0) x.1 (at_price s p later)
      cut ((q, o) ∷ es) = pick-mono (order_on s p q) o o _ _ refl (cut es)

  -- An order that is queued comes last at its price.
  InTime-enqueue :
      (s : Side) (p : c.Num) (o : Order) (es : Priced Order) (os : List c.Uuid)
      → IsSorted s es
      → InTime s es os
      → InTime s (enqueue s p o es) (os ++ o.id ∷ [])
  InTime-enqueue s p o es os sorted h q =
      rw (at_price-enqueue s q p o es sorted) (last (order_on s q p))
    where
      map-snoc : (xs ys : List Order) → map id_of (xs ++ ys) ≡ map id_of xs ++ map id_of ys
      map-snoc [] ys = refl
      map-snoc (x ∷ xs) ys = ap (◌∷◌ x.id) (map-snoc xs ys)

      few : (t : Ordering) → Sublist (map id_of (pick t o [])) (o.id ∷ [])
      few Ordering.lt = nil-sublist (o.id ∷ [])
      few Ordering.eq = Sublist.refl (o.id ∷ [])
      few Ordering.gt = nil-sublist (o.id ∷ [])

      last : (t : Ordering) → Sublist (map id_of (at_price s q es ++ pick t o [])) (os ++ o.id ∷ [])
      last t = rw (map-snoc (at_price s q es) (pick t o [])) (Sublist.append (h q) (few t))

  InTime-later :
      (s : Side) (es : Priced Order) (os : List c.Uuid) (id : c.Uuid)
      → InTime s es os
      → InTime s es (os ++ id ∷ [])
  InTime-later s es os id h p = Sublist.trans (h p) (sublist-append_left os (id ∷ []))

  -- What becomes of the two queues when an order is settled.
  Kept : Order → Market → Market → Type 0
  Kept t b x =
      (queue (opposite t.side) x ≡ queue (opposite t.side) b)
      × ((queue t.side x ≡ queue t.side b)
          ⊎ ((p : c.Num) × (queue t.side x ≡ enqueue t.side p t (queue t.side b))))

  settle-Kept :
      (kind : OrderType) (b : Market) (t : Order) (fs : List Fill) → Kept t b (settle kind b t fs).0
  unfolding settle Kept
  settle-Kept OrderType.market b t fs = (refl, inl refl)
  settle-Kept OrderType.limit b t fs = elim (Bool-cases (is_spent t)) [
    | inl e ↦ rw (e, settle) (refl, inl refl)
    | inr e ↦ elim (Option-cases t.price) [
      | inl unpriced ↦ rw (e, unpriced, settle) (refl, inl refl)
      | inr (p, priced) ↦
          rw (settle-rested b t fs p e priced)
            (queue-with_queue-other t.side _ b, inr (p, queue-with_queue t.side _ b))
    ]
  ]

  module _ (e : MatchingEngine) (a : Market) (o : Order) (os : List c.Uuid) (h : Models e a)
      (good : IsAcceptable o) (time : (s : Side) → InTime s (queue s a) os) where
    -- The two queues after an order.
    Ordered : Market → Type 0
    Ordered x =
        InTime (opposite o.side) (queue (opposite o.side) x) (os ++ o.id ∷ [])
        × InTime o.side (queue o.side x) (os ++ o.id ∷ [])

    both : (s : Side) → InTime s (queue s a) (os ++ o.id ∷ [])
    both s = InTime-later s (queue s a) os o.id (time s)

    settled-Ordered :
        (kind : OrderType)
        → let w = sweep kind a.sequence o (queue (opposite o.side) a) in
          Ordered (settle kind (after_sweep o.side a w) w.taker w.fills).0
    unfolding Ordered both Kept
    settled-Ordered kind =
        let s = o.side in
        let es = queue (opposite s) a in
        let w = sweep kind a.sequence o es in
        let b = after_sweep s a w in
        let x = (settle kind b w.taker w.fills).0 in
        let same = sweep-SameOrder kind a.sequence o es good.incomplete in
        let swept = after_sweep-queues s a w in
        let kept =
          subst
            (λ r.
              (queue (opposite r) x ≡ queue (opposite r) b)
              × ((queue r x ≡ queue r b)
                  ⊎ ((p : c.Num) × (queue r x ≡ enqueue r p w.taker (queue r b)))))
            same.side (settle-Kept kind b w.taker w.fills) in
        let trades =
          sweep-Trades kind (opposite s) a.sequence o es good.fillable (opposite-IsResting s h).0 in
        (
          λ p.
              subst (λ ys. Sublist (ids_at (opposite s) p ys) (os ++ o.id ∷ []))
                (sym (kept.0 ∙ swept.0))
                (Sublist.trans (Trades-sublist (opposite s) p trades) (both (opposite s) p)),
          elim kept.1 [
            | inl still ↦
                subst (λ ys. InTime s ys (os ++ o.id ∷ [])) (sym (still ∙ swept.1)) (both s)
            | inr (p, queued) ↦
                subst (λ ys. InTime s ys (os ++ o.id ∷ []))
                  (sym (queued ∙ ap (enqueue s p w.taker) swept.1))
                  (subst (λ id. InTime s (enqueue s p w.taker (queue s a)) (os ++ id ∷ [])) same.id
                    (InTime-enqueue s p w.taker (queue s a) os (queue-IsSorted e a s h) (time s)))
          ],
        )

    place-Ordered : (kind : OrderType) → Ordered (place_as kind a o).0
    unfolding place_as Ordered both
    place-Ordered kind = elim (Bool-cases (leq o.quantity c.zero)) [
      | inl zero ↦ rw zero (both (opposite o.side), both o.side)
      | inr positive ↦ rw positive (settled-Ordered kind)
    ]

    pub place-InTime : (s : Side) → InTime s (queue s (place a o).0) (os ++ o.id ∷ [])
    unfolding Ordered
    place-InTime s = on s o.side (place-Ordered o.order_type)
      where
        on :
            (s r : Side)
            → InTime (opposite r) (queue (opposite r) (place a o).0) (os ++ o.id ∷ [])
              × InTime r (queue r (place a o).0) (os ++ o.id ∷ [])
            → InTime s (queue s (place a o).0) (os ++ o.id ∷ [])
        on bid bid x = x.1
        on ask ask x = x.1
        on bid ask x = x.0
        on ask bid x = x.0
