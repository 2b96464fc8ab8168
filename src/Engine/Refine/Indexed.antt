-- ===== src/Engine/Refine/Indexed.antt =====
-- matching.rs: what `process_order` does to the index of the book.
use lmax_clob.Common.{
  ℕ, ◌≡◌, refl, sym, ap, ◌∙◌, subst, true, false, ◌⊎◌, inl, inr, Option, some, List, [], ◌++◌,
  arith, Bool-cases, Option-cases, some-injective,
}
use lmax_clob.Crates.{Crates}
use lmax_clob.Crates.Decimal.{leq}
use lmax_clob.Engine.Types.{ProcessResult, ok, Side, bid, ask, Order, OrderType}
use lmax_clob.Engine.Book.{index_put}
use lmax_clob.Engine.Matching.{MatchingEngine, Matching, opposite, is_spent}
use lmax_clob.Engine.Process.{Reply, process_order, dispatch, rest_remainder}
use lmax_clob.Engine.Spec.{
  Priced, Swept, Market, queue, with_queue, enqueue, after_sweep, settle, place, place_as,
}
use lmax_clob.Engine.Refine.Loop.{forget, ids}
use lmax_clob.Engine.Refine.Insert.{linked, insert_order-none}
use lmax_clob.Engine.Refine.Models.{Models, IsAcceptable}
use lmax_clob.Engine.Refine.Keeps.{sweep-SameOrder}
use lmax_clob.Engine.Refine.Process.{
  process_order-place, run_loop-sweep, swept, settle-rested, rest_remainder-linked,
  less-zero_remaining,
}

module _ ⦃c : Crates⦄ where
  -- What becomes of the queue of an order's own side and of the index when the order is settled:
  -- nothing, or what is left of the order is queued, and its id leads to it.
  abbrev pub Rested :
      Side → c.Uuid → Market → (c.Uuid → Option ℕ) → Market → MatchingEngine → Type 0
  Rested s id a index a' e' =
      ((queue s a' ≡ queue s a) × (e'.book.index ≡ index))
      ⊎ ((k : ℕ) × (t : Order) × (p : c.Num) × (t.id ≡ id)
          × (queue s a' ≡ enqueue s p t (queue s a))
          × (c.slab_get e'.book.orders k ≡ some t)
          × (e'.book.index ≡ index_put id (some k) index))

  pub queue-with_queue :
      (s : Side) (es : Priced Order) (a : Market) → queue s (with_queue s es a) ≡ es
  queue-with_queue bid es a = refl
  queue-with_queue ask es a = refl

  pub queue-with_queue-other :
      (s : Side) (es : Priced Order) (a : Market)
      → queue (opposite s) (with_queue s es a) ≡ queue (opposite s) a
  queue-with_queue-other bid es a = refl
  queue-with_queue-other ask es a = refl

  pub after_sweep-queues :
      (s : Side) (a : Market) (w : Swept)
      → (queue (opposite s) (after_sweep s a w) ≡ w.rest)
        × (queue s (after_sweep s a w) ≡ queue s a)
  unfolding after_sweep
  after_sweep-queues bid a w = (refl, refl)
  after_sweep-queues ask a w = (refl, refl)

  linked-entry :
      (s : Side) (e : MatchingEngine) (o : Order) (p : c.Num)
      → let key = (c.slab_insert e.book.orders o).0 in
        (c.slab_get (linked s e.book o p).orders key ≡ some o)
        × ((linked s e.book o p).index ≡ index_put o.id (some key) e.book.index)
  linked-entry bid e o p =
      (ground (arith, c.get-insert e.book.orders o (c.slab_insert e.book.orders o).0), refl)
  linked-entry ask e o p =
      (ground (arith, c.get-insert e.book.orders o (c.slab_insert e.book.orders o).0), refl)

  abbrev SettledAs : Matching → Market → Type 0
  SettledAs m a =
      let x = (settle OrderType.limit a m.taker m.fills).0 in
      (queue (opposite m.taker.side) x ≡ queue (opposite m.taker.side) a)
      × Rested m.taker.side m.taker.id a m.engine.book.index x (rest_remainder m).0

  rest_remainder-Rested :
      (m : Matching) (a : Market) → leq m.taker.quantity c.zero ≡ false → SettledAs m a
  unfolding rest_remainder settle
  rest_remainder-Rested m a positive = elim (Bool-cases (is_spent m.taker)) [
    | inl e ↦ rw (less-zero_remaining m.taker, e) (refl, inl (refl, refl))
    | inr e ↦ elim (Option-cases m.taker.price) [
      | inl unpriced ↦
          rw
            (
              less-zero_remaining m.taker,
              e,
              insert_order-none m.engine.book m.taker unpriced,
              unpriced,
              rest_remainder,
              settle,
            )
            (refl, inl (refl, refl))
      | inr (p, priced) ↦
          let entry = linked-entry m.taker.side m.engine m.taker p in
          rw
            (
              rest_remainder-linked m p e priced positive,
              settle-rested a m.taker m.fills p e priced,
            )
            (
              queue-with_queue-other m.taker.side _ a,
              inr (_, m.taker, p, refl, queue-with_queue m.taker.side _ a, entry.0, entry.1),
            )
    ]
  ]

  -- The ids that leave the other side's queue are forgotten, and what is left of the order is
  -- listed.
  pub record Listed (e : MatchingEngine) (a : Market) (o : Order) (a' : Market)
      (e' : MatchingEngine) : Type 0 where
    pub gone : List c.Uuid
    pub gone_eq : ids (queue (opposite o.side) a) ≡ gone ++ ids (queue (opposite o.side) a')
    pub rested : Rested o.side o.id a (forget gone e.book.index) a' e'

  Listed-settled :
      (e : MatchingEngine) (a b x : Market) (o t : Order) (gone : List c.Uuid) (w : Swept)
      (index : c.Uuid → Option ℕ) (e' : MatchingEngine)
      → t.side ≡ o.side
      → t.id ≡ o.id
      → (queue (opposite o.side) b ≡ w.rest) × (queue o.side b ≡ queue o.side a)
      → ids (queue (opposite o.side) a) ≡ gone ++ ids w.rest
      → index ≡ forget gone e.book.index
      → (queue (opposite t.side) x ≡ queue (opposite t.side) b) × Rested t.side t.id b index x e'
      → Listed e a o x e'
  Listed-settled e a b x o t gone w index e' side id swept left forgets (other, own) = record {
    gone = gone;
    gone_eq = left ∙ ap (λ es. gone ++ ids es) (sym (kept ∙ swept.0));
    rested = elim rested [
      | inl (same, i) ↦ inl (same ∙ swept.1, i ∙ forgets)
      | inr (k, y, p, name, queued, at, i) ↦ inr (
        k,
        y,
        p,
        name,
        queued ∙ ap (enqueue o.side p y) swept.1,
        at,
        i ∙ ap (index_put o.id (some k)) forgets,
      )
    ];
  }
    where
      kept : queue (opposite o.side) x ≡ queue (opposite o.side) b
      kept = subst (λ s. queue (opposite s) x ≡ queue (opposite s) b) side other

      rested : Rested o.side o.id b index x e'
      rested =
          subst (λ s. Rested s o.id b index x e') side
            (subst (λ i. Rested t.side i b index x e') id own)

  module _ (e : MatchingEngine) (a : Market) (o : Order) (h : Models e a)
      (good : IsAcceptable o) where
    abbrev Lists : OrderType → Type 0
    Lists kind = (r : Reply) × (dispatch kind e o ≡ some r) × Listed e a o (place_as kind a o).0 r.0

    Lists-refused : (kind : OrderType) → leq o.quantity c.zero ≡ true → Lists kind
    unfolding dispatch place_as
    Lists-refused OrderType.limit zero =
        rw zero (_, refl, record { gone = []; gone_eq = refl; rested = inl (refl, refl) })
    Lists-refused OrderType.market zero =
        rw zero (_, refl, record { gone = []; gone_eq = refl; rested = inl (refl, refl) })

    Lists-accepted : (kind : OrderType) → leq o.quantity c.zero ≡ false → Lists kind
    unfolding dispatch place_as settle
    Lists-accepted OrderType.limit positive =
        let (m, run, taker, fs, models, fillable, (gone, left, forgets), _) =
          run_loop-sweep e a o h good OrderType.limit in
        let w = swept e a o h good OrderType.limit in
        let same =
          sweep-SameOrder OrderType.limit a.sequence o (queue (opposite o.side) a)
            good.incomplete in
        let b = after_sweep o.side a w in
        rw positive (
          rest_remainder m,
          rw run,
          rw (← taker, ← fs)
              (Listed-settled e a b _ o m.taker gone w m.engine.book.index _ (rw taker same.side)
                (rw taker same.id) (after_sweep-queues o.side a w) left forgets
                (rest_remainder-Rested m b (rw (taker, same.quantity) positive))),
        )
    Lists-accepted OrderType.market positive =
        let (m, run, taker, fs, models, fillable, (gone, left, forgets), _) =
          run_loop-sweep e a o h good OrderType.market in
        let w = swept e a o h good OrderType.market in
        let b = after_sweep o.side a w in
        rw positive (
          (m.engine, ok (ProcessResult.fills m.fills)),
          rw run,
          Listed-settled e a b b o o gone w m.engine.book.index m.engine refl refl
              (after_sweep-queues o.side a w) left forgets (refl, inl (refl, refl)),
        )

    process_order-Lists : Lists o.order_type
    process_order-Lists = elim (Bool-cases (leq o.quantity c.zero)) [
      | inl zero ↦ Lists-refused o.order_type zero
      | inr positive ↦ Lists-accepted o.order_type positive
    ]

    -- An engine that stands for a market (its slab and its levels hold just the queued orders,
    -- and each id that its index knows leads to an order of that id) and an acceptable order:
    -- process_order returns, and its reply and the market that its engine then stands for are
    -- those of the abstract market, which matches against the head of the other queue. The
    -- index forgets just the ids that leave the other queue; where something of the order is
    -- queued, its id then leads to it, and where nothing is, the order's own queue and the rest
    -- of the index stay as they were.
    pub process_order-Listed :
        (r : Reply) × (process_order e o ≡ some r)
        × Models r.0 (place a o).0
        × (r.1 ≡ (place a o).1)
        × Listed e a o (place a o).0 r.0
    unfolding process_order
    process_order-Listed =
        let (r, run, models, reply) = process_order-place e a o h good in
        let (r', run', listed) = process_order-Lists in
        let same = some-injective r' r (sym run' ∙ run) in
        (r, run, models, reply, subst (λ (x : Reply). Listed e a o (place a o).0 x.0) same listed)
