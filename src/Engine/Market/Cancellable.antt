-- ===== src/Engine/Market/Cancellable.antt =====
-- matching.rs: in engines that are given each id once, every order that rests can be cancelled.
use lmax_clob.Common.{
  ℕ, ◌≡◌, refl, sym, ◌∙◌, subst, true, false, inl, inr, Option, none, some, List, [], ◌∷◌, arith,
  All, Bool-cases, Option-cases, some-injective,
}
use lmax_clob.Crates.{Crates}
use lmax_clob.Crates.Decimal.{leq}
use lmax_clob.Engine.Types.{Side, bid, ask, Order, OrderType, ProcessResult, ok}
use lmax_clob.Engine.Book.{index_put}
use lmax_clob.Engine.Matching.{MatchingEngine, Matching, opposite, is_spent}
use lmax_clob.Engine.Process.{Reply, process_order, cancel, dispatch, rest_remainder}
use lmax_clob.Engine.Spec.{Priced, Market, queue}
use lmax_clob.Engine.Refine.Resolve.{Resolves}
use lmax_clob.Engine.Refine.Complete.{IsComplete-set, IsComplete-remove, IsComplete-insert}
use lmax_clob.Engine.Refine.Traded.{BookIsComplete}
use lmax_clob.Engine.Refine.Loop.{forget}
use lmax_clob.Engine.Refine.Insert.{linked, insert_order-none}
use lmax_clob.Engine.Refine.Models.{Models, IsAcceptable}
use lmax_clob.Engine.Refine.Keeps.{sweep-SameOrder}
use lmax_clob.Engine.Refine.Struck.{struck, cancelled_order}
use lmax_clob.Engine.Refine.Cancel.{Withdrawn, cancel-Cancels, cancel-unknown, cancel-struck, found}
use lmax_clob.Engine.Refine.Process.{run_loop-sweep, rest_remainder-linked, less-zero_remaining}
use lmax_clob.Engine.Market.Reachable.{Reachable, started, processed, withdrawn, Reachable-Models}

module _ ⦃c : Crates⦄ where
  forget-none :
      (gone : List c.Uuid) (index : c.Uuid → Option ℕ) (id : c.Uuid)
      → index id ≡ none
      → forget gone index id ≡ none
  forget-none [] index id e = e
  forget-none (x ∷ gone) index id e =
      forget-none gone (index_put x none index) id (ground (arith, e))

  linked-IsComplete :
      (s : Side) (e : MatchingEngine) (o : Order) (p : c.Num)
      → BookIsComplete e.book
      → e.book.index o.id ≡ none
      → BookIsComplete (linked s e.book o p)
  linked-IsComplete bid e o p all unknown =
      IsComplete-insert e.book.orders e.book.index all o unknown
  linked-IsComplete ask e o p all unknown =
      IsComplete-insert e.book.orders e.book.index all o unknown

  rest_remainder-IsComplete :
      (m : Matching)
      → leq m.taker.quantity c.zero ≡ false
      → BookIsComplete m.engine.book
      → m.engine.book.index m.taker.id ≡ none
      → BookIsComplete (rest_remainder m).0.book
  unfolding rest_remainder
  rest_remainder-IsComplete m positive all unknown = elim (Bool-cases (is_spent m.taker)) [
    | inl e ↦ rw (less-zero_remaining m.taker, e) all
    | inr e ↦ elim (Option-cases m.taker.price) [
      | inl unpriced ↦
          rw
            (
              less-zero_remaining m.taker,
              e,
              insert_order-none m.engine.book m.taker unpriced,
              rest_remainder,
            )
            all
      | inr (p, priced) ↦
          rw (rest_remainder-linked m p e priced positive)
            (linked-IsComplete m.taker.side m.engine m.taker p all unknown)
    ]
  ]

  module _ (e : MatchingEngine) (a : Market) (o : Order) (h : Models e a) (good : IsAcceptable o)
      (all : BookIsComplete e.book) (unknown : e.book.index o.id ≡ none) where
    abbrev Completes : OrderType → Type 0
    Completes kind = (r : Reply) × (dispatch kind e o ≡ some r) × BookIsComplete r.0.book

    Completes-refused : (kind : OrderType) → leq o.quantity c.zero ≡ true → Completes kind
    unfolding dispatch
    Completes-refused OrderType.limit zero = rw zero (_, refl, all)
    Completes-refused OrderType.market zero = rw zero (_, refl, all)

    Completes-accepted : (kind : OrderType) → leq o.quantity c.zero ≡ false → Completes kind
    unfolding dispatch
    Completes-accepted OrderType.limit positive =
        let (m, run, taker, fs, models, fillable, (gone, left, forgets), complete) =
          run_loop-sweep e a o h good OrderType.limit in
        let same =
          sweep-SameOrder OrderType.limit a.sequence o (queue (opposite o.side) a)
            good.incomplete in
        rw positive (
          rest_remainder m,
          rw run,
          rest_remainder-IsComplete m (rw (taker, same.quantity) positive) (complete all)
              (rw (taker, same.id, forgets) (forget-none gone e.book.index o.id unknown)),
        )
    Completes-accepted OrderType.market positive =
        let (m, run, taker, fs, models, fillable, _, complete) =
          run_loop-sweep e a o h good OrderType.market in
        rw positive ((m.engine, ok (ProcessResult.fills m.fills)), rw run, complete all)

    process_order-IsComplete : (r : Reply) → process_order e o ≡ some r → BookIsComplete r.0.book
    unfolding process_order
    process_order-IsComplete r run =
        let (r', run', done) : Completes o.order_type = elim (Bool-cases (leq o.quantity c.zero)) [
          | inl zero ↦ Completes-refused o.order_type zero
          | inr positive ↦ Completes-accepted o.order_type positive
        ] in
        subst (λ (x : Reply). BookIsComplete x.0.book) (some-injective r' r (sym run' ∙ run)) done

  struck-IsComplete :
      (s : Side) (e : MatchingEngine) (id : c.Uuid) (k : ℕ) (l : c.Num) (o : Order)
      → c.slab_get e.book.orders k ≡ some o
      → o.id ≡ id
      → BookIsComplete e.book
      → BookIsComplete (struck s e.book id k l o)
  struck-IsComplete s e id k l o held owner all = on s
    where
      set :
          BookIsComplete (record e.book { orders = c.slab_set e.book.orders k (cancelled_order o) })
      set = IsComplete-set e.book.orders e.book.index all k (cancelled_order o) o held refl

      now : c.slab_get (c.slab_set e.book.orders k (cancelled_order o)) k ≡ some (cancelled_order o)
      now = ground (arith, c.get-set e.book.orders k (cancelled_order o) o k held)

      on : (s : Side) → BookIsComplete (struck s e.book id k l o)
      on bid = rw (← owner) (IsComplete-remove _ e.book.index set k (cancelled_order o) now)
      on ask = rw (← owner) (IsComplete-remove _ e.book.index set k (cancelled_order o) now)

  cancel-IsComplete :
      (e : MatchingEngine) (a : Market) (id : c.Uuid) (r : Reply)
      → Models e a
      → BookIsComplete e.book
      → cancel e id ≡ some r
      → BookIsComplete r.0.book
  cancel-IsComplete e a id r h all run = elim (Option-cases (e.book.index id)) [
    | inl unknown ↦
        subst (λ (x : Reply). BookIsComplete x.0.book)
          (some-injective _ r (sym (cancel-unknown e id unknown) ∙ run)) all
    | inr (k, known) ↦
        let (o, held, owner) = h.index id k known in
        let (l, priced, live, cut) = found e a h k o held in
        subst (λ (x : Reply). BookIsComplete x.0.book)
          (some-injective _ r
            (sym (cancel-struck o.side e id k o l refl known held live priced) ∙ run))
          (struck-IsComplete o.side e id k l o held owner all)
  ]

  -- Whenever `process_order` was given an order on the way to an engine, the index did not know its
  -- id: no order that rested had it.
  abbrev pub IsFresh : {e : MatchingEngine} → Reachable e → Type 0
  IsFresh (started market_id) = Unit
  IsFresh (processed e o r h good run) = (e.book.index o.id ≡ none) × IsFresh h
  IsFresh (withdrawn e id r h run) = IsFresh h

  Reachable-IsComplete : (e : MatchingEngine) (h : Reachable e) → IsFresh h → BookIsComplete e.book
  Reachable-IsComplete _ (started market_id) fresh =
      λ k o e. absurd (cc (c.get-new {A = Order} k, e))
  Reachable-IsComplete _ (processed e o r h good run) fresh =
      let (a, models, _, _) = Reachable-Models e h in
      process_order-IsComplete e a o models good (Reachable-IsComplete e h fresh.1) fresh.0 r run
  Reachable-IsComplete _ (withdrawn e id r h run) fresh =
      let (a, models, _, _) = Reachable-Models e h in
      cancel-IsComplete e a id r models (Reachable-IsComplete e h fresh) run

  -- A cancel of the order is answered: it is withdrawn, and the others keep their places.
  abbrev pub IsCancellable : MatchingEngine → Market → Order → Type 0
  IsCancellable e a o =
      (e' : MatchingEngine) × (a' : Market) × (cancel e o.id
        ≡ some (e', ok ProcessResult.cancelled))
      × Withdrawn o.id a a'
      × Models e' a'

  cancellable :
      (e : MatchingEngine) (a : Market) (k : ℕ) (o : Order)
      → Models e a
      → BookIsComplete e.book
      → c.slab_get e.book.orders k ≡ some o
      → IsCancellable e a o
  cancellable e a k o h all held = elim (cancel-Cancels e a o.id h) [
    | inl (unknown, _) ↦ absurd (cc (unknown, all k o held))
    | inr (e', a', run, gone, after, _) ↦ (e', a', run, gone, after)
  ]

  Resolves-IsCancellable :
      (e : MatchingEngine) (a : Market) (f : List (c.Num × ℕ)) (es : Priced Order)
      → Models e a
      → BookIsComplete e.book
      → Resolves e.book.orders f es
      → All (λ x. IsCancellable e a x.1) es
  Resolves-IsCancellable e a [] [] h all r = tt
  Resolves-IsCancellable e a [] (x ∷ es) h all r = absurd r
  Resolves-IsCancellable e a (x ∷ f) [] h all r = tt
  Resolves-IsCancellable e a ((p, k) ∷ f) ((q, o) ∷ es) h all r =
      (cancellable e a k o h all r.1, Resolves-IsCancellable e a f es h all r.2)

  -- An engine reached from MatchingEngine::new by process_order of acceptable orders and by
  -- cancel, where the index never knew the id of an order when process_order was given it: it
  -- stands for a market in which every queued order, on both sides, can be cancelled by its id:
  -- cancel answers that it has, and an order of that id is taken out of its queue, the others
  -- keeping their places.
  pub Reachable-IsCancellable :
      (e : MatchingEngine) (h : Reachable e)
      → IsFresh h
      → (a : Market) × Models e a × ((s : Side) → All (λ x. IsCancellable e a x.1) (queue s a))
  Reachable-IsCancellable e h fresh =
      let (a, models, _, _) = Reachable-Models e h in (a, models, each a models)
    where
      each : (a : Market) → Models e a → (s : Side) → All (λ x. IsCancellable e a x.1) (queue s a)
      each a m bid =
          Resolves-IsCancellable e a _ a.bids m (Reachable-IsComplete e h fresh) m.bids.resolves
      each a m ask =
          Resolves-IsCancellable e a _ a.asks m (Reachable-IsComplete e h fresh) m.asks.resolves
