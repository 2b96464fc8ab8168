-- ===== src/Engine/Refine/Insert.antt =====
-- orderbook.rs: `insert_order`, beside the queue of the order's side.
use lmax_clob.Common.{
  ℕ, ◌≡◌, ◌⊎◌, refl, sym, ap, ◌∙◌, false, inl, inr, none, some, [], ◌∷◌, arith, ◌==◌, Bool-cases,
  Ordering, All,
}
use lmax_clob.Crates.{Crates}
use lmax_clob.Crates.Decimal.{leq}
use lmax_clob.Engine.Types.{Side, bid, ask, Order, ok, err, InsertError}
use lmax_clob.Engine.Levels.{Levels, order_on, push_back}
use lmax_clob.Engine.Levels.Flat.{flatten}
use lmax_clob.Engine.Book.{OrderBook, levels, with_levels, index_put, insert_order}
use lmax_clob.Engine.Matching.{opposite}
use lmax_clob.Engine.Spec.{Priced, enqueue}
use lmax_clob.Engine.Refine.Order.{SamePrice, SamePrice-of_order}
use lmax_clob.Engine.Refine.Levels.{IsOrdered, flatten-push_back, push_back-IsOrdered}
use lmax_clob.Engine.Refine.Resolve.{
  keys, Fresh, Fresh_vacant, Resolves-insert, Resolves-enqueue, Distinct-enqueue,
}
use lmax_clob.Engine.Refine.Holds.{IsResting, Holds}
use lmax_clob.Engine.Refine.Covers.{In, Covers, In-enqueue, Side-cases}

module _ ⦃c : Crates⦄ where
  relevel : {s : Side} {p q : c.Num} {o : Order} → SamePrice p q → IsResting s p o → IsResting s q o
  relevel e r = record {
    live = r.live;
    on_side = r.on_side;
    limit = r.limit;
    priced = r.priced;
    at_level = r.at_level ∙ e;
    incomplete = r.incomplete;
  }

  enqueue-IsResting :
      (s : Side) (p : c.Num) (o : Order) (es : Priced Order)
      → IsResting s p o
      → All (λ e. IsResting s e.0 e.1) es
      → All (λ e. IsResting s e.0 e.1) (enqueue s p o es)
  unfolding enqueue
  enqueue-IsResting s p o [] r h = (r, tt)
  enqueue-IsResting s p o ((q, m) ∷ es) r h = ground (
    arith,
    r,
    h.0,
    h.1,
    enqueue-IsResting s p o es r h.1,
    λ (e : order_on s p q ≡ Ordering.eq).
        enqueue-IsResting s q o es (relevel (SamePrice-of_order s p q e) r) h.1,
  )

  module _ (slab : c.Slab Order) (s : Side) (ls : Levels) (es : Priced Order) (o : Order)
      (h : Holds s slab ls es) where
    unheld : Fresh (c.slab_insert slab o).0 (keys (flatten ls))
    unheld =
        Fresh_vacant slab (c.slab_insert slab o).0 (flatten ls) es (c.insert_vacant slab o)
          h.resolves

    get_new : c.slab_get (c.slab_insert slab o).1 (c.slab_insert slab o).0 ≡ some o
    get_new = ground (arith, c.get-insert slab o (c.slab_insert slab o).0)

    pub Holds-insert_other : Holds s (c.slab_insert slab o).1 ls es
    unfolding unheld
    Holds-insert_other = record {
      ordered = h.ordered;
      resolves = Resolves-insert slab o (flatten ls) es unheld h.resolves;
      distinct = h.distinct;
      resting = h.resting;
    }

    pub Holds-insert :
        (p : c.Num)
        → IsResting s p o
        → Holds s
            (c.slab_insert slab o).1
            (push_back s p (c.slab_insert slab o).0 ls)
            (enqueue s p o es)
    unfolding unheld get_new
    Holds-insert p resting =
        let key = (c.slab_insert slab o).0 in
        record {
          ordered = push_back-IsOrdered s p key ls h.ordered;
          resolves = rw (flatten-push_back s p key ls h.ordered) (
              Resolves-enqueue (c.slab_insert slab o).1 s p key o (flatten ls) es get_new
                (Resolves-insert slab o (flatten ls) es unheld h.resolves));
          distinct =
              rw (flatten-push_back s p key ls h.ordered)
                (Distinct-enqueue s p key (flatten ls) unheld h.distinct);
          resting = enqueue-IsResting s p o es resting h.resting;
        }

  -- The book after `insert_order` of an order of this side.
  abbrev pub linked : Side → OrderBook → Order → c.Num → OrderBook
  linked s b o price =
      with_levels s (push_back s price (c.slab_insert b.orders o).0 (levels s b)) (record b {
        orders = (c.slab_insert b.orders o).1;
        index = index_put o.id (some (c.slab_insert b.orders o).0) b.index;
      })

  pub insert_order-none :
      (b : OrderBook) (o : Order)
      → o.price ≡ none
      → insert_order b o ≡ err InsertError.market_order_not_allowed
  unfolding insert_order
  insert_order-none b o e = rw (e, insert_order)

  pub insert_order-linked :
      (s : Side) (b : OrderBook) (o : Order) (p : c.Num)
      → o.side ≡ s
      → o.price ≡ some p
      → leq o.quantity c.zero ≡ false
      → insert_order b o ≡ ok (linked s b o p, (c.slab_insert b.orders o).0)
  unfolding insert_order
  insert_order-linked s b o p side e pos = ground arith

  keys-push_back :
      (s : Side) (p : c.Num) (j k : ℕ) (ls : Levels)
      → IsOrdered s ls
      → (j ≡ k) ⊎ In j (keys (flatten ls))
      → In j (keys (flatten (push_back s p k ls)))
  keys-push_back s p j k ls ord i =
      rw (flatten-push_back s p k ls ord) (In-enqueue s p j k (flatten ls) i)

  levels-linked :
      (s : Side) (b : OrderBook) (o : Order) (p : c.Num)
      → levels s (linked s b o p) ≡ push_back s p (c.slab_insert b.orders o).0 (levels s b)
  levels-linked bid b o p = refl
  levels-linked ask b o p = refl

  levels-linked-opposite :
      (s : Side) (b : OrderBook) (o : Order) (p : c.Num)
      → levels (opposite s) (linked s b o p) ≡ levels (opposite s) b
  levels-linked-opposite bid b o p = refl
  levels-linked-opposite ask b o p = refl

  orders-linked :
      (s : Side) (b : OrderBook) (o : Order) (p : c.Num)
      → (linked s b o p).orders ≡ (c.slab_insert b.orders o).1
  orders-linked bid b o p = refl
  orders-linked ask b o p = refl

  pub linked-Covers :
      (s : Side) (b : OrderBook) (o : Order) (p : c.Num)
      → o.side ≡ s
      → IsOrdered s (levels s b)
      → Covers b
      → Covers (linked s b o p)
  linked-Covers s b o p side ord h j x at = elim (Bool-cases ((c.slab_insert b.orders o).0 == j)) [
    | inl hit ↦
        let same : x ≡ o = ground (arith, c.get-insert b.orders o j, found) in
        rw (ap (λ (y : Order). y.side) same ∙ side, levels-linked s b o p)
          (keys-push_back s p j _ (levels s b) ord (inl (ground arith)))
    | inr miss ↦
        let old : In j (keys (flatten (levels x.side b))) =
          h j x (ground (arith, c.get-insert b.orders o j, found)) in
        elim (Side-cases s x.side) [
          | inl e ↦
              rw (e, levels-linked s b o p)
                (keys-push_back s p j _ (levels s b) ord (inr (rw e at old)))
          | inr e ↦ rw (e, levels-linked-opposite s b o p) (rw e at old)
        ]
  ]
    where
      found : c.slab_get (c.slab_insert b.orders o).1 j ≡ some x
      found = ap (λ slab. c.slab_get slab j) (sym (orders-linked s b o p)) ∙ at
