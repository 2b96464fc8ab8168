-- ===== src/Engine/Refine/Trade.antt =====
-- One trade of a matching loop, on a book that holds two lists of resting orders.
use lmax_clob.Common.{
  ℕ, ◌≡◌, refl, ap, ◌∙◌, subst, true, false, inl, inr, some, List, [], ◌∷◌, ◌++◌, arith,
}
use lmax_clob.Crates.{Crates}
use lmax_clob.Crates.Decimal.{leq_cases}
use lmax_clob.Engine.Types.{Side, bid, ask, Order, remaining, is_complete, next_u64}
use lmax_clob.Engine.Levels.{Levels}
use lmax_clob.Engine.Book.{OrderBook, levels, pop_front}
use lmax_clob.Engine.Matching.{Matching, opposite, is_spent, add_fill, execute_fill}
use lmax_clob.Engine.Spec.{Priced, fill_of}
use lmax_clob.Engine.Refine.Amounts.{
  IsFillable, IsLive, is_spent_cases, IsTraded, min-IsTraded, AfterTrade, add_fill-AfterTrade,
  IsLive-of_not_spent, taker_spent,
}
use lmax_clob.Engine.Refine.Holds.{
  IsResting, Holds, IndexSound, Holds-set_head, Holds-pop_head, Holds-set_other, Holds-pop_other,
  IndexSound-set, IndexSound-remove, get-set_self,
}
use lmax_clob.Engine.Refine.Covers.{Covers, Covers-set, Covers-pop}
use lmax_clob.Engine.Refine.Step.{
  levels-pop_front, levels-pop_front-opposite, orders-pop_front, index-pop_front, settled_engine,
  execute_fill_lem,
}

module _ ⦃c : Crates⦄ where
  -- A loop whose taker meets the orders `es` of the side `s`, its own side holding `os`.
  pub record Facing (s : Side) (m : Matching) (es os : Priced Order) : Type 0 where
    pub faces : opposite m.taker.side ≡ s
    pub makers : Holds s m.engine.book.orders (levels s m.engine.book) es
    pub own : Holds (opposite s) m.engine.book.orders (levels (opposite s) m.engine.book) os
    pub index : IndexSound m.engine.book.orders m.engine.book.index
    pub covers : Covers m.engine.book
    pub taker : IsFillable m.taker

  pub levels-orders :
      (s : Side) (b : OrderBook) (x : c.Slab Order)
      → levels s (record b { orders = x }) ≡ levels s b
  levels-orders bid b x = refl
  levels-orders ask b x = refl

  pub side-add_fill : (o : Order) (q : c.Num) → (add_fill o q).side ≡ o.side
  unfolding add_fill
  side-add_fill o q = refl

  pub id-add_fill : (o : Order) (q : c.Num) → (add_fill o q).id ≡ o.id
  unfolding add_fill
  id-add_fill o q = refl

  pub incomplete_after_fill :
      (o : Order) (q : c.Num) → is_spent (add_fill o q) ≡ false → is_complete (add_fill o q) ≡ false
  unfolding add_fill is_complete remaining
  incomplete_after_fill o q h = rw (h, is_complete)

  add_fill-IsResting :
      (s : Side) (p : c.Num) (o : Order) (q : c.Num)
      → IsResting s p o
      → IsLive (add_fill o q)
      → is_spent (add_fill o q) ≡ false
      → IsResting s p (add_fill o q)
  unfolding add_fill
  add_fill-IsResting s p o q r live more = record {
    live = live;
    on_side = r.on_side;
    limit = r.limit;
    priced = r.priced;
    at_level = r.at_level;
    incomplete = incomplete_after_fill o q more;
  }

  -- What `execute_fill` makes of the loop.
  abbrev pub traded : Matching → ℕ → c.Num → Order → Matching
  traded m k p o = record {
    engine = settled_engine m k p o (c.min (remaining m.taker) (remaining o));
    taker = add_fill m.taker (c.min (remaining m.taker) (remaining o));
    fills = m.fills ++ fill_of p o m.taker (next_u64 m.engine.sequence) ∷ [];
  }

  module _ (s : Side) (m : Matching) (p : c.Num) (o : Order) (es os : Priced Order) (k : ℕ)
      (ks : List ℕ) (ls : Levels) (f : Facing s m ((p, o) ∷ es) os)
      (best : levels s m.engine.book ≡ (p, k ∷ ks) ∷ ls) (live : is_spent m.taker ≡ false) where
    abbrev q : c.Num
    q = c.min (remaining m.taker) (remaining o)

    slab' : c.Slab Order
    slab' = c.slab_set m.engine.book.orders k (add_fill o q)

    book' : OrderBook
    unfolding slab'
    book' = record m.engine.book { orders = slab' }

    makers : Holds s m.engine.book.orders ((p, k ∷ ks) ∷ ls) ((p, o) ∷ es)
    makers = subst (λ x. Holds s m.engine.book.orders x ((p, o) ∷ es)) best f.makers

    pub held : c.slab_get m.engine.book.orders k ≡ some o
    held = makers.resolves.1

    taker-IsLive : IsLive m.taker
    taker-IsLive = elim (is_spent_cases m.taker f.taker) [
      | inl (e, full) ↦ cc
      | inr (e, lt) ↦ (f.taker, lt)
    ]

    amount-IsTraded : IsTraded m.taker o q
    amount-IsTraded = min-IsTraded m.taker o taker-IsLive f.makers.resting.0.live

    taker' : AfterTrade m.taker q
    taker' =
        let t = amount-IsTraded in
        add_fill-AfterTrade m.taker q f.taker t.grid t.positive t.le_taker

    maker' : AfterTrade o q
    maker' =
        let t = amount-IsTraded in
        add_fill-AfterTrade o q f.makers.resting.0.live.0 t.grid t.positive t.le_maker

    pub execute_fill-traded : execute_fill m k p ≡ traded m k p o
    execute_fill-traded = execute_fill_lem m k p o held (elim (leq_cases q c.zero) [
      | inl (e, le) ↦ absurd (omega (arith, amount-IsTraded.positive))
      | inr (e, lt) ↦ e
    ])

    pub traded-pop :
        is_spent (add_fill o (c.min (remaining m.taker) (remaining o))) ≡ true
        → Facing s (traded m k p o) es os
    unfolding slab' book'
    traded-pop gone =
        let best' = levels-orders s m.engine.book slab' ∙ best in
        let now = get-set_self m.engine.book.orders k (add_fill o q) o held in
        rw (gone, f.faces)
          (record {
            faces = ap opposite (side-add_fill m.taker q) ∙ f.faces;
            makers =
                rw
                  (
                    levels-pop_front book' s p k ks ls (add_fill o q) best' now,
                    orders-pop_front book' s p k ks ls (add_fill o q) best' now,
                  )
                  (Holds-pop_head s m.engine.book.orders p k ks ls o es makers (add_fill o q));
            own =
                rw
                  (
                    levels-pop_front-opposite book' s p k ks ls (add_fill o q) best' now,
                    orders-pop_front book' s p k ks ls (add_fill o q) best' now,
                    levels-orders (opposite s) m.engine.book slab',
                  )
                  (Holds-pop_other s m.engine.book.orders (levels (opposite s) m.engine.book) os k o
                    f.own held f.makers.resting.0.on_side (add_fill o q));
            index =
                rw
                  (
                    orders-pop_front book' s p k ks ls (add_fill o q) best' now,
                    index-pop_front book' s p k ks ls (add_fill o q) best' now,
                  )
                  (IndexSound-remove slab' m.engine.book.index
                    (IndexSound-set m.engine.book.orders m.engine.book.index f.index k
                      (add_fill o q) o held (id-add_fill o q))
                    k (add_fill o q) now);
            covers =
                Covers-pop book' (pop_front book' s p) s p k ks ls
                  (Covers-set m.engine.book k (add_fill o q) o f.covers held (side-add_fill o q))
                  best' (orders-pop_front book' s p k ks ls (add_fill o q) best' now)
                  (levels-pop_front book' s p k ks ls (add_fill o q) best' now)
                  (levels-pop_front-opposite book' s p k ks ls (add_fill o q) best' now);
            taker = taker'.fillable;
          })

    pub traded-stay :
        is_spent (add_fill o (c.min (remaining m.taker) (remaining o))) ≡ false
        → Facing s
            (traded m k p o)
            ((p, add_fill o (c.min (remaining m.taker) (remaining o))) ∷ es)
            os
          × (is_spent (add_fill m.taker (c.min (remaining m.taker) (remaining o))) ≡ true)
    unfolding slab'
    traded-stay more =
        let best' = levels-orders s m.engine.book slab' ∙ best in
        let resting = f.makers.resting.0 in
        (
          rw more (record {
            faces = ap opposite (side-add_fill m.taker q) ∙ f.faces;
            makers = rw best' (
                Holds-set_head s m.engine.book.orders p k ks ls o es makers (add_fill o q) (
                  add_fill-IsResting s p o q resting (IsLive-of_not_spent _ maker'.fillable more)
                    more));
            own = rw (levels-orders (opposite s) m.engine.book slab') (
                Holds-set_other s m.engine.book.orders (levels (opposite s) m.engine.book) os k o
                  f.own held resting.on_side (add_fill o q));
            index =
                IndexSound-set m.engine.book.orders m.engine.book.index f.index k (add_fill o q) o
                  held (id-add_fill o q);
            covers = Covers-set m.engine.book k (add_fill o q) o f.covers held (side-add_fill o q);
            taker = taker'.fillable;
          }),
          taker_spent m.taker o q amount-IsTraded taker' maker' more,
        )
