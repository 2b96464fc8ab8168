-- ===== src/Engine/Refine/Struck.antt =====
-- The book that `cancel_order` leaves, side by side.
use lmax_clob.Common.{
  ℕ, ◌≡◌, refl, sym, ap, ◌∙◌, subst, true, false, inl, inr, Option, none, some, ◌++◌, All, arith,
  ◌==◌, Bool-cases,
}
use lmax_clob.Crates.{Crates}
use lmax_clob.Engine.Types.{Side, bid, ask, Order, OrderStatus, is_complete, ok}
use lmax_clob.Engine.Levels.{Levels}
use lmax_clob.Engine.Levels.Flat.{flatten}
use lmax_clob.Engine.Book.{
  OrderBook, levels, with_levels, index_put, cancel_order, cancel_live, unlink,
}
use lmax_clob.Engine.Matching.{opposite}
use lmax_clob.Engine.Spec.{Priced}
use lmax_clob.Engine.Refine.Resolve.{keys, Resolves-set, Resolves-remove}
use lmax_clob.Engine.Refine.Holds.{IsResting, Holds}
use lmax_clob.Engine.Refine.Covers.{In, Side-cases, Covers}
use lmax_clob.Engine.Refine.Unlink.{
  drop_key, unlinked, flatten-unlinked, unlinked-IsOrdered, Located,
}
use lmax_clob.Engine.Refine.Drop.{
  Distinct-drop_key, Fresh_dropped, In-drop_key, Located-Resolves, Cut, All-cut,
}

module _ ⦃c : Crates⦄ where
  abbrev pub cancelled_order : Order → Order
  cancelled_order o = record o { status = OrderStatus.cancelled }

  -- What `cancel_order` does to slab and index.
  abbrev pub strike : c.Uuid → ℕ → Order → OrderBook → OrderBook
  strike id k o b = record b {
    orders = c.slab_remove (c.slab_set b.orders k (cancelled_order o)) k;
    index = index_put id none b.index;
  }

  -- The book that `cancel_order` leaves.
  abbrev pub struck : Side → OrderBook → c.Uuid → ℕ → c.Num → Order → OrderBook
  struck s b id k l o = strike id k o (with_levels s (unlinked s l k (levels s b)) b)

  unlink-unlinked :
      (s : Side) (b : OrderBook) (k : ℕ) (l : c.Num)
      → unlink s l k b ≡ with_levels s (unlinked s l k (levels s b)) b
  unfolding unlink unlinked
  unlink-unlinked bid b k l = ground arith
  unlink-unlinked ask b k l = ground arith

  cancel_live-struck :
      (s : Side) (b : OrderBook) (id : c.Uuid) (k : ℕ) (o : Order) (q : Option c.Num) (l : c.Num)
      → o.side ≡ s
      → q ≡ some l
      → cancel_live b id k o q ≡ ok (struck s b id k l o)
  unfolding cancel_live
  cancel_live-struck s b id k o q l side priced =
      rw priced
        (ap (λ b'. ok (strike id k o b')) (ap (λ t. unlink t l k b) side ∙ unlink-unlinked s b k l))

  pub cancel_order-struck :
      (s : Side) (b : OrderBook) (id : c.Uuid) (k : ℕ) (o : Order) (l : c.Num)
      → o.side ≡ s
      → b.index id ≡ some k
      → c.slab_get b.orders k ≡ some o
      → is_complete o ≡ false
      → o.price ≡ some l
      → cancel_order b id ≡ some (ok (struck s b id k l o))
  unfolding cancel_order
  cancel_order-struck s b id k o l side known held live priced =
      rw (known, held, cancel_order)
        (rw live (ap some (cancel_live-struck s b id k o o.price l side priced)))

  module _ (s : Side) (slab : c.Slab Order) (ls : Levels) (es : Priced Order) (k : ℕ) (o : Order)
      (l : c.Num) (h : Holds s slab ls es) (held : c.slab_get slab k ≡ some o)
      (priced : o.price ≡ some l) where
    located : Located k l (flatten ls)
    located = Located-Resolves s slab k o l (flatten ls) es held priced h.resting h.resolves

    keys_left : flatten (unlinked s l k ls) ≡ drop_key k (flatten ls)
    unfolding located
    keys_left = flatten-unlinked s l k ls h.ordered located

    pub Holds-struck :
        (cut : Cut slab k o (flatten ls) es)
        → Holds s
            (c.slab_remove (c.slab_set slab k (cancelled_order o)) k)
            (unlinked s l k ls)
            (cut.before ++ cut.later)
    unfolding keys_left
    Holds-struck cut = record {
      ordered = unlinked-IsOrdered s l k ls h.ordered;
      resolves = rw keys_left (
          Resolves-remove _ k (drop_key k (flatten ls)) _ (Fresh_dropped k (flatten ls)) (
            Resolves-set slab k (cancelled_order o) o (drop_key k (flatten ls)) _ held
              (Fresh_dropped k (flatten ls)) cut.resolves));
      distinct = rw keys_left (Distinct-drop_key k (flatten ls) h.distinct);
      resting =
          All-cut (λ e. IsResting s e.0 e.1) (cut.level, o) cut.before cut.later
            (subst (All (λ e. IsResting s e.0 e.1)) cut.split h.resting);
    }

    In-struck :
        (j : ℕ)
        → (k == j) ≡ false
        → In j (keys (flatten ls))
        → In j (keys (flatten (unlinked s l k ls)))
    unfolding keys_left
    In-struck j miss i = rw keys_left (In-drop_key j k (flatten ls) miss i)

  levels-struck :
      (s : Side) (b : OrderBook) (id : c.Uuid) (k : ℕ) (l : c.Num) (o : Order)
      → (levels s (struck s b id k l o) ≡ unlinked s l k (levels s b))
        × (levels (opposite s) (struck s b id k l o) ≡ levels (opposite s) b)
        × ((struck s b id k l o).orders
            ≡ c.slab_remove (c.slab_set b.orders k (cancelled_order o)) k)
  levels-struck bid b id k l o = (refl, refl, refl)
  levels-struck ask b id k l o = (refl, refl, refl)

  pub Covers-struck :
      (s : Side) (b : OrderBook) (id : c.Uuid) (k : ℕ) (l : c.Num) (o : Order) (es : Priced Order)
      → Holds s b.orders (levels s b) es
      → c.slab_get b.orders k ≡ some o
      → o.price ≡ some l
      → Covers b
      → Covers (struck s b id k l o)
  Covers-struck s b id k l o es h held priced covers j x at = elim (Bool-cases (k == j)) [
    | inl hit ↦ absurd (gone hit)
    | inr miss ↦ elim (Side-cases s x.side) [
      | inl e ↦
          rw (e, (levels-struck s b id k l o).0)
            (In-struck s b.orders (levels s b) es k o l h held priced j miss (rw e at (old miss)))
      | inr e ↦ rw (e, (levels-struck s b id k l o).1) (rw e at (old miss))
    ]
  ]
    where
      slab' : c.Slab Order
      slab' = c.slab_set b.orders k (cancelled_order o)

      found : c.slab_get (c.slab_remove slab' k) j ≡ some x
      found = ap (λ (y : c.Slab Order). c.slab_get y j) (sym (levels-struck s b id k l o).2) ∙ at

      gone : (k == j) ≡ true → ⊥
      gone hit = ground (arith, c.get-remove slab' k j, found)

      old : (k == j) ≡ false → In j (keys (flatten (levels x.side b)))
      old miss = covers j x (
          ground (
            arith,
            c.get-remove slab' k j,
            found,
            c.get-set b.orders k (cancelled_order o) o j held,
          ))
