-- ===== src/Engine/Refine/Traded.antt =====
-- One trade of a matching loop: what becomes of the slab and the index.
use lmax_clob.Common.{ℕ, ◌≡◌, ap, ◌∙◌, true, false, none, some, List, ◌∷◌}
use lmax_clob.Crates.{Crates}
use lmax_clob.Engine.Types.{Side, Order, remaining}
use lmax_clob.Engine.Levels.{Levels}
use lmax_clob.Engine.Book.{OrderBook, levels, index_put}
use lmax_clob.Engine.Matching.{Matching, is_spent, add_fill}
use lmax_clob.Engine.Spec.{Priced}
use lmax_clob.Engine.Refine.Holds.{get-set_self}
use lmax_clob.Engine.Refine.Complete.{IsComplete, IsComplete-set, IsComplete-remove}
use lmax_clob.Engine.Refine.Step.{orders-pop_front, index-pop_front}
use lmax_clob.Engine.Refine.Trade.{Facing, traded, held, levels-orders, id-add_fill}

module _ ⦃c : Crates⦄ where
  abbrev pub BookIsComplete : OrderBook → Type 0
  BookIsComplete b = IsComplete b.orders b.index

  module _ (s : Side) (m : Matching) (p : c.Num) (o : Order) (es os : Priced Order) (k : ℕ)
      (ks : List ℕ) (ls : Levels) (f : Facing s m ((p, o) ∷ es) os)
      (best : levels s m.engine.book ≡ (p, k ∷ ks) ∷ ls) (live : is_spent m.taker ≡ false) where
    abbrev q : c.Num
    q = c.min (remaining m.taker) (remaining o)

    here : c.slab_get m.engine.book.orders k ≡ some o
    here = held s m p o es os k ks ls f best live

    slab' : c.Slab Order
    slab' = c.slab_set m.engine.book.orders k (add_fill o q)

    book' : OrderBook
    unfolding slab'
    book' = record m.engine.book { orders = slab' }

    -- The maker that leaves is forgotten.
    pub index-traded_pop :
        is_spent (add_fill o q) ≡ true
        → (traded m k p o).engine.book.index ≡ index_put o.id none m.engine.book.index
    unfolding slab' book'
    index-traded_pop gone =
        let best' = levels-orders s m.engine.book slab' ∙ best in
        let now = get-set_self m.engine.book.orders k (add_fill o q) o here in
        rw (gone, f.faces)
          (index-pop_front book' s p k ks ls (add_fill o q) best' now
            ∙ ap (λ id. index_put id none m.engine.book.index) (id-add_fill o q))

    traded_set : BookIsComplete m.engine.book → BookIsComplete book'
    unfolding slab' book'
    traded_set all =
        IsComplete-set m.engine.book.orders m.engine.book.index all k (add_fill o q) o here
          (id-add_fill o q)

    pub IsComplete-traded_pop :
        is_spent (add_fill o q) ≡ true
        → BookIsComplete m.engine.book
        → BookIsComplete (traded m k p o).engine.book
    unfolding slab' book'
    IsComplete-traded_pop gone all =
        let best' = levels-orders s m.engine.book slab' ∙ best in
        let now = get-set_self m.engine.book.orders k (add_fill o q) o here in
        rw (gone, f.faces)
          (rw
            (
              orders-pop_front book' s p k ks ls (add_fill o q) best' now,
              index-pop_front book' s p k ks ls (add_fill o q) best' now,
            )
            (IsComplete-remove slab' m.engine.book.index (traded_set all) k (add_fill o q) now))

    pub IsComplete-traded_stay :
        is_spent (add_fill o q) ≡ false
        → BookIsComplete m.engine.book
        → BookIsComplete (traded m k p o).engine.book
    unfolding slab' book'
    IsComplete-traded_stay more all = rw more (traded_set all)
