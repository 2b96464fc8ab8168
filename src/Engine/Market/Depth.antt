-- ===== src/Engine/Market/Depth.antt =====
-- orderbook.rs: `level_depth`, beside the queue of the market.
use lmax_clob.Common.{
  ℕ, suc, ◌+◌, ◌≡◌, ◌≢◌, refl, sym, ap, ◌∙◌, inl, inr, List, [], ◌∷◌, ◌++◌, All, arith, length,
  Ordering,
}
use lmax_clob.Crates.{Crates}
use lmax_clob.Engine.Types.{Side, bid, ask, Order}
use lmax_clob.Engine.Levels.{Levels, order_on, level_at}
use lmax_clob.Engine.Levels.Flat.{tag, flatten}
use lmax_clob.Engine.Book.{level_length, level_depth}
use lmax_clob.Engine.Matching.{MatchingEngine}
use lmax_clob.Engine.Spec.{Priced, Market, queue}
use lmax_clob.Engine.Refine.Order.{Ordering-eq, Ahead, SamePrice, SamePrice-of_order, Ahead-same}
use lmax_clob.Engine.Refine.Levels.{IsOrdered}
use lmax_clob.Engine.Refine.Resolve.{Resolves}
use lmax_clob.Engine.Refine.Models.{Models}

module _ ⦃c : Crates⦄ where
  abbrev bump : Ordering → ℕ → ℕ
  bump Ordering.eq n = suc n
  bump _ n = n

  -- How many entries stand under this price.
  abbrev pub count {ℓ} : {A : Type ℓ} → Side → c.Num → Priced A → ℕ
  count s p [] = 0
  count s p ((q, x) ∷ es) = bump (order_on s p q) (count s p es)

  count-Resolves :
      (s : Side) (p : c.Num) (slab : c.Slab Order) (f : List (c.Num × ℕ)) (es : Priced Order)
      → Resolves slab f es
      → count s p f ≡ count s p es
  count-Resolves s p slab [] [] r = refl
  count-Resolves s p slab [] (e ∷ es) r = absurd r
  count-Resolves s p slab (x ∷ f) [] r = absurd r
  count-Resolves s p slab ((q, k) ∷ f) ((q', o) ∷ es) r =
      rw r.0 (ap (bump (order_on s p q')) (count-Resolves s p slab f es r.2))

  count-tag_hit :
      (s : Side) (p q : c.Num) (ks : List ℕ) (f : List (c.Num × ℕ))
      → order_on s p q ≡ Ordering.eq
      → count s p (tag q ks ++ f) ≡ length ks + count s p f
  count-tag_hit s p q [] f e = omega arith
  count-tag_hit s p q (k ∷ ks) f e =
      omega (arith, ap (λ o. bump o (count s p (tag q ks ++ f))) e, count-tag_hit s p q ks f e)

  count-tag_miss :
      (s : Side) (p q : c.Num) (ks : List ℕ) (f : List (c.Num × ℕ))
      → order_on s p q ≢ Ordering.eq
      → count s p (tag q ks ++ f) ≡ count s p f
  count-tag_miss s p q [] f n = refl
  count-tag_miss s p q (k ∷ ks) f n = ground (arith, count-tag_miss s p q ks f n)

  count_behind :
      (s : Side) (p q : c.Num) (ls : Levels)
      → SamePrice p q
      → All (λ x. Ahead s q x.0) ls
      → count s p (flatten ls) ≡ 0
  count_behind s p q [] e h = refl
  count_behind s p q ((x, ks) ∷ ls) e h =
      count-tag_miss s p x ks (flatten ls)
        (λ same. Ahead-same s q x (sym e ∙ SamePrice-of_order s p x same) h.0)
      ∙ count_behind s p q ls e h.1

  level_length-count :
      (s : Side) (p : c.Num) (ls : Levels)
      → IsOrdered s ls
      → level_length (level_at s p ls) ≡ count s p (flatten ls)
  unfolding level_at level_length
  level_length-count s p [] o = refl
  level_length-count s p ((q, ks) ∷ ls) o = elim (Ordering-eq (order_on s p q)) [
    | inl e ↦
        rw (e, level_at)
          (omega (
            arith,
            count-tag_hit s p q ks (flatten ls) e,
            count_behind s p q ls (SamePrice-of_order s p q e) o.1,
          ))
    | inr n ↦ ground (arith, count-tag_miss s p q ks (flatten ls) n, level_length-count s p ls o.2)
  ]

  -- In an engine that stands for a market, level_depth of a side and a price is the number of
  -- orders that the market queues on that side under that price.
  pub level_depth-count :
      (e : MatchingEngine) (a : Market) (s : Side) (p : c.Num)
      → Models e a
      → level_depth e.book s p ≡ count s p (queue s a)
  unfolding level_depth
  level_depth-count e a bid p h =
      level_length-count bid p e.book.bids h.bids.ordered
      ∙ count-Resolves bid p e.book.orders (flatten e.book.bids) a.bids h.bids.resolves
  level_depth-count e a ask p h =
      level_length-count ask p e.book.asks h.asks.ordered
      ∙ count-Resolves ask p e.book.orders (flatten e.book.asks) a.asks h.asks.resolves
