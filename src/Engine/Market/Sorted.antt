-- ===== src/Engine/Market/Sorted.antt =====
-- The prices along the queue of one side.
use lmax_clob.Common.{ℕ, refl, subst, List, [], ◌∷◌, ◌++◌, All}
use lmax_clob.Crates.{Crates}
use lmax_clob.Engine.Types.{Side, Order, OrderType}
use lmax_clob.Engine.Levels.{Levels}
use lmax_clob.Engine.Levels.Flat.{tag, flatten}
use lmax_clob.Engine.Spec.{Priced, Swept}
use lmax_clob.Engine.Refine.Order.{Ahead, Ahead-same, gt_of_Ahead}
use lmax_clob.Engine.Refine.Levels.{IsOrdered}
use lmax_clob.Engine.Refine.Resolve.{Resolves}
use lmax_clob.Engine.Refine.Holds.{Holds}
use lmax_clob.Engine.Market.Trades.{Trades, stop, pop, stay}

module _ ⦃c : Crates⦄ where
  -- No price of the list is ahead of `p`.
  abbrev pub Behind : {A : Type 0} → Side → c.Num → List (c.Num × A) → Type 0
  Behind s p [] = Unit
  Behind s p ((q, x) ∷ es) = (¬ Ahead s q p) × Behind s p es

  -- No price is ahead of one before it.
  abbrev pub IsSorted : {A : Type 0} → Side → List (c.Num × A) → Type 0
  IsSorted s [] = Unit
  IsSorted s ((p, x) ∷ es) = Behind s p es × IsSorted s es

  Ahead-asymm : (s : Side) (p q : c.Num) → Ahead s p q → ¬ Ahead s q p
  Ahead-asymm s p q h k = cc (gt_of_Ahead s p q h, k)

  Behind-tag :
      (s : Side) (p q : c.Num) (ks : List ℕ) (f : List (c.Num × ℕ))
      → ¬ Ahead s q p
      → Behind s p f
      → Behind s p (tag q ks ++ f)
  Behind-tag s p q [] f n h = h
  Behind-tag s p q (k ∷ ks) f n h = (n, Behind-tag s p q ks f n h)

  Behind-flatten :
      (s : Side) (p : c.Num) (ls : Levels) → All (λ l. Ahead s p l.0) ls → Behind s p (flatten ls)
  Behind-flatten s p [] h = tt
  Behind-flatten s p ((q, ks) ∷ ls) h =
      Behind-tag s p q ks (flatten ls) (Ahead-asymm s p q h.0) (Behind-flatten s p ls h.1)

  IsSorted-tag :
      (s : Side) (p : c.Num) (ks : List ℕ) (f : List (c.Num × ℕ))
      → Behind s p f
      → IsSorted s f
      → IsSorted s (tag p ks ++ f)
  IsSorted-tag s p [] f b h = h
  IsSorted-tag s p (k ∷ ks) f b h =
      (Behind-tag s p p ks f (Ahead-same s p p refl) b, IsSorted-tag s p ks f b h)

  IsSorted-flatten : (s : Side) (ls : Levels) → IsOrdered s ls → IsSorted s (flatten ls)
  IsSorted-flatten s [] o = tt
  IsSorted-flatten s ((p, ks) ∷ ls) o =
      IsSorted-tag s p ks (flatten ls) (Behind-flatten s p ls o.1) (IsSorted-flatten s ls o.2)

  Behind-Resolves :
      (s : Side) (p : c.Num) (slab : c.Slab Order) (f : List (c.Num × ℕ)) (es : Priced Order)
      → Resolves slab f es
      → Behind s p f
      → Behind s p es
  Behind-Resolves s p slab [] [] r h = tt
  Behind-Resolves s p slab [] (e ∷ es) r h = absurd r
  Behind-Resolves s p slab (x ∷ f) [] r h = absurd r
  Behind-Resolves s p slab ((q, k) ∷ f) ((q', o) ∷ es) r h =
      (subst (λ x. ¬ Ahead s x p) r.0 h.0, Behind-Resolves s p slab f es r.2 h.1)

  IsSorted-Resolves :
      (s : Side) (slab : c.Slab Order) (f : List (c.Num × ℕ)) (es : Priced Order)
      → Resolves slab f es
      → IsSorted s f
      → IsSorted s es
  IsSorted-Resolves s slab [] [] r h = tt
  IsSorted-Resolves s slab [] (e ∷ es) r h = absurd r
  IsSorted-Resolves s slab (x ∷ f) [] r h = absurd r
  IsSorted-Resolves s slab ((q, k) ∷ f) ((q', o) ∷ es) r h = (
    subst (λ x. Behind s x es) r.0 (Behind-Resolves s q slab f es r.2 h.0),
    IsSorted-Resolves s slab f es r.2 h.1,
  )

  -- So is what a book holds.
  pub Holds-IsSorted :
      {s : Side} {slab : c.Slab Order} {ls : Levels} (es : Priced Order)
      → Holds s slab ls es
      → IsSorted s es
  Holds-IsSorted {s} {slab} {ls} es h =
      IsSorted-Resolves s slab (flatten ls) es h.resolves (IsSorted-flatten s ls h.ordered)

  -- A sweep leaves it sorted.
  pub Trades-IsSorted :
      (s : Side) {kind : OrderType} {n : ℕ} {t : Order} {es : Priced Order} {w : Swept}
      → Trades kind n t es w
      → IsSorted s es
      → IsSorted s w.rest
  Trades-IsSorted s (stop f halt) h = h
  Trades-IsSorted s (pop tr gone run) h = Trades-IsSorted s run h.1
  Trades-IsSorted s (stay tr more) h = h
