-- ===== src/Engine/Market/Crossing.antt =====
-- Bids below asks, and the steps of a market.
use lmax_clob.Common.{◌<◌, ◌≡◌, false, some, List, [], ◌∷◌, arith, All, All-imp, Ordering}
use lmax_clob.Crates.{Crates}
use lmax_clob.Engine.Types.{Side, bid, ask, Order, OrderType}
use lmax_clob.Engine.Levels.{order_on}
use lmax_clob.Engine.Matching.{opposite}
use lmax_clob.Engine.Spec.{Priced, Swept, Market, queue, with_queue, enqueue, accepts, after_sweep}
use lmax_clob.Engine.Refine.Order.{Ahead, SamePrice, SamePrice-of_order}
use lmax_clob.Engine.Market.Trades.{Blocked}
use lmax_clob.Engine.Market.Sorted.{Behind, IsSorted}

module _ ⦃c : Crates⦄ where
  -- An order of this side at `p` does not meet one of the other side at `q`.
  abbrev pub Beyond : Side → c.Num → c.Num → Type 0
  Beyond bid p q = c.position p < c.position q
  Beyond ask p q = c.position q < c.position p

  abbrev pub Apart : Side → Priced Order → Priced Order → Type 0
  Apart s own other = All (λ b. All (λ x. Beyond s b.0 x.0) other) own

  All-swap {ℓ κ} :
      {A : Type ℓ} {B : Type ℓ} (R : A → B → Type κ) (xs : List A) (ys : List B)
      → All (λ x. All (λ y. R x y) ys) xs
      → All (λ y. All (λ x. R x y) xs) ys
  All-swap R xs [] h = tt
  All-swap R xs (y ∷ ys) h =
      (All-imp (λ x r. r.0) xs h, All-swap R xs ys (All-imp (λ x r. r.1) xs h))

  Beyond-flip : (s : Side) (p q : c.Num) → Beyond s p q → Beyond (opposite s) q p
  Beyond-flip bid p q h = h
  Beyond-flip ask p q h = h

  pub Apart-flip :
      (s : Side) (own other : Priced Order) → Apart s own other → Apart (opposite s) other own
  Apart-flip s own other h =
      All-imp (λ x r. All-imp (λ b. Beyond-flip s b.0 x.0) own r) other
        (All-swap (λ b x. Beyond s b.0 x.0) own other h)

  Beyond-SamePrice : (s : Side) (p p' q : c.Num) → SamePrice p p' → Beyond s p q → Beyond s p' q
  Beyond-SamePrice bid p p' q e h = omega arith
  Beyond-SamePrice ask p p' q e h = omega arith

  enqueue-Apart :
      (s : Side) (p : c.Num) (o : Order) (es other : Priced Order)
      → All (λ x. Beyond s p x.0) other
      → Apart s es other
      → Apart s (enqueue s p o es) other
  unfolding enqueue
  enqueue-Apart s p o [] other new h = (new, tt)
  enqueue-Apart s p o ((q, m) ∷ es) other new h = ground (
    arith,
    enqueue-Apart s p o es other new h.1,
    λ (e : order_on s p q ≡ Ordering.eq).
        enqueue-Apart s q o es other
          (All-imp (λ x. Beyond-SamePrice s p q x.0 (SamePrice-of_order s p q e)) other new) h.1,
  )

  Beyond-refused :
      (s : Side) (t : Order) (l p : c.Num)
      → t.side ≡ s
      → t.price ≡ some l
      → accepts OrderType.limit t p ≡ false
      → Beyond s l p
  Beyond-refused bid t l p side priced bad = ground (arith, c.cmp_lem l p)
  Beyond-refused ask t l p side priced bad = ground (arith, c.cmp_lem p l)

  Beyond-Behind :
      (s : Side) (l p q : c.Num) → Beyond s l p → ¬ Ahead (opposite s) q p → Beyond s l q
  Beyond-Behind bid l p q h n = ground (arith, c.cmp_lem q p)
  Beyond-Behind ask l p q h n = ground (arith, c.cmp_lem p q)

  All-Behind :
      (s : Side) (l p : c.Num) (es : Priced Order)
      → Beyond s l p
      → Behind (opposite s) p es
      → All (λ x. Beyond s l x.0) es
  All-Behind s l p [] h b = tt
  All-Behind s l p ((q, o) ∷ es) h b = (Beyond-Behind s l p q h b.0, All-Behind s l p es h b.1)

  -- What stopped an order with something left stays beyond its limit.
  pub Blocked-Beyond :
      (s : Side) (t : Order) (l : c.Num) (es : Priced Order)
      → t.side ≡ s
      → t.price ≡ some l
      → Blocked OrderType.limit t es
      → IsSorted (opposite s) es
      → All (λ x. Beyond s l x.0) es
  Blocked-Beyond s t l [] side priced bad sorted = tt
  Blocked-Beyond s t l ((p, o) ∷ es) side priced bad sorted =
      let head = Beyond-refused s t l p side priced bad in (head, All-Behind s l p es head sorted.0)

  -- A market whose bids are all below its asks.
  abbrev pub IsUncrossed : Market → Type 0
  IsUncrossed a = Apart bid a.bids a.asks

  pub queues-Apart :
      (s : Side) (a : Market) → IsUncrossed a → Apart s (queue s a) (queue (opposite s) a)
  queues-Apart bid a h = h
  queues-Apart ask a h = Apart-flip bid a.bids a.asks h

  IsUncrossed-of_queues :
      (s : Side) (a : Market) → Apart s (queue s a) (queue (opposite s) a) → IsUncrossed a
  IsUncrossed-of_queues bid a h = h
  IsUncrossed-of_queues ask a h = Apart-flip ask a.asks a.bids h

  pub after_sweep-IsUncrossed :
      (s : Side) (a : Market) (w : Swept)
      → Apart s (queue s a) w.rest
      → IsUncrossed (after_sweep s a w)
  unfolding after_sweep
  after_sweep-IsUncrossed bid a w h = h
  after_sweep-IsUncrossed ask a w h = Apart-flip ask a.asks w.rest h

  pub rested-IsUncrossed :
      (s : Side) (a : Market) (w : Swept) (l : c.Num) (t : Order)
      → Apart s (queue s a) w.rest
      → All (λ x. Beyond s l x.0) w.rest
      → let x = after_sweep s a w in IsUncrossed (with_queue s (enqueue s l t (queue s x)) x)
  unfolding after_sweep
  rested-IsUncrossed bid a w l t h new = enqueue-Apart bid l t a.bids w.rest new h
  rested-IsUncrossed ask a w l t h new =
      Apart-flip ask (enqueue ask l t a.asks) w.rest (enqueue-Apart ask l t a.asks w.rest new h)
