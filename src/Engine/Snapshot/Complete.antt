-- ===== src/Engine/Snapshot/Complete.antt =====
-- The orders of a queue, and those that a list of orders queues.
use lmax_clob.Common.{ℕ, ◌≡◌, refl, inl, inr, some, List, [], ◌∷◌, All, Any, unwrap_or, arith}
use lmax_clob.Crates.{Crates}
use lmax_clob.Engine.Types.{Side, bid, ask, Order}
use lmax_clob.Engine.Spec.{Priced, Market, queue, with_queue, enqueue}
use lmax_clob.Engine.Refine.Resolve.{Resolves}

module _ ⦃c : Crates⦄ where
  -- The order goes behind its price in the queue of its side.
  abbrev pub behind : Order → Market → Market
  behind o a = with_queue o.side (enqueue o.side (unwrap_or o.price c.zero) o (queue o.side a)) a

  -- The market that a list of orders makes, each queued behind those before it.
  abbrev pub queued : Market → List Order → Market
  queued a [] = a
  queued a (o ∷ os) = queued (behind o a) os

  -- The order is in the queue, under some price.
  abbrev pub IsQueued : Order → Priced Order → Type 0
  IsQueued o = Any (λ y. y.1 ≡ o)

  enqueue-IsQueued :
      (s : Side) (p : c.Num) (o : Order) (es : Priced Order) → IsQueued o (enqueue s p o es)
  unfolding enqueue
  enqueue-IsQueued s p o [] = inl refl
  enqueue-IsQueued s p o ((q, x) ∷ es) =
      ground (arith, enqueue-IsQueued s p o es, enqueue-IsQueued s q o es)

  enqueue_keeps :
      (s : Side) (p : c.Num) (o m : Order) (es : Priced Order)
      → IsQueued m es
      → IsQueued m (enqueue s p o es)
  unfolding enqueue
  enqueue_keeps s p o m [] h = absurd h
  enqueue_keeps s p o m ((q, x) ∷ es) (inl e) = ground (arith, e)
  enqueue_keeps s p o m ((q, x) ∷ es) (inr h) =
      ground (arith, h, enqueue_keeps s p o m es h, enqueue_keeps s q o m es h)

  behind-IsQueued : (o : Order) (a : Market) → IsQueued o (queue o.side (behind o a))
  behind-IsQueued o a = on o.side
    where
      on :
          (s : Side)
          → IsQueued o
              (queue s (with_queue s (enqueue s (unwrap_or o.price c.zero) o (queue s a)) a))
      on bid = enqueue-IsQueued bid (unwrap_or o.price c.zero) o a.bids
      on ask = enqueue-IsQueued ask (unwrap_or o.price c.zero) o a.asks

  behind_keeps :
      (o m : Order) (a : Market) (s : Side)
      → IsQueued m (queue s a)
      → IsQueued m (queue s (behind o a))
  behind_keeps o m a s h = on s o.side h
    where
      on :
          (s t : Side)
          → IsQueued m (queue s a)
          → IsQueued m
              (queue s (with_queue t (enqueue t (unwrap_or o.price c.zero) o (queue t a)) a))
      on bid bid h = enqueue_keeps bid (unwrap_or o.price c.zero) o m a.bids h
      on bid ask h = h
      on ask bid h = h
      on ask ask h = enqueue_keeps ask (unwrap_or o.price c.zero) o m a.asks h

  queued_keeps :
      (os : List Order) (m : Order) (a : Market) (s : Side)
      → IsQueued m (queue s a)
      → IsQueued m (queue s (queued a os))
  queued_keeps [] m a s h = h
  queued_keeps (o ∷ os) m a s h = queued_keeps os m (behind o a) s (behind_keeps o m a s h)

  pub queued-IsQueued :
      (os : List Order) (m : Order) (a : Market)
      → Any (λ w. w ≡ m) os
      → IsQueued m (queue m.side (queued a os))
  queued-IsQueued [] m a h = absurd h
  queued-IsQueued (o ∷ os) m a (inl e) =
      rw (← e) (queued_keeps os o (behind o a) o.side (behind-IsQueued o a))
  queued-IsQueued (o ∷ os) m a (inr h) = queued-IsQueued os m (behind o a) h

  pub Resolves-held :
      (slab : c.Slab Order) (f : List (c.Num × ℕ)) (es : Priced Order)
      → Resolves slab f es
      → All (λ x. (k : ℕ) × (c.slab_get slab k ≡ some x.1)) es
  Resolves-held slab [] [] r = tt
  Resolves-held slab [] (e ∷ es) r = absurd r
  Resolves-held slab (x ∷ f) [] r = absurd r
  Resolves-held slab ((p, k) ∷ f) ((q, o) ∷ es) r = ((k, r.1), Resolves-held slab f es r.2)
