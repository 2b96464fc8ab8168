-- ===== src/Engine/Snapshot/Sound.antt =====
-- The orders of a restored queue, and where they come from.
use lmax_clob.Common.{
  ℕ, ◌≡◌, ◌⊎◌, refl, sym, ap, ◌∙◌, subst, inl, inr, some, some-injective, List, [], ◌∷◌, All, Any,
  unwrap_or, arith,
}
use lmax_clob.Crates.{Crates}
use lmax_clob.Engine.Types.{Side, bid, ask, Order}
use lmax_clob.Engine.Levels.Flat.{flatten}
use lmax_clob.Engine.Book.{levels}
use lmax_clob.Engine.Matching.{MatchingEngine}
use lmax_clob.Engine.Spec.{Priced, Market, queue, with_queue, enqueue}
use lmax_clob.Engine.Refine.Covers.{In}
use lmax_clob.Engine.Refine.Resolve.{Resolves, keys}
use lmax_clob.Engine.Refine.Models.{Models, empty_market}
use lmax_clob.Engine.Snapshot.Complete.{behind, queued, IsQueued}

module _ ⦃c : Crates⦄ where
  enqueue_origin :
      (s : Side) (p : c.Num) (o m : Order) (es : Priced Order)
      → IsQueued m (enqueue s p o es)
      → (o ≡ m) ⊎ IsQueued m es
  unfolding enqueue
  enqueue_origin s p o m [] (inl e) = inl e
  enqueue_origin s p o m [] (inr x) = absurd x
  enqueue_origin s p o m ((q, x) ∷ es) h =
      ground (arith, h, enqueue_origin s p o m es, enqueue_origin s q o m es)

  behind_origin :
      (o m : Order) (a : Market) (s : Side)
      → IsQueued m (queue s (behind o a))
      → ((o ≡ m) × (o.side ≡ s)) ⊎ IsQueued m (queue s a)
  behind_origin o m a s h = on s o.side refl h
    where
      placed :
          (s : Side) (es : Priced Order)
          → o.side ≡ s
          → IsQueued m (enqueue s (unwrap_or o.price c.zero) o es)
          → ((o ≡ m) × (o.side ≡ s)) ⊎ IsQueued m es
      placed s es side i = elim (enqueue_origin s (unwrap_or o.price c.zero) o m es i) [
        | inl same ↦ inl (same, side)
        | inr there ↦ inr there
      ]

      on :
          (s t : Side)
          → o.side ≡ t
          → IsQueued m
              (queue s (with_queue t (enqueue t (unwrap_or o.price c.zero) o (queue t a)) a))
          → ((o ≡ m) × (o.side ≡ s)) ⊎ IsQueued m (queue s a)
      on bid bid side i = placed bid a.bids side i
      on ask ask side i = placed ask a.asks side i
      on bid ask side i = inr i
      on ask bid side i = inr i

  queued_origin :
      (os : List Order) (m : Order) (a : Market) (s : Side)
      → IsQueued m (queue s (queued a os))
      → (Any (λ w. w ≡ m) os × (m.side ≡ s)) ⊎ IsQueued m (queue s a)
  queued_origin [] m a s h = inr h
  queued_origin (o ∷ os) m a s h = elim (queued_origin os m (behind o a) s h) [
    | inl (later, side) ↦ inl (inr later, side)
    | inr i ↦ elim (behind_origin o m a s i) [
      | inl (same, side) ↦ inl (inl same, ap (λ (x : Order). x.side) (sym same) ∙ side)
      | inr there ↦ inr there
    ]
  ]

  Resolves-In :
      (slab : c.Slab Order) (f : List (c.Num × ℕ)) (es : Priced Order) (k : ℕ) (o : Order)
      → Resolves slab f es
      → In k (keys f)
      → c.slab_get slab k ≡ some o
      → IsQueued o es
  Resolves-In slab [] es k o r i held = absurd i
  Resolves-In slab (x ∷ f) [] k o r i held = absurd r
  Resolves-In slab ((p, j) ∷ f) ((q, x) ∷ es) k o r (inl same) held =
      inl (some-injective x o (sym r.1 ∙ ap (c.slab_get slab) (sym same) ∙ held))
  Resolves-In slab ((p, j) ∷ f) ((q, x) ∷ es) k o r (inr i) held =
      inr (Resolves-In slab f es k o r.2 i held)

  held-IsQueued :
      (e : MatchingEngine) (a : Market) (s : Side) (k : ℕ) (o : Order)
      → Models e a
      → o.side ≡ s
      → c.slab_get e.book.orders k ≡ some o
      → IsQueued o (queue s a)
  held-IsQueued e a s k o h side held =
      on s (subst (λ t. In k (keys (flatten (levels t e.book)))) side (h.covers k o held))
    where
      on : (t : Side) → In k (keys (flatten (levels t e.book))) → IsQueued o (queue t a)
      on bid i = Resolves-In e.book.orders (flatten e.book.bids) a.bids k o h.bids.resolves i held
      on ask i = Resolves-In e.book.orders (flatten e.book.asks) a.asks k o h.asks.resolves i held

  Any-All :
      (P : Order → Type 0) (m : Order) (os : List Order) → All P os → Any (λ w. w ≡ m) os → P m
  Any-All P m [] h i = absurd i
  Any-All P m (o ∷ os) h (inl same) = subst P same h.0
  Any-All P m (o ∷ os) h (inr i) = Any-All P m os h.1 i

  All-queued :
      (P : Order → Type 0) (es : Priced Order)
      → ((m : Order) → IsQueued m es → P m)
      → All (λ y. P y.1) es
  All-queued P [] f = tt
  All-queued P (y ∷ es) f = (f y.1 (inl refl), All-queued P es (λ m i. f m (inr i)))

  -- A restored queue holds no order that was not queued on its side.
  pub none_added :
      (e : MatchingEngine) (a : Market) (s : Side)
      → Models e a
      → All
          (λ y. IsQueued y.1 (queue s a))
          (queue s (queued empty_market (c.slab_values e.book.orders)))
  none_added e a s h = All-queued (λ m. IsQueued m (queue s a)) _ (λ m i. from m i)
    where
      nothing : (t : Side) (m : Order) → IsQueued m (queue t empty_market) → IsQueued m (queue t a)
      nothing bid m i = absurd i
      nothing ask m i = absurd i

      from :
          (m : Order)
          → IsQueued m (queue s (queued empty_market (c.slab_values e.book.orders)))
          → IsQueued m (queue s a)
      from m i = elim (queued_origin (c.slab_values e.book.orders) m empty_market s i) [
        | inl (found, side) ↦
            let held =
              Any-All (λ w. (k : ℕ) × (c.slab_get e.book.orders k ≡ some w)) m _
                (c.values-held e.book.orders) found in
            held-IsQueued e a s held.0 m h side held.1
        | inr there ↦ nothing s m there
      ]
