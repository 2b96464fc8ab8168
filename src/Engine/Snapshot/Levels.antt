-- ===== src/Engine/Snapshot/Levels.antt =====
-- The levels of a queue, and those of the orders that a list of orders queues.
use lmax_clob.Common.{
  Ordering, ◌≡◌, refl, sym, ap, ◌∙◌, inl, inr, List, [], ◌∷◌, ◌++◌, map, append-nil, arith,
}
use lmax_clob.Crates.{Crates}
use lmax_clob.Engine.Types.{Side, bid, ask}
use lmax_clob.Engine.Levels.{order_on}
use lmax_clob.Engine.Spec.{Priced, enqueue}
use lmax_clob.Engine.Refine.Order.{
  Ordering-cases, Ahead, SamePrice, SamePrice-of_order, Ahead-of_gt, gt_of_Ahead, Ahead-trans,
  Ahead-same, order-SamePrice_left, order_refl,
}
use lmax_clob.Engine.Market.Sorted.{Behind, IsSorted}

module _ ⦃c : Crates⦄ where
  pub order-SamePrice_right :
      (s : Side) (x a b : c.Num) → SamePrice a b → order_on s x a ≡ order_on s x b
  order-SamePrice_right bid x a b h = ground (arith, c.cmp_lem a x, c.cmp_lem b x)
  order-SamePrice_right ask x a b h = ground (arith, c.cmp_lem x a, c.cmp_lem x b)

  module _ {A : Type 0} where
    abbrev pub pick : Ordering → A → List A → List A
    pick Ordering.eq x xs = x ∷ xs
    pick Ordering.lt x xs = xs
    pick Ordering.gt x xs = xs

    -- What stands under a price, in order.
    abbrev pub at_price : Side → c.Num → Priced A → List A
    at_price s p [] = []
    at_price s p ((q, x) ∷ es) = pick (order_on s p q) x (at_price s p es)

    pub pick-append :
        (r : Ordering) (x : A) (xs ys : List A) → pick r x (xs ++ ys) ≡ pick r x xs ++ ys
    pick-append Ordering.lt x xs ys = refl
    pick-append Ordering.eq x xs ys = refl
    pick-append Ordering.gt x xs ys = refl

    at_price_empty :
        (s : Side) (p q : c.Num) (es : Priced A)
        → Ahead s p q
        → Behind s q es
        → at_price s p es ≡ []
    at_price_empty s p q [] a h = refl
    at_price_empty s p q ((r, x) ∷ es) a h = elim (Ordering-cases (order_on s p r)) [
      | inl e ↦ rw e (at_price_empty s p q es a h.1)
      | inr (inl e) ↦
          absurd (h.0 (sym (order-SamePrice_left s p r q (SamePrice-of_order s p r e)) ∙ a))
      | inr (inr e) ↦ rw e (at_price_empty s p q es a h.1)
    ]

    -- An entry comes last of those under its price.
    pub at_price-enqueue :
        (s : Side) (p q : c.Num) (o : A) (es : Priced A)
        → IsSorted s es
        → at_price s p (enqueue s q o es) ≡ at_price s p es ++ pick (order_on s p q) o []
    unfolding enqueue
    at_price-enqueue s p q o [] h = refl
    at_price-enqueue s p q o ((r, x) ∷ es) h = elim (Ordering-cases (order_on s q r)) [
      | inl e ↦ rw (e, enqueue) (first (order_on s p q) refl e)
      | inr (inl e) ↦
          rw (e, enqueue)
            (ap (pick (order_on s p r) x) (at_price-enqueue s p r o es h.1)
              ∙ pick-append (order_on s p r) x (at_price s p es) _
              ∙ ap (λ t. pick (order_on s p r) x (at_price s p es) ++ pick t o [])
                  (sym (order-SamePrice_right s p q r (SamePrice-of_order s q r e))))
      | inr (inr e) ↦
          rw (e, enqueue)
            (ap (pick (order_on s p r) x) (at_price-enqueue s p q o es h.1)
              ∙ pick-append (order_on s p r) x (at_price s p es) _)
    ]
      where
        none_at : order_on s p q ≡ Ordering.eq → Ahead s q r → at_price s p ((r, x) ∷ es) ≡ []
        none_at same e =
            let ahead = order-SamePrice_left s p q r (SamePrice-of_order s p q same) ∙ e in
            rw ahead (at_price_empty s p r es ahead h.0)

        first :
            (t : Ordering)
            → order_on s p q ≡ t
            → Ahead s q r
            → pick (order_on s p q) o (at_price s p ((r, x) ∷ es))
              ≡ at_price s p ((r, x) ∷ es) ++ pick (order_on s p q) o []
        first Ordering.lt is e = rw is (sym (append-nil (at_price s p ((r, x) ∷ es))))
        first Ordering.gt is e = rw is (sym (append-nil (at_price s p ((r, x) ∷ es))))
        first Ordering.eq is e =
            rw is (ap (◌∷◌ o) (none_at is e) ∙ ap (λ xs. xs ++ o ∷ []) (sym (none_at is e)))

    Behind-enqueue :
        (s : Side) (p q : c.Num) (o : A) (es : Priced A)
        → ¬ Ahead s q p
        → Behind s p es
        → Behind s p (enqueue s q o es)
    unfolding enqueue
    Behind-enqueue s p q o [] n h = (n, tt)
    Behind-enqueue s p q o ((r, x) ∷ es) n h = elim (Ordering-cases (order_on s q r)) [
      | inl e ↦ rw (e, enqueue) (n, h)
      | inr (inl e) ↦ rw (e, enqueue) (h.0, Behind-enqueue s p r o es h.0 h.1)
      | inr (inr e) ↦ rw (e, enqueue) (h.0, Behind-enqueue s p q o es n h.1)
    ]

    Behind-Ahead :
        (s : Side) (q r : c.Num) (es : Priced A) → Ahead s q r → Behind s r es → Behind s q es
    Behind-Ahead s q r [] a h = tt
    Behind-Ahead s q r ((y, x) ∷ es) a h =
        (λ k. h.0 (Ahead-trans s y q r k a), Behind-Ahead s q r es a h.1)

    pub IsSorted-enqueue :
        (s : Side) (q : c.Num) (o : A) (es : Priced A)
        → IsSorted s es
        → IsSorted s (enqueue s q o es)
    unfolding enqueue
    IsSorted-enqueue s q o [] h = (tt, tt)
    IsSorted-enqueue s q o ((r, x) ∷ es) h = elim (Ordering-cases (order_on s q r)) [
      | inl e ↦
          rw (e, enqueue) (((λ k. cc (gt_of_Ahead s q r e, k)), Behind-Ahead s q r es e h.0), h)
      | inr (inl e) ↦
          rw (e, enqueue)
            (Behind-enqueue s r r o es (Ahead-same s r r refl) h.0, IsSorted-enqueue s r o es h.1)
      | inr (inr e) ↦
          rw (e, enqueue)
            (Behind-enqueue s r q o es (λ k. cc (e, k)) h.0, IsSorted-enqueue s q o es h.1)
    ]

    cons-injective : (x y : A) (xs ys : List A) → x ∷ xs ≡ y ∷ ys → (x ≡ y) × (xs ≡ ys)
    cons-injective x y xs ys e = (cc e, cc e)

    -- Two queues with the same levels are one.
    pub same_levels :
        (s : Side) (es fs : Priced A)
        → IsSorted s es
        → IsSorted s fs
        → ((p : c.Num) → at_price s p es ≡ at_price s p fs)
        → map (λ (y : c.Num × A). y.1) es ≡ map (λ y. y.1) fs
    same_levels s [] [] h k same = refl
    same_levels s [] ((q, y) ∷ fs) h k same = absurd (cc (rw (order_refl s q) at (same q)))
    same_levels s ((p, x) ∷ es) [] h k same = absurd (cc (rw (order_refl s p) at (same p)))
    same_levels s ((p, x) ∷ es) ((q, y) ∷ fs) h k same = elim (Ordering-cases (order_on s p q)) [
      | inl e ↦ absurd (cc (rw (order_refl s p, e, at_price_empty s p q fs e k.0) at (same p)))
      | inr (inl e) ↦
          let price = SamePrice-of_order s p q e in
          let heads =
            cons-injective x y (at_price s p es) (at_price s p fs)
              (rw (order_refl s p, e) at (same p)) in
          let tails = λ (r : c.Num).
            tail (order_on s r p) r refl (order-SamePrice_right s r p q price) heads.0 in
          ap (λ z. z ∷ map (λ (w : c.Num × A). w.1) es) heads.0
          ∙ ap (◌∷◌ y) (same_levels s es fs h.1 k.1 tails)
      | inr (inr e) ↦
          let a = Ahead-of_gt s p q e in
          absurd (cc (rw (order_refl s q, a, at_price_empty s q p es a h.0) at (same q)))
    ]
      where
        tail :
            (t : Ordering) (r : c.Num)
            → order_on s r p ≡ t
            → order_on s r p ≡ order_on s r q
            → x ≡ y
            → at_price s r es ≡ at_price s r fs
        tail Ordering.eq r is there same_head =
            (cons-injective x y _ _ (rw (is, sym there ∙ is) at (same r))).1
        tail Ordering.lt r is there same_head = rw (is, sym there ∙ is) at (same r)
        tail Ordering.gt r is there same_head = rw (is, sym there ∙ is) at (same r)
