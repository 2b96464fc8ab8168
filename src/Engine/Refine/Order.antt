-- ===== src/Engine/Refine/Order.antt =====
-- The order of prices on one side of the book.
use lmax_clob.Common.{Ordering, ◌≡◌, ◌≢◌, ◌⊎◌, inl, inr, refl, arith}
use lmax_clob.Crates.{Crates}
use lmax_clob.Engine.Types.{Side, bid, ask}
use lmax_clob.Engine.Levels.{order_on}

pub Ordering-cases : (o : Ordering) → (o ≡ Ordering.lt) ⊎ (o ≡ Ordering.eq) ⊎ (o ≡ Ordering.gt)
Ordering-cases Ordering.lt = inl refl
Ordering-cases Ordering.eq = inr (inl refl)
Ordering-cases Ordering.gt = inr (inr refl)

pub Ordering-eq : (o : Ordering) → (o ≡ Ordering.eq) ⊎ (o ≢ Ordering.eq)
Ordering-eq Ordering.lt = inr (λ e. cc)
Ordering-eq Ordering.eq = inl refl
Ordering-eq Ordering.gt = inr (λ e. cc)

module _ ⦃c : Crates⦄ where
  -- The price `a` comes strictly before `b`.
  abbrev pub Ahead : Side → c.Num → c.Num → Type 0
  Ahead s a b = order_on s a b ≡ Ordering.lt

  abbrev pub SamePrice : c.Num → c.Num → Type 0
  SamePrice a b = c.position a ≡ c.position b

  pub order_refl : (s : Side) (a : c.Num) → order_on s a a ≡ Ordering.eq
  order_refl bid a = ground (arith, c.cmp_lem a a)
  order_refl ask a = ground (arith, c.cmp_lem a a)

  pub SamePrice-of_order : (s : Side) (a b : c.Num) → order_on s a b ≡ Ordering.eq → SamePrice a b
  SamePrice-of_order bid a b h = ground (arith, c.cmp_lem b a)
  SamePrice-of_order ask a b h = ground (arith, c.cmp_lem a b)

  pub order-SamePrice_left :
      (s : Side) (a b x : c.Num) → SamePrice a b → order_on s a x ≡ order_on s b x
  order-SamePrice_left bid a b x h = ground (arith, c.cmp_lem x a, c.cmp_lem x b)
  order-SamePrice_left ask a b x h = ground (arith, c.cmp_lem a x, c.cmp_lem b x)

  pub Ahead-of_gt : (s : Side) (a b : c.Num) → order_on s a b ≡ Ordering.gt → Ahead s b a
  Ahead-of_gt bid a b h = ground (arith, c.cmp_lem a b, c.cmp_lem b a)
  Ahead-of_gt ask a b h = ground (arith, c.cmp_lem a b, c.cmp_lem b a)

  pub gt_of_Ahead : (s : Side) (a b : c.Num) → Ahead s a b → order_on s b a ≡ Ordering.gt
  gt_of_Ahead bid a b h = ground (arith, c.cmp_lem a b, c.cmp_lem b a)
  gt_of_Ahead ask a b h = ground (arith, c.cmp_lem a b, c.cmp_lem b a)

  pub Ahead-trans : (s : Side) (x a b : c.Num) → Ahead s x a → Ahead s a b → Ahead s x b
  Ahead-trans bid x a b h k = ground (arith, c.cmp_lem a x, c.cmp_lem b a, c.cmp_lem b x)
  Ahead-trans ask x a b h k = ground (arith, c.cmp_lem x a, c.cmp_lem a b, c.cmp_lem x b)

  pub Ahead-same : (s : Side) (a b : c.Num) → SamePrice a b → ¬ Ahead s a b
  Ahead-same bid a b h k = ground (arith, c.cmp_lem b a)
  Ahead-same ask a b h k = ground (arith, c.cmp_lem a b)
