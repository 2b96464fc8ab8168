-- ===== src/Engine/Market/Fills.antt =====
-- Amounts, prices and numbers of the fills of a sweep.
use lmax_clob.Common.{
  ℕ, ◌+◌, ◌-◌, ◌<◌, ◌≤◌, ◌%◌, ◌^◌, ◌≡◌, refl, true, inl, List, [], ◌∷◌, arith, All, All-imp, length,
  map, ◌++◌, sym, ap, ◌∙◌,
}
use lmax_clob.Crates.{Crates}
use lmax_clob.Crates.Decimal.{amount}
use lmax_clob.Engine.Types.{Order, OrderType, remaining, Fill, next_u64}
use lmax_clob.Engine.Matching.{add_fill}
use lmax_clob.Engine.Spec.{Priced, Swept, accepts}
use lmax_clob.Engine.Refine.Amounts.{IsFillable, full_of_spent, quantity-add_fill, taker_spent}
use lmax_clob.Engine.Market.Trades.{Trades, Halts, stop, pop, stay}

module _ ⦃c : Crates⦄ where
  -- What all these fills trade together.
  abbrev pub total : List Fill → ℕ
  total [] = 0
  total (f ∷ fs) = amount f.quantity + total fs

  -- No fill is empty.
  pub Trades-positive :
      {kind : OrderType} {n : ℕ} {t : Order} {es : Priced Order} {w : Swept}
      → Trades kind n t es w
      → All (λ f. 0 < amount f.quantity) w.fills
  Trades-positive (stop f halt) = tt
  Trades-positive (pop tr gone run) = (omega (arith, tr.amounts.positive), Trades-positive run)
  Trades-positive (stay tr more) = (omega (arith, tr.amounts.positive), tt)

  -- The fills are what the taker is filled by.
  pub total-taker :
      {kind : OrderType} {n : ℕ} {t : Order} {es : Priced Order} {w : Swept}
      → Trades kind n t es w
      → c.position w.taker.filled ≡ c.position t.filled + total w.fills
  total-taker (stop f halt) = omega arith
  total-taker (pop tr gone run) =
      omega (arith, total-taker run, tr.taker.filled_eq, tr.amounts.positive)
  total-taker (stay tr more) = omega (arith, tr.taker.filled_eq, tr.amounts.positive)

  -- What the orders of a list have left, together.
  abbrev pub depth : Priced Order → ℕ
  depth [] = 0
  depth ((p, o) ∷ es) = (c.position o.quantity - c.position o.filled) + depth es

  -- They are also what the makers lose.
  pub total-makers :
      {kind : OrderType} {n : ℕ} {t : Order} {es : Priced Order} {w : Swept}
      → Trades kind n t es w
      → depth es ≡ total w.fills + depth w.rest
  total-makers (stop f halt) = omega arith
  total-makers (pop {t = t} {o = o} tr gone run) = omega (
    arith,
    total-makers run,
    tr.maker.filled_eq,
    tr.amounts.positive,
    full_of_spent (add_fill o _) tr.maker.fillable gone,
    quantity-add_fill o (c.min (remaining t) (remaining o)),
  )
  total-makers (stay {t = t} {o = o} tr more) = omega (
    arith,
    tr.maker.filled_eq,
    tr.amounts.positive,
    tr.maker.fillable.within,
    quantity-add_fill o (c.min (remaining t) (remaining o)),
  )

  accepts-add_fill :
      (kind : OrderType) (t : Order) (q p : c.Num)
      → accepts kind (add_fill t q) p ≡ accepts kind t p
  unfolding add_fill
  accepts-add_fill OrderType.limit t q p = refl
  accepts-add_fill OrderType.market t q p = refl

  -- The taker accepts the price of each fill.
  pub Trades-accepted :
      {kind : OrderType} {n : ℕ} {t : Order} {es : Priced Order} {w : Swept}
      → Trades kind n t es w
      → All (λ f. accepts kind t f.price ≡ true) w.fills
  Trades-accepted (stop f halt) = tt
  Trades-accepted {kind} (pop {t = t} {w = w} tr gone run) = (
    tr.accepted,
    All-imp (λ f e. sym (accepts-add_fill kind t _ f.price) ∙ e) w.fills (Trades-accepted run),
  )
  Trades-accepted (stay tr more) = (tr.accepted, tt)

  -- Numbers that follow `n` one by one.
  abbrev pub Numbered : ℕ → List Fill → Type 0
  Numbered n [] = Unit
  Numbered n (f ∷ fs) = (f.sequence ≡ next_u64 n) × Numbered (next_u64 n) fs

  pub Trades-Numbered :
      {kind : OrderType} {n : ℕ} {t : Order} {es : Priced Order} {w : Swept}
      → Trades kind n t es w
      → Numbered n w.fills
  Trades-Numbered (stop f halt) = tt
  Trades-Numbered (pop tr gone run) = (refl, Trades-Numbered run)
  Trades-Numbered (stay tr more) = (refl, tt)

  -- The counter afterwards.
  pub sequence-Trades :
      {kind : OrderType} {n : ℕ} {t : Order} {es : Priced Order} {w : Swept}
      → Trades kind n t es w
      → n < 2 ^ 64
      → w.sequence ≡ (n + length w.fills) % 2 ^ 64
  sequence-Trades (stop f halt) h = omega arith
  sequence-Trades (pop {n = n} {w = w} tr gone run) h =
      omega (arith, sequence-Trades run (omega arith))
  sequence-Trades (stay tr more) h = omega arith

  -- Where a fill stands in the queue: its price and its maker.
  abbrev pub fill_line : Fill → c.Num × c.Uuid
  fill_line f = (f.price, f.maker_order_id)

  abbrev pub order_line : c.Num × Order → c.Num × c.Uuid
  order_line e = (e.0, e.1.id)

  -- The makers are served from the front of the queue, one fill each.
  pub Trades-priority :
      {kind : OrderType} {n : ℕ} {t : Order} {es : Priced Order} {w : Swept}
      → Trades kind n t es w
      → (later : List (c.Num × c.Uuid)) × (map order_line es ≡ map fill_line w.fills ++ later)
  Trades-priority (stop {es = es} f halt) = (map order_line es, refl)
  Trades-priority (pop {o = o} {p = p} tr gone run) =
      let (later, e) = Trades-priority run in (later, ap (λ xs. (p, o.id) ∷ xs) e)
  Trades-priority (stay {es = es} tr more) = (map order_line es, refl)

  -- A price that is ahead of none of the queue is ahead of none of what is left.
  pub Trades-rest :
      (P : c.Num → Type 0) {kind : OrderType} {n : ℕ} {t : Order} {es : Priced Order} {w : Swept}
      → Trades kind n t es w
      → All (λ e. P e.0) es
      → All (λ e. P e.0) w.rest
  Trades-rest P (stop f halt) h = h
  Trades-rest P (pop tr gone run) h = Trades-rest P run h.1
  Trades-rest P (stay tr more) h = h

  -- A sweep goes on until one of the reasons to stop holds.
  pub Trades-Halts :
      {kind : OrderType} {n : ℕ} {t : Order} {es : Priced Order} {w : Swept}
      → Trades kind n t es w
      → Halts kind w.taker w.rest
  Trades-Halts (stop f halt) = halt
  Trades-Halts (pop tr gone run) = Trades-Halts run
  Trades-Halts (stay {t = t} {o = o} tr more) =
      inl (taker_spent t o _ tr.amounts tr.taker tr.maker more)

  -- The taker is filled no further than its quantity.
  pub taker_within :
      {kind : OrderType} {n : ℕ} {t : Order} {es : Priced Order} {w : Swept}
      → Trades kind n t es w
      → IsFillable t
      → total w.fills + c.position t.filled ≤ c.position t.quantity
  taker_within (stop f halt) h = omega (arith, h.within)
  taker_within (pop {t = t} {o = o} tr gone run) h = omega (
    arith,
    taker_within run tr.taker.fillable,
    tr.taker.filled_eq,
    tr.amounts.positive,
    quantity-add_fill t (c.min (remaining t) (remaining o)),
  )
  taker_within (stay {t = t} {o = o} tr more) h = omega (
    arith,
    tr.taker.fillable.within,
    tr.taker.filled_eq,
    tr.amounts.positive,
    quantity-add_fill t (c.min (remaining t) (remaining o)),
  )
