-- ===== src/Engine/Refine/Amounts.antt =====
-- The arithmetic of fills: what an order has left, before and after a fill.
use lmax_clob.Common.{◌+◌, ◌≤◌, ◌<◌, ◌≡◌, ◌⊎◌, inl, inr, true, false, arith, subst, sym, refl}
use lmax_clob.Crates.{Crates}
use lmax_clob.Crates.Decimal.{leq_cases}
use lmax_clob.Engine.Types.{Order, remaining}
use lmax_clob.Engine.Matching.{is_spent, add_fill}

module _ ⦃c : Crates⦄ where
  -- An order on the grid that is filled no further than its quantity.
  pub record IsFillable (o : Order) : Type 0 where
    pub quantity_grid : c.OnGrid o.quantity
    pub filled_grid : c.OnGrid o.filled
    pub not_negative : c.position c.zero ≤ c.position o.filled
    pub within : c.position o.filled ≤ c.position o.quantity

  -- It has something left.
  abbrev pub IsLive : Order → Type 0
  IsLive o = IsFillable o × (c.position o.filled < c.position o.quantity)

  pub remaining-exact :
      (o : Order)
      → IsFillable o
      → c.OnGrid (remaining o)
        × (c.position (remaining o) + c.position o.filled
            ≡ c.position o.quantity + c.position c.zero)
  unfolding remaining
  remaining-exact o h =
      c.sub_exact o.quantity o.filled h.quantity_grid h.filled_grid h.not_negative h.within

  pub is_spent_cases :
      (o : Order)
      → IsFillable o
      → ((is_spent o ≡ true) × (c.position o.filled ≡ c.position o.quantity))
        ⊎ ((is_spent o ≡ false) × (c.position o.filled < c.position o.quantity))
  is_spent_cases o h = elim (leq_cases (remaining o) c.zero) [
    | inl (e, le) ↦ inl (e, omega (arith, (remaining-exact o h).1, h.within))
    | inr (e, lt) ↦ inr (e, omega (arith, (remaining-exact o h).1))
  ]

  pub IsLive-not_spent : (o : Order) → IsLive o → is_spent o ≡ false
  IsLive-not_spent o h = elim (is_spent_cases o h.0) [
    | inl (e, full) ↦ absurd (omega (arith, full, h.1))
    | inr (e, lt) ↦ e
  ]

  pub add_fill-exact :
      (o : Order) (q : c.Num)
      → IsFillable o
      → c.OnGrid q
      → c.position c.zero ≤ c.position q
      → c.position q ≤ c.position (remaining o)
      → IsFillable (add_fill o q)
        × (c.position (add_fill o q).filled + c.position c.zero
            ≡ c.position o.filled + c.position q)
  unfolding add_fill
  add_fill-exact o q h grid pos le =
      let left = (remaining-exact o h).1 in
      let sum =
        c.add_exact o.filled q o.quantity h.filled_grid grid h.quantity_grid h.not_negative pos
          (omega (arith, left)) in
      (
        record {
          quantity_grid = h.quantity_grid;
          filled_grid = sum.0;
          not_negative = omega (arith, sum.1, h.not_negative);
          within = omega (arith, sum.1, left);
        },
        sum.1,
      )

  -- What is traded: on the grid, above zero, and all that one of the two has left.
  pub record IsTraded (t m : Order) (q : c.Num) : Type 0 where
    pub grid : c.OnGrid q
    pub positive : c.position c.zero < c.position q
    pub le_taker : c.position q ≤ c.position (remaining t)
    pub le_maker : c.position q ≤ c.position (remaining m)
    pub exhausts :
        (c.position q ≡ c.position (remaining t)) ⊎ (c.position q ≡ c.position (remaining m))

  pub min-IsTraded :
      (t m : Order) → IsLive t → IsLive m → IsTraded t m (c.min (remaining t) (remaining m))
  min-IsTraded t m ht hm =
      let rt = remaining-exact t ht.0 in
      let rm = remaining-exact m hm.0 in
      elim (c.min_cases (remaining t) (remaining m)) [
        | inl (e, le) ↦ subst (IsTraded t m) (sym e) (record {
          grid = rt.0;
          positive = omega (arith, rt.1, ht.1);
          le_taker = omega arith;
          le_maker = le;
          exhausts = inl (omega arith);
        })
        | inr (e, le) ↦ subst (IsTraded t m) (sym e) (record {
          grid = rm.0;
          positive = omega (arith, rm.1, hm.1);
          le_taker = le;
          le_maker = omega arith;
          exhausts = inr (omega arith);
        })
      ]

  pub quantity-add_fill :
      (o : Order) (q : c.Num) → c.position (add_fill o q).quantity ≡ c.position o.quantity
  unfolding add_fill
  quantity-add_fill o q = refl

  -- One side of a trade afterwards: still well formed, and spent exactly when it had no more left.
  pub record AfterTrade (o : Order) (q : c.Num) : Type 0 where
    pub fillable : IsFillable (add_fill o q)
    pub filled_eq :
        c.position (add_fill o q).filled + c.position c.zero ≡ c.position o.filled + c.position q
    pub spent :
        ((is_spent (add_fill o q) ≡ true) × (c.position q ≡ c.position (remaining o)))
        ⊎ ((is_spent (add_fill o q) ≡ false) × (c.position q < c.position (remaining o)))

  pub add_fill-AfterTrade :
      (o : Order) (q : c.Num)
      → IsFillable o
      → c.OnGrid q
      → c.position c.zero < c.position q
      → c.position q ≤ c.position (remaining o)
      → AfterTrade o q
  add_fill-AfterTrade o q h grid pos le =
      let r = add_fill-exact o q h grid (omega arith) le in
      record {
        fillable = r.0;
        filled_eq = r.1;
        spent = spent_or_not r.0 r.1 (remaining-exact o h).1;
      }
    where
      spent_or_not :
          IsFillable (add_fill o q)
          → c.position (add_fill o q).filled + c.position c.zero
            ≡ c.position o.filled + c.position q
          → c.position (remaining o) + c.position o.filled
            ≡ c.position o.quantity + c.position c.zero
          → ((is_spent (add_fill o q) ≡ true) × (c.position q ≡ c.position (remaining o)))
            ⊎ ((is_spent (add_fill o q) ≡ false) × (c.position q < c.position (remaining o)))
      spent_or_not f sum left = elim (is_spent_cases (add_fill o q) f) [
        | inl (e, full) ↦ inl (e, omega (arith, sum, left, quantity-add_fill o q))
        | inr (e, lt) ↦ inr (e, omega (arith, sum, left, quantity-add_fill o q))
      ]

  pub IsLive-of_not_spent : (o : Order) → IsFillable o → is_spent o ≡ false → IsLive o
  IsLive-of_not_spent o h e = elim (is_spent_cases o h) [
    | inl (spent, full) ↦ cc
    | inr (more, lt) ↦ (h, lt)
  ]

  -- If the maker still has something left, the taker has not.
  pub taker_spent :
      (t m : Order) (q : c.Num)
      → IsTraded t m q
      → AfterTrade t q
      → AfterTrade m q
      → is_spent (add_fill m q) ≡ false
      → is_spent (add_fill t q) ≡ true
  taker_spent t m q traded at am more = elim at.spent [
    | inl (e, all) ↦ e
    | inr (e, lt) ↦ elim am.spent [
      | inl (e', all') ↦ cc
      | inr (e', lt') ↦ absurd (omega (arith, traded.exhausts, lt, lt'))
    ]
  ]

  pub full_of_spent :
      (o : Order) → IsFillable o → is_spent o ≡ true → c.position o.filled ≡ c.position o.quantity
  full_of_spent o h e = elim (is_spent_cases o h) [ inl (spent, full) ↦ full | inr (more, lt) ↦ cc ]
