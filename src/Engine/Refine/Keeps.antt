-- ===== src/Engine/Refine/Keeps.antt =====
-- What a sweep leaves alone in the taker.
use lmax_clob.Common.{ℕ, ◌≡◌, refl, false, ◌||◌, not, inl, inr, [], ◌∷◌, Bool-cases}
use lmax_clob.Crates.{Crates}
use lmax_clob.Engine.Types.{Order, OrderType, remaining, is_complete, next_u64}
use lmax_clob.Engine.Matching.{is_spent, add_fill}
use lmax_clob.Engine.Spec.{Priced, accepts, sweep}
use lmax_clob.Engine.Refine.Trade.{incomplete_after_fill}

module _ ⦃c : Crates⦄ where
  -- What every fill of the taker keeps, a sweep keeps.
  pub sweep_taker {ℓ} :
      (P : Order → Type ℓ)
      → ((t : Order) (q : c.Num) → P t → P (add_fill t q))
      → (kind : OrderType) (n : ℕ) (t : Order) (es : Priced Order) → P t
      → P (sweep kind n t es).taker
  unfolding sweep
  sweep_taker P keep kind n t [] h = h
  sweep_taker P keep kind n t ((p, o) ∷ es) h =
      let q = c.min (remaining t) (remaining o) in
      elim (Bool-cases (is_spent t || not (accepts kind t p))) [
        | inl stop ↦ rw (stop, sweep) h
        | inr go ↦ elim (Bool-cases (is_spent (add_fill o q))) [
          | inl gone ↦
              rw (go, gone, sweep)
                (sweep_taker P keep kind (next_u64 n) (add_fill t q) es (keep t q h))
          | inr more ↦ rw (go, more, sweep) (keep t q h)
        ]
      ]

  -- The same order, but for what is filled and for its status.
  pub record SameOrder (o t : Order) : Type 0 where
    pub id : t.id ≡ o.id
    pub side : t.side ≡ o.side
    pub price : t.price ≡ o.price
    pub quantity : t.quantity ≡ o.quantity
    pub kind : t.order_type ≡ o.order_type
    pub unspent : is_spent t ≡ false → is_complete t ≡ false

  pub sweep-SameOrder :
      (kind : OrderType) (n : ℕ) (o : Order) (es : Priced Order)
      → is_complete o ≡ false
      → SameOrder o (sweep kind n o es).taker
  unfolding add_fill
  sweep-SameOrder kind n o es h = sweep_taker (SameOrder o) filled_once kind n o es (record {
    id = refl;
    side = refl;
    price = refl;
    quantity = refl;
    kind = refl;
    unspent = λ e. h;
  })
    where
      filled_once : (t : Order) (q : c.Num) → SameOrder o t → SameOrder o (add_fill t q)
      filled_once t q s = record {
        id = s.id;
        side = s.side;
        price = s.price;
        quantity = s.quantity;
        kind = s.kind;
        unspent = incomplete_after_fill t q;
      }
