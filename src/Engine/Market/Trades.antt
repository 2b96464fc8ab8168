-- ===== src/Engine/Market/Trades.antt =====
-- A sweep as a sequence of trades, each with the arithmetic that goes with it.
use lmax_clob.Common.{ℕ, ◌≡◌, true, false, ◌⊎◌, inl, inr, [], ◌∷◌, Bool-cases, All}
use lmax_clob.Crates.{Crates}
use lmax_clob.Engine.Types.{Side, Order, OrderType, remaining, next_u64}
use lmax_clob.Engine.Matching.{is_spent, add_fill}
use lmax_clob.Engine.Spec.{Priced, Swept, accepts, fill_of, sweep}
use lmax_clob.Engine.Refine.Amounts.{
  IsFillable, IsLive, IsLive-of_not_spent, IsTraded, min-IsTraded, AfterTrade, add_fill-AfterTrade,
}
use lmax_clob.Engine.Refine.Holds.{IsResting}

module _ ⦃c : Crates⦄ where
  -- The taker `t` trades with the maker `o` at the price `p`.
  pub record Trade (kind : OrderType) (t o : Order) (p : c.Num) : Type 0 where
    pub amounts : IsTraded t o (c.min (remaining t) (remaining o))
    pub taker : AfterTrade t (c.min (remaining t) (remaining o))
    pub maker : AfterTrade o (c.min (remaining t) (remaining o))
    pub taker_live : IsLive t
    pub maker_live : IsLive o
    pub accepted : accepts kind t p ≡ true

  -- Why a sweep stops: the taker is spent, nothing is left, or the next price is not accepted.
  abbrev pub Blocked : OrderType → Order → Priced Order → Type 0
  Blocked kind t [] = Unit
  Blocked kind t ((p, o) ∷ es) = accepts kind t p ≡ false

  abbrev pub Halts : OrderType → Order → Priced Order → Type 0
  Halts kind t es = (is_spent t ≡ true) ⊎ Blocked kind t es

  pub data Trades (kind : OrderType) : ℕ → Order → Priced Order → Swept → Type 0 where
    stop :
        {n : ℕ} {t : Order} {es : Priced Order}
        → IsFillable t
        → Halts kind t es
        → Trades kind n t es (record { fills = []; taker = t; rest = es; sequence = n })
    pop :
        {n : ℕ} {t o : Order} {p : c.Num} {es : Priced Order} {w : Swept}
        → Trade kind t o p
        → is_spent (add_fill o (c.min (remaining t) (remaining o))) ≡ true
        → Trades kind (next_u64 n) (add_fill t (c.min (remaining t) (remaining o))) es w
        → Trades kind n t ((p, o) ∷ es) (record w { fills = fill_of p o t (next_u64 n) ∷ w.fills })
    stay :
        {n : ℕ} {t o : Order} {p : c.Num} {es : Priced Order}
        → Trade kind t o p
        → is_spent (add_fill o (c.min (remaining t) (remaining o))) ≡ false
        → Trades kind n t ((p, o) ∷ es) (record {
          fills = fill_of p o t (next_u64 n) ∷ [];
          taker = add_fill t (c.min (remaining t) (remaining o));
          rest = (p, add_fill o (c.min (remaining t) (remaining o))) ∷ es;
          sequence = next_u64 n;
        })

  trade :
      (kind : OrderType) (t o : Order) (p : c.Num)
      → IsFillable t
      → IsLive o
      → is_spent t ≡ false
      → accepts kind t p ≡ true
      → Trade kind t o p
  trade kind t o p ft lo live good =
      let lt = IsLive-of_not_spent t ft live in
      let a = min-IsTraded t o lt lo in
      record {
        amounts = a;
        taker = add_fill-AfterTrade t _ ft a.grid a.positive a.le_taker;
        maker = add_fill-AfterTrade o _ lo.0 a.grid a.positive a.le_maker;
        taker_live = lt;
        maker_live = lo;
        accepted = good;
      }

  pub sweep-Trades :
      (kind : OrderType) (s : Side) (n : ℕ) (t : Order) (es : Priced Order)
      → IsFillable t
      → All (λ e. IsResting s e.0 e.1) es
      → Trades kind n t es (sweep kind n t es)
  unfolding sweep
  sweep-Trades kind s n t [] ft h = stop ft (inr tt)
  sweep-Trades kind s n t ((p, o) ∷ es) ft h = elim (Bool-cases (is_spent t)) [
    | inl spent ↦ rw (spent, sweep) (stop ft (inl spent))
    | inr live ↦ elim (Bool-cases (accepts kind t p)) [
      | inr bad ↦ rw (live, bad, sweep) (stop ft (inr bad))
      | inl good ↦
          let tr = trade kind t o p ft h.0.live live good in
          elim (Bool-cases (is_spent (add_fill o (c.min (remaining t) (remaining o))))) [
            | inl gone ↦
                rw (live, good, gone, sweep)
                  (pop tr gone (sweep-Trades kind s (next_u64 n) _ es tr.taker.fillable h.1))
            | inr more ↦ rw (live, good, more, sweep) (stay tr more)
          ]
    ]
  ]
