-- ===== src/Engine/Refine/Loop.antt =====
-- One round of a matching loop beside one step of the sweep that it stands for.
use lmax_clob.Common.{
  Option, map, List, ℕ, suc, zero, ◌<◌, ◌≡◌, refl, sym, true, false, not, ◌||◌, none, some, [], ◌∷◌,
  ◌++◌, arith, append-nil,
}
use lmax_clob.Crates.{Crates}
use lmax_clob.Engine.Book.{index_put}
use lmax_clob.Engine.Types.{Side, Order, OrderType, remaining, next_u64}
use lmax_clob.Engine.Matching.{Matching, is_spent, add_fill, execute_fill, pick_maker, match_loop}
use lmax_clob.Engine.Spec.{Priced, Swept, accepts, fill_of, sweep}
use lmax_clob.Engine.Refine.Traded.{BookIsComplete}
use lmax_clob.Engine.Refine.Trade.{Facing, traded}

module _ ⦃c : Crates⦄ where
  -- An index after each of these ids has been taken out.
  abbrev pub forget : List c.Uuid → (c.Uuid → Option ℕ) → c.Uuid → Option ℕ
  forget [] index = index
  forget (id ∷ ids) index = forget ids (index_put id none index)

  abbrev pub ids : Priced Order → List c.Uuid
  ids es = map (λ (y : c.Num × Order). y.1.id) es

  -- `m'` is `m` after the sweep `w` of `es`, with `os` still on the taker's own side.
  pub record IsSwept (s : Side) (m m' : Matching) (w : Swept) (es os : Priced Order) : Type 0 where
    pub taker_eq : m'.taker ≡ w.taker
    pub fills_eq : m'.fills ≡ m.fills ++ w.fills
    pub sequence_eq : m'.engine.sequence ≡ w.sequence
    pub market_eq : m'.engine.market_id ≡ m.engine.market_id
    pub facing : Facing s m' w.rest os
    pub gone : List c.Uuid
    pub gone_eq : ids es ≡ gone ++ ids w.rest
    pub index_eq : m'.engine.book.index ≡ forget gone m.engine.book.index
    pub complete : BookIsComplete m.engine.book → BookIsComplete m'.engine.book

  pub match_loop-spent :
      (kind : OrderType) (fuel : ℕ) (m : Matching)
      → 0 < fuel
      → is_spent m.taker ≡ true
      → match_loop kind fuel m ≡ some m
  unfolding match_loop
  match_loop-spent kind zero m h e = absurd (omega arith)
  match_loop-spent kind (suc fuel) m h e = rw e

  pub match_loop-stop :
      (kind : OrderType) (fuel : ℕ) (m : Matching)
      → pick_maker kind m.engine.book m.taker ≡ none
      → match_loop kind (suc fuel) m ≡ some m
  unfolding match_loop
  match_loop-stop kind fuel m e = rw e (ground arith)

  pub match_loop-round :
      (kind : OrderType) (fuel : ℕ) (m : Matching) (k : ℕ) (p : c.Num)
      → is_spent m.taker ≡ false
      → pick_maker kind m.engine.book m.taker ≡ some (k, p)
      → match_loop kind (suc fuel) m ≡ match_loop kind fuel (execute_fill m k p)
  unfolding match_loop
  match_loop-round kind fuel m k p live e = rw (live, e)

  pub unswept :
      (s : Side) (m : Matching) (es os : Priced Order)
      → Facing s m es os
      → IsSwept s m m
          (record { fills = []; taker = m.taker; rest = es; sequence = m.engine.sequence })
          es
          os
  unswept s m es os f = record {
    taker_eq = refl;
    fills_eq = sym (append-nil m.fills);
    sequence_eq = refl;
    market_eq = refl;
    facing = f;
    gone = [];
    gone_eq = refl;
    index_eq = refl;
    complete = λ all. all;
  }

  pub market-traded :
      (m : Matching) (k : ℕ) (p : c.Num) (o : Order)
      → (traded m k p o).engine.market_id ≡ m.engine.market_id
  market-traded m k p o = ground arith

  pub index-traded_stay :
      (m : Matching) (k : ℕ) (p : c.Num) (o : Order)
      → is_spent (add_fill o (c.min (remaining m.taker) (remaining o))) ≡ false
      → (traded m k p o).engine.book.index ≡ m.engine.book.index
  index-traded_stay m k p o more = rw more

  pub sequence-traded :
      (m : Matching) (k : ℕ) (p : c.Num) (o : Order)
      → (traded m k p o).engine.sequence ≡ next_u64 m.engine.sequence
  sequence-traded m k p o = ground arith

  pub sweep-stop :
      (kind : OrderType) (n : ℕ) (t : Order) (p : c.Num) (o : Order) (es : Priced Order)
      → (is_spent t || not (accepts kind t p)) ≡ true
      → sweep kind n t ((p, o) ∷ es)
        ≡ record { fills = []; taker = t; rest = (p, o) ∷ es; sequence = n }
  unfolding sweep
  sweep-stop kind n t p o es e = rw e

  module _ (kind : OrderType) (n : ℕ) (t : Order) (p : c.Num) (o : Order) (es : Priced Order)
      (live : is_spent t ≡ false) (good : accepts kind t p ≡ true) where
    pub sweep-pop :
        is_spent (add_fill o (c.min (remaining t) (remaining o))) ≡ true
        → let later = sweep kind (next_u64 n) (add_fill t (c.min (remaining t) (remaining o))) es in
          sweep kind n t ((p, o) ∷ es)
          ≡ record later { fills = fill_of p o t (next_u64 n) ∷ later.fills }
    unfolding sweep
    sweep-pop gone = rw (live, good, gone)

    pub sweep-stay :
        is_spent (add_fill o (c.min (remaining t) (remaining o))) ≡ false
        → sweep kind n t ((p, o) ∷ es) ≡ record {
          fills = fill_of p o t (next_u64 n) ∷ [];
          taker = add_fill t (c.min (remaining t) (remaining o));
          rest = (p, add_fill o (c.min (remaining t) (remaining o))) ∷ es;
          sequence = next_u64 n;
        }
    unfolding sweep
    sweep-stay more = rw (live, good, more)
