-- ===== src/Engine/Refine/Sweep.antt =====
-- The matching loops and their fuel, beside the sweep of the other side of the market.
use lmax_clob.Common.{
  sym, ℕ, suc, zero, ◌<◌, ◌≡◌, refl, ap, ◌∙◌, true, false, inl, inr, none, some, List, [], ◌∷◌,
  arith, length, if◌then◌else◌, Bool-cases, append_assoc,
}
use lmax_clob.Crates.{Crates}
use lmax_clob.Engine.Types.{Side, Order, OrderType, remaining}
use lmax_clob.Engine.Levels.{Levels}
use lmax_clob.Engine.Book.{levels}
use lmax_clob.Engine.Matching.{Matching, is_spent, add_fill, pick_maker, match_loop}
use lmax_clob.Engine.Spec.{Priced, accepts, sweep}
use lmax_clob.Engine.Refine.Holds.{Resolves-head, Resolves-nil}
use lmax_clob.Engine.Refine.Step.{pick_maker-empty, pick_maker-head}
use lmax_clob.Engine.Refine.Trade.{
  id-add_fill, Facing, traded, execute_fill-traded, traded-pop, traded-stay,
}
use lmax_clob.Engine.Refine.Traded.{index-traded_pop, IsComplete-traded_pop, IsComplete-traded_stay}
use lmax_clob.Engine.Refine.Loop.{
  index-traded_stay, forget, ids, IsSwept, match_loop-spent, match_loop-stop, match_loop-round,
  unswept, market-traded, sequence-traded, sweep-stop, sweep-pop, sweep-stay,
}

module _ ⦃c : Crates⦄ where
  abbrev pub Sweeps : OrderType → ℕ → Side → Matching → Priced Order → Priced Order → Type 0
  Sweeps kind fuel s m es os =
      (m' : Matching) × (match_loop kind fuel m ≡ some m')
      × IsSwept s m m' (sweep kind m.engine.sequence m.taker es) es os

  Sweeps-empty :
      (kind : OrderType) (fuel : ℕ) (s : Side) (m : Matching) (os : Priced Order)
      → Facing s m [] os
      → Sweeps kind (suc fuel) s m [] os
  unfolding sweep
  Sweeps-empty kind fuel s m os f =
      let bare = Resolves-nil s m.engine.book.orders _ f.makers.ordered f.makers.resolves in
      (
        m,
        match_loop-stop kind fuel m (pick_maker-empty kind m.engine.book m.taker (rw f.faces bare)),
        unswept s m [] os f,
      )

  Sweeps-spent :
      (kind : OrderType) (fuel : ℕ) (s : Side) (m : Matching) (p : c.Num) (o : Order)
      (es os : Priced Order)
      → 0 < fuel
      → Facing s m ((p, o) ∷ es) os
      → is_spent m.taker ≡ true
      → Sweeps kind fuel s m ((p, o) ∷ es) os
  Sweeps-spent kind fuel s m p o es os pos f e = (
    m,
    match_loop-spent kind fuel m pos e,
    rw (sweep-stop kind m.engine.sequence m.taker p o es (rw e)) (unswept s m ((p, o) ∷ es) os f),
  )

  module _ (kind : OrderType) (fuel : ℕ) (s : Side) (m : Matching) (p : c.Num) (o : Order)
      (es os : Priced Order) (k : ℕ) (ks : List ℕ) (ls : Levels) (f : Facing s m ((p, o) ∷ es) os)
      (best : levels s m.engine.book ≡ (p, k ∷ ks) ∷ ls) (live : is_spent m.taker ≡ false) where
    picked :
        pick_maker kind m.engine.book m.taker
        ≡ (if accepts kind m.taker p then some (k, p) else none)
    picked = pick_maker-head kind m.engine.book m.taker p k ks ls (rw f.faces best)

    Sweeps-refused : accepts kind m.taker p ≡ false → Sweeps kind (suc fuel) s m ((p, o) ∷ es) os
    Sweeps-refused bad = (
      m,
      match_loop-stop kind fuel m (picked ∙ rw bad),
      rw (sweep-stop kind m.engine.sequence m.taker p o es (rw bad (ground arith)))
          (unswept s m ((p, o) ∷ es) os f),
    )

    round :
        accepts kind m.taker p ≡ true
        → match_loop kind (suc fuel) m ≡ match_loop kind fuel (traded m k p o)
    round good =
        match_loop-round kind fuel m k p live (picked ∙ rw good)
        ∙ ap (match_loop kind fuel) (execute_fill-traded s m p o es os k ks ls f best live)

    Sweeps-pop :
        accepts kind m.taker p ≡ true
        → is_spent (add_fill o (c.min (remaining m.taker) (remaining o))) ≡ true
        → Sweeps kind fuel s (traded m k p o) es os
        → Sweeps kind (suc fuel) s m ((p, o) ∷ es) os
    Sweeps-pop good gone (m', run, w) =
        let n = sequence-traded m k p o in
        (
          m',
          round good ∙ run,
          rw (sweep-pop kind m.engine.sequence m.taker p o es live good gone) (record {
            taker_eq = w.taker_eq ∙ rw n;
            fills_eq = w.fills_eq ∙ rw (n, append_assoc);
            sequence_eq = w.sequence_eq ∙ rw n;
            market_eq = w.market_eq ∙ market-traded m k p o;
            facing = rw n at w.facing;
            gone = o.id ∷ w.gone;
            gone_eq = ap (◌∷◌ o.id) (w.gone_eq ∙ rw n);
            index_eq =
                w.index_eq
                ∙ ap (forget w.gone) (index-traded_pop s m p o es os k ks ls f best live gone);
            complete = λ all.
                w.complete (IsComplete-traded_pop s m p o es os k ks ls f best live gone all);
          }),
        )

    Sweeps-stay :
        accepts kind m.taker p ≡ true
        → is_spent (add_fill o (c.min (remaining m.taker) (remaining o))) ≡ false
        → 0 < fuel
        → Sweeps kind (suc fuel) s m ((p, o) ∷ es) os
    Sweeps-stay good more pos =
        let (after, spent) = traded-stay s m p o es os k ks ls f best live more in
        (
          traded m k p o,
          round good ∙ match_loop-spent kind fuel (traded m k p o) pos spent,
          rw (sweep-stay kind m.engine.sequence m.taker p o es live good more) (record {
            taker_eq = refl;
            fills_eq = refl;
            sequence_eq = sequence-traded m k p o;
            market_eq = market-traded m k p o;
            facing = after;
            gone = [];
            gone_eq = ap (λ id. id ∷ ids es) (sym (id-add_fill o _));
            index_eq = index-traded_stay m k p o more;
            complete = IsComplete-traded_stay s m p o es os k ks ls f best live more;
          }),
        )

  -- With a round for each order on the other side and one more, a loop ends, and has swept it.
  pub match_loop-sweep :
      (kind : OrderType) (fuel : ℕ) (s : Side) (m : Matching) (es os : Priced Order)
      → length es < fuel
      → Facing s m es os
      → Sweeps kind fuel s m es os
  match_loop-sweep kind zero s m es os lt f = absurd (omega arith)
  match_loop-sweep kind (suc fuel) s m [] os lt f = Sweeps-empty kind fuel s m os f
  match_loop-sweep kind (suc fuel) s m ((p, o) ∷ es) os lt f =
      elim (Bool-cases (is_spent m.taker)) [
        | inl e ↦ Sweeps-spent kind (suc fuel) s m p o es os (omega arith) f e
        | inr live ↦
            let (k, ks, ls, best) =
              Resolves-head s m.engine.book.orders p o es (levels s m.engine.book) f.makers.ordered
                f.makers.resolves in
            elim (Bool-cases (accepts kind m.taker p)) [
              | inr bad ↦ Sweeps-refused kind fuel s m p o es os k ks ls f best live bad
              | inl good ↦
                  elim (Bool-cases
                    (is_spent (add_fill o (c.min (remaining m.taker) (remaining o))))) [
                      | inl gone ↦
                          Sweeps-pop kind fuel s m p o es os k ks ls f best live good gone (
                            match_loop-sweep kind fuel s (traded m k p o) es os (omega arith)
                              (traded-pop s m p o es os k ks ls f best live gone))
                      | inr more ↦
                          Sweeps-stay kind fuel s m p o es os k ks ls f best live good more
                            (omega arith)
                    ]
            ]
      ]
