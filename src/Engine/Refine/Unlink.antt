-- ===== src/Engine/Refine/Unlink.antt =====
-- Taking one key out of the levels of its side.
use lmax_clob.Common.{
  ℕ, ◌≡◌, ◌≢◌, refl, sym, ap, ◌∙◌, inl, inr, none, some, List, [], ◌∷◌, ◌++◌, arith, ◌==◌,
  if◌then◌else◌, Ordering, All,
}
use lmax_clob.Crates.{Crates}
use lmax_clob.Engine.Types.{Side}
use lmax_clob.Engine.Levels.{Levels, order_on, level_at, write_level, keep_level, retain}
use lmax_clob.Engine.Levels.Flat.{tag, flatten}
use lmax_clob.Engine.Refine.Order.{Ordering-eq, Ahead, SamePrice, SamePrice-of_order, Ahead-same}
use lmax_clob.Engine.Refine.Levels.{IsOrdered}
use lmax_clob.Engine.Refine.Holds.{flatten-keep_level, keep_level-IsOrdered}

module _ ⦃c : Crates⦄ where
  abbrev pub drop_key : ℕ → List (c.Num × ℕ) → List (c.Num × ℕ)
  drop_key k [] = []
  drop_key k ((p, j) ∷ f) = let rest = drop_key k f in if j == k then rest else (p, j) ∷ rest

  -- The key stands only under prices equal to `l`.
  abbrev pub Located : ℕ → c.Num → List (c.Num × ℕ) → Type 0
  Located k l [] = Unit
  Located k l ((p, j) ∷ f) = (j ≡ k → SamePrice l p) × Located k l f

  -- What `cancel_order` makes of the levels of the order's side.
  unfoldable pub unlinked : Side → c.Num → ℕ → Levels → Levels
  unlinked s l k ls = elim (level_at s l ls) [
    | none ↦ ls
    | some level ↦ write_level s l (retain k level) ls
  ]

  Located-tail :
      (k : ℕ) (l q : c.Num) (ks : List ℕ) (f : List (c.Num × ℕ))
      → Located k l (tag q ks ++ f)
      → Located k l f
  Located-tail k l q [] f h = h
  Located-tail k l q (j ∷ ks) f h = Located-tail k l q ks f h.1

  drop_key-append :
      (k : ℕ) (q : c.Num) (ks : List ℕ) (f : List (c.Num × ℕ))
      → drop_key k (tag q ks ++ f) ≡ tag q (retain k ks) ++ drop_key k f
  unfolding retain
  drop_key-append k q [] f = refl
  drop_key-append k q (j ∷ ks) f = ground (arith, drop_key-append k q ks f)

  retain-elsewhere :
      (k : ℕ) (l q : c.Num) (ks : List ℕ) (f : List (c.Num × ℕ))
      → ¬ SamePrice l q
      → Located k l (tag q ks ++ f)
      → retain k ks ≡ ks
  unfolding retain
  retain-elsewhere k l q [] f n h = refl
  retain-elsewhere k l q (j ∷ ks) f n h =
      ground (arith, retain-elsewhere k l q ks f n h.1, λ (e : j ≡ k). n (h.0 e))

  drop_key-behind :
      (s : Side) (k : ℕ) (l q : c.Num) (ls : Levels)
      → SamePrice l q
      → All (λ x. Ahead s q x.0) ls
      → Located k l (flatten ls)
      → drop_key k (flatten ls) ≡ flatten ls
  drop_key-behind s k l q [] e h loc = refl
  drop_key-behind s k l q ((p, ks) ∷ ls) e h loc =
      drop_key-append k p ks (flatten ls)
      ∙ rw (
        retain-elsewhere k l p ks (flatten ls) (λ same. Ahead-same s q p (sym e ∙ same) h.0) loc,
        drop_key-behind s k l q ls e h.1 (Located-tail k l p ks (flatten ls) loc),
      )

  unlinked-miss :
      (s : Side) (l : c.Num) (k : ℕ) (q : c.Num) (ks : List ℕ) (ls : Levels)
      → order_on s l q ≢ Ordering.eq
      → unlinked s l k ((q, ks) ∷ ls) ≡ (q, ks) ∷ unlinked s l k ls
  unfolding unlinked level_at write_level
  unlinked-miss s l k q ks ls n = ground arith

  unlinked-hit :
      (s : Side) (l : c.Num) (k : ℕ) (q : c.Num) (ks : List ℕ) (ls : Levels)
      → order_on s l q ≡ Ordering.eq
      → unlinked s l k ((q, ks) ∷ ls) ≡ keep_level q (retain k ks) ls
  unfolding unlinked level_at write_level
  unlinked-hit s l k q ks ls e = ground arith

  SamePrice-order : (s : Side) (l q : c.Num) → SamePrice l q → order_on s l q ≡ Ordering.eq
  SamePrice-order Side.bid l q e = ground (arith, c.cmp_lem q l)
  SamePrice-order Side.ask l q e = ground (arith, c.cmp_lem l q)

  pub flatten-unlinked :
      (s : Side) (l : c.Num) (k : ℕ) (ls : Levels)
      → IsOrdered s ls
      → Located k l (flatten ls)
      → flatten (unlinked s l k ls) ≡ drop_key k (flatten ls)
  unfolding unlinked level_at
  flatten-unlinked s l k [] o loc = refl
  flatten-unlinked s l k ((q, ks) ∷ ls) o loc =
      let rest = Located-tail k l q ks (flatten ls) loc in
      elim (Ordering-eq (order_on s l q)) [
        | inl e ↦
            let same = SamePrice-of_order s l q e in
            rw (unlinked-hit s l k q ks ls e, flatten-keep_level q (retain k ks) ls)
              (sym (
                drop_key-append k q ks (flatten ls)
                ∙ ap (◌++◌ (tag q (retain k ks))) (drop_key-behind s k l q ls same o.1 rest)))
        | inr n ↦
            rw (unlinked-miss s l k q ks ls n, flatten-unlinked s l k ls o.2 rest)
              (sym (
                drop_key-append k q ks (flatten ls)
                ∙ ap (λ js. tag q js ++ drop_key k (flatten ls))
                    (retain-elsewhere k l q ks (flatten ls) (λ same. n (SamePrice-order s l q same))
                      loc)))
      ]

  All-unlinked :
      (P : c.Num → Type 0) (s : Side) (l : c.Num) (k : ℕ) (ls : Levels)
      → All (λ x. P x.0) ls
      → All (λ x. P x.0) (unlinked s l k ls)
  unfolding unlinked level_at keep_level
  All-unlinked P s l k [] h = tt
  All-unlinked P s l k ((q, ks) ∷ ls) h = elim (Ordering-eq (order_on s l q)) [
    | inl e ↦ rw (unlinked-hit s l k q ks ls e) (kept (retain k ks))
    | inr n ↦ rw (unlinked-miss s l k q ks ls n) (h.0, All-unlinked P s l k ls h.1)
  ]
    where
      kept : (js : List ℕ) → All (λ x. P x.0) (keep_level q js ls)
      kept [] = h.1
      kept (j ∷ js) = h

  pub unlinked-IsOrdered :
      (s : Side) (l : c.Num) (k : ℕ) (ls : Levels)
      → IsOrdered s ls
      → IsOrdered s (unlinked s l k ls)
  unfolding unlinked level_at
  unlinked-IsOrdered s l k [] o = tt
  unlinked-IsOrdered s l k ((q, ks) ∷ ls) o = elim (Ordering-eq (order_on s l q)) [
    | inl e ↦ rw (unlinked-hit s l k q ks ls e) (keep_level-IsOrdered s q (retain k ks) ks ls o)
    | inr n ↦
        rw (unlinked-miss s l k q ks ls n)
          (o.0, All-unlinked (λ p. Ahead s q p) s l k ls o.1, unlinked-IsOrdered s l k ls o.2)
  ]
