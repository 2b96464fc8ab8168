-- ===== src/Engine/Refine/Covers.antt =====
-- The orders in the slab and the keys of their side.
use lmax_clob.Common.{
  ℕ, ◌≡◌, ◌⊎◌, sym, ap, true, false, inl, inr, some, List, [], ◌∷◌, ◌++◌, arith, ◌==◌, Bool-cases,
  subst,
}
use lmax_clob.Crates.{Crates}
use lmax_clob.Engine.Types.{Side, bid, ask, Order}
use lmax_clob.Engine.Levels.{Levels, keep_level}
use lmax_clob.Engine.Levels.Flat.{tag, flatten}
use lmax_clob.Engine.Book.{OrderBook, levels}
use lmax_clob.Engine.Matching.{opposite}
use lmax_clob.Engine.Spec.{enqueue}
use lmax_clob.Engine.Refine.Resolve.{keys}
use lmax_clob.Engine.Refine.Holds.{flatten-keep_level}

abbrev pub In : ℕ → List ℕ → Type 0
In k [] = ⊥
In k (j ∷ js) = (k ≡ j) ⊎ In k js

pub Side-cases : (s x : Side) → (x ≡ s) ⊎ (x ≡ opposite s)
Side-cases s x = ground arith

module _ ⦃c : Crates⦄ where
  abbrev pub Covers : OrderBook → Type 0
  Covers b =
      (k : ℕ) (o : Order) → c.slab_get b.orders k ≡ some o → In k (keys (flatten (levels o.side b)))

  pub Covers-set :
      (b : OrderBook) (k : ℕ) (v old : Order)
      → Covers b
      → c.slab_get b.orders k ≡ some old
      → v.side ≡ old.side
      → Covers (record b { orders = c.slab_set b.orders k v })
  Covers-set b k v old h held same j o at = elim (Bool-cases (k == j)) [
    | inl hit ↦
        let e : o.side ≡ old.side = ground (arith, c.get-set b.orders k v old j held) in
        let there : In j (keys (flatten (levels old.side b))) = h j old (ground (arith, held)) in
        levels_same o.side (subst (λ s. In j (keys (flatten (levels s b)))) (sym e) there)
    | inr miss ↦ levels_same o.side (h j o (ground (arith, c.get-set b.orders k v old j held)))
  ]
    where
      levels_same :
          (s : Side)
          → In j (keys (flatten (levels s b)))
          → In j (keys (flatten (levels s (record b { orders = c.slab_set b.orders k v }))))
      levels_same bid i = i
      levels_same ask i = i

  -- The front of the best level leaves book and slab.
  pub Covers-pop :
      (b b' : OrderBook) (s : Side) (p : c.Num) (k : ℕ) (ks : List ℕ) (ls : Levels)
      → Covers b
      → levels s b ≡ (p, k ∷ ks) ∷ ls
      → b'.orders ≡ c.slab_remove b.orders k
      → levels s b' ≡ keep_level p ks ls
      → levels (opposite s) b' ≡ levels (opposite s) b
      → Covers b'
  Covers-pop b b' s p k ks ls h best orders mine other j o at = elim (Bool-cases (k == j)) [
    | inl hit ↦ absurd (gone hit)
    | inr miss ↦ elim (Side-cases s o.side) [
      | inl e ↦ rw (e, mine, flatten-keep_level p ks ls) (in_tail miss (rw (e, best) at (old miss)))
      | inr e ↦ rw (e, other) (rw e at (old miss))
    ]
  ]
    where
      gone : (k == j) ≡ true → ⊥
      gone hit = ground (arith, c.get-remove b.orders k j, ap (λ x. c.slab_get x j) orders)

      old : (k == j) ≡ false → In j (keys (flatten (levels o.side b)))
      old miss = h j o (ground (arith, c.get-remove b.orders k j, ap (λ x. c.slab_get x j) orders))

      in_tail :
          (k == j) ≡ false
          → In j (keys (flatten ((p, k ∷ ks) ∷ ls)))
          → In j (keys (tag p ks ++ flatten ls))
      in_tail miss (inl e) = absurd (ground arith)
      in_tail miss (inr i) = i

  pub In-enqueue :
      (s : Side) (p : c.Num) (j k : ℕ) (f : List (c.Num × ℕ))
      → (j ≡ k) ⊎ In j (keys f)
      → In j (keys (enqueue s p k f))
  unfolding enqueue
  In-enqueue s p j k [] (inl e) = inl e
  In-enqueue s p j k [] (inr i) = absurd i
  In-enqueue s p j k ((q, i) ∷ f) (inl e) =
      ground (arith, In-enqueue s p j k f (inl e), In-enqueue s q j k f (inl e))
  In-enqueue s p j k ((q, i) ∷ f) (inr (inl e)) = ground arith
  In-enqueue s p j k ((q, i) ∷ f) (inr (inr n)) =
      ground (arith, In-enqueue s p j k f (inr n), In-enqueue s q j k f (inr n))
