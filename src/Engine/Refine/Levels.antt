-- ===== src/Engine/Refine/Levels.antt =====
-- Operations on the levels of one side, seen through the flat list of keys.
use lmax_clob.Common.{
  ℕ, Ordering, ◌≡◌, ◌≢◌, refl, sym, ap, ◌∙◌, inl, inr, List, [], ◌∷◌, ◌++◌, All, All-imp, arith,
}
use lmax_clob.Crates.{Crates}
use lmax_clob.Engine.Types.{Side}
use lmax_clob.Engine.Levels.{Levels, order_on, push_back}
use lmax_clob.Engine.Levels.Flat.{tag, flatten}
use lmax_clob.Engine.Spec.{enqueue}
use lmax_clob.Engine.Refine.Order.{Ordering-cases, Ahead, order_refl, Ahead-of_gt, Ahead-trans}

module _ ⦃c : Crates⦄ where
  -- The prices are strictly in order and no level is empty.
  abbrev pub IsOrdered : Side → Levels → Type 0
  IsOrdered s [] = Unit
  IsOrdered s ((p, ks) ∷ ls) = (ks ≢ []) × All (λ l. Ahead s p l.0) ls × IsOrdered s ls

  enqueue-tag_behind :
      (s : Side) (p q : c.Num) (k : ℕ) (ks : List ℕ) (es : List (c.Num × ℕ))
      → order_on s p q ≡ Ordering.gt
      → enqueue s p k (tag q ks ++ es) ≡ tag q ks ++ enqueue s p k es
  unfolding enqueue
  enqueue-tag_behind s p q k [] es h = refl
  enqueue-tag_behind s p q k (j ∷ ks) es h =
      rw (h, enqueue) (ap (λ es'. (q, j) ∷ es') (enqueue-tag_behind s p q k ks es h))

  enqueue-Ahead :
      (s : Side) (p : c.Num) (k : ℕ) (ls : Levels)
      → All (λ l. Ahead s p l.0) ls
      → IsOrdered s ls
      → enqueue s p k (flatten ls) ≡ (p, k) ∷ flatten ls
  unfolding enqueue
  enqueue-Ahead s p k [] h o = refl
  enqueue-Ahead s p k ((q, []) ∷ ls) h o = absurd (o.0 refl)
  enqueue-Ahead s p k ((q, j ∷ js) ∷ ls) h o = rw (h.0, enqueue)

  enqueue-tag_self :
      (s : Side) (q : c.Num) (k : ℕ) (ks : List ℕ) (ls : Levels)
      → All (λ l. Ahead s q l.0) ls
      → IsOrdered s ls
      → enqueue s q k (tag q ks ++ flatten ls) ≡ tag q (ks ++ k ∷ []) ++ flatten ls
  unfolding enqueue
  enqueue-tag_self s q k [] ls h o = enqueue-Ahead s q k ls h o
  enqueue-tag_self s q k (j ∷ ks) ls h o =
      rw (order_refl s q, enqueue) (ap (λ es. (q, j) ∷ es) (enqueue-tag_self s q k ks ls h o))

  -- Pushing a key onto its level is queueing it by price and time.
  pub flatten-push_back :
      (s : Side) (p : c.Num) (k : ℕ) (ls : Levels)
      → IsOrdered s ls
      → flatten (push_back s p k ls) ≡ enqueue s p k (flatten ls)
  unfolding push_back enqueue
  flatten-push_back s p k [] o = refl
  flatten-push_back s p k ((q, []) ∷ ls) o = absurd (o.0 refl)
  flatten-push_back s p k ((q, j ∷ js) ∷ ls) o = elim (Ordering-cases (order_on s p q)) [
    | inl e ↦ rw (e, push_back, enqueue)
    | inr (inl e) ↦
        rw (e, push_back, enqueue)
          (ap (λ es. (q, j) ∷ es) (sym (enqueue-tag_self s q k js ls o.1 o.2)))
    | inr (inr e) ↦
        rw (e, push_back, enqueue)
          (ap (λ es. (q, j) ∷ es)
            (ap (◌++◌ (tag q js)) (flatten-push_back s p k ls o.2)
              ∙ sym (enqueue-tag_behind s p q k js (flatten ls) e)))
  ]

  All-push_back :
      (P : c.Num × List ℕ → Type 0) (s : Side) (p : c.Num) (k : ℕ) (ls : Levels)
      → P (p, k ∷ [])
      → ((q : c.Num) (ks : List ℕ) → P (q, ks) → P (q, ks ++ k ∷ []))
      → All P ls
      → All P (push_back s p k ls)
  unfolding push_back
  All-push_back P s p k [] new old h = (new, tt)
  All-push_back P s p k ((q, ks) ∷ ls) new old h =
      ground (arith, old q ks h.0, All-push_back P s p k ls new old h.1)

  snoc-ne-nil : (ks : List ℕ) (k : ℕ) → ks ++ k ∷ [] ≢ []
  snoc-ne-nil [] k e = cc
  snoc-ne-nil (j ∷ js) k e = cc

  pub push_back-IsOrdered :
      (s : Side) (p : c.Num) (k : ℕ) (ls : Levels)
      → IsOrdered s ls
      → IsOrdered s (push_back s p k ls)
  unfolding push_back
  push_back-IsOrdered s p k [] o = ((λ e. cc), tt, tt)
  push_back-IsOrdered s p k ((q, ks) ∷ ls) o = elim (Ordering-cases (order_on s p q)) [
    | inl e ↦ rw (e, push_back) ((λ h. cc), (e, All-imp (λ l. Ahead-trans s p q l.0 e) ls o.1), o)
    | inr (inl e) ↦ rw (e, push_back) (snoc-ne-nil ks k, o.1, o.2)
    | inr (inr e) ↦
        rw (e, push_back)
          (
            o.0,
            All-push_back (λ l. Ahead s q l.0) s p k ls (Ahead-of_gt s p q e) (λ r js h. h) o.1,
            push_back-IsOrdered s p k ls o.2,
          )
  ]
