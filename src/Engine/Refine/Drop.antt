-- ===== src/Engine/Refine/Drop.antt =====
-- One order taken out of a queue, and its key out of the keys of the queue.
use lmax_clob.Common.{
  ℕ, ◌≡◌, refl, sym, ap, ◌∙◌, false, inl, inr, some, some-injective, List, [], ◌∷◌, ◌++◌, All,
  arith, ◌==◌, Bool-cases,
}
use lmax_clob.Crates.{Crates}
use lmax_clob.Engine.Types.{Side, Order}
use lmax_clob.Engine.Spec.{Priced}
use lmax_clob.Engine.Refine.Resolve.{keys, Fresh, Distinct, Resolves}
use lmax_clob.Engine.Refine.Holds.{IsResting}
use lmax_clob.Engine.Refine.Covers.{In}
use lmax_clob.Engine.Refine.Unlink.{drop_key, Located}

module _ ⦃c : Crates⦄ where
  pub Fresh-drop_key :
      (j k : ℕ) (f : List (c.Num × ℕ)) → Fresh j (keys f) → Fresh j (keys (drop_key k f))
  Fresh-drop_key j k [] h = tt
  Fresh-drop_key j k ((p, i) ∷ f) h = ground (arith, Fresh-drop_key j k f h.1)

  pub Distinct-drop_key :
      (k : ℕ) (f : List (c.Num × ℕ)) → Distinct (keys f) → Distinct (keys (drop_key k f))
  Distinct-drop_key k [] h = tt
  Distinct-drop_key k ((p, i) ∷ f) h =
      ground (arith, Distinct-drop_key k f h.1, Fresh-drop_key i k f h.0)

  pub Fresh_dropped : (k : ℕ) (f : List (c.Num × ℕ)) → Fresh k (keys (drop_key k f))
  Fresh_dropped k [] = tt
  Fresh_dropped k ((p, i) ∷ f) = ground (arith, Fresh_dropped k f)

  drop_key-Fresh : (k : ℕ) (f : List (c.Num × ℕ)) → Fresh k (keys f) → drop_key k f ≡ f
  drop_key-Fresh k [] h = refl
  drop_key-Fresh k ((p, i) ∷ f) h = ground (arith, drop_key-Fresh k f h.1)

  pub In-drop_key :
      (j k : ℕ) (f : List (c.Num × ℕ))
      → (k == j) ≡ false
      → In j (keys f)
      → In j (keys (drop_key k f))
  In-drop_key j k [] n i = i
  In-drop_key j k ((p, x) ∷ f) n (inl e) = ground arith
  In-drop_key j k ((p, x) ∷ f) n (inr i) = ground (arith, In-drop_key j k f n i)

  -- The only price that an order rests under is its own.
  pub Located-Resolves :
      (s : Side) (slab : c.Slab Order) (k : ℕ) (o : Order) (l : c.Num) (f : List (c.Num × ℕ))
      (es : Priced Order)
      → c.slab_get slab k ≡ some o
      → o.price ≡ some l
      → All (λ e. IsResting s e.0 e.1) es
      → Resolves slab f es
      → Located k l f
  Located-Resolves s slab k o l [] es held priced rest r = tt
  Located-Resolves s slab k o l (x ∷ f) [] held priced rest r = absurd r
  Located-Resolves s slab k o l ((p, j) ∷ f) ((q, m) ∷ es) held priced rest r = (
    (λ same.
        let m-o : o ≡ m = cc (same, held, r.1) in
        let limit : rest.0.limit ≡ l = cc (m-o, priced, rest.0.priced) in
        sym (ap c.position limit) ∙ rest.0.at_level ∙ ap c.position (sym r.0)),
    Located-Resolves s slab k o l f es held priced rest.1 r.2,
  )

  -- The queue is cut at the order, and its rest stands under the keys that are left.
  pub record Cut (slab : c.Slab Order) (k : ℕ) (o : Order) (f : List (c.Num × ℕ))
      (es : Priced Order) : Type 0 where
    pub level : c.Num
    pub before : Priced Order
    pub later : Priced Order
    pub split : es ≡ before ++ (level, o) ∷ later
    pub resolves : Resolves slab (drop_key k f) (before ++ later)

  pub Cut-at :
      (slab : c.Slab Order) (k : ℕ) (o : Order) (f : List (c.Num × ℕ)) (es : Priced Order)
      → c.slab_get slab k ≡ some o
      → In k (keys f)
      → Distinct (keys f)
      → Resolves slab f es
      → Cut slab k o f es
  Cut-at slab k o [] es held i d r = absurd i
  Cut-at slab k o (x ∷ f) [] held i d r = absurd r
  Cut-at slab k o ((p, j) ∷ f) ((q, m) ∷ es) held i d r = elim (Bool-cases (j == k)) [
    | inl hit ↦
        let same : j ≡ k = ground arith in
        let m-o : m ≡ o = some-injective m o (sym r.1 ∙ ap (c.slab_get slab) same ∙ held) in
        record {
          level = q;
          before = [];
          later = es;
          split = ap (λ x. (q, x) ∷ es) m-o;
          resolves = rw (hit, drop_key-Fresh k f (ground (arith, d.0))) r.2;
        }
    | inr miss ↦
        let rest = Cut-at slab k o f es held (ground arith) d.1 r.2 in
        record {
          level = rest.level;
          before = (q, m) ∷ rest.before;
          later = rest.later;
          split = ap (◌∷◌ (q, m)) rest.split;
          resolves = rw miss (r.0, r.1, rest.resolves);
        }
  ]

  pub All-cut {ℓ} :
      {A : Type 0} (P : A → Type ℓ) (x : A) (before later : List A)
      → All P (before ++ x ∷ later)
      → All P (before ++ later)
  All-cut P x [] later h = h.1
  All-cut P x (y ∷ before) later h = (h.0, All-cut P x before later h.1)
