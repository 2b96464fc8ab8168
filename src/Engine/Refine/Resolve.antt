-- ===== src/Engine/Refine/Resolve.antt =====
-- How the keys of one side stand for the orders in the slab.
use lmax_clob.Common.{
  ℕ, ◌≡◌, ◌≢◌, refl, sym, ◌∙◌, false, none, some, List, [], ◌∷◌, All, arith, ◌==◌,
}
use lmax_clob.Crates.{Crates}
use lmax_clob.Engine.Types.{Side, Order}
use lmax_clob.Engine.Spec.{enqueue, Priced}

module _ ⦃c : Crates⦄ where
  abbrev pub keys : List (c.Num × ℕ) → List ℕ
  keys [] = []
  keys ((p, k) ∷ f) = k ∷ keys f

  -- `k` is none of these keys.
  abbrev pub Fresh : ℕ → List ℕ → Type 0
  Fresh k = All (λ j. k ≢ j)

  abbrev pub Distinct : List ℕ → Type 0
  Distinct [] = Unit
  Distinct (k ∷ ks) = Fresh k ks × Distinct ks

  -- The slab holds these orders under these keys.
  abbrev pub Resolves : c.Slab Order → List (c.Num × ℕ) → Priced Order → Type 0
  Resolves slab [] [] = Unit
  Resolves slab [] (e ∷ es) = ⊥
  Resolves slab (x ∷ f) [] = ⊥
  Resolves slab ((p, k) ∷ f) ((q, o) ∷ es) =
      (p ≡ q) × (c.slab_get slab k ≡ some o) × Resolves slab f es

  pub eqb_ne : (a b : ℕ) → a ≢ b → (a == b) ≡ false
  eqb_ne a b h = ground arith

  -- A change of the slab that shows at none of the keys.
  Resolves-same :
      (s s' : c.Slab Order) (k : ℕ)
      → ((j : ℕ) → k ≢ j → c.slab_get s' j ≡ c.slab_get s j)
      → (f : List (c.Num × ℕ)) (es : Priced Order) → Fresh k (keys f)
      → Resolves s f es
      → Resolves s' f es
  Resolves-same s s' k same [] [] h r = tt
  Resolves-same s s' k same [] (e ∷ es) h r = r
  Resolves-same s s' k same (x ∷ f) [] h r = r
  Resolves-same s s' k same ((p, j) ∷ f) ((q, o) ∷ es) h r =
      (r.0, same j h.0 ∙ r.1, Resolves-same s s' k same f es h.1 r.2)

  pub Resolves-set :
      (s : c.Slab Order) (k : ℕ) (v old : Order) (f : List (c.Num × ℕ)) (es : Priced Order)
      → c.slab_get s k ≡ some old
      → Fresh k (keys f)
      → Resolves s f es
      → Resolves (c.slab_set s k v) f es
  Resolves-set s k v old f es e =
      Resolves-same s (c.slab_set s k v) k (λ j n. c.get-set s k v old j e ∙ rw (eqb_ne k j n)) f es

  pub Resolves-remove :
      (s : c.Slab Order) (k : ℕ) (f : List (c.Num × ℕ)) (es : Priced Order)
      → Fresh k (keys f)
      → Resolves s f es
      → Resolves (c.slab_remove s k) f es
  Resolves-remove s k f es =
      Resolves-same s (c.slab_remove s k) k (λ j n. c.get-remove s k j ∙ rw (eqb_ne k j n)) f es

  pub Resolves-insert :
      (s : c.Slab Order) (v : Order) (f : List (c.Num × ℕ)) (es : Priced Order)
      → Fresh (c.slab_insert s v).0 (keys f)
      → Resolves s f es
      → Resolves (c.slab_insert s v).1 f es
  Resolves-insert s v f es =
      Resolves-same s (c.slab_insert s v).1 (c.slab_insert s v).0
        (λ j n. c.get-insert s v j ∙ rw (eqb_ne (c.slab_insert s v).0 j n)) f es

  -- A vacant key is none of theirs.
  pub Fresh_vacant :
      (s : c.Slab Order) (k : ℕ) (f : List (c.Num × ℕ)) (es : Priced Order)
      → c.slab_get s k ≡ none
      → Resolves s f es
      → Fresh k (keys f)
  Fresh_vacant s k [] [] e r = tt
  Fresh_vacant s k [] (x ∷ es) e r = absurd r
  Fresh_vacant s k (x ∷ f) [] e r = absurd r
  Fresh_vacant s k ((p, j) ∷ f) ((q, o) ∷ es) e r =
      ((λ same. cc (same, e, r.1)), Fresh_vacant s k f es e r.2)

  -- The order at `k` is on the other side.
  pub Fresh_other_side :
      (s : c.Slab Order) (k : ℕ) (m : Order) (f : List (c.Num × ℕ)) (es : Priced Order)
      → c.slab_get s k ≡ some m
      → All (λ e. e.1.side ≢ m.side) es
      → Resolves s f es
      → Fresh k (keys f)
  Fresh_other_side s k m [] [] e h r = tt
  Fresh_other_side s k m [] (x ∷ es) e h r = absurd r
  Fresh_other_side s k m (x ∷ f) [] e h r = absurd r
  Fresh_other_side s k m ((p, j) ∷ f) ((q, o) ∷ es) e h r =
      ((λ same. h.0 (cc (same, e, r.1))), Fresh_other_side s k m f es e h.1 r.2)

  pub Resolves-enqueue :
      (s : c.Slab Order) (sd : Side) (p : c.Num) (k : ℕ) (o : Order) (f : List (c.Num × ℕ))
      (es : Priced Order)
      → c.slab_get s k ≡ some o
      → Resolves s f es
      → Resolves s (enqueue sd p k f) (enqueue sd p o es)
  unfolding enqueue
  Resolves-enqueue s sd p k o [] [] e r = (refl, e, tt)
  Resolves-enqueue s sd p k o [] (x ∷ es) e r = absurd r
  Resolves-enqueue s sd p k o (x ∷ f) [] e r = absurd r
  Resolves-enqueue s sd p k o ((q, j) ∷ f) ((q', m) ∷ es) e r = rw (← r.0) (
      ground
        (arith, Resolves-enqueue s sd p k o f es e r.2, Resolves-enqueue s sd q k o f es e r.2))

  pub Fresh-enqueue :
      (sd : Side) (p : c.Num) (j k : ℕ) (f : List (c.Num × ℕ))
      → j ≢ k
      → Fresh j (keys f)
      → Fresh j (keys (enqueue sd p k f))
  unfolding enqueue
  Fresh-enqueue sd p j k [] n h = (n, tt)
  Fresh-enqueue sd p j k ((q, i) ∷ f) n h =
      ground (arith, Fresh-enqueue sd p j k f n h.1, Fresh-enqueue sd q j k f n h.1)

  pub Distinct-enqueue :
      (sd : Side) (p : c.Num) (k : ℕ) (f : List (c.Num × ℕ))
      → Fresh k (keys f)
      → Distinct (keys f)
      → Distinct (keys (enqueue sd p k f))
  unfolding enqueue
  Distinct-enqueue sd p k [] h d = (tt, tt)
  Distinct-enqueue sd p k ((q, i) ∷ f) h d = ground (
    arith,
    Distinct-enqueue sd p k f h.1 d.1,
    Distinct-enqueue sd q k f h.1 d.1,
    Fresh-enqueue sd p i k f (λ e. h.0 (sym e)) d.0,
    Fresh-enqueue sd q i k f (λ e. h.0 (sym e)) d.0,
  )
