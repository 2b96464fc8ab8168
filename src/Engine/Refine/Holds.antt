-- ===== src/Engine/Refine/Holds.antt =====
-- One side of a book, its slab and its levels, holding a list of resting orders.
use lmax_clob.Common.{
  ℕ, ◌≡◌, ◌≢◌, refl, sym, ap, ◌∙◌, false, inl, inr, Option, none, some, List, [], ◌∷◌, ◌++◌, All,
  All-imp, arith, ◌==◌, length, suc, Bool-cases,
}
use lmax_clob.Crates.{Crates}
use lmax_clob.Engine.Types.{Side, bid, ask, Order, is_complete}
use lmax_clob.Engine.Levels.{Levels, keep_level}
use lmax_clob.Engine.Levels.Flat.{tag, flatten}
use lmax_clob.Engine.Book.{index_put}
use lmax_clob.Engine.Matching.{opposite}
use lmax_clob.Engine.Spec.{Priced}
use lmax_clob.Engine.Refine.Order.{SamePrice}
use lmax_clob.Engine.Refine.Levels.{IsOrdered}
use lmax_clob.Engine.Refine.Amounts.{IsLive}
use lmax_clob.Engine.Refine.Resolve.{
  keys, Fresh, Distinct, Resolves, Resolves-set, Resolves-remove, Fresh_other_side,
}

module _ ⦃c : Crates⦄ where
  -- An order that may rest on this side in a level of this price.
  pub record IsResting (s : Side) (p : c.Num) (o : Order) : Type 0 where
    pub live : IsLive o
    pub on_side : o.side ≡ s
    pub limit : c.Num
    pub priced : o.price ≡ some limit
    pub at_level : SamePrice limit p
    pub incomplete : is_complete o ≡ false

  pub record Holds (s : Side) (slab : c.Slab Order) (ls : Levels) (es : Priced Order) : Type 0 where
    pub ordered : IsOrdered s ls
    pub resolves : Resolves slab (flatten ls) es
    pub distinct : Distinct (keys (flatten ls))
    pub resting : All (λ e. IsResting s e.0 e.1) es

  -- Each id that the index knows leads to the order of that id.
  abbrev pub IndexSound : c.Slab Order → (c.Uuid → Option ℕ) → Type 0
  IndexSound slab index =
      (id : c.Uuid) (k : ℕ)
      → index id ≡ some k
      → (o : Order) × (c.slab_get slab k ≡ some o) × (o.id ≡ id)

  pub get-set_self :
      (slab : c.Slab Order) (k : ℕ) (v old : Order)
      → c.slab_get slab k ≡ some old
      → c.slab_get (c.slab_set slab k v) k ≡ some v
  get-set_self slab k v old h = ground (arith, c.get-set slab k v old k h)

  pub Resolves-head :
      (s : Side) (slab : c.Slab Order) (p : c.Num) (o : Order) (es : Priced Order) (ls : Levels)
      → IsOrdered s ls
      → Resolves slab (flatten ls) ((p, o) ∷ es)
      → (k : ℕ) × (ks : List ℕ) × (rest : Levels) × (ls ≡ (p, k ∷ ks) ∷ rest)
  Resolves-head s slab p o es [] h r = absurd r
  Resolves-head s slab p o es ((q, []) ∷ ls) h r = absurd (h.0 refl)
  Resolves-head s slab p o es ((q, k ∷ ks) ∷ ls) h r = (k, ks, ls, ap (λ x. (x, k ∷ ks) ∷ ls) r.0)

  pub Resolves-nil :
      (s : Side) (slab : c.Slab Order) (ls : Levels)
      → IsOrdered s ls
      → Resolves slab (flatten ls) []
      → ls ≡ []
  Resolves-nil s slab [] h r = refl
  Resolves-nil s slab ((q, []) ∷ ls) h r = absurd (h.0 refl)
  Resolves-nil s slab ((q, k ∷ ks) ∷ ls) h r = absurd r

  pub length-Resolves :
      (slab : c.Slab Order) (f : List (c.Num × ℕ)) (es : Priced Order)
      → Resolves slab f es
      → length f ≡ length es
  length-Resolves slab [] [] r = refl
  length-Resolves slab [] (e ∷ es) r = absurd r
  length-Resolves slab (x ∷ f) [] r = absurd r
  length-Resolves slab ((p, k) ∷ f) ((q, o) ∷ es) r = ap suc (length-Resolves slab f es r.2)

  pub flatten-keep_level :
      (p : c.Num) (ks : List ℕ) (ls : Levels)
      → flatten (keep_level p ks ls) ≡ tag p ks ++ flatten ls
  unfolding keep_level
  flatten-keep_level p [] ls = refl
  flatten-keep_level p (k ∷ ks) ls = refl

  pub keep_level-IsOrdered :
      (s : Side) (p : c.Num) (ks js : List ℕ) (ls : Levels)
      → IsOrdered s ((p, js) ∷ ls)
      → IsOrdered s (keep_level p ks ls)
  unfolding keep_level
  keep_level-IsOrdered s p [] js ls o = o.2
  keep_level-IsOrdered s p (k ∷ ks) js ls o = ((λ e. cc), o.1, o.2)

  module _ (s : Side) (slab : c.Slab Order) (p : c.Num) (k : ℕ) (ks : List ℕ) (ls : Levels)
      (o : Order) (es : Priced Order) (h : Holds s slab ((p, k ∷ ks) ∷ ls) ((p, o) ∷ es)) where
    -- The order at the head changes in place.
    pub Holds-set_head :
        (v : Order)
        → IsResting s p v
        → Holds s (c.slab_set slab k v) ((p, k ∷ ks) ∷ ls) ((p, v) ∷ es)
    Holds-set_head v resting = record {
      ordered = h.ordered;
      resolves = (
        refl,
        get-set_self slab k v o h.resolves.1,
        Resolves-set slab k v o (tag p ks ++ flatten ls) es h.resolves.1 h.distinct.0 h.resolves.2,
      );
      distinct = h.distinct;
      resting = (resting, h.resting.1);
    }

    -- The head changes and leaves.
    pub Holds-pop_head :
        (v : Order) → Holds s (c.slab_remove (c.slab_set slab k v) k) (keep_level p ks ls) es
    Holds-pop_head v = record {
      ordered = keep_level-IsOrdered s p ks (k ∷ ks) ls h.ordered;
      resolves = rw (flatten-keep_level p ks ls) (
          Resolves-remove _ k (tag p ks ++ flatten ls) es h.distinct.0 (
            Resolves-set slab k v o (tag p ks ++ flatten ls) es h.resolves.1 h.distinct.0
              h.resolves.2));
      distinct = rw (flatten-keep_level p ks ls) h.distinct.1;
      resting = h.resting.1;
    }

  opposite-ne : (s : Side) → s ≢ opposite s
  opposite-ne bid e = cc
  opposite-ne ask e = cc

  module _ (s : Side) (slab : c.Slab Order) (ls : Levels) (es : Priced Order) (k : ℕ) (o : Order)
      (h : Holds (opposite s) slab ls es) (held : c.slab_get slab k ≡ some o)
      (side : o.side ≡ s) where
    away : Fresh k (keys (flatten ls))
    away =
        Fresh_other_side slab k o (flatten ls) es held
          (All-imp (λ e r same. opposite-ne s (sym side ∙ sym same ∙ r.on_side)) es h.resting)
          h.resolves

    -- Neither a change nor a removal of an order of the other side shows on this one.
    pub Holds-set_other : (v : Order) → Holds (opposite s) (c.slab_set slab k v) ls es
    unfolding away
    Holds-set_other v = record {
      ordered = h.ordered;
      resolves = Resolves-set slab k v o (flatten ls) es held away h.resolves;
      distinct = h.distinct;
      resting = h.resting;
    }

    pub Holds-pop_other :
        (v : Order) → Holds (opposite s) (c.slab_remove (c.slab_set slab k v) k) ls es
    unfolding away
    Holds-pop_other v = record {
      ordered = h.ordered;
      resolves =
          Resolves-remove _ k (flatten ls) es away
            (Resolves-set slab k v o (flatten ls) es held away h.resolves);
      distinct = h.distinct;
      resting = h.resting;
    }

  module _ (slab : c.Slab Order) (index : c.Uuid → Option ℕ) (sound : IndexSound slab index) where
    pub IndexSound-set :
        (k : ℕ) (v old : Order)
        → c.slab_get slab k ≡ some old
        → v.id ≡ old.id
        → IndexSound (c.slab_set slab k v) index
    IndexSound-set k v old held same id j e =
        let (o, at, owner) = sound id j e in
        elim (Bool-cases (k == j)) [
          | inl hit ↦ (v, ground (arith, c.get-set slab k v old j held), ground arith)
          | inr miss ↦ (o, ground (arith, c.get-set slab k v old j held), owner)
        ]

    pub IndexSound-remove :
        (k : ℕ) (old : Order)
        → c.slab_get slab k ≡ some old
        → IndexSound (c.slab_remove slab k) (index_put old.id none index)
    IndexSound-remove k old held id j e = elim (Bool-cases (c.uuid_eq old.id id)) [
      | inl hit ↦ ground arith
      | inr miss ↦
          let (o, at, owner) = sound id j (ground arith) in
          (o, ground (arith, c.get-remove slab k j, c.uuid_eq_iff old.id id), owner)
    ]

    pub IndexSound-insert :
        (v : Order)
        → IndexSound (c.slab_insert slab v).1 (index_put v.id (some (c.slab_insert slab v).0) index)
    IndexSound-insert v id j e = elim (Bool-cases (c.uuid_eq v.id id)) [
      | inl hit ↦ (v, ground (arith, c.get-insert slab v j), (c.uuid_eq_iff v.id id).0 hit)
      | inr miss ↦
          let (o, at, owner) = sound id j (ground arith) in
          (o, ground (arith, c.get-insert slab v j, c.insert_vacant slab v), owner)
    ]
