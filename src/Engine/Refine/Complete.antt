-- ===== src/Engine/Refine/Complete.antt =====
-- orderbook.rs: an index that knows the place of every order in the slab.
use lmax_clob.Common.{ℕ, ◌≡◌, sym, ap, ◌∙◌, inl, inr, Option, none, some, arith, ◌==◌, Bool-cases}
use lmax_clob.Crates.{Crates}
use lmax_clob.Engine.Types.{Order}
use lmax_clob.Engine.Book.{index_put}

module _ ⦃c : Crates⦄ where
  -- The id of each order in the slab leads to it, so that no two have the same id.
  abbrev pub IsComplete : c.Slab Order → (c.Uuid → Option ℕ) → Type 0
  IsComplete slab index = (k : ℕ) (o : Order) → c.slab_get slab k ≡ some o → index o.id ≡ some k

  module _ (slab : c.Slab Order) (index : c.Uuid → Option ℕ) (all : IsComplete slab index) where
    pub IsComplete-set :
        (k : ℕ) (v old : Order)
        → c.slab_get slab k ≡ some old
        → v.id ≡ old.id
        → IsComplete (c.slab_set slab k v) index
    IsComplete-set k v old held same j o e = elim (Bool-cases (k == j)) [
      | inl hit ↦
          let is_v : o ≡ v = ground (arith, c.get-set slab k v old j held) in
          let at : index v.id ≡ some k = ap index same ∙ all k old held in ground (arith, is_v, at)
      | inr miss ↦ all j o (ground (arith, c.get-set slab k v old j held))
    ]

    pub IsComplete-remove :
        (k : ℕ) (old : Order)
        → c.slab_get slab k ≡ some old
        → IsComplete (c.slab_remove slab k) (index_put old.id none index)
    IsComplete-remove k old held j o e =
        let there : c.slab_get slab j ≡ some o = ground (arith, c.get-remove slab k j) in
        elim (Bool-cases (c.uuid_eq old.id o.id)) [
          | inl hit ↦
              let same = (c.uuid_eq_iff old.id o.id).0 hit in
              let keys : some k ≡ some j = sym (all k old held) ∙ ap index same ∙ all j o there in
              absurd (ground (arith, c.get-remove slab k j, keys))
          | inr miss ↦ rw miss (all j o there)
        ]

    pub IsComplete-insert :
        (v : Order)
        → index v.id ≡ none
        → IsComplete (c.slab_insert slab v).1 (index_put v.id (some (c.slab_insert slab v).0) index)
    IsComplete-insert v unknown j o e = elim (Bool-cases ((c.slab_insert slab v).0 == j)) [
      | inl hit ↦
          let is_v : o ≡ v = ground (arith, c.get-insert slab v j) in
          ground (arith, is_v, c.uuid_eq_iff v.id v.id)
      | inr miss ↦
          let there : c.slab_get slab j ≡ some o = ground (arith, c.get-insert slab v j) in
          elim (Bool-cases (c.uuid_eq v.id o.id)) [
            | inl hit ↦
                absurd (cc (ap index ((c.uuid_eq_iff v.id o.id).0 hit), unknown, all j o there))
            | inr other ↦ rw other (all j o there)
          ]
    ]
