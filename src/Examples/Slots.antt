-- ===== src/Examples/Slots.antt =====
-- A slab that gives out the lowest vacant key.
use lmax_clob.Common.{
  inr, some-injective, inl, Any, All-imp, All, ℕ, zero, suc, ◌≡◌, refl, Option, none, some, List,
  [], ◌∷◌, arith, ◌==◌, if◌then◌else◌,
}

module _ {A : Type 0} where
  abbrev pub slot : List (Option A) → ℕ → Option A
  slot [] k = none
  slot (x ∷ s) zero = x
  slot (x ∷ s) (suc k) = slot s k

  abbrev pub fill_slot : List (Option A) → A → ℕ × List (Option A)
  fill_slot [] v = (0, some v ∷ [])
  fill_slot (none ∷ s) v = (0, some v ∷ s)
  fill_slot (some x ∷ s) v = let (k, s') = fill_slot s v in (suc k, some x ∷ s')

  abbrev pub write_slot : List (Option A) → ℕ → A → List (Option A)
  write_slot [] k v = []
  write_slot (x ∷ s) zero v = some v ∷ s
  write_slot (x ∷ s) (suc k) v = x ∷ write_slot s k v

  abbrev pub clear_slot : List (Option A) → ℕ → List (Option A)
  clear_slot [] k = []
  clear_slot (x ∷ s) zero = none ∷ s
  clear_slot (x ∷ s) (suc k) = x ∷ clear_slot s k

  pub slot-fill_slot :
      (s : List (Option A)) (v : A) (j : ℕ)
      → slot (fill_slot s v).1 j ≡ (if (fill_slot s v).0 == j then some v else slot s j)
  slot-fill_slot [] v zero = refl
  slot-fill_slot [] v (suc j) = ground arith
  slot-fill_slot (none ∷ s) v zero = refl
  slot-fill_slot (none ∷ s) v (suc j) = ground arith
  slot-fill_slot (some x ∷ s) v zero = ground arith
  slot-fill_slot (some x ∷ s) v (suc j) = ground (arith, slot-fill_slot s v j)

  pub fill_slot_vacant : (s : List (Option A)) (v : A) → slot s (fill_slot s v).0 ≡ none
  fill_slot_vacant [] v = refl
  fill_slot_vacant (none ∷ s) v = refl
  fill_slot_vacant (some x ∷ s) v = fill_slot_vacant s v

  pub slot-write_slot :
      (s : List (Option A)) (k : ℕ) (v old : A) (j : ℕ)
      → slot s k ≡ some old
      → slot (write_slot s k v) j ≡ (if k == j then some v else slot s j)
  slot-write_slot [] k v old j h = cc
  slot-write_slot (x ∷ s) zero v old zero h = refl
  slot-write_slot (x ∷ s) zero v old (suc j) h = ground arith
  slot-write_slot (x ∷ s) (suc k) v old zero h = ground arith
  slot-write_slot (x ∷ s) (suc k) v old (suc j) h = ground (arith, slot-write_slot s k v old j h)

  pub slot-clear_slot :
      (s : List (Option A)) (k j : ℕ)
      → slot (clear_slot s k) j ≡ (if k == j then none else slot s j)
  slot-clear_slot [] k j = ground arith
  slot-clear_slot (x ∷ s) zero zero = refl
  slot-clear_slot (x ∷ s) zero (suc j) = ground arith
  slot-clear_slot (x ∷ s) (suc k) zero = ground arith
  slot-clear_slot (x ∷ s) (suc k) (suc j) = ground (arith, slot-clear_slot s k j)

  abbrev pub slot_values : List (Option A) → List A
  slot_values [] = []
  slot_values (none ∷ s) = slot_values s
  slot_values (some v ∷ s) = v ∷ slot_values s

  pub slot_values-held :
      (s : List (Option A)) → All (λ v. (k : ℕ) × (slot s k ≡ some v)) (slot_values s)
  slot_values-held [] = tt
  slot_values-held (none ∷ s) =
      All-imp (λ v held. (suc held.0, held.1)) (slot_values s) (slot_values-held s)
  slot_values-held (some v ∷ s) =
      ((zero, refl), All-imp (λ v held. (suc held.0, held.1)) (slot_values s) (slot_values-held s))

  pub slot_values_complete :
      (s : List (Option A)) (k : ℕ) (v : A) → slot s k ≡ some v → Any (λ w. w ≡ v) (slot_values s)
  slot_values_complete [] k v e = absurd cc
  slot_values_complete (none ∷ s) zero v e = absurd cc
  slot_values_complete (none ∷ s) (suc k) v e = slot_values_complete s k v e
  slot_values_complete (some w ∷ s) zero v e = inl (some-injective w v e)
  slot_values_complete (some w ∷ s) (suc k) v e = inr (slot_values_complete s k v e)
