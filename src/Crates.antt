-- ===== src/Crates.antt =====
-- The third-party crates that the engine stands on, as one interface with the behaviour that their
-- documentation promises: `rust_decimal::Decimal`, `uuid::Uuid` and `slab::Slab`.
pub mod Decimal
use lmax_clob.Common.{
  Any, ◌<◌, All, ℕ, ◌+◌, ◌≤◌, compare, Ordering, ◌≡◌, ◌⊎◌, ◌↔◌, Bool, true, Option, none, some,
  List, ◌==◌, if◌then◌else◌,
}

pub record Crates : Type 1 where
  -- `Decimal`, with `ZERO`, `MAX`, `Ord::cmp`, `+`, `-` and `min`.
  pub Num : Type 0
  pub zero : Num
  pub max_value : Num
  pub cmp : Num → Num → Ordering
  pub add : Num → Num → Num
  pub sub : Num → Num → Num
  pub min : Num → Num → Num
  -- The place of a value in the numeric order, counted in units of 10^-28 from the least value:
  -- `cmp` compares values, whatever their scale.
  pub position : Num → ℕ
  pub cmp_lem : (a b : Num) → cmp a b ≡ compare (position a) (position b)
  pub min_cases :
      (a b : Num)
      → ((min a b ≡ a) × (position a ≤ position b)) ⊎ ((min a b ≡ b) × (position b ≤ position a))
  -- The values of the scale that a deployment trades in and whose mantissa at this scale fits 96
  -- bits: `+` and `-` are exact among them, and round or panic elsewhere.
  pub OnGrid : Num → Type 0
  pub zero-OnGrid : OnGrid zero
  pub sub_exact :
      (a b : Num)
      → OnGrid a
      → OnGrid b
      → position zero ≤ position b
      → position b ≤ position a
      → OnGrid (sub a b) × (position (sub a b) + position b ≡ position a + position zero)
  pub add_exact :
      (a b limit : Num)
      → OnGrid a
      → OnGrid b
      → OnGrid limit
      → position zero ≤ position a
      → position zero ≤ position b
      → position a + position b ≤ position limit + position zero
      → OnGrid (add a b) × (position (add a b) + position zero ≡ position a + position b)
  -- `Decimal::new(n, 0)` for a natural number. The small ones are on the grid of any scale up to 22;
  -- the database keeps prices and quantities at scale 8.
  pub whole : ℕ → Num
  pub whole_zero : position (whole 0) ≡ position zero
  pub whole_less : (m n : ℕ) → m < n → n ≤ 1000000 → position (whole m) < position (whole n)
  pub whole-OnGrid : (n : ℕ) → n ≤ 1000000 → OnGrid (whole n)
  -- `postcard::Error`.
  pub PostcardError : Type 0
  -- `Uuid` and its `==`.
  pub Uuid : Type 0
  pub uuid_eq : Uuid → Uuid → Bool
  pub uuid_eq_iff : (a b : Uuid) → (uuid_eq a b ≡ true) ↔ (a ≡ b)
  -- `Slab`: `insert` gives a vacant key, a write through `get_mut` is `set`.
  pub Slab : Type 0 → Type 0
  pub slab_new : {A : Type 0} → Slab A
  pub slab_get : {A : Type 0} → Slab A → ℕ → Option A
  pub slab_insert : {A : Type 0} → Slab A → A → ℕ × Slab A
  pub slab_set : {A : Type 0} → Slab A → ℕ → A → Slab A
  pub slab_remove : {A : Type 0} → Slab A → ℕ → Slab A
  pub get-new : {A : Type 0} (k : ℕ) → slab_get (slab_new {A = A}) k ≡ none
  pub get-insert :
      {A : Type 0} (s : Slab A) (v : A) (j : ℕ)
      → slab_get (slab_insert s v).1 j ≡ (if (slab_insert s v).0 == j then some v else slab_get s j)
  pub insert_vacant : {A : Type 0} (s : Slab A) (v : A) → slab_get s (slab_insert s v).0 ≡ none
  pub get-set :
      {A : Type 0} (s : Slab A) (k : ℕ) (v old : A) (j : ℕ)
      → slab_get s k ≡ some old
      → slab_get (slab_set s k v) j ≡ (if k == j then some v else slab_get s j)
  pub get-remove :
      {A : Type 0} (s : Slab A) (k j : ℕ)
      → slab_get (slab_remove s k) j ≡ (if k == j then none else slab_get s j)
  -- The values that iteration over a slab gives, in the order of their keys: what is held.
  pub slab_values : {A : Type 0} → Slab A → List A
  pub values-held :
      {A : Type 0} (s : Slab A) → All (λ v. (k : ℕ) × (slab_get s k ≡ some v)) (slab_values s)
  pub values-complete :
      {A : Type 0} (s : Slab A) (k : ℕ) (v : A)
      → slab_get s k ≡ some v
      → Any (λ w. w ≡ v) (slab_values s)
