-- ===== src/Engine/Levels.antt =====
-- orderbook.rs: one `BTreeMap<Price, Level>` of the book, as the list of its entries in the order
-- in which the book reads it: asks from the lowest price up, bids from the highest price down.
-- A `Level` is a `VecDeque` of slab keys, front first.
pub mod Flat
use lmax_clob.Common.{
  ℕ, Ordering, Bool, Option, none, some, List, [], ◌∷◌, ◌++◌, ◌==◌, if◌then◌else◌,
}
use lmax_clob.Crates.{Crates}
use lmax_clob.Engine.Types.{Side, bid, ask}

module _ ⦃c : Crates⦄ where
  abbrev pub Levels : Type 0
  Levels = List (c.Num × List ℕ)

  -- How `a` stands to `b` in the order of the map of that side.
  abbrev pub order_on : Side → c.Num → c.Num → Ordering
  order_on ask a b = c.cmp a b
  order_on bid a b = c.cmp b a

  -- `map.entry(price).or_default().push_back(key)`
  unfoldable pub push_back : Side → c.Num → ℕ → Levels → Levels
  push_back s p k [] = (p, k ∷ []) ∷ []
  push_back s p k ((q, ks) ∷ ls) = elim (order_on s p q) [
    | Ordering.lt ↦ (p, k ∷ []) ∷ (q, ks) ∷ ls
    | Ordering.eq ↦ (q, ks ++ k ∷ []) ∷ ls
    | Ordering.gt ↦ (q, ks) ∷ push_back s p k ls
  ]

  -- `map.get(&price)`
  unfoldable pub level_at : Side → c.Num → Levels → Option (List ℕ)
  level_at s p [] = none
  level_at s p ((q, ks) ∷ ls) = elim (order_on s p q) [
    | Ordering.eq ↦ some ks
    | _ ↦ level_at s p ls
  ]

  -- A level changed through `map.get_mut(&price)`, and removed where it is left empty.
  unfoldable pub keep_level : c.Num → List ℕ → Levels → Levels
  keep_level q [] ls = ls
  keep_level q (k ∷ ks) ls = (q, k ∷ ks) ∷ ls

  unfoldable pub write_level : Side → c.Num → List ℕ → Levels → Levels
  unfolding keep_level
  write_level s p new [] = []
  write_level s p new ((q, ks) ∷ ls) = elim (order_on s p q) [
    | Ordering.eq ↦ keep_level q new ls
    | _ ↦ (q, ks) ∷ write_level s p new ls
  ]

  -- `map.keys().next()`
  unfoldable pub first_price : Levels → Option c.Num
  first_price [] = none
  first_price ((p, ks) ∷ ls) = some p

-- `level.retain(|&k| k != key)`
unfoldable pub retain : ℕ → List ℕ → List ℕ
retain key [] = []
retain key (k ∷ ks) = let rest = retain key ks in if k == key then rest else k ∷ rest
