-- ===== src/Crates/Decimal.antt =====
-- The comparisons of `Decimal` that the source writes, and the amount of a value on the grid.
use lmax_clob.Common.{ℕ, ◌-◌, ◌≤◌, ◌<◌, Ordering, ◌≡◌, ◌⊎◌, Bool, true, false, arith}
use lmax_clob.Crates.{Crates}

module _ ⦃c : Crates⦄ where
  -- `a <= b`
  abbrev pub leq : c.Num → c.Num → Bool
  leq a b = elim (c.cmp a b) [ Ordering.gt ↦ false | _ ↦ true ]

  -- `a < b`
  abbrev pub less : c.Num → c.Num → Bool
  less a b = elim (c.cmp a b) [ Ordering.lt ↦ true | _ ↦ false ]

  -- How far a value lies above zero, in units of the last decimal place.
  abbrev pub amount : c.Num → ℕ
  amount a = c.position a - c.position c.zero

  pub leq_cases :
      (a b : c.Num)
      → ((leq a b ≡ true) × (c.position a ≤ c.position b))
        ⊎ ((leq a b ≡ false) × (c.position b < c.position a))
  leq_cases a b = ground (arith, c.cmp_lem a b)

  pub less_cases :
      (a b : c.Num)
      → ((less a b ≡ true) × (c.position a < c.position b))
        ⊎ ((less a b ≡ false) × (c.position b ≤ c.position a))
  less_cases a b = ground (arith, c.cmp_lem a b)
