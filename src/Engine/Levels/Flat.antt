-- ===== src/Engine/Levels/Flat.antt =====
-- The levels of one side as one list of keys in price-time priority, each under its level's price.
use lmax_clob.Common.{ℕ, List, [], ◌∷◌, ◌++◌}
use lmax_clob.Crates.{Crates}

module _ ⦃c : Crates⦄ where
  abbrev pub tag : c.Num → List ℕ → List (c.Num × ℕ)
  tag p [] = []
  tag p (k ∷ ks) = (p, k) ∷ tag p ks

  abbrev pub flatten : List (c.Num × List ℕ) → List (c.Num × ℕ)
  flatten [] = []
  flatten ((p, ks) ∷ ls) = tag p ks ++ flatten ls
