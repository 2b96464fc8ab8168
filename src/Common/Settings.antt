-- ===== src/Common/Settings.antt =====
-- Numbers in environment variables: `std::env::var(k).ok().and_then(|v| v.parse().ok()).unwrap_or(d)`
-- for an unsigned integer of some width.
use Prim.Native.Nat.{ℕ, zero, suc, ◌+◌, ◌-◌, ◌*◌, ◌^◌, ◌<◌}
use Prim.Native.Char.{code}
use Prim.Native.String.{String}
use mathlib.Core.Path.{◌≡◌, refl, subst}
use mathlib.Core.Logic.{inl, inr}
use mathlib.Core.Bool.{◌||◌}
use mathlib.Core.Option.{Option, none, some, some-injective}
use native.Mathlib.Omega.{arith}
use lmax_clob.Common.Tests.{ltb, leb, ◌==◌, if◌then◌else◌, Bool-cases}
use lmax_clob.Common.Texts.{unwrap_or}

-- The variables that are set.
abbrev pub Env : Type 0
Env = String → Option String

-- The digits that are left, after those that make `n`: a value past the width is an error.
scan : ℕ → ℕ → String → Option ℕ
scan w n String.[] = some n
scan w n (String.◌∷◌ c s) =
    let d = code c - 48 in
    let rest = scan w (n * 10 + d) s in
    if ltb (code c) 48 || ltb 57 (code c)
    then none
    else if leb (2 ^ w) (n * 10 + d)
    then none
    else rest

digits : ℕ → String → Option ℕ
unfolding scan
digits w String.[] = none
digits w (String.◌∷◌ c s) = scan w 0 (String.◌∷◌ c s)

-- `str::parse` at an unsigned type of `w` bits: a plus sign may come first.
parse_uint : ℕ → String → Option ℕ
unfolding digits
parse_uint w String.[] = none
parse_uint w (String.◌∷◌ c s) = if code c == 43 then digits w s else digits w (String.◌∷◌ c s)

abbrev parsed : ℕ → Option String → Option ℕ
parsed w none = none
parsed w (some s) = parse_uint w s

pub env_uint : ℕ → Env → String → ℕ → ℕ
env_uint w env key default = unwrap_or (parsed w (env key)) default

scan_bound : (w n : ℕ) (s : String) (k : ℕ) → n < 2 ^ w → scan w n s ≡ some k → k < 2 ^ w
unfolding scan
scan_bound w n String.[] k h e = subst (λ x. x < 2 ^ w) (some-injective n k e) h
scan_bound w n (String.◌∷◌ c s) k h e = elim (Bool-cases (ltb (code c) 48 || ltb 57 (code c))) [
  | inl other ↦ absurd (cc (rw (other, scan) at e))
  | inr digit ↦ elim (Bool-cases (leb (2 ^ w) (n * 10 + (code c - 48)))) [
    | inl over ↦ absurd (cc (rw (digit, over, scan) at e))
    | inr fits ↦
        scan_bound w (n * 10 + (code c - 48)) s k (ground (arith, fits))
          (rw (digit, fits, scan) at e)
  ]
]

power_positive : (w : ℕ) → 0 < 2 ^ w
power_positive zero = omega arith
power_positive (suc w) = omega (arith, power_positive w)

digits_bound : (w : ℕ) (s : String) (k : ℕ) → digits w s ≡ some k → k < 2 ^ w
unfolding digits
digits_bound w String.[] k e = absurd cc
digits_bound w (String.◌∷◌ c s) k e = scan_bound w 0 (String.◌∷◌ c s) k (power_positive w) e

parse_uint_bound : (w : ℕ) (s : String) (k : ℕ) → parse_uint w s ≡ some k → k < 2 ^ w
unfolding parse_uint
parse_uint_bound w String.[] k e = absurd cc
parse_uint_bound w (String.◌∷◌ c s) k e = elim (Bool-cases (code c == 43)) [
  | inl plus ↦ digits_bound w s k (rw (plus, parse_uint) at e)
  | inr digit ↦ digits_bound w (String.◌∷◌ c s) k (rw (digit, parse_uint) at e)
]

-- A value of the width, if the default is one.
pub env_uint_bound :
    (w : ℕ) (env : Env) (key : String) (default : ℕ)
    → default < 2 ^ w
    → env_uint w env key default < 2 ^ w
unfolding env_uint
env_uint_bound w env key default h = of (parsed w (env key)) (parsed_bound (env key))
  where
    of : (r : Option ℕ) → ((k : ℕ) → r ≡ some k → k < 2 ^ w) → unwrap_or r default < 2 ^ w
    of none bound = h
    of (some k) bound = bound k refl

    parsed_bound : (s : Option String) (k : ℕ) → parsed w s ≡ some k → k < 2 ^ w
    parsed_bound none k e = absurd cc
    parsed_bound (some s) k e = parse_uint_bound w s k e

-- The default stands where the variable is not set.
pub env_uint_default :
    (w : ℕ) (env : Env) (key : String) (default : ℕ)
    → env key ≡ none
    → env_uint w env key default ≡ default
unfolding env_uint
env_uint_default w env key default h = rw h refl
