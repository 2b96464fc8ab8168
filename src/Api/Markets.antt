-- ===== src/Api/Markets.antt =====
-- handlers/markets.rs: the routes on markets. The cache's answer and the table of fills are arguments.
use lmax_clob.Common.{
  append_text, ◌++◌, Bool, true, false, leb, inl, inr, Bool-cases, All-imp, if◌then◌else◌,
}
use lmax_clob.Common.{ℕ, zero, suc, String, Option, none, List, [], ◌∷◌}
use mathlib.Core.List.Perm
use mathlib.Core.List.{Perm}
use lmax_clob.Common.{◌≤◌, ◌<◌, ◌≡◌, refl, sym, ap, subst, All, length, arith}
use lmax_clob.Crates.{Crates}
use lmax_clob.Engine.Types.{Result, ok, err}

-- A body with the two prices, or an error.
pub data BookAnswer : Type 0 where
  unavailable : ℕ → BookAnswer
  book : ℕ → String → Option String → Option String → BookAnswer

-- `.unwrap_or(None)`
abbrev pub or_none {ℓ} : {E A : Type ℓ} → Result E (Option A) → Option A
or_none (ok a) = a
or_none (err x) = none

-- `format!("book:{}:best_bid", market_id)`, and the same for the ask.
abbrev pub bid_key : String → String
bid_key market_id = append_text "book:" (append_text market_id ":best_bid")

abbrev pub ask_key : String → String
ask_key market_id = append_text "book:" (append_text market_id ":best_ask")

-- `connect` is the connection to the cache, with its `get`.
unfoldable pub get_book :
    {E : Type 0} → Result E (String → Result E (Option String)) → String → BookAnswer
get_book (err x) market_id = BookAnswer.unavailable 503
get_book (ok get) market_id =
    BookAnswer.book 200 market_id (or_none (get (bid_key market_id)))
      (or_none (get (ask_key market_id)))

abbrev pub limit {ℓ} : {A : Type ℓ} → ℕ → List A → List A
limit zero xs = []
limit (suc n) [] = []
limit (suc n) (x ∷ xs) = x ∷ limit n xs

-- `.unwrap_or_default()`
abbrev pub or_empty {ℓ} : {E A : Type ℓ} → Result E (List A) → List A
or_empty (ok xs) = xs
or_empty (err x) = []

-- Whether one `i64`, as a sign and a size, is at most another.
abbrev pub i64_leb : Bool × ℕ → Bool × ℕ → Bool
i64_leb (false, x) (false, y) = leb x y
i64_leb (false, x) (true, y) = false
i64_leb (true, x) (false, y) = true
i64_leb (true, x) (true, y) = leb y x

i64_leb_total : (x y : Bool × ℕ) → i64_leb x y ≡ false → i64_leb y x ≡ true
i64_leb_total (false, x) (false, y) h = ground (arith, h)
i64_leb_total (false, x) (true, y) h = refl
i64_leb_total (true, x) (false, y) h = absurd cc
i64_leb_total (true, x) (true, y) h = ground (arith, h)

i64_leb_trans : (x y z : Bool × ℕ) → i64_leb x y ≡ true → i64_leb y z ≡ true → i64_leb x z ≡ true
i64_leb_trans (false, x) (false, y) (false, z) h k = ground (arith, h, k)
i64_leb_trans (false, x) (false, y) (true, z) h k = k
i64_leb_trans (false, x) (true, y) z h k = absurd cc
i64_leb_trans (true, x) y (false, z) h k = refl
i64_leb_trans (true, x) (false, y) (true, z) h k = absurd cc
i64_leb_trans (true, x) (true, y) (true, z) h k = ground (arith, h, k)

module _ ⦃c : Crates⦄ where
  -- A row of `fills`, without the orders' ids.
  pub record Trade : Type 0 where
    pub id : c.Uuid
    pub price : c.Num
    pub quantity : c.Num
    pub sequence : Bool × ℕ

  -- `ORDER BY sequence DESC`: each row of the table goes before those that are not above it. The
  -- rows of the table come in any order, so that equal sequences do, too.
  insert_desc : Trade → List Trade → List Trade
  insert_desc t [] = t ∷ []
  insert_desc t (x ∷ xs) =
      let rest = insert_desc t xs in if i64_leb x.sequence t.sequence then t ∷ x ∷ xs else x ∷ rest

  order_by_sequence_desc : List Trade → List Trade
  unfolding insert_desc
  order_by_sequence_desc [] = []
  order_by_sequence_desc (t ∷ ts) = insert_desc t (order_by_sequence_desc ts)

  -- The rows of the table in this order, or an error, of which fifty at most are taken.
  unfoldable pub query_trades : {E : Type 0} → Result E (List Trade) → Result E (List Trade)
  unfolding order_by_sequence_desc
  query_trades (ok table) = ok (limit 50 (order_by_sequence_desc table))
  query_trades (err x) = err x

  -- The status, the market that was asked for, and the trades.
  unfoldable pub get_trades :
      {E : Type 0} → Result E (List Trade) → String → ℕ × String × List Trade
  get_trades fills market_id = (200, market_id, or_empty (query_trades fills))

  -- No row is above the first.
  abbrev pub IsTop : Trade → List Trade → Type 0
  IsTop t ts = All (λ x. i64_leb x.sequence t.sequence ≡ true) ts

  abbrev pub IsDescending : List Trade → Type 0
  IsDescending [] = Unit
  IsDescending (t ∷ ts) = IsTop t ts × IsDescending ts

  IsTop-insert :
      (t x : Trade) (xs : List Trade)
      → i64_leb x.sequence t.sequence ≡ true
      → IsTop t xs
      → IsTop t (insert_desc x xs)
  unfolding insert_desc
  IsTop-insert t x [] e h = (e, tt)
  IsTop-insert t x (y ∷ ys) e h = elim (Bool-cases (i64_leb y.sequence x.sequence)) [
    | inl low ↦ rw (low, insert_desc) (e, h)
    | inr high ↦ rw (high, insert_desc) (h.0, IsTop-insert t x ys e h.1)
  ]

  IsDescending-insert :
      (t : Trade) (xs : List Trade) → IsDescending xs → IsDescending (insert_desc t xs)
  unfolding insert_desc
  IsDescending-insert t [] h = (tt, tt)
  IsDescending-insert t (x ∷ xs) h = elim (Bool-cases (i64_leb x.sequence t.sequence)) [
    | inl low ↦
        rw (low, insert_desc)
          (
            (
              low,
              All-imp (λ y below. i64_leb_trans y.sequence x.sequence t.sequence below low) xs h.0,
            ),
            h,
          )
    | inr high ↦
        rw (high, insert_desc)
          (
            IsTop-insert x t xs (i64_leb_total x.sequence t.sequence high) h.0,
            IsDescending-insert t xs h.1,
          )
  ]

  Perm-insert : (t : Trade) (xs : List Trade) → Perm (insert_desc t xs) (t ∷ xs)
  unfolding insert_desc
  Perm-insert t [] = Perm.refl (t ∷ [])
  Perm-insert t (x ∷ xs) = elim (Bool-cases (i64_leb x.sequence t.sequence)) [
    | inl low ↦ rw (low, insert_desc) (Perm.refl (t ∷ x ∷ xs))
    | inr high ↦
        rw (high, insert_desc) (Perm.trans (Perm.cons x (Perm-insert t xs)) (Perm.swap t x xs))
  ]

  ordered_desc :
      (ts : List Trade)
      → IsDescending (order_by_sequence_desc ts) × Perm (order_by_sequence_desc ts) ts
  unfolding order_by_sequence_desc
  ordered_desc [] = (tt, Perm.refl [])
  ordered_desc (t ∷ ts) =
      let (down, same) = ordered_desc ts in
      (
        IsDescending-insert t (order_by_sequence_desc ts) down,
        Perm.trans (Perm-insert t (order_by_sequence_desc ts)) (Perm.cons t same),
      )

  skip : ℕ → List Trade → List Trade
  skip zero xs = xs
  skip (suc n) [] = []
  skip (suc n) (x ∷ xs) = skip n xs

  limit-skip : (n : ℕ) (xs : List Trade) → limit n xs ++ skip n xs ≡ xs
  unfolding skip
  limit-skip zero xs = refl
  limit-skip (suc n) [] = refl
  limit-skip (suc n) (x ∷ xs) = ap (◌∷◌ x) (limit-skip n xs)

  length-limit :
      (n : ℕ) (xs : List Trade)
      → (length (limit n xs) ≤ n) × (length (limit n xs) < n → skip n xs ≡ [])
  unfolding skip
  length-limit zero xs = (omega arith, λ h. absurd (omega (arith, h)))
  length-limit (suc n) [] = (omega arith, λ h. refl)
  length-limit (suc n) (x ∷ xs) =
      let (few, all) = length-limit n xs in (omega (arith, few), λ h. all (omega (arith, h)))

  -- No trade of the rest is above one of the first.
  abbrev pub IsAbove : List Trade → List Trade → Type 0
  IsAbove shown hidden = All (λ s. IsTop s hidden) shown

  IsDescending-split :
      (xs ys : List Trade) → IsDescending (xs ++ ys) → IsDescending xs × IsAbove xs ys
  IsDescending-split [] ys h = (tt, tt)
  IsDescending-split (x ∷ xs) ys h =
      let (down, above) = IsDescending-split xs ys h.1 in
      ((All-left xs ys h.0, down), (All-right xs ys h.0, above))
    where
      All-left : (zs bs : List Trade) → IsTop x (zs ++ bs) → IsTop x zs
      All-left [] bs h = tt
      All-left (a ∷ zs) bs h = (h.0, All-left zs bs h.1)

      All-right : (zs bs : List Trade) → IsTop x (zs ++ bs) → IsTop x bs
      All-right [] bs h = h
      All-right (a ∷ zs) bs h = All-right zs bs h.1

  -- The trades route shows the rows of fills with the highest sequences, as i64, in falling
  -- order of them: at most fifty, none of those left out above one of those shown, and all of
  -- them if fewer than fifty are shown.
  pub get_trades-latest :
      (E : Type 0) (table : List Trade) (market_id : String)
      → let shown = (get_trades {E = E} (ok table) market_id).2 in
        IsDescending shown
        × (length shown ≤ 50)
        × ((hidden : List Trade) × Perm (shown ++ hidden) table
            × IsAbove shown hidden
            × (length shown < 50 → hidden ≡ []))
  unfolding get_trades query_trades
  get_trades-latest E table market_id =
      let rows = order_by_sequence_desc table in
      let (down, same) = ordered_desc table in
      let split = limit-skip 50 rows in
      let parts =
        IsDescending-split (limit 50 rows) (skip 50 rows) (subst IsDescending (sym split) down) in
      let size = length-limit 50 rows in
      (
        parts.0,
        size.0,
        (skip 50 rows, subst (λ xs. Perm xs table) (sym split) same, parts.1, size.1),
      )
