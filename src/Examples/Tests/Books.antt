-- ===== src/Examples/Tests/Books.antt =====
-- The tests of orderbook.rs.
use lmax_clob.Common.{
  ℕ, ◌≡◌, refl, ◌==◌, Bool, true, false, ◌&&◌, Option, none, some, List, [], ◌∷◌,
}
use lmax_clob.Engine.Types.{bid, ask, Order, Result, ok, err, is_complete, InsertError, CancelError}
use lmax_clob.Engine.Levels.{push_back, level_at, write_level, first_price, keep_level, retain}
use lmax_clob.Engine.Book.{
  OrderBook, new_book, insert_order, cancel_order, best_bid, best_ask, level_depth, unlink,
  cancel_live,
}
use lmax_clob.Examples.Demo.{demo}
use lmax_clob.Examples.Tests.Base.{dec, limit_of, market_of, same_price}

abbrev inserted : Result InsertError (OrderBook × ℕ) → Option OrderBook
inserted (ok (b, key)) = some b
inserted (err x) = none

-- The book after these orders, each of which goes in.
abbrev pub insert_all : List Order → OrderBook → Option OrderBook
insert_all [] b = some b
insert_all (o ∷ os) b = elim (inserted (insert_order b o)) [
  | none ↦ none
  | some b' ↦ insert_all os b'
]

abbrev pub book_of : List Order → Option OrderBook
book_of os = insert_all os new_book

abbrev pub expect_book : Option OrderBook → (OrderBook → Bool) → Bool
expect_book none check = false
expect_book (some b) check = check b

abbrev insert_bid_and_ask : Bool
insert_bid_and_ask =
    expect_book (book_of (limit_of bid 100 1 1 ∷ limit_of ask 101 1 2 ∷ []))
      (λ b. same_price (best_bid b) (some (dec 100)) && same_price (best_ask b) (some (dec 101)))

abbrev best_bid_is_highest : Bool
best_bid_is_highest =
    expect_book (book_of (limit_of bid 99 1 1 ∷ limit_of bid 101 1 2 ∷ limit_of bid 100 1 3 ∷ []))
      (λ b. same_price (best_bid b) (some (dec 101)))

abbrev best_ask_is_lowest : Bool
best_ask_is_lowest =
    expect_book (book_of (limit_of ask 102 1 1 ∷ limit_of ask 100 1 2 ∷ limit_of ask 101 1 3 ∷ []))
      (λ b. same_price (best_ask b) (some (dec 100)))

abbrev pub cancelled_book : Option (Result CancelError OrderBook) → Option OrderBook
cancelled_book (some (ok b)) = some b
cancelled_book _ = none

abbrev cancel_removes_from_level : Bool
cancel_removes_from_level = expect_book (book_of (limit_of bid 100 5 1 ∷ [])) (λ b.
    expect_book (cancelled_book (cancel_order b 1))
      (λ b'. same_price (best_bid b') none && (level_depth b' bid (dec 100) == 0)))

abbrev is_not_found : Option (Result CancelError OrderBook) → Bool
is_not_found (some (err (CancelError.not_found id))) = true
is_not_found _ = false

abbrev cancel_not_found_errors : Bool
cancel_not_found_errors = is_not_found (cancel_order new_book 1)

abbrev level_depth_multiple_orders : Bool
level_depth_multiple_orders =
    expect_book (book_of (limit_of ask 100 1 1 ∷ limit_of ask 100 2 2 ∷ limit_of ask 100 3 3 ∷ []))
      (λ b. level_depth b ask (dec 100) == 3)

abbrev empty_book_returns_none : Bool
empty_book_returns_none = same_price (best_bid new_book) none && same_price (best_ask new_book) none

abbrev is_not_allowed : Result InsertError (OrderBook × ℕ) → Bool
is_not_allowed (err InsertError.market_order_not_allowed) = true
is_not_allowed _ = false

abbrev market_order_insert_rejected : Bool
market_order_insert_rejected = is_not_allowed (insert_order new_book (market_of bid 1 1))

book_tests :
    (insert_bid_and_ask ≡ true)
    × (best_bid_is_highest ≡ true)
    × (best_ask_is_lowest ≡ true)
    × (cancel_removes_from_level ≡ true)
    × (cancel_not_found_errors ≡ true)
    × (level_depth_multiple_orders ≡ true)
    × (empty_book_returns_none ≡ true)
    × (market_order_insert_rejected ≡ true)
unfolding insert_order cancel_order cancel_live unlink retain is_complete best_bid best_ask
    level_depth push_back level_at write_level first_price keep_level
book_tests = (refl, refl, refl, refl, refl, refl, refl, refl)
