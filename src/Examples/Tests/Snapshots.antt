-- ===== src/Examples/Tests/Snapshots.antt =====
-- The tests of snapshot.rs, with the codec of Services.
use lmax_clob.Common.{
  ℕ, ◌≡◌, refl, ◌==◌, Bool, true, false, ◌&&◌, Option, none, some, [], ◌∷◌, same_text,
}
use lmax_clob.Engine.Types.{bid, ask, Result, ok, err, is_complete}
use lmax_clob.Engine.Levels.{push_back, level_at, write_level, first_price, keep_level, retain}
use lmax_clob.Engine.Book.{
  OrderBook, new_book, insert_order, cancel_order, best_bid, best_ask, level_depth, unlink,
  cancel_live,
}
use lmax_clob.Engine.Snapshot.{
  BookSnapshot, serialize_book, deserialize_book, snapshot_order, restored_order, restore_order,
  restore_orders,
}
use lmax_clob.Examples.Demo.{demo}
use lmax_clob.Examples.Services.{plain_postcard}
use lmax_clob.Examples.Tests.Base.{dec, limit_of, same_price}
use lmax_clob.Examples.Tests.Books.{book_of, expect_book, cancelled_book}

abbrev read_back : Result demo.PostcardError BookSnapshot → Option (OrderBook × BookSnapshot)
read_back (err x) = none
read_back (ok bytes) = elim (deserialize_book bytes) [ ok r ↦ some r | err x ↦ none ]

-- A book written and read back, beside the snapshot.
abbrev expect_round_trip : OrderBook → ℕ → (OrderBook → BookSnapshot → Bool) → Bool
expect_round_trip b n check = elim (read_back (serialize_book b "SOL-USDC" n)) [
  | none ↦ false
  | some (restored, meta) ↦ check restored meta
]

abbrev snapshot_round_trip_empty_book : Bool
snapshot_round_trip_empty_book = expect_round_trip new_book 0 (λ restored meta.
    same_text meta.market_id "SOL-USDC"
    && ((meta.sequence == 0)
        && (same_price (best_bid restored) none && same_price (best_ask restored) none)))

abbrev snapshot_round_trip_with_orders : Bool
snapshot_round_trip_with_orders =
    expect_book (book_of (limit_of bid 100 5 1 ∷ limit_of bid 99 3 2 ∷ limit_of ask 101 2 3 ∷ []))
      (λ b. expect_round_trip b 42 (λ restored meta.
        (meta.sequence == 42)
        && (same_price (best_bid restored) (some (dec 100))
            && same_price (best_ask restored) (some (dec 101)))))

abbrev snapshot_excludes_cancelled_orders : Bool
snapshot_excludes_cancelled_orders = expect_book (book_of (limit_of bid 100 5 1 ∷ [])) (λ b.
    expect_book (cancelled_book (cancel_order b 1))
      (λ b'. expect_round_trip b' 10 (λ restored meta. same_price (best_bid restored) none)))

abbrev snapshot_state_identical_after_round_trip : Bool
snapshot_state_identical_after_round_trip =
    expect_book (book_of (limit_of bid 100 10 1 ∷ limit_of ask 102 5 2 ∷ [])) (λ b.
      expect_round_trip b 99 (λ restored meta.
        same_price (best_bid b) (best_bid restored)
        && (same_price (best_ask b) (best_ask restored)
            && ((level_depth b bid (dec 100) == level_depth restored bid (dec 100))
                && (level_depth b ask (dec 102) == level_depth restored ask (dec 102))))))

snapshot_tests :
    (snapshot_round_trip_empty_book ≡ true)
    × (snapshot_round_trip_with_orders ≡ true)
    × (snapshot_excludes_cancelled_orders ≡ true)
    × (snapshot_state_identical_after_round_trip ≡ true)
unfolding insert_order cancel_order cancel_live unlink retain is_complete best_bid best_ask
    level_depth push_back level_at write_level first_price keep_level serialize_book
    deserialize_book snapshot_order restored_order restore_order restore_orders
snapshot_tests = (refl, refl, refl, refl)
