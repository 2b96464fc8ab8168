-- ===== src/Examples/Tests/Orders.antt =====
-- The tests of order.rs that do not only encode and decode.
use lmax_clob.Common.{◌≡◌, refl, ◌==◌, Bool, true, not, some}
use lmax_clob.Engine.Types.{Order, OrderStatus, OrderType, bid, remaining, is_complete}
use lmax_clob.Examples.Demo.{demo}
use lmax_clob.Examples.Tests.Base.{dec}

abbrev make_limit_order : Order
make_limit_order = record {
  id = 1;
  market_id = "SOL-USDC";
  side = bid;
  order_type = OrderType.limit;
  price = some (dec 150);
  quantity = dec 10;
  filled = dec 0;
  status = OrderStatus.open_order;
  sequence = 1;
}

abbrev remaining_quantity : Bool
remaining_quantity = remaining (record make_limit_order { filled = dec 3 }) == dec 7

abbrev is_complete_filled : Bool
is_complete_filled = is_complete (record make_limit_order { status = OrderStatus.filled })

abbrev is_complete_cancelled : Bool
is_complete_cancelled = is_complete (record make_limit_order { status = OrderStatus.cancelled })

abbrev is_not_complete_open : Bool
is_not_complete_open = not (is_complete make_limit_order)

order_tests :
    (remaining_quantity ≡ true)
    × (is_complete_filled ≡ true)
    × (is_complete_cancelled ≡ true)
    × (is_not_complete_open ≡ true)
unfolding remaining is_complete
order_tests = (refl, refl, refl, refl)
