-- ===== src/Api/Orders.antt =====
-- handlers/orders.rs: the routes on orders. `to_lowercase` is the Unicode mapping of `str`.
pub mod Accepted
pub mod Answers
use lmax_clob.Common.{
  ℕ, Bool, true, false, ◌||◌, String, Option, none, some, same_text, if◌then◌else◌,
}
use lmax_clob.Crates.{Crates}
use lmax_clob.Crates.Decimal.{leq}
use lmax_clob.Engine.Types.{Side, bid, ask, Order, OrderType, OrderStatus}

module _ ⦃c : Crates⦄ where
  pub record PlaceOrderRequest : Type 0 where
    pub market_id : String
    pub side : String
    pub order_type : String
    pub price : Option c.Num
    pub quantity : c.Num

  -- An answer: the id of the order, or an error with its status code.
  pub data HttpResponse : Type 0 where
    order_response : c.Uuid → HttpResponse
    error_response : ℕ → String → HttpResponse

  -- `match s { "bid" | "buy" => ..., "ask" | "sell" => ..., _ => return ... }`
  abbrev pub parse_side : String → Option Side
  parse_side s =
      if same_text s "bid" || same_text s "buy"
      then some bid
      else if same_text s "ask" || same_text s "sell"
      then some ask
      else none

  abbrev pub parse_order_type : String → Option OrderType
  parse_order_type s =
      if same_text s "limit"
      then some OrderType.limit
      else if same_text s "market"
      then some OrderType.market
      else none

  abbrev pub new_order : PlaceOrderRequest → c.Uuid → Side → OrderType → Order
  new_order body id side kind = record {
    id = id;
    market_id = body.market_id;
    side = side;
    order_type = kind;
    price = body.price;
    quantity = body.quantity;
    filled = c.zero;
    status = OrderStatus.open_order;
    sequence = 0;
  }

  -- The answer, and the order that `send_order` was given.
  abbrev pub Placed : Type 0
  Placed = HttpResponse × Option Order

  abbrev pub send_order : Bool → Order → Placed
  send_order true o = (HttpResponse.order_response o.id, some o)
  send_order false o = (HttpResponse.error_response 500 "failed to publish order", some o)

  unfoldable pub place_typed : PlaceOrderRequest → c.Uuid → Bool → Side → OrderType → Placed
  place_typed body id delivered side kind =
      if leq body.quantity c.zero
      then (HttpResponse.error_response 400 "quantity must be positive", none)
      else send_order delivered (new_order body id side kind)

  unfoldable pub place_priced :
      PlaceOrderRequest → c.Uuid → Bool → Side → OrderType → Option c.Num → Placed
  place_priced body id delivered side OrderType.limit none =
      (HttpResponse.error_response 400 "price required for limit orders", none)
  place_priced body id delivered side OrderType.limit (some p) =
      place_typed body id delivered side OrderType.limit
  place_priced body id delivered side OrderType.market p =
      place_typed body id delivered side OrderType.market

  unfoldable pub place_sided : PlaceOrderRequest → c.Uuid → Bool → Side → Option OrderType → Placed
  place_sided body id delivered side none =
      (HttpResponse.error_response 400 "invalid order_type", none)
  place_sided body id delivered side (some kind) =
      place_priced body id delivered side kind body.price

  unfoldable pub place_parsed :
      PlaceOrderRequest → c.Uuid → Bool → Option Side → Option OrderType → Placed
  place_parsed body id delivered none kind = (HttpResponse.error_response 400 "invalid side", none)
  place_parsed body id delivered (some side) kind = place_sided body id delivered side kind

  -- `id` is the fresh `Uuid`, and `delivered` tells whether the producer accepts the order.
  unfoldable pub place_order : (String → String) → c.Uuid → Bool → PlaceOrderRequest → Placed
  place_order to_lowercase id delivered body =
      place_parsed body id delivered (parse_side (to_lowercase body.side))
        (parse_order_type (to_lowercase body.order_type))

  -- The delete route: whatever the id, not implemented.
  abbrev pub cancel_order_route : c.Uuid → HttpResponse × c.Uuid
  cancel_order_route id = (HttpResponse.error_response 501 "cancel not yet implemented", id)
