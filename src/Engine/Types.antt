-- ===== src/Engine/Types.antt =====
-- types.rs, order.rs, events.rs and error.rs: the data that the engine passes around.
use lmax_clob.Common.{
  refl, inr, inl, ◌⊎◌, ◌≡◌, ℕ, ◌%◌, ◌^◌, ◌+◌, String, Bool, true, false, Option, List,
}
use lmax_clob.Crates.{Crates}

pub data Side : Type 0 where
  bid ask : Side

pub data OrderType : Type 0 where
  limit market : OrderType

pub data OrderStatus : Type 0 where
  open_order partially_filled filled cancelled : OrderStatus

-- `u64` counters wrap around, as they do in a release build.
abbrev pub next_u64 : ℕ → ℕ
next_u64 n = (n + 1) % 2 ^ 64

module _ ⦃c : Crates⦄ where
  pub record Order : Type 0 where
    pub id : c.Uuid
    pub market_id : String
    pub side : Side
    pub order_type : OrderType
    pub price : Option c.Num
    pub quantity : c.Num
    pub filled : c.Num
    pub status : OrderStatus
    pub sequence : ℕ

  unfoldable pub remaining : Order → c.Num
  remaining o = c.sub o.quantity o.filled

  is_complete_status : OrderStatus → Bool
  is_complete_status OrderStatus.filled = true
  is_complete_status OrderStatus.cancelled = true
  is_complete_status _ = false

  unfoldable pub is_complete : Order → Bool
  unfolding is_complete_status
  is_complete o = is_complete_status o.status

  pub record Fill : Type 0 where
    pub maker_order_id : c.Uuid
    pub taker_order_id : c.Uuid
    pub price : c.Num
    pub quantity : c.Num
    pub sequence : ℕ

  pub data OrderEvent : Type 0 where
    order_placed : c.Uuid → String → Side → OrderType → Option c.Num → c.Num → ℕ → OrderEvent
    order_cancelled : c.Uuid → ℕ → OrderEvent
    order_filled order_partially_filled : Fill → OrderEvent

  pub data EngineError : Type 0 where
    order_not_found order_already_complete : c.Uuid → EngineError
    missing_limit_price invalid_quantity : EngineError
    snapshot_serialize : c.PostcardError → EngineError

  pub data InsertError : Type 0 where
    market_order_not_allowed invalid_quantity : InsertError

  pub data CancelError : Type 0 where
    not_found already_complete : c.Uuid → CancelError

  pub data ProcessResult : Type 0 where
    fills : List Fill → ProcessResult
    cancelled resting : ProcessResult

-- `Result<A, E>`.
pub data Result {ℓ κ} (E : Type ℓ) (A : Type κ) : Type (ℓ ⊔ κ) where
  ok : A → Result E A
  err : E → Result E A

pub Result-cases {ℓ κ} :
    {E : Type ℓ} {A : Type κ} (r : Result E A) → ((a : A) × (r ≡ ok a)) ⊎ ((x : E) × (r ≡ err x))
Result-cases (ok a) = inl (a, refl)
Result-cases (err x) = inr (x, refl)

pub ok-injective {ℓ κ} :
    {E : Type ℓ} {A : Type κ} (a b : A) → ◌≡◌ {A = Result E A} (ok a) (ok b) → a ≡ b
ok-injective a b h = cc
