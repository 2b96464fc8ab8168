-- ===== src/Api/Fills/Rows.antt =====
-- persistence/fills.rs: the columns of `insert_batch`.
use lmax_clob.Common.{ltb, ℕ, ◌-◌, ◌^◌, Bool, true, false, List, [], ◌∷◌, if◌then◌else◌}
use lmax_clob.Crates.{Crates}
use lmax_clob.Engine.Types.{Fill}

-- `x as i64` of a `u64`: the numbers from 2^63 up stand for the negative ones, as a pair of the sign
-- and the size.
abbrev pub as_i64 : ℕ → Bool × ℕ
as_i64 x = if ltb x (2 ^ 63) then (false, x) else (true, 2 ^ 64 - x)

module _ ⦃c : Crates⦄ where
  -- The columns that `insert_batch` binds, beside the fresh ids.
  pub record Columns : Type 0 where
    pub maker_order_ids : List c.Uuid
    pub taker_order_ids : List c.Uuid
    pub prices : List c.Num
    pub quantities : List c.Num
    pub sequences : List (Bool × ℕ)

  unfoldable pub insert_batch : List Fill → Columns
  insert_batch [] = record {
    maker_order_ids = [];
    taker_order_ids = [];
    prices = [];
    quantities = [];
    sequences = [];
  }
  insert_batch (f ∷ fs) =
      let rest = insert_batch fs in
      record {
        maker_order_ids = f.maker_order_id ∷ rest.maker_order_ids;
        taker_order_ids = f.taker_order_id ∷ rest.taker_order_ids;
        prices = f.price ∷ rest.prices;
        quantities = f.quantity ∷ rest.quantities;
        sequences = as_i64 f.sequence ∷ rest.sequences;
      }
