-- ===== src/Engine/Market/Properties.antt =====
-- matching.rs: the fills of `process_order`, beside both sides of the trade.
use lmax_clob.Common.{◌+◌, ◌<◌, ◌≤◌, ◌%◌, ◌^◌, ◌≡◌, ◌∙◌, true, some, List, ◌++◌, map, All, length}
use lmax_clob.Crates.{Crates}
use lmax_clob.Crates.Decimal.{amount}
use lmax_clob.Engine.Types.{Order, Fill, ProcessResult, ok}
use lmax_clob.Engine.Matching.{MatchingEngine, opposite}
use lmax_clob.Engine.Process.{process_order}
use lmax_clob.Engine.Spec.{Market, queue, accepts}
use lmax_clob.Engine.Refine.Models.{Models, IsAcceptable}
use lmax_clob.Engine.Market.Fills.{
  total, depth, total-makers, Trades-positive, Trades-accepted, Numbered, Trades-Numbered,
  sequence-Trades, fill_line, order_line, Trades-priority, taker_within,
}
use lmax_clob.Engine.Market.Processed.{Processed, process_order-Processed}

module _ ⦃c : Crates⦄ (e e' : MatchingEngine) (a : Market) (o : Order) (fs : List Fill)
    (h : Models e a) (good : IsAcceptable o)
    (run : process_order e o ≡ some (e', ok (ProcessResult.fills fs))) where
  done : Processed a o e' fs
  done = process_order-Processed e e' a o fs h good run

  -- Where an engine that stands for a market replies to an acceptable order with fills, no fill
  -- is empty, and together they trade no more than the order had left.
  pub fills_bounded :
      All (λ f. 0 < amount f.quantity) fs × (total fs + c.position o.filled ≤ c.position o.quantity)
  unfolding done
  fills_bounded =
      rw (done.fills_eq) (Trades-positive done.trades, taker_within done.trades good.fillable)

  -- Where an engine that stands for a market replies to an acceptable order with fills, what
  -- the fills trade is what the orders on the other side lose.
  pub fills_conserved :
      (a' : Market) × Models e' a'
      × (depth (queue (opposite o.side) a) ≡ total fs + depth (queue (opposite o.side) a'))
  fills_conserved =
      (done.after, done.models, rw (done.fills_eq, done.queue_eq) (total-makers done.trades))

  -- Where an engine that stands for a market replies to an acceptable order with fills, each
  -- fill is at a price that the order accepts: for a limit order not above the limit of a buyer
  -- and not below the limit of a seller, where an order without a limit counts as a buyer at
  -- zero or a seller at the largest Decimal.
  pub fills_accepted : All (λ f. accepts o.order_type o f.price ≡ true) fs
  fills_accepted = rw done.fills_eq (Trades-accepted done.trades)

  -- Where an engine that stands for a market replies to an acceptable order with fills, the
  -- fills name the front of the other side's queue, in the order of price and then of time,
  -- each maker once and at the price of its level.
  pub fills_priority :
      (later : List (c.Num × c.Uuid)) × (map order_line (queue (opposite o.side) a)
        ≡ map fill_line fs ++ later)
  fills_priority = rw done.fills_eq (Trades-priority done.trades)

  -- Where an engine that stands for a market replies to an acceptable order with fills, and its
  -- counter is below 2^64, the fills take the numbers after the counter one by one, modulo
  -- 2^64, and the counter moves on by as many.
  pub fills-Numbered :
      e.sequence < 2 ^ 64
      → Numbered e.sequence fs × (e'.sequence ≡ (e.sequence + length fs) % 2 ^ 64)
  fills-Numbered small =
      rw (h.sequence_eq, done.fills_eq)
        (
          Trades-Numbered done.trades,
          done.models.sequence_eq
              ∙ done.sequence_eq
              ∙ sequence-Trades done.trades (rw h.sequence_eq at small),
        )
