-- ===== src/Engine/Refine/Models.antt =====
-- What it means that an engine stands for a market.
use lmax_clob.Common.{◌≡◌, refl, ap, false, [], String}
use lmax_clob.Crates.{Crates}
use lmax_clob.Engine.Types.{Side, bid, ask, Order, is_complete}
use lmax_clob.Engine.Matching.{MatchingEngine, Matching, new_engine, opposite}
use lmax_clob.Engine.Process.{start_matching}
use lmax_clob.Engine.Spec.{Swept, Market, queue, with_queue, enqueue, after_sweep}
use lmax_clob.Engine.Refine.Amounts.{IsFillable}
use lmax_clob.Engine.Refine.Holds.{IsResting, Holds, IndexSound, IndexSound-insert}
use lmax_clob.Engine.Refine.Covers.{Covers}
use lmax_clob.Engine.Refine.Trade.{Facing}
use lmax_clob.Engine.Refine.Insert.{linked, linked-Covers, Holds-insert, Holds-insert_other}

module _ ⦃c : Crates⦄ where
  -- The slab and the levels hold just the queued orders, and what the index knows is right. It need
  -- not know every order: of two with one id, it knows the later only, and neither once one is gone.
  pub record Models (e : MatchingEngine) (a : Market) : Type 0 where
    pub bids : Holds bid e.book.orders e.book.bids a.bids
    pub asks : Holds ask e.book.orders e.book.asks a.asks
    pub index : IndexSound e.book.orders e.book.index
    pub covers : Covers e.book
    pub sequence_eq : e.sequence ≡ a.sequence

  -- An order as the engine may be given it: on the grid, filled no further than its quantity, and
  -- neither filled nor cancelled by its status.
  pub record IsAcceptable (o : Order) : Type 0 where
    pub fillable : IsFillable o
    pub incomplete : is_complete o ≡ false

  abbrev pub empty_market : Market
  empty_market = record { bids = []; asks = []; sequence = 0 }

  -- A new engine is the empty market.
  pub new_engine-Models : (market_id : String) → Models (new_engine market_id) empty_market
  new_engine-Models market_id = record {
    bids = record { ordered = tt; resolves = tt; distinct = tt; resting = tt };
    asks = record { ordered = tt; resolves = tt; distinct = tt; resting = tt };
    index = λ id k e. cc;
    covers = λ k o e. cc (c.get-new {A = Order} k);
    sequence_eq = refl;
  }

  pub start-Facing :
      (s : Side) (e : MatchingEngine) (a : Market) (o : Order)
      → Models e a
      → o.side ≡ s
      → IsFillable o
      → Facing (opposite s) (start_matching e o) (queue (opposite s) a) (queue s a)
  unfolding start_matching
  start-Facing bid e a o h side f = record {
    faces = ap opposite side;
    makers = h.asks;
    own = h.bids;
    index = h.index;
    covers = h.covers;
    taker = f;
  }
  start-Facing ask e a o h side f = record {
    faces = ap opposite side;
    makers = h.bids;
    own = h.asks;
    index = h.index;
    covers = h.covers;
    taker = f;
  }

  pub swept-Models :
      (s : Side) (m : Matching) (a : Market) (w : Swept)
      → Facing (opposite s) m w.rest (queue s a)
      → m.engine.sequence ≡ w.sequence
      → Models m.engine (after_sweep s a w)
  unfolding after_sweep
  swept-Models bid m a w f n = record {
    bids = f.own;
    asks = f.makers;
    index = f.index;
    covers = f.covers;
    sequence_eq = n;
  }
  swept-Models ask m a w f n = record {
    bids = f.makers;
    asks = f.own;
    index = f.index;
    covers = f.covers;
    sequence_eq = n;
  }

  pub linked-Models :
      (s : Side) (e : MatchingEngine) (a : Market) (o : Order) (p : c.Num)
      → Models e a
      → IsResting s p o
      → Models
          (record e { book = linked s e.book o p })
          (with_queue s (enqueue s p o (queue s a)) a)
  linked-Models bid e a o p h r = record {
    bids = Holds-insert e.book.orders bid e.book.bids a.bids o h.bids p r;
    asks = Holds-insert_other e.book.orders ask e.book.asks a.asks o h.asks;
    index = IndexSound-insert e.book.orders e.book.index h.index o;
    covers = linked-Covers bid e.book o p r.on_side h.bids.ordered h.covers;
    sequence_eq = h.sequence_eq;
  }
  linked-Models ask e a o p h r = record {
    bids = Holds-insert_other e.book.orders bid e.book.bids a.bids o h.bids;
    asks = Holds-insert e.book.orders ask e.book.asks a.asks o h.asks p r;
    index = IndexSound-insert e.book.orders e.book.index h.index o;
    covers = linked-Covers ask e.book o p r.on_side h.asks.ordered h.covers;
    sequence_eq = h.sequence_eq;
  }
