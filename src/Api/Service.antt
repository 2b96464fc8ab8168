-- ===== src/Api/Service.antt =====
-- main.rs: the tasks of `run_leader` together, from the messages of the topic to the fills in the
-- database. Each channel is a queue between two tasks, so each task is run on what the one before it
-- has put there; here no task stops before its channel is closed.
pub mod Delivered
use lmax_clob.Common.{
  ℕ, ◌≡◌, ◌≢◌, refl, sym, ap, ◌∙◌, subst, Bool, true, false, inl, inr, String, Option, none, some,
  List, [], ◌∷◌, ◌++◌, map, All, append-nil,
}
use lmax_clob.Common.{Env}
use lmax_clob.Crates.{Crates}
use lmax_clob.Api.Settings.{read_writer_settings, read_thread_settings}
use lmax_clob.Engine.Types.{Order, Fill}
use lmax_clob.Engine.Matching.{MatchingEngine, new_engine}
use lmax_clob.Engine.Snapshot.{BookSnapshot, Postcard}
use lmax_clob.Engine.Refine.Models.{IsAcceptable}
use lmax_clob.Engine.Market.Reachable.{Reachable}
use lmax_clob.Api.Consumer.Open.{all_open}
use lmax_clob.Api.Consumer.{Delivery, Consumer, new_consumer, orders, offsets}
use lmax_clob.Api.Consumer.Handled.{run-Handled}
use lmax_clob.Api.Consumer
use lmax_clob.Api.Fanout.{
  Poll, got, disconnected, Fanout, new_fanout, fan_out, polled, fan_out-polled, cache_book,
}
use lmax_clob.Api.Fills.{
  Writer, Wake, received, closed, new_writer, concat, taken, delivered, flush_filled, run-delivered,
}
use lmax_clob.Api.Fills
use lmax_clob.Api.Threads.{Thread, BookUpdate, start_thread, run_thread, thread_market_id}
use lmax_clob.Api.Threads.Replicas.{Runs}
use lmax_clob.Api.Threads.Total.{run_thread-Reachable}

-- What a channel yields before it is closed.
abbrev pub drained {ℓ} : {A : Type ℓ} → List A → List (Poll A)
drained [] = disconnected ∷ []
drained (a ∷ rest) = got a ∷ drained rest

abbrev pub woken {ℓ} : {A : Type ℓ} → List A → List (Wake A)
woken [] = closed ∷ []
woken (a ∷ rest) = received a ∷ woken rest

module _ ⦃c : Crates⦄ ⦃p : Postcard⦄ {Bytes : Type 0} (decode : Bytes → Option Order) where
  -- The tasks after their work.
  pub record Served : Type 0 where
    pub consumer : Consumer
    pub thread : Thread
    pub fanout : Fanout Fill
    pub writer : Writer Fill
    pub book_cache : List (String × Option c.Num × Option c.Num)

  after_thread : ℕ → Consumer → Option Thread → Option Served
  after_thread batch_size k none = none
  after_thread batch_size k (some t) =
      let f = fan_out all_open new_fanout (drained t.fills) in
      some (record {
        consumer = k;
        thread = t;
        fanout = f;
        writer = Fills.run batch_size new_writer (woken f.stored);
        book_cache = cache_book (drained t.updates);
      })

  -- The messages come from `start_offset` on.
  unfoldable pub run_leader : Env → Option BookSnapshot → List (Delivery Bytes) → Option Served
  unfolding after_thread
  run_leader env snap ds =
      let k = Consumer.run decode all_open new_consumer ds in
      after_thread (read_writer_settings env).batch_size k
        (run_thread all_open (read_thread_settings env).snapshot_every (start_thread snap) k.sent)
