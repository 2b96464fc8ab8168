-- ===== src/Api/Service/Delivered.antt =====
-- What reaches the clients, the caches and the database of what is in the topic.
use lmax_clob.Common.{
  ℕ, ◌≤◌, arith, ◌≡◌, ◌≢◌, refl, sym, ap, ◌∙◌, String, Option, none, some, List, [], ◌∷◌, ◌++◌, All,
  append-nil,
}
use lmax_clob.Common.{Env}
use lmax_clob.Crates.{Crates}
use lmax_clob.Api.Settings.{read_writer_settings, read_thread_settings}
use lmax_clob.Engine.Types.{Order, Fill}
use lmax_clob.Engine.Matching.{new_engine}
use lmax_clob.Engine.Snapshot.{Postcard}
use lmax_clob.Engine.Refine.Models.{IsAcceptable}
use lmax_clob.Engine.Market.Reachable.{Reachable}
use lmax_clob.Api.Consumer.Open.{all_open, run-open}
use lmax_clob.Api.Consumer.{Delivery, Consumer, new_consumer, orders, offsets}
use lmax_clob.Api.Consumer
use lmax_clob.Api.Fanout.{Fanout, new_fanout, polled, fan_out-polled, cache_book}
use lmax_clob.Api.Fills.{
  Writer, Wake, received, closed, new_writer, concat, taken, delivered, flush_filled-empty,
  run-delivered,
}
use lmax_clob.Api.Fills
use lmax_clob.Api.Threads.{Thread, BookUpdate, start_thread, run_thread, thread_market_id}
use lmax_clob.Api.Threads.Replicas.{Runs}
use lmax_clob.Engine.Market.Ledger.{traded}
use lmax_clob.Api.Threads.Ledger.{given, Runs-given}
use lmax_clob.Api.Threads.Total.{run_thread-Reachable}
use lmax_clob.Api.Service.{drained, woken, Served, run_leader, after_thread}

polled-drained : {A : Type 0} (xs : List A) → polled (drained xs) ≡ xs
polled-drained [] = refl
polled-drained (x ∷ xs) = ap (◌∷◌ x) (polled-drained xs)

delivered-woken : {A : Type 0} (xs : List A) → delivered (woken xs) ≡ xs
delivered-woken [] = refl
delivered-woken (x ∷ xs) = ap (◌∷◌ x) (delivered-woken xs)

module _ {A : Type 0} where
  -- A writer whose channel has closed has nothing left.
  run-woken : (n : ℕ) (w : Writer A) (xs : List A) → (Fills.run n w (woken xs)).buffer ≡ []
  unfolding Fills.run
  run-woken n w [] = flush_filled-empty w
  run-woken n w (x ∷ xs) = run-woken n (Fills.receive n x w) xs

  run_written : (n : ℕ) (xs : List A) → concat (Fills.run n new_writer (woken xs)).batches ≡ xs
  run_written n xs =
      let w = Fills.run n new_writer (woken xs) in
      sym (append-nil (concat w.batches))
      ∙ ap (◌++◌ (concat w.batches)) (sym (run-woken n new_writer xs))
      ∙ run-delivered n new_writer (woken xs)
      ∙ delivered-woken xs

module _ ⦃c : Crates⦄ ⦃p : Postcard⦄ {Bytes : Type 0} (decode : Bytes → Option Order) where
  -- What the cache of best prices is given, of the updates of the thread.
  abbrev pub prices_of : List BookUpdate → List (String × Option c.Num × Option c.Num)
  prices_of [] = []
  prices_of (u ∷ us) = (u.market_id, u.best_bid, u.best_ask) ∷ prices_of us

  cache_book-drained : (us : List BookUpdate) → cache_book (drained us) ≡ prices_of us
  unfolding cache_book
  cache_book-drained [] = refl
  cache_book-drained (u ∷ us) =
      ap (◌∷◌ (u.market_id, u.best_bid, u.best_ask)) (cache_book-drained us)

  -- Every task has done all its work on these messages.
  pub record IsDone (ds : List (Delivery Bytes)) (w : Served decode) : Type 0 where
    pub runs :
        Runs
          (new_engine thread_market_id)
          (orders decode all_open ds)
          w.thread.engine
          w.thread.fills
    pub reachable : Reachable w.thread.engine
    pub committed : w.consumer.committed ≡ offsets decode all_open ds
    pub broadcast : w.fanout.broadcast ≡ w.thread.fills
    pub published : w.fanout.published ≡ w.thread.fills
    pub cached : w.fanout.cached ≡ w.thread.fills
    pub written : concat w.writer.batches ≡ w.thread.fills
    pub flushed : w.writer.buffer ≡ []
    pub prices : w.book_cache ≡ prices_of w.thread.updates
    pub within :
        (id : c.Uuid) → traded id (concat w.writer.batches) ≤ given id (orders decode all_open ds)

  served-IsDone :
      (batch_size : ℕ) (ds : List (Delivery Bytes)) (t : Thread)
      → Runs (new_engine thread_market_id) (orders decode all_open ds) t.engine t.fills
      → Reachable t.engine
      → All IsAcceptable (orders decode all_open ds)
      → (w : Served decode) × (after_thread decode batch_size
            (Consumer.run decode all_open new_consumer ds)
            (some t)
          ≡ some w)
        × IsDone ds w
  unfolding after_thread
  served-IsDone batch_size ds t runs reachable good =
      let fanned = fan_out-polled new_fanout (drained t.fills) in
      let same = polled-drained t.fills in
      let stored = ap (λ (x : Fanout Fill). x.stored) fanned ∙ same in
      (
        _,
        refl,
        record {
          runs = runs;
          reachable = reachable;
          committed = (run-open decode new_consumer ds).1;
          broadcast = ap (λ (x : Fanout Fill). x.broadcast) fanned ∙ same;
          published = ap (λ (x : Fanout Fill). x.published) fanned ∙ same;
          cached = ap (λ (x : Fanout Fill). x.cached) fanned ∙ same;
          written = run_written batch_size _ ∙ stored;
          flushed = run-woken batch_size new_writer _;
          prices = cache_book-drained t.updates;
          within = λ id.
              let (a, models, bound) =
                Runs-given id thread_market_id t.engine (orders decode all_open ds) t.fills good
                  runs in
              omega (arith, bound, ap (traded id) (run_written batch_size _ ∙ stored));
        },
      )

  -- A leader that starts without a snapshot, with a snapshot period other than zero in the
  -- environment, whose messages hold acceptable orders only and whose channels stay open until
  -- they are drained, handles them all: the engine runs on the orders of the messages and ends
  -- reachable from a new one, every offset is committed, each fill of the run goes once and in
  -- order to the websockets, to Kafka, to the cache and into the batches of the fill writer,
  -- which holds none back; what the batches trade for orders of one id is no more than the
  -- orders of that id had left; and the cache of best prices is given each update of the
  -- thread.
  pub run_leader-IsDone :
      (env : Env) (ds : List (Delivery Bytes))
      → (read_thread_settings env).snapshot_every ≢ 0
      → All IsAcceptable (orders decode all_open ds)
      → (w : Served decode) × (run_leader decode env none ds ≡ some w) × IsDone ds w
  unfolding run_leader
  run_leader-IsDone env ds positive good =
      let period = (read_thread_settings env).snapshot_every in
      let batch_size = (read_writer_settings env).batch_size in
      let k = Consumer.run decode all_open new_consumer ds in
      let (t, run, runs, reachable) =
        run_thread-Reachable period (orders decode all_open ds) positive good in
      let (w, made, done) = served-IsDone batch_size ds t runs reachable good in
      (
        w,
        ap
              (λ os.
                after_thread decode batch_size k
                  (run_thread all_open period (start_thread none) os))
              (run-open decode new_consumer ds).0
            ∙ ap (after_thread decode batch_size k) run
            ∙ made,
        done,
      )
