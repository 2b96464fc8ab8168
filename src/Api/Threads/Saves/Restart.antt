-- ===== src/Api/Threads/Saves/Restart.antt =====
-- main.rs: a restart of the leader from a snapshot of the run before.
use lmax_clob.Common.{
  ℕ, ◌+◌, ◌^◌, ◌<◌, ◌≡◌, ◌≢◌, ◌↔◌, refl, sym, ap, ◌∙◌, subst, Bool, false, Option, none, some, List,
  [], ◌∷◌, ◌++◌, All, All-imp, String, same_text,
}
use lmax_clob.Crates.{Crates}
use lmax_clob.Engine.Types.{bid, Order, Fill, ok}
use lmax_clob.Engine.Matching.{MatchingEngine, new_engine}
use lmax_clob.Engine.Spec.{Market, queue}
use lmax_clob.Engine.Types.{Side}
use lmax_clob.Engine.Refine.Models.{Models, IsAcceptable, empty_market}
use lmax_clob.Engine.Market.Reachable.{Reachable, Reachable-Models}
use lmax_clob.Engine.Snapshot.{
  BookSnapshot, Postcard, serialize_book, deserialize_book, snapshot_of,
}
use lmax_clob.Engine.Snapshot.Complete.{queued, IsQueued}
use lmax_clob.Engine.Snapshot.Restore.{deserialize_book-serialize_book}
use lmax_clob.Engine.Snapshot.Priority.{level_of, orders_of, queued_levels, queued_iff}
use lmax_clob.Api.Consumer.{start_offset}
use lmax_clob.Api.Modes.{start_process-loaded, Process, start_process}
use lmax_clob.Api.Health.{HealthState}
use lmax_clob.Api.Consumer.{Topic}
use lmax_clob.Api.Store.{load-save_raw, SnapshotTable, save_raw, load}
use lmax_clob.Api.Threads.{
  true, OrderBook, restore_bytes, Thread, Saved, start_thread, run_thread, restore_engine,
  thread_market_id,
}
use lmax_clob.Api.Threads.Replicas.{Runs}
use lmax_clob.Api.Threads.Saves.Resume.{Resumes, read_from, IsAscending, run_thread-Resumes}

module _ ⦃c : Crates⦄ where
  Runs-Reachable :
      (e e' : MatchingEngine) (os : List Order) (fs : List Fill)
      → Reachable e
      → All IsAcceptable os
      → Runs e os e' fs
      → Reachable e'
  Runs-Reachable e e' [] fs h good (same, _) = subst Reachable same h
  Runs-Reachable e e' (o ∷ os) fs h good (r, later, run, more, _) =
      Runs-Reachable r.0 e' os later (Reachable.processed e o r h good.0 run) good.1 more

  All-first {ℓ} : {A : Type ℓ} (P : A → Type 0) (xs ys : List A) → All P (xs ++ ys) → All P xs
  All-first P [] ys h = tt
  All-first P (x ∷ xs) ys h = (h.0, All-first P xs ys h.1)

  module _ ⦃p : Postcard⦄ where
    -- What the next process starts with, once a snapshot is in the table: the orders after it are
    -- read, and the engine's queues hold just the orders that were queued after those before it.
    pub record Restarts (os : List Order) (x : Saved) : Type 0 where
      pub offset : ℕ
      pub offset_eq : x.kafka_offset ≡ (false, offset)
      pub snapshot : BookSnapshot
      pub loaded :
          (t : SnapshotTable)
          → load thread_market_id (save_raw thread_market_id x.payload offset x.sequence t)
            ≡ ok (some (snapshot, offset))
      pub taken : List Order
      pub split : os ≡ taken ++ read_from (start_offset (some (snapshot, offset))) os
      pub engine : MatchingEngine
      pub fills : List Fill
      pub runs : Runs (new_engine thread_market_id) taken engine fills
      pub market : Market
      pub models : Models engine market
      pub restored : Market
      pub restored_models : Models (start_thread (some snapshot)).engine restored
      pub started :
          (t : SnapshotTable) (topics : Option (List Topic)) (leads : Bool) (h : HealthState)
          (k : Process)
          → start_process
              (load thread_market_id (save_raw thread_market_id x.payload offset x.sequence t))
              topics
              leads
              h
            ≡ some k
          → Models k.engine restored
            × All (λ (a : String × ℕ × ℕ). a.2 ≡ offset + 1) k.assignment
            × (k.health.snapshot_loaded ≡ true)
      pub kept :
          (s : Side) → All (λ (y : c.Num × Order). IsQueued y.1 (queue s restored)) (queue s market)
      pub levels_eq :
          (s : Side) (q : c.Num)
          → level_of s q (orders_of (queue s restored))
            ≡ level_of s q (c.slab_values engine.book.orders)
      pub same_iff :
          (s : Side)
          → (orders_of (queue s restored) ≡ orders_of (queue s market)) ↔ (
              (q : c.Num)
              → level_of s q (c.slab_values engine.book.orders)
                ≡ level_of s q (orders_of (queue s market)))
      pub added :
          (s : Side) → All (λ (y : c.Num × Order). IsQueued y.1 (queue s market)) (queue s restored)

    restore_engine-book :
        (e : MatchingEngine) (market_id : String) (n : ℕ) (bytes : p.Bytes) (b : OrderBook)
        → serialize_book e.book market_id n ≡ ok bytes
        → deserialize_book bytes ≡ ok (b, snapshot_of e.book market_id n)
        → (start_thread (some (snapshot_of e.book market_id n))).engine
          ≡ record (new_engine thread_market_id) { book = b }
    unfolding start_thread restore_engine serialize_book restore_bytes
    restore_engine-book e market_id n bytes b written read =
        rw (written, restore_engine) (rw (read, restore_bytes) refl)

    named : thread_market_id ≢ ""
    named e = cc (ap (λ s. same_text s "") e)

    Resumes-Restarts :
        (period : ℕ) (os : List Order) (x : Saved)
        → All IsAcceptable os
        → Resumes period (new_engine thread_market_id) os x
        → Restarts os x
    Resumes-Restarts period os x good h =
        let taken_good = All-first IsAcceptable h.taken _ (subst (All IsAcceptable) h.split good) in
        let reached =
          Runs-Reachable _ h.engine h.taken h.fills (Reachable.started thread_market_id) taken_good
            h.runs in
        let (a, models, _, _) = Reachable-Models h.engine reached in
        let read = λ (s : Side).
          deserialize_book-serialize_book h.engine a thread_market_id x.sequence x.payload s models
            h.written in
        let os' = c.slab_values h.engine.book.orders in
        let restored = queued empty_market os' in
        let engine =
          restore_engine-book h.engine thread_market_id x.sequence x.payload (read bid).0 h.written
            (read bid).1 in
        let snap = snapshot_of h.engine.book thread_market_id x.sequence in
        let saved = λ (t : SnapshotTable).
          (load-save_raw thread_market_id "" h.engine.book thread_market_id x.sequence h.offset
            x.payload t h.written named).0 in
        record {
          offset = h.offset;
          offset_eq = h.offset_eq;
          snapshot = snap;
          loaded = saved;
          taken = h.taken;
          split = h.split;
          engine = h.engine;
          fills = h.fills;
          runs = h.runs;
          market = a;
          models = models;
          restored = restored;
          restored_models = subst (λ e. Models e restored) (sym engine) (read bid).2;
          started = λ t topics leads health k run.
              let (same, at, marked) =
                start_process-loaded snap h.offset topics leads health k
                  (subst (λ r. start_process r topics leads health ≡ some k) (saved t) run) in
              (subst (λ e. Models e restored) (sym (same ∙ engine)) (read bid).2, at, marked);
          kept = λ s. (read s).3;
          levels_eq = λ s q. queued_levels _ os' s q (read bid).2;
          same_iff = λ s. queued_iff h.engine _ a s os' models (read bid).2;
          added = λ s. (read s).4;
        }

    -- A leader started without a snapshot on acceptable orders with increasing offsets below
    -- 2^63: each snapshot that it has saved is loaded again, once it is in the table, with the
    -- offset of the last order handled before it; a process that starts from it reads every
    -- partition from one past that offset, where just the orders that are left begin; its
    -- engine stands for a market in which, on each side, just the orders are queued that were
    -- queued when the snapshot was saved, at each price those of the slab with that side and
    -- price, each as often as there and in the order in which it is walked, which is the queue
    -- of before just where that order is, at each price, the queue's; and its snapshot_loaded
    -- flag is up.
    pub run_thread-Restarts :
        (is_open : List Fill → Bool) (period : ℕ) (os : List Order) (t : Thread)
        → All IsAcceptable os
        → IsAscending os
        → All (λ o. o.sequence < 2 ^ 63) os
        → run_thread is_open period (start_thread none) os ≡ some t
        → All (Restarts os) t.saved
    unfolding start_thread restore_engine
    run_thread-Restarts is_open period os t good up small run =
        All-imp (λ x h. Resumes-Restarts period os x good h) t.saved
          (run_thread-Resumes is_open period none os t up small run)
