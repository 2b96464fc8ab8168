-- ===== src/Api/Threads/Total.antt =====
-- The leader's thread on orders that the engine accepts.
use lmax_clob.Common.{ℕ, ◌≡◌, ◌≢◌, refl, sym, subst, true, none, some, List, [], ◌∷◌, ◌++◌, All}
use lmax_clob.Crates.{Crates}
use lmax_clob.Engine.Types.{Order, Fill}
use lmax_clob.Engine.Matching.{MatchingEngine, new_engine}
use lmax_clob.Engine.Snapshot.{Postcard}
use lmax_clob.Engine.Refine.Models.{IsAcceptable}
use lmax_clob.Engine.Refine.Process.{process_order-place}
use lmax_clob.Engine.Market.Reachable.{Reachable, Reachable-Models}
use lmax_clob.Api.Threads.{Thread, start_thread, run_thread, restore_engine, thread_market_id}
use lmax_clob.Api.Threads.Replicas.{Runs, fills_in, run_thread-Runs}

module _ ⦃c : Crates⦄ where
  pub IsAcceptable-Runs :
      (e : MatchingEngine) (os : List Order)
      → Reachable e
      → All IsAcceptable os
      → (e' : MatchingEngine) × (fs : List Fill) × Runs e os e' fs × Reachable e'
  IsAcceptable-Runs e [] h good = (e, [], (refl, refl), h)
  IsAcceptable-Runs e (o ∷ os) h good =
      let found = Reachable-Models e h in
      let placed = process_order-place e found.0 o found.1 good.0 in
      let (e', fs, runs, after) =
        IsAcceptable-Runs placed.0.0 os (Reachable.processed e o placed.0 h good.0 placed.1)
          good.1 in
      (e', fills_in placed.0.1 ++ fs, (placed.0, fs, placed.1, runs, refl), after)

  module _ ⦃p : Postcard⦄ where
    -- Started without a snapshot, with a snapshot period other than zero and an open fill
    -- channel, the leader's thread handles all acceptable orders and returns when its channel
    -- closes; the fills that it has sent are those of its engine, and the engine is one that
    -- process_order leads to from a new one.
    pub run_thread-Reachable :
        (snapshot_every : ℕ) (os : List Order)
        → snapshot_every ≢ 0
        → All IsAcceptable os
        → (t : Thread) × (run_thread (λ _. true) snapshot_every (start_thread none) os ≡ some t)
          × Runs (new_engine thread_market_id) os t.engine t.fills
          × Reachable t.engine
    unfolding start_thread restore_engine
    run_thread-Reachable snapshot_every os positive good =
        let (e', fs, runs, after) =
          IsAcceptable-Runs (new_engine thread_market_id) os (Reachable.started thread_market_id)
            good in
        let (t, run, engine, sent) =
          run_thread-Runs snapshot_every positive (start_thread none) os e' fs runs in
        (
          t,
          run,
          subst (λ x. Runs (new_engine thread_market_id) os x t.fills) (sym engine)
              (subst (Runs (new_engine thread_market_id) os e') (sym sent) runs),
          subst Reachable (sym engine) after,
        )
