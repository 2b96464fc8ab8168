-- ===== src/Api/Standby/Same.antt =====
-- The follower's engine beside the leader's.
use lmax_clob.Common.{
  ℕ, ◌≡◌, ◌≢◌, refl, sym, ap, Bool, true, false, Option, some, List, [], ◌∷◌, take,
}
use lmax_clob.Crates.{Crates}
use lmax_clob.Engine.Types.{Order, Fill, next_u64}
use lmax_clob.Engine.Matching.{MatchingEngine}
use lmax_clob.Engine.Snapshot.{BookSnapshot, Postcard}
use lmax_clob.Api.Consumer
use lmax_clob.Api.Consumer.{Delivery, Consumer, new_consumer}
use lmax_clob.Api.Leader.Elector.{Elector}
use lmax_clob.Api.Modes.{Happening, await_promotion}
use lmax_clob.Api.Threads.{
  Receipt, Thread, Follower, start_thread, start_follower, run_thread, run_follower,
}
use lmax_clob.Api.Threads.Replicas.{Runs, run_thread-Runs}
use lmax_clob.Api.Standby.{
  Wait, ready, timed_out, turns, ends, receipts, Followed, followed, run_standby,
}

module _ ⦃c : Crates⦄ ⦃p : Postcard⦄ where
  -- The follower's thread comes through its rounds, with its engine run on these orders.
  abbrev HasRun : Follower → List (Bool × Receipt) → Bool → List Order → Type 0
  HasRun f rs b os =
      (f' : Follower) × (fs : List Fill) × (run_follower f rs ≡ some (b, f'))
      × Runs f.engine os f'.engine fs

  run_follower-receipts :
      (f : Follower) (os : List Order) (ws : List (Bool × Wait)) (e' : MatchingEngine)
      (fs : List Fill)
      → Runs f.engine os e' fs
      → HasRun f (receipts os ws) (ends os ws) (take (turns ws) os)
  unfolding run_follower receipts
  run_follower-receipts f os [] e' fs r = (f, [], refl, (refl, refl))
  run_follower-receipts f os ((true, timed_out) ∷ ws) e' fs r = (f, [], refl, (refl, refl))
  run_follower-receipts f [] ((true, ready) ∷ ws) e' fs r = (f, [], refl, (refl, refl))
  run_follower-receipts f (o ∷ os) ((true, ready) ∷ ws) e' fs r = (f, [], refl, (refl, refl))
  run_follower-receipts f os ((false, timed_out) ∷ ws) e' fs r =
      run_follower-receipts f os ws e' fs r
  run_follower-receipts f [] ((false, ready) ∷ ws) e' fs r = (_, [], refl, (refl, refl))
  run_follower-receipts f (o ∷ os) ((false, ready) ∷ ws) e' fs (x, later, run, more, _) =
      let (f', gs, rest, goes) =
        run_follower-receipts (record f { engine = x.0; processed = next_u64 f.processed }) os ws e'
          later more in
      (f', _, rw (run, run_follower) rest, (x, gs, run, goes, refl))

  module _ {Bytes : Type 0} (decode : Bytes → Option Order) where
    -- A process in follower mode, from any snapshot and on any messages: where the engine runs
    -- without fail on the orders that its consumer sends, and after any rounds of its thread,
    -- each with the flag that it sees and the order it waits for, the thread has returned just
    -- where one of them saw the flag up or met the channel closed, and loops on otherwise; and
    -- its engine is that with which the thread of a leader returns, for any snapshot period but
    -- zero and an open fill channel, from the same snapshot and on as many of these orders as
    -- the rounds took before the flag was up.
    pub run_standby-run_thread :
        {E : Type 0} (snapshot_every : ℕ) (is_open : List Order → Bool) (snap : Option BookSnapshot)
        (ds : List (Delivery Bytes)) (ws : List (Bool × Wait)) (e : Elector)
        (hs : List (Happening E)) (e' : MatchingEngine) (fs : List Fill)
        → snapshot_every ≢ 0
        → Runs (start_follower snap).engine (Consumer.run decode is_open new_consumer ds).sent e' fs
        → (w : Followed decode) × (t : Thread) × (run_standby decode is_open snap ds ws e hs
            ≡ some w)
          × (run_thread
                (λ _. true)
                snapshot_every
                (start_thread snap)
                (take (turns ws) (Consumer.run decode is_open new_consumer ds).sent)
              ≡ some t)
          × (w.follower.engine ≡ t.engine)
          × (w.returned ≡ ends (Consumer.run decode is_open new_consumer ds).sent ws)
    unfolding run_standby followed start_thread start_follower
    run_standby-run_thread snapshot_every is_open snap ds ws e hs e' fs positive r =
        let k = Consumer.run decode is_open new_consumer ds in
        let (f, gs, run, goes) = run_follower-receipts (start_follower snap) k.sent ws e' fs r in
        let (t, leads, engine, sent) =
          run_thread-Runs snapshot_every positive (start_thread snap) (take (turns ws) k.sent)
            f.engine gs goes in
        (
          record {
            consumer = k;
            follower = f;
            returned = ends k.sent ws;
            exit_code = await_promotion e hs;
          },
          t,
          ap (followed decode k (await_promotion e hs)) run,
          leads,
          sym engine,
          refl,
        )
