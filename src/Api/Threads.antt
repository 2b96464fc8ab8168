-- ===== src/Api/Threads.antt =====
-- ingest/processor.rs and follower.rs: the engine threads of the leader and of the follower. A run
-- is over the orders that the channel delivers before it closes; `none` is a run that does not
-- return or panics. Logging and metrics are left out.
pub mod Replicas
pub mod Total
pub mod Stopped
pub mod Ledger
pub mod Saves
use lmax_clob.Common.{
  ℕ, zero, suc, ◌%◌, Bool, true, false, String, Option, none, some, List, [], ◌∷◌, ◌++◌, ◌==◌,
  if◌then◌else◌,
}
use lmax_clob.Crates.{Crates}
use lmax_clob.Engine.Types.{Order, Fill, ProcessResult, EngineError, Result, ok, err, next_u64}
use lmax_clob.Engine.Book.{OrderBook, best_bid, best_ask}
use lmax_clob.Engine.Matching.{MatchingEngine, new_engine}
use lmax_clob.Engine.Process.{Reply, process_order}
use lmax_clob.Engine.Snapshot.{BookSnapshot, Postcard, serialize_book, deserialize_book}
use lmax_clob.Api.Fills.Rows.{as_i64}

-- `MARKET_ID`
abbrev pub thread_market_id : String
thread_market_id = "SOL/USDC"

module _ ⦃c : Crates⦄ where
  pub record BookUpdate : Type 0 where
    pub market_id : String
    pub best_bid : Option c.Num
    pub best_ask : Option c.Num

  module _ ⦃p : Postcard⦄ where
    restore_bytes : MatchingEngine → p.Bytes → MatchingEngine
    restore_bytes e bytes = elim (deserialize_book bytes) [
      | ok (book, _) ↦ record e { book = book }
      | err _ ↦ e
    ]

    -- The book of a snapshot takes the place of the engine's. The engine's counter stays.
    unfoldable pub restore_engine : MatchingEngine → Option BookSnapshot → MatchingEngine
    unfolding restore_bytes
    restore_engine e none = e
    restore_engine e (some snap) = elim (p.to_allocvec snap) [
      | ok bytes ↦ restore_bytes e bytes
      | err _ ↦ e
    ]

    -- What a call of `save_raw` is given.
    pub record Saved : Type 0 where
      pub payload : p.Bytes
      pub kafka_offset : Bool × ℕ
      pub sequence : ℕ

    -- The state of the leader's thread, with all that it has sent.
    pub record Thread : Type 0 where
      pub engine : MatchingEngine
      pub processed : ℕ
      pub last_offset : Bool × ℕ
      pub fills : List Fill
      pub updates : List BookUpdate
      pub saved : List Saved
      pub engine_alive : Bool

    unfoldable pub start_thread : Option BookSnapshot → Thread
    start_thread snap = record {
      engine = restore_engine (new_engine thread_market_id) snap;
      processed = 0;
      last_offset = (false, 0);
      fills = [];
      updates = [];
      saved = [];
      engine_alive = true;
    }

    -- A thread that goes on, or one that has returned.
    pub data Turn : Type 0 where
      continue : Thread → Turn
      returned : Thread → Turn

    module _ (is_open : List Fill → Bool) (snapshot_every : ℕ) where
      -- The fills go out one by one. A closed channel is found by the first that it refuses:
      -- `is_open` tells from the fills already sent whether the next one still gets through.
      unfoldable pub send_fills : Thread → List Fill → Turn
      send_fills t [] = continue t
      send_fills t (f ∷ fs) =
          let rest = send_fills (record t { fills = t.fills ++ f ∷ [] }) fs in
          if is_open t.fills then rest else returned (record t { engine_alive = false })

      book_update : Thread → Thread
      book_update t = record t {
        updates =
            t.updates
            ++ record {
              market_id = thread_market_id;
              best_bid = best_bid t.engine.book;
              best_ask = best_ask t.engine.book;
            }
              ∷ [];
      }

      unfoldable pub save_book : Thread → Thread
      save_book t = elim (serialize_book t.engine.book thread_market_id t.processed) [
        | ok bytes ↦ record t {
          saved =
              t.saved
              ++ record { payload = bytes; kafka_offset = t.last_offset; sequence = t.processed }
                ∷ [];
        }
        | err _ ↦ t
      ]

      -- `processed += 1`, and a snapshot after every `snapshot_every` orders. At zero the
      -- remainder panics.
      unfoldable pub count_order : Thread → Option Turn
      count_order t =
          let t' = record t { processed = next_u64 t.processed } in
          if snapshot_every == 0
          then none
          else some (continue (if t'.processed % snapshot_every == 0 then save_book t' else t'))

      after_fills : Turn → Option Turn
      unfolding book_update
      after_fills (continue t) = count_order (book_update t)
      after_fills (returned t) = some (returned t)

      unfoldable pub handle_reply : Thread → Result EngineError ProcessResult → Option Turn
      unfolding after_fills
      handle_reply t (ok (ProcessResult.fills fs)) = after_fills (send_fills t fs)
      handle_reply t (ok ProcessResult.resting) = count_order t
      handle_reply t (ok ProcessResult.cancelled) = count_order t
      handle_reply t (err _) = count_order t

      unfoldable pub handle_order : Thread → Order → Option Turn
      handle_order t o = elim (process_order t.engine o) [
        | none ↦ none
        | some (e, r) ↦ handle_reply (record t { engine = e; last_offset = as_i64 o.sequence }) r
      ]

      unfoldable pub run_thread : Thread → List Order → Option Thread
      run_thread t [] = some (record t { engine_alive = false })
      run_thread t (o ∷ os) = elim (handle_order t o) [
        | none ↦ none
        | some (returned t') ↦ some t'
        | some (continue t') ↦ run_thread t' os
      ]

    -- What the follower's `recv_timeout` gives.
    pub data Receipt : Type 0 where
      order : Order → Receipt
      timeout disconnected : Receipt

    pub record Follower : Type 0 where
      pub engine : MatchingEngine
      pub processed : ℕ
      pub engine_alive : Bool

    unfoldable pub start_follower : Option BookSnapshot → Follower
    start_follower snap = record {
      engine = restore_engine (new_engine thread_market_id) snap;
      processed = 0;
      engine_alive = true;
    }

    -- Each round reads the leader's flag, and then the channel. Whether the thread has returned after
    -- these rounds, or goes on looping.
    unfoldable pub run_follower : Follower → List (Bool × Receipt) → Option (Bool × Follower)
    run_follower f [] = some (false, f)
    run_follower f ((true, r) ∷ rs) = some (true, f)
    run_follower f ((false, timeout) ∷ rs) = run_follower f rs
    run_follower f ((false, disconnected) ∷ rs) = some (true, record f { engine_alive = false })
    run_follower f ((false, order o) ∷ rs) = elim (process_order f.engine o) [
      | none ↦ none
      | some (e, r) ↦ run_follower (record f { engine = e; processed = next_u64 f.processed }) rs
    ]
