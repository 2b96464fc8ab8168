-- ===== src/Api/Threads/Replicas.antt =====
-- follower.rs beside ingest/processor.rs: the engines of follower and leader on the same orders.
use lmax_clob.Common.{
  if◌then◌else◌, ◌==◌, ◌%◌, ℕ, ◌≡◌, ◌≢◌, refl, sym, ap, ◌∙◌, subst, Bool, true, false, Option, some,
  List, [], ◌∷◌, ◌++◌, append_assoc, append-nil, arith,
}
use lmax_clob.Crates.{Crates}
use lmax_clob.Engine.Types.{Order, Fill, ProcessResult, EngineError, Result, ok, err}
use lmax_clob.Engine.Matching.{MatchingEngine}
use lmax_clob.Engine.Process.{Reply, process_order}
use lmax_clob.Engine.Snapshot.{Postcard}
use lmax_clob.Api.Threads.{
  as_i64, next_u64, save_book, Thread, Turn, send_fills, count_order, handle_reply, handle_order,
  run_thread,
}

module _ ⦃c : Crates⦄ where
  abbrev pub fills_in : Result EngineError ProcessResult → List Fill
  fills_in (ok (ProcessResult.fills fs)) = fs
  fills_in _ = []

  -- An engine that is given the orders one by one: where it ends, and all its fills.
  abbrev pub Runs : MatchingEngine → List Order → MatchingEngine → List Fill → Type 0
  Runs e [] e' fs = (e ≡ e') × (fs ≡ [])
  Runs e (o ∷ os) e' fs =
      (r : Reply) × (later : List Fill) × (process_order e o ≡ some r)
      × Runs r.0 os e' later
      × (fs ≡ fills_in r.1 ++ later)

  module _ ⦃p : Postcard⦄ where
    module _ (snapshot_every : ℕ) (positive : snapshot_every ≢ 0) where
      -- The thread goes on, with this engine and these fills sent.
      abbrev pub GoesOn : Option Turn → MatchingEngine → List Fill → Type 0
      GoesOn x e fs =
          (t' : Thread) × (x ≡ some (Turn.continue t')) × (t'.engine ≡ e) × (t'.fills ≡ fs)

      send_fills-open :
          (t : Thread) (fs : List Fill)
          → send_fills (λ _. true) snapshot_every t fs
            ≡ Turn.continue (record t { fills = t.fills ++ fs })
      unfolding send_fills
      send_fills-open t [] =
          ap (λ fs. Turn.continue (record t { fills = fs })) (sym (append-nil t.fills))
      send_fills-open t (f ∷ fs) =
          send_fills-open (record t { fills = t.fills ++ f ∷ [] }) fs
          ∙ ap (λ fs. Turn.continue (record t { fills = fs })) (append_assoc t.fills (f ∷ []) fs)

      saved :
          (is_open : List Fill → Bool) (t : Thread) (b : Bool)
          → ((if b then save_book is_open snapshot_every t else t).engine ≡ t.engine)
            × ((if b then save_book is_open snapshot_every t else t).fills ≡ t.fills)
      unfolding save_book
      saved is_open t b = ground arith

      not_zero : (snapshot_every == 0) ≡ false
      not_zero = ground (arith, positive)

      pub count_order-GoesOn :
          (is_open : List Fill → Bool) (t : Thread)
          → GoesOn (count_order is_open snapshot_every t) t.engine t.fills
      unfolding count_order
      count_order-GoesOn is_open t =
          let t' = record t { processed = next_u64 t.processed } in
          let kept = saved is_open t' (next_u64 t.processed % snapshot_every == 0) in
          rw not_zero (_, refl, kept.0, kept.1)

      handle_reply-GoesOn :
          (t : Thread) (r : Result EngineError ProcessResult)
          → GoesOn (handle_reply (λ _. true) snapshot_every t r) t.engine (t.fills ++ fills_in r)
      unfolding handle_reply
      handle_reply-GoesOn t (ok (ProcessResult.fills fs)) =
          rw (send_fills-open t fs) (count_order-GoesOn (λ _. true) _)
      handle_reply-GoesOn t (ok ProcessResult.resting) =
          rw (append-nil t.fills) (count_order-GoesOn (λ _. true) t)
      handle_reply-GoesOn t (ok ProcessResult.cancelled) =
          rw (append-nil t.fills) (count_order-GoesOn (λ _. true) t)
      handle_reply-GoesOn t (err x) = rw (append-nil t.fills) (count_order-GoesOn (λ _. true) t)

      pub run_thread-Runs :
          (t : Thread) (os : List Order) (e' : MatchingEngine) (fs : List Fill)
          → Runs t.engine os e' fs
          → (t' : Thread) × (run_thread (λ _. true) snapshot_every t os ≡ some t')
            × (t'.engine ≡ e')
            × (t'.fills ≡ t.fills ++ fs)
      unfolding run_thread handle_order
      run_thread-Runs t [] e' fs r =
          (_, refl, r.0, sym (append-nil t.fills) ∙ ap (◌++◌ t.fills) (sym r.1))
      run_thread-Runs t (o ∷ os) e' fs (x, later, run, more, all) =
          let t1 = record t { engine = x.0; last_offset = as_i64 o.sequence } in
          let (t2, step, engine, sent) = handle_reply-GoesOn t1 x.1 in
          let (t3, run', engine', sent') =
            run_thread-Runs t2 os e' later (subst (λ e. Runs e os e' later) (sym engine) more) in
          (
            t3,
            rw (run, step, run_thread, handle_order) run',
            engine',
            sent'
                ∙ ap (λ gs. gs ++ later) sent
                ∙ append_assoc t.fills (fills_in x.1) later
                ∙ ap (◌++◌ t.fills) (sym all),
          )
