-- ===== src/Api/Threads/Stopped.antt =====
-- ingest/processor.rs: the leader's thread where its fill channel may close.
use lmax_clob.Common.{
  ℕ, ◌≡◌, ◌≢◌, ◌⊎◌, refl, sym, ap, ◌∙◌, subst, Bool, false, inl, inr, Option, none, some, List, [],
  ◌∷◌, ◌++◌, All, append_assoc, append-nil, arith, Bool-cases,
}
use lmax_clob.Crates.{Crates}
use lmax_clob.Engine.Types.{Order, Fill, ProcessResult, EngineError, Result, ok, err}
use lmax_clob.Engine.Matching.{MatchingEngine, new_engine}
use lmax_clob.Engine.Snapshot.{Postcard}
use lmax_clob.Engine.Refine.Models.{IsAcceptable}
use lmax_clob.Engine.Market.Reachable.{Reachable}
use lmax_clob.Api.Health.{HealthState, healthz}
use lmax_clob.Api.Threads.{
  as_i64, Thread, Turn, start_thread, restore_engine, send_fills, after_fills, handle_reply,
  handle_order, run_thread, book_update, thread_market_id,
}
use lmax_clob.Api.Threads.Replicas.{Runs, fills_in, GoesOn, count_order-GoesOn}
use lmax_clob.Api.Threads.Total.{IsAcceptable-Runs}

module _ ⦃c : Crates⦄ ⦃p : Postcard⦄ (is_open : List Fill → Bool) (snapshot_every : ℕ)
    (positive : snapshot_every ≢ 0) where
  -- The thread's flag is down, and it has sent the first of these fills.
  pub record Stopped (t : Thread) (fs : List Fill) : Type 0 where
    pub flag : t.engine_alive ≡ false
    pub unsent : List Fill
    pub split : t.fills ++ unsent ≡ fs

  -- A turn after which the thread goes on with these fills sent, or has stopped on the way to them.
  abbrev GoesOrStops : Option Turn → MatchingEngine → List Fill → Type 0
  GoesOrStops x e fs =
      GoesOn snapshot_every positive x e fs
      ⊎ ((t' : Thread) × (x ≡ some (Turn.returned t')) × Stopped t' fs)

  abbrev SendsOrStops : Thread → List Fill → Turn → Type 0
  SendsOrStops t fs x =
      (x ≡ Turn.continue (record t { fills = t.fills ++ fs }))
      ⊎ ((t' : Thread) × (x ≡ Turn.returned t') × Stopped t' (t.fills ++ fs))

  send_fills-cases :
      (t : Thread) (fs : List Fill) → SendsOrStops t fs (send_fills is_open snapshot_every t fs)
  unfolding send_fills
  send_fills-cases t [] =
      inl (ap (λ fs. Turn.continue (record t { fills = fs })) (sym (append-nil t.fills)))
  send_fills-cases t (f ∷ fs) = elim (Bool-cases (is_open t.fills)) [
    | inr shut ↦
        rw (shut, send_fills)
          (inr (
            record t { engine_alive = false },
            refl,
            record { flag = refl; unsent = f ∷ fs; split = refl },
          ))
    | inl open_still ↦
        rw (open_still, send_fills)
          (subst
            (λ gs.
              (send_fills is_open snapshot_every (record t { fills = t.fills ++ f ∷ [] }) fs
                ≡ Turn.continue (record t { fills = gs }))
              ⊎ ((t' : Thread) × (send_fills is_open snapshot_every
                      (record t { fills = t.fills ++ f ∷ [] }) fs
                    ≡ Turn.returned t')
                  × Stopped t' gs))
            (append_assoc t.fills (f ∷ []) fs)
            (send_fills-cases (record t { fills = t.fills ++ f ∷ [] }) fs))
  ]

  handle_reply-cases :
      (t : Thread) (r : Result EngineError ProcessResult)
      → GoesOrStops (handle_reply is_open snapshot_every t r) t.engine (t.fills ++ fills_in r)
  unfolding handle_reply after_fills book_update
  handle_reply-cases t (ok (ProcessResult.fills fs)) = elim (send_fills-cases t fs) [
    | inl goes ↦ rw goes (inl (count_order-GoesOn snapshot_every positive is_open _))
    | inr (t', stops, h) ↦ rw stops (inr (t', refl, h))
  ]
  handle_reply-cases t (ok ProcessResult.resting) =
      inl (rw (append-nil t.fills) (count_order-GoesOn snapshot_every positive is_open t))
  handle_reply-cases t (ok ProcessResult.cancelled) =
      inl (rw (append-nil t.fills) (count_order-GoesOn snapshot_every positive is_open t))
  handle_reply-cases t (err x) =
      inl (rw (append-nil t.fills) (count_order-GoesOn snapshot_every positive is_open t))

  run_thread-Stopped :
      (t : Thread) (os : List Order) (e' : MatchingEngine) (fs : List Fill)
      → Runs t.engine os e' fs
      → (t' : Thread) × (run_thread is_open snapshot_every t os ≡ some t')
        × Stopped t' (t.fills ++ fs)
  unfolding run_thread handle_order
  run_thread-Stopped t [] e' fs r = (
    record t { engine_alive = false },
    refl,
    record { flag = refl; unsent = []; split = ap (◌++◌ t.fills) (sym r.1) },
  )
  run_thread-Stopped t (o ∷ os) e' fs (x, later, run, more, all) =
      let t1 = record t { engine = x.0; last_offset = as_i64 o.sequence } in
      let whole : (t.fills ++ fills_in x.1) ++ later ≡ t.fills ++ fs =
        append_assoc t.fills (fills_in x.1) later ∙ ap (◌++◌ t.fills) (sym all) in
      elim (handle_reply-cases t1 x.1) [
        | inl (t2, step, engine, sent) ↦
            let (t3, rest, h) =
              run_thread-Stopped t2 os e' later
                (subst (λ e. Runs e os e' later) (sym engine) more) in
            (
              t3,
              rw (run, step, run_thread, handle_order) rest,
              subst (Stopped t3) (ap (λ gs. gs ++ later) sent ∙ whole) h,
            )
        | inr (t2, step, h) ↦ (
          t2,
          rw (run, step, run_thread, handle_order) refl,
          record {
            flag = h.flag;
            unsent = h.unsent ++ later;
            split =
                sym (append_assoc t2.fills h.unsent later) ∙ ap (λ gs. gs ++ later) h.split ∙ whole;
          },
        )
      ]

  -- Started without a snapshot, with a snapshot period other than zero, on acceptable orders,
  -- the leader's thread returns, whenever its fill channel is found closed; it has then sent
  -- the first of the fills that an engine makes of all these orders, in order and with none
  -- left out between them; and it has lowered engine_alive, so that healthz answers 503 however
  -- the other flags stand.
  pub run_thread-healthz :
      (os : List Order) (db : Bool) (h : HealthState)
      → All IsAcceptable os
      → (t : Thread) × (e : MatchingEngine) × (fs : List Fill) × (unsent : List Fill) × (run_thread
            is_open snapshot_every
            (start_thread none)
            os
          ≡ some t)
        × Runs (new_engine thread_market_id) os e fs
        × (t.fills ++ unsent ≡ fs)
        × ((healthz db (record h { engine_alive = t.engine_alive })).0 ≡ 503)
  unfolding start_thread restore_engine healthz
  run_thread-healthz os db h good =
      let (e, fs, runs, after) =
        IsAcceptable-Runs (new_engine thread_market_id) os (Reachable.started thread_market_id)
          good in
      let (t, run, stopped) = run_thread-Stopped (start_thread none) os e fs runs in
      (t, e, fs, stopped.unsent, run, runs, stopped.split, ground (arith, stopped.flag))
