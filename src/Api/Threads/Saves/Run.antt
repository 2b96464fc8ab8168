-- ===== src/Api/Threads/Saves/Run.antt =====
-- The snapshots of a run of the leader's thread.
use lmax_clob.Common.{
  Option-cases, ℕ, ◌+◌, ◌%◌, ◌^◌, ◌≡◌, sym, ap, ◌∙◌, subst, Bool, some, some-injective, List, [],
  ◌∷◌, ◌++◌, append_assoc, length, length-append, All, arith, ◌==◌, inl, inr, Bool-cases,
}
use lmax_clob.Crates.{Crates}
use lmax_clob.Engine.Types.{Order, Fill, ProcessResult, EngineError, Result, ok, err, next_u64}
use lmax_clob.Engine.Matching.{MatchingEngine}
use lmax_clob.Engine.Process.{process_order}
use lmax_clob.Engine.Snapshot.{Postcard}
use lmax_clob.Api.Fills.Rows.{as_i64}
use lmax_clob.Api.Threads.{
  book_update, after_fills, Thread, Turn, send_fills, count_order, handle_reply, handle_order,
  run_thread,
}
use lmax_clob.Api.Threads.Replicas.{fills_in}
use lmax_clob.Api.Threads.Saves.{
  IsCut, InStep, thread_of, InStep-send_fills, InStep-save_book, Runs-more, last_sequence-more,
}
use lmax_clob.Common.{Option-cases}
use lmax_clob.Api.Threads.{after_fills, book_update}

module _ ⦃c : Crates⦄ ⦃p : Postcard⦄ (period : ℕ) (first : MatchingEngine) (all : List Order) where
  next_u64_count : (n : ℕ) → next_u64 (n % 2 ^ 64) ≡ (n + 1) % 2 ^ 64
  next_u64_count n = omega arith

  -- What follows an order, on a thread that has not counted it yet.
  InStep-count_order :
      (is_open : List Fill → Bool) (n : ℕ) (t : Thread) (u : Turn) (taken left : List Order)
      → all ≡ taken ++ left
      → length taken ≡ n + 1
      → InStep period first all n t taken
      → count_order is_open period t ≡ some u
      → (t' : Thread) × (u ≡ Turn.continue t') × InStep period first all (length taken) t' taken
  unfolding count_order
  InStep-count_order is_open n t u taken left split size h run =
      let t1 = record t { processed = next_u64 t.processed } in
      let h1 : InStep period first all (length taken) t1 taken = record {
        fills = h.fills;
        runs = h.runs;
        offset = h.offset;
        counted = ap next_u64 h.counted ∙ next_u64_count n ∙ ap (λ k. k % 2 ^ 64) (sym size);
        saved = h.saved;
      } in
      elim (Bool-cases (period == 0)) [
        | inl zero ↦ absurd (cc (rw (zero, count_order) at run))
        | inr positive ↦ elim (Bool-cases (t1.processed % period == 0)) [
          | inl due ↦ (
            _,
            sym (some-injective _ u (rw (positive, due, count_order) at run)),
            InStep-save_book period first all is_open t1 taken left split (ground (arith, due))
                (omega (arith, size)) h1,
          )
          | inr early ↦ (_, sym (some-injective _ u (rw (positive, early, count_order) at run)), h1)
        ]
      ]

  -- The turn that an order leaves.
  abbrev Steps : Turn → List Order → Type 0
  Steps (Turn.continue t) taken = InStep period first all (length taken) t taken
  Steps (Turn.returned t) taken = All (IsCut period first all) t.saved

  Steps-counted :
      (is_open : List Fill → Bool) (n : ℕ) (t : Thread) (u : Turn) (taken left : List Order)
      → all ≡ taken ++ left
      → length taken ≡ n + 1
      → InStep period first all n t taken
      → count_order is_open period t ≡ some u
      → Steps u taken
  Steps-counted is_open n t u taken left split size h run =
      let (t', e, h') = InStep-count_order is_open n t u taken left split size h run in
      subst (λ x. Steps x taken) (sym e) h'

  Steps-after_fills :
      (is_open : List Fill → Bool) (n : ℕ) (u v : Turn) (taken left : List Order)
      → all ≡ taken ++ left
      → length taken ≡ n + 1
      → InStep period first all n (thread_of period first all v) taken
      → after_fills is_open period v ≡ some u
      → Steps u taken
  unfolding after_fills book_update
  Steps-after_fills is_open n u (Turn.continue t) taken left split size h run =
      Steps-counted is_open n _ u taken left split size
        (record {
          fills = h.fills;
          runs = h.runs;
          offset = h.offset;
          counted = h.counted;
          saved = h.saved;
        })
        run
  Steps-after_fills is_open n u (Turn.returned t) taken left split size h run =
      subst (λ x. Steps x taken) (some-injective (Turn.returned t) u run) h.saved

  Steps-handle_reply :
      (is_open : List Fill → Bool) (n : ℕ) (t : Thread) (r : Result EngineError ProcessResult)
      (u : Turn) (taken left : List Order)
      → all ≡ taken ++ left
      → length taken ≡ n + 1
      → InStep period first all n t taken
      → handle_reply is_open period t r ≡ some u
      → Steps u taken
  unfolding handle_reply
  Steps-handle_reply is_open n t (ok (ProcessResult.fills fs)) u taken left split size h run =
      Steps-after_fills is_open n u (send_fills is_open period t fs) taken left split size
        (InStep-send_fills period first all is_open n t taken fs h) run
  Steps-handle_reply is_open n t (ok ProcessResult.resting) u taken left split size h run =
      Steps-counted is_open n t u taken left split size h run
  Steps-handle_reply is_open n t (ok ProcessResult.cancelled) u taken left split size h run =
      Steps-counted is_open n t u taken left split size h run
  Steps-handle_reply is_open n t (err x) u taken left split size h run =
      Steps-counted is_open n t u taken left split size h run

  Steps-handle_order :
      (is_open : List Fill → Bool) (t : Thread) (o : Order) (u : Turn) (taken left : List Order)
      → all ≡ taken ++ o ∷ left
      → InStep period first all (length taken) t taken
      → handle_order is_open period t o ≡ some u
      → Steps u (taken ++ o ∷ [])
  unfolding handle_order
  Steps-handle_order is_open t o u taken left split h run =
      elim (Option-cases (process_order t.engine o)) [
        | inl stuck ↦ absurd (cc (rw (stuck, handle_order) at run))
        | inr (r, step) ↦
            Steps-handle_reply is_open (length taken) _ r.1 u (taken ++ o ∷ []) left
              (split ∙ sym (append_assoc taken (o ∷ []) left)) (length-append taken (o ∷ []))
              (record {
                fills = h.fills ++ fills_in r.1;
                runs = Runs-more first t.engine taken o h.fills r h.runs step;
                offset = ap as_i64 (sym (last_sequence-more 0 taken o));
                counted = h.counted;
                saved = h.saved;
              })
              (rw (step, handle_order) at run)
      ]

  pub run_thread-IsCut :
      (is_open : List Fill → Bool) (t t' : Thread) (taken left : List Order)
      → all ≡ taken ++ left
      → InStep period first all (length taken) t taken
      → run_thread is_open period t left ≡ some t'
      → All (IsCut period first all) t'.saved
  unfolding run_thread
  run_thread-IsCut is_open t t' taken [] split h run =
      subst (λ (x : Thread). All (IsCut period first all) x.saved) (some-injective _ t' run) h.saved
  run_thread-IsCut is_open t t' taken (o ∷ left) split h run =
      elim (Option-cases (handle_order is_open period t o)) [
        | inl stuck ↦ absurd (cc (rw (stuck, run_thread) at run))
        | inr (Turn.returned t1, step) ↦
            subst (λ (x : Thread). All (IsCut period first all) x.saved)
              (some-injective t1 t' (rw (step, run_thread) at run))
              (Steps-handle_order is_open t o _ taken left split h step)
        | inr (Turn.continue t1, step) ↦
            run_thread-IsCut is_open t1 t' (taken ++ o ∷ []) left
              (split ∙ sym (append_assoc taken (o ∷ []) left))
              (Steps-handle_order is_open t o _ taken left split h step)
              (rw (step, run_thread) at run)
      ]
