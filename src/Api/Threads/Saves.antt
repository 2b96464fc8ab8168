-- ===== src/Api/Threads/Saves.antt =====
-- ingest/processor.rs: what the snapshots of the leader's thread hold, and where a restart goes on.
pub mod Run
pub mod Resume
pub mod Restart
use lmax_clob.Common.{
  Option-cases, ℕ, ◌+◌, ◌%◌, ◌^◌, ◌≤◌, ◌<◌, ◌≡◌, ◌≢◌, refl, sym, ap, ◌∙◌, subst, Bool, true, false,
  Option, none, some, some-injective, List, [], ◌∷◌, ◌++◌, append_assoc, append-nil, length,
  length-append, All, All-append, arith, leb, ◌==◌, if◌then◌else◌, inl, inr, Bool-cases,
}
use lmax_clob.Crates.{Crates}
use lmax_clob.Engine.Types.{
  Order, Fill, ProcessResult, EngineError, Result, ok, err, next_u64, Result-cases,
}
use lmax_clob.Engine.Matching.{MatchingEngine}
use lmax_clob.Engine.Process.{Reply, process_order}
use lmax_clob.Engine.Snapshot.{BookSnapshot, Postcard, serialize_book}
use lmax_clob.Api.Fills.Rows.{as_i64}
use lmax_clob.Api.Threads.{
  book_update, after_fills, Thread, Turn, Saved, start_thread, send_fills, save_book, count_order,
  handle_reply, handle_order, run_thread, thread_market_id,
}
use lmax_clob.Api.Threads.Replicas.{Runs, fills_in}

module _ ⦃c : Crates⦄ where
  -- The offset of the last order.
  abbrev pub last_sequence : ℕ → List Order → ℕ
  last_sequence n [] = n
  last_sequence n (o ∷ os) = last_sequence o.sequence os

  pub Runs-more :
      (e e' : MatchingEngine) (os : List Order) (o : Order) (fs : List Fill) (r : Reply)
      → Runs e os e' fs
      → process_order e' o ≡ some r
      → Runs e (os ++ o ∷ []) r.0 (fs ++ fills_in r.1)
  Runs-more e e' [] o fs r (same, nothing) run = (
    r,
    [],
    subst (λ x. process_order x o ≡ some r) (sym same) run,
    (refl, refl),
    ap (λ gs. gs ++ fills_in r.1) nothing ∙ sym (append-nil _),
  )
  Runs-more e e' (x ∷ os) o fs r (y, later, step, more, all) run = (
    y,
    later ++ fills_in r.1,
    step,
    Runs-more y.0 e' os o later r more run,
    ap (λ gs. gs ++ fills_in r.1) all ∙ append_assoc (fills_in y.1) later _,
  )

  pub last_sequence-more :
      (n : ℕ) (os : List Order) (o : Order) → last_sequence n (os ++ o ∷ []) ≡ o.sequence
  last_sequence-more n [] o = refl
  last_sequence-more n (x ∷ os) o = last_sequence-more x.sequence os o

  module _ ⦃p : Postcard⦄ (period : ℕ) (first : MatchingEngine) (all : List Order) where
    -- A snapshot holds the book after some of the orders, with the offset of the last of them.
    pub record IsCut (x : Saved) : Type 0 where
      pub taken : List Order
      pub left : List Order
      pub split : all ≡ taken ++ left
      pub engine : MatchingEngine
      pub fills : List Fill
      pub runs : Runs first taken engine fills
      pub written : serialize_book engine.book thread_market_id x.sequence ≡ ok x.payload
      pub counted : x.sequence ≡ length taken % 2 ^ 64
      pub offset : x.kafka_offset ≡ as_i64 (last_sequence 0 taken)
      pub periodic : x.sequence % period ≡ 0
      pub some_taken : 1 ≤ length taken

    -- The thread has handled these orders and counted `n`.
    pub record InStep (n : ℕ) (t : Thread) (taken : List Order) : Type 0 where
      pub fills : List Fill
      pub runs : Runs first taken t.engine fills
      pub offset : t.last_offset ≡ as_i64 (last_sequence 0 taken)
      pub counted : t.processed ≡ n % 2 ^ 64
      pub saved : All IsCut t.saved

    abbrev pub thread_of : Turn → Thread
    thread_of (Turn.continue t) = t
    thread_of (Turn.returned t) = t

    pub InStep-send_fills :
        (is_open : List Fill → Bool) (n : ℕ) (t : Thread) (taken : List Order) (fs : List Fill)
        → InStep n t taken
        → InStep n (thread_of (send_fills is_open period t fs)) taken
    unfolding send_fills
    InStep-send_fills is_open n t taken [] h = h
    InStep-send_fills is_open n t taken (f ∷ fs) h =
        let next =
          InStep-send_fills is_open n (record t { fills = t.fills ++ f ∷ [] }) taken fs
            (record {
              fills = h.fills;
              runs = h.runs;
              offset = h.offset;
              counted = h.counted;
              saved = h.saved;
            }) in
        elim (Bool-cases (is_open t.fills)) [
          | inl takes ↦ rw takes next
          | inr gone ↦ rw gone (record {
            fills = h.fills;
            runs = h.runs;
            offset = h.offset;
            counted = h.counted;
            saved = h.saved;
          })
        ]

    pub InStep-save_book :
        (is_open : List Fill → Bool) (t : Thread) (taken left : List Order)
        → all ≡ taken ++ left
        → t.processed % period ≡ 0
        → 1 ≤ length taken
        → InStep (length taken) t taken
        → InStep (length taken) (save_book is_open period t) taken
    unfolding save_book
    InStep-save_book is_open t taken left split due many h =
        elim (Result-cases (serialize_book t.engine.book thread_market_id t.processed)) [
          | inl (bytes, e) ↦
              rw (e, save_book)
                (record {
                  fills = h.fills;
                  runs = h.runs;
                  offset = h.offset;
                  counted = h.counted;
                  saved = All-append IsCut t.saved _ h.saved (
                    record {
                      taken = taken;
                      left = left;
                      split = split;
                      engine = t.engine;
                      fills = h.fills;
                      runs = h.runs;
                      written = e;
                      counted = h.counted;
                      offset = h.offset;
                      periodic = due;
                      some_taken = many;
                    },
                    tt,
                  );
                })
          | inr (x, e) ↦ rw (e, save_book) h
        ]
