-- ===== src/Api/Threads/Saves/Resume.antt =====
-- main.rs and persistence/snapshot.rs: where a restart from a snapshot goes on.
use lmax_clob.Common.{
  ℕ, ◌+◌, ◌%◌, ◌^◌, ◌≤◌, ◌<◌, ◌≡◌, refl, sym, ap, ◌∙◌, subst, Bool, false, Option, some, List, [],
  ◌∷◌, ◌++◌, length, All, All-imp, arith, leb, if◌then◌else◌,
}
use lmax_clob.Crates.{Crates}
use lmax_clob.Engine.Types.{Order, Fill, ok}
use lmax_clob.Engine.Matching.{MatchingEngine}
use lmax_clob.Engine.Snapshot.{BookSnapshot, Postcard, serialize_book}
use lmax_clob.Api.Fills.Rows.{as_i64}
use lmax_clob.Api.Consumer.{start_offset}
use lmax_clob.Api.Threads.{Thread, Saved, start_thread, run_thread, thread_market_id}
use lmax_clob.Api.Threads.Replicas.{Runs}
use lmax_clob.Api.Threads.Saves.{IsCut, last_sequence}
use lmax_clob.Api.Threads.Saves.Run.{run_thread-IsCut}

module _ ⦃c : Crates⦄ where
  -- The orders from an offset on, which a consumer with this start reads.
  abbrev pub read_from : ℕ → List Order → List Order
  read_from n [] = []
  read_from n (o ∷ os) = if leb n o.sequence then o ∷ read_from n os else read_from n os

  -- Each order has a larger offset than those before it.
  abbrev pub IsAscending : List Order → Type 0
  IsAscending [] = Unit
  IsAscending (o ∷ os) = All (λ x. o.sequence < x.sequence) os × IsAscending os

  read_from-all : (n : ℕ) (os : List Order) → All (λ x. n ≤ x.sequence) os → read_from n os ≡ os
  read_from-all n [] h = refl
  read_from-all n (o ∷ os) h = ground (arith, h.0, read_from-all n os h.1)

  -- The orders up to the last of a first part are left out, and the others are read.
  read_from-last :
      (n : ℕ) (o : Order) (taken left : List Order)
      → last_sequence o.sequence taken < n
      → n ≤ last_sequence o.sequence taken + 1
      → IsAscending (o ∷ taken ++ left)
      → (o.sequence < n) × (read_from n (taken ++ left) ≡ left)
  read_from-last n o [] left low high h =
      (low, read_from-all n left (All-imp (λ x less. omega (arith, less, high)) left h.0))
  read_from-last n o (x ∷ taken) left low high h =
      let (below, rest) = read_from-last n x taken left low high h.1 in
      (omega (arith, below, h.0.0), ground (arith, below, rest))

  as_i64-small : (n : ℕ) → n < 2 ^ 63 → as_i64 n ≡ (false, n)
  as_i64-small n h = ground arith

  last_sequence-small :
      (n : ℕ) (taken left : List Order)
      → n < 2 ^ 63
      → All (λ o. o.sequence < 2 ^ 63) (taken ++ left)
      → last_sequence n taken < 2 ^ 63
  last_sequence-small n [] left low h = low
  last_sequence-small n (o ∷ taken) left low h = last_sequence-small o.sequence taken left h.0 h.1

  read_from-taken :
      (taken left : List Order)
      → 1 ≤ length taken
      → IsAscending (taken ++ left)
      → read_from (last_sequence 0 taken + 1) (taken ++ left) ≡ left
  read_from-taken [] left many h = absurd (omega (arith, many))
  read_from-taken (o ∷ taken) left many h =
      let (below, rest) =
        read_from-last (last_sequence o.sequence taken + 1) o taken left (omega arith) (omega arith)
          h in
      ground (arith, below, rest)

  module _ ⦃p : Postcard⦄ where
    -- A snapshot that holds the book after all orders up to its offset, so that a restart from it
    -- reads just the orders that are left.
    pub record Resumes (period : ℕ) (first : MatchingEngine) (os : List Order) (x : Saved)
        : Type 0 where
      pub offset : ℕ
      pub offset_eq : x.kafka_offset ≡ (false, offset)
      pub taken : List Order
      pub split : os ≡ taken ++ read_from (start_offset (some (x.payload, offset))) os
      pub engine : MatchingEngine
      pub fills : List Fill
      pub runs : Runs first taken engine fills
      pub written : serialize_book engine.book thread_market_id x.sequence ≡ ok x.payload
      pub counted : x.sequence ≡ length taken % 2 ^ 64
      pub periodic : x.sequence % period ≡ 0

    IsCut-Resumes :
        (period : ℕ) (first : MatchingEngine) (os : List Order)
        → IsAscending os
        → All (λ o. o.sequence < 2 ^ 63) os
        → (x : Saved) → IsCut period first os x
        → Resumes period first os x
    IsCut-Resumes period first os up small x cut =
        let low =
          last_sequence-small 0 cut.taken cut.left (omega arith)
            (subst (All (λ o. o.sequence < 2 ^ 63)) cut.split small) in
        record {
          offset = last_sequence 0 cut.taken;
          offset_eq = cut.offset ∙ as_i64-small _ low;
          taken = cut.taken;
          split =
              cut.split
              ∙ ap (◌++◌ cut.taken) (
                  sym (
                    ap (read_from (last_sequence 0 cut.taken + 1)) cut.split
                    ∙ read_from-taken cut.taken cut.left cut.some_taken
                        (subst IsAscending cut.split up)));
          engine = cut.engine;
          fills = cut.fills;
          runs = cut.runs;
          written = cut.written;
          counted = cut.counted;
          periodic = cut.periodic;
        }

    -- When the leader's thread returns, started on any snapshot and given orders with
    -- increasing offsets below 2^63, every snapshot that it has saved holds the book of the
    -- engine after all orders up to the offset saved with it and none after, so that the orders
    -- from one past that offset are just those left; its sequence is the number of orders
    -- handled, modulo 2^64, and a multiple of the snapshot period.
    pub run_thread-Resumes :
        (is_open : List Fill → Bool) (period : ℕ) (snap : Option BookSnapshot) (os : List Order)
        (t : Thread)
        → IsAscending os
        → All (λ o. o.sequence < 2 ^ 63) os
        → run_thread is_open period (start_thread snap) os ≡ some t
        → All (Resumes period (start_thread snap).engine os) t.saved
    unfolding start_thread
    run_thread-Resumes is_open period snap os t up small run =
        All-imp (IsCut-Resumes period (start_thread snap).engine os up small) t.saved (
          run_thread-IsCut period (start_thread snap).engine os is_open (start_thread snap) t [] os
            refl
            (record { fills = []; runs = (refl, refl); offset = refl; counted = refl; saved = tt })
            run)
