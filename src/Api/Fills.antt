-- ===== src/Api/Fills.antt =====
-- persistence/fills.rs: `FillWriter`, which gathers fills into batches for the database.
pub mod Rows
use lmax_clob.Common.{
  All-append, ltb, ℕ, ◌-◌, ◌^◌, ◌≤◌, ◌<◌, ◌≡◌, refl, sym, ap, ◌∙◌, Bool, true, false, inl, inr,
  List, [], ◌∷◌, ◌++◌, append_assoc, append-nil, length, length-append, All, leb, arith, Bool-cases,
  if◌then◌else◌,
}
use lmax_clob.Crates.{Crates}
use lmax_clob.Engine.Types.{Fill}

-- What wakes the loop: a fill from the channel, the end of the channel, or the timer.
pub data Wake {ℓ} (A : Type ℓ) : Type ℓ where
  received : A → Wake A
  closed ticked : Wake A

-- The loop's buffer and the batches that it has handed to `insert_batch`.
pub record Writer (A : Type 0) : Type 0 where
  pub buffer : List A
  pub batches : List (List A)

module _ {A : Type 0} where
  abbrev pub new_writer : Writer A
  new_writer = record { buffer = []; batches = [] }

  -- `flush` empties the buffer, whether or not the insert succeeds.
  unfoldable pub flush : Writer A → Writer A
  flush w = record { buffer = []; batches = w.batches ++ w.buffer ∷ [] }

  flush_when : List A → Writer A → Writer A
  flush_when [] w = w
  flush_when (x ∷ xs) w = flush w

  -- `if !buf.is_empty() { self.flush(&mut buf) }`
  unfoldable pub flush_filled : Writer A → Writer A
  unfolding flush_when
  flush_filled w = flush_when w.buffer w

  unfoldable pub receive : ℕ → A → Writer A → Writer A
  receive batch_size a w =
      let w' = record w { buffer = w.buffer ++ a ∷ [] } in
      if leb batch_size (length w'.buffer) then flush w' else w'

  -- `run` up to the end of the channel or of the events.
  unfoldable pub run : ℕ → Writer A → List (Wake A) → Writer A
  run batch_size w [] = w
  run batch_size w (received a ∷ es) = run batch_size (receive batch_size a w) es
  run batch_size w (ticked ∷ es) = run batch_size (flush_filled w) es
  run batch_size w (closed ∷ es) = flush_filled w

  abbrev pub concat : List (List A) → List A
  concat [] = []
  concat (b ∷ bs) = b ++ concat bs

  -- All that has come in, in order: the batches and then the buffer.
  abbrev pub taken : Writer A → List A
  taken w = concat w.batches ++ w.buffer

  -- What the channel delivers before it closes.
  abbrev pub delivered : List (Wake A) → List A
  delivered [] = []
  delivered (received a ∷ es) = a ∷ delivered es
  delivered (ticked ∷ es) = delivered es
  delivered (closed ∷ es) = []

  concat-append : (bs : List (List A)) (b : List A) → concat (bs ++ b ∷ []) ≡ concat bs ++ b
  concat-append [] b = append-nil b
  concat-append (x ∷ bs) b = ap (◌++◌ x) (concat-append bs b) ∙ sym (append_assoc x (concat bs) b)

  taken-flush : (w : Writer A) → taken (flush w) ≡ taken w
  unfolding flush
  taken-flush w = append-nil _ ∙ concat-append w.batches w.buffer

  taken-flush_when : (b : List A) (w : Writer A) → taken (flush_when b w) ≡ taken w
  unfolding flush_when
  taken-flush_when [] w = refl
  taken-flush_when (x ∷ xs) w = taken-flush w

  taken-flush_filled : (w : Writer A) → taken (flush_filled w) ≡ taken w
  unfolding flush_filled flush_when
  taken-flush_filled w = taken-flush_when w.buffer w

  taken-receive : (n : ℕ) (a : A) (w : Writer A) → taken (receive n a w) ≡ taken w ++ a ∷ []
  unfolding receive
  taken-receive n a w =
      let w' = record w { buffer = w.buffer ++ a ∷ [] } in
      let same = sym (append_assoc (concat w.batches) w.buffer (a ∷ [])) in
      elim (Bool-cases (leb n (length (w.buffer ++ a ∷ [])))) [
        | inl full ↦ rw full (taken-flush w' ∙ same)
        | inr room ↦ rw room same
      ]

  -- Nothing that the channel delivers is left out, doubled or moved: the writer's batches and
  -- its buffer in a row are what came in before the channel closed.
  pub run-delivered :
      (n : ℕ) (w : Writer A) (es : List (Wake A)) → taken (run n w es) ≡ taken w ++ delivered es
  unfolding run
  run-delivered n w [] = sym (append-nil (taken w))
  run-delivered n w (received a ∷ es) =
      run-delivered n (receive n a w) es
      ∙ ap (λ xs. xs ++ delivered es) (taken-receive n a w)
      ∙ append_assoc (taken w) (a ∷ []) (delivered es)
  run-delivered n w (ticked ∷ es) =
      run-delivered n (flush_filled w) es ∙ ap (λ xs. xs ++ delivered es) (taken-flush_filled w)
  run-delivered n w (closed ∷ es) = taken-flush_filled w ∙ sym (append-nil (taken w))

  flush_when-empty : (b : List A) (w : Writer A) → w.buffer ≡ b → (flush_when b w).buffer ≡ []
  unfolding flush_when flush
  flush_when-empty [] w e = e
  flush_when-empty (x ∷ b) w e = refl

  pub flush_filled-empty : (w : Writer A) → (flush_filled w).buffer ≡ []
  unfolding flush_filled
  flush_filled-empty w = flush_when-empty w.buffer w refl

  -- A batch of `n` fills at most, and of one at least.
  abbrev pub IsBatch : ℕ → List A → Type 0
  IsBatch n b = (1 ≤ length b) × (length b ≤ n)

  -- The buffer has room, and every batch is of the right size.
  abbrev pub IsBounded : ℕ → Writer A → Type 0
  IsBounded n w = (length w.buffer < n) × All (IsBatch n) w.batches

  flush-IsBounded :
      (n : ℕ) (w : Writer A)
      → 0 < n
      → 1 ≤ length w.buffer
      → length w.buffer ≤ n
      → All (IsBatch n) w.batches
      → IsBounded n (flush w)
  unfolding flush
  flush-IsBounded n w pos some_fills few h =
      (pos, All-append (IsBatch n) w.batches (w.buffer ∷ []) h ((some_fills, few), tt))

  flush_when-IsBounded :
      (n : ℕ) (b : List A) (w : Writer A)
      → w.buffer ≡ b
      → IsBounded n w
      → IsBounded n (flush_when b w)
  unfolding flush_when
  flush_when-IsBounded n [] w e h = h
  flush_when-IsBounded n (x ∷ xs) w e h =
      flush-IsBounded n w (omega (arith, h.0)) (rw e (omega arith)) (omega (arith, h.0)) h.1

  receive-IsBounded : (n : ℕ) (a : A) (w : Writer A) → IsBounded n w → IsBounded n (receive n a w)
  unfolding receive
  receive-IsBounded n a w h =
      let w' = record w { buffer = w.buffer ++ a ∷ [] } in
      let size = length-append w.buffer (a ∷ []) in
      elim (Bool-cases (leb n (length (w.buffer ++ a ∷ [])))) [
        | inl full ↦ rw full (
            flush-IsBounded n w' (omega (arith, h.0)) (omega (arith, size))
              (omega (arith, size, h.0)) h.1)
        | inr room ↦ rw room (ground arith, h.1)
      ]

  -- With a batch size of at least one and a buffer below it, every batch that is written holds
  -- between one fill and that many, and the buffer never reaches the size.
  pub run-IsBounded :
      (n : ℕ) (w : Writer A) (es : List (Wake A)) → IsBounded n w → IsBounded n (run n w es)
  unfolding run flush_filled flush_when
  run-IsBounded n w [] h = h
  run-IsBounded n w (received a ∷ es) h =
      run-IsBounded n (receive n a w) es (receive-IsBounded n a w h)
  run-IsBounded n w (ticked ∷ es) h =
      run-IsBounded n (flush_filled w) es (flush_when-IsBounded n w.buffer w refl h)
  run-IsBounded n w (closed ∷ es) h = flush_when-IsBounded n w.buffer w refl h
