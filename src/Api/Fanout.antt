-- ===== src/Api/Fanout.antt =====
-- main.rs: the tasks of `run_leader` that hand the fills and the best prices on. Failures of the
-- broker and of the caches are only logged.
use lmax_clob.Common.{
  ◌≡◌, refl, ◌∙◌, Bool, true, Option, List, [], ◌∷◌, ◌++◌, append_assoc, append-nil, String,
  if◌then◌else◌,
}
use lmax_clob.Crates.{Crates}
use lmax_clob.Api.Threads.{BookUpdate}

-- What `try_recv` gives.
pub data Poll {ℓ} (A : Type ℓ) : Type ℓ where
  got : A → Poll A
  empty disconnected : Poll A

-- Where the fills have gone: to the websockets, to Kafka, to the cache and to the fill writer.
pub record Fanout (B : Type 0) : Type 0 where
  pub broadcast : List B
  pub published : List B
  pub cached : List B
  pub stored : List B

module _ {A : Type 0} where
  abbrev pub new_fanout : Fanout A
  new_fanout = record { broadcast = []; published = []; cached = []; stored = [] }

  abbrev pub hand_on : A → Fanout A → Fanout A
  hand_on a w = record w {
    broadcast = w.broadcast ++ a ∷ [];
    published = w.published ++ a ∷ [];
    cached = w.cached ++ a ∷ [];
  }

  -- The loop over the fill channel. `is_open` tells from the fills already stored whether the
  -- writer's channel still takes the next one; where it does not, the loop ends.
  unfoldable pub fan_out : (List A → Bool) → Fanout A → List (Poll A) → Fanout A
  fan_out is_open w [] = w
  fan_out is_open w (got a ∷ ps) =
      let w' = hand_on a w in
      let rest = fan_out is_open (record w' { stored = w.stored ++ a ∷ [] }) ps in
      if is_open w.stored then rest else w'
  fan_out is_open w (empty ∷ ps) = fan_out is_open w ps
  fan_out is_open w (disconnected ∷ ps) = w

  -- What the fill channel yields before it disconnects.
  abbrev pub polled : List (Poll A) → List A
  polled [] = []
  polled (got a ∷ ps) = a ∷ polled ps
  polled (empty ∷ ps) = polled ps
  polled (disconnected ∷ ps) = []

  everywhere :
      (w : Fanout A)
      → w ≡ record {
        broadcast = w.broadcast ++ [];
        published = w.published ++ [];
        cached = w.cached ++ [];
        stored = w.stored ++ [];
      }
  everywhere w =
      rw (append-nil w.broadcast, append-nil w.published, append-nil w.cached, append-nil w.stored)
        refl

  -- While the writer's channel is open, each fill goes once and in order to the websockets, to
  -- Kafka, to the cache and to the fill writer.
  pub fan_out-polled :
      (w : Fanout A) (ps : List (Poll A))
      → fan_out (λ _. true) w ps ≡ record {
        broadcast = w.broadcast ++ polled ps;
        published = w.published ++ polled ps;
        cached = w.cached ++ polled ps;
        stored = w.stored ++ polled ps;
      }
  unfolding fan_out
  fan_out-polled w [] = everywhere w
  fan_out-polled w (got a ∷ ps) =
      fan_out-polled (record (hand_on a w) { stored = w.stored ++ a ∷ [] }) ps
      ∙ rw (
        append_assoc w.broadcast (a ∷ []) (polled ps),
        append_assoc w.published (a ∷ []) (polled ps),
        append_assoc w.cached (a ∷ []) (polled ps),
        append_assoc w.stored (a ∷ []) (polled ps),
      )
  fan_out-polled w (empty ∷ ps) = fan_out-polled w ps
  fan_out-polled w (disconnected ∷ ps) = everywhere w

module _ ⦃c : Crates⦄ where
  -- The loop over the book channel: what `set_best_bid_ask` is given.
  unfoldable pub cache_book : List (Poll BookUpdate) → List (String × Option c.Num × Option c.Num)
  cache_book [] = []
  cache_book (got u ∷ ps) = (u.market_id, u.best_bid, u.best_ask) ∷ cache_book ps
  cache_book (empty ∷ ps) = cache_book ps
  cache_book (disconnected ∷ ps) = []
