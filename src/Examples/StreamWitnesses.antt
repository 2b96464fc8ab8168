-- ===== src/Examples/StreamWitnesses.antt =====
-- The theorems on the loops of the service at short streams.
use lmax_clob.Common.{zero, ℕ, ◌≡◌, ◌<◌, ◌∷◌, [], List, some, none, true, arith, Option, suc}
use lmax_clob.Engine.Types.{Order}
use lmax_clob.Api.Fills.{
  Wake, received, ticked, closed, new_writer, taken, IsBounded, run-delivered, run-IsBounded,
}
use lmax_clob.Api.Consumer.{Delivery, broker_error, delivered, new_consumer}
use lmax_clob.Api.Consumer.Handled.{Handled, run-Handled}
use lmax_clob.Examples.Demo.{demo}
use lmax_clob.Examples.EngineRuns.{crossing_bid}
use lmax_clob.Api.Fills
use lmax_clob.Api.Consumer
use lmax_clob.Common.{All}
use lmax_clob.Api.Ingest.{
  StreamItem, update, status, IsPlaceable, run_ingestor, run_ingestor-IsPlaceable,
}
use lmax_clob.Api.Consumer.{start_offset}
use lmax_clob.Examples.Services.{plain_postcard, ready_server}

run-delivered_example :
    taken {A = ℕ}
      (Fills.run 2 new_writer (received 7 ∷ ticked ∷ received 8 ∷ received 9 ∷ closed ∷ []))
    ≡ 7 ∷ 8 ∷ 9 ∷ []
run-delivered_example =
    run-delivered 2 new_writer (received 7 ∷ ticked ∷ received 8 ∷ received 9 ∷ closed ∷ [])

one_below : ◌<◌ 0 2
one_below = omega arith

run-IsBounded_example :
    IsBounded {A = ℕ} 2 (Fills.run 2 new_writer (received 7 ∷ received 8 ∷ received 9 ∷ []))
run-IsBounded_example =
    run-IsBounded 2 new_writer (received 7 ∷ received 8 ∷ received 9 ∷ []) (one_below, tt)

abbrev decode_even : ℕ → Option Order
decode_even zero = some crossing_bid
decode_even (suc n) = none

abbrev stream : List (Delivery ℕ)
stream =
    delivered (record { offset = 4; payload = some 0 })
    ∷ broker_error
    ∷ delivered (record { offset = 5; payload = none })
    ∷ delivered (record { offset = 6; payload = some 1 })
    ∷ []

run-Handled_example :
    Handled decode_even
      (λ _. true)
      new_consumer
      (Consumer.run decode_even (λ _. true) new_consumer stream)
      stream
run-Handled_example = run-Handled decode_even (λ _. true) new_consumer stream

abbrev two_items : List StreamItem
two_items =
    update 1 (record { created_at = none })
    ∷ update 2 (record { created_at = some 7 })
    ∷ status
    ∷ []

run_ingestor-IsPlaceable_example : All IsPlaceable (run_ingestor 0 two_items)
run_ingestor-IsPlaceable_example = run_ingestor-IsPlaceable 0 two_items
