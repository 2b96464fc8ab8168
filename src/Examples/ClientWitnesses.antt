-- ===== src/Examples/ClientWitnesses.antt =====
-- The theorems on websocket clients at a short stream of fills.
use lmax_clob.Common.{◌≡◌, ◌≤◌, ◌+◌, refl, true, List, [], ◌∷◌, ◌++◌, map, String, length, arith}
use lmax_clob.Api.Broadcast.{new_broadcast, fill_message, channel_capacity}
use lmax_clob.Api.Clients.{SendResult, Counted, serve}
use lmax_clob.Api.Clients.Served.{Happening, published, polled, pinged, connect, run}
use lmax_clob.Api.Clients.Served.Prefix.{run-connect}
use lmax_clob.Api.Clients.Served.Drained.{polls, run-drained}
use lmax_clob.Examples.Demo.{demo}
use lmax_clob.Examples.EngineRuns.{first_fill}
use lmax_clob.Examples.Channels.{text_channel, plain_texts}

abbrev slow_client : List Happening
slow_client =
    published first_fill
    ∷ polled SendResult.sent
    ∷ published first_fill
    ∷ polled SendResult.timed_out
    ∷ published first_fill
    ∷ []

run-connect_example :
    (unread : List String) × ((run plain_texts (connect new_broadcast) slow_client).client.texts
        ++ unread
      ≡ map (fill_message plain_texts) (first_fill ∷ first_fill ∷ first_fill ∷ []))
    × Counted (
      (run plain_texts (connect new_broadcast) slow_client).client,
      (run plain_texts (connect new_broadcast) slow_client).is_running,
    )
run-connect_example = run-connect plain_texts new_broadcast slow_client

abbrev live_client : List Happening
live_client =
    published first_fill ∷ polled SendResult.sent ∷ pinged true ∷ published first_fill ∷ []

live_client-running : (run plain_texts (connect new_broadcast) live_client).is_running ≡ true
unfolding run connect serve
live_client-running = refl

live_client-behind :
    length (run plain_texts (connect new_broadcast) live_client).client.texts + 1 ≡ 2
unfolding run connect serve
live_client-behind = refl

wide_channel : channel_capacity ≤ text_channel.capacity new_broadcast.tx
wide_channel = omega arith

one_unread : 1 ≤ channel_capacity
one_unread = omega arith

run-drained_example :
    ((run plain_texts (run plain_texts (connect new_broadcast) live_client) (polls 1)).is_running
      ≡ true)
    × ((run plain_texts
          (run plain_texts (connect new_broadcast) live_client)
          (polls 1)).client.texts
        ≡ map (fill_message plain_texts) (first_fill ∷ first_fill ∷ []))
run-drained_example =
    run-drained plain_texts new_broadcast live_client 1 wide_channel live_client-running
      live_client-behind one_unread
