-- ===== src/Examples/ServiceWitnesses.antt =====
-- The theorems on the mock, on the market routes and on the modes of main.rs at concrete input.
use mathlib.Core.List.{Perm}
use lmax_clob.Common.{
  refl, ℕ, suc, ◌≡◌, ◌≢◌, ◌≤◌, ◌<◌, ◌+◌, ◌*◌, ◌++◌, [], ◌∷◌, List, Any, length, some, true, false,
  arith,
}
use lmax_clob.Engine.Types.{ok}
use lmax_clob.Api.Health.{new_health}
use lmax_clob.Api.Leader.Elector.{new_elector, run_step}
use lmax_clob.Api.Markets.{
  Trade, get_trades, query_trades, IsDescending, IsAbove, get_trades-latest,
}
use lmax_clob.Api.Modes.{
  Happening, attempted, looked, await_promotion, IsWon, await_promotion-IsWon,
}
use lmax_clob.Mock.Config.{Config}
use lmax_clob.Mock.Server.{Turn, stream, interval_ns, disconnect_after}
use lmax_clob.Mock.Rate.{IsPaced, stream_bounded}
use lmax_clob.Examples.Demo.{demo}
use lmax_clob.Examples.Services.{Outage}

-- Four updates a second, and a disconnect after one.
abbrev slow_config : Config
slow_config = record {
  stream_rate_per_second = 4;
  payload_size_bytes = 512;
  simulate_disconnects = true;
  disconnect_interval_s = 1;
  port = 10000;
}

abbrev turn_at : ℕ → Turn
turn_at n = record {
  elapsed = n;
  takes = true;
  drawn = record { signature = []; index = n; slot = 7 };
}

abbrev turns : List Turn
turns = turn_at 0 ∷ turn_at 250000000 ∷ turn_at 510000000 ∷ turn_at 1000000000 ∷ []

turns-IsPaced : IsPaced (interval_ns 4) 0 turns
unfolding interval_ns
turns-IsPaced = (omega arith, (omega arith, (omega arith, (omega arith, tt))))

three_sent : length (stream slow_config turns).0 ≡ suc 2
unfolding stream disconnect_after
three_sent = refl

four_a_second : ◌≢◌ {A = ℕ} 4 0
four_a_second e = absurd (omega (arith, e))

stream_bounded_example :
    (2 * interval_ns 4 < 1 * 1000000000)
    × (interval_ns 4 * 4 ≤ 1000000000)
    × (1000000000 < interval_ns 4 * 4 + 4)
stream_bounded_example =
    stream_bounded slow_config 2 turns refl four_a_second turns-IsPaced three_sent

abbrev trade : ℕ → Trade
trade n = record { id = n; price = 200; quantity = 103; sequence = (false, n) }

abbrev two_trades : List Trade
two_trades = trade 2 ∷ trade 1 ∷ []

abbrev stored_trades : List Trade
stored_trades = trade 1 ∷ trade 2 ∷ []

get_trades-latest_example :
    IsDescending two_trades
    × (length two_trades ≤ 50)
    × ((hidden : List Trade) × Perm (two_trades ++ hidden) stored_trades
        × IsAbove two_trades hidden
        × (length two_trades < 50 → hidden ≡ []))
unfolding get_trades query_trades
get_trades-latest_example = get_trades-latest Outage stored_trades "SOL/USDC"

abbrev happenings : List (Happening Outage)
happenings = looked ∷ attempted (ok false) ∷ attempted (ok true) ∷ looked ∷ []

promoted : await_promotion (new_elector new_health) happenings ≡ some 0
unfolding await_promotion run_step
promoted = refl

await_promotion-IsWon_example : (◌≡◌ {A = ℕ} 0 0) × Any IsWon happenings
await_promotion-IsWon_example =
    await_promotion-IsWon (new_elector new_health) happenings 0 (refl, refl) promoted
