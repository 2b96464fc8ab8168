-- ===== src/Examples/PipelineWitnesses.antt =====
-- The way of the orders through the topic at concrete orders.
use lmax_clob.Common.{Bool, refl, arith, String, ℕ, ◌≡◌, ◌∷◌, [], List, some}
use lmax_clob.Common.{ℕ, Bool, false, true, take}
use lmax_clob.Engine.Types.{Fill, ok}
use lmax_clob.Engine.Matching.{MatchingEngine, new_engine}
use lmax_clob.Engine.Market.Reachable.{Reachable}
use lmax_clob.Api.Consumer.{consume}
use lmax_clob.Api.Health.{new_health}
use lmax_clob.Api.Leader.Elector.{new_elector}
use lmax_clob.Api.Modes.{Happening, attempted, looked}
use lmax_clob.Api.Standby.{Wait, ready, timed_out, Followed, run_standby}
use lmax_clob.Api.Standby.Same.{run_standby-run_thread}
use lmax_clob.Api.Threads.{
  Thread, start_thread, start_follower, run_thread, restore_engine, thread_market_id,
}
use lmax_clob.Api.Threads.Replicas.{Runs}
use lmax_clob.Api.Threads.Total.{IsAcceptable-Runs}
use lmax_clob.Examples.Services.{Outage}
use lmax_clob.Engine.Types.{Order}
use lmax_clob.Api.Consumer.{new_consumer}
use lmax_clob.Api.Consumer
use lmax_clob.Api.Producers.{Published, to_record}
use lmax_clob.Api.Consumer.{topic_orders_in}
use lmax_clob.Engine.Types.{Side, bid, ask, is_complete}
use lmax_clob.Engine.Refine.Models.{IsAcceptable}
use lmax_clob.Common.{All, none, ◌≢◌}
use lmax_clob.Api.Consumer.{Delivery, broker_error, delivered, orders}
use lmax_clob.Api.Consumer.Open.{all_open}
use lmax_clob.Common.{Env, env_uint_default}
use lmax_clob.Api.Settings.{read_thread_settings}
use lmax_clob.Api.Service.{Served, run_leader}
use lmax_clob.Api.Service.Delivered.{IsDone, run_leader-IsDone}
use lmax_clob.Examples.EngineRuns.{limit_order}
use lmax_clob.Examples.Services.{plain_postcard}
use lmax_clob.Examples.Demo.{demo}
use lmax_clob.Examples.EngineRuns.{resting_ask, crossing_bid}

-- A broker that takes all, and orders that are their own bytes.
abbrev sends : List Order
sends = resting_ask ∷ crossing_bid ∷ []

abbrev key_of : ℕ → String
key_of id = "key"

-- The broker keeps the second order first, and keeps it twice.
abbrev kept_records : List (Published Order)
kept_records =
    to_record topic_orders_in "key" crossing_bid
    ∷ to_record topic_orders_in "key" resting_ask
    ∷ to_record topic_orders_in "key" crossing_bid
    ∷ []

abbrev messages : List (Delivery Order)
messages =
    delivered (record { offset = 7; payload = some resting_ask })
    ∷ broker_error
    ∷ delivered (record { offset = 8; payload = none })
    ∷ delivered (record { offset = 9; payload = some crossing_bid })
    ∷ []

-- No variable is set.
abbrev unset : Env
unset key = none

default_period : (read_thread_settings unset).snapshot_every ≢ 0
default_period e = absurd (omega (arith, e, env_uint_default 64 unset "SNAPSHOT_EVERY" 10000 refl))

stamped-IsAcceptable :
    (id : ℕ) (side : Side) (p q n : ℕ)
    → IsAcceptable (record (limit_order id side p q) { sequence = n })
unfolding is_complete
stamped-IsAcceptable id side p q n = record {
  fillable = record {
    quantity_grid = omega arith;
    filled_grid = omega arith;
    not_negative = omega arith;
    within = omega arith;
  };
  incomplete = refl;
}

messages-IsAcceptable : All IsAcceptable (orders (λ (o : Order). some o) all_open messages)
messages-IsAcceptable =
    (stamped-IsAcceptable 1 ask 200 5 7, (stamped-IsAcceptable 3 bid 210 3 9, tt))

run_leader-IsDone_example :
    (w : Served (λ (o : Order). some o)) × (run_leader (λ (o : Order). some o) unset none messages
      ≡ some w)
    × IsDone (λ (o : Order). some o) messages w
run_leader-IsDone_example =
    run_leader-IsDone (λ o. some o) unset messages default_period messages-IsAcceptable

abbrev happenings : List (Happening Outage)
happenings = looked ∷ attempted (ok true) ∷ looked ∷ []

two_not_zero : ◌≢◌ {A = ℕ} 2 0
two_not_zero e = absurd (omega (arith, e))

-- The thread takes one order, waits, takes the other, and sees that it leads.
abbrev rounds : List (Bool × Wait)
rounds = (false, ready) ∷ (false, timed_out) ∷ (false, ready) ∷ (true, ready) ∷ []

abbrev sent_orders : List Order
sent_orders = orders (λ (o : Order). some o) all_open messages

abbrev sent_Runs :
    (e' : MatchingEngine) × (fs : List Fill) × Runs (new_engine thread_market_id) sent_orders e' fs
    × Reachable e'
sent_Runs =
    IsAcceptable-Runs (new_engine thread_market_id) sent_orders (Reachable.started thread_market_id)
      messages-IsAcceptable

standby_Runs :
    Runs
      (start_follower none).engine
      (Consumer.run (λ (o : Order). some o) all_open new_consumer messages).sent
      sent_Runs.0
      sent_Runs.1
unfolding start_follower restore_engine Consumer.run consume
standby_Runs = sent_Runs.2

run_standby-run_thread_example :
    (w : Followed (λ (o : Order). some o)) × (t : Thread) × (run_standby
        (λ (o : Order). some o)
        all_open
        none
        messages
        rounds
        (new_elector new_health)
        happenings
      ≡ some w)
    × (run_thread
          (λ _. true)
          2
          (start_thread none)
          (take 2 (Consumer.run (λ (o : Order). some o) all_open new_consumer messages).sent)
        ≡ some t)
    × (w.follower.engine ≡ t.engine)
    × (w.returned ≡ true)
unfolding Consumer.run consume
run_standby-run_thread_example =
    run_standby-run_thread (λ o. some o) 2 all_open none messages rounds (new_elector new_health)
      happenings sent_Runs.0 sent_Runs.1 two_not_zero standby_Runs
