-- ===== src/Examples/LeaseWitnesses.antt =====
-- The theorems on leases and leaders at concrete leases.
use lmax_clob.Common.{
  refl, ℕ, ◌≡◌, ◌≢◌, ◌<◌, ◌-◌, ◌∷◌, [], List, some, none, true, false, arith, String, ap, Bool,
  same_text,
}
use lmax_clob.Engine.Types.{ok, err, Result}
use lmax_clob.Api.Health.{healthz, new_health}
use lmax_clob.Api.Leader.{Lease, decide, carry_out, try_acquire_or_renew}
use lmax_clob.Api.Leader.Safety.{
  HeldBy, Settled, try_acquire_or_renew_excluded, try_acquire_or_renew-Settled,
}
use lmax_clob.Api.Leader.Elector.{new_elector, run_follower-healthz, run_leads}
use lmax_clob.Examples.Demo.{demo}
use lmax_clob.Api.Leader.Elector
use lmax_clob.Examples.Services.{Outage, unreachable, plain_postcard, ready_server}

abbrev lease_of : String → ℕ → Lease
lease_of name since = record {
  spec = some (record {
    holder_identity = some name;
    lease_duration_seconds = some 15;
    acquire_time = none;
    renew_time = some since;
    lease_transitions = some 0;
  });
}

lease_held : HeldBy "clob-0" 1000000 (some (lease_of "clob-0" 1000000))
lease_held = (_, refl, refl, refl, refl)

other_name : ◌≢◌ {A = String} "clob-0" "clob-1"
other_name e = cc (ap (λ s. same_text s "clob-1") e)

in_time : 9000000 - 1000000 < 16000000
in_time = omega arith

excluded_run :
    try_acquire_or_renew "clob-1" 9000000 (some (lease_of "clob-0" 1000000))
    ≡ ok (some (lease_of "clob-0" 1000000), false)
unfolding try_acquire_or_renew carry_out decide
excluded_run = refl

try_acquire_or_renew_excluded_example :
    (false ≡ false) × (some (lease_of "clob-0" 1000000) ≡ some (lease_of "clob-0" 1000000))
try_acquire_or_renew_excluded_example =
    try_acquire_or_renew_excluded "clob-0" "clob-1" 9000000 1000000
      (some (lease_of "clob-0" 1000000)) (some (lease_of "clob-0" 1000000)) false lease_held
      other_name in_time excluded_run

try_acquire_or_renew-Settled_example :
    Settled "clob-1" 9000000
      (some (lease_of "clob-0" 1000000))
      (some (lease_of "clob-0" 1000000))
      false
try_acquire_or_renew-Settled_example =
    try_acquire_or_renew-Settled "clob-1" 9000000 (some (lease_of "clob-0" 1000000))
      (some (lease_of "clob-0" 1000000)) false excluded_run

abbrev refusals : List (Result Outage Bool)
refusals = ok false ∷ err unreachable ∷ ok false ∷ []

refusal : ◌≢◌ {A = Result Outage Bool} (ok false) (ok true)
refusal e = cc e

failure : ◌≢◌ {A = Result Outage Bool} (err unreachable) (ok true)
failure e = cc e

run_follower-healthz_example :
    (healthz true (record (Elector.run (new_elector new_health) refusals).health {
      engine_alive = true;
      snapshot_loaded = true;
      kafka_ready = true;
    })).0
    ≡ 503
run_follower-healthz_example =
    run_follower-healthz new_health refusals true true true true refl
      (refusal, (failure, (refusal, tt)))
