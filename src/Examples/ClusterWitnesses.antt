-- ===== src/Examples/ClusterWitnesses.antt =====
-- The theorems on several electors at concrete leases.
use lmax_clob.Common.{
  false, refl, ℕ, ◌≡◌, ◌≢◌, ◌+◌, ◌<◌, ◌∷◌, [], List, some, none, true, arith, String, ap, same_text,
  All,
}
use lmax_clob.Engine.Types.{ok}
use lmax_clob.Api.Health.{new_health}
use lmax_clob.Api.Leader.{Lease, try_acquire_or_renew, decide, carry_out}
use lmax_clob.Api.Leader.Safety.{HeldBy}
use lmax_clob.Api.Leader.Elector.{run_step}
use lmax_clob.Api.Leader.Cluster.{Cluster, new_cluster, tried, Reached, answered, started, moved}
use lmax_clob.Api.Leader.Single.{Leads, Reached-single}
use lmax_clob.Api.Leader.Takeover.{Attempts, no_more, carried, failed, Attempts-takeover}
use lmax_clob.Examples.Services.{ready_server}

abbrev lease_of : String → ℕ → ℕ → Lease
lease_of name since changes = record {
  spec = some (record {
    holder_identity = some name;
    lease_duration_seconds = some 15;
    acquire_time = none;
    renew_time = some since;
    lease_transitions = some changes;
  });
}

taken_run :
    try_acquire_or_renew "clob-1" 99000000 (some (lease_of "clob-0" 1000000 0))
    ≡ ok (some (lease_of "clob-1" 99000000 1), true)
unfolding try_acquire_or_renew carry_out decide
taken_run = refl

abbrev first_cluster : Cluster
first_cluster = new_cluster (some (lease_of "clob-0" 1000000 0)) 99000000 new_health

abbrev led_cluster : Cluster
led_cluster = tried "clob-1" (ok true) (some (lease_of "clob-1" 99000000 1)) first_cluster

led_cluster-Reached : Reached led_cluster
led_cluster-Reached =
    moved first_cluster led_cluster (started _ 99000000 new_health)
      (answered first_cluster "clob-1" _ true taken_run)

led_cluster-Leads : Leads led_cluster "clob-1"
unfolding run_step
led_cluster-Leads = refl

just_tried : led_cluster.now < led_cluster.attempted "clob-1" + 16000000
just_tried = omega arith

Reached-single_example : ◌≡◌ {A = String} "clob-1" "clob-1"
Reached-single_example =
    Reached-single led_cluster "clob-1" "clob-1" led_cluster-Reached led_cluster-Leads
      led_cluster-Leads just_tried just_tried

abbrev earlier_tries : List (String × ℕ)
earlier_tries = ("clob-1", 9000000) ∷ ("clob-2", 12000000) ∷ []

others : All (λ (x : String × ℕ). x.0 ≢ "clob-0") earlier_tries
others =
    (λ e. cc (ap (λ s. same_text s "clob-1") e), (λ e. cc (ap (λ s. same_text s "clob-2") e), tt))

refused_run :
    try_acquire_or_renew "clob-1" 9000000 (some (lease_of "clob-0" 1000000 0))
    ≡ ok (some (lease_of "clob-0" 1000000 0), false)
unfolding try_acquire_or_renew carry_out decide
refused_run = refl

-- The first is refused, and the call of the second fails.
earlier_Attempts :
    Attempts earlier_tries (some (lease_of "clob-0" 1000000 0)) (some (lease_of "clob-0" 1000000 0))
earlier_Attempts =
    carried ("clob-1", 9000000) _ _ _ _ false refused_run
      (failed ("clob-2", 12000000) [] _ _ (no_more _))

late_run :
    try_acquire_or_renew "clob-2" 17000000 (some (lease_of "clob-0" 1000000 0))
    ≡ ok (some (lease_of "clob-2" 17000000 1), true)
unfolding try_acquire_or_renew carry_out decide
late_run = refl

Attempts-takeover_example :
    ((j : String) × (t : ℕ) × HeldBy j t (some (lease_of "clob-2" 17000000 1)) × (j ≢ "clob-0"))
    × (true ≡ true → HeldBy "clob-2" 17000000 (some (lease_of "clob-2" 17000000 1)))
Attempts-takeover_example =
    Attempts-takeover "clob-0" "clob-2" 1000000 17000000 earlier_tries
      (some (lease_of "clob-0" 1000000 0)) (some (lease_of "clob-0" 1000000 0))
      (some (lease_of "clob-2" 17000000 1)) true (_, refl, refl, refl, refl) others earlier_Attempts
      (λ e. cc (ap (λ s. same_text s "clob-2") e)) (omega arith) late_run
