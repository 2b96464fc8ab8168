-- ===== src/Api/Leader/Elector.antt =====
-- leader.rs: the loop of `LeaderElector::run`, one step for the result of each attempt.
use lmax_clob.Common.{
  ◌≡◌, ◌≢◌, refl, Bool, true, false, String, List, [], ◌∷◌, ◌++◌, All, arith, if◌then◌else◌,
}
use lmax_clob.Engine.Types.{Result, ok, err}
use lmax_clob.Api.Health.{HealthState, healthz}

-- The elector's flag, the flags that it shares, and the roles that it has labelled its pod with.
pub record Elector : Type 0 where
  pub is_leader : Bool
  pub health : HealthState
  pub labels : List String

-- `LeaderElector::new`
abbrev pub new_elector : HealthState → Elector
new_elector h = record { is_leader = false; health = h; labels = [] }

become_leader : Elector → Elector
become_leader e = record {
  is_leader = true;
  health = record e.health { lease_healthy = true };
  labels = e.labels ++ "leader" ∷ [];
}

lose_lease : Elector → Elector
lose_lease e = record {
  is_leader = false;
  health = record e.health { lease_healthy = false };
  labels = e.labels ++ "follower" ∷ [];
}

unfoldable pub run_step {ℓ} : {KubeError : Type ℓ} → Elector → Result KubeError Bool → Elector
unfolding become_leader lose_lease
run_step e (ok true) = if e.is_leader then e else become_leader e
run_step e (ok false) = if e.is_leader then lose_lease e else e
run_step e (err x) = record e { is_leader = false }

abbrev pub NotLeading : Elector → Type 0
NotLeading e = (e.is_leader ≡ false) × (e.health.lease_healthy ≡ false)

healthz-lease : (db : Bool) (h : HealthState) → h.lease_healthy ≡ false → (healthz db h).0 ≡ 503
unfolding healthz
healthz-lease db h e = ground arith

module _ {ℓ} {KubeError : Type ℓ} where
  abbrev pub run : Elector → List (Result KubeError Bool) → Elector
  run e [] = e
  run e (r ∷ rs) = run (run_step e r) rs

  run_step_sound :
      (e : Elector) (r : Result KubeError Bool)
      → (e.is_leader ≡ true → e.health.lease_healthy ≡ true)
      → (run_step e r).is_leader ≡ true
      → (run_step e r).health.lease_healthy ≡ true
  unfolding run_step
  run_step_sound e (ok true) h l = ground arith
  run_step_sound e (ok false) h l = ground arith
  run_step_sound e (err x) h l = absurd cc

  pub run_leads :
      (e : Elector) (rs : List (Result KubeError Bool))
      → (e.is_leader ≡ true → e.health.lease_healthy ≡ true)
      → (run e rs).is_leader ≡ true
      → (run e rs).health.lease_healthy ≡ true
  run_leads e [] h l = h l
  run_leads e (r ∷ rs) h l = run_leads (run_step e r) rs (run_step_sound e r h) l

  pub run_step-follower :
      (e : Elector) (r : Result KubeError Bool)
      → r ≢ ok true
      → NotLeading e
      → NotLeading (run_step e r)
  unfolding run_step
  run_step-follower e (ok true) n h = absurd (n refl)
  run_step-follower e (ok false) n h = ground arith
  run_step-follower e (err x) n h = (refl, h.1)

  run-follower :
      (e : Elector) (rs : List (Result KubeError Bool))
      → All (λ r. r ≢ ok true) rs
      → NotLeading e
      → NotLeading (run e rs)
  run-follower e [] n h = h
  run-follower e (r ∷ rs) n h = run-follower (run_step e r) rs n.1 (run_step-follower e r n.0 h)

  -- A pod that never holds the lease is never ready: however the other flags stand, healthz
  -- answers 503 as long as the lease flag was down at the start and no attempt has succeeded.
  pub run_follower-healthz :
      (h : HealthState) (rs : List (Result KubeError Bool)) (db alive loaded kafka : Bool)
      → h.lease_healthy ≡ false
      → All (λ r. r ≢ ok true) rs
      → (healthz db (record (run (new_elector h) rs).health {
        engine_alive = alive;
        snapshot_loaded = loaded;
        kafka_ready = kafka;
      })).0
        ≡ 503
  run_follower-healthz h rs db alive loaded kafka low never =
      healthz-lease db _ (run-follower (new_elector h) rs never (refl, low)).1
