-- ===== src/Api/Leader.antt =====
-- leader.rs: `LeaderElector`. An attempt reads the lease, decides, and writes it back in a second
-- call to the API server. Times are microseconds since the epoch, as in `MicroTime`, and a lease
-- duration is a number of seconds, which Kubernetes keeps positive.
pub mod Safety
pub mod Elector
pub mod Cluster
pub mod Single
pub mod Takeover
use lmax_clob.Common.{
  ℕ, ◌+◌, ◌-◌, ◌/◌, ◌≡◌, ◌≢◌, Bool, true, false, ◌||◌, String, Option, none, some, ltb, same_text,
  unwrap_or, if◌then◌else◌,
}
use lmax_clob.Engine.Types.{Result, ok, err}

-- `LEASE_DURATION_SECS`
abbrev pub lease_duration_secs : ℕ
lease_duration_secs = 15

pub record LeaseSpec : Type 0 where
  pub holder_identity : Option String
  pub lease_duration_seconds : Option ℕ
  pub acquire_time : Option ℕ
  pub renew_time : Option ℕ
  pub lease_transitions : Option ℕ

pub record Lease : Type 0 where
  pub spec : Option LeaseSpec

abbrev pub empty_spec : LeaseSpec
empty_spec = record {
  holder_identity = none;
  lease_duration_seconds = none;
  acquire_time = none;
  renew_time = none;
  lease_transitions = none;
}

-- The fields of the merge patch that takes or renews a lease.
pub record LeasePatch : Type 0 where
  pub holder_identity : String
  pub lease_duration_seconds : ℕ
  pub renew_time : ℕ
  pub lease_transitions : ℕ

-- A merge patch writes its fields and keeps the others.
abbrev pub merge_patch : LeasePatch → Lease → Lease
merge_patch p l = record {
  spec = some (record (unwrap_or l.spec empty_spec) {
    holder_identity = some p.holder_identity;
    lease_duration_seconds = some p.lease_duration_seconds;
    renew_time = some p.renew_time;
    lease_transitions = some p.lease_transitions;
  });
}

-- The API server's calls on the lease `clob-leader`, with what Kubernetes promises of each.
pub record LeaseServer : Type 1 where
  pub State : Type 0
  pub KubeError : Type 0
  pub stored : State → Option Lease
  pub get_opt : State → Result KubeError (Option Lease)
  pub create : State → Lease → Result KubeError State
  pub patch : State → LeasePatch → Result KubeError State
  pub get_lem : (s : State) (l : Option Lease) → get_opt s ≡ ok l → l ≡ stored s
  pub create_lem :
      (s s' : State) (l : Lease) → create s l ≡ ok s' → (stored s ≡ none) × (stored s' ≡ some l)
  pub patch_lem :
      (s s' : State) (p : LeasePatch)
      → patch s p ≡ ok s'
      → (old : Lease) × (stored s ≡ some old) × (stored s' ≡ some (merge_patch p old))

-- What an attempt decides on the lease that it read.
pub data Plan : Type 0 where
  create_lease : Lease → Plan
  patch_lease : LeasePatch → Plan
  stand_by : Plan

abbrev holder : Option LeaseSpec → String
holder none = ""
holder (some s) = unwrap_or s.holder_identity ""

abbrev duration : Option LeaseSpec → ℕ
duration none = lease_duration_secs
duration (some s) = unwrap_or s.lease_duration_seconds lease_duration_secs

abbrev transitions : Option LeaseSpec → ℕ
transitions none = 0
transitions (some s) = unwrap_or s.lease_transitions 0

abbrev is_past : ℕ → ℕ → Option ℕ → Bool
is_past now secs none = true
is_past now secs (some t) = ltb secs ((now - t) / 1000000)

-- `renew_time` lies more whole seconds back than the lease lasts, or there is none.
abbrev pub is_expired : ℕ → Option LeaseSpec → Bool
is_expired now none = true
is_expired now (some s) = is_past now (duration (some s)) s.renew_time

abbrev pub we_hold : String → Option LeaseSpec → Bool
we_hold identity spec = same_text (holder spec) identity

unfoldable pub decide : String → ℕ → Option Lease → Plan
decide identity now none = Plan.create_lease (record {
  spec = some (record {
    holder_identity = some identity;
    lease_duration_seconds = some lease_duration_secs;
    acquire_time = some now;
    renew_time = some now;
    lease_transitions = some 0;
  });
})
decide identity now (some existing) =
    if we_hold identity existing.spec || is_expired now existing.spec
    then Plan.patch_lease (record {
      holder_identity = identity;
      lease_duration_seconds = lease_duration_secs;
      renew_time = now;
      lease_transitions =
          transitions existing.spec + (if we_hold identity existing.spec then 0 else 1);
    })
    else Plan.stand_by

module _ ⦃k : LeaseServer⦄ where
  abbrev pub written : Result k.KubeError k.State → Result k.KubeError (k.State × Bool)
  written (ok s) = ok (s, true)
  written (err x) = err x

  -- The write of a plan, on the state that the server is in by then.
  unfoldable pub carry_out : Plan → k.State → Result k.KubeError (k.State × Bool)
  carry_out (Plan.create_lease l) s = written (k.create s l)
  carry_out (Plan.patch_lease p) s = written (k.patch s p)
  carry_out Plan.stand_by s = ok (s, false)

  -- An attempt that no other call to the server comes between.
  unfoldable pub try_acquire_or_renew : String → ℕ → k.State → Result k.KubeError (k.State × Bool)
  try_acquire_or_renew identity now s = elim (k.get_opt s) [
    | ok l ↦ carry_out (decide identity now l) s
    | err x ↦ err x
  ]
