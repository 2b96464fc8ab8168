-- ===== src/Api/Health.antt =====
-- health.rs and handlers/health.rs: the flags that the parts of the service raise, and the answers
-- of the two health routes.
use lmax_clob.Common.{ℕ, Bool, false, ◌&&◌, String, if◌then◌else◌}

pub record HealthState : Type 0 where
  pub engine_alive : Bool
  pub snapshot_loaded : Bool
  pub lease_healthy : Bool
  pub kafka_ready : Bool

-- `HealthState::new`
abbrev pub new_health : HealthState
new_health = record {
  engine_alive = false;
  snapshot_loaded = false;
  lease_healthy = false;
  kafka_ready = false;
}

abbrev pub is_ready : HealthState → Bool
is_ready h = h.engine_alive && (h.lease_healthy && h.kafka_ready)

abbrev pub is_live : HealthState → Bool
is_live h = h.engine_alive

-- The body that `healthz` answers with.
pub record HealthBody : Type 0 where
  pub ready : Bool
  pub db : Bool
  pub flags : HealthState

-- `health`: the status line and whether `SELECT 1` succeeded. Its code is always 200.
abbrev pub health : Bool → ℕ × String × Bool
health db_ok = (200, (if db_ok then "ok" else "degraded"), db_ok)

unfoldable pub healthz : Bool → HealthState → ℕ × HealthBody
healthz db_ok h =
    let ready = db_ok && (h.engine_alive && (h.lease_healthy && h.kafka_ready)) in
    ((if ready then 200 else 503), record { ready = ready; db = db_ok; flags = h })
