-- ===== src/Mock/Config.antt =====
-- config.rs of the mock: its settings, by environment variables.
use lmax_clob.Common.{
  ℕ, ◌^◌, ◌<◌, Bool, false, ◌||◌, String, Option, none, some, same_text, arith, Env, env_uint,
  env_uint_bound,
}

pub record Config : Type 0 where
  pub stream_rate_per_second : ℕ
  pub payload_size_bytes : ℕ
  pub simulate_disconnects : Bool
  pub disconnect_interval_s : ℕ
  pub port : ℕ

-- `matches!(v.to_lowercase().as_str(), "true" | "1" | "yes")`
abbrev is_yes : (String → String) → String → Bool
is_yes to_lowercase s =
    let v = to_lowercase s in same_text v "true" || same_text v "1" || same_text v "yes"

abbrev bool_or : (String → String) → Option String → Bool → Bool
bool_or to_lowercase none default = default
bool_or to_lowercase (some s) default = is_yes to_lowercase s

unfoldable pub env_bool : (String → String) → Env → String → Bool → Bool
env_bool to_lowercase env key default = bool_or to_lowercase (env key) default

abbrev env_u16 : Env → String → ℕ → ℕ
env_u16 env key default = env_uint 16 env key default

-- `usize` has 64 bits.
unfoldable pub from_env : (String → String) → Env → Config
from_env to_lowercase env = record {
  stream_rate_per_second = env_uint 64 env "STREAM_RATE_PER_SECOND" 1000;
  payload_size_bytes = env_uint 64 env "PAYLOAD_SIZE_BYTES" 512;
  simulate_disconnects = env_bool to_lowercase env "SIMULATE_DISCONNECTS" false;
  disconnect_interval_s = env_uint 64 env "DISCONNECT_INTERVAL_S" 30;
  port = env_u16 env "GRPC_PORT" 10000;
}

-- Every number fits its type.
pub record IsSized (c : Config) : Type 0 where
  pub rate : c.stream_rate_per_second < 2 ^ 64
  pub payload : c.payload_size_bytes < 2 ^ 64
  pub interval : c.disconnect_interval_s < 2 ^ 64
  pub port : c.port < 2 ^ 16

-- Whatever the variables hold, the settings can be read, and each number fits its type.
pub from_env-IsSized :
    (to_lowercase : String → String) (env : Env) → IsSized (from_env to_lowercase env)
unfolding from_env
from_env-IsSized to_lowercase env = record {
  rate = env_uint_bound 64 env _ 1000 (omega arith);
  payload = env_uint_bound 64 env _ 512 (omega arith);
  interval = env_uint_bound 64 env _ 30 (omega arith);
  port = env_uint_bound 16 env _ 10000 (omega arith);
}
