-- ===== src/Mock/Server.antt =====
-- server.rs and generator.rs of the mock: the task behind `subscribe`, and the other calls.
use lmax_clob.Common.{
  ℕ, ◌*◌, ◌/◌, Bool, true, false, String, Option, none, some, List, [], ◌∷◌, leb, ◌==◌,
  if◌then◌else◌,
}
use lmax_clob.Engine.Types.{Result, ok, err}
use lmax_clob.Mock.Config.{Config}

-- The fields of an update that the mock sets.
pub record Update : Type 0 where
  pub filters : List String
  pub created_at : Option ℕ
  pub signature : List ℕ
  pub is_vote : Bool
  pub index : ℕ
  pub slot : ℕ

-- What the random generator yields for an update.
pub record Drawn : Type 0 where
  pub signature : List ℕ
  pub index : ℕ
  pub slot : ℕ

-- The payload size is not looked at.
abbrev pub generate_update : ℕ → Drawn → Update
generate_update payload_size_bytes d = record {
  filters = "orders" ∷ [];
  created_at = none;
  signature = d.signature;
  is_vote = false;
  index = d.index;
  slot = d.slot;
}

-- `1_000_000_000u64.checked_div(rate).unwrap_or(1_000_000)`
unfoldable pub interval_ns : ℕ → ℕ
interval_ns rate = if rate == 0 then 1000000 else 1000000000 / rate

-- In nanoseconds, as the clock.
unfoldable pub disconnect_after : Config → Option ℕ
disconnect_after c =
    if c.simulate_disconnects then some (c.disconnect_interval_s * 1000000000) else none

-- One round of the loop: the time since the start, whether the client still takes an update, and
-- the update drawn.
pub record Turn : Type 0 where
  pub elapsed : ℕ
  pub takes : Bool
  pub drawn : Drawn

abbrev pub is_over : Option ℕ → ℕ → Bool
is_over none elapsed = false
is_over (some limit) elapsed = leb limit elapsed

-- The updates sent, and whether the task has ended, over the rounds that there is time for.
unfoldable pub stream : Config → List Turn → List Update × Bool
stream c [] = ([], false)
stream c (t ∷ ts) =
    let rest = stream c ts in
    if is_over (disconnect_after c) t.elapsed
    then ([], true)
    else if t.takes
    then (generate_update c.payload_size_bytes t.drawn ∷ rest.0, rest.1)
    else ([], true)

-- The calls beside `subscribe`.
pub data Call : Type 0 where
  ping : ℕ → Call
  get_latest_blockhash get_block_height get_slot is_blockhash_valid get_version : Call
  subscribe_replay_info subscribe_deshred : Call

-- A pong with the count of the ping, or the status `unimplemented`.
abbrev pub answer : Call → Result String ℕ
answer (ping n) = ok n
answer _ = err "not implemented"
