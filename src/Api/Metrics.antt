-- ===== src/Api/Metrics.antt =====
-- metrics.rs and middleware/metrics.rs: the metrics that are described at the start, and the sample
-- that the middleware takes of each request.
use lmax_clob.Common.{ℕ, String, List, [], ◌∷◌}
use lmax_clob.Engine.Types.{Result, ok, err}

pub data MetricKind : Type 0 where
  counter gauge histogram : MetricKind

-- `metrics::Unit`
pub data MetricUnit : Type 0 where
  nanoseconds count bytes : MetricUnit

pub record Description : Type 0 where
  pub kind : MetricKind
  pub name : String
  pub unit : MetricUnit
  pub text : String

abbrev pub matching_latency_ns : String
matching_latency_ns = "matching_latency_ns"

abbrev pub kafka_consumer_lag : String
kafka_consumer_lag = "kafka_consumer_lag"

abbrev pub fills_per_second : String
fills_per_second = "fills_total"

abbrev pub snapshot_size_bytes : String
snapshot_size_bytes = "snapshot_size_bytes"

abbrev pub db_write_batch_size : String
db_write_batch_size = "db_write_batch_size"

abbrev pub ws_client_count : String
ws_client_count = "ws_client_count"

abbrev pub http_request_latency : String
http_request_latency = "http_request_duration_ns"

abbrev pub engine_channel_depth : String
engine_channel_depth = "engine_channel_depth"

abbrev pub kafka_produce_latency_ns : String
kafka_produce_latency_ns = "kafka_produce_latency_ns"

abbrev pub db_write_latency_ns : String
db_write_latency_ns = "db_write_latency_ns"

abbrev pub snapshot_write_latency_ns : String
snapshot_write_latency_ns = "snapshot_write_latency_ns"

abbrev describe : MetricKind → String → MetricUnit → String → Description
describe kind name unit text = record { kind = kind; name = name; unit = unit; text = text }

abbrev pub register_all : List Description
register_all =
    describe MetricKind.histogram matching_latency_ns MetricUnit.nanoseconds
      "Time to process one order through the matching engine"
    ∷ describe MetricKind.gauge kafka_consumer_lag MetricUnit.count
        "Kafka consumer lag on orders-in topic"
    ∷ describe MetricKind.counter fills_per_second MetricUnit.count
        "Total fills produced by the matching engine"
    ∷ describe MetricKind.histogram snapshot_size_bytes MetricUnit.bytes
        "Size of serialized book snapshot"
    ∷ describe MetricKind.histogram db_write_batch_size MetricUnit.count
        "Number of fills in each DB batch insert"
    ∷ describe MetricKind.gauge ws_client_count MetricUnit.count
        "Number of connected WebSocket clients"
    ∷ describe MetricKind.histogram http_request_latency MetricUnit.nanoseconds
        "HTTP request duration per endpoint"
    ∷ describe MetricKind.gauge engine_channel_depth MetricUnit.count
        "Current depth of the order channel into the matching engine"
    ∷ describe MetricKind.histogram kafka_produce_latency_ns MetricUnit.nanoseconds
        "Kafka producer send latency per message"
    ∷ describe MetricKind.histogram db_write_latency_ns MetricUnit.nanoseconds
        "Time to execute one fill batch insert into Postgres"
    ∷ describe MetricKind.histogram snapshot_write_latency_ns MetricUnit.nanoseconds
        "Time to serialize and persist one book snapshot to Postgres"
    ∷ []

-- `ServiceRequest` and `ServiceResponse`, as far as the middleware looks at them.
pub record ServiceRequest : Type 0 where
  pub path : String
  pub method : String

pub record ServiceResponse (B : Type 0) : Type 0 where
  pub status : ℕ
  pub body : B

-- One value of a histogram, under its labels.
pub record Sample : Type 0 where
  pub name : String
  pub labels : List (String × String)
  pub value : ℕ

abbrev pub latency_sample : (ℕ → String) → ServiceRequest → ℕ → ℕ → Sample
latency_sample status_text req status elapsed = record {
  name = http_request_latency;
  labels = ("path", req.path) ∷ ("method", req.method) ∷ ("status", status_text status) ∷ [];
  value = elapsed;
}

module _ {E B : Type 0} (status_text : ℕ → String) where
  answered :
      ServiceRequest → ℕ → Result E (ServiceResponse B) → Result E (ServiceResponse B) × List Sample
  answered req elapsed (ok res) = (ok res, latency_sample status_text req res.status elapsed ∷ [])
  answered req elapsed (err e) = (err e, [])

  -- `call`: the answer of the service behind the middleware after `elapsed` nanoseconds, and what is
  -- recorded.
  unfoldable pub call :
      (ServiceRequest → Result E (ServiceResponse B))
      → ℕ
      → ServiceRequest
      → Result E (ServiceResponse B) × List Sample
  unfolding answered
  call service elapsed req = answered req elapsed (service req)
