-- ===== src/Api/Kafka.antt =====
-- The clients of kafka/: the options with which they are created, and the lag that the consumer
-- samples.
use lmax_clob.Common.{
  ℕ, ◌+◌, ◌-◌, ◌%◌, ◌==◌, String, Option, none, some, List, [], ◌∷◌, Env, if◌then◌else◌,
}
use lmax_clob.Api.Settings.{ProducerSettings, read_producer_settings}

abbrev pub ClientConfig : Type 0
ClientConfig = List (String × String)

-- `KafkaConsumer::new`; `create` is the broker library's, `none` where it fails.
abbrev pub consumer_config : String → String → ClientConfig
consumer_config brokers group_id =
    ("bootstrap.servers", brokers)
    ∷ ("group.id", group_id)
    ∷ ("enable.auto.commit", "false")
    ∷ ("auto.offset.reset", "earliest")
    ∷ ("fetch.min.bytes", "1")
    ∷ ("fetch.wait.max.ms", "5")
    ∷ []

abbrev producer_options : String → ProducerSettings → ClientConfig
producer_options brokers s =
    ("bootstrap.servers", brokers)
    ∷ ("message.timeout.ms", "5000")
    ∷ ("queue.buffering.max.messages", "100000")
    ∷ ("queue.buffering.max.ms", s.linger_ms)
    ∷ ("batch.num.messages", s.batch_num)
    ∷ ("batch.size", s.batch_size)
    ∷ []

-- `KafkaProducer::new`
abbrev pub producer_config : Env → String → ClientConfig
producer_config env brokers = producer_options brokers (read_producer_settings env)

-- `FillPublisher::new`
abbrev pub publisher_config : String → ClientConfig
publisher_config brokers =
    ("bootstrap.servers", brokers)
    ∷ ("message.timeout.ms", "5000")
    ∷ ("queue.buffering.max.messages", "100000")
    ∷ ("queue.buffering.max.ms", "5")
    ∷ ("batch.num.messages", "1000")
    ∷ []

module _ {Client : Type 0} (create : ClientConfig → Option Client) where
  abbrev pub new_kafka_consumer : String → String → Option Client
  new_kafka_consumer brokers group_id = create (consumer_config brokers group_id)

  abbrev pub new_kafka_producer : Env → String → Option Client
  new_kafka_producer env brokers = create (producer_config env brokers)

  abbrev pub new_fill_publisher : String → Option Client
  new_fill_publisher brokers = create (publisher_config brokers)

abbrev lag_of : ℕ → Option ℕ → Option ℕ
lag_of offset none = none
lag_of offset (some high) = some (high - (offset + 1))

-- What the gauge of the lag is set to after a message: `high` is the partition's high watermark,
-- `none` where it cannot be had. `max(0)` is what subtraction does here.
abbrev pub sample_lag : ℕ → ℕ → Option ℕ → Option ℕ
sample_lag count offset high = if count % 1000 == 0 then lag_of offset high else none
