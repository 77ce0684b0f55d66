-- ===== src/Publisher/Kafka.antt =====
-- packages/publisher-kafka/src: kafka.publisher.ts. The producer of `kafkajs` is a parameter: what a
-- `send` comes to.
pub mod Topics
pub mod Delivery
use outboxy.Base.{ℕ, Bool, true, false, List, [], ◌∷◌, map, Option, none, some, Text, codes, Map}
use outboxy.Schema.{Json, OutboxEvent}
use outboxy.Schema.Events.{event_ids}
use outboxy.Publisher.{PublishResult, Publication, resolved, rejected}
use outboxy.Publisher.Groups.{group_by, set_each, assemble}
use outboxy.Publisher.Kafka.Topics.{
  extract_topic_from_url, generate_partition_key, is_retryable_kafka_error,
}

pub data Compression : Type 0 where
  gzip snappy lz4 zstd uncompressed : Compression

-- The value before `JSON.stringify`.
pub record MessageValue : Type 0 where
  pub event_type : Text
  pub aggregate_type : Text
  pub aggregate_id : Text
  pub payload : Json
  pub created_at : ℕ

pub record Message : Type 0 where
  pub key : Option Text
  pub value : MessageValue
  pub headers : Map Text

pub record ProducerRecord : Type 0 where
  pub topic : Text
  pub compression : Compression
  pub messages : List Message

-- What `send` comes to: it resolves, or rejects with an `Error` that has a message.
pub data SendReply : Type 0 where
  sent : SendReply
  send_error : Text → SendReply

-- The publisher's producer, `null` before `initialize` and after `shutdown`.
pub record KafkaPublisher : Type 0 where
  pub compression_type : Compression
  pub producer : Option (ProducerRecord → SendReply)

unfoldable pub message_of : OutboxEvent → Message
message_of e = record {
  key = generate_partition_key (some e.aggregate_id);
  value = record {
    event_type = e.event_type;
    aggregate_type = e.aggregate_type;
    aggregate_id = e.aggregate_id;
    payload = e.payload;
    created_at = e.created_at;
  };
  headers =
      (codes "x-outbox-event-id", e.id)
      ∷ (codes "x-outbox-event-type", e.event_type)
      ∷ (codes "x-outbox-aggregate-type", e.aggregate_type)
      ∷ [];
}

unfoldable pub group_by_topic : List OutboxEvent → Map (List OutboxEvent)
unfolding group_by extract_topic_from_url
group_by_topic events = group_by (λ e. extract_topic_from_url e.destination_url) events

-- The result that each event of a topic gets.
unfoldable pub topic_result : SendReply → PublishResult
unfolding is_retryable_kafka_error
topic_result sent = record { success = true; error = none; retryable = false; duration_ms = none }
topic_result (send_error message) = record {
  success = false;
  error = some message;
  retryable = is_retryable_kafka_error (some message);
  duration_ms = none;
}

unfoldable pub producer_record : Compression → Text → List OutboxEvent → ProducerRecord
unfolding message_of
producer_record compression topic events = record {
  topic = topic;
  compression = compression;
  messages = map message_of events;
}

unfoldable pub publish_to_topic :
    Compression → (ProducerRecord → SendReply) → Text → List OutboxEvent → Map PublishResult
unfolding producer_record topic_result
publish_to_topic compression send topic events =
    let result = topic_result (send (producer_record compression topic events)) in
    set_each (λ id. result) (event_ids events) []

unfoldable pub publish : KafkaPublisher → List OutboxEvent → Publication
unfolding group_by_topic publish_to_topic assemble
publish k events = elim k.producer [
  | none ↦ rejected (codes "Kafka producer not initialized. Call initialize() first.")
  | some send ↦
      resolved (assemble (publish_to_topic k.compression_type send) (group_by_topic events) [])
]
