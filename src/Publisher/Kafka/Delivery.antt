-- ===== src/Publisher/Kafka/Delivery.antt =====
-- What the Kafka publisher answers for each event.
use outboxy.Base.{
  ◌≡◌, refl, ap, ◌∙◌, Bool, false, not, List, [], ◌∷◌, map, Option, none, some, Text, codes, Map,
  get, is_empty, is_none, to_lower_case, starts_with, drop, if◌then◌else◌,
}
use outboxy.Schema.{OutboxEvent}
use outboxy.Schema.Events.{event_at, event_ids, DistinctIds}
use outboxy.Publisher.{PublishResult, resolved}
use outboxy.Publisher.Groups.{group_of, assemble}
use outboxy.Publisher.Answers.{Answers, get-set_each, set_each-UniqueKeys, get-assemble-group_by}
use outboxy.Publisher.Kafka.Topics.{
  extract_topic_from_url, generate_partition_key, is_retryable_kafka_error, some_includes,
  non_retryable_patterns,
}
use outboxy.Publisher.Kafka.{
  KafkaPublisher, ProducerRecord, SendReply, sent, send_error, Message, message_of, topic_result,
  producer_record, publish_to_topic, group_by_topic, publish,
}

-- The destination without its scheme.
abbrev pub topic_of : OutboxEvent → Text
topic_of e =
    if starts_with (codes "kafka://") e.destination_url
    then drop 8 e.destination_url
    else e.destination_url

-- The message of an event.
abbrev pub expected_message : OutboxEvent → Message
expected_message e = record {
  key = (if is_empty e.aggregate_id then none else some e.aggregate_id);
  value = record {
    event_type = e.event_type;
    aggregate_type = e.aggregate_type;
    aggregate_id = e.aggregate_id;
    payload = e.payload;
    created_at = e.created_at;
  };
  headers =
      (codes "x-outbox-event-id", e.id)
      ∷ (codes "x-outbox-event-type", e.event_type)
      ∷ (codes "x-outbox-aggregate-type", e.aggregate_type)
      ∷ [];
}

-- Whether a reply is an error that may pass, by its message.
abbrev pub is_passing : SendReply → Bool
is_passing sent = false
is_passing (send_error message) = not (some_includes non_retryable_patterns (to_lower_case message))

abbrev pub error_in : SendReply → Option Text
error_in sent = none
error_in (send_error message) = some message

-- What a reply comes to, field by field.
abbrev pub expected_result : SendReply → PublishResult
expected_result reply = record {
  success = is_none (error_in reply);
  error = error_in reply;
  retryable = is_passing reply;
  duration_ms = none;
}

topic_result-expected : (reply : SendReply) → topic_result reply ≡ expected_result reply
unfolding topic_result is_retryable_kafka_error
topic_result-expected sent = refl
topic_result-expected (send_error message) = refl

module _ (k : KafkaPublisher) (send : ProducerRecord → SendReply) where
  -- What the one `send` of a topic comes to for its events.
  abbrev pub outcome_for : Text → List OutboxEvent → Text → PublishResult
  outcome_for topic events id =
      topic_result (send (producer_record k.compression_type topic events))

  answers : Answers (publish_to_topic k.compression_type send) outcome_for
  unfolding publish_to_topic get
  answers topic events = (
    set_each-UniqueKeys (outcome_for topic events) (event_ids events) [] tt,
    λ j. get-set_each (outcome_for topic events) j (event_ids events) [],
  )

  -- With a connected producer `publish` resolves, and each event gets the result of the one `send`
  -- for its topic: a success if it is sent, else a failure with the error's message, to be retried
  -- unless the message has one of the patterns of lasting errors. The record that is sent is for this
  -- topic and has a message for each event with this topic, in their order: its key is the aggregate's
  -- id, if that is not empty, its value has the event's type, aggregate and payload, and its headers
  -- name the event. The events have distinct ids.
  pub kafka_get-publish :
      (id : Text) (events : List OutboxEvent) (e : OutboxEvent)
      → k.producer ≡ some send
      → DistinctIds events
      → event_at id events ≡ some e
      → (results : Map PublishResult) × (record_sent : ProducerRecord) × (publish k events
          ≡ resolved results)
        × (record_sent.topic ≡ topic_of e)
        × (record_sent.compression ≡ k.compression_type)
        × (record_sent.messages ≡ map expected_message (group_of topic_of (topic_of e) events))
        × (get id results ≡ some (expected_result (send record_sent)))
  unfolding publish group_by_topic producer_record message_of generate_partition_key
      extract_topic_from_url
  kafka_get-publish id events e connected distinct here = (
    assemble (publish_to_topic k.compression_type send) (group_by_topic events) [],
    producer_record k.compression_type (topic_of e) (group_of topic_of (topic_of e) events),
    rw connected refl,
    refl,
    refl,
    refl,
    get-assemble-group_by topic_of (publish_to_topic k.compression_type send) outcome_for answers id
          events e distinct here
        ∙ ap some (topic_result-expected (send _)),
  )
