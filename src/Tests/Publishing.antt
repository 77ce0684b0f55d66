-- ===== src/Tests/Publishing.antt =====
-- Batches that a publisher sends.
use outboxy.Base.{◌≡◌, refl, true, some, codes, get, Map, text_eq, find, map, length}
use outboxy.Schema.{OutboxEvent, map_row_to_event}
use outboxy.Schema.Events.{event_at}
use outboxy.Sql.Update.{row_at, map_option}
use outboxy.Publisher.{Publication, PublishResult, resolved}
use outboxy.Publisher.Groups.{group_of}
use outboxy.Publisher.Http.{publish}
use outboxy.Publisher.Http.Expected.{expected_event, expected_result, get-publish}
use outboxy.Publisher.Http.{HttpRequest, join}
use outboxy.Schema.Events.{event_ids}
use outboxy.Publisher.Kafka.{KafkaPublisher, ProducerRecord, SendReply, sent, uncompressed}
use outboxy.Publisher.Kafka.Delivery.{topic_of, expected_message, kafka_get-publish}
use outboxy.Worker.Retry.{decide_retry}
use outboxy.Worker.Execute.{execute_batch_processing}
use outboxy.Worker.Execute.Settle.{dispose}
use outboxy.Worker.Execute.Collect.{Explained}
use outboxy.Worker.Execute.WithHttp.{answer_of, publish-Explained, row_at-http_batch}
use outboxy.Tests.Data.{
  order_row, shop_rows, shop_world, http_config, shop_worker, shop_sessions, shop_events,
}
use outboxy.Tests.Batches.{shop_events-DistinctIds, shop_sessions-AllWork}

abbrev order_event : OutboxEvent
unfolding map_row_to_event
order_event = map_row_to_event order_row

order_in_batch : event_at (codes "order") shop_events ≡ some order_event
unfolding find text_eq map_row_to_event
order_in_batch = refl

get-publish_example :
    let group = group_of (λ e. e.destination_url) order_event.destination_url shop_events in
    (results : Map PublishResult) × (request : HttpRequest) × (publish shop_world http_config
        shop_events
      ≡ resolved results)
    × (request.destination_url ≡ order_event.destination_url)
    × (request.events ≡ map expected_event group)
    × (request.count ≡ length group)
    × (request.body_timeout ≡ http_config.timeout_ms)
    × (get (codes "X-Outbox-Event-IDs") request.headers ≡ some (join (event_ids group)))
    × (get (codes "order") results
        ≡ some (expected_result shop_world (shop_world.request request) (codes "order")))
get-publish_example =
    get-publish shop_world http_config (codes "order") shop_events order_event
      shop_events-DistinctIds order_in_batch

publish-Explained_example :
    Explained true (publish shop_world http_config shop_events) 5 shop_events
publish-Explained_example =
    publish-Explained shop_world http_config shop_events 5 true shop_events-DistinctIds

row_at-http_batch_example :
    row_at
      (codes "order")
      (execute_batch_processing shop_worker
        (shop_sessions 50)
        (publish shop_world http_config shop_events)
        5
        shop_events
        shop_rows).0
    ≡ map_option
        (dispose shop_worker
          (shop_sessions 50)
          (answer_of shop_world http_config shop_events 5 order_event).error
          (some (
            decide_retry
              (answer_of shop_world http_config shop_events 5 order_event)
              order_event.retry_count
              2)))
        (row_at (codes "order") shop_rows)
row_at-http_batch_example =
    row_at-http_batch shop_world http_config shop_events 5 shop_worker (shop_sessions 50) shop_rows
      (codes "order") order_event shop_sessions-AllWork shop_events-DistinctIds order_in_batch

abbrev all_sent : ProducerRecord → SendReply
all_sent r = sent

abbrev connected : KafkaPublisher
connected = record { compression_type = uncompressed; producer = some all_sent }

kafka_get-publish_example :
    (results : Map PublishResult) × (record_sent : ProducerRecord)
    × (outboxy.Publisher.Kafka.publish connected shop_events ≡ resolved results)
    × (record_sent.topic ≡ topic_of order_event)
    × (record_sent.compression ≡ uncompressed)
    × (record_sent.messages
        ≡ map expected_message (group_of topic_of (topic_of order_event) shop_events))
    × (get (codes "order") results
        ≡ some (outboxy.Publisher.Kafka.Delivery.expected_result (all_sent record_sent)))
kafka_get-publish_example =
    kafka_get-publish connected all_sent (codes "order") shop_events order_event refl
      shop_events-DistinctIds order_in_batch
