-- ===== src/Tests/Batches.antt =====
-- Batches of the worker: grouping, settling, and the sleep between turns.
use outboxy.Base.{
  ◌≡◌, refl, true, false, [], ◌∷◌, some, none, codes, member, get, arith, UniqueKeys, text_eq, find,
}
use outboxy.Schema.{map_row_to_event}
use outboxy.Schema.Events.{event_at, DistinctIds}
use outboxy.Sql.Update.{row_at, map_option}
use outboxy.Publisher.{resolved}
use outboxy.Worker.Retry.{RetryDecision}
use outboxy.Worker.Config.{IsValid}
use outboxy.Worker.Batch.{group_batch_results}
use outboxy.Worker.Batch.Partition.{
  member-group_batch_results, is_decided, group_batch_results-perm, all_ids,
}
use outboxy.Worker.Execute.{execute_batch_processing, Worker, no_error_message}
use outboxy.Worker.Execute.Settle.{AllWork}
use outboxy.Worker.Execute.Collect.{Explained, result_of}
use outboxy.Worker.Execute.Batch.{dispose_event, row_at-execute_batch_processing}
use outboxy.Worker.Execute.Outcomes.{execute_batch-strands, execute_batch-aborts}
use outboxy.Tests.Data.{
  order_row, invoice_row, shop_rows, shop_config, shop_worker, shop_sessions, shop_events,
  shop_results,
}
use mathlib.Core.List.{Perm}

shop_results-UniqueKeys : UniqueKeys shop_results
unfolding get text_eq
shop_results-UniqueKeys = (refl, (refl, tt))

group_batch_results-perm_example :
    Perm (all_ids (group_batch_results shop_results [] 2)) (codes "order" ∷ codes "invoice" ∷ [])
group_batch_results-perm_example = group_batch_results-perm [] 2 shop_results

member-group_batch_results_example :
    member (codes "invoice") (group_batch_results shop_results [] 2).retried
    ≡ is_decided [] 2 RetryDecision.retry (codes "invoice") (get (codes "invoice") shop_results)
member-group_batch_results_example =
    member-group_batch_results [] 2 RetryDecision.retry (codes "invoice") shop_results
      shop_results-UniqueKeys

pub shop_sessions-AllWork : AllWork (shop_sessions 50)
shop_sessions-AllWork = record { succeeded_works = refl; retried_works = refl; dlq_works = refl }

pub shop_events-DistinctIds : DistinctIds shop_events
unfolding map_row_to_event member text_eq
shop_events-DistinctIds = (refl, (refl, tt))

shop_results-Explained : Explained true (resolved shop_results) 5 shop_events
unfolding result_of map_row_to_event get text_eq
shop_results-Explained = (refl, (refl, tt))

row_at-execute_batch_processing_example :
    row_at
      (codes "order")
      (execute_batch_processing shop_worker
        (shop_sessions 50)
        (resolved shop_results)
        5
        shop_events
        shop_rows).0
    ≡ map_option
        (dispose_event shop_worker
          (shop_sessions 50)
          (resolved shop_results)
          5
          (event_at (codes "order") shop_events))
        (row_at (codes "order") shop_rows)
row_at-execute_batch_processing_example =
    row_at-execute_batch_processing shop_worker (shop_sessions 50) (resolved shop_results) 5
      shop_events (codes "order") shop_rows shop_sessions-AllWork shop_events-DistinctIds
      shop_results-Explained

-- A worker that allows more retries than the rows do.
abbrev patient_worker : Worker
patient_worker = record shop_worker { config = record shop_config { max_retries = 5 } }

invoice_in_batch : event_at (codes "invoice") shop_events ≡ some (map_row_to_event invoice_row)
unfolding find map_row_to_event text_eq
invoice_in_batch = refl

invoice_in_table : row_at (codes "invoice") shop_rows ≡ some invoice_row
unfolding row_at text_eq
invoice_in_table = refl

invoice_result :
    ((result_of (resolved shop_results) 5 (map_row_to_event invoice_row)).success ≡ false)
    × ((result_of (resolved shop_results) 5 (map_row_to_event invoice_row)).retryable ≡ true)
unfolding result_of map_row_to_event get text_eq
invoice_result = (refl, refl)

invoice_count : (map_row_to_event invoice_row).retry_count ≡ invoice_row.retry_count
unfolding map_row_to_event
invoice_count = refl

execute_batch-strands_example :
    row_at
      (codes "invoice")
      (execute_batch_processing patient_worker
        (shop_sessions 50)
        (resolved shop_results)
        5
        shop_events
        shop_rows).0
    ≡ row_at (codes "invoice") shop_rows
execute_batch-strands_example =
    execute_batch-strands patient_worker (shop_sessions 50) (resolved shop_results) 5 shop_events
      shop_rows (codes "invoice") (map_row_to_event invoice_row) invoice_row shop_sessions-AllWork
      shop_events-DistinctIds shop_results-Explained invoice_in_batch invoice_in_table invoice_count
      (omega arith) (omega arith) invoice_result.0 invoice_result.1

order_in_batch : event_at (codes "order") shop_events ≡ some (map_row_to_event order_row)
unfolding find map_row_to_event text_eq
order_in_batch = refl

nothing_answered :
    ((result_of (resolved []) 5 (map_row_to_event order_row)).success ≡ false)
    × ((result_of (resolved []) 5 (map_row_to_event order_row)).error ≡ none)
unfolding result_of map_row_to_event get
nothing_answered = (refl, refl)

execute_batch-aborts_example :
    let (rows', outcome) =
      execute_batch_processing shop_worker
        (shop_sessions 50)
        (resolved [])
        5
        shop_events
        shop_rows in
    (rows' ≡ shop_rows) × (outcome.failure ≡ some no_error_message)
execute_batch-aborts_example =
    execute_batch-aborts shop_worker (shop_sessions 50) (resolved []) 5 shop_events shop_rows
      (codes "order") (map_row_to_event order_row) refl order_in_batch nothing_answered.0
      nothing_answered.1

shop_config-IsValid : IsValid shop_config
shop_config-IsValid = ground arith
