-- ===== src/Postgres/EventRepository/Rows.antt =====
-- The three updates of a batch, as the row under a primary key sees them.
use outboxy.Base.{◌≡◌, refl, sym, ◌&&◌, List, [], ◌∷◌, none, Text, Map, member, ltb}
use outboxy.Sql.Update.{Table, row_at, updated, map_option, map_option_id, row_at-update_where}
use outboxy.Postgres.Errors.{Session, with_error_mapping}
use outboxy.Postgres.EventRepository.{
  SucceededEvent, BackoffConfig, mark_succeeded, succeeded_ids, workers_by_id, set_succeeded,
  schedule_retry, error_cases, set_retry, move_to_dlq, set_dlq,
}

module _ (s : Session) (works : s.fault ≡ none) (id : Text) (rows : Table) where
  pub row_at-mark_succeeded :
      (results : List SucceededEvent)
      → row_at id (mark_succeeded s results rows).0
        ≡ map_option
            (updated
              (λ r. member r.id (succeeded_ids results))
              (set_succeeded s.now (workers_by_id results)))
            (row_at id rows)
  unfolding mark_succeeded member
  row_at-mark_succeeded [] = sym (map_option_id _ (row_at id rows) (λ r. refl))
  row_at-mark_succeeded (x ∷ results) =
      rw (works, with_error_mapping)
        (row_at-update_where _ (set_succeeded s.now (workers_by_id (x ∷ results))) (λ r. refl) id
          rows)

  pub row_at-schedule_retry :
      (event_ids : List Text) (messages : Map Text) (config : BackoffConfig)
      → row_at id (schedule_retry s event_ids messages config rows).0
        ≡ map_option
            (updated
              (λ r. member r.id event_ids && ltb r.retry_count r.max_retries)
              (set_retry s.now config (error_cases event_ids messages)))
            (row_at id rows)
  unfolding schedule_retry member
  row_at-schedule_retry [] messages config = sym (map_option_id _ (row_at id rows) (λ r. refl))
  row_at-schedule_retry (x ∷ event_ids) messages config =
      rw (works, with_error_mapping)
        (row_at-update_where _ (set_retry s.now config (error_cases (x ∷ event_ids) messages))
          (λ r. refl) id rows)

  pub row_at-move_to_dlq :
      (event_ids : List Text) (messages : Map Text)
      → row_at id (move_to_dlq s event_ids messages rows).0
        ≡ map_option
            (updated (λ r. member r.id event_ids) (set_dlq s.now (error_cases event_ids messages)))
            (row_at id rows)
  unfolding move_to_dlq member
  row_at-move_to_dlq [] messages = sym (map_option_id _ (row_at id rows) (λ r. refl))
  row_at-move_to_dlq (x ∷ event_ids) messages =
      rw (works, with_error_mapping)
        (row_at-update_where _ (set_dlq s.now (error_cases (x ∷ event_ids) messages)) (λ r. refl) id
          rows)
