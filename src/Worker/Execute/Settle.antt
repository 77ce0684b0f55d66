-- ===== src/Worker/Execute/Settle.antt =====
-- The three statements of a batch against a description of what becomes of one row.
use mathlib.Core.Path.{subst}
use outboxy.Base.{
  UniqueKeys, ℕ, ◌+◌, ◌≡◌, refl, ap, ◌∙◌, true, ◌&&◌, List, [], ◌∷◌, Option, none, some, Text, Map,
  get, codes, member, text_eq_iff, ltb, if◌then◌else◌, ◌or_else◌, arith, substring, Option-cases,
  inl, inr,
}
use outboxy.Schema.{OutboxEventRow, EventStatus}
use outboxy.Sql.Update.{Table, row_at, updated, map_option, map_option_map, row_at-id}
use outboxy.Publisher.{PublishResult}
use outboxy.Postgres.Errors.{Session}
use outboxy.Postgres.EventRepository.{
  succeeded_ids, workers_by_id, error_cases, set_succeeded, set_retry, set_dlq, backoff_delay,
  mark_succeeded, schedule_retry, move_to_dlq,
}
use outboxy.Postgres.EventRepository.Rows.{
  row_at-mark_succeeded, row_at-schedule_retry, row_at-move_to_dlq,
}
use outboxy.Worker.Retry.{RetryDecision}
use outboxy.Worker.Batch.{BatchGroupingResult, decision_of, group_batch_results}
use outboxy.Worker.Batch.Partition.{member-group_batch_results}
use outboxy.Worker.Execute.{
  Worker, BatchSessions, with_worker, backoff_of, settle, mark_group, retry_group, dlq_group,
}

-- The error that is stored for an event.
abbrev pub stored_error : Option Text → Text
stored_error error = substring 1000 (error or_else codes "Unknown error")

-- What becomes of a row on a decision: the specification of `settle`.
abbrev pub dispose :
    Worker → BatchSessions → Option Text → Option RetryDecision → OutboxEventRow → OutboxEventRow
dispose w ss error none r = r
dispose w ss error (some RetryDecision.succeeded) r = record r {
  status = EventStatus.succeeded;
  processed_at = some ss.succeeded.now;
  updated_at = ss.succeeded.now;
  processed_by_worker = some w.worker_id;
}
dispose w ss error (some RetryDecision.retry) r =
    if ltb r.retry_count r.max_retries
    then record r {
      status = EventStatus.failed;
      retry_count = r.retry_count + 1;
      last_error = some (stored_error error);
      updated_at = ss.retried.now;
      next_retry_at = some (ss.retried.now + backoff_delay (backoff_of w.config) r.retry_count);
    }
    else r
dispose w ss error (some RetryDecision.dlq) r = record r {
  status = EventStatus.dlq;
  last_error = some (stored_error error);
  processed_at = some ss.dlq.now;
  updated_at = ss.dlq.now;
}

-- No statement of the batch fails.
pub record AllWork (ss : BatchSessions) : Type 0 where
  pub succeeded_works : ss.succeeded.fault ≡ none
  pub retried_works : ss.retried.fault ≡ none
  pub dlq_works : ss.dlq.fault ≡ none

succeeded_ids-with_worker : (w : Text) (ids : List Text) → succeeded_ids (with_worker w ids) ≡ ids
succeeded_ids-with_worker w [] = refl
succeeded_ids-with_worker w (id ∷ ids) = ground (arith, succeeded_ids-with_worker w ids)

get-with_worker :
    (w id : Text) (ids : List Text)
    → member id ids ≡ true
    → get id (workers_by_id (with_worker w ids)) ≡ some w
unfolding get member
get-with_worker w id [] h = cc
get-with_worker w id (x ∷ ids) h = ground (arith, get-with_worker w id ids)

get-error_cases :
    (messages : Map Text) (id : Text) (ids : List Text)
    → member id ids ≡ true
    → get id (error_cases ids messages) ≡ some (stored_error (get id messages))
unfolding get member
get-error_cases messages id [] h = cc
get-error_cases messages id (x ∷ ids) h =
    ground (arith, text_eq_iff x id, get-error_cases messages id ids)

-- The three updates one after another, on one row.
abbrev settle_row :
    Worker → BatchSessions → BatchGroupingResult → Map Text → OutboxEventRow → OutboxEventRow
settle_row w ss g messages r =
    let succeeded = with_worker w.worker_id g.succeeded in
    updated (λ r. member r.id g.dlq) (set_dlq ss.dlq.now (error_cases g.dlq messages))
      (updated (λ r. member r.id g.retried && ltb r.retry_count r.max_retries)
        (set_retry ss.retried.now (backoff_of w.config) (error_cases g.retried messages))
        (updated (λ r. member r.id (succeeded_ids succeeded))
          (set_succeeded ss.succeeded.now (workers_by_id succeeded)) r))

mark_group_lem :
    (w : Worker) (s : Session) (ids : List Text) (rows : Table)
    → mark_group w s ids rows ≡ mark_succeeded s (with_worker w.worker_id ids) rows
unfolding mark_group mark_succeeded
mark_group_lem w s [] rows = refl
mark_group_lem w s (id ∷ ids) rows = refl

retry_group_lem :
    (w : Worker) (s : Session) (ids : List Text) (messages : Map Text) (rows : Table)
    → retry_group w s ids messages rows ≡ schedule_retry s ids messages (backoff_of w.config) rows
unfolding retry_group schedule_retry
retry_group_lem w s [] messages rows = refl
retry_group_lem w s (id ∷ ids) messages rows = refl

dlq_group_lem :
    (s : Session) (ids : List Text) (messages : Map Text) (rows : Table)
    → dlq_group s ids messages rows ≡ move_to_dlq s ids messages rows
unfolding dlq_group move_to_dlq
dlq_group_lem s [] messages rows = refl
dlq_group_lem s (id ∷ ids) messages rows = refl

-- `settle` with its guards removed.
pub settle-table :
    (w : Worker) (ss : BatchSessions) (g : BatchGroupingResult) (messages : Map Text) (rows : Table)
    → (settle w ss g messages rows).0
      ≡ (move_to_dlq ss.dlq g.dlq messages
          (schedule_retry ss.retried g.retried messages
            (backoff_of w.config)
            (mark_succeeded ss.succeeded (with_worker w.worker_id g.succeeded) rows).0).0).0
unfolding settle
settle-table w ss g messages rows =
    ap (λ t. t.0) (dlq_group_lem ss.dlq g.dlq messages _)
    ∙ ap (λ t. (move_to_dlq ss.dlq g.dlq messages t.0).0)
        (retry_group_lem w ss.retried g.retried messages _)
    ∙ ap
        (λ t.
          (move_to_dlq ss.dlq g.dlq messages
            (schedule_retry ss.retried g.retried messages (backoff_of w.config) t.0).0).0)
        (mark_group_lem w ss.succeeded g.succeeded rows)

module _ (w : Worker) (ss : BatchSessions) (works : AllWork ss) (messages : Map Text) where
  row_at-settle :
      (g : BatchGroupingResult) (id : Text) (rows : Table)
      → row_at id (settle w ss g messages rows).0
        ≡ map_option (settle_row w ss g messages) (row_at id rows)
  row_at-settle g id rows =
      rw
        (
          settle-table w ss g messages rows,
          row_at-move_to_dlq ss.dlq works.dlq_works id _ g.dlq messages,
          row_at-schedule_retry ss.retried works.retried_works id _ g.retried messages
              (backoff_of w.config),
          row_at-mark_succeeded ss.succeeded works.succeeded_works id rows
              (with_worker w.worker_id g.succeeded),
        )
        (map_option_map _ _ _ (row_at id rows))

-- The decision of the batch on the event under an id.
abbrev pub decision_at : Map PublishResult → Map ℕ → ℕ → Text → Option RetryDecision
decision_at results counts max_retries id =
    map_option (λ result. decision_of id result counts max_retries) (get id results)

module _ (w : Worker) (ss : BatchSessions) (messages : Map Text) where
  settle_row-dispose :
      (results : Map PublishResult) (counts : Map ℕ) (max_retries : ℕ) (r : OutboxEventRow)
      → UniqueKeys results
      → settle_row w ss (group_batch_results results counts max_retries) messages r
        ≡ dispose w ss (get r.id messages) (decision_at results counts max_retries r.id) r
  unfolding set_succeeded set_retry set_dlq
  settle_row-dispose results counts max_retries r unique =
      let g = group_batch_results results counts max_retries in
      ground (
        arith,
        member-group_batch_results counts max_retries RetryDecision.succeeded r.id results unique,
        member-group_batch_results counts max_retries RetryDecision.retry r.id results unique,
        member-group_batch_results counts max_retries RetryDecision.dlq r.id results unique,
        get-with_worker w.worker_id r.id g.succeeded,
        succeeded_ids-with_worker w.worker_id g.succeeded,
        get-error_cases messages r.id g.retried,
        get-error_cases messages r.id g.dlq,
      )

module _ (w : Worker) (ss : BatchSessions) (works : AllWork ss) (messages : Map Text) where
  -- `settle` on the groups of a batch disposes of each row by the decision on its id.
  pub row_at-settle_groups :
      (results : Map PublishResult) (counts : Map ℕ) (max_retries : ℕ) (id : Text) (rows : Table)
      → UniqueKeys results
      → row_at id (settle w ss (group_batch_results results counts max_retries) messages rows).0
        ≡ map_option
            (dispose w ss (get id messages) (decision_at results counts max_retries id))
            (row_at id rows)
  row_at-settle_groups results counts max_retries id rows unique =
      rw (row_at-settle w ss works messages _ id rows) (elim (Option-cases (row_at id rows)) [
        | inl e ↦ rw e
        | inr (r, e) ↦ rw e (
            ap some (
              subst
                (λ k.
                  settle_row w ss (group_batch_results results counts max_retries) messages r
                  ≡ dispose w ss (get k messages) (decision_at results counts max_retries k) r)
                (row_at-id id rows e)
                (settle_row-dispose w ss messages results counts max_retries r unique)))
      ])
