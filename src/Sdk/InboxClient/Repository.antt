-- ===== src/Sdk/InboxClient/Repository.antt =====
-- `receiveBatch` of the SDK, for either dialect, against `receiveBatch` of the inbox repository.
use outboxy.Base.{
  ℕ, ◌≡◌, ◌≤◌, refl, sym, ap, ◌∙◌, Bool, true, false, List, [], ◌∷◌, map, Option, none, some, Text,
  arith, All, length, length-map,
}
use mathlib.Core.Path.{subst}
use outboxy.Schema.{InboxResult}
use outboxy.Postgres.Inbox
use outboxy.Postgres.Inbox.{InboxTable, insert_all, inserted_ids}
use outboxy.Postgres.Errors.{Session, ok}
use outboxy.Postgres.Inbox.Batch.{Received, FreshIds, All-first_for, receive_batch-answers}
use outboxy.Dialect.{JsError, Outcome, returned, threw, SqlStatement, InboxSqlDialect}
use outboxy.Sdk.{Failure, ReturnedRow, Runtime}
use outboxy.Sdk.Calls.{new_ids, each_id, columns_for, run_statement}
use outboxy.Sdk.Calls.Verdicts.{Verdict, all_different}
use outboxy.Sdk.Chunks.Termination.{bulk_insert-small}
use outboxy.Sdk.InboxClient.{
  inbox_results, inbox_base_columns, inbox_max_events_per_batch, key_map, run_both, find_results,
  found_results, bulk_message, insert_inbox_events, receive_batch,
}
use outboxy.Sdk.InboxEvents.{InboxyClient, ValidatedInboxEvent, validate_inbox_batch}
use outboxy.Sdk.InboxClient.Checks.{
  with_inbox_defaults, is_valid_inbox_batch, validate_inbox_batch-Verdict,
}
use outboxy.Sdk.InboxClient.Found.{found_rows, HasUniqueKeys, get-found, insert_all-HasUniqueKeys}
use outboxy.Sdk.InboxClient.Inputs.{
  as_received, inbox_client, as_received-as_valid, batch_keys-as_received, some_received,
  keys-as_valid, ids_for, rows_for, inbox_rows-given,
}
use outboxy.Sdk.InboxClient.Answers.{
  as_valid, received_keys, IsOwn, All-IsOwn, answer, FindsRow, results-returned, results-generated,
}

-- A statement that was built runs from one world to another, with the rows of its reply.
abbrev pub Replies :
    {W : Type 0} → Runtime W → Outcome JsError SqlStatement → W → W → List ReturnedRow → Type 0
Replies r (returned st) w w' rows = r.query st.sql st.params w ≡ (w', returned rows)
Replies r (threw e) w w' rows = ⊥

module _ {W : Type 0} (r : Runtime W) where
  run_statement-Replies :
      {A : Type 0} (message : Text)
      (answer : Outcome JsError (List ReturnedRow) → Outcome Failure A)
      (o : Outcome JsError SqlStatement) (w w' : W) (rows : List ReturnedRow)
      → Replies r o w w' rows
      → run_statement r message answer o w ≡ (w', answer (returned rows))
  run_statement-Replies message answer (returned st) w w' rows h = rw h refl
  run_statement-Replies message answer (threw e) w w' rows h = absurd h

  run_both-Replies :
      (c : InboxyClient) (ids : Option (List Text)) (events : List ValidatedInboxEvent)
      (o : Outcome JsError SqlStatement) (w w' : W) (rows : List ReturnedRow)
      → Replies r o w w' rows
      → run_both r c ids events o w ≡ find_results r c ids events (returned rows) w'
  run_both-Replies c ids events (returned st) w w' rows h = rw h refl
  run_both-Replies c ids events (threw e) w w' rows h = absurd h

module _ (now : ℕ) (given : List Received) (rows : InboxTable) (fresh : FreshIds given rows)
    (unique : HasUniqueKeys rows) where
  abbrev after : InboxTable
  after = insert_all now given rows

  abbrev found : List ReturnedRow
  found = found_rows (received_keys given) after

  All-FindsRow :
      (qs : List Received)
      → All (IsOwn given) qs
      → All (FindsRow now given rows fresh (key_map [] found)) qs
  All-FindsRow [] own = tt
  All-FindsRow (p ∷ qs) own = (
    get-found p.1.idempotency_key (received_keys given) after own.0.2
        (insert_all-HasUniqueKeys now given rows unique),
    All-FindsRow qs own.1,
  )

  results-answer :
      (returning : Bool) (inserted : List Text)
      → all_different (received_keys given) ≡ true
      → (returning ≡ true → inserted ≡ inserted_ids now given rows)
      → inbox_results
          (each_id (ids_for returning given))
          inserted
          (key_map [] found)
          (map as_valid given)
        ≡ map (answer now given rows fresh) given
  results-answer true inserted different reply =
      ap (λ ids. inbox_results [] ids (key_map [] found) (map as_valid given)) (reply refl)
      ∙ results-returned now given rows fresh (key_map [] found) given (All-first_for given)
          (All-FindsRow given (All-IsOwn given different))
  results-answer false inserted different reply =
      results-generated now given rows fresh inserted (key_map [] found) given
        (All-IsOwn given different) (All-FindsRow given (All-IsOwn given different))

module _ {W : Type 0} (r : Runtime W) (d : InboxSqlDialect) (s t : Session) (given : List Received)
    (rows : InboxTable) (w w0 w1 w2 : W) (inserted : List ReturnedRow) (fresh : FreshIds given rows)
    (unique : HasUniqueKeys rows)
    (drawn : new_ids r d.supports_returning (map as_valid given) w
      ≡ (w0, ids_for d.supports_returning given))
    (inserts : Replies r
      (d.build_inbox_bulk_insert (record {
        columns = columns_for d.supports_returning inbox_base_columns;
        rows = rows_for d.supports_returning given;
        generated_ids = ids_for d.supports_returning given;
      }))
      w0
      w1
      inserted)
    (returns : d.supports_returning ≡ true
      → map (λ row. row.id) inserted ≡ inserted_ids s.now given rows)
    (finds : Replies r
      (d.build_find_by_idempotency_keys (received_keys given))
      w1
      w2
      (found_rows (received_keys given) (insert_all s.now given rows))) where
  insert_inbox_events-answers :
      all_different (received_keys given) ≡ true
      → insert_inbox_events r (inbox_client d) (map as_valid given) w
        ≡ (w2, returned (map (answer s.now given rows fresh) given))
  unfolding insert_inbox_events find_results
  insert_inbox_events-answers different =
      rw (drawn, inbox_rows-given d.supports_returning given)
        (run_both-Replies r (inbox_client d) (ids_for d.supports_returning given)
            (map as_valid given) _ w0 w1 inserted inserts
          ∙ rw (keys-as_valid given) (
              run_statement-Replies r bulk_message
                (found_results (each_id (ids_for d.supports_returning given))
                  (map (λ row. row.id) inserted) (map as_valid given))
                (d.build_find_by_idempotency_keys (received_keys given)) w1 w2 _ finds)
          ∙ ap (λ rs. (w2, returned rs))
              (results-answer s.now given rows fresh unique d.supports_returning
                (map (λ row. row.id) inserted) different returns))

  -- `receiveBatch` of the SDK answers a valid batch, for which one statement has room, event by event as
  -- `receiveBatch` of the inbox repository does, with either kind of dialect: one whose insert returns
  -- the ids of its rows, and one for which the client generates them. The database inserts the events
  -- whose key is not there, returns the ids of these if the dialect has them returned, and finds the
  -- rows under the keys; the keys of the table are unique, the ids of the events are new, and the
  -- statements of the repository run.
  pub receive_batch-as_repository :
      (fuel : ℕ)
      → s.fault ≡ none
      → t.fault ≡ none
      → 1 ≤ fuel
      → 1 ≤ length given
      → length given ≤ inbox_max_events_per_batch (inbox_client d)
      → is_valid_inbox_batch (map as_received given) ≡ true
      → (results : List InboxResult) × ((Inbox.receive_batch s t given rows).1 ≡ ok results)
        × (receive_batch r (inbox_client d) fuel (map as_received given) w
            ≡ some (w2, returned results))
  unfolding receive_batch
  receive_batch-as_repository fuel works works' enough some_events room valid = (
    map (answer s.now given rows fresh) given,
    receive_batch-answers s t given rows works works' fresh,
    rw (some_received given some_events, validated)
        (bulk_insert-small (insert_inbox_events r (inbox_client d))
            (inbox_max_events_per_batch (inbox_client d)) (omega arith) fuel (map as_valid given) w
            enough (omega (arith, length-map as_valid given))
          ∙ ap some (insert_inbox_events-answers different)),
  )
    where
      validated :
          validate_inbox_batch (inbox_client d) (map as_received given)
          ≡ returned (map as_valid given)
      validated =
          subst
            (Verdict (validate_inbox_batch (inbox_client d) (map as_received given))
              (map (with_inbox_defaults (inbox_client d)) (map as_received given)))
            valid (validate_inbox_batch-Verdict (inbox_client d) (map as_received given))
          ∙ ap returned (as_received-as_valid d given)

      different : all_different (received_keys given) ≡ true
      different = ap all_different (sym (batch_keys-as_received given)) ∙ (ground (arith, valid))
