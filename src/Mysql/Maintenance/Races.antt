-- ===== src/Mysql/Maintenance/Races.antt =====
-- The two statements of `recoverStaleEvents` on MySQL, and a worker that settles an event between them.
use outboxy.Base.{
  ℕ, ◌+◌, ◌≤◌, ◌≡◌, refl, ◌∙◌, true, false, List, none, some, Text, member, is_empty, select,
  is_none, arith, Memᴰ-select,
}
use mathlib.Core.Path.{subst}
use outboxy.Schema.{OutboxEventRow, is_failed, is_succeeded}
use outboxy.Sql.Update.{
  Table, update_where, row_at, ids, row_at-update_where, row_at-id, row_at-Memᴰ, Memᴰ-ids,
}
use outboxy.Postgres.Maintenance.{set_recovered, second}
use outboxy.Mysql.Errors.{MysqlSession, invalid_id, with_mysql_errors}
use outboxy.Mysql.EventRepository.{is_claimable}
use outboxy.Mysql.EventRepository.Claims.{nonempty}
use outboxy.Mysql.Maintenance.{
  is_stale, stale_ids, recover_ids, recover_found, recover_stale_events,
}

member-stale_ids :
    (s : MysqlSession) (threshold_ms : ℕ) (rows : Table) (id : Text) {r : OutboxEventRow}
    → row_at id rows ≡ some r
    → is_stale s.now threshold_ms r ≡ true
    → member id (stale_ids s threshold_ms rows) ≡ true
unfolding stale_ids
member-stale_ids s threshold_ms rows id {r} found stale =
    subst (λ k. member k (ids (select (is_stale s.now threshold_ms) rows)) ≡ true)
      (row_at-id id rows found)
      (Memᴰ-ids (select (is_stale s.now threshold_ms) rows)
        (Memᴰ-select (is_stale s.now threshold_ms) rows stale (row_at-Memᴰ id rows found)))

recover_stale_events-found :
    (s t : MysqlSession) (between : Table → Table) (threshold_ms : ℕ) (rows : Table)
    → s.fault ≡ none
    → recover_stale_events s t between threshold_ms rows
      ≡ recover_found t between (stale_ids s threshold_ms rows) rows
unfolding recover_stale_events stale_ids
recover_stale_events-found s t between threshold_ms rows works =
    rw (works, recover_stale_events) refl

recover_stale_events-ids :
    (s t : MysqlSession) (between : Table → Table) (threshold_ms : ℕ) (rows : Table)
    → s.fault ≡ none
    → is_empty (stale_ids s threshold_ms rows) ≡ false
    → recover_stale_events s t between threshold_ms rows
      ≡ recover_ids t (stale_ids s threshold_ms rows) (between rows)
unfolding recover_found
recover_stale_events-ids s t between threshold_ms rows works some_ids =
    recover_stale_events-found s t between threshold_ms rows works
    ∙ rw (recover_found, some_ids) refl

recover_ids-table :
    (t : MysqlSession) (event_ids : List Text) (rows : Table)
    → t.fault ≡ none
    → invalid_id event_ids ≡ none
    → (recover_ids t event_ids rows).0
      ≡ update_where (λ r. member r.id event_ids) (set_recovered t.now) rows
unfolding recover_ids with_mysql_errors
recover_ids-table t event_ids rows works valid =
    rw (recover_ids, valid, with_mysql_errors, works) refl

-- The recovery of stale events on MySQL undoes a delivery. If an event is stale when the first statement
-- reads its row, and its worker marks it as succeeded before the second statement runs, the second
-- still sets it to failed, and a second later it may be claimed again, and published once more. Both
-- statements run, the stale ids are UUIDs, and the row is not deleted.
pub recover_stale_events-undoes :
    (s t : MysqlSession) (between : Table → Table) (threshold_ms now : ℕ) (rows : Table) (id : Text)
    (r r' : OutboxEventRow)
    → s.fault ≡ none
    → t.fault ≡ none
    → invalid_id (stale_ids s threshold_ms rows) ≡ none
    → row_at id rows ≡ some r
    → is_stale s.now threshold_ms r ≡ true
    → row_at id (between rows) ≡ some r'
    → is_succeeded r'.status ≡ true
    → is_none r'.deleted_at ≡ true
    → t.now + second ≤ now
    → (x : OutboxEventRow) × (row_at id (recover_stale_events s t between threshold_ms rows).0
        ≡ some x)
      × (is_failed x.status ≡ true)
      × (is_claimable now x ≡ true)
unfolding set_recovered is_claimable
recover_stale_events-undoes s t between threshold_ms now rows id r r' works works' valid found stale
      there delivered kept later =
    let event_ids = stale_ids s threshold_ms rows in
    let listed : member id (stale_ids s threshold_ms rows) ≡ true =
      member-stale_ids s threshold_ms rows id {r = r} found stale in
    (
      set_recovered t.now r',
      rw
          (
            recover_stale_events-ids s t between threshold_ms rows works
                (nonempty id event_ids listed),
            recover_ids-table t event_ids (between rows) works' valid,
          )
          (row_at-update_where (λ x. member x.id event_ids) (set_recovered t.now) (λ x. refl) id
              (between rows)
            ∙ rw (there, row_at-id id (between rows) there, listed) refl),
      refl,
      ground arith,
    )
