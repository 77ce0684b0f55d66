-- ===== src/Dialect/Postgres.antt =====
-- packages/dialect-postgres/src/postgres-dialect.ts and postgres-inbox-dialect.ts. The texts are
-- those of the templates after `trim`.
use outboxy.Base.{ℕ, length, true, List, ◌∷◌, [], ◌++◌, map, Text, codes, is_empty, if◌then◌else◌}
use outboxy.Dialect.{
  Value, JsNumber, JsError, Outcome, returned, threw, SqlStatement, BuildInsertParams,
  BuildBulkInsertParams, DialectName, SqlDialect, InboxSqlDialect,
}
use outboxy.Dialect.Render.{
  join, in_parentheses, postgres_placeholder, column_placeholders, postgres_values, all_params,
  plain_error,
}

abbrev pub max_parameters : ℕ
max_parameters = 65535

-- `INSERT INTO table (columns) VALUES values`, and what follows.
unfoldable pub insert_text : Text → List Text → List Text → Text → Text
insert_text table columns values ending =
    codes "INSERT INTO "
    ++ (table
        ++ (codes " ("
            ++ (join (codes ", ") columns
                ++ (codes ")\n      VALUES " ++ (join (codes ", ") values ++ ending)))))

abbrev pub placeholder_row : List Text → Text
placeholder_row columns = in_parentheses (column_placeholders postgres_placeholder 0 columns)

abbrev pub outbox_conflict : Text
outbox_conflict =
    codes
      "\n      ON CONFLICT (idempotency_key)\n      WHERE idempotency_key IS NOT NULL AND status != 'succeeded'\n      DO UPDATE SET idempotency_key = outbox_events.idempotency_key\n      RETURNING id"

abbrev pub inbox_conflict : Text
inbox_conflict = codes "\n      ON CONFLICT (idempotency_key) DO NOTHING\n      RETURNING id"

unfoldable pub build_insert : BuildInsertParams → Outcome JsError SqlStatement
build_insert p = returned (record {
  sql =
      insert_text (codes "outbox_events") p.columns (placeholder_row p.columns ∷ [])
        outbox_conflict;
  params = p.values;
})

unfoldable pub build_bulk_insert : BuildBulkInsertParams → Outcome JsError SqlStatement
build_bulk_insert p = returned (record {
  sql =
      insert_text (codes "outbox_events") p.columns (postgres_values (length p.columns) 0 p.rows)
        (codes "\n      RETURNING id");
  params = all_params p.rows;
})

abbrev pub postgres_dialect : SqlDialect
postgres_dialect = record {
  name = DialectName.postgresql;
  placeholder = postgres_placeholder;
  max_parameters = max_parameters;
  supports_returning = true;
  build_insert = build_insert;
  build_bulk_insert = build_bulk_insert;
}

unfoldable pub build_inbox_insert : BuildInsertParams → Outcome JsError SqlStatement
build_inbox_insert p = returned (record {
  sql =
      insert_text (codes "inbox_events") p.columns (placeholder_row p.columns ∷ []) inbox_conflict;
  params = p.values;
})

unfoldable pub build_inbox_bulk_insert : BuildBulkInsertParams → Outcome JsError SqlStatement
build_inbox_bulk_insert p = returned (record {
  sql =
      insert_text (codes "inbox_events") p.columns (postgres_values (length p.columns) 0 p.rows)
        inbox_conflict;
  params = all_params p.rows;
})

unfoldable pub build_mark_failed : Text → Text → SqlStatement
build_mark_failed event_id error = record {
  sql = codes "UPDATE inbox_events SET status = $1, error = $2 WHERE id = $3";
  params = Value.text (codes "failed") ∷ Value.text error ∷ Value.text event_id ∷ [];
}

unfoldable pub build_find_by_idempotency_keys : List Text → Outcome JsError SqlStatement
build_find_by_idempotency_keys keys =
    if is_empty keys
    then threw (plain_error (codes "buildFindByIdempotencyKeys requires at least one key"))
    else returned (record {
      sql =
          codes "SELECT id, idempotency_key FROM inbox_events WHERE idempotency_key IN "
          ++ placeholder_row keys;
      params = map Value.text keys;
    })

unfoldable pub build_cleanup_processed_events : JsNumber → SqlStatement
build_cleanup_processed_events retention_days = record {
  sql =
      codes
        "DELETE FROM inbox_events WHERE status = $1 AND processed_at < NOW() - ($2 * interval '1 day')";
  params = Value.text (codes "processed") ∷ Value.number retention_days ∷ [];
}

abbrev pub postgres_inbox_dialect : InboxSqlDialect
postgres_inbox_dialect = record {
  name = DialectName.postgresql;
  placeholder = postgres_placeholder;
  max_parameters = max_parameters;
  supports_returning = true;
  build_inbox_insert = build_inbox_insert;
  build_inbox_bulk_insert = build_inbox_bulk_insert;
  build_mark_failed = build_mark_failed;
  build_find_by_idempotency_keys = build_find_by_idempotency_keys;
  build_cleanup_processed_events = build_cleanup_processed_events;
}
