-- ===== src/Dialect/Mysql.antt =====
-- packages/dialect-mysql/src/mysql-dialect.ts and mysql-inbox-dialect.ts. The texts are those of the
-- templates after `trim`, for a list of rows that is not empty.
use outboxy.Base.{
  ℕ, Bool, true, false, not, List, ◌∷◌, [], ◌++◌, map, Option, none, some, Text, codes, length,
  ◌==◌, is_empty, if◌then◌else◌,
}
use outboxy.Dialect.{
  Value, JsNumber, JsError, Outcome, returned, threw, SqlStatement, BuildInsertParams,
  BuildBulkInsertParams, DialectName, SqlDialect, InboxSqlDialect,
}
use outboxy.Dialect.Render.{
  join, in_parentheses, mysql_placeholder, mysql_values, all_params, plain_error,
}

abbrev pub max_parameters : ℕ
max_parameters = 65535

-- `verb table (columns) VALUES values`, and what follows.
unfoldable pub insert_text : Text → List Text → List Text → Text → Text
insert_text target columns values ending =
    target
    ++ (codes " ("
        ++ (join (codes ", ") columns
            ++ (codes ")\n      VALUES " ++ (join (codes ", ") values ++ ending))))

-- `columns.map(() => "?")`.
abbrev pub marks {ℓ} : {A : Type ℓ} → List A → List Text
marks xs = map (λ x. codes "?") xs

-- `!params.generatedId`.
abbrev pub is_missing_id : Option Text → Bool
is_missing_id none = true
is_missing_id (some id) = is_empty id

-- `!generatedIds || generatedIds.length !== rows.length`.
abbrev pub is_missing_ids : Option (List Text) → List (List Value) → Bool
is_missing_ids none rows = true
is_missing_ids (some ids) rows = not (length ids == length rows)

abbrev pub on_duplicate_key : Text
on_duplicate_key =
    codes
      "\n      ON DUPLICATE KEY UPDATE\n        updated_at = CASE\n          WHEN status != 'succeeded'\n          THEN NOW()\n          ELSE updated_at\n        END"

unfoldable pub build_insert : BuildInsertParams → Outcome JsError SqlStatement
build_insert p =
    if is_missing_id p.generated_id
    then threw (plain_error (codes "MySQL requires generatedId for INSERT (no RETURNING support)"))
    else returned (record {
      sql =
          insert_text (codes "INSERT INTO outbox_events") p.columns
            (in_parentheses (marks p.columns) ∷ []) on_duplicate_key;
      params = p.values;
    })

unfoldable pub build_bulk_insert : BuildBulkInsertParams → Outcome JsError SqlStatement
build_bulk_insert p =
    if is_missing_ids p.generated_ids p.rows
    then threw (plain_error (codes "MySQL requires generatedIds for bulk INSERT"))
    else returned (record {
      sql = insert_text (codes "INSERT INTO outbox_events") p.columns (mysql_values p.rows) [];
      params = all_params p.rows;
    })

abbrev pub mysql_dialect : SqlDialect
mysql_dialect = record {
  name = DialectName.mysql;
  placeholder = mysql_placeholder;
  max_parameters = max_parameters;
  supports_returning = false;
  build_insert = build_insert;
  build_bulk_insert = build_bulk_insert;
}

unfoldable pub build_inbox_insert : BuildInsertParams → Outcome JsError SqlStatement
build_inbox_insert p =
    if is_missing_id p.generated_id
    then threw
        (plain_error (codes "MySQL requires generatedId for inbox INSERT (no RETURNING support)"))
    else returned (record {
      sql =
          insert_text (codes "INSERT IGNORE INTO inbox_events") p.columns
            (in_parentheses (marks p.columns) ∷ []) [];
      params = p.values;
    })

unfoldable pub build_inbox_bulk_insert : BuildBulkInsertParams → Outcome JsError SqlStatement
build_inbox_bulk_insert p =
    if is_missing_ids p.generated_ids p.rows
    then threw (plain_error (codes "MySQL requires generatedIds for bulk inbox INSERT"))
    else returned (record {
      sql =
          insert_text (codes "INSERT IGNORE INTO inbox_events") p.columns (mysql_values p.rows) [];
      params = all_params p.rows;
    })

unfoldable pub build_mark_failed : Text → Text → SqlStatement
build_mark_failed event_id error = record {
  sql = codes "UPDATE inbox_events SET status = ?, error = ? WHERE id = ?";
  params = Value.text (codes "failed") ∷ Value.text error ∷ Value.text event_id ∷ [];
}

unfoldable pub build_find_by_idempotency_keys : List Text → Outcome JsError SqlStatement
build_find_by_idempotency_keys keys =
    if is_empty keys
    then threw (plain_error (codes "buildFindByIdempotencyKeys requires at least one key"))
    else returned (record {
      sql =
          codes "SELECT id, idempotency_key FROM inbox_events WHERE idempotency_key IN "
          ++ in_parentheses (marks keys);
      params = map Value.text keys;
    })

unfoldable pub build_cleanup_processed_events : JsNumber → SqlStatement
build_cleanup_processed_events retention_days = record {
  sql =
      codes
        "DELETE FROM inbox_events WHERE status = ? AND processed_at < DATE_SUB(NOW(), INTERVAL ? DAY)";
  params = Value.text (codes "processed") ∷ Value.number retention_days ∷ [];
}

abbrev pub mysql_inbox_dialect : InboxSqlDialect
mysql_inbox_dialect = record {
  name = DialectName.mysql;
  placeholder = mysql_placeholder;
  max_parameters = max_parameters;
  supports_returning = false;
  build_inbox_insert = build_inbox_insert;
  build_inbox_bulk_insert = build_inbox_bulk_insert;
  build_mark_failed = build_mark_failed;
  build_find_by_idempotency_keys = build_find_by_idempotency_keys;
  build_cleanup_processed_events = build_cleanup_processed_events;
}
