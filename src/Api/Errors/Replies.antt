-- ===== src/Api/Errors/Replies.antt =====
-- What the API tells of errors of the database.
use outboxy.Base.{
  ◌≡◌, refl, ap, ◌∙◌, Bool, true, false, ◌++◌, some, Text, codes, includes, to_lower_case, ◌⊎◌, inl,
  inr, Bool-cases,
}
use outboxy.Postgres.Errors.{
  DatabaseError, database_error, connection_error, query_timeout_error, constraint_violation_error,
  usage_error,
}
use outboxy.Api.{database}
use outboxy.Api.Errors.{handler_error, handle_error, reply_of_database, constraint_reply}
use outboxy.Mysql.Errors.{MysqlError, mysql_message, map_errno, map_mysql_error}

constraint_reply-cases :
    (request_id message : Text)
    → ((constraint_reply request_id message).message
        ≡ codes "Resource already exists (duplicate key)")
      ⊎ ((constraint_reply request_id message).message
          ≡ codes "Invalid data (constraint violation)")
unfolding constraint_reply
constraint_reply-cases request_id message =
    elim (Bool-cases (includes (codes "unique") (to_lower_case message))) [
      | inl unique ↦ inl (rw unique refl)
      | inr other ↦ inr (rw other refl)
    ]

-- In production, a reply to an error of the database has one of three fixed messages: nothing of the
-- error's own message goes out.
pub handle_error-hides :
    (request_id : Text) (e : DatabaseError)
    → let message = (handle_error true request_id (handler_error (database e))).message in
      (message ≡ codes "An unexpected error occurred")
      ⊎ ((message ≡ codes "Resource already exists (duplicate key)")
          ⊎ (message ≡ codes "Invalid data (constraint violation)"))
unfolding handle_error reply_of_database
handle_error-hides request_id (database_error message cause code) = inl refl
handle_error-hides request_id (connection_error message cause) = inl refl
handle_error-hides request_id (query_timeout_error message cause) = inl refl
handle_error-hides request_id (usage_error message) = inl refl
handle_error-hides request_id (constraint_violation_error message constraint cause) =
    inr (constraint_reply-cases request_id message)

-- An insert that MySQL refuses for a duplicate is answered as a bad request, not as a conflict, unless
-- the text of the error has the word `unique`.
pub mysql_duplicate-is_bad_request :
    (is_production : Bool) (request_id : Text) (e : MysqlError)
    → e.errno ≡ some 1062
    → includes (codes "unique") (to_lower_case (codes "Duplicate entry: " ++ mysql_message e))
      ≡ false
    → (handle_error is_production request_id
        (handler_error (database (map_mysql_error e)))).status_code
      ≡ 400
unfolding handle_error reply_of_database map_mysql_error map_errno constraint_reply
mysql_duplicate-is_bad_request is_production request_id e duplicate other =
    ap (λ n. (reply_of_database is_production request_id (map_errno e n)).status_code) duplicate
    ∙ rw other refl
