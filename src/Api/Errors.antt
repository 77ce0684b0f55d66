-- ===== src/Api/Errors.antt =====
-- packages/api/src/plugins/error-handler.plugin.ts, and the classes of packages/api/src/errors.ts.
pub mod Replies
use outboxy.Base.{
  ℕ, ◌≡◌, refl, ap, ◌∙◌, Bool, true, false, List, ◌++◌, Option, none, some, Text, codes, includes,
  to_lower_case, if◌then◌else◌, arith, is_empty, not,
}
use outboxy.Schema.{Json}
use outboxy.Postgres.Errors.{
  DatabaseError, database_error, connection_error, query_timeout_error, constraint_violation_error,
  usage_error,
}
use outboxy.Api.{HandlerError, not_found, invalid_state, database}
use outboxy.Mysql.Errors.{
  MysqlError, mysql_message, map_errno, map_mysql_error, is_constraint_errno, is_connection_errno,
}

-- What reaches the handler of errors: one of Zod or of the framework's schemas, with its details, one of a
-- handler, or another error by its message.
pub data ApiError : Type 0 where
  zod_error : Json → ApiError
  conflict_error : Text → ApiError
  validation_error framework_error : Text → Json → ApiError
  handler_error : HandlerError → ApiError
  other_error : Text → ApiError

pub record ErrorReply : Type 0 where
  pub status_code : ℕ
  pub error : Text
  pub message : Text
  pub details : Option Json
  pub request_id : Text

abbrev pub database_message : DatabaseError → Text
database_message (database_error message cause code) = message
database_message (connection_error message cause) = message
database_message (query_timeout_error message cause) = message
database_message (constraint_violation_error message constraint cause) = message
database_message (usage_error message) = message

-- The last branch.
abbrev pub unexpected : Bool → Text → Text → ErrorReply
unexpected is_production request_id message = record {
  status_code = 500;
  error = codes "Internal Server Error";
  message = (if is_production then codes "An unexpected error occurred" else message);
  details = none;
  request_id = request_id;
}

unfoldable pub constraint_reply : Text → Text → ErrorReply
constraint_reply request_id message =
    let is_unique_violation = includes (codes "unique") (to_lower_case message) in
    record {
      status_code = (if is_unique_violation then 409 else 400);
      error = (if is_unique_violation then codes "Conflict" else codes "Bad Request");
      message =
          (if is_unique_violation
            then codes "Resource already exists (duplicate key)"
            else codes "Invalid data (constraint violation)");
      details = none;
      request_id = request_id;
    }

abbrev pub plain : ℕ → Text → Text → Option Json → Text → ErrorReply
plain status_code error message details request_id = record {
  status_code = status_code;
  error = error;
  message = message;
  details = details;
  request_id = request_id;
}

unfoldable pub reply_of_database : Bool → Text → DatabaseError → ErrorReply
reply_of_database is_production request_id (constraint_violation_error message constraint cause) =
    constraint_reply request_id message
reply_of_database is_production request_id (database_error message cause code) =
    unexpected is_production request_id message
reply_of_database is_production request_id (connection_error message cause) =
    unexpected is_production request_id message
reply_of_database is_production request_id (query_timeout_error message cause) =
    unexpected is_production request_id message
reply_of_database is_production request_id (usage_error message) =
    unexpected is_production request_id message

unfoldable pub handle_error : Bool → Text → ApiError → ErrorReply
handle_error is_production request_id (zod_error details) =
    plain 400 (codes "Validation Error") (codes "Request validation failed") (some details)
      request_id
handle_error is_production request_id (conflict_error message) =
    plain 409 (codes "Conflict") message none request_id
handle_error is_production request_id (validation_error message details) =
    plain 400 (codes "Validation Error") message (some details) request_id
handle_error is_production request_id (framework_error message details) =
    plain 400 (codes "Validation Error") message (some details) request_id
handle_error is_production request_id (handler_error (not_found message)) =
    plain 404 (codes "Not Found") message none request_id
handle_error is_production request_id (handler_error (invalid_state message)) =
    plain 422 (codes "Unprocessable Entity") message none request_id
handle_error is_production request_id (handler_error (database e)) =
    reply_of_database is_production request_id e
handle_error is_production request_id (other_error message) =
    unexpected is_production request_id message
