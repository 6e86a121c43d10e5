-- ===== src/Edge/ErrorHandler.antt =====
-- packages/plugins/error-handler/index.ts. A log entry is its level and the fields that depend on
-- the error; `translate` is the request's `t`, which answers no string with `none`.
pub mod Safety
use protege_mais.Base.{
  String, Bool, not, ◌&&◌, ◌||◌, Option, none, some, ◌==◌, if◌then◌else◌, default, ℤ, pos, ltb_ℤ,
  leb_ℤ, eqb_ℤ, Result, ok, ◌>>=◌,
}
use protege_mais.Text.{Text, codes, is_alphanumeric, is_upper, is_lower}
use protege_mais.Text.Patterns.{head_then}
use protege_mais.Base.Number.{Number, integer, fraction, non_finite, as_integer}
use protege_mais.Common.Errors.{
  Foreign, ErrorOptions, no_options, ApplicationError, Thrown, application, foreign,
  application_error, validation_error, unauthorized_error, forbidden_error, not_found_error,
  conflict_error, too_many_requests_error, business_rule_error,
}

abbrev pub internal_server_error : ApplicationError
internal_server_error = record {
  code = "INTERNAL_SERVER_ERROR";
  message = "Ocorreu um erro interno no servidor.";
  message_key = some "errors.internalServer";
  status_code = pos 500;
  cause = none;
}

-- `readClientStatusCode`
abbrev pub client_range : ℤ → Option ℤ
client_range n = if leb_ℤ (pos 400) n && ltb_ℤ n (pos 500) then some n else none

unfoldable pub read_client_status_code : Foreign → Option ℤ
read_client_status_code e = if not e.is_error then none else elim e.status [
  | none ↦ none
  | some status ↦ elim (as_integer status) [ none ↦ none | some n ↦ client_range n ]
]

abbrev pub caused_by : Foreign → ErrorOptions
caused_by e = record {
  code = none;
  message = none;
  message_key = none;
  status_code = none;
  cause = some e;
}

-- The `switch` on the status.
unfoldable pub error_of_status : Foreign → ℤ → Result Thrown ApplicationError
unfolding application_error validation_error unauthorized_error forbidden_error not_found_error
    conflict_error too_many_requests_error business_rule_error
error_of_status e s =
    if eqb_ℤ s (pos 400)
    then validation_error (caused_by e)
    else if eqb_ℤ s (pos 401)
    then unauthorized_error (caused_by e)
    else if eqb_ℤ s (pos 403)
    then forbidden_error (caused_by e)
    else if eqb_ℤ s (pos 404)
    then not_found_error (caused_by e)
    else if eqb_ℤ s (pos 409)
    then conflict_error (caused_by e)
    else if eqb_ℤ s (pos 429)
    then too_many_requests_error (caused_by e)
    else if eqb_ℤ s (pos 422)
    then business_rule_error (caused_by e)
    else application_error (record {
      code = some "REQUEST_ERROR";
      message = some "Não foi possível processar a solicitação.";
      message_key = some "errors.request";
      status_code = some (integer s);
      cause = some e;
    })

-- `mapClientError`; the constructor of an ApplicationError may throw.
unfoldable pub map_client_error : Thrown → Result Thrown (Option ApplicationError)
unfolding read_client_status_code error_of_status validation_error
map_client_error (application e) = ok (some e)
map_client_error (foreign e) =
    if e.is_error && e.has_validation
    then (validation_error (caused_by e) >>= λ a. ok (some a))
    else elim (read_client_status_code e) [
      | none ↦ ok none
      | some status ↦ error_of_status e status >>= λ a. ok (some a)
    ]

-- `^[A-Za-z][A-Za-z0-9_.-]{0,63}$`
unfoldable pub is_error_name : Text → Bool
unfolding head_then is_alphanumeric is_upper is_lower
is_error_name =
    head_then (λ c. is_upper c || is_lower c)
      (λ c. is_alphanumeric c || c == b'_' || c == b'.' || c == b'-') 0 63

abbrev pub name_or_error : Foreign → Text
name_or_error e = if e.is_error && is_error_name e.name then e.name else codes "Error"

-- `errorType`; an ApplicationError without a cause has the name of its class, the argument `name`.
unfoldable pub error_type : Text → Thrown → Text
unfolding is_error_name
error_type name (application e) = elim e.cause [
  | none ↦ if is_error_name name then name else codes "Error"
  | some cause ↦ name_or_error cause
]
error_type name (foreign e) = name_or_error e

pub data Level : Type 0 where
  info error : Level

pub record LogEntry : Type 0 where
  pub level : Level
  pub error_code : String
  pub error_name : Text
  pub status : ℤ

pub record Response : Type 0 where
  pub status : ℤ
  pub code : String
  pub message : String

unfoldable pub log_application_error : Text → ApplicationError → Thrown → LogEntry
unfolding error_type
log_application_error name e original = record {
  level = if leb_ℤ (pos 500) e.status_code then error else info;
  error_code = e.code;
  error_name = error_type name original;
  status = e.status_code;
}

-- `sendErrorResponse`; `none` is a request without `t`.
unfoldable pub send_error_response :
    Option (String → String → Option String) → ApplicationError → Response
send_error_response translate e = record {
  status = e.status_code;
  code = e.code;
  message = elim e.message_key [
    | none ↦ e.message
    | some key ↦ elim translate [ none ↦ e.message | some t ↦ default (t key e.message) e.message ]
  ];
}

-- The entry of an error that is no client error.
unfoldable pub internal_entry : Text → Thrown → LogEntry
unfolding error_type
internal_entry name e = record {
  level = error;
  error_code = internal_server_error.code;
  error_name = error_type name e;
  status = internal_server_error.status_code;
}

-- The handler of `setErrorHandler`.
unfoldable pub handle_error :
    Option (String → String → Option String) → Text → Thrown → Result Thrown (LogEntry × Response)
unfolding map_client_error log_application_error send_error_response internal_entry
handle_error translate name e = map_client_error e >>= λ mapped. elim mapped [
  | some a ↦ ok (log_application_error name a e, send_error_response translate a)
  | none ↦ ok (internal_entry name e, send_error_response translate internal_server_error)
]

-- The handler of `setNotFoundHandler`.
unfoldable pub handle_not_found :
    Option (String → String → Option String) → Result Thrown (LogEntry × Response)
unfolding not_found_error log_application_error send_error_response
handle_not_found translate = not_found_error no_options >>= λ e. ok (
  log_application_error (codes "NotFoundError") e (application e),
  send_error_response translate e,
)
