-- ===== src/Common/Errors.antt =====
-- packages/common/errors/index.ts. Of an error that the source did not make itself, a `Foreign`
-- keeps what some code reads: its name, whether Fastify attached `validation`, and `statusCode`.
use protege_mais.Base.{
  ℕ, Bool, true, false, String, Option, none, some, if◌then◌else◌, ℤ, pos, ltb_ℤ, default, Result,
  ok, err, ◌||◌,
}
use protege_mais.Base.Number.{Number, integer, fraction, non_finite}
use protege_mais.Text.{Text, codes}

-- A thrown value that is no ApplicationError.
pub record Foreign : Type 0 where
  -- `value instanceof Error`
  pub is_error : Bool
  pub name : Text
  pub has_validation : Bool
  pub status : Option Number

-- `new RangeError(…)` and the like: an error with a name and nothing else.
abbrev pub named : Text → Foreign
named n = record { is_error = true; name = n; has_validation = false; status = none }

-- The constants of `ApplicationErrorOptions`; the message and its key are texts of the source.
pub record ErrorOptions : Type 0 where
  pub code : Option String
  pub message : Option String
  pub message_key : Option String
  pub status_code : Option Number
  pub cause : Option Foreign

pub record ApplicationError : Type 0 where
  pub code : String
  pub message : String
  pub message_key : Option String
  pub status_code : ℤ
  pub cause : Option Foreign

pub data Thrown : Type 0 where
  application : ApplicationError → Thrown
  foreign : Foreign → Thrown

abbrev pub range_error : Thrown
range_error = foreign (named (codes "RangeError"))

abbrev pub type_error : Thrown
type_error = foreign (named (codes "TypeError"))

abbrev pub plain_error : Thrown
plain_error = foreign (named (codes "Error"))

abbrev pub no_options : ErrorOptions
no_options = record {
  code = none;
  message = none;
  message_key = none;
  status_code = none;
  cause = none;
}

-- The key of the default message stands only while the message is the default one.
abbrev pub key_or : Option String → Option String → String → Option String
key_or (some k) message fallback = some k
key_or none none fallback = some fallback
key_or none (some m) fallback = none

-- `!Number.isInteger(statusCode) || statusCode < 400 || statusCode > 599`
abbrev pub http_status : Number → Option ℤ
http_status (integer n) = if ltb_ℤ n (pos 400) || ltb_ℤ (pos 599) n then none else some n
http_status fraction = none
http_status non_finite = none

-- `new ApplicationError(options)`
unfoldable pub application_error : ErrorOptions → Result Thrown ApplicationError
application_error o = elim (http_status (default o.status_code (integer (pos 500)))) [
  | none ↦ err range_error
  | some status ↦ ok (record {
    code = default o.code "APPLICATION_ERROR";
    message = default o.message "Não foi possível processar a solicitação.";
    message_key = key_or o.message_key o.message "errors.application";
    status_code = status;
    cause = o.cause;
  })
]

-- What each subclass passes to its parent: its own code, message, key and status.
abbrev pub specialized : String → String → String → ℕ → ErrorOptions → ErrorOptions
specialized code message key status o = record {
  code = some (default o.code code);
  message = some (default o.message message);
  message_key = key_or o.message_key o.message key;
  status_code = some (integer (pos status));
  cause = o.cause;
}

unfoldable pub validation_error : ErrorOptions → Result Thrown ApplicationError
unfolding application_error
validation_error o =
    application_error
      (specialized "VALIDATION_ERROR" "Os dados enviados são inválidos." "errors.validation" 400 o)

unfoldable pub unauthorized_error : ErrorOptions → Result Thrown ApplicationError
unfolding application_error
unauthorized_error o =
    application_error
      (specialized "UNAUTHORIZED" "Autenticação necessária." "authentication.required" 401 o)

unfoldable pub forbidden_error : ErrorOptions → Result Thrown ApplicationError
unfolding application_error
forbidden_error o =
    application_error (specialized "FORBIDDEN" "Acesso negado." "errors.forbidden" 403 o)

unfoldable pub not_found_error : ErrorOptions → Result Thrown ApplicationError
unfolding application_error
not_found_error o =
    application_error (specialized "NOT_FOUND" "Recurso não encontrado." "errors.notFound" 404 o)

unfoldable pub conflict_error : ErrorOptions → Result Thrown ApplicationError
unfolding application_error
conflict_error o = application_error (
    specialized "CONFLICT" "A solicitação está em conflito com o estado atual." "errors.conflict"
      409 o)

unfoldable pub business_rule_error : ErrorOptions → Result Thrown ApplicationError
unfolding application_error
business_rule_error o = application_error (
    specialized "BUSINESS_RULE_ERROR" "A regra de negócio não foi atendida." "errors.businessRule"
      422 o)

unfoldable pub too_many_requests_error : ErrorOptions → Result Thrown ApplicationError
unfolding application_error
too_many_requests_error o = application_error (
    specialized "TOO_MANY_REQUESTS" "Muitas solicitações foram realizadas." "errors.tooManyRequests"
      429 o)

unfoldable pub infrastructure_error : ErrorOptions → Result Thrown ApplicationError
unfolding application_error
infrastructure_error o = application_error (
    specialized "INFRASTRUCTURE_ERROR" "O serviço está temporariamente indisponível."
      "errors.infrastructure" 500 o)

unfoldable pub service_unavailable_error : ErrorOptions → Result Thrown ApplicationError
unfolding application_error
service_unavailable_error o = application_error (
    specialized "SERVICE_UNAVAILABLE" "O serviço está temporariamente indisponível."
      "errors.serviceUnavailable" 503 o)
