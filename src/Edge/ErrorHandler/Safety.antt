-- ===== src/Edge/ErrorHandler/Safety.antt =====
-- packages/plugins/error-handler/index.ts: what leaves the process in an answer and in the log.
use protege_mais.Base.{
  String, ◌≡◌, refl, sym, ap, ◌∙◌, ◌⊎◌, inl, inr, true, ◌&&◌, Option, none, some, arith,
  if◌then◌else◌, Bool-cases, Option-cases, default, ℤ, pos, negsuc, ◌≤ℤ◌, ◌<ℤ◌, leb_ℤ, Result, ok,
  err,
}
use protege_mais.Edge.ErrorHandler.{
  internal_entry, internal_server_error, handle_error, send_error_response, log_application_error,
  Response, LogEntry, map_client_error, read_client_status_code, error_of_status, is_error_name,
  name_or_error, error_type, info, error,
}
use protege_mais.Common.Errors.{
  application_error, Foreign, ApplicationError, Thrown, application, foreign, validation_error,
}
use protege_mais.Text.{Text, codes, is_upper, is_lower, is_alphanumeric}
use protege_mais.Text.Patterns.{head_then}

is_error_name-fallback : is_error_name (codes "Error") ≡ true
unfolding is_error_name head_then is_upper is_lower is_alphanumeric
is_error_name-fallback = refl

is_error_name-name_or_error : (e : Foreign) → is_error_name (name_or_error e) ≡ true
is_error_name-name_or_error e = elim (Bool-cases (e.is_error && is_error_name e.name)) [
  | inl good ↦ rw good (ground (arith, good))
  | inr bad ↦ rw bad is_error_name-fallback
]

is_error_name-error_type : (name : Text) (e : Thrown) → is_error_name (error_type name e) ≡ true
unfolding error_type
is_error_name-error_type name (foreign e) = is_error_name-name_or_error e
is_error_name-error_type name (application e) = elim (Option-cases e.cause) [
  | inl absent ↦ rw absent (elim (Bool-cases (is_error_name name)) [
    | inl good ↦ rw good good
    | inr bad ↦ rw bad is_error_name-fallback
  ])
  | inr (cause, given) ↦ rw given (is_error_name-name_or_error cause)
]

-- The entry of the log and the answer agree: they have one status and one code, the level is that
-- of an error exactly from status 500 on, and the logged name is a plain identifier.
pub record IsConsistent (log : LogEntry) (r : Response) : Type 0 where
  pub same_status : log.status ≡ r.status
  pub same_code : log.error_code ≡ r.code
  pub level : log.level ≡ (if leb_ℤ (pos 500) r.status then error else info)
  pub plain_name : is_error_name log.error_name ≡ true

-- The status of the answer to a value that is no ApplicationError.
unfoldable pub foreign_status : Foreign → ℤ
unfolding read_client_status_code
foreign_status e =
    if e.is_error && e.has_validation
    then pos 400
    else default (read_client_status_code e) (pos 500)

status_of : Result Thrown ApplicationError → Option ℤ
status_of (ok a) = some a.status_code
status_of (err x) = none

client_status_in_range :
    (e : Foreign) (n : ℤ) → read_client_status_code e ≡ some n → (pos 400 ≤ℤ n) × (n <ℤ pos 500)
unfolding read_client_status_code
client_status_in_range e n h = (ground arith, ground arith)

status_switched :
    (e : Foreign) (n : ℤ) → pos 400 ≤ℤ n → n <ℤ pos 500 → status_of (error_of_status e n) ≡ some n
unfolding status_of error_of_status application_error
status_switched e (pos k) low high = ground arith
status_switched e (negsuc k) low high = ground (arith, low)

made_of_status :
    (r : Result Thrown ApplicationError) (n : ℤ)
    → status_of r ≡ some n
    → (a : ApplicationError) × (r ≡ ok a) × (a.status_code ≡ n)
unfolding status_of
made_of_status (ok a) n e = (a, refl, ground (arith, e))
made_of_status (err x) n e = cc

status_made :
    (e : Foreign) (n : ℤ)
    → read_client_status_code e ≡ some n
    → (a : ApplicationError) × (error_of_status e n ≡ ok a) × (a.status_code ≡ n)
status_made e n h =
    let (low, high) = client_status_in_range e n h in
    made_of_status (error_of_status e n) n (status_switched e n low high)

mapped_foreign :
    (e : Foreign)
    → ((map_client_error (foreign e) ≡ ok none) × (foreign_status e ≡ pos 500))
      ⊎ ((a : ApplicationError) × (map_client_error (foreign e) ≡ ok (some a))
          × (a.status_code ≡ foreign_status e)
          × (foreign_status e <ℤ pos 500))
unfolding map_client_error foreign_status validation_error
mapped_foreign e = elim (Bool-cases (e.is_error && e.has_validation)) [
  | inl validated ↦ rw validated (inr (_, refl, refl, ground arith))
  | inr plain ↦ rw plain (elim (Option-cases (read_client_status_code e)) [
    | inl absent ↦ rw absent (inl (refl, refl))
    | inr (n, found) ↦
        let (a, made, same) = status_made e n found in
        rw (found, made) (inr (a, refl, same, (client_status_in_range e n found).1))
  ])
]

-- The status that the answer to a thrown value is to have.
abbrev pub expected_status : Thrown → ℤ
expected_status (application a) = a.status_code
expected_status (foreign e) = foreign_status e

-- An answer to a thrown value: it has the expected status, agrees with the log, and is the
-- constant one of an internal error where the value is foreign and no client error.
abbrev pub Answers :
    Option (String → String → Option String) → Thrown → LogEntry → Response → Type 0
Answers translate e log r =
    IsConsistent log r
    × (r.status ≡ expected_status e)
    × ((f : Foreign)
        → e ≡ foreign f
        → foreign_status f ≡ pos 500
        → r ≡ send_error_response translate internal_server_error)

sent_status :
    (translate : Option (String → String → Option String)) (a : ApplicationError)
    → (send_error_response translate a).status ≡ a.status_code
unfolding send_error_response
sent_status translate a = refl

not_below :
    (e f : Foreign)
    → foreign e ≡ foreign f
    → foreign_status f ≡ pos 500
    → ¬ (foreign_status e <ℤ pos 500)
not_below e f same is_500 below =
    let equal : e ≡ f = cc same in
    let status : foreign_status e ≡ pos 500 = cc (ap foreign_status equal ∙ is_500) in
    ground (arith, status, below)

logged-IsConsistent :
    (translate : Option (String → String → Option String)) (name : Text) (a : ApplicationError)
    (e : Thrown)
    → IsConsistent (log_application_error name a e) (send_error_response translate a)
unfolding log_application_error send_error_response
logged-IsConsistent translate name a e = record {
  same_status = refl;
  same_code = refl;
  level = refl;
  plain_name = is_error_name-error_type name e;
}

internal-IsConsistent :
    (translate : Option (String → String → Option String)) (name : Text) (e : Thrown)
    → IsConsistent (internal_entry name e) (send_error_response translate internal_server_error)
unfolding send_error_response internal_entry
internal-IsConsistent translate name e = record {
  same_status = refl;
  same_code = refl;
  level = refl;
  plain_name = is_error_name-error_type name e;
}

-- The handler always answers: whatever a route throws, it returns one entry of the log and one
-- answer, which agree in status and code; the level is that of an error from status 500 on, and
-- the logged name of the error is a plain identifier. An ApplicationError keeps its status. A
-- foreign error has status 400 with validation details, else the client status that it carries,
-- else 500, and at 500 the answer is the constant one of an internal error.
pub handle_error-Answers :
    (translate : Option (String → String → Option String)) (name : Text) (e : Thrown)
    → (log : LogEntry) × (r : Response) × (handle_error translate name e ≡ ok (log, r))
      × Answers translate e log r
unfolding handle_error map_client_error
handle_error-Answers translate name (application a) = (
  _,
  _,
  refl,
  (logged-IsConsistent translate name a (application a), sent_status translate a, λ f same. cc),
)
handle_error-Answers translate name (foreign e) = elim (mapped_foreign e) [
  | inl (none_made, status) ↦ rw none_made (
    _,
    _,
    refl,
    (
      internal-IsConsistent translate name (foreign e),
      sent_status translate internal_server_error ∙ sym status,
      λ f same is_500. refl,
    ),
  )
  | inr (a, made, status, below) ↦ rw made (
    _,
    _,
    refl,
    (
      logged-IsConsistent translate name a (foreign e),
      sent_status translate a ∙ status,
      λ f same is_500. absurd (not_below e f same is_500 below),
    ),
  )
]
