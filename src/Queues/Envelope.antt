-- ===== src/Queues/Envelope.antt =====
-- packages/plugins/queues/index.ts: job names, keys, envelopes and the retry policy.
-- `serialized_bytes` is the length of `JSON.stringify` of the envelope in UTF-8, and the SHA-256
-- digest of the two parts of an identity a parameter.
use protege_mais.Base.{
  ℕ, ◌*◌, Bool, true, false, not, ◌&&◌, ◌||◌, Option, none, some, [], ◌∷◌, ◌++◌, ltb, ◌==◌,
  if◌then◌else◌, default, any, ℤ, pos, leb_ℤ, Result, ok, err, ◌>>◌, throw_if,
}
use protege_mais.Text.{
  Text, codes, text_eq, is_digit, is_lower, is_ascii_control, utf16_length, trim,
}
use protege_mais.Text.Unicode.{Unicode}
use protege_mais.Text.Patterns.{is_identifier}
use protege_mais.Base.Number.{Number, integer, is_safe, as_integer}
use protege_mais.Common.Errors.{Thrown, range_error, type_error}
use protege_mais.Queues.Payload.{Members, plain, assert_payload_value}

abbrev pub queue_job_data_maximum_bytes : ℕ
queue_job_data_maximum_bytes = 16 * 1024

-- `^[a-z][a-z0-9]*(?:[.-][a-z0-9]+)*$`: `fresh` where a separator was the last character.
abbrev pub is_name_char : ℕ → Bool
is_name_char c = is_lower c || is_digit c

unfoldable pub name_from : Bool → Text → Bool
unfolding is_lower is_digit
name_from fresh [] = not fresh
name_from fresh (c ∷ s) =
    let after_separator = name_from true s in
    let after_char = name_from false s in
    if is_name_char c then after_char else not fresh && (c == b'.' || c == b'-') && after_separator

unfoldable pub is_job_name : Text → Bool
unfolding is_lower name_from
is_job_name [] = false
is_job_name (c ∷ s) = is_lower c && name_from false s

unfoldable pub assert_job_name : Text → Result Thrown (Unit {0})
unfolding is_job_name utf16_length
assert_job_name name = throw_if (ltb 128 (utf16_length name) || not (is_job_name name)) range_error

unfoldable pub assert_idempotency_key : Text → Result Thrown (Unit {0})
unfolding trim utf16_length text_eq is_ascii_control
assert_idempotency_key key =
    throw_if
      (utf16_length key == 0
        || ltb 512 (utf16_length key)
        || not (text_eq key (trim key))
        || any is_ascii_control key)
      range_error

pub record BaseJobEnvelope : Type 0 where
  pub correlation_id : Text
  pub payload : Members

-- What `parseJobEnvelope` reads of a value that `isRecord` accepts: whether the version is the
-- contract's, and the correlation and the payload where they are a text and a plain object.
pub record RawEnvelope : Type 0 where
  pub version_matches : Bool
  pub correlation_id : Option Text
  pub payload : Option Members

-- `validCorrelationIdentifier`
unfoldable pub valid_correlation_identifier : Option Text → Option Text
unfolding is_identifier
valid_correlation_identifier none = none
valid_correlation_identifier (some value) = if is_identifier value then some value else none

unfoldable pub parse_job_envelope :
    Unicode → (BaseJobEnvelope → ℕ) → Option RawEnvelope → Result Thrown BaseJobEnvelope
unfolding valid_correlation_identifier assert_payload_value
parse_job_envelope u serialized_bytes none = err type_error
parse_job_envelope u serialized_bytes (some raw) =
    elim (valid_correlation_identifier raw.correlation_id) [
      | none ↦ err type_error
      | some correlation_id ↦ elim raw.payload [
        | none ↦ err type_error
        | some payload ↦
            let envelope : BaseJobEnvelope = record {
              correlation_id = correlation_id;
              payload = payload;
            } in
            if not raw.version_matches
            then err type_error
            else assert_payload_value u (plain payload) 0
              >> (throw_if (ltb queue_job_data_maximum_bytes (serialized_bytes envelope))
                    range_error
                  >> ok envelope)
      ]
    ]

unfoldable pub create_job_envelope :
    Unicode → (BaseJobEnvelope → ℕ) → Text → Members → Result Thrown BaseJobEnvelope
unfolding parse_job_envelope
create_job_envelope u serialized_bytes correlation_id payload =
    parse_job_envelope u serialized_bytes (
      some (record {
        version_matches = true;
        correlation_id = some correlation_id;
        payload = some payload;
      }))

-- `queueJobId`
unfoldable pub queue_job_id : (Text → Text) → Text → Text → Result Thrown Text
unfolding assert_job_name assert_idempotency_key
queue_job_id digest name key = do
  assert_job_name name
  assert_idempotency_key key
  ok (codes "job-" ++ digest (name ++ (0 ∷ key)))

pub record QueueRetryPolicy : Type 0 where
  pub attempts : Number
  pub backoff_delay_ms : Number

-- `Number.isSafeInteger(n) && low <= n && n <= high`
abbrev pub is_between : ℤ → ℤ → Number → Bool
is_between low high n = elim (as_integer n) [
  | none ↦ false
  | some k ↦ is_safe k && leb_ℤ low k && leb_ℤ k high
]

unfoldable pub normalize_retry_policy : Option QueueRetryPolicy → Result Thrown QueueRetryPolicy
normalize_retry_policy policy =
    let normalized =
      default policy
        (record { attempts = integer (pos 3); backoff_delay_ms = integer (pos 1000) }) in
    if is_between (pos 1) (pos 10) normalized.attempts
      && is_between (pos 1) (pos 60000) normalized.backoff_delay_ms
    then ok normalized
    else err range_error
