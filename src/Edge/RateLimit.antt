-- ===== src/Edge/RateLimit.antt =====
-- packages/middlewares/authentication/index.ts: `FixedWindowLoginRateLimiter`. The HMAC-SHA-256
-- digest and the counter of Redis are parameters; the counter answers a call of
-- `incrementWithExpiration` with its two numbers, or the promise is rejected with a cause.
pub mod Window
use protege_mais.Base.{
  ℕ, not, ◌||◌, Option, none, some, ◌++◌, ltb, ◌==◌, if◌then◌else◌, default, any, ℤ, pos, ◌-ℤ◌,
  ltb_ℤ, leb_ℤ, Result, ok, err, ◌>>=◌, ◌>>◌, throw_if,
}
use protege_mais.Text.{Text, codes, trim, utf16_length, utf8_length, is_ascii_control}
use protege_mais.Common.Errors.{
  Foreign, ApplicationError, Thrown, application, range_error, too_many_requests_error,
  service_unavailable_error,
}
use protege_mais.Base.Number.{Number, integer, is_safe, as_integer}

abbrev pub login_rate_limit_maximum_attempts : ℕ
login_rate_limit_maximum_attempts = 5

abbrev pub login_rate_limit_window_seconds : ℕ
login_rate_limit_window_seconds = 60

abbrev pub rate_limit_key_prefix : Text
rate_limit_key_prefix = codes "rate-limit:authentication:login:"

-- `positiveInteger`
abbrev pub positive_integer : Number → Result Thrown ℤ
positive_integer value = elim (as_integer value) [
  | none ↦ err range_error
  | some n ↦ if not (is_safe n) || leb_ℤ n (pos 0) then err range_error else ok n
]

-- `normalizedClientAddress`
unfoldable pub normalized_client_address : Text → Text
unfolding trim utf16_length is_ascii_control
normalized_client_address address =
    let normalized = trim address in
    if utf16_length normalized == 0
      || ltb 255 (utf16_length normalized)
      || any is_ascii_control normalized
    then codes "unavailable"
    else normalized

pub record Increment : Type 0 where
  pub value : Number
  pub ttl_seconds : Number

pub record Consumption : Type 0 where
  pub remaining_attempts : ℤ
  pub retry_after_seconds : ℤ

pub data Refusal : Type 0 where
  -- `LoginRateLimitExceededError` and its `retryAfterSeconds`
  exceeded : ApplicationError → ℤ → Refusal
  other_error : Thrown → Refusal

pub record Limiter : Type 0 where
  pub secret : Text
  pub maximum_attempts : ℤ
  pub window_seconds : ℤ

-- The constructor; `none` is an option that was left out.
unfoldable pub new_limiter : Text → Option Number → Option Number → Result Thrown Limiter
unfolding utf8_length
new_limiter secret maximum_attempts window_seconds = do
  throw_if (ltb (utf8_length secret) 32) range_error
  maximum ←
      positive_integer (default maximum_attempts (integer (pos login_rate_limit_maximum_attempts)))
  window ← positive_integer (default window_seconds (integer (pos login_rate_limit_window_seconds)))
  ok (record { secret = secret; maximum_attempts = maximum; window_seconds = window })

-- `new ServiceUnavailableError({ … })`
unfoldable pub unavailable : Option Foreign → Refusal
unfolding service_unavailable_error
unavailable cause =
    elim (service_unavailable_error (record {
      code = some "AUTHENTICATION_UNAVAILABLE";
      message = some "A autenticação está temporariamente indisponível.";
      message_key = some "authentication.unavailable";
      status_code = none;
      cause = cause;
    })) [ ok e ↦ other_error (application e) | err e ↦ other_error e ]

-- `new LoginRateLimitExceededError(retryAfterSeconds)`
unfoldable pub limit_exceeded : ℤ → Refusal
unfolding too_many_requests_error
limit_exceeded retry_after =
    elim (too_many_requests_error (record {
      code = some "AUTHENTICATION_RATE_LIMITED";
      message = some "Muitas tentativas de autenticação foram realizadas.";
      message_key = some "authentication.rateLimited";
      status_code = none;
      cause = none;
    })) [ ok e ↦ exceeded e retry_after | err e ↦ other_error e ]

-- The two numbers of an increment, if they are what a counter of this window can say.
unfoldable pub plausible : Limiter → Increment → Option (ℤ × ℤ)
plausible l i = elim (as_integer i.value) [
  | none ↦ none
  | some value ↦ elim (as_integer i.ttl_seconds) [
    | none ↦ none
    | some ttl ↦
        if not (is_safe value)
          || ltb_ℤ value (pos 1)
          || not (is_safe ttl)
          || ltb_ℤ ttl (pos 1)
          || ltb_ℤ l.window_seconds ttl
        then none
        else some (value, ttl)
  ]
]

-- The answer by what is known of the counter's two numbers.
unfoldable pub judged : Limiter → Option (ℤ × ℤ) → Result Refusal Consumption
unfolding unavailable limit_exceeded
judged l none = err (unavailable none)
judged l (some (value, ttl)) =
    if ltb_ℤ l.maximum_attempts value
    then err (limit_exceeded ttl)
    else ok (record { remaining_attempts = l.maximum_attempts -ℤ value; retry_after_seconds = ttl })

-- What `consume` makes of the counter's answer.
unfoldable pub judge : Limiter → Result Foreign Increment → Result Refusal Consumption
unfolding unavailable judged
judge l (err cause) = err (unavailable (some cause))
judge l (ok i) = judged l (plausible l i)

-- `opaqueRateLimitKey`, of the digest of the address under the secret.
unfoldable pub opaque_rate_limit_key : (Text → Text → Text) → Text → Text → Text
unfolding normalized_client_address
opaque_rate_limit_key digest address secret =
    rate_limit_key_prefix ++ digest secret (normalized_client_address address)

-- `consume`, with the counter's state.
unfoldable pub consume :
    {S : Type 0}
    → (Text → Text → Text)
    → (Text → ℤ → S → Result Foreign Increment × S)
    → Limiter
    → Text
    → S
    → Result Refusal Consumption × S
unfolding judge opaque_rate_limit_key
consume digest increment l address s =
    let (answer, s') =
      increment (opaque_rate_limit_key digest address l.secret) l.window_seconds s in
    (judge l answer, s')
