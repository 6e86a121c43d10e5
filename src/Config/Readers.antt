-- ===== src/Config/Readers.antt =====
-- packages/config/validation.ts: one key of the environment is read by one function, which may
-- throw a ConfigurationError on it.
use protege_mais.Base.{
  ℕ, String, Bool, true, false, not, ◌&&◌, ◌||◌, Option, none, some, List, [], ◌∷◌, map, leb,
  if◌then◌else◌, any, Result, ok, err, ◌>>=◌, ◌>>◌, throw_if,
}
use protege_mais.Text.{Text, codes, text_eq, trim, utf8_length, member}
use protege_mais.Text.Unicode.{Unicode}
use protege_mais.Config.Shapes.{
  Url, Net, split_on, is_host, is_decimal, decimal_from, is_unsafe_production_secret, is_mailbox,
  is_database_path, unique_from, is_empty,
}

pub data AppEnvironment : Type 0 where
  local dev hmg prod : AppEnvironment

pub data LogLevel : Type 0 where
  trace debug info warn error fatal silent : LogLevel

pub data ConfigurationErrorReason : Type 0 where
  missing invalid insecure : ConfigurationErrorReason

pub record ConfigurationError : Type 0 where
  pub keys : List String
  pub reason : ConfigurationErrorReason

abbrev pub EnvironmentSource : Type 0
EnvironmentSource = String → Option Text

abbrev pub Reading : Type 0 → Type 0
Reading A = Result ConfigurationError A

abbrev pub blame {ℓ} :
    {A : Type ℓ} → String → ConfigurationErrorReason → Result ConfigurationError A
blame key reason = err (record { keys = key ∷ []; reason = reason })

abbrev pub is_prod : AppEnvironment → Bool
is_prod local = false
is_prod dev = false
is_prod hmg = false
is_prod prod = true

-- The text, if it is not empty.
abbrev pub solid : Text → Option Text
solid [] = none
solid (c ∷ s) = some (c ∷ s)

-- `optional`
unfoldable pub read_optional : EnvironmentSource → String → Option Text
unfolding trim
read_optional source key = elim (source key) [ none ↦ none | some raw ↦ solid (trim raw) ]

unfoldable pub required : EnvironmentSource → String → Reading Text
unfolding read_optional
required source key = elim (read_optional source key) [
  | none ↦ blame key missing
  | some value ↦ ok value
]

abbrev pub environment_named : Text → Option AppEnvironment
environment_named value =
    if text_eq value (codes "LOCAL")
    then some local
    else if text_eq value (codes "DEV")
    then some dev
    else if text_eq value (codes "HMG")
    then some hmg
    else if text_eq value (codes "PROD")
    then some prod
    else none

abbrev pub or_blame : {A : Type 0} → String → ConfigurationErrorReason → Option A → Reading A
or_blame key reason none = blame key reason
or_blame key reason (some a) = ok a

-- `value`, if it passes a test.
abbrev pub passing : {A : Type 0} → String → ConfigurationErrorReason → Bool → A → Reading A
passing key reason fine value = if fine then ok value else blame key reason

abbrev pub level_named : Text → Option LogLevel
level_named value =
    if text_eq value (codes "trace")
    then some trace
    else if text_eq value (codes "debug")
    then some debug
    else if text_eq value (codes "info")
    then some info
    else if text_eq value (codes "warn")
    then some warn
    else if text_eq value (codes "error")
    then some error
    else if text_eq value (codes "fatal")
    then some fatal
    else if text_eq value (codes "silent")
    then some silent
    else none

unfoldable pub with_non_production_default :
    EnvironmentSource → String → AppEnvironment → Text → Reading Text
unfolding read_optional
with_non_production_default source key environment fallback = elim (read_optional source key) [
  | some value ↦ ok value
  | none ↦ if is_prod environment then blame key missing else ok fallback
]

-- The digits of a number beyond 2 ^ 53 are rounded by `Number`, and refused all the same.
unfoldable pub port : String → Text → Reading ℕ
unfolding is_decimal decimal_from
port key value =
    if is_decimal value && leb 1 (decimal_from 0 value) && leb (decimal_from 0 value) 65535
    then ok (decimal_from 0 value)
    else blame key invalid

unfoldable pub boolean_named : Text → Option Bool
unfolding text_eq
boolean_named value =
    if text_eq value (codes "true")
    then some true
    else if text_eq value (codes "false")
    then some false
    else none

module _ (u : Unicode) (net : Net) where
  unfoldable pub app_environment : EnvironmentSource → String → Reading AppEnvironment
  unfolding required text_eq
  app_environment source key = do
    value ← required source key
    or_blame key invalid (environment_named (u.to_upper_case value))

  unfoldable pub host : String → Text → Reading Text
  unfolding is_host
  host key value = passing key invalid (is_host net value) value

  unfoldable pub parsed_url : String → List Text → Text → Reading Url
  unfolding member
  parsed_url key protocols value = do
    parsed ← or_blame key invalid (net.parse_url value)
    passing key invalid (member parsed.protocol protocols && not (is_empty parsed.hostname)) parsed

  -- `urlPassword`, and the test of what it gives.
  unfoldable pub checked_password : String → AppEnvironment → Url → Reading (Unit {0})
  unfolding is_unsafe_production_secret
  checked_password key environment parsed =
      if is_prod environment && not (is_empty parsed.password)
      then (or_blame key invalid (net.decode_uri_component parsed.password) >>= λ password.
          throw_if (is_unsafe_production_secret u password)
            (record { keys = key ∷ []; reason = insecure }))
      else ok tt

  unfoldable pub database_url : EnvironmentSource → AppEnvironment → Reading Text
  unfolding required parsed_url checked_password text_eq
  database_url source environment = do
    value ← required source "DATABASE_URL"
    parsed ← parsed_url "DATABASE_URL" (codes "postgres:" ∷ codes "postgresql:" ∷ []) value
    throw_if (is_empty parsed.pathname || text_eq parsed.pathname (codes "/"))
        (record { keys = "DATABASE_URL" ∷ []; reason = invalid })
    checked_password "DATABASE_URL" environment parsed
    ok value

  unfoldable pub redis_url : EnvironmentSource → AppEnvironment → Reading Text
  unfolding required parsed_url checked_password is_database_path
  redis_url source environment = do
    value ← required source "REDIS_URL"
    parsed ← parsed_url "REDIS_URL" (codes "redis:" ∷ codes "rediss:" ∷ []) value
    throw_if
        (not (is_database_path parsed.pathname)
          || not (is_empty parsed.search)
          || not (is_empty parsed.hash))
        (record { keys = "REDIS_URL" ∷ []; reason = invalid })
    checked_password "REDIS_URL" environment parsed
    ok value

  unfoldable pub public_http_url : EnvironmentSource → String → Reading Text
  unfolding required parsed_url
  public_http_url source key = do
    value ← required source key
    parsed ← parsed_url key (codes "http:" ∷ codes "https:" ∷ []) value
    passing key invalid (is_empty parsed.username && is_empty parsed.password) value

  -- The origin of one item of a list of origins.
  unfoldable pub origin : String → Text → Reading Text
  unfolding parsed_url text_eq
  origin key value = do
    parsed ← parsed_url key (codes "http:" ∷ codes "https:" ∷ []) value
    passing key invalid
        (is_empty parsed.username
          && is_empty parsed.password
          && (is_empty parsed.pathname || text_eq parsed.pathname (codes "/"))
          && is_empty parsed.search
          && is_empty parsed.hash)
        parsed.origin

  -- `values.map(…)`, where the first throw ends it.
  unfoldable pub each_origin : String → List Text → Reading (List Text)
  unfolding origin
  each_origin key [] = ok []
  each_origin key (x ∷ xs) = do o ← origin key x; os ← each_origin key xs; ok (o ∷ os)

  unfoldable pub origins : EnvironmentSource → String → Reading (List Text)
  unfolding required split_on trim each_origin unique_from
  origins source key = do
    value ← required source key
    throw_if (any is_empty (map trim (split_on b',' value)))
        (record { keys = key ∷ []; reason = invalid })
    normalized ← each_origin key (map trim (split_on b',' value))
    ok (unique_from [] normalized)

  unfoldable pub log_level : EnvironmentSource → AppEnvironment → Reading LogLevel
  unfolding with_non_production_default text_eq
  log_level source environment = do
    value ← with_non_production_default source "LOG_LEVEL" environment (codes "info")
    or_blame "LOG_LEVEL" invalid (level_named (u.to_lower_case value))

  unfoldable pub checked_secret : String → AppEnvironment → Text → Reading Text
  unfolding trim text_eq is_unsafe_production_secret
  checked_secret key environment raw =
      if is_empty (trim raw)
      then blame key missing
      else if not (text_eq raw (trim raw))
      then blame key invalid
      else if is_prod environment && is_unsafe_production_secret u raw
      then blame key insecure
      else ok raw

  unfoldable pub secret : EnvironmentSource → String → AppEnvironment → Reading Text
  unfolding checked_secret
  secret source key environment = elim (source key) [
    | none ↦ blame key missing
    | some raw ↦ checked_secret key environment raw
  ]

  unfoldable pub jwt_hmac_secret : EnvironmentSource → String → AppEnvironment → Reading Text
  unfolding secret utf8_length
  jwt_hmac_secret source key environment = do
    value ← secret source key environment
    passing key invalid (leb 32 (utf8_length value)) value

  -- `boolean`
  unfoldable pub read_boolean : EnvironmentSource → String → Reading Bool
  unfolding required boolean_named
  read_boolean source key = do
    value ← required source key
    or_blame key invalid (boolean_named (u.to_lower_case value))

  unfoldable pub email : EnvironmentSource → String → Reading Text
  unfolding required is_mailbox
  email source key = do value ← required source key; passing key invalid (is_mailbox value) value
