-- ===== src/Config/Environments.antt =====
-- packages/config/validation.ts: the configurations of the applications, each read key by key in the
-- source's order, and the text of a ConfigurationError.
use protege_mais.Base.{ℕ, String, Bool, not, List, [], ◌∷◌, ◌++◌, ok, ◌>>=◌, ◌>>◌, throw_if}
use protege_mais.Text.Unicode.{Unicode}
use protege_mais.Config.Shapes.{Net, is_bucket, is_region}
use protege_mais.Config.Readers.{
  AppEnvironment, LogLevel, ConfigurationErrorReason, missing, invalid, insecure,
  ConfigurationError, EnvironmentSource, Reading, app_environment, with_non_production_default,
  host, port, origins, database_url, jwt_hmac_secret, redis_url, log_level, public_http_url, secret,
  required, read_boolean, email,
}
use protege_mais.Text.{Text, codes, text_eq}

pub record ManagerApiEnvironment : Type 0 where
  pub environment : AppEnvironment
  pub host : Text
  pub port : ℕ
  pub cors_origins : List Text
  pub database_url : Text
  pub jwt_access_secret : Text
  pub jwt_refresh_secret : Text
  pub redis_url : Text
  pub log_level : LogLevel

pub record WorkerEnvironment : Type 0 where
  pub environment : AppEnvironment
  pub redis_url : Text
  pub log_level : LogLevel

pub record ClientEnvironment : Type 0 where
  pub environment : AppEnvironment
  pub api_url : Text

pub record DatabaseEnvironment : Type 0 where
  pub environment : AppEnvironment
  pub database_url : Text

pub record RedisEnvironment : Type 0 where
  pub environment : AppEnvironment
  pub redis_url : Text

pub record JwtEnvironment : Type 0 where
  pub environment : AppEnvironment
  pub access_secret : Text
  pub refresh_secret : Text

pub record EncryptionEnvironment : Type 0 where
  pub environment : AppEnvironment
  pub encryption_key : Text

pub record S3Environment : Type 0 where
  pub environment : AppEnvironment
  pub endpoint : Text
  pub region : Text
  pub bucket : Text
  pub access_key : Text
  pub secret_key : Text

pub record SmtpEnvironment : Type 0 where
  pub environment : AppEnvironment
  pub host : Text
  pub port : ℕ
  pub secure : Bool
  pub user : Text
  pub password : Text
  pub from : Text

-- `errorReasonLabel`, and the message that the constructor of ConfigurationError makes.
abbrev pub error_reason_label : ConfigurationErrorReason → Text
error_reason_label missing = codes "ausente"
error_reason_label invalid = codes "inválida"
error_reason_label insecure = codes "insegura para produção"

abbrev pub join_keys : List String → Text
join_keys [] = []
join_keys (key ∷ []) = codes key
join_keys (key ∷ next ∷ keys) = codes key ++ codes ", " ++ join_keys (next ∷ keys)

unfoldable pub message : ConfigurationError → Text
message e =
    codes "Configuração "
    ++ error_reason_label e.reason
    ++ codes ": "
    ++ join_keys e.keys
    ++ codes "."

-- Two keys whose secrets must differ.
abbrev pub equal_secrets : ConfigurationError
equal_secrets = record { keys = "JWT_ACCESS_SECRET" ∷ "JWT_REFRESH_SECRET" ∷ []; reason = invalid }

module _ (u : Unicode) (net : Net) (source : EnvironmentSource) where
  unfoldable pub create_manager_api_environment : Reading ManagerApiEnvironment
  unfolding app_environment with_non_production_default host port origins database_url
      jwt_hmac_secret redis_url log_level text_eq
  create_manager_api_environment = do
    environment ← app_environment u net source "APP_ENVIRONMENT"
    api_host ← with_non_production_default source "API_HOST" environment (codes "127.0.0.1")
    checked_host ← host u net "API_HOST" api_host
    api_port ← with_non_production_default source "API_PORT" environment (codes "3000")
    checked_port ← port "API_PORT" api_port
    cors ← origins u net source "CORS_ORIGIN"
    database ← database_url u net source environment
    access ← jwt_hmac_secret u net source "JWT_ACCESS_SECRET" environment
    refresh ← jwt_hmac_secret u net source "JWT_REFRESH_SECRET" environment
    redis ← redis_url u net source environment
    level ← log_level u net source environment
    throw_if (text_eq access refresh) equal_secrets
    ok (record {
      environment = environment;
      host = checked_host;
      port = checked_port;
      cors_origins = cors;
      database_url = database;
      jwt_access_secret = access;
      jwt_refresh_secret = refresh;
      redis_url = redis;
      log_level = level;
    })

  unfoldable pub create_worker_environment : Reading WorkerEnvironment
  unfolding app_environment redis_url log_level
  create_worker_environment = do
    environment ← app_environment u net source "APP_ENVIRONMENT"
    redis ← redis_url u net source environment
    level ← log_level u net source environment
    ok (record { environment = environment; redis_url = redis; log_level = level })

  unfoldable pub create_web_environment : Reading ClientEnvironment
  unfolding app_environment public_http_url
  create_web_environment = do
    environment ← app_environment u net source "VITE_APP_ENVIRONMENT"
    url ← public_http_url u net source "VITE_API_URL"
    ok (record { environment = environment; api_url = url })

  unfoldable pub create_mobile_environment : Reading ClientEnvironment
  unfolding app_environment public_http_url
  create_mobile_environment = do
    environment ← app_environment u net source "EXPO_PUBLIC_APP_ENVIRONMENT"
    url ← public_http_url u net source "EXPO_PUBLIC_API_URL"
    ok (record { environment = environment; api_url = url })

  unfoldable pub create_database_environment : Reading DatabaseEnvironment
  unfolding app_environment database_url
  create_database_environment = do
    environment ← app_environment u net source "APP_ENVIRONMENT"
    url ← database_url u net source environment
    ok (record { environment = environment; database_url = url })

  unfoldable pub create_redis_environment : Reading RedisEnvironment
  unfolding app_environment redis_url
  create_redis_environment = do
    environment ← app_environment u net source "APP_ENVIRONMENT"
    url ← redis_url u net source environment
    ok (record { environment = environment; redis_url = url })

  unfoldable pub create_jwt_environment : Reading JwtEnvironment
  unfolding app_environment jwt_hmac_secret text_eq
  create_jwt_environment = do
    environment ← app_environment u net source "APP_ENVIRONMENT"
    access ← jwt_hmac_secret u net source "JWT_ACCESS_SECRET" environment
    refresh ← jwt_hmac_secret u net source "JWT_REFRESH_SECRET" environment
    throw_if (text_eq access refresh) equal_secrets
    ok (record { environment = environment; access_secret = access; refresh_secret = refresh })

  unfoldable pub create_encryption_environment : Reading EncryptionEnvironment
  unfolding app_environment secret
  create_encryption_environment = do
    environment ← app_environment u net source "APP_ENVIRONMENT"
    key ← secret u net source "ENCRYPTION_KEY" environment
    ok (record { environment = environment; encryption_key = key })

  unfoldable pub create_s3_environment : Reading S3Environment
  unfolding app_environment required is_bucket is_region public_http_url secret
  create_s3_environment = do
    environment ← app_environment u net source "APP_ENVIRONMENT"
    bucket ← required source "S3_BUCKET"
    throw_if (not (is_bucket bucket)) (record { keys = "S3_BUCKET" ∷ []; reason = invalid })
    region ← required source "S3_REGION"
    throw_if (not (is_region region)) (record { keys = "S3_REGION" ∷ []; reason = invalid })
    endpoint ← public_http_url u net source "S3_ENDPOINT"
    access_key ← secret u net source "S3_ACCESS_KEY" environment
    secret_key ← secret u net source "S3_SECRET_KEY" environment
    ok (record {
      environment = environment;
      endpoint = endpoint;
      region = region;
      bucket = bucket;
      access_key = access_key;
      secret_key = secret_key;
    })

  unfoldable pub create_smtp_environment : Reading SmtpEnvironment
  unfolding app_environment required host port read_boolean secret email
  create_smtp_environment = do
    environment ← app_environment u net source "APP_ENVIRONMENT"
    smtp_host ← required source "SMTP_HOST"
    checked_host ← host u net "SMTP_HOST" smtp_host
    smtp_port ← required source "SMTP_PORT"
    checked_port ← port "SMTP_PORT" smtp_port
    secure ← read_boolean u net source "SMTP_SECURE"
    user ← required source "SMTP_USER"
    password ← secret u net source "SMTP_PASSWORD" environment
    from ← email u net source "SMTP_FROM"
    ok (record {
      environment = environment;
      host = checked_host;
      port = checked_port;
      secure = secure;
      user = user;
      password = password;
      from = from;
    })
