-- ===== src/Config/Accepted.antt =====
-- packages/config/validation.ts: what an accepted configuration of the manager API holds, and that
-- the other configurations read from the same source agree with it.
use protege_mais.Base.{
  ℕ, ◌≤◌, String, ◌≡◌, refl, sym, ap, ◌∙◌, ◌≢◌, Bool, true, false, ◌&&◌, Option, none, some, arith,
  leb, leb→le, ok, throw_if, bind_inv, ok_inj,
}
use protege_mais.Text.{text_eq_refl, codes, utf8_length, text_eq, trim, Text, text_eq→eq}
use protege_mais.Config.Readers.{
  origins, log_level, redis_url, with_non_production_default, passing, is_prod, invalid,
  database_url, secret, jwt_hmac_secret, checked_secret, app_environment, ConfigurationErrorReason,
  EnvironmentSource, AppEnvironment, host, port,
}
use protege_mais.Config.Shapes.{is_unsafe_production_secret, is_host, Net}
use protege_mais.Config.Hosts.{IsHostShape, is_host-IsHostShape}
use mathlib.Core.Path.{subst}
use protege_mais.Text.Unicode.{Unicode}
use protege_mais.Config.Environments.{
  create_manager_api_environment, equal_secrets, ManagerApiEnvironment, create_jwt_environment,
  create_worker_environment, create_redis_environment, create_database_environment,
}

unless_inv : {E : Type 0} (b : Bool) (e : E) → throw_if b e ≡ ok tt → b ≡ false
unless_inv false e h = refl
unless_inv true e h = cc

passing_inv :
    {A : Type 0} (key : String) (reason : ConfigurationErrorReason) (b : Bool) (value result : A)
    → passing key reason b value ≡ ok result
    → (b ≡ true) × (value ≡ result)
passing_inv key reason false value result e = cc
passing_inv key reason true value result e = (refl, ok_inj e)

differ_of : (s t : Text) → text_eq s t ≡ false → s ≢ t
differ_of s t distinct same =
    cc (sym distinct ∙ subst (λ x. text_eq s x ≡ true) same (text_eq_refl s))

module _ (u : Unicode) (net : Net) (source : EnvironmentSource) where
  -- Each key of an accepted configuration was read and accepted.
  record Steps (c : ManagerApiEnvironment) : Type 0 where
    environment_read : app_environment u net source "APP_ENVIRONMENT" ≡ ok c.environment
    api_host : Text
    host_read : host u net "API_HOST" api_host ≡ ok c.host
    api_port : Text
    port_read : port "API_PORT" api_port ≡ ok c.port
    database_read : database_url u net source c.environment ≡ ok c.database_url
    access_read :
        jwt_hmac_secret u net source "JWT_ACCESS_SECRET" c.environment ≡ ok c.jwt_access_secret
    refresh_read :
        jwt_hmac_secret u net source "JWT_REFRESH_SECRET" c.environment ≡ ok c.jwt_refresh_secret
    redis_read : redis_url u net source c.environment ≡ ok c.redis_url
    level_read : log_level u net source c.environment ≡ ok c.log_level
    distinct : text_eq c.jwt_access_secret c.jwt_refresh_secret ≡ false

  manager_inv :
      (c : ManagerApiEnvironment) → create_manager_api_environment u net source ≡ ok c → Steps c
  unfolding create_manager_api_environment
  manager_inv c accepted =
      let (environment, r₁, e₁) =
        bind_inv _ (app_environment u net source "APP_ENVIRONMENT") accepted in
      let (api_host, r₂, e₂) =
        bind_inv _ (with_non_production_default source "API_HOST" environment (codes "127.0.0.1"))
          r₁ in
      let (checked_host, r₃, e₃) = bind_inv _ (host u net "API_HOST" api_host) r₂ in
      let (api_port, r₄, e₄) =
        bind_inv _ (with_non_production_default source "API_PORT" environment (codes "3000")) r₃ in
      let (checked_port, r₅, e₅) = bind_inv _ (port "API_PORT" api_port) r₄ in
      let (cors, r₆, e₆) = bind_inv _ (origins u net source "CORS_ORIGIN") r₅ in
      let (database, r₇, e₇) = bind_inv _ (database_url u net source environment) r₆ in
      let (access, r₈, e₈) =
        bind_inv _ (jwt_hmac_secret u net source "JWT_ACCESS_SECRET" environment) r₇ in
      let (refresh, r₉, e₉) =
        bind_inv _ (jwt_hmac_secret u net source "JWT_REFRESH_SECRET" environment) r₈ in
      let (redis, r₁₀, e₁₀) = bind_inv _ (redis_url u net source environment) r₉ in
      let (level, r₁₁, e₁₁) = bind_inv _ (log_level u net source environment) r₁₀ in
      let (done, r₁₂, e₁₂) = bind_inv _ (throw_if (text_eq access refresh) equal_secrets) r₁₁ in
      subst Steps (ok_inj r₁₂) (record {
        environment_read = e₁;
        api_host = api_host;
        host_read = e₃;
        api_port = api_port;
        port_read = e₅;
        database_read = e₇;
        access_read = e₈;
        refresh_read = e₉;
        redis_read = e₁₀;
        level_read = e₁₁;
        distinct = unless_inv (text_eq access refresh) equal_secrets e₁₂;
      })

  -- A signing secret that was accepted: the text of the source as it is.
  pub record SigningSecret (environment : AppEnvironment) (key : String) (value : Text)
      : Type 0 where
    pub untouched : source key ≡ some value
    pub trimmed : trim value ≡ value
    pub long : 32 ≤ utf8_length value
    pub safe : is_prod environment && is_unsafe_production_secret u value ≡ false

  pub record Accepted (c : ManagerApiEnvironment) : Type 0 where
    pub shaped : IsHostShape net c.host
    pub listens : (1 ≤ c.port) × (c.port ≤ 65535)
    pub signs_access : SigningSecret c.environment "JWT_ACCESS_SECRET" c.jwt_access_secret
    pub signs_refresh : SigningSecret c.environment "JWT_REFRESH_SECRET" c.jwt_refresh_secret
    pub separate : c.jwt_access_secret ≢ c.jwt_refresh_secret

  checked_secret_inv :
      (environment : AppEnvironment) (key : String) (raw value : Text)
      → checked_secret u net key environment raw ≡ ok value
      → (raw ≡ value)
        × (text_eq raw (trim raw) ≡ true)
        × (is_prod environment && is_unsafe_production_secret u raw ≡ false)
  unfolding checked_secret
  checked_secret_inv environment key raw value e = ground arith

  secret_at :
      (environment : AppEnvironment) (key : String) (raw : Text)
      → source key ≡ some raw
      → secret u net source key environment ≡ checked_secret u net key environment raw
  unfolding secret
  secret_at environment key raw h = rw (h, secret) refl

  secret_inv :
      (environment : AppEnvironment) (key : String) (value : Text) (held : Option Text)
      → source key ≡ held
      → secret u net source key environment ≡ ok value
      → (source key ≡ some value)
        × (trim value ≡ value)
        × (is_prod environment && is_unsafe_production_secret u value ≡ false)
  unfolding secret
  secret_inv environment key value none h e = ground arith
  secret_inv environment key value (some raw) h e =
      let (same, tight, fine) =
        checked_secret_inv environment key raw value (sym (secret_at environment key raw h) ∙ e) in
      (
        h ∙ ap some same,
        subst (λ t. trim t ≡ t) same (sym (text_eq→eq raw (trim raw) tight)),
        subst (λ t. is_prod environment && is_unsafe_production_secret u t ≡ false) same fine,
      )

  signing_inv :
      (environment : AppEnvironment) (key : String) (value : Text)
      → jwt_hmac_secret u net source key environment ≡ ok value
      → SigningSecret environment key value
  unfolding jwt_hmac_secret
  signing_inv environment key value e =
      let (kept, checked, read) = bind_inv _ (secret u net source key environment) e in
      let (long, same) = passing_inv key invalid (leb 32 (utf8_length kept)) kept value checked in
      let (untouched, trimmed, safe) = secret_inv environment key kept (source key) refl read in
      subst (SigningSecret environment key) same (record {
        untouched = untouched;
        trimmed = trimmed;
        long = leb→le 32 (utf8_length kept) long;
        safe = safe;
      })

  port_inv : (key : String) (text : Text) (n : ℕ) → port key text ≡ ok n → (1 ≤ n) × (n ≤ 65535)
  unfolding port
  port_inv key text n e = ground arith

  -- An accepted configuration of the manager API has a host without white space, `/`, `?` and `#`,
  -- which is an address, or at most 253 units of labels between dots, each of at most 63 letters,
  -- digits and dashes with no dash at either end, and a port between 1 and 65535. Its two JWT secrets
  -- are the texts of the source, without white space around them, of at least 32 bytes in UTF-8, and
  -- not the same; in PROD, neither is one of the unsafe secrets.
  pub create_manager_api_environment-Accepted :
      (c : ManagerApiEnvironment) → create_manager_api_environment u net source ≡ ok c → Accepted c
  unfolding host
  create_manager_api_environment-Accepted c accepted =
      let steps = manager_inv c accepted in
      let (accepted_host, same) =
        passing_inv "API_HOST" invalid (is_host net steps.api_host) steps.api_host c.host
          steps.host_read in
      record {
        shaped =
            is_host-IsHostShape net c.host (subst (λ h. is_host net h ≡ true) same accepted_host);
        listens = port_inv "API_PORT" steps.api_port c.port steps.port_read;
        signs_access =
            signing_inv c.environment "JWT_ACCESS_SECRET" c.jwt_access_secret steps.access_read;
        signs_refresh =
            signing_inv c.environment "JWT_REFRESH_SECRET" c.jwt_refresh_secret steps.refresh_read;
        separate = λ e. differ_of c.jwt_access_secret c.jwt_refresh_secret steps.distinct e;
      }

  -- Whenever the configuration of the manager API is accepted, the configurations of the worker, of
  -- the database, of Redis and of the tokens are accepted from the same source, with its values.
  pub manager_agreement :
      (c : ManagerApiEnvironment)
      → create_manager_api_environment u net source ≡ ok c
      → (create_worker_environment u net source
          ≡ ok (record {
            environment = c.environment;
            redis_url = c.redis_url;
            log_level = c.log_level;
          }))
        × (create_database_environment u net source
            ≡ ok (record { environment = c.environment; database_url = c.database_url }))
        × (create_redis_environment u net source
            ≡ ok (record { environment = c.environment; redis_url = c.redis_url }))
        × (create_jwt_environment u net source
            ≡ ok (record {
              environment = c.environment;
              access_secret = c.jwt_access_secret;
              refresh_secret = c.jwt_refresh_secret;
            }))
  unfolding create_worker_environment create_database_environment create_redis_environment
      create_jwt_environment
  manager_agreement c accepted =
      let s = manager_inv c accepted in
      (
        rw (s.environment_read, s.redis_read, s.level_read, create_worker_environment) refl,
        rw (s.environment_read, s.database_read, create_database_environment) refl,
        rw (s.environment_read, s.redis_read, create_redis_environment) refl,
        rw (s.environment_read, s.access_read, s.refresh_read, s.distinct, create_jwt_environment)
            refl,
      )
