-- ===== src/Config/Refusal.antt =====
-- packages/config/validation.ts: what the readers of URLs and secrets, which depend on the
-- environment, blame when they throw.
use protege_mais.Config.Shapes.{is_database_path, is_unsafe_production_secret, Net, Url, is_empty}
use protege_mais.Config.Readers.{
  level_named, parsed_url, with_non_production_default, redis_url, log_level, database_url,
  or_blame, secret, jwt_hmac_secret, checked_secret, checked_password, is_prod, app_environment,
  EnvironmentSource, AppEnvironment, prod, solid, read_optional, local, dev, hmg, invalid, insecure,
}
use protege_mais.Config.Blame.{
  throw_if-Fair, with_non_production_default-Fair, parsed_url-Fair, after_required, invalid-Fair,
  or_blame-Fair, passing-Fair, missing-Fair, Throws, bind-Throws, Fair,
}
use protege_mais.Text.{codes, utf8_length, text_eq, trim, Text}
use protege_mais.Base.{
  String, ◌≡◌, refl, ap, ◌∙◌, inl, inr, true, not, ◌&&◌, ◌||◌, none, some, List, [], ◌∷◌, arith,
  leb, Bool-cases, Option-cases, ok, throw_if,
}
use mathlib.Core.List.{Memᴰ}
use protege_mais.Text.Unicode.{Unicode}

is_prod_lem : (environment : AppEnvironment) → is_prod environment ≡ true → environment ≡ prod
is_prod_lem local e = cc
is_prod_lem dev e = cc
is_prod_lem hmg e = cc
is_prod_lem prod e = refl

solid-none : (t : Text) → is_empty t ≡ true → solid t ≡ none
solid-none [] e = refl
solid-none (c ∷ s) e = cc

module _ (source : EnvironmentSource) (key : String) where
  absent_lem : source key ≡ none → read_optional source key ≡ none
  unfolding read_optional
  absent_lem e = rw (e, read_optional) refl

  blank_lem :
      (raw : Text)
      → source key ≡ some raw
      → is_empty (trim raw) ≡ true
      → read_optional source key ≡ none
  unfolding read_optional
  blank_lem raw e blank = rw (e, read_optional) (solid-none (trim raw) blank)

module _ (u : Unicode) (net : Net) (source : EnvironmentSource) (known : List String)
    (environment : AppEnvironment)
    (stated : app_environment u net source "APP_ENVIRONMENT" ≡ ok environment) where
  module _ (key : String) (k : Memᴰ key known) where
    insecure-Fair :
        is_prod environment ≡ true
        → Fair u net source known (record { keys = key ∷ []; reason = insecure })
    insecure-Fair live = record {
      names = (k, tt);
      reasoned = stated ∙ ap ok (is_prod_lem environment live);
    }

    checked_password-Fair :
        (parsed : Url)
        → Throws (Fair u net source known) (checked_password u net key environment parsed)
    unfolding checked_password
    checked_password-Fair parsed =
        elim (Bool-cases (is_prod environment && not (is_empty parsed.password))) [
          | inl bad ↦
              rw (bad, Throws)
                (bind-Throws (Fair u net source known) _
                  (or_blame key invalid (net.decode_uri_component parsed.password))
                  (or_blame-Fair u net source known key k
                    (net.decode_uri_component parsed.password))
                  (λ password e. elim (Bool-cases (is_unsafe_production_secret u password)) [
                    | inl weak ↦ rw (weak, Throws) (insecure-Fair (ground (arith, bad)))
                    | inr fine ↦ rw (fine, Throws) tt
                  ]))
          | inr fine ↦ rw (fine, Throws) tt
        ]

    checked_secret-Fair :
        (raw : Text)
        → source key ≡ some raw
        → Throws (Fair u net source known) (checked_secret u net key environment raw)
    unfolding checked_secret
    checked_secret-Fair raw e = elim (Bool-cases (is_empty (trim raw))) [
      | inl blank ↦
          rw (blank, Throws)
            (missing-Fair u net source known key k (blank_lem source key raw e blank))
      | inr filled ↦ elim (Bool-cases (text_eq raw (trim raw))) [
        | inr padded ↦ rw (filled, padded, Throws) (invalid-Fair u net source known key k)
        | inl tight ↦ elim (Bool-cases (is_prod environment && is_unsafe_production_secret u raw)) [
          | inl weak ↦ rw (filled, tight, weak, Throws) (insecure-Fair (ground (arith, weak)))
          | inr fine ↦ rw (filled, tight, fine, Throws) tt
        ]
      ]
    ]

    pub secret-Fair : Throws (Fair u net source known) (secret u net source key environment)
    unfolding secret
    secret-Fair = elim (Option-cases (source key)) [
      | inl absent ↦
          rw (absent, Throws) (missing-Fair u net source known key k (absent_lem source key absent))
      | inr (raw, present) ↦ rw (present, Throws) (checked_secret-Fair raw present)
    ]

    pub jwt_hmac_secret-Fair :
        Throws (Fair u net source known) (jwt_hmac_secret u net source key environment)
    unfolding jwt_hmac_secret
    jwt_hmac_secret-Fair =
        bind-Throws (Fair u net source known) _ (secret u net source key environment) secret-Fair
          (λ value e. passing-Fair u net source known key k (leb 32 (utf8_length value)) value)

  pub database_url-Fair :
      Memᴰ "DATABASE_URL" known
      → Throws (Fair u net source known) (database_url u net source environment)
  unfolding database_url
  database_url-Fair k = after_required u net source known "DATABASE_URL" k _ (λ value.
      bind-Throws (Fair u net source known) _
        (parsed_url u net "DATABASE_URL" (codes "postgres:" ∷ codes "postgresql:" ∷ []) value)
        (parsed_url-Fair u net source known "DATABASE_URL" k
          (codes "postgres:" ∷ codes "postgresql:" ∷ []) value)
        (λ parsed e.
          bind-Throws (Fair u net source known) _
            (throw_if (is_empty parsed.pathname || text_eq parsed.pathname (codes "/"))
              (record { keys = "DATABASE_URL" ∷ []; reason = invalid }))
            (throw_if-Fair u net source known "DATABASE_URL" k
              (is_empty parsed.pathname || text_eq parsed.pathname (codes "/")))
            (λ done e.
              bind-Throws (Fair u net source known) (λ done. ok value)
                (checked_password u net "DATABASE_URL" environment parsed)
                (checked_password-Fair "DATABASE_URL" k parsed) (λ done e. tt))))

  pub redis_url-Fair :
      Memᴰ "REDIS_URL" known → Throws (Fair u net source known) (redis_url u net source environment)
  unfolding redis_url
  redis_url-Fair k = after_required u net source known "REDIS_URL" k _ (λ value.
      bind-Throws (Fair u net source known) _
        (parsed_url u net "REDIS_URL" (codes "redis:" ∷ codes "rediss:" ∷ []) value)
        (parsed_url-Fair u net source known "REDIS_URL" k (codes "redis:" ∷ codes "rediss:" ∷ [])
          value)
        (λ parsed e.
          bind-Throws (Fair u net source known) _
            (throw_if
              (not (is_database_path parsed.pathname)
                || not (is_empty parsed.search)
                || not (is_empty parsed.hash))
              (record { keys = "REDIS_URL" ∷ []; reason = invalid }))
            (throw_if-Fair u net source known "REDIS_URL" k (
              not (is_database_path parsed.pathname)
              || not (is_empty parsed.search)
              || not (is_empty parsed.hash)))
            (λ done e.
              bind-Throws (Fair u net source known) (λ done. ok value)
                (checked_password u net "REDIS_URL" environment parsed)
                (checked_password-Fair "REDIS_URL" k parsed) (λ done e. tt))))

  pub log_level-Fair :
      Memᴰ "LOG_LEVEL" known → Throws (Fair u net source known) (log_level u net source environment)
  unfolding log_level
  log_level-Fair k =
      bind-Throws (Fair u net source known) _
        (with_non_production_default source "LOG_LEVEL" environment (codes "info"))
        (with_non_production_default-Fair u net source known "LOG_LEVEL" k environment
          (codes "info"))
        (λ value e.
          or_blame-Fair u net source known "LOG_LEVEL" k (level_named (u.to_lower_case value)))
