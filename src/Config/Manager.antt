-- ===== src/Config/Manager.antt =====
-- packages/config/validation.ts: the configuration of the manager API, when it is refused and what
-- it holds when it is accepted.
use protege_mais.Base.{String, ◌≡◌, refl, Bool, true, false, List, [], ◌∷◌, err, throw_if}
use protege_mais.Text.{text_eq, codes}
use protege_mais.Config.Readers.{
  log_level, redis_url, jwt_hmac_secret, database_url, origins, with_non_production_default,
  app_environment, EnvironmentSource, ConfigurationError, host, port,
}
use protege_mais.Config.Refusal.{
  database_url-Fair, redis_url-Fair, log_level-Fair, jwt_hmac_secret-Fair,
}
use protege_mais.Config.Blame.{
  thrown_holds, origins-Fair, port-Fair, host-Fair, with_non_production_default-Fair,
  app_environment-Fair, Throws, bind-Throws, Fair,
}
use mathlib.Core.List.{Memᴰ}
use protege_mais.Text.Unicode.{Unicode}
use protege_mais.Config.Shapes.{Net}
use protege_mais.Config.Environments.{create_manager_api_environment, equal_secrets}

abbrev pub manager_keys : List String
manager_keys =
    "APP_ENVIRONMENT" ∷ "API_HOST" ∷ "API_PORT" ∷ "CORS_ORIGIN" ∷ "DATABASE_URL"
    ∷ "JWT_ACCESS_SECRET" ∷ "JWT_REFRESH_SECRET" ∷ "REDIS_URL" ∷ "LOG_LEVEL" ∷ []

first_key : (key : String) (keys : List String) → Memᴰ key (key ∷ keys)
first_key key keys = Memᴰ.head refl

next_key : (key other : String) (keys : List String) → Memᴰ key keys → Memᴰ key (other ∷ keys)
next_key key other keys m = Memᴰ.tail m

module _ (u : Unicode) (net : Net) (source : EnvironmentSource) where
  equal_secrets-Fair :
      (b : Bool) → Throws (Fair u net source manager_keys) (throw_if b equal_secrets)
  equal_secrets-Fair false = tt
  equal_secrets-Fair true = record {
    names = (search (first_key, next_key) depth 10, (search (first_key, next_key) depth 10, tt));
    reasoned = tt;
  }

  -- The steps of the secrets and of what is read behind them.
  manager-Fair :
      Throws (Fair u net source manager_keys) (create_manager_api_environment u net source)
  unfolding create_manager_api_environment
  manager-Fair =
      let P = Fair u net source manager_keys in
      bind-Throws P _ (app_environment u net source "APP_ENVIRONMENT")
        (app_environment-Fair u net source manager_keys "APP_ENVIRONMENT" (Memᴰ.head refl))
        (λ environment stated.
          bind-Throws P _
            (with_non_production_default source "API_HOST" environment (codes "127.0.0.1"))
            (with_non_production_default-Fair u net source manager_keys "API_HOST"
              (search (first_key, next_key) depth 10) environment (codes "127.0.0.1"))
            (λ api_host e.
              bind-Throws P _ (host u net "API_HOST" api_host)
                (host-Fair u net source manager_keys "API_HOST"
                  (search (first_key, next_key) depth 10) api_host)
                (λ checked_host e.
                  bind-Throws P _
                    (with_non_production_default source "API_PORT" environment (codes "3000"))
                    (with_non_production_default-Fair u net source manager_keys "API_PORT"
                      (search (first_key, next_key) depth 10) environment (codes "3000"))
                    (λ api_port e.
                      bind-Throws P _ (port "API_PORT" api_port)
                        (port-Fair u net source manager_keys "API_PORT"
                          (search (first_key, next_key) depth 10) api_port)
                        (λ checked_port e.
                          bind-Throws P _ (origins u net source "CORS_ORIGIN")
                            (origins-Fair u net source manager_keys "CORS_ORIGIN"
                              (search (first_key, next_key) depth 10))
                            (λ cors e.
                              bind-Throws P _ (database_url u net source environment)
                                (database_url-Fair u net source manager_keys environment stated
                                  (search (first_key, next_key) depth 10))
                                (λ database e.
                                  bind-Throws P _
                                    (jwt_hmac_secret u net source "JWT_ACCESS_SECRET" environment)
                                    (jwt_hmac_secret-Fair u net source manager_keys environment
                                      stated "JWT_ACCESS_SECRET"
                                      (search (first_key, next_key) depth 10))
                                    (λ access e.
                                      bind-Throws P _
                                        (jwt_hmac_secret u net source "JWT_REFRESH_SECRET"
                                          environment)
                                        (jwt_hmac_secret-Fair u net source manager_keys environment
                                          stated "JWT_REFRESH_SECRET"
                                          (search (first_key, next_key) depth 10))
                                        (λ refresh e.
                                          bind-Throws P _ (redis_url u net source environment)
                                            (redis_url-Fair u net source manager_keys environment
                                              stated (search (first_key, next_key) depth 10))
                                            (λ redis e.
                                              bind-Throws P _ (log_level u net source environment)
                                                (log_level-Fair u net source manager_keys
                                                  environment stated
                                                  (search (first_key, next_key) depth 10))
                                                (λ level e.
                                                  bind-Throws P _
                                                    (throw_if (text_eq access refresh)
                                                      equal_secrets)
                                                    (equal_secrets-Fair (text_eq access refresh))
                                                    (λ done e. tt))))))))))))

  -- When the configuration of the manager API is refused, the error names only the nine keys that
  -- the function reads; a key that it calls missing has no text or a blank one in the source; and it
  -- calls a key insecure only if the source says the environment is PROD.
  pub create_manager_api_environment-Fair :
      (e : ConfigurationError)
      → create_manager_api_environment u net source ≡ err e
      → Fair u net source manager_keys e
  create_manager_api_environment-Fair e refused =
      thrown_holds (Fair u net source manager_keys) (create_manager_api_environment u net source) e
        manager-Fair refused
