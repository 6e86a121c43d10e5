-- ===== src/Tests/Config.antt =====
-- The theorems on the configuration.
use protege_mais.Base.{String, ◌≡◌, refl, false, none, some, List, [], ◌∷◌, if◌then◌else◌, ok}
use protege_mais.Config.Environments.{
  create_database_environment, ManagerApiEnvironment, create_manager_api_environment,
}
use protege_mais.Text.{Text, codes, text_eq}
use protege_mais.Text.Unicode.{ascii_only, upper_ascii, lower_ascii}
use protege_mais.Config.Shapes.{Net, Url}
use protege_mais.Config.Readers.{EnvironmentSource, missing, prod, info}
use protege_mais.Config.Blame.{Fair}
use protege_mais.Config.Manager.{manager_keys, create_manager_api_environment-Fair}
use protege_mais.Config.Accepted.{
  Accepted, create_manager_api_environment-Accepted, manager_agreement,
}

abbrev url_of : Text → Text → Url
url_of protocol pathname = record {
  protocol = protocol;
  hostname = codes "host";
  pathname = pathname;
  username = [];
  password = [];
  search = [];
  hash = [];
  origin = codes "https://host";
}

-- The URLs of the examples, and no address of a network.
abbrev net : Net
net = record {
  is_ip = λ value. false;
  parse_url = λ value.
      if text_eq value (codes "postgres://host/app")
      then some (url_of (codes "postgres:") (codes "/app"))
      else if text_eq value (codes "redis://host")
      then some (url_of (codes "redis:") [])
      else if text_eq value (codes "https://host")
      then some (url_of (codes "https:") (codes "/"))
      else none;
  decode_uri_component = λ value. some value;
}

abbrev Pairs : Type 0
Pairs = List (String × Text)

abbrev source_of : Pairs → EnvironmentSource
source_of [] key = none
source_of ((name, value) ∷ pairs) key =
    if text_eq (codes name) (codes key) then some value else source_of pairs key

abbrev half : EnvironmentSource
half = source_of (("APP_ENVIRONMENT", codes " prod ") ∷ ("API_HOST", codes "host") ∷ [])

create_manager_api_environment-Fair_example :
    Fair ascii_only net half manager_keys (record { keys = "API_PORT" ∷ []; reason = missing })
unfolding create_manager_api_environment upper_ascii
create_manager_api_environment-Fair_example =
    create_manager_api_environment-Fair ascii_only net half
      (record { keys = "API_PORT" ∷ []; reason = missing }) refl

abbrev whole : EnvironmentSource
whole = source_of (
    ("APP_ENVIRONMENT", codes "PROD")
    ∷ ("API_HOST", codes "api.host")
    ∷ ("API_PORT", codes "8080")
    ∷ ("CORS_ORIGIN", codes "https://host, https://host")
    ∷ ("DATABASE_URL", codes "postgres://host/app")
    ∷ ("JWT_ACCESS_SECRET", codes "0123456789abcdef0123456789abcdef")
    ∷ ("JWT_REFRESH_SECRET", codes "fedcba9876543210fedcba9876543210")
    ∷ ("REDIS_URL", codes "redis://host")
    ∷ ("LOG_LEVEL", codes "INFO")
    ∷ [])

abbrev manager : ManagerApiEnvironment
manager = record {
  environment = prod;
  host = codes "api.host";
  port = 8080;
  cors_origins = codes "https://host" ∷ [];
  database_url = codes "postgres://host/app";
  jwt_access_secret = codes "0123456789abcdef0123456789abcdef";
  jwt_refresh_secret = codes "fedcba9876543210fedcba9876543210";
  redis_url = codes "redis://host";
  log_level = info;
}

manager_accepted : create_manager_api_environment ascii_only net whole ≡ ok manager
unfolding create_manager_api_environment upper_ascii lower_ascii
manager_accepted = refl

create_manager_api_environment-Accepted_example : Accepted ascii_only net whole manager
create_manager_api_environment-Accepted_example =
    create_manager_api_environment-Accepted ascii_only net whole manager manager_accepted

manager_agreement_example :
    create_database_environment ascii_only net whole
    ≡ ok (record { environment = prod; database_url = codes "postgres://host/app" })
manager_agreement_example = (manager_agreement ascii_only net whole manager manager_accepted).1
