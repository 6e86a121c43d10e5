-- ===== src/Logging/Keys.antt =====
-- packages/plugins/logging/sanitization.ts: which keys are sensitive. `to_nfd` is
-- `normalize('NFD')`.
use protege_mais.Base.{ℕ, Bool, not, ◌&&◌, ◌||◌, List, [], ◌∷◌, ◌++◌, leb, any, keep}
use protege_mais.Text.{Text, codes, is_alphanumeric, includes, member}
use protege_mais.Text.Unicode.{Unicode}

abbrev pub sensitive_key_fragments : List Text
sensitive_key_fragments =
    codes "accesstoken"
    ∷ codes "address"
    ∷ codes "apikey"
    ∷ codes "authorization"
    ∷ codes "body"
    ∷ codes "cookie"
    ∷ codes "coordinate"
    ∷ codes "cnpj"
    ∷ codes "cpf"
    ∷ codes "credential"
    ∷ codes "deviceid"
    ∷ codes "deviceidentifier"
    ∷ codes "devicename"
    ∷ codes "email"
    ∷ codes "encryptionkey"
    ∷ codes "endereco"
    ∷ codes "evidence"
    ∷ codes "file"
    ∷ codes "geolocation"
    ∷ codes "header"
    ∷ codes "jobtitle"
    ∷ codes "jti"
    ∷ codes "latitude"
    ∷ codes "location"
    ∷ codes "logradouro"
    ∷ codes "longitude"
    ∷ codes "medicaldata"
    ∷ codes "narrative"
    ∷ codes "objectkey"
    ∷ codes "params"
    ∷ codes "password"
    ∷ codes "payload"
    ∷ codes "phone"
    ∷ codes "position"
    ∷ codes "privatekey"
    ∷ codes "pushtoken"
    ∷ codes "query"
    ∷ codes "registrationnumber"
    ∷ codes "refreshtoken"
    ∷ codes "relato"
    ∷ codes "report"
    ∷ codes "secret"
    ∷ codes "sessionid"
    ∷ codes "senha"
    ∷ codes "signedurl"
    ∷ codes "street"
    ∷ codes "cargo"
    ∷ codes "matricula"
    ∷ codes "telefone"
    ∷ codes "token"
    ∷ codes "tokenid"
    ∷ codes "url"
    ∷ codes "useragent"
    ∷ []

abbrev pub protected_context_keys : List Text
protected_context_keys =
    codes "accountid"
    ∷ codes "alertid"
    ∷ codes "caseid"
    ∷ codes "membershipid"
    ∷ codes "organizationmemberid"
    ∷ codes "organizationid"
    ∷ codes "organizationunitid"
    ∷ codes "userid"
    ∷ codes "victimid"
    ∷ []

abbrev pub pino_redaction_keys : List Text
pino_redaction_keys =
    codes "accessToken"
    ∷ codes "address"
    ∷ codes "apiKey"
    ∷ codes "authorization"
    ∷ codes "body"
    ∷ codes "cookie"
    ∷ codes "coordinates"
    ∷ codes "cnpj"
    ∷ codes "cpf"
    ∷ codes "credentials"
    ∷ codes "deviceId"
    ∷ codes "deviceIdentifier"
    ∷ codes "deviceName"
    ∷ codes "email"
    ∷ codes "encryptionKey"
    ∷ codes "endereco"
    ∷ codes "evidence"
    ∷ codes "file"
    ∷ codes "headers"
    ∷ codes "jobTitle"
    ∷ codes "job_title"
    ∷ codes "jti"
    ∷ codes "latitude"
    ∷ codes "location"
    ∷ codes "longitude"
    ∷ codes "objectKey"
    ∷ codes "params"
    ∷ codes "password"
    ∷ codes "payload"
    ∷ codes "phone"
    ∷ codes "position"
    ∷ codes "privateKey"
    ∷ codes "pushToken"
    ∷ codes "query"
    ∷ codes "querystring"
    ∷ codes "registrationNumber"
    ∷ codes "registration_number"
    ∷ codes "refreshToken"
    ∷ codes "relato"
    ∷ codes "secret"
    ∷ codes "sessionId"
    ∷ codes "senha"
    ∷ codes "signedUrl"
    ∷ codes "telefone"
    ∷ codes "token"
    ∷ codes "tokenId"
    ∷ codes "url"
    ∷ codes "userAgent"
    ∷ codes "cargo"
    ∷ codes "matricula"
    ∷ []

-- `pinoRedactionPaths`
abbrev paths_of : List Text → List Text
paths_of [] = []
paths_of (key ∷ keys) = key ∷ (codes "*." ++ key) ∷ (codes "*.*." ++ key) ∷ paths_of keys

abbrev pub pino_redaction_paths : List Text
pino_redaction_paths = paths_of pino_redaction_keys

-- `[\u0300-\u036f]`
abbrev pub is_combining : ℕ → Bool
is_combining c = leb 0x300 c && leb c 0x36f

unfoldable pub normalize_key : Unicode → (Text → Text) → Text → Text
unfolding is_alphanumeric
normalize_key u to_nfd key =
    u.to_lower_case (keep is_alphanumeric (keep (λ c. not (is_combining c)) (to_nfd key)))

unfoldable pub is_sensitive_log_key : Unicode → (Text → Text) → Text → Bool
unfolding normalize_key member includes
is_sensitive_log_key u to_nfd key =
    let normalized = normalize_key u to_nfd key in
    member normalized protected_context_keys || any (includes normalized) sensitive_key_fragments
