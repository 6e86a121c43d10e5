-- ===== src/Services/RefreshToken.antt =====
-- packages/services/authentication/refresh-token.ts. `randomBytes(32).toString('base64url')` is the
-- argument `token_id` of `issue`, and the SHA-256 digest is a parameter of the hash service.
pub mod Window
use protege_mais.Base.{
  ℕ, ◌*◌, Bool, true, not, ◌&&◌, ◌||◌, Option, none, some, [], ◌∷◌, ◌++◌, ltb, ◌==◌, if◌then◌else◌,
  ℤ, pos, ◌+ℤ◌, ◌-ℤ◌, ltb_ℤ, leb_ℤ, Result, ok, err,
}
use protege_mais.Base.Number.{integer}
use protege_mais.Text.{Text, codes, utf16_length, utf8_length}
use protege_mais.Text.Patterns.{exactly, is_base64url}
use protege_mais.Common.AuthSessions.{auth_session_refresh_token_maximum_length}
use protege_mais.Common.Errors.{Thrown, range_error}
use protege_mais.Services.Dates.{Date, valid, invalid_date, unix_time, date_of_seconds}
use protege_mais.Services.Jose.{
  Claim, missing, text, number, other, Header, Payload, VerifyOptions, is_text, Jose,
}
use protege_mais.Services.AccessToken.{
  access_token_issuer, jwt_hmac_secret_minimum_bytes, uuid_claim, safe_claim,
}

abbrev pub refresh_token_algorithm : Text
refresh_token_algorithm = codes "HS256"

abbrev pub refresh_token_audience : Text
refresh_token_audience = codes "urn:protege-mais:manager-api:token-refresh"

abbrev pub refresh_token_lifetime_seconds : ℕ
refresh_token_lifetime_seconds = 30 * 24 * 60 * 60

abbrev pub refresh_token_maximum_length : ℕ
refresh_token_maximum_length = auth_session_refresh_token_maximum_length

abbrev pub refresh_token_purpose : Text
refresh_token_purpose = codes "refresh"

abbrev pub refresh_token_type_header : Text
refresh_token_type_header = codes "rt+jwt"

abbrev pub refresh_token_hash_prefix : Text
refresh_token_hash_prefix = codes "sha256:"

-- `^[A-Za-z0-9_-]{43}$`
unfoldable pub is_refresh_token_id : Text → Bool
unfolding exactly is_base64url
is_refresh_token_id = exactly is_base64url 43

-- `refreshTokenKey`
unfoldable pub refresh_token_key : Text → Result Thrown Text
unfolding utf8_length
refresh_token_key secret =
    if ltb (utf8_length secret) jwt_hmac_secret_minimum_bytes then err range_error else ok secret

pub record IssueRefreshTokenInput : Type 0 where
  pub account_id : Text
  pub session_id : Text
  pub issued_at : Date
  pub expires_at : Option Date

pub record IssuedRefreshToken : Type 0 where
  pub token : Text
  pub expires_at : Date
  pub expires_in_seconds : ℤ

pub record VerifiedRefreshToken : Type 0 where
  pub account_id : Text
  pub session_id : Text
  pub token_id : Text
  pub issued_at : Date
  pub expires_at : Date

abbrev pub refresh_header : Header
refresh_header = record { alg = text refresh_token_algorithm; typ = text refresh_token_type_header }

abbrev pub refresh_payload : Text → Text → Text → ℤ → ℤ → Payload
refresh_payload account_id session_id token_id issued_at expires_at = record {
  iss = text access_token_issuer;
  sub = text account_id;
  aud = text refresh_token_audience;
  jti = text token_id;
  sid = text session_id;
  token_use = text refresh_token_purpose;
  iat = number (integer issued_at);
  exp = number (integer expires_at);
}

abbrev pub refresh_options : VerifyOptions
refresh_options = record {
  algorithm = refresh_token_algorithm;
  audience = refresh_token_audience;
  issuer = access_token_issuer;
  typ = refresh_token_type_header;
  needs_jti = true;
}

-- The second of expiry: that of the given date, or the whole lifetime from now. `none` is a date
-- that is not valid.
abbrev pub expiry_seconds : ℤ → Option Date → Option ℤ
expiry_seconds issued none = some (issued +ℤ pos refresh_token_lifetime_seconds)
expiry_seconds issued (some (valid t)) = some (unix_time t)
expiry_seconds issued (some invalid_date) = none

abbrev pub refresh_lifetime_holds : ℤ → ℤ → Bool
refresh_lifetime_holds issued expires =
    ltb_ℤ (pos 0) (expires -ℤ issued)
    && leb_ℤ (expires -ℤ issued) (pos refresh_token_lifetime_seconds)

abbrev pub token_id_claim : Claim → Option Text
token_id_claim (text s) = if is_refresh_token_id s then some s else none
token_id_claim missing = none
token_id_claim (number n) = none
token_id_claim other = none

unfoldable pub refresh_claims_hold : Header → Payload → Bool
refresh_claims_hold h p =
    is_text h.alg refresh_token_algorithm
    && is_text h.typ refresh_token_type_header
    && is_text p.aud refresh_token_audience
    && is_text p.iss access_token_issuer
    && is_text p.token_use refresh_token_purpose

-- `Option` as the monad of `verify`, which answers `null` for whatever is wrong.
infixl 5 ◌>>=?◌
abbrev pub ◌>>=?◌ {ℓ κ} : {A : Type ℓ} {B : Type κ} → Option A → (A → Option B) → Option B
none >>=? f = none
some a >>=? f = f a

module _ (jose : Jose) (is_uuid_v7 : Text → Bool) where
  -- The token for an account, a session and two seconds, if their distance is a lifetime.
  unfoldable pub issue_between :
      Text → Text → Text → Text → ℤ → ℤ → Result Thrown IssuedRefreshToken
  issue_between key token_id account_id session_id issued expires =
      if refresh_lifetime_holds issued expires
      then ok (record {
        token =
            jose.sign key refresh_header
              (refresh_payload account_id session_id token_id issued expires);
        expires_at = date_of_seconds expires;
        expires_in_seconds = expires -ℤ issued;
      })
      else err range_error

  unfoldable pub issue : Text → Text → IssueRefreshTokenInput → Result Thrown IssuedRefreshToken
  issue key token_id i = elim i.issued_at [
    | invalid_date ↦ err range_error
    | valid at ↦
        if not (is_uuid_v7 i.account_id) || not (is_uuid_v7 i.session_id)
        then err range_error
        else elim (expiry_seconds (unix_time at) i.expires_at) [
          | none ↦ err range_error
          | some expires ↦
              issue_between key token_id i.account_id i.session_id (unix_time at) expires
        ]
  ]

  unfoldable pub read_refresh_token : ℤ → Header → Payload → Option VerifiedRefreshToken
  read_refresh_token now h p =
      (if refresh_claims_hold h p then uuid_claim is_uuid_v7 p.sub else none) >>=? λ account_id.
      uuid_claim is_uuid_v7 p.sid >>=? λ session_id. token_id_claim p.jti >>=? λ token_id.
      safe_claim p.iat >>=? λ issued_at. safe_claim p.exp >>=? λ expires_at.
      if leb_ℤ issued_at now && refresh_lifetime_holds issued_at expires_at
      then some (record {
        account_id = account_id;
        session_id = session_id;
        token_id = token_id;
        issued_at = date_of_seconds issued_at;
        expires_at = date_of_seconds expires_at;
      })
      else none

  unfoldable pub verify : Text → Text → Date → Option VerifiedRefreshToken
  verify key token invalid_date = none
  verify key token (valid at) =
      if utf16_length token == 0 || ltb refresh_token_maximum_length (utf16_length token)
      then none
      else elim (jose.jwt_verify token key refresh_options at) [
        | none ↦ none
        | some (h, p) ↦ read_refresh_token (unix_time at) h p
      ]

-- `Sha256RefreshTokenHashService.hash`; `digest` is SHA-256 of the token's UTF-8, in base64url.
unfoldable pub hash_refresh_token : (Text → Text) → Text → Result Thrown Text
unfolding utf16_length
hash_refresh_token digest token =
    if utf16_length token == 0 || ltb refresh_token_maximum_length (utf16_length token)
    then err range_error
    else ok (refresh_token_hash_prefix ++ digest token)
