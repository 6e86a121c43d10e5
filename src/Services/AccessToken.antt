-- ===== src/Services/AccessToken.antt =====
-- packages/services/authentication/access-token.ts. The test of a UUID v7, of the library `uuid`,
-- is a parameter.
pub mod Window
use protege_mais.Base.{
  ℕ, ◌*◌, Bool, false, not, ◌&&◌, ◌||◌, Option, none, some, [], ◌∷◌, ltb, ◌==◌, if◌then◌else◌, ℤ,
  pos, ◌+ℤ◌, ◌-ℤ◌, leb_ℤ, eqb_ℤ, Result, ok, err, ◌>>=◌, ◌>>◌, throw_if,
}
use protege_mais.Base.Number.{integer, fraction, non_finite, is_safe}
use protege_mais.Text.{Text, codes, utf16_length, utf8_length}
use protege_mais.Common.Errors.{Thrown, application, range_error}
use protege_mais.Services.Dates.{Date, valid, invalid_date, unix_time, date_of_seconds}
use protege_mais.Services.Jose.{
  Claim, missing, text, number, other, Header, Payload, VerifyOptions, is_text, Jose,
}

abbrev pub access_token_algorithm : Text
access_token_algorithm = codes "HS256"

abbrev pub access_token_audience : Text
access_token_audience = codes "urn:protege-mais:manager-api"

abbrev pub access_token_issuer : Text
access_token_issuer = codes "urn:protege-mais:authentication"

abbrev pub access_token_lifetime_seconds : ℕ
access_token_lifetime_seconds = 15 * 60

abbrev pub access_token_purpose : Text
access_token_purpose = codes "access"

abbrev pub access_token_type_header : Text
access_token_type_header = codes "at+jwt"

abbrev pub jwt_hmac_secret_minimum_bytes : ℕ
jwt_hmac_secret_minimum_bytes = 32

abbrev pub access_token_maximum_length : ℕ
access_token_maximum_length = 4096

-- `new InvalidAccessTokenError()`
abbrev pub invalid_access_token : Thrown
invalid_access_token = application (record {
  code = "INVALID_ACCESS_TOKEN";
  message = "Token de acesso inválido.";
  message_key = some "authentication.invalidAccessToken";
  status_code = pos 401;
  cause = none;
})

-- `accessTokenKey`
unfoldable pub access_token_key : Text → Result Thrown Text
unfolding utf8_length
access_token_key secret =
    if ltb (utf8_length secret) jwt_hmac_secret_minimum_bytes then err range_error else ok secret

pub record IssueAccessTokenInput : Type 0 where
  pub account_id : Text
  pub session_id : Text
  pub issued_at : Date

pub record IssuedAccessToken : Type 0 where
  pub token : Text
  pub expires_in_seconds : ℕ

pub record VerifiedAccessToken : Type 0 where
  pub account_id : Text
  pub session_id : Text
  pub issued_at : Date
  pub expires_at : Date

abbrev pub access_header : Header
access_header = record { alg = text access_token_algorithm; typ = text access_token_type_header }

abbrev pub access_payload : Text → Text → ℤ → Payload
access_payload account_id session_id issued_at = record {
  iss = text access_token_issuer;
  sub = text account_id;
  aud = text access_token_audience;
  jti = missing;
  sid = text session_id;
  token_use = text access_token_purpose;
  iat = number (integer issued_at);
  exp = number (integer (issued_at +ℤ pos access_token_lifetime_seconds));
}

abbrev pub access_options : VerifyOptions
access_options = record {
  algorithm = access_token_algorithm;
  audience = access_token_audience;
  issuer = access_token_issuer;
  typ = access_token_type_header;
  needs_jti = false;
}

-- `typeof value === 'string' && isUuidV7(value)`
abbrev pub uuid_claim : (Text → Bool) → Claim → Option Text
uuid_claim is_uuid_v7 (text s) = if is_uuid_v7 s then some s else none
uuid_claim is_uuid_v7 missing = none
uuid_claim is_uuid_v7 (number n) = none
uuid_claim is_uuid_v7 other = none

-- `typeof value === 'number' && Number.isSafeInteger(value)`
abbrev pub safe_claim : Claim → Option ℤ
safe_claim (number (integer n)) = if is_safe n then some n else none
safe_claim (number fraction) = none
safe_claim (number non_finite) = none
safe_claim missing = none
safe_claim (text s) = none
safe_claim other = none

-- The five fixed claims of the checks behind `jwtVerify`.
unfoldable pub access_claims_hold : Header → Payload → Bool
access_claims_hold h p =
    is_text h.alg access_token_algorithm
    && is_text h.typ access_token_type_header
    && is_text p.aud access_token_audience
    && is_text p.iss access_token_issuer
    && is_text p.token_use access_token_purpose

-- `issuedAt > now || expiresAt - issuedAt !== accessTokenLifetimeSeconds`
abbrev pub access_times_hold : ℤ → ℤ → ℤ → Bool
access_times_hold now issued expires =
    leb_ℤ issued now && eqb_ℤ (expires -ℤ issued) (pos access_token_lifetime_seconds)

abbrev pub or_invalid {ℓ} : {A : Type ℓ} → Option A → Result Thrown A
or_invalid none = err invalid_access_token
or_invalid (some a) = ok a

module _ (jose : Jose) (is_uuid_v7 : Text → Bool) where
  unfoldable pub issue : Text → IssueAccessTokenInput → Result Thrown IssuedAccessToken
  issue key i = elim i.issued_at [
    | invalid_date ↦ err range_error
    | valid at ↦
        if not (is_uuid_v7 i.account_id) || not (is_uuid_v7 i.session_id)
        then err range_error
        else ok (record {
          token =
              jose.sign key access_header (access_payload i.account_id i.session_id (unix_time at));
          expires_in_seconds = access_token_lifetime_seconds;
        })
  ]

  -- The checks of `verify` on what `jwtVerify` has read.
  unfoldable pub read_access_token : ℤ → Header → Payload → Result Thrown VerifiedAccessToken
  read_access_token now h p = do
    throw_if (not (access_claims_hold h p)) invalid_access_token
    account_id ← or_invalid (uuid_claim is_uuid_v7 p.sub)
    session_id ← or_invalid (uuid_claim is_uuid_v7 p.sid)
    issued_at ← or_invalid (safe_claim p.iat)
    expires_at ← or_invalid (safe_claim p.exp)
    throw_if (not (access_times_hold now issued_at expires_at)) invalid_access_token
    ok (record {
      account_id = account_id;
      session_id = session_id;
      issued_at = date_of_seconds issued_at;
      expires_at = date_of_seconds expires_at;
    })

  -- Whatever is thrown inside, `jwtVerify`'s own errors included, leaves as one error.
  unfoldable pub verify : Text → Text → Date → Result Thrown VerifiedAccessToken
  verify key token invalid_date = err invalid_access_token
  verify key token (valid at) =
      if utf16_length token == 0 || ltb access_token_maximum_length (utf16_length token)
      then err invalid_access_token
      else elim (jose.jwt_verify token key access_options at) [
        | none ↦ err invalid_access_token
        | some (h, p) ↦ read_access_token (unix_time at) h p
      ]
