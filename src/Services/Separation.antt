-- ===== src/Services/Separation.antt =====
-- packages/services/authentication: an access token is no refresh token and the other way round,
-- also where both services share one secret.
use protege_mais.Base.{◌≡◌, refl, Bool, false, none, arith, ℤ, err}
use protege_mais.Text.{Text, text_eq}
use protege_mais.Services.Dates.{valid, unix_time}
use protege_mais.Services.Jose.{jwt_accepts, Jose}
use protege_mais.Services.AccessToken.{
  access_header, access_payload, access_options, invalid_access_token,
}
use protege_mais.Services.RefreshToken.{refresh_header, refresh_payload, refresh_options}
use protege_mais.Services.AccessToken
use protege_mais.Services.RefreshToken

access_refused :
    (account session : Text) (issued now : ℤ)
    → jwt_accepts refresh_options now access_header (access_payload account session issued) ≡ false
unfolding jwt_accepts text_eq
access_refused account session issued now = refl

refresh_refused :
    (account session token_id : Text) (issued expires now : ℤ)
    → jwt_accepts access_options now refresh_header
        (refresh_payload account session token_id issued expires)
      ≡ false
unfolding jwt_accepts text_eq
refresh_refused account session token_id issued expires now = refl

-- The two kinds of tokens are never taken for one another: at no time and under no secret does the
-- refresh service accept an access token, nor the access service a refresh token, that was signed
-- with that same secret.
pub kinds_separate :
    (jose : Jose) (is_uuid_v7 : Text → Bool) (key account session token_id : Text)
    (issued expires at : ℤ)
    → (RefreshToken.verify jose is_uuid_v7 key
          (jose.sign key access_header (access_payload account session issued))
          (valid at)
        ≡ none)
      × (AccessToken.verify jose is_uuid_v7 key
            (jose.sign key refresh_header (refresh_payload account session token_id issued expires))
            (valid at)
          ≡ err invalid_access_token)
unfolding RefreshToken.verify AccessToken.verify
kinds_separate jose is_uuid_v7 key account session token_id issued expires at =
    let first =
      jose.verify_sign key access_header (access_payload account session issued) refresh_options
        at in
    let second =
      jose.verify_sign key refresh_header (refresh_payload account session token_id issued expires)
        access_options at in
    (
      ground (arith, first, access_refused account session issued (unix_time at)),
      ground
          (arith, second, refresh_refused account session token_id issued expires (unix_time at)),
    )
