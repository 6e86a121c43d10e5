-- ===== src/UseCases/Login.antt =====
-- packages/useCases/authentication/login.ts, `LoginWithEmailAndPassword.execute`. The identifier of
-- the session and that of the token are drawn at random; the clock is read twice.
pub mod Opening
use protege_mais.Base.{
  ℕ, Bool, true, false, Option, none, some, if◌then◌else◌, ℤ, pos, Result, ok, err, ◌>>=◌, ◌>>◌,
}
use protege_mais.UseCases.Authenticate.{AuthenticatedAccount, Credentials, authenticate}
use protege_mais.Database.Sessions.{CreateSessionInput, create}
use protege_mais.Text.{Text}
use protege_mais.Common.Errors.{Thrown, application}
use protege_mais.Common.AuthSessions.{
  is_valid_auth_session_device_identifier, sanitize_auth_session_device_name,
  sanitize_auth_session_user_agent,
}
use protege_mais.Services.Dates.{valid, authentication_token_issued_at}
use protege_mais.Services.AccessToken
use protege_mais.Services.RefreshToken
use protege_mais.UseCases.World.{
  Environment, Action, lift, transact, throw, ◌>>=!◌, invalid_credentials, instant,
}

pub record LoginInput : Type 0 where
  pub credentials : Credentials
  pub device_identifier : Text
  pub device_name : Option Text
  pub user_agent : Option Text

-- What the clock and the generators say during one call.
pub record LoginDraws : Type 0 where
  pub authenticated_at : ℤ
  pub now : ℤ
  pub session_id : Text
  pub token_id : Text

-- `LoginWithEmailAndPasswordResult`; its `tokenType` is always 'Bearer'.
pub record TokenPair : Type 0 where
  pub access_token : Text
  pub refresh_token : Text
  pub expires_in : ℕ
  pub refresh_expires_in : ℤ

-- `new ValidationError()`
abbrev pub validation_failed : Thrown
validation_failed = application (record {
  code = "VALIDATION_ERROR";
  message = "Os dados enviados são inválidos.";
  message_key = some "errors.validation";
  status_code = pos 400;
  cause = none;
})

-- What follows the insertion.
abbrev pub answer_creation : TokenPair → Bool → Action TokenPair
answer_creation pair true = lift (ok pair)
answer_creation pair false = throw invalid_credentials

-- The session that has been prepared, or what was thrown before it.
unfoldable pub run_opening :
    Environment → Result Thrown (CreateSessionInput × TokenPair) → Action TokenPair
run_opening env (err e) = throw e
run_opening env (ok (input, pair)) = transact (create env.locale input) >>=! answer_creation pair

module _ (env : Environment) where
  -- Tokens, row and answer for an account that has been authenticated.
  unfoldable pub prepare_opening :
      LoginDraws → LoginInput → Text → Result Thrown (CreateSessionInput × TokenPair)
  prepare_opening draws i account_id = do
    access ← AccessToken.issue env.jose env.is_uuid_v7 env.access_key (record {
      account_id = account_id;
      session_id = draws.session_id;
      issued_at = authentication_token_issued_at (valid draws.now);
    })
    refresh ← RefreshToken.issue env.jose env.is_uuid_v7 env.refresh_key draws.token_id (record {
      account_id = account_id;
      session_id = draws.session_id;
      issued_at = authentication_token_issued_at (valid draws.now);
      expires_at = none;
    })
    hash ← RefreshToken.hash_refresh_token env.digest refresh.token
    expires_at ← instant refresh.expires_at
    created_at ← instant (authentication_token_issued_at (valid draws.now))
    ok (
      record {
        id = draws.session_id;
        account_id = account_id;
        refresh_token_hash = hash;
        device_identifier = i.device_identifier;
        device_name = sanitize_auth_session_device_name i.device_name;
        user_agent = sanitize_auth_session_user_agent i.user_agent;
        expires_at = expires_at;
        created_at = created_at;
      },
      record {
        access_token = access.token;
        refresh_token = refresh.token;
        expires_in = access.expires_in_seconds;
        refresh_expires_in = refresh.expires_in_seconds;
      },
    )

  -- By whether the account asks for a second factor.
  unfoldable pub open_by : Bool → LoginDraws → LoginInput → Text → Action TokenPair
  open_by true draws i account_id = throw invalid_credentials
  open_by false draws i account_id = run_opening env (prepare_opening draws i account_id)

  unfoldable pub open_session : LoginDraws → LoginInput → AuthenticatedAccount → Action TokenPair
  unfolding open_by
  open_session draws i account = open_by account.mfa_enabled draws i account.account_id

  unfoldable pub login : LoginDraws → LoginInput → Action TokenPair
  unfolding open_session
  login draws i =
      if is_valid_auth_session_device_identifier i.device_identifier
      then (authenticate env draws.authenticated_at i.credentials >>=! open_session draws i)
      else throw validation_failed
