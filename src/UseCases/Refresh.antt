-- ===== src/UseCases/Refresh.antt =====
-- packages/useCases/authentication/refresh-session.ts, `RefreshAuthenticationSession.execute`.
pub mod Replay
use protege_mais.Base.{
  Bool, true, false, Option, none, some, if◌then◌else◌, ℤ, Result, ok, err, ◌>>=◌, ◌>>◌,
}
use protege_mais.Text.{Text}
use protege_mais.Common.Errors.{Thrown}
use protege_mais.Database.Sessions.{RotateInput, RotateResult, invalid, reused, rotated, rotate}
use protege_mais.Services.Dates.{Date, valid, authentication_token_issued_at}
use protege_mais.Services.AccessToken
use protege_mais.Services.RefreshToken
use protege_mais.Services.RefreshToken.{VerifiedRefreshToken}
use protege_mais.UseCases.World.{
  Environment, Action, refresh_succeeded, refresh_failed, refresh_reuse_detected, record_event,
  lift, transact, throw, ◌>>=!◌, ◌>>!◌, invalid_refresh_token, instant,
}
use protege_mais.UseCases.Login.{TokenPair}

abbrev pub reject_refresh : {A : Type 0} → Bool → Action A
reject_refresh was_reused =
    record_event (if was_reused then refresh_reuse_detected else refresh_failed)
    >>! throw invalid_refresh_token

-- What follows the rotation.
abbrev pub answer_rotation : TokenPair → RotateResult → Action TokenPair
answer_rotation pair reused = reject_refresh true
answer_rotation pair invalid = reject_refresh false
answer_rotation pair rotated = record_event refresh_succeeded >>! lift (ok pair)

-- The rotation that has been prepared, or what was thrown before it.
unfoldable pub run_renewal :
    Environment → Result Thrown (RotateInput × TokenPair) → Action TokenPair
run_renewal env (err e) = throw e
run_renewal env (ok (input, pair)) = transact (rotate env.locale input) >>=! answer_rotation pair

module _ (env : Environment) where
  -- The two new tokens, the hashes, and the arguments of the rotation.
  unfoldable pub prepare_renewal :
      Text → Date → Text → VerifiedRefreshToken → Result Thrown (RotateInput × TokenPair)
  prepare_renewal token_id used_at presented v = do
    successor ← RefreshToken.issue env.jose env.is_uuid_v7 env.refresh_key token_id (record {
      account_id = v.account_id;
      session_id = v.session_id;
      issued_at = used_at;
      expires_at = some v.expires_at;
    })
    access ←
        AccessToken.issue env.jose env.is_uuid_v7 env.access_key
          (record { account_id = v.account_id; session_id = v.session_id; issued_at = used_at })
    presented_hash ← RefreshToken.hash_refresh_token env.digest presented
    successor_hash ← RefreshToken.hash_refresh_token env.digest successor.token
    expected_expires_at ← instant v.expires_at
    used ← instant used_at
    ok (
      record {
        session_id = v.session_id;
        account_id = v.account_id;
        presented_refresh_token_hash = presented_hash;
        successor_refresh_token_hash = successor_hash;
        expected_expires_at = expected_expires_at;
        used_at = used;
      },
      record {
        access_token = access.token;
        refresh_token = successor.token;
        expires_in = access.expires_in_seconds;
        refresh_expires_in = successor.expires_in_seconds;
      },
    )

  -- The rest of the renewal, by what the verification of the token presented says.
  unfoldable pub renew : Text → Date → Text → Option VerifiedRefreshToken → Action TokenPair
  renew token_id used_at presented none = reject_refresh false
  renew token_id used_at presented (some v) =
      run_renewal env (prepare_renewal token_id used_at presented v)

  -- `now` is what the clock says and `token_id` the successor's random identifier.
  unfoldable pub refresh : ℤ → Text → Text → Action TokenPair
  refresh now token_id presented =
      let used_at = authentication_token_issued_at (valid now) in
      renew token_id used_at presented
        (RefreshToken.verify env.jose env.is_uuid_v7 env.refresh_key presented used_at)
