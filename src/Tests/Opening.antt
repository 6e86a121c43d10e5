-- ===== src/Tests/Opening.antt =====
-- packages/useCases/authentication/login.ts: the theorem on one login.
use protege_mais.Base.{◌≡◌, refl, true, none, pos, ◌+ℤ◌, ◌-ℤ◌, floor_div, scale, ok}
use protege_mais.Services.Dates.{authentication_token_issued_at, date_of_seconds, unix_time}
use protege_mais.Text.{utf16_length, is_alphanumeric, is_digit, is_lower, is_upper, codes, text_eq}
use protege_mais.Tests.Codec.{plain_jose}
use protege_mais.Services.RefreshToken.{
  read_refresh_token, refresh_claims_hold, is_refresh_token_id, issue_between, hash_refresh_token,
  refresh_token_hash_prefix,
}
use protege_mais.Database.Sessions.{create, insertable}
use protege_mais.Database.Tables.{
  ends_plain, hash_check, is_btrimmed, label_check, lifecycle_check, session_check, version_check,
}
use protege_mais.Text.Patterns.{head_then, is_identifier, is_identifier_char}
use protege_mais.Services.RefreshToken
use protege_mais.Services.AccessToken
use protege_mais.Services.RefreshToken.Window.{refresh_token_text}
use protege_mais.Services.AccessToken.Window.{issued_token}
use protege_mais.UseCases.Login.{
  TokenPair, LoginInput, LoginDraws, login, open_session, open_by, run_opening, prepare_opening,
}
use protege_mais.Tests.Data.{account_id}
use protege_mais.Tests.Tokens.{has_36, secret, first_token_id}
use protege_mais.Tests.Login.{plain, total, world, credentials}
use protege_mais.Common.AuthSessions.{
  normalize_account_email, is_valid_auth_session_device_identifier,
  sanitize_auth_session_device_name, sanitize_auth_session_user_agent, sanitize_auth_session_text,
}
use protege_mais.Common.Authentication.{
  is_authentication_email_lookup_candidate, is_authentication_password_within_maximum_length,
}
use protege_mais.Services.Password
use protege_mais.Services.Password.{is_supported_argon2id_hash}
use protege_mais.Database.Accounts.{
  find_by_normalized_email, record_successful_login, may_log_in, logged_in,
}
use protege_mais.Text.Unicode.{lower_ascii}
use protege_mais.UseCases.Authenticate.{
  accepted, email_lookup_key, complete_authentication, AuthenticatedAccount, authenticate,
}
use protege_mais.UseCases.Login.Opening.{Opened, login-Opened}

abbrev draws : LoginDraws
draws = record {
  authenticated_at = pos 2999000;
  now = pos 3000500;
  session_id = codes "0190f5c1-0000-7000-8000-000000000004";
  token_id = first_token_id;
}

abbrev input : LoginInput
input = record {
  credentials = credentials;
  device_identifier = codes "laptop";
  device_name = none;
  user_agent = none;
}

abbrev pair : TokenPair
pair = record {
  access_token = issued_token plain_jose has_36 secret account_id draws.session_id (pos 3000);
  refresh_token =
      refresh_token_text plain_jose has_36 secret account_id draws.session_id first_token_id
        (pos 3000) (pos 2595000);
  expires_in = 900;
  refresh_expires_in = pos 2592000;
}

opens : (login plain draws input world).0 ≡ ok pair
unfolding authentication_token_issued_at utf16_length issue_between ends_plain hash_check
    is_btrimmed label_check lifecycle_check session_check version_check date_of_seconds unix_time
    is_alphanumeric is_digit is_lower is_upper head_then is_identifier is_identifier_char floor_div
    scale ◌+ℤ◌ ◌-ℤ◌ RefreshToken.issue AccessToken.issue hash_refresh_token total text_eq create
    insertable login open_session open_by run_opening prepare_opening authenticate
    complete_authentication accepted find_by_normalized_email email_lookup_key
    is_authentication_email_lookup_candidate normalize_account_email lower_ascii Password.verify
    is_authentication_password_within_maximum_length Password.is_supported_credential
    is_supported_argon2id_hash record_successful_login may_log_in logged_in
    is_valid_auth_session_device_identifier sanitize_auth_session_device_name
    sanitize_auth_session_user_agent sanitize_auth_session_text
opens = refl

login-Opened_example :
    (account : AuthenticatedAccount) × ((authenticate plain draws.authenticated_at credentials
        world).0
      ≡ ok account)
    × (is_valid_auth_session_device_identifier input.device_identifier ≡ true)
    × Opened plain draws input account world (login plain draws input world).1 pair
login-Opened_example = login-Opened plain draws input world pair opens
