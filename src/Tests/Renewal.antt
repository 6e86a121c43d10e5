-- ===== src/Tests/Renewal.antt =====
-- packages/useCases/authentication/refresh-session.ts: the theorem on one token of one session.
use protege_mais.Base.{
  ◌≡◌, refl, ◌≢◌, [], ◌∷◌, ◌++◌, ℤ, pos, ◌+ℤ◌, ◌-ℤ◌, floor_div, scale, ok, ok_inj,
}
use protege_mais.Tests.Sessions.{differ}
use protege_mais.UseCases.Refresh.{renew, run_renewal, prepare_renewal, refresh}
use protege_mais.Services.Dates.{authentication_token_issued_at, date_of_seconds, unix_time}
use protege_mais.Text.{
  utf16_length, is_alphanumeric, is_digit, is_lower, is_upper, Text, codes, text_eq,
}
use protege_mais.Tests.Codec.{read_token, get, get_payload, split, plain_jose}
use protege_mais.Services.RefreshToken.{
  read_refresh_token, refresh_claims_hold, is_refresh_token_id, issue_between, hash_refresh_token,
  refresh_token_hash_prefix,
}
use protege_mais.Database.Sessions.{
  rotate, rotate_selected, selectable, succeed, targeted, update_sessions,
}
use protege_mais.Database.Tables.{
  ends_plain, hash_check, is_btrimmed, is_unique, label_check, lifecycle_check, session_check,
  version_check,
}
use protege_mais.Services.Jose.{jwt_accepts}
use protege_mais.Text.Patterns.{exactly, head_then, is_base64url, is_identifier, is_identifier_char}
use protege_mais.Services.RefreshToken
use protege_mais.Services.AccessToken
use protege_mais.Database.Sessions.History.{run}
use protege_mais.Services.RefreshToken.Window.{refresh_token_text}
use protege_mais.Services.AccessToken.Window.{issued_token}
use protege_mais.UseCases.World.{World}
use protege_mais.UseCases.Login.{TokenPair}
use protege_mais.UseCases.Refresh.Replay.{refresh_once}
use protege_mais.Tests.Data.{account_id, session_id, phone, ana}
use protege_mais.Tests.Tokens.{has_36, secret, first_token_id}
use protege_mais.Tests.Login.{plain, digest, total}

abbrev second_token_id : Text
second_token_id = codes "EEEEEEEEEEFFFFFFFFFFGGGGGGGGGGHHHHHHHHHH456"

abbrev token : Text → ℤ → Text
token id issued =
    refresh_token_text plain_jose has_36 secret account_id session_id id issued (pos 9000)

abbrev hash_of_token : Text → Text
hash_of_token t = refresh_token_hash_prefix ++ digest t

abbrev opened : World
opened = record {
  database = record {
    accounts = ana ∷ [];
    auth_sessions =
        record phone { refresh_token_hash = hash_of_token (token first_token_id (pos 1000)) } ∷ [];
  };
  audit = [];
}

abbrev pair : TokenPair
pair = record {
  access_token = issued_token plain_jose has_36 secret account_id session_id (pos 1500);
  refresh_token = token second_token_id (pos 1500);
  expires_in = 900;
  refresh_expires_in = pos 7500;
}

hashed :
    hash_refresh_token digest (token first_token_id (pos 1000))
    ≡ ok (hash_of_token (token first_token_id (pos 1000)))
unfolding hash_refresh_token
hashed = refl

renews :
    (refresh plain (pos 1500000) second_token_id (token first_token_id (pos 1000)) opened).0
    ≡ ok pair
unfolding refresh renew authentication_token_issued_at utf16_length read_token read_refresh_token
    refresh_claims_hold is_refresh_token_id run_renewal prepare_renewal issue_between rotate
    rotate_selected selectable succeed targeted update_sessions ends_plain hash_check is_btrimmed
    is_unique label_check lifecycle_check session_check version_check date_of_seconds unix_time
    jwt_accepts get get_payload split is_alphanumeric is_digit is_lower is_upper exactly head_then
    is_base64url is_identifier is_identifier_char floor_div scale ◌+ℤ◌ ◌-ℤ◌ RefreshToken.verify
    RefreshToken.issue AccessToken.issue hash_refresh_token total text_eq
renews = refl

new_hash :
    hash_refresh_token digest (token second_token_id (pos 1500))
    ≢ ok (hash_of_token (token first_token_id (pos 1000)))
unfolding hash_refresh_token text_eq total
new_hash e =
    differ (hash_of_token (token second_token_id (pos 1500)))
      (hash_of_token (token first_token_id (pos 1000))) refl (ok_inj e)

abbrev afterwards : World
afterwards =
    (refresh plain (pos 1500000) second_token_id (token first_token_id (pos 1000)) opened).1

nothing_between :
    afterwards.database
    ≡ run plain.locale
        (refresh plain
          (pos 1500000)
          second_token_id
          (token first_token_id (pos 1000))
          opened).1.database
        []
unfolding run
nothing_between = refl

refresh_once_example :
    (refresh plain (pos 1600000) first_token_id (token first_token_id (pos 1000)) afterwards).0
    ≢ ok pair
refresh_once_example =
    refresh_once plain account_id session_id first_token_id (pos 1000) (pos 9000) (pos 1500000)
      (pos 1600000) second_token_id first_token_id (hash_of_token (token first_token_id (pos 1000)))
      opened afterwards [] pair pair (tt, tt) hashed renews new_hash tt nothing_between
