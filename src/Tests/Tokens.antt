-- ===== src/Tests/Tokens.antt =====
-- packages/services/authentication: the theorems on tokens that `plain_jose` signs.
use protege_mais.Base.{
  ◌≡◌, refl, Bool, true, false, ◌&&◌, none, some, ltb, ◌==◌, if◌then◌else◌, length, every, ℤ, pos,
  ◌+ℤ◌, ◌-ℤ◌, ◌≤ℤ◌, ◌<ℤ◌, ltb_ℤ, leb_ℤ, floor_div, ok, err,
}
use protege_mais.Services.RefreshToken.{
  issue, issue_between, VerifiedRefreshToken, IssueRefreshTokenInput, IssuedRefreshToken,
  refresh_token_lifetime_seconds, refresh_token_maximum_length, is_refresh_token_id, refresh_header,
  refresh_payload, refresh_lifetime_holds,
}
use protege_mais.Services.AccessToken.{
  VerifiedAccessToken, access_token_maximum_length, access_token_lifetime_seconds, access_header,
  access_payload, invalid_access_token,
}
use protege_mais.Services.Dates.{date_of_seconds, unix_time, valid}
use protege_mais.Services.AccessToken.Window.{access_sound, issued_token, accepted_while_fresh}
use protege_mais.Services.RefreshToken.Window.{
  refresh_sound, issue_sound, verified, refresh_token_text, accepted_until_expiry,
}
use protege_mais.Text.{Text, codes, utf16_length}
use protege_mais.Text.Patterns.{exactly, is_base64url}
use protege_mais.Base.Number.{is_safe}
use protege_mais.Services.Separation.{kinds_separate}
use protege_mais.Services.AccessToken
use protege_mais.Services.RefreshToken
use protege_mais.Tests.Data.{account_id, session_id}
use protege_mais.Tests.Codec.{plain_jose}

abbrev pub has_36 : Text → Bool
has_36 s = length s == 36

abbrev pub secret : Text
secret = codes "a secret of at least thirty-two bytes"

abbrev pub first_token_id : Text
first_token_id = codes "AAAAAAAAAABBBBBBBBBBCCCCCCCCCCDDDDDDDDDD123"

abbrev access_token : Text
access_token = issued_token plain_jose has_36 secret account_id session_id (pos 1000)

abbrev first_token : Text
first_token =
    refresh_token_text plain_jose has_36 secret account_id session_id first_token_id (pos 1000)
      (pos 9000)

safe_end : is_safe (pos 1000 +ℤ pos access_token_lifetime_seconds) ≡ true
unfolding ◌+ℤ◌
safe_end = refl

some_text : (utf16_length access_token == 0) ≡ false
unfolding utf16_length ◌+ℤ◌
some_text = refl

short_text : ltb access_token_maximum_length (utf16_length access_token) ≡ false
unfolding utf16_length ◌+ℤ◌
short_text = refl

formed_id : is_refresh_token_id first_token_id ≡ true
unfolding is_refresh_token_id exactly is_base64url
formed_id = refl

life : refresh_lifetime_holds (pos 1000) (pos 9000) ≡ true
unfolding ◌-ℤ◌
life = refl

some_refresh : (utf16_length first_token == 0) ≡ false
unfolding utf16_length
some_refresh = refl

short_refresh : ltb refresh_token_maximum_length (utf16_length first_token) ≡ false
unfolding utf16_length
short_refresh = refl

accepted_while_fresh_example :
    AccessToken.verify plain_jose has_36 secret access_token (valid (pos 1500000)) ≡ (
      if leb_ℤ (pos 1000) (unix_time (pos 1500000))
        && ltb_ℤ (unix_time (pos 1500000)) (pos 1000 +ℤ pos access_token_lifetime_seconds)
      then ok (record {
        account_id = account_id;
        session_id = session_id;
        issued_at = date_of_seconds (pos 1000);
        expires_at = date_of_seconds (pos 1000 +ℤ pos access_token_lifetime_seconds);
      })
      else err invalid_access_token)
accepted_while_fresh_example =
    accepted_while_fresh plain_jose has_36 secret account_id session_id (pos 1000) (pos 1500000)
      refl refl refl safe_end some_text short_text

accepted_until_expiry_example :
    RefreshToken.verify plain_jose has_36 secret first_token (valid (pos 1500000)) ≡ (
      if leb_ℤ (pos 1000) (unix_time (pos 1500000)) && ltb_ℤ (unix_time (pos 1500000)) (pos 9000)
      then some
          (verified plain_jose has_36 account_id session_id first_token_id (pos 1000) (pos 9000))
      else none)
accepted_until_expiry_example =
    accepted_until_expiry plain_jose has_36 secret account_id session_id first_token_id (pos 1000)
      (pos 9000) (pos 1500000) refl refl formed_id refl refl life some_refresh short_refresh

kinds_separate_example :
    (RefreshToken.verify plain_jose has_36 secret access_token (valid (pos 1500000)) ≡ none)
    × (AccessToken.verify plain_jose has_36 secret first_token (valid (pos 1500000))
        ≡ err invalid_access_token)
kinds_separate_example =
    kinds_separate plain_jose has_36 secret account_id session_id first_token_id (pos 1000)
      (pos 9000) (pos 1500000)

abbrev read_access : VerifiedAccessToken
read_access = record {
  account_id = account_id;
  session_id = session_id;
  issued_at = date_of_seconds (pos 1000);
  expires_at = date_of_seconds (pos 1000 +ℤ pos access_token_lifetime_seconds);
}

access_read :
    AccessToken.verify plain_jose has_36 secret access_token (valid (pos 1500000)) ≡ ok read_access
unfolding unix_time floor_div ◌+ℤ◌
access_read =
    accepted_while_fresh plain_jose has_36 secret account_id session_id (pos 1000) (pos 1500000)
      refl refl refl safe_end some_text short_text

access_sound_example :
    (issued : ℤ) × (issued ≤ℤ unix_time (pos 1500000))
    × (read_access.issued_at ≡ date_of_seconds issued)
    × (read_access.expires_at ≡ date_of_seconds (issued +ℤ pos access_token_lifetime_seconds))
    × (has_36 read_access.account_id ≡ true)
    × (has_36 read_access.session_id ≡ true)
access_sound_example =
    access_sound plain_jose has_36 secret access_token (pos 1500000) read_access access_read

abbrev read_refresh : VerifiedRefreshToken
read_refresh = verified plain_jose has_36 account_id session_id first_token_id (pos 1000) (pos 9000)

refresh_read :
    RefreshToken.verify plain_jose has_36 secret first_token (valid (pos 1500000))
    ≡ some read_refresh
unfolding unix_time floor_div
refresh_read =
    accepted_until_expiry plain_jose has_36 secret account_id session_id first_token_id (pos 1000)
      (pos 9000) (pos 1500000) refl refl formed_id refl refl life some_refresh short_refresh

refresh_sound_example :
    (issued : ℤ) × (expires : ℤ) × (issued ≤ℤ unix_time (pos 1500000))
    × (pos 0 <ℤ expires -ℤ issued)
    × (expires -ℤ issued ≤ℤ pos 2592000)
    × (read_refresh.issued_at ≡ date_of_seconds issued)
    × (read_refresh.expires_at ≡ date_of_seconds expires)
    × (has_36 read_refresh.account_id ≡ true)
    × (has_36 read_refresh.session_id ≡ true)
    × (length read_refresh.token_id ≡ 43)
    × (every is_base64url read_refresh.token_id ≡ true)
refresh_sound_example =
    refresh_sound plain_jose has_36 secret first_token (pos 1500000) read_refresh refresh_read

abbrev issue_input : IssueRefreshTokenInput
issue_input = record {
  account_id = account_id;
  session_id = session_id;
  issued_at = valid (pos 1000000);
  expires_at = some (valid (pos 9000000));
}

abbrev issued : IssuedRefreshToken
issued = record {
  token = first_token;
  expires_at = date_of_seconds (pos 9000);
  expires_in_seconds = pos 8000;
}

issues : issue plain_jose has_36 secret first_token_id issue_input ≡ ok issued
unfolding issue issue_between unix_time floor_div ◌-ℤ◌
issues = refl

issue_sound_example :
    (issued.token
      ≡ refresh_token_text plain_jose has_36 secret account_id session_id first_token_id
          (unix_time (pos 1000000))
          (unix_time (pos 9000000)))
    × (issued.expires_at ≡ date_of_seconds (unix_time (pos 9000000)))
    × (issued.expires_in_seconds ≡ unix_time (pos 9000000) -ℤ unix_time (pos 1000000))
    × (pos 0 <ℤ issued.expires_in_seconds)
    × (issued.expires_in_seconds ≤ℤ pos 2592000)
issue_sound_example =
    issue_sound plain_jose has_36 secret first_token_id issue_input (pos 1000000) (pos 9000000)
      issued refl refl issues
