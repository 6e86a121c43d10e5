-- ===== src/Common/Authentication.antt =====
-- packages/common/authentication/index.ts: the rules of passwords and of the e-mail of a login.
use protege_mais.Base.{ℕ, Bool, not, ◌&&◌, ltb, leb, length, any}
use protege_mais.Text.{Text, text_eq, utf16_length, is_control, trim}
use protege_mais.Text.Unicode.{Unicode}
use protege_mais.Text.Patterns.{is_address}

abbrev pub authentication_password_minimum_length : ℕ
authentication_password_minimum_length = 15

abbrev pub authentication_password_maximum_length : ℕ
authentication_password_maximum_length = 128

abbrev pub authentication_email_maximum_length : ℕ
authentication_email_maximum_length = 320

unfoldable pub normalize_authentication_password : Unicode → Text → Text
normalize_authentication_password u password = u.to_nfc password

unfoldable pub is_valid_new_authentication_password : Unicode → Text → Bool
unfolding normalize_authentication_password text_eq utf16_length trim is_control
is_valid_new_authentication_password u password =
    let normalized = normalize_authentication_password u password in
    text_eq password normalized
    && ltb 0 (utf16_length (trim normalized))
    && leb authentication_password_minimum_length (length normalized)
    && leb (length normalized) authentication_password_maximum_length
    && not (any is_control normalized)

unfoldable pub is_authentication_password_within_maximum_length : Unicode → Text → Bool
unfolding normalize_authentication_password
is_authentication_password_within_maximum_length u password =
    leb (length (normalize_authentication_password u password))
      authentication_password_maximum_length

unfoldable pub is_authentication_email_lookup_candidate : Text → Bool
unfolding is_address utf16_length
is_authentication_email_lookup_candidate email =
    ltb 0 (utf16_length email)
    && leb (length email) authentication_email_maximum_length
    && is_address email
