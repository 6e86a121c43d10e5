-- ===== src/Common/AuthSessions.antt =====
-- packages/common/auth-sessions/index.ts, accounts/index.ts and permissions/index.ts.
pub mod Sanitized
use protege_mais.Base.{
  ℕ, String, Bool, ◌&&◌, Option, none, some, List, [], ◌∷◌, map, leb, ◌==◌, if◌then◌else◌, length,
  take,
}
use protege_mais.Text.{Text, codes, utf16_length, is_ascii_control, trim, collapse_spaces, member}
use protege_mais.Text.Unicode.{Unicode}
use protege_mais.Text.Patterns.{is_identifier}

abbrev pub auth_session_device_identifier_maximum_length : ℕ
auth_session_device_identifier_maximum_length = 128

abbrev pub auth_session_device_name_maximum_length : ℕ
auth_session_device_name_maximum_length = 120

abbrev pub auth_session_refresh_token_maximum_length : ℕ
auth_session_refresh_token_maximum_length = 4096

abbrev pub auth_session_user_agent_maximum_length : ℕ
auth_session_user_agent_maximum_length = 512

unfoldable pub is_valid_auth_session_device_identifier : Text → Bool
unfolding is_identifier utf16_length
is_valid_auth_session_device_identifier value =
    leb (utf16_length value) auth_session_device_identifier_maximum_length && is_identifier value

-- `.replace(/[\u0000-\u001f\u007f]/gu, ' ')`
unfoldable pub blank_controls : Text → Text
unfolding is_ascii_control
blank_controls = map (λ c. if is_ascii_control c then 0x20 else c)

-- `sanitizeAuthSessionText`, for the two kinds of missing value alike.
unfoldable pub sanitize_auth_session_text : Option Text → ℕ → Option Text
unfolding blank_controls collapse_spaces trim
sanitize_auth_session_text none maximum = none
sanitize_auth_session_text (some value) maximum =
    let sanitized = trim (collapse_spaces (blank_controls value)) in
    if length sanitized == 0 then none else some (take maximum sanitized)

unfoldable pub sanitize_auth_session_device_name : Option Text → Option Text
unfolding sanitize_auth_session_text
sanitize_auth_session_device_name value =
    sanitize_auth_session_text value auth_session_device_name_maximum_length

unfoldable pub sanitize_auth_session_user_agent : Option Text → Option Text
unfolding sanitize_auth_session_text
sanitize_auth_session_user_agent value =
    sanitize_auth_session_text value auth_session_user_agent_maximum_length

-- `normalizeAccountEmail`
unfoldable pub normalize_account_email : Unicode → Text → Text
unfolding trim
normalize_account_email u email = u.to_lower_case (trim email)

-- The codes of `permissionCatalog`, in the order of `permissionCodes`.
abbrev pub permission_codes : List String
permission_codes =
    "account.list" ∷ "account.view" ∷ "account.create" ∷ "account.update" ∷ "account.disable"
    ∷ "organization.list" ∷ "organization.view" ∷ "organization.create" ∷ "organization.update"
    ∷ "victim.list" ∷ "victim.view" ∷ "victim.create" ∷ "victim.update" ∷ "case.list" ∷ "case.view"
    ∷ "case.create" ∷ "case.update" ∷ "case.close" ∷ "case.transfer" ∷ []

unfoldable pub is_permission_code : Text → Bool
unfolding member
is_permission_code value = member value (map codes permission_codes)
