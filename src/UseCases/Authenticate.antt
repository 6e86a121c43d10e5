-- ===== src/UseCases/Authenticate.antt =====
-- packages/useCases/authentication/index.ts, `AuthenticateWithEmailAndPassword.execute`. The clock
-- is read once, if at all; `now` is what it says.
pub mod Outcome
use protege_mais.Base.{Bool, ◌&&◌, Option, none, some, [], ◌∷◌, if◌then◌else◌, ℤ, ok}
use protege_mais.Text.{Text, codes}
use protege_mais.Common.AuthSessions.{normalize_account_email}
use protege_mais.Common.Authentication.{is_authentication_email_lookup_candidate}
use protege_mais.Database.Tables.{is_active}
use protege_mais.Database.Accounts.{
  AccountRecord, find_by_normalized_email, record_successful_login,
}
use protege_mais.Services.Password
use protege_mais.UseCases.World.{
  Environment, Action, authentication_succeeded, authentication_failed, lift, transact, throw,
  record_event, ◌>>=!◌, ◌>>!◌, invalid_credentials,
}

pub record Credentials : Type 0 where
  pub email : Text
  pub password : Text

pub record AuthenticatedAccount : Type 0 where
  pub account_id : Text
  pub mfa_enabled : Bool

abbrev pub invalid_authentication_email_lookup_key : Text
invalid_authentication_email_lookup_key = codes "invalid-authentication-email"

unfoldable pub email_lookup_key : Environment → Text → Text
email_lookup_key env email =
    let normalized = normalize_account_email env.unicode email in
    if is_authentication_email_lookup_candidate normalized
    then normalized
    else invalid_authentication_email_lookup_key

-- `account?.passwordHash ?? null`
abbrev pub hash_of_record : Option AccountRecord → Option Text
hash_of_record none = none
hash_of_record (some a) = a.password_hash

unfoldable pub reject_credentials : {A : Type 0} → Action A
reject_credentials = record_event authentication_failed >>! throw invalid_credentials

-- The account and the hash, if the password matches, the account is active and has a hash.
unfoldable pub accepted : Bool → Option AccountRecord → Option (AccountRecord × Text)
accepted matches none = none
accepted matches (some a) = elim a.password_hash [
  | none ↦ none
  | some hash ↦ if matches && is_active a.status then some (a, hash) else none
]

unfoldable pub complete_authentication :
    ℤ → Option (AccountRecord × Text) → Action AuthenticatedAccount
unfolding reject_credentials
complete_authentication now none = reject_credentials
complete_authentication now (some (a, hash)) =
    transact (
      record_successful_login
        (record { account_id = a.id; expected_password_hash = hash; occurred_at = now }))
    >>=! λ recorded.
        if recorded
        then (record_event authentication_succeeded
            >>! lift (ok (record { account_id = a.id; mfa_enabled = a.mfa_enabled })))
        else reject_credentials

-- The account that the e-mail finds, and whether the password is its own.
unfoldable pub authenticate : Environment → ℤ → Credentials → Action AuthenticatedAccount
unfolding complete_authentication
authenticate env now i w =
    let account = find_by_normalized_email w.database (email_lookup_key env i.email) in
    let (matches, _) = Password.verify env.unicode env.argon i.password (hash_of_record account) in
    complete_authentication now (accepted matches account) w
