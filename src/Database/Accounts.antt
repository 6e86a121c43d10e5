-- ===== src/Database/Accounts.antt =====
-- packages/repositories/authentication/index.ts, `DrizzleAccountAuthenticationRepository`. Each
-- method is one statement, so it is one step; a refused statement changes nothing.
use protege_mais.Base.{
  ◌+◌, Bool, false, not, ◌&&◌, ◌||◌, map, Option, none, some, ℤ, ◌==◌, max_ℤ, if◌then◌else◌, every,
  find, count, is_none, default, Result, ok, err,
}
use protege_mais.Text.{Text, text_eq}
use protege_mais.Common.Errors.{Thrown, plain_error}
use protege_mais.Database.Tables.{Account, AccountStatus, is_active, Database, version_check}

-- `AuthenticationAccountRecord`
pub record AccountRecord : Type 0 where
  pub id : Text
  pub password_hash : Option Text
  pub status : AccountStatus
  pub mfa_enabled : Bool

-- `eq(column, value)` on a column that may be NULL.
abbrev pub equals_some : Option Text → Text → Bool
equals_some none t = false
equals_some (some s) t = text_eq s t

abbrev pub record_of : Account → AccountRecord
record_of a = record {
  id = a.id;
  password_hash = a.password_hash;
  status = a.status;
  mfa_enabled = a.mfa_enabled;
}

unfoldable pub find_by_normalized_email : Database → Text → Option AccountRecord
find_by_normalized_email db email =
    elim (find (λ (a : Account). equals_some a.email_normalized email && is_none a.deleted_at)
      db.accounts) [ none ↦ none | some a ↦ some (record_of a) ]

pub record RecordSuccessfulLoginInput : Type 0 where
  pub account_id : Text
  pub expected_password_hash : Text
  pub occurred_at : ℤ

-- The `WHERE` of the update: nothing about the credential has changed since it was read.
unfoldable pub may_log_in : RecordSuccessfulLoginInput → Account → Bool
may_log_in i a =
    text_eq a.id i.account_id
    && equals_some a.password_hash i.expected_password_hash
    && is_active a.status
    && is_none a.deleted_at

unfoldable pub logged_in : RecordSuccessfulLoginInput → Account → Account
logged_in i a = record a {
  last_login_at = some (max_ℤ (default a.last_login_at i.occurred_at) i.occurred_at);
  updated_at = max_ℤ a.updated_at i.occurred_at;
  version = a.version + 1;
}

-- `updatedAccounts.length === 1`. Only the version can break a constraint of `accounts`.
unfoldable pub record_successful_login :
    RecordSuccessfulLoginInput → Database → Result Thrown Bool × Database
unfolding may_log_in logged_in version_check
record_successful_login i db =
    let changed = map (λ a. if may_log_in i a then logged_in i a else a) db.accounts in
    if every (λ a. not (may_log_in i a) || version_check (logged_in i a).version) db.accounts
    then (ok (count (may_log_in i) db.accounts == 1), record db { accounts = changed })
    else (err plain_error, db)
