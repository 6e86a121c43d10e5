-- ===== src/Database/Sessions.antt =====
-- packages/repositories/authentication/index.ts, `DrizzleAuthenticationSessionRepository`. Each
-- method is one transaction, whose first statement locks the row that it selects: concurrent calls
-- take effect one after the other, so a call is one step, and one that throws is rolled back.
pub mod Rows
pub mod Outcomes
pub mod Effect
pub mod Contract
pub mod History
pub mod Replay
pub mod Health
pub mod Complete
use protege_mais.Base.{
  ℕ, ◌+◌, Bool, true, false, not, ◌&&◌, ◌||◌, Option, none, some, List, ◌∷◌, map, ◌==◌,
  if◌then◌else◌, is_none, every, any, find, count, ℤ, ltb_ℤ, eqb_ℤ, max_ℤ, Result, ok, err,
}
use protege_mais.Text.{Text, text_eq}
use protege_mais.Common.Errors.{Thrown, plain_error}
use protege_mais.Database.Tables.{
  Account, AuthSession, is_active, Database, Locale, session_check, is_unique,
}

pub record CreateSessionInput : Type 0 where
  pub id : Text
  pub account_id : Text
  pub refresh_token_hash : Text
  pub device_identifier : Text
  pub device_name : Option Text
  pub user_agent : Option Text
  pub expires_at : ℤ
  pub created_at : ℤ

pub record RotateInput : Type 0 where
  pub session_id : Text
  pub account_id : Text
  pub presented_refresh_token_hash : Text
  pub successor_refresh_token_hash : Text
  pub expected_expires_at : ℤ
  pub used_at : ℤ

pub data RotateResult : Type 0 where
  invalid reused rotated : RotateResult

-- An active account that has not been deleted.
abbrev pub eligible : Text → Account → Bool
eligible account_id a = text_eq a.id account_id && is_active a.status && is_none a.deleted_at

abbrev pub new_session : CreateSessionInput → AuthSession
new_session i = record {
  id = i.id;
  account_id = i.account_id;
  refresh_token_hash = i.refresh_token_hash;
  device_identifier = i.device_identifier;
  device_name = i.device_name;
  ip_hash = none;
  user_agent = i.user_agent;
  expires_at = i.expires_at;
  last_used_at = none;
  revoked_at = none;
  created_at = i.created_at;
  updated_at = i.created_at;
  version = 1;
}

-- The primary key, the unique index on the hash and the checks of the row. The foreign key holds:
-- the account was selected in the same transaction.
unfoldable pub insertable : Locale → AuthSession → List AuthSession → Bool
unfolding session_check
insertable pg s rows =
    session_check pg s
    && not (any (λ (r : AuthSession). text_eq r.id s.id) rows)
    && not (any (λ (r : AuthSession). text_eq r.refresh_token_hash s.refresh_token_hash) rows)

unfoldable pub create : Locale → CreateSessionInput → Database → Result Thrown Bool × Database
unfolding insertable
create pg i db =
    if any (eligible i.account_id) db.accounts
    then (if insertable pg (new_session i) db.auth_sessions
        then (ok true, record db { auth_sessions = new_session i ∷ db.auth_sessions })
        else (err plain_error, db))
    else (ok false, db)

-- `isNull(revokedAt)` and `gt(expiresAt, usedAt)`
abbrev pub is_live : ℤ → AuthSession → Bool
is_live at s = is_none s.revoked_at && ltb_ℤ at s.expires_at

-- The `WHERE` of the select, with the joined account.
unfoldable pub selectable : RotateInput → List Account → AuthSession → Bool
selectable i accounts s =
    text_eq s.id i.session_id
    && text_eq s.account_id i.account_id
    && eqb_ℤ s.expires_at i.expected_expires_at
    && is_live i.used_at s
    && any (eligible s.account_id) accounts

unfoldable pub revoke : RotateInput → AuthSession → AuthSession
revoke i s = record s {
  revoked_at = some i.used_at;
  updated_at = max_ℤ s.updated_at i.used_at;
  version = s.version + 1;
}

unfoldable pub succeed : RotateInput → AuthSession → AuthSession
succeed i s = record s {
  refresh_token_hash = i.successor_refresh_token_hash;
  last_used_at = some i.used_at;
  updated_at = max_ℤ s.updated_at i.used_at;
  version = s.version + 1;
}

-- The `WHERE` of both updates: the row that was locked, with the hash that it had.
unfoldable pub targeted : Text → Text → ℤ → AuthSession → Bool
targeted id hash at s = text_eq s.id id && (text_eq s.refresh_token_hash hash && is_live at s)

-- `UPDATE auth_sessions SET … WHERE … RETURNING id`: the rows after it and how many it changed. It
-- is refused if a changed row breaks a check, or the rows the unique index.
unfoldable pub update_sessions :
    Locale
    → (AuthSession → Bool)
    → (AuthSession → AuthSession)
    → List AuthSession
    → Result Thrown (ℕ × List AuthSession)
unfolding session_check is_unique
update_sessions pg p f rows =
    let changed = map (λ s. if p s then f s else s) rows in
    if every (λ s. not (p s) || session_check pg (f s)) rows
      && is_unique (λ (s : AuthSession). s.refresh_token_hash) changed
    then ok (count p rows, changed)
    else err plain_error

-- What a transaction that ends in an update returns.
abbrev pub settle :
    Database
    → RotateResult
    → Result Thrown (ℕ × List AuthSession)
    → Result Thrown RotateResult × Database
settle db outcome (err e) = (err e, db)
settle db outcome (ok (changed, rows)) =
    (ok (if changed == 1 then outcome else invalid), record db { auth_sessions = rows })

-- The transaction on the row that the select has locked.
unfoldable pub rotate_selected :
    Locale → RotateInput → Database → Option AuthSession → Result Thrown RotateResult × Database
unfolding update_sessions targeted revoke succeed
rotate_selected pg i db none = (ok invalid, db)
rotate_selected pg i db (some s) =
    if text_eq s.refresh_token_hash i.presented_refresh_token_hash
    then settle db rotated (
        update_sessions pg (targeted s.id i.presented_refresh_token_hash i.used_at) (succeed i)
          db.auth_sessions)
    else settle db reused (
        update_sessions pg (targeted s.id s.refresh_token_hash i.used_at) (revoke i)
          db.auth_sessions)

unfoldable pub rotate : Locale → RotateInput → Database → Result Thrown RotateResult × Database
unfolding rotate_selected selectable
rotate pg i db = rotate_selected pg i db (find (selectable i db.accounts) db.auth_sessions)
