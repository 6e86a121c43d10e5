-- ===== src/Database/Tables.antt =====
-- packages/models/accounts.ts, auth-sessions.ts and columns.ts: rows, constraints, projections.
-- Instants are milliseconds since the epoch, the precision of the columns. Identifiers are the
-- canonical text of a uuid. PostgreSQL's classes `[[:space:]]` and `[[:cntrl:]]` depend on the
-- database's locale and are parameters.
use protege_mais.Base.{
  ℕ, Bool, true, false, not, ◌&&◌, List, [], ◌∷◌, Option, none, some, ℤ, leb, ◌==◌, ltb_ℤ, leb_ℤ,
  any, length, is_none,
}
use protege_mais.Text.{Text, text_eq}
use protege_mais.Text.Patterns.{is_identifier}

pub data AccountStatus : Type 0 where
  active blocked disabled : AccountStatus

pub data AccountType : Type 0 where
  person service : AccountType

abbrev pub is_active : AccountStatus → Bool
is_active active = true
is_active blocked = false
is_active disabled = false

pub record Account : Type 0 where
  pub id : Text
  pub email : Option Text
  pub email_normalized : Option Text
  pub phone_e164 : Option Text
  pub password_hash : Option Text
  pub external_provider : Option Text
  pub external_subject : Option Text
  pub type : AccountType
  pub status : AccountStatus
  pub mfa_enabled : Bool
  pub last_login_at : Option ℤ
  pub created_at : ℤ
  pub updated_at : ℤ
  pub version : ℕ
  pub deleted_at : Option ℤ

pub record AuthSession : Type 0 where
  pub id : Text
  pub account_id : Text
  pub refresh_token_hash : Text
  pub device_identifier : Text
  pub device_name : Option Text
  pub ip_hash : Option Text
  pub user_agent : Option Text
  pub expires_at : ℤ
  pub last_used_at : Option ℤ
  pub revoked_at : Option ℤ
  pub created_at : ℤ
  pub updated_at : ℤ
  pub version : ℕ

pub record Database : Type 0 where
  pub accounts : List Account
  pub auth_sessions : List AuthSession

-- `x IS NULL OR p(x)`
abbrev pub null_or {ℓ} : {A : Type ℓ} → (A → Bool) → Option A → Bool
null_or p none = true
null_or p (some x) = p x

-- The greatest value of a column of type `integer`.
abbrev pub max_integer : ℕ
max_integer = 2147483647

-- `auth_sessions_lifecycle_check`
unfoldable pub lifecycle_check : ℤ → ℤ → Option ℤ → Option ℤ → Bool
lifecycle_check created expires used revoked =
    ltb_ℤ created expires
    && null_or (λ u. leb_ℤ created u && ltb_ℤ u expires) used
    && null_or (λ r. leb_ℤ created r) revoked
    && null_or (λ r. null_or (λ u. leb_ℤ u r) used) revoked

-- `auth_sessions_version_check`, and the range of the column.
unfoldable pub version_check : ℕ → Bool
version_check v = leb 1 v && leb v max_integer

-- PostgreSQL's classes of characters.
pub record Locale : Type 0 where
  pub pg_space : ℕ → Bool
  pub pg_cntrl : ℕ → Bool

-- `btrim(x) = x`: no plain space at either end.
unfoldable pub ends_plain : Text → Bool
ends_plain [] = true
ends_plain (c ∷ []) = not (c == 0x20)
ends_plain (c ∷ d ∷ s) = ends_plain (d ∷ s)

unfoldable pub is_btrimmed : Text → Bool
unfolding ends_plain
is_btrimmed [] = true
is_btrimmed (c ∷ s) = not (c == 0x20) && ends_plain (c ∷ s)

module _ (pg : Locale) where
  -- The checks of a hash: `char_length(x) > 0 AND x !~ '[[:space:]]'`, and the column's length.
  unfoldable pub hash_check : Text → Bool
  hash_check h = leb 1 (length h) && not (any pg.pg_space h) && leb (length h) 255

  -- The checks of a device's name and of a user agent, with the column's length.
  unfoldable pub label_check : ℕ → Text → Bool
  unfolding is_btrimmed
  label_check maximum x =
      leb 1 (length x) && is_btrimmed x && not (any pg.pg_cntrl x) && leb (length x) maximum

  -- Every constraint of `auth_sessions` on one row.
  unfoldable pub session_check : AuthSession → Bool
  session_check s =
      hash_check s.refresh_token_hash
      && is_identifier s.device_identifier
      && null_or (label_check 120) s.device_name
      && null_or hash_check s.ip_hash
      && null_or (label_check 512) s.user_agent
      && lifecycle_check s.created_at s.expires_at s.last_used_at s.revoked_at
      && version_check s.version

-- A unique index over the column that `column` reads.
unfoldable pub is_unique {ℓ} : {A : Type ℓ} → (A → Text) → List A → Bool
unfolding text_eq
is_unique column [] = true
is_unique column (x ∷ xs) = not (any (λ y. text_eq (column y) (column x)) xs) && is_unique column xs

-- `serializePublicAuthSession`: no token hash, address hash or account.
pub record PublicAuthSession : Type 0 where
  pub id : Text
  pub device_identifier : Text
  pub device_name : Option Text
  pub user_agent : Option Text
  pub expires_at : ℤ
  pub last_used_at : Option ℤ
  pub revoked_at : Option ℤ
  pub created_at : ℤ
  pub updated_at : ℤ
  pub version : ℕ

unfoldable pub serialize_public_auth_session : AuthSession → PublicAuthSession
serialize_public_auth_session s = record {
  id = s.id;
  device_identifier = s.device_identifier;
  device_name = s.device_name;
  user_agent = s.user_agent;
  expires_at = s.expires_at;
  last_used_at = s.last_used_at;
  revoked_at = s.revoked_at;
  created_at = s.created_at;
  updated_at = s.updated_at;
  version = s.version;
}

-- `isAuthSessionActive`
unfoldable pub is_auth_session_active : AuthSession → ℤ → Bool
is_auth_session_active s at = is_none s.revoked_at && ltb_ℤ at s.expires_at

pub record PublicAccount : Type 0 where
  pub id : Text
  pub email : Option Text
  pub phone_e164 : Option Text
  pub external_provider : Option Text
  pub type : AccountType
  pub status : AccountStatus
  pub mfa_enabled : Bool
  pub last_login_at : Option ℤ
  pub created_at : ℤ
  pub updated_at : ℤ
  pub version : ℕ

-- `serializePublicAccount`: no password hash and no external subject.
unfoldable pub serialize_public_account : Account → PublicAccount
serialize_public_account a = record {
  id = a.id;
  email = a.email;
  phone_e164 = a.phone_e164;
  external_provider = a.external_provider;
  type = a.type;
  status = a.status;
  mfa_enabled = a.mfa_enabled;
  last_login_at = a.last_login_at;
  created_at = a.created_at;
  updated_at = a.updated_at;
  version = a.version;
}
