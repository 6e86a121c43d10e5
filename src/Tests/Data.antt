-- ===== src/Tests/Data.antt =====
-- A database with one active account and one live session, and calls on it.
use protege_mais.Base.{false, none, some, [], ◌∷◌, ltb, ◌==◌, pos}
use protege_mais.Text.{Text, codes}
use protege_mais.Database.Tables.{Account, AuthSession, Database, Locale, active, person}
use protege_mais.Database.Sessions.{CreateSessionInput, RotateInput}

abbrev pub plain_locale : Locale
plain_locale = record { pg_space = λ c. c == 0x20; pg_cntrl = λ c. ltb c 0x20 }

abbrev pub account_id : Text
account_id = codes "0190f5c1-0000-7000-8000-000000000001"

abbrev pub session_id : Text
session_id = codes "0190f5c1-0000-7000-8000-000000000002"

abbrev pub stored_password : Text
stored_password = codes "$argon2id$v=19$m=1$s$correct horse battery"

abbrev pub ana : Account
ana = record {
  id = account_id;
  email = some (codes "Ana@example.org");
  email_normalized = some (codes "ana@example.org");
  phone_e164 = none;
  password_hash = some stored_password;
  external_provider = none;
  external_subject = none;
  type = person;
  status = active;
  mfa_enabled = false;
  last_login_at = none;
  created_at = pos 0;
  updated_at = pos 0;
  version = 1;
  deleted_at = none;
}

abbrev pub phone : AuthSession
phone = record {
  id = session_id;
  account_id = account_id;
  refresh_token_hash = codes "sha256:first";
  device_identifier = codes "device-1";
  device_name = some (codes "Phone");
  ip_hash = none;
  user_agent = none;
  expires_at = pos 9000000;
  last_used_at = none;
  revoked_at = none;
  created_at = pos 1000;
  updated_at = pos 1000;
  version = 1;
}

abbrev pub one_session : Database
one_session = record { accounts = ana ∷ []; auth_sessions = phone ∷ [] }

abbrev pub renewal : RotateInput
renewal = record {
  session_id = session_id;
  account_id = account_id;
  presented_refresh_token_hash = codes "sha256:first";
  successor_refresh_token_hash = codes "sha256:second";
  expected_expires_at = pos 9000000;
  used_at = pos 5000;
}

abbrev pub replay : RotateInput
replay = record renewal {
  presented_refresh_token_hash = codes "sha256:zeroth";
  successor_refresh_token_hash = codes "sha256:third";
}

abbrev pub later_renewal : RotateInput
later_renewal = record renewal {
  presented_refresh_token_hash = codes "sha256:second";
  successor_refresh_token_hash = codes "sha256:fourth";
  used_at = pos 9000000;
}

abbrev pub second_device : CreateSessionInput
second_device = record {
  id = codes "0190f5c1-0000-7000-8000-000000000003";
  account_id = account_id;
  refresh_token_hash = codes "sha256:other";
  device_identifier = codes "device-2";
  device_name = none;
  user_agent = none;
  expires_at = pos 9000000;
  created_at = pos 2000;
}
