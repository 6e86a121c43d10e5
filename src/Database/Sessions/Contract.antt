-- ===== src/Database/Sessions/Contract.antt =====
-- packages/repositories/authentication/index.ts, `rotate`: the abstract contract of one rotation,
-- over the row of the session alone, and the proof that the transaction keeps it.
use protege_mais.Base.{◌+◌, ◌≡◌, refl, ◌≢◌, some, arith, ◌≤ℤ◌, Result, ok, err}
use protege_mais.Common.Errors.{Thrown}
use protege_mais.Database.Tables.{AuthSession, Database, Locale}
use protege_mais.Database.Sessions.{
  RotateInput, RotateResult, invalid, reused, rotated, revoke, succeed, rotate,
}
use protege_mais.Database.Sessions.Rows.{DistinctIds}
use protege_mais.Database.Sessions.Effect.{IsUsable, Replaces, Effect, rotate-Effect}

-- The session is the same one, counted once more, and no record of it goes back in time.
record Continued (i : RotateInput) (s s' : AuthSession) : Type 0 where
  same_id : s'.id ≡ s.id
  same_account : s'.account_id ≡ s.account_id
  same_device : s'.device_identifier ≡ s.device_identifier
  same_device_name : s'.device_name ≡ s.device_name
  same_ip : s'.ip_hash ≡ s.ip_hash
  same_agent : s'.user_agent ≡ s.user_agent
  same_expiry : s'.expires_at ≡ s.expires_at
  same_birth : s'.created_at ≡ s.created_at
  counted : s'.version ≡ s.version + 1
  updated_since : s.updated_at ≤ℤ s'.updated_at
  updated_now : i.used_at ≤ℤ s'.updated_at

-- `s'` is the session `s` under the successor's hash, used now and not revoked.
pub record Renewed (i : RotateInput) (s s' : AuthSession) : Type 0 where
  continued : Continued i s s'
  new_hash : s'.refresh_token_hash ≡ i.successor_refresh_token_hash
  used_now : s'.last_used_at ≡ some i.used_at
  unrevoked : s'.revoked_at ≡ s.revoked_at

-- `s'` is the session `s`, revoked now, under the hash and with the last use that it had.
pub record Revoked (i : RotateInput) (s s' : AuthSession) : Type 0 where
  continued : Continued i s s'
  old_hash : s'.refresh_token_hash ≡ s.refresh_token_hash
  old_use : s'.last_used_at ≡ s.last_used_at
  revoked_now : s'.revoked_at ≡ some i.used_at

abbrev pub Contract : RotateInput → Database → Result Thrown RotateResult × Database → Type 0
Contract i db (err e, db') = db' ≡ db
Contract i db (ok invalid, db') = db' ≡ db
Contract i db (ok rotated, db') =
    (s : AuthSession) × (s' : AuthSession) × IsUsable i db s
    × (s.refresh_token_hash ≡ i.presented_refresh_token_hash)
    × Renewed i s s'
    × Replaces i.session_id s' db db'
Contract i db (ok reused, db') =
    (s : AuthSession) × (s' : AuthSession) × IsUsable i db s
    × (s.refresh_token_hash ≢ i.presented_refresh_token_hash)
    × Revoked i s s'
    × Replaces i.session_id s' db db'

succeed-Renewed : (i : RotateInput) (s : AuthSession) → Renewed i s (succeed i s)
unfolding succeed
succeed-Renewed i s = record {
  continued = record {
    same_id = refl;
    same_account = refl;
    same_device = refl;
    same_device_name = refl;
    same_ip = refl;
    same_agent = refl;
    same_expiry = refl;
    same_birth = refl;
    counted = refl;
    updated_since = ground arith;
    updated_now = ground arith;
  };
  new_hash = refl;
  used_now = refl;
  unrevoked = refl;
}

revoke-Revoked : (i : RotateInput) (s : AuthSession) → Revoked i s (revoke i s)
unfolding revoke
revoke-Revoked i s = record {
  continued = record {
    same_id = refl;
    same_account = refl;
    same_device = refl;
    same_device_name = refl;
    same_ip = refl;
    same_agent = refl;
    same_expiry = refl;
    same_birth = refl;
    counted = refl;
    updated_since = ground arith;
    updated_now = ground arith;
  };
  old_hash = refl;
  old_use = refl;
  revoked_now = refl;
}

Effect-Contract :
    (i : RotateInput) (db : Database) (r : Result Thrown RotateResult × Database)
    → Effect i db r
    → Contract i db r
Effect-Contract i db (err e, db') h = h
Effect-Contract i db (ok invalid, db') h = h
Effect-Contract i db (ok rotated, db') (s, usable, same, replaces) =
    (s, succeed i s, usable, same, succeed-Renewed i s, replaces)
Effect-Contract i db (ok reused, db') (s, usable, other, replaces) =
    (s, revoke i s, usable, other, revoke-Revoked i s, replaces)

-- In a table with distinct keys every call of `rotate` keeps the contract: an error and `invalid`
-- change nothing; `rotated` was earned with the session's current hash, and the session now has
-- the successor's; `reused` means another hash, and the session is now revoked. Both need a usable
-- session, and neither touches any other row.
pub rotate-Contract :
    (pg : Locale) (i : RotateInput) (db : Database)
    → DistinctIds db.auth_sessions
    → Contract i db (rotate pg i db)
rotate-Contract pg i db d = Effect-Contract i db (rotate pg i db) (rotate-Effect pg i db d)
