-- ===== src/Database/Sessions/Outcomes.antt =====
-- packages/repositories/authentication/index.ts: what one call of `create` or `rotate` returns and
-- what it does to the row of its session and to every other row.
use protege_mais.Base.{
  ◌≡◌, refl, ◌⊎◌, Bool, true, false, ◌&&◌, map, Option, none, some, arith, find, count, find_holds,
  Bool-cases, Option-cases, inl, inr, eqb_ℤ, ok, err, Result,
}
use protege_mais.Text.{Text, text_eq, text_eq_refl, text_eq_iff}
use protege_mais.Common.Errors.{Thrown, plain_error}
use protege_mais.Database.Tables.{AuthSession, Database, Locale}
use protege_mais.Database.Sessions.{
  RotateInput, RotateResult, invalid, reused, rotated, is_live, selectable, revoke, succeed,
  targeted, update_sessions, settle, rotate_selected, rotate,
}
use protege_mais.Database.Sessions.Rows.{lookup, DistinctIds, lookup_found, count-keyed, updated}

abbrev pub row_of : Text → Database → Option AuthSession
row_of id db = lookup id db.auth_sessions

-- The table after an update of the rows that `p` picks.
abbrev pub after_update : Database → (AuthSession → Bool) → (AuthSession → AuthSession) → Database
after_update db p f = record db { auth_sessions = map (updated p f) db.auth_sessions }

-- A transaction that ends in an update of one row either is refused, or returns `outcome`.
settle_one :
    (pg : Locale) (db : Database) (outcome : RotateResult) (p : AuthSession → Bool)
    (f : AuthSession → AuthSession)
    → count p db.auth_sessions ≡ 1
    → let r = settle db outcome (update_sessions pg p f db.auth_sessions) in
      (r ≡ (err plain_error, db)) ⊎ (r ≡ (ok outcome, after_update db p f))
unfolding update_sessions
settle_one pg db outcome p f one = ground (arith, one)

-- The row that the select has found: it is live, of the account, and under its own key.
pub selected_facts :
    (i : RotateInput) (db : Database) (s : AuthSession)
    → DistinctIds db.auth_sessions
    → find (selectable i db.accounts) db.auth_sessions ≡ some s
    → (text_eq s.id i.session_id ≡ true)
      × (is_live i.used_at s ≡ true)
      × (row_of s.id db ≡ some s)
      × (text_eq s.account_id i.account_id ≡ true)
      × (eqb_ℤ s.expires_at i.expected_expires_at ≡ true)
unfolding selectable
selected_facts i db s d e =
    let holds = find_holds (selectable i db.accounts) db.auth_sessions s e in
    (
      ground (arith, holds),
      ground (arith, holds),
      lookup_found (selectable i db.accounts) db.auth_sessions s d e,
      ground (arith, holds),
      ground (arith, holds),
    )

-- A transaction on the found row `s` throws and changes nothing, or it updates the row that has
-- the key and the hash of `s`.
abbrev pub Settles :
    RotateInput
    → Database
    → RotateResult
    → (AuthSession → AuthSession)
    → AuthSession
    → Result Thrown RotateResult × Database
    → Type 0
Settles i db outcome f s r =
    (r ≡ (err plain_error, db))
    ⊎ (r ≡ (ok outcome, after_update db (targeted s.id s.refresh_token_hash i.used_at) f))

pub targeted_once :
    (i : RotateInput) (db : Database) (s : AuthSession)
    → DistinctIds db.auth_sessions
    → row_of s.id db ≡ some s
    → is_live i.used_at s ≡ true
    → count (targeted s.id s.refresh_token_hash i.used_at) db.auth_sessions ≡ 1
unfolding targeted
targeted_once i db s d e live =
    count-keyed s.id
      (λ (r : AuthSession).
        text_eq r.refresh_token_hash s.refresh_token_hash && is_live i.used_at r)
      db.auth_sessions s d e (ground (arith, live, text_eq_refl s.refresh_token_hash))

rotate_matching :
    (pg : Locale) (i : RotateInput) (db : Database) (s : AuthSession)
    → DistinctIds db.auth_sessions
    → row_of s.id db ≡ some s
    → is_live i.used_at s ≡ true
    → text_eq s.refresh_token_hash i.presented_refresh_token_hash ≡ true
    → Settles i db rotated (succeed i) s (rotate_selected pg i db (some s))
unfolding rotate_selected
rotate_matching pg i db s d e live hit =
    rw (hit, ← (text_eq_iff s.refresh_token_hash i.presented_refresh_token_hash).0 hit)
      (settle_one pg db rotated (targeted s.id s.refresh_token_hash i.used_at) (succeed i)
        (targeted_once i db s d e live))

rotate_differing :
    (pg : Locale) (i : RotateInput) (db : Database) (s : AuthSession)
    → DistinctIds db.auth_sessions
    → row_of s.id db ≡ some s
    → is_live i.used_at s ≡ true
    → text_eq s.refresh_token_hash i.presented_refresh_token_hash ≡ false
    → Settles i db reused (revoke i) s (rotate_selected pg i db (some s))
unfolding rotate_selected
rotate_differing pg i db s d e live miss = rw miss (
    settle_one pg db reused (targeted s.id s.refresh_token_hash i.used_at) (revoke i)
      (targeted_once i db s d e live))

-- The three ways of a call of `rotate`: nothing selected, the current hash, another hash.
pub data Rotates (pg : Locale) (i : RotateInput) (db : Database) : Type 0 where
  unselected :
      find (selectable i db.accounts) db.auth_sessions ≡ none
      → rotate pg i db ≡ (ok invalid, db)
      → Rotates pg i db
  matching :
      (s : AuthSession)
      → find (selectable i db.accounts) db.auth_sessions ≡ some s
      → text_eq s.refresh_token_hash i.presented_refresh_token_hash ≡ true
      → Settles i db rotated (succeed i) s (rotate pg i db)
      → Rotates pg i db
  differing :
      (s : AuthSession)
      → find (selectable i db.accounts) db.auth_sessions ≡ some s
      → text_eq s.refresh_token_hash i.presented_refresh_token_hash ≡ false
      → Settles i db reused (revoke i) s (rotate pg i db)
      → Rotates pg i db

pub rotate_cases :
    (pg : Locale) (i : RotateInput) (db : Database) → DistinctIds db.auth_sessions → Rotates pg i db
unfolding rotate
rotate_cases pg i db d = elim (Option-cases (find (selectable i db.accounts) db.auth_sessions)) [
  | inl e ↦ unselected e (rw (e, rotate) refl)
  | inr (s, e) ↦
      let facts = selected_facts i db s d e in
      elim (Bool-cases (text_eq s.refresh_token_hash i.presented_refresh_token_hash)) [
        | inl hit ↦
            matching s e hit (rw (e, rotate) (rotate_matching pg i db s d (facts.2) (facts.1) hit))
        | inr miss ↦
            differing s e miss
              (rw (e, rotate) (rotate_differing pg i db s d (facts.2) (facts.1) miss))
      ]
]
