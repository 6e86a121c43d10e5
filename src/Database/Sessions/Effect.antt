-- ===== src/Database/Sessions/Effect.antt =====
-- packages/repositories/authentication/index.ts, `rotate`: what one rotation does, by the functions
-- of its two updates.
use protege_mais.Base.{
  ◌≡◌, refl, sym, ◌∙◌, ◌≢◌, inl, inr, true, Option, none, some, List, arith, Bool-cases, any, find,
  find_holds, ℤ, ◌<ℤ◌, Result, ok, err,
}
use mathlib.Core.Path.{subst}
use protege_mais.Text.{Text, text_eq, text_eq_refl, text_eq_iff}
use protege_mais.Common.Errors.{Thrown}
use protege_mais.Database.Tables.{AuthSession, Database, Locale}
use protege_mais.Database.Sessions.{
  RotateInput, RotateResult, invalid, reused, rotated, eligible, is_live, selectable, revoke,
  succeed, targeted, rotate,
}
use protege_mais.Database.Sessions.Rows.{lookup, DistinctIds, lookup-map, updated}
use protege_mais.Database.Sessions.Outcomes.{
  row_of, after_update, selected_facts, unselected, matching, differing, rotate_cases,
}

-- The session may be renewed: it belongs to the account and expires when the token says, it is not
-- revoked and not expired, and the account is active.
pub record IsUsable (i : RotateInput) (db : Database) (s : AuthSession) : Type 0 where
  pub stored : row_of i.session_id db ≡ some s
  pub owner : s.account_id ≡ i.account_id
  pub expiry : s.expires_at ≡ i.expected_expires_at
  pub unrevoked : s.revoked_at ≡ none
  pub unexpired : i.used_at <ℤ s.expires_at
  pub account_active : any (eligible i.account_id) db.accounts ≡ true

-- The row of `id` has become `s`, and nothing else has changed.
pub record Replaces (id : Text) (s : AuthSession) (db db' : Database) : Type 0 where
  pub same_accounts : db'.accounts ≡ db.accounts
  pub row : row_of id db' ≡ some s
  pub others : (j : Text) → j ≢ id → row_of j db' ≡ row_of j db

-- What each answer of a rotation comes with.
abbrev pub Effect : RotateInput → Database → Result Thrown RotateResult × Database → Type 0
Effect i db (err e, db') = db' ≡ db
Effect i db (ok invalid, db') = db' ≡ db
Effect i db (ok rotated, db') =
    (s : AuthSession) × IsUsable i db s
    × (s.refresh_token_hash ≡ i.presented_refresh_token_hash)
    × Replaces i.session_id (succeed i s) db db'
Effect i db (ok reused, db') =
    (s : AuthSession) × IsUsable i db s
    × (s.refresh_token_hash ≢ i.presented_refresh_token_hash)
    × Replaces i.session_id (revoke i s) db db'

id-succeed : (i : RotateInput) (s : AuthSession) → (succeed i s).id ≡ s.id
unfolding succeed
id-succeed i s = refl

id-revoke : (i : RotateInput) (s : AuthSession) → (revoke i s).id ≡ s.id
unfolding revoke
id-revoke i s = refl

pub selected-IsUsable :
    (i : RotateInput) (db : Database) (s : AuthSession)
    → DistinctIds db.auth_sessions
    → find (selectable i db.accounts) db.auth_sessions ≡ some s
    → IsUsable i db s
unfolding selectable
selected-IsUsable i db s d e =
    let facts = selected_facts i db s d e in
    let holds = find_holds (selectable i db.accounts) db.auth_sessions s e in
    let key = (text_eq_iff s.id i.session_id).0 (facts.0) in
    let own = (text_eq_iff s.account_id i.account_id).0 (facts.3) in
    record {
      stored = rw (← key) (facts.2);
      owner = own;
      expiry = ground (arith, facts.4);
      unrevoked = ground (arith, facts.1);
      unexpired = ground (arith, facts.1);
      account_active = rw (← own) (ground (arith, holds));
    }

targeted_self :
    (s : AuthSession) (at : ℤ)
    → is_live at s ≡ true
    → targeted s.id s.refresh_token_hash at s ≡ true
unfolding targeted
targeted_self s at h = ground (arith, h, text_eq_refl s.id, text_eq_refl s.refresh_token_hash)

pub targeted_key : (id h : Text) (at : ℤ) (s : AuthSession) → targeted id h at s ≡ true → s.id ≡ id
unfolding targeted
targeted_key id h at s e = ground (arith, e, text_eq_iff s.id id)

-- The key of a row that a lookup finds is the one looked up.
pub key_of_lookup :
    (id : Text) (rows : List AuthSession) (s : AuthSession) → lookup id rows ≡ some s → s.id ≡ id
key_of_lookup id rows s e =
    (text_eq_iff s.id id).0 (find_holds (λ (r : AuthSession). text_eq r.id id) rows s e)

untouched :
    (db : Database) (id h j : Text) (at : ℤ) (f : AuthSession → AuthSession)
    → j ≢ id
    → (r : Option AuthSession) → row_of j db ≡ r
    → elim r [ none ↦ none | some s ↦ some (updated (targeted id h at) f s) ] ≡ r
untouched db id h j at f ne none e = refl
untouched db id h j at f ne (some s) e = elim (Bool-cases (targeted id h at s)) [
  | inl hit ↦ absurd (ne (sym (key_of_lookup j db.auth_sessions s e) ∙ targeted_key id h at s hit))
  | inr miss ↦ rw miss refl
]

-- The update of the row that `s` is found in replaces `s` alone.
pub after_update-Replaces :
    (db : Database) (s : AuthSession) (at : ℤ) (f : AuthSession → AuthSession)
    → ((r : AuthSession) → (f r).id ≡ r.id)
    → row_of s.id db ≡ some s
    → is_live at s ≡ true
    → Replaces s.id (f s) db (after_update db (targeted s.id s.refresh_token_hash at) f)
after_update-Replaces db s at f kept e live = record {
  same_accounts = refl;
  row =
      lookup-map (targeted s.id s.refresh_token_hash at) f kept s.id db.auth_sessions
      ∙ rw (e, targeted_self s at live) refl;
  others = λ j ne.
      lookup-map (targeted s.id s.refresh_token_hash at) f kept j db.auth_sessions
      ∙ untouched db s.id s.refresh_token_hash j at f ne (row_of j db) refl;
}

-- The effect of a settled update, once the row and its account are known.
settled_usable :
    (i : RotateInput) (db : Database) (s : AuthSession)
    → DistinctIds db.auth_sessions
    → find (selectable i db.accounts) db.auth_sessions ≡ some s
    → (f : AuthSession → AuthSession) → ((r : AuthSession) → (f r).id ≡ r.id)
    → Replaces i.session_id
        (f s)
        db
        (after_update db (targeted s.id s.refresh_token_hash i.used_at) f)
settled_usable i db s d e f kept =
    let facts = selected_facts i db s d e in
    subst
      (λ k. Replaces k (f s) db (after_update db (targeted s.id s.refresh_token_hash i.used_at) f))
      ((text_eq_iff s.id i.session_id).0 (facts.0))
      (after_update-Replaces db s i.used_at f kept (facts.2) (facts.1))

-- A call of `rotate` in a table with distinct keys has the effect of its answer.
pub rotate-Effect :
    (pg : Locale) (i : RotateInput) (db : Database)
    → DistinctIds db.auth_sessions
    → Effect i db (rotate pg i db)
rotate-Effect pg i db d = elim (rotate_cases pg i db d) [
  | unselected e r ↦ rw r refl
  | matching s e hit (inl r) ↦ rw r refl
  | matching s e hit (inr r) ↦ rw r (
    s,
    selected-IsUsable i db s d e,
    (text_eq_iff _ _).0 hit,
    settled_usable i db s d e (succeed i) (id-succeed i),
  )
  | differing s e miss (inl r) ↦ rw r refl
  | differing s e miss (inr r) ↦ rw r (
    s,
    selected-IsUsable i db s d e,
    (λ same.
        ground
          (arith, miss, same, text_eq_iff s.refresh_token_hash i.presented_refresh_token_hash)),
    settled_usable i db s d e (revoke i) (id-revoke i),
  )
]
