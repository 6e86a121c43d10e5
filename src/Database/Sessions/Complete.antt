-- ===== src/Database/Sessions/Complete.antt =====
-- packages/repositories/authentication/index.ts, `rotate`: on a healthy table and with a clock
-- that has not run back, the transaction cannot fail, and its answer is known beforehand.
use protege_mais.Base.{
  ◌≡◌, sym, ap, ◌∙◌, inl, inr, Bool, true, false, not, ◌||◌, some, List, [], ◌∷◌, map, arith,
  if◌then◌else◌, Bool-cases, every, any, find, count, every_found, eqb_ℤ, Result, ok, err,
}
use mathlib.Core.Bool.{false≢true}
use protege_mais.Common.Errors.{Thrown}
use mathlib.Core.Path.{subst}
use protege_mais.Text.{Text, text_eq, text_eq_refl, text_eq_iff}
use protege_mais.Database.Tables.{
  Account, AuthSession, Database, Locale, is_unique, session_check, hash_check,
}
use protege_mais.Database.Sessions.{
  RotateInput, RotateResult, invalid, rotated, reused, is_live, selectable, revoke, succeed,
  targeted, update_sessions, settle, rotate_selected, rotate,
}
use protege_mais.Database.Sessions.Rows.{lookup, updated}
use protege_mais.Database.Sessions.Outcomes.{row_of, after_update, targeted_once}
use protege_mais.Database.Sessions.Effect.{IsUsable, Replaces, key_of_lookup}
use protege_mais.Database.Sessions.Contract.{Renewed, Revoked, Contract, rotate-Contract}
use protege_mais.Database.Sessions.Health.{
  hash_of, IsHealthy, IsTimely, session_check-succeed, session_check-revoke, is_unique-succeed,
  is_unique-revoke, every_keyed,
}

-- A search for a row of one key finds the row of that key.
find_keyed :
    (p : AuthSession → Bool) (id : Text) (rows : List AuthSession) (s : AuthSession)
    → ((r : AuthSession) → p r ≡ true → text_eq r.id id ≡ true)
    → lookup id rows ≡ some s
    → p s ≡ true
    → find p rows ≡ some s
find_keyed p id [] s only e h = cc
find_keyed p id (r ∷ rows) s only e h = elim (Bool-cases (text_eq r.id id)) [
  | inl hit ↦
      let equal : r ≡ s = cc (rw hit at e) in
      let holds : p r ≡ true = ap p equal ∙ h in rw holds (ap some equal)
  | inr miss ↦ elim (Bool-cases (p r)) [
    | inl holds ↦ absurd (false≢true (sym miss ∙ only r holds))
    | inr fails ↦ rw fails (find_keyed p id rows s only (rw miss at e) h)
  ]
]

selectable_key :
    (i : RotateInput) (accounts : List Account) (r : AuthSession)
    → selectable i accounts r ≡ true
    → text_eq r.id i.session_id ≡ true
unfolding selectable
selectable_key i accounts r h = ground (arith, h)

selectable_usable :
    (i : RotateInput) (db : Database) (s : AuthSession)
    → IsUsable i db s
    → selectable i db.accounts s ≡ true
unfolding selectable
selectable_usable i db s u =
    let key = key_of_lookup i.session_id db.auth_sessions s u.stored in
    let same_id : text_eq s.id i.session_id ≡ true = rw key (text_eq_refl i.session_id) in
    let same_account : text_eq s.account_id i.account_id ≡ true =
      rw u.owner (text_eq_refl i.account_id) in
    let expiry : eqb_ℤ s.expires_at i.expected_expires_at ≡ true = rw u.expiry (ground arith) in
    rw (same_id, same_account, expiry, u.owner, u.account_active, u.unrevoked)
      (ground (arith, u.unexpired))

-- An update that keeps the constraints is carried out.
settle_allowed :
    (pg : Locale) (db : Database) (outcome : RotateResult) (p : AuthSession → Bool)
    (f : AuthSession → AuthSession)
    → count p db.auth_sessions ≡ 1
    → every (λ s. not (p s) || session_check pg (f s)) db.auth_sessions ≡ true
    → is_unique hash_of (map (updated p f) db.auth_sessions) ≡ true
    → settle db outcome (update_sessions pg p f db.auth_sessions)
      ≡ (ok outcome, after_update db p f)
unfolding update_sessions
settle_allowed pg db outcome p f one checks distinct = ground (arith, one, checks, distinct)

-- What becomes of the session `s`: it is renewed where the hash presented is its own, and revoked
-- where it is not; no other row changes.
abbrev pub Done : RotateInput → Database → AuthSession → Bool → Database → Type 0
Done i db s true db' = (s' : AuthSession) × Renewed i s s' × Replaces i.session_id s' db db'
Done i db s false db' = (s' : AuthSession) × Revoked i s s' × Replaces i.session_id s' db db'

abbrev answer : Bool → RotateResult
answer hit = if hit then rotated else reused

-- A usable row is the one of the call's session.
same_row :
    (i : RotateInput) (db : Database) (s t : AuthSession)
    → IsUsable i db s
    → IsUsable i db t
    → t ≡ s
same_row i db s t u v = cc (sym v.stored ∙ u.stored)

-- What the contract says once the answer is known.
Contract-Done :
    (i : RotateInput) (db : Database) (s : AuthSession) (hit : Bool)
    (r : Result Thrown RotateResult × Database)
    → IsUsable i db s
    → Contract i db r
    → r.0 ≡ ok (answer hit)
    → Done i db s hit r.1
Contract-Done i db s true (ok rotated, db') u (t, s', v, same, renewed, replaces) e =
    (s', subst (λ x. Renewed i x s') (same_row i db s t u v) renewed, replaces)
Contract-Done i db s false (ok reused, db') u (t, s', v, other, revoked, replaces) e =
    (s', subst (λ x. Revoked i x s') (same_row i db s t u v) revoked, replaces)
Contract-Done i db s true (ok reused, db') u h e = cc
Contract-Done i db s false (ok rotated, db') u h e = cc
Contract-Done i db s true (ok invalid, db') u h e = cc
Contract-Done i db s false (ok invalid, db') u h e = cc
Contract-Done i db s true (err x, db') u h e = cc
Contract-Done i db s false (err x, db') u h e = cc

module _ (pg : Locale) (i : RotateInput) (db : Database) (s : AuthSession) where
  -- A usable row, under its own key.
  usable_row :
      IsHealthy pg db
      → IsUsable i db s
      → (row_of s.id db ≡ some s) × (is_live i.used_at s ≡ true) × (session_check pg s ≡ true)
  usable_row healthy u = (
    subst (λ k. row_of k db ≡ some s) (sym (key_of_lookup i.session_id db.auth_sessions s u.stored))
        u.stored,
    ground (arith, u.unrevoked, u.unexpired),
    every_found (session_check pg) (λ (r : AuthSession). text_eq r.id i.session_id) db.auth_sessions
        s healthy.checked u.stored,
  )

  rotates :
      IsHealthy pg db
      → IsUsable i db s
      → IsTimely i s
      → hash_check pg i.successor_refresh_token_hash ≡ true
      → any
          (λ (r : AuthSession). text_eq r.refresh_token_hash i.successor_refresh_token_hash)
          db.auth_sessions
        ≡ false
      → text_eq s.refresh_token_hash i.presented_refresh_token_hash ≡ true
      → (rotate_selected pg i db (some s)).0 ≡ ok rotated
  unfolding rotate_selected
  rotates healthy u timely formed fresh hit =
      let (stored, live, checked) = usable_row healthy u in
      let h = s.refresh_token_hash in
      let checks =
        every_keyed (session_check pg) (succeed i) s.id h i.used_at db.auth_sessions s
          healthy.distinct stored (session_check-succeed pg i s checked live timely formed) in
      let distinct =
        is_unique-succeed i s.id h db.auth_sessions healthy.distinct healthy.unique_hashes fresh in
      rw (hit, ← (text_eq_iff s.refresh_token_hash i.presented_refresh_token_hash).0 hit)
        (ap (λ r. r.0)
          (settle_allowed pg db rotated (targeted s.id h i.used_at) (succeed i)
            (targeted_once i db s healthy.distinct stored live) checks distinct))

  revokes :
      IsHealthy pg db
      → IsUsable i db s
      → IsTimely i s
      → text_eq s.refresh_token_hash i.presented_refresh_token_hash ≡ false
      → (rotate_selected pg i db (some s)).0 ≡ ok reused
  unfolding rotate_selected
  revokes healthy u timely miss =
      let (stored, live, checked) = usable_row healthy u in
      let h = s.refresh_token_hash in
      let checks =
        every_keyed (session_check pg) (revoke i) s.id h i.used_at db.auth_sessions s
          healthy.distinct stored (session_check-revoke pg i s checked live timely) in
      let distinct =
        is_unique-revoke i (targeted s.id h i.used_at) db.auth_sessions ∙ healthy.unique_hashes in
      rw miss (
        ap (λ r. r.0)
          (settle_allowed pg db reused (targeted s.id h i.used_at) (revoke i)
            (targeted_once i db s healthy.distinct stored live) checks distinct))

  rotate_answers :
      IsHealthy pg db
      → IsUsable i db s
      → IsTimely i s
      → hash_check pg i.successor_refresh_token_hash ≡ true
      → any
          (λ (r : AuthSession). text_eq r.refresh_token_hash i.successor_refresh_token_hash)
          db.auth_sessions
        ≡ false
      → (rotate pg i db).0
        ≡ ok (
            if text_eq s.refresh_token_hash i.presented_refresh_token_hash then rotated else reused)
  unfolding rotate
  rotate_answers healthy u timely formed fresh =
      let found =
        find_keyed (selectable i db.accounts) i.session_id db.auth_sessions s
          (selectable_key i db.accounts) u.stored (selectable_usable i db s u) in
      elim (Bool-cases (text_eq s.refresh_token_hash i.presented_refresh_token_hash)) [
        | inl hit ↦
            rw (found, rotate)
              (rotates healthy u timely formed fresh hit ∙ ap (λ b. ok (answer b)) (sym hit))
        | inr miss ↦
            rw (found, rotate) (revokes healthy u timely miss ∙ ap (λ b. ok (answer b)) (sym miss))
      ]

  -- A usable session of a healthy table, whose version is below the maximum of its column, a clock
  -- that reads no less than the session's creation and last use, and a well-formed, new hash:
  -- `rotate` does not throw. Where the current hash is presented it answers `rotated`, and the
  -- session now has the successor's hash; for any other it answers `reused`, and the session is now
  -- revoked. No other row changes.
  pub rotate_complete :
      IsHealthy pg db
      → IsUsable i db s
      → IsTimely i s
      → hash_check pg i.successor_refresh_token_hash ≡ true
      → any
          (λ (r : AuthSession). text_eq r.refresh_token_hash i.successor_refresh_token_hash)
          db.auth_sessions
        ≡ false
      → let hit = text_eq s.refresh_token_hash i.presented_refresh_token_hash in
        ((rotate pg i db).0 ≡ ok (if hit then rotated else reused))
        × Done i db s hit (rotate pg i db).1
  rotate_complete healthy u timely formed fresh =
      let answered = rotate_answers healthy u timely formed fresh in
      (
        answered,
        Contract-Done i db s (text_eq s.refresh_token_hash i.presented_refresh_token_hash)
            (rotate pg i db) u (rotate-Contract pg i db healthy.distinct) answered,
      )
