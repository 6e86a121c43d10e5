-- ===== src/Database/Sessions/Replay.antt =====
-- packages/repositories/authentication/index.ts: a refresh token is good for one rotation, and its
-- replay costs the session. A token is seen as its hash.
use protege_mais.Base.{
  ◌≡◌, ◌≢◌, refl, sym, ap, ◌∙◌, true, List, [], ◌∷◌, some, arith, All, Bool-cases, inl, inr, ◌≤ℤ◌,
  ok, err, Result,
}
use mathlib.Core.Path.{subst}
use protege_mais.Text.{Text, text_eq, text_eq_iff}
use protege_mais.Common.Errors.{Thrown}
use protege_mais.Database.Tables.{AuthSession, Database, Locale}
use protege_mais.Database.Sessions.{
  CreateSessionInput, create, new_session, RotateInput, RotateResult, invalid, reused, rotated,
  revoke, succeed, rotate,
}
use protege_mais.Database.Sessions.Rows.{DistinctIds}
use protege_mais.Database.Sessions.Outcomes.{row_of, unselected, matching, differing, rotate_cases}
use protege_mais.Database.Sessions.Effect.{
  IsUsable, Replaces, Effect, rotate-Effect, selected-IsUsable,
}
use protege_mais.Database.Sessions.History.{
  Call, creates, rotates, logs_in, administers, step, run, run-Continues, run-DistinctIds,
  step-DistinctIds, rotate-DistinctIds, create_cases, sessions-record_successful_login,
}

-- The session of `id` does not, or no longer, have the hash `h`.
abbrev pub IsSpent : Text → Text → Database → Type 0
IsSpent id h db = (s : AuthSession) → row_of id db ≡ some s → s.refresh_token_hash ≢ h

-- The call brings the hash `h` into no session: new tokens have other hashes.
abbrev pub Avoids : Text → Call → Type 0
Avoids h (creates i) = i.refresh_token_hash ≢ h
Avoids h (rotates i) = i.successor_refresh_token_hash ≢ h
Avoids h (logs_in i) = Unit {0}
Avoids h (administers accounts) = Unit {0}

-- Without a usable session a call of `rotate` says `invalid` and changes nothing.
pub rotate_unusable :
    (pg : Locale) (i : RotateInput) (db : Database)
    → DistinctIds db.auth_sessions
    → ((s : AuthSession) → ¬ IsUsable i db s)
    → rotate pg i db ≡ (ok invalid, db)
rotate_unusable pg i db d none_usable = elim (rotate_cases pg i db d) [
  | unselected e r ↦ r
  | matching s e hit r ↦ absurd (none_usable s (selected-IsUsable i db s d e))
  | differing s e miss r ↦ absurd (none_usable s (selected-IsUsable i db s d e))
]

-- What a replacement makes of a spent hash.
Replaces-IsSpent :
    (key id h : Text) (u : AuthSession) (db db' : Database)
    → Replaces key u db db'
    → (text_eq id key ≡ true → u.refresh_token_hash ≢ h)
    → IsSpent id h db
    → IsSpent id h db'
Replaces-IsSpent key id h u db db' rep fresh spent s e = elim (Bool-cases (text_eq id key)) [
  | inl same ↦
      let found = subst (λ k. row_of k db' ≡ some s) ((text_eq_iff id key).0 same) e in
      let equal : u ≡ s = cc (sym rep.row ∙ found) in
      subst (λ (x : AuthSession). x.refresh_token_hash ≢ h) equal (fresh same)
  | inr differs ↦
      spent s (sym (rep.others id (λ x. ground (arith, differs, x, text_eq_iff id key))) ∙ e)
]

hash-succeed :
    (i : RotateInput) (s : AuthSession)
    → (succeed i s).refresh_token_hash ≡ i.successor_refresh_token_hash
unfolding succeed
hash-succeed i s = refl

hash-revoke :
    (i : RotateInput) (s : AuthSession) → (revoke i s).refresh_token_hash ≡ s.refresh_token_hash
unfolding revoke
hash-revoke i s = refl

rotate-IsSpent :
    (i : RotateInput) (db : Database) (id h : Text) (r : Result Thrown RotateResult × Database)
    → Effect i db r
    → i.successor_refresh_token_hash ≢ h
    → IsSpent id h db
    → IsSpent id h r.1
rotate-IsSpent i db id h (err x, db') same ne spent = rw same spent
rotate-IsSpent i db id h (ok invalid, db') same ne spent = rw same spent
rotate-IsSpent i db id h (ok rotated, db') (u, usable, hit, rep) ne spent =
    Replaces-IsSpent i.session_id id h (succeed i u) db db' rep (λ _. rw (hash-succeed i u) ne)
      spent
rotate-IsSpent i db id h (ok reused, db') (u, usable, miss, rep) ne spent =
    Replaces-IsSpent i.session_id id h (revoke i u) db db' rep
      (λ same. rw (hash-revoke i u) (
        spent u (
          subst (λ k. row_of k db ≡ some u) (sym ((text_eq_iff id i.session_id).0 same))
            usable.stored)))
      spent

create-IsSpent :
    (pg : Locale) (i : CreateSessionInput) (db : Database) (id h : Text)
    → i.refresh_token_hash ≢ h
    → IsSpent id h db
    → IsSpent id h (create pg i db).1
create-IsSpent pg i db id h ne spent = elim (create_cases pg i db) [
  | inl same ↦ rw same spent
  | inr (free, new) ↦ rw new (λ s e. elim (Bool-cases (text_eq i.id id)) [
    | inl clash ↦
        let equal : new_session i ≡ s = cc (rw clash at e) in
        subst (λ (x : AuthSession). x.refresh_token_hash ≢ h) equal ne
    | inr other ↦ spent s (rw other at e)
  ])
]

step-IsSpent :
    (pg : Locale) (db : Database) (c : Call) (id h : Text)
    → DistinctIds db.auth_sessions
    → Avoids h c
    → IsSpent id h db
    → IsSpent id h (step pg db c)
unfolding step
step-IsSpent pg db (creates i) id h d ne spent = create-IsSpent pg i db id h ne spent
step-IsSpent pg db (rotates i) id h d ne spent =
    rotate-IsSpent i db id h (rotate pg i db) (rotate-Effect pg i db d) ne spent
step-IsSpent pg db (logs_in i) id h d ne spent = rw (sessions-record_successful_login i db) spent
step-IsSpent pg db (administers accounts) id h d ne spent = spent

run-IsSpent :
    (pg : Locale) (db : Database) (cs : List Call) (id h : Text)
    → DistinctIds db.auth_sessions
    → All (Avoids h) cs
    → IsSpent id h db
    → IsSpent id h (run pg db cs)
unfolding run
run-IsSpent pg db [] id h d ne spent = spent
run-IsSpent pg db (c ∷ cs) id h d ne spent =
    run-IsSpent pg (step pg db c) cs id h (step-DistinctIds pg db c d) (ne.1)
      (step-IsSpent pg db c id h d (ne.0) spent)

spent_refused :
    (i : RotateInput) (db : Database) (r : Result Thrown RotateResult × Database)
    → Effect i db r
    → IsSpent i.session_id i.presented_refresh_token_hash db
    → r.0 ≢ ok rotated
spent_refused i db (err x, db') same spent e = cc
spent_refused i db (ok invalid, db') same spent e = cc
spent_refused i db (ok reused, db') c spent e = cc
spent_refused i db (ok rotated, db') (u, usable, hit, rep) spent e = spent u usable.stored hit

rotated_spends :
    (i : RotateInput) (db : Database) (r : Result Thrown RotateResult × Database)
    → Effect i db r
    → r.0 ≡ ok rotated
    → i.successor_refresh_token_hash ≢ i.presented_refresh_token_hash
    → IsSpent i.session_id i.presented_refresh_token_hash r.1
rotated_spends i db (err x, db') same e ne = cc
rotated_spends i db (ok invalid, db') same e ne = cc
rotated_spends i db (ok reused, db') c e ne = cc
rotated_spends i db (ok rotated, db') (u, usable, hit, rep) e ne = λ s found.
    let equal : succeed i u ≡ s = cc (sym rep.row ∙ found) in
    subst (λ (x : AuthSession). x.refresh_token_hash ≢ i.presented_refresh_token_hash) equal
      (rw (hash-succeed i u) ne)

-- A token is good for one rotation. Once `rotate` has accepted it, no later call accepts it for
-- that session, whatever has been called in between, provided that no new token has its hash.
pub rotate_once :
    (pg : Locale) (i j : RotateInput) (db : Database) (cs : List Call)
    → DistinctIds db.auth_sessions
    → (rotate pg i db).0 ≡ ok rotated
    → i.successor_refresh_token_hash ≢ i.presented_refresh_token_hash
    → All (Avoids i.presented_refresh_token_hash) cs
    → j.session_id ≡ i.session_id
    → j.presented_refresh_token_hash ≡ i.presented_refresh_token_hash
    → (rotate pg j (run pg (rotate pg i db).1 cs)).0 ≢ ok rotated
rotate_once pg i j db cs d won fresh avoids same_session same_token =
    let db1 = (rotate pg i db).1 in
    let d1 = rotate-DistinctIds pg i db d in
    let spent = rotated_spends i db (rotate pg i db) (rotate-Effect pg i db d) won fresh in
    let later = run-IsSpent pg db1 cs i.session_id i.presented_refresh_token_hash d1 avoids spent in
    let db2 = run pg db1 cs in
    spent_refused j db2 (rotate pg j db2) (rotate-Effect pg j db2 (run-DistinctIds pg db1 cs d1))
      (rw (same_session, same_token) later)

reused_revokes :
    (i : RotateInput) (db : Database) (r : Result Thrown RotateResult × Database)
    → Effect i db r
    → r.0 ≡ ok reused
    → (s : AuthSession) × (row_of i.session_id r.1 ≡ some s) × (s.revoked_at ≡ some i.used_at)
unfolding revoke
reused_revokes i db (err x, db') same e = cc
reused_revokes i db (ok invalid, db') same e = cc
reused_revokes i db (ok rotated, db') c e = cc
reused_revokes i db (ok reused, db') (u, usable, miss, rep) e = (revoke i u, rep.row, refl)

-- A replay costs the session. Once `rotate` has answered `reused`, every later call for that
-- session, with any token and after whatever calls, answers `invalid` and changes nothing.
pub reused_forever :
    (pg : Locale) (i j : RotateInput) (db : Database) (cs : List Call)
    → DistinctIds db.auth_sessions
    → (rotate pg i db).0 ≡ ok reused
    → j.session_id ≡ i.session_id
    → let later = run pg (rotate pg i db).1 cs in rotate pg j later ≡ (ok invalid, later)
reused_forever pg i j db cs d caught same_session =
    let db1 = (rotate pg i db).1 in
    let d1 = rotate-DistinctIds pg i db d in
    let (s, e, gone) = reused_revokes i db (rotate pg i db) (rotate-Effect pg i db d) caught in
    let (t, e', kept) = run-Continues pg db1 cs i.session_id s d1 e in
    let still = kept.frozen (λ h. cc (sym gone ∙ h)) in
    rotate_unusable pg j (run pg db1 cs) (run-DistinctIds pg db1 cs d1) λ u usable.
      let found : row_of j.session_id (run pg db1 cs) ≡ some t = rw same_session e' in
      let equal : u ≡ t = cc (sym usable.stored ∙ found) in
      cc (sym usable.unrevoked ∙ ap (λ (x : AuthSession). x.revoked_at) (equal ∙ still) ∙ gone)

-- The expiry is absolute: from the instant that was set when the session was created on, every call
-- for the session answers `invalid`, however often it has been renewed.
pub rotate_expired :
    (pg : Locale) (db : Database) (cs : List Call) (i : RotateInput) (s : AuthSession)
    → DistinctIds db.auth_sessions
    → row_of i.session_id db ≡ some s
    → s.expires_at ≤ℤ i.used_at
    → rotate pg i (run pg db cs) ≡ (ok invalid, run pg db cs)
rotate_expired pg db cs i s d e late =
    let (t, e', kept) = run-Continues pg db cs i.session_id s d e in
    let db' = run pg db cs in
    rotate_unusable pg i db' (run-DistinctIds pg db cs d) λ u usable.
      let equal : u ≡ t = cc (sym usable.stored ∙ e') in
      let same : u.expires_at ≡ s.expires_at =
        ap (λ (x : AuthSession). x.expires_at) equal ∙ kept.same_expiry in
      ground (arith, same, usable.unexpired, late)
