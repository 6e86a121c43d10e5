-- ===== src/Database/Sessions/History.antt =====
-- packages/repositories/authentication/index.ts: any sequence of the repositories' calls, in the
-- order in which their transactions commit. Administrative changes of the accounts, which no code
-- makes yet, are a call with an arbitrary result.
use protege_mais.Base.{
  ◌≡◌, ◌≢◌, refl, sym, ap, ◌∙◌, ◌⊎◌, false, List, [], ◌∷◌, none, some, arith, any, Bool-cases, inl,
  inr, ok, err, Result,
}
use mathlib.Core.Path.{subst}
use protege_mais.Text.{Text, text_eq, text_eq_iff}
use protege_mais.Common.Errors.{Thrown}
use protege_mais.Database.Tables.{Account, AuthSession, Database, Locale}
use protege_mais.Database.Accounts.{RecordSuccessfulLoginInput, record_successful_login}
use protege_mais.Database.Sessions.{
  CreateSessionInput, create, new_session, insertable, RotateInput, RotateResult, invalid, reused,
  rotated, revoke, succeed, targeted, rotate,
}
use protege_mais.Database.Sessions.Rows.{lookup-Absent, Absent, DistinctIds, DistinctIds-map}
use protege_mais.Database.Sessions.Outcomes.{row_of, unselected, matching, differing, rotate_cases}
use protege_mais.Database.Sessions.Effect.{Replaces, Effect, rotate-Effect}

pub data Call : Type 0 where
  creates : CreateSessionInput → Call
  rotates : RotateInput → Call
  logs_in : RecordSuccessfulLoginInput → Call
  administers : List Account → Call

unfoldable pub step : Locale → Database → Call → Database
step pg db (creates i) = (create pg i db).1
step pg db (rotates i) = (rotate pg i db).1
step pg db (logs_in i) = (record_successful_login i db).1
step pg db (administers accounts) = record db { accounts = accounts }

unfoldable pub run : Locale → Database → List Call → Database
run pg db [] = db
run pg db (c ∷ cs) = run pg (step pg db c) cs

-- A row never leaves its table: its key, owner, device and dates of birth and expiry stay, and once
-- it is revoked nothing of it changes.
pub record Continues (s t : AuthSession) : Type 0 where
  pub same_id : t.id ≡ s.id
  pub same_account : t.account_id ≡ s.account_id
  pub same_device : t.device_identifier ≡ s.device_identifier
  pub same_birth : t.created_at ≡ s.created_at
  pub same_expiry : t.expires_at ≡ s.expires_at
  pub frozen : s.revoked_at ≢ none → t ≡ s

pub Continues-refl : (s : AuthSession) → Continues s s
Continues-refl s = record {
  same_id = refl;
  same_account = refl;
  same_device = refl;
  same_birth = refl;
  same_expiry = refl;
  frozen = λ h. refl;
}

Continues-trans : (s t u : AuthSession) → Continues s t → Continues t u → Continues s u
Continues-trans s t u a b = record {
  same_id = b.same_id ∙ a.same_id;
  same_account = b.same_account ∙ a.same_account;
  same_device = b.same_device ∙ a.same_device;
  same_birth = b.same_birth ∙ a.same_birth;
  same_expiry = b.same_expiry ∙ a.same_expiry;
  frozen = λ h.
      b.frozen (λ e. h (sym (ap (λ (r : AuthSession). r.revoked_at) (a.frozen h)) ∙ e))
      ∙ a.frozen h;
}

-- A call that refuses or fails to insert leaves the rows; the keys stay distinct.
pub create_cases :
    (pg : Locale) (i : CreateSessionInput) (db : Database)
    → ((create pg i db).1 ≡ db)
      ⊎ ((any (λ (r : AuthSession). text_eq r.id i.id) db.auth_sessions ≡ false)
          × ((create pg i db).1 ≡ record db { auth_sessions = new_session i ∷ db.auth_sessions }))
unfolding create insertable
create_cases pg i db = ground arith

Absent-of_any :
    (id : Text) (rows : List AuthSession)
    → any (λ (r : AuthSession). text_eq r.id id) rows ≡ false
    → Absent id rows
Absent-of_any id [] h = tt
Absent-of_any id (s ∷ rows) h = (ground (arith, h), Absent-of_any id rows (ground (arith, h)))

pub sessions-record_successful_login :
    (i : RecordSuccessfulLoginInput) (db : Database)
    → (record_successful_login i db).1.auth_sessions ≡ db.auth_sessions
unfolding record_successful_login
sessions-record_successful_login i db = ground arith

id_kept : (i : RotateInput) (s : AuthSession) → ((succeed i s).id ≡ s.id) × ((revoke i s).id ≡ s.id)
unfolding succeed revoke
id_kept i s = (refl, refl)

pub rotate-DistinctIds :
    (pg : Locale) (i : RotateInput) (db : Database)
    → DistinctIds db.auth_sessions
    → DistinctIds (rotate pg i db).1.auth_sessions
rotate-DistinctIds pg i db d = elim (rotate_cases pg i db d) [
  | unselected e r ↦ rw r d
  | matching s e hit (inl r) ↦ rw r d
  | matching s e hit (inr r) ↦ rw r (
      DistinctIds-map (targeted s.id s.refresh_token_hash i.used_at) (succeed i)
        (λ t. (id_kept i t).0) db.auth_sessions d)
  | differing s e miss (inl r) ↦ rw r d
  | differing s e miss (inr r) ↦ rw r (
      DistinctIds-map (targeted s.id s.refresh_token_hash i.used_at) (revoke i)
        (λ t. (id_kept i t).1) db.auth_sessions d)
]

pub step-DistinctIds :
    (pg : Locale) (db : Database) (c : Call)
    → DistinctIds db.auth_sessions
    → DistinctIds (step pg db c).auth_sessions
unfolding step
step-DistinctIds pg db (creates i) d = elim (create_cases pg i db) [
  | inl e ↦ rw e d
  | inr (free, e) ↦ rw e (Absent-of_any i.id db.auth_sessions free, d)
]
step-DistinctIds pg db (rotates i) d = rotate-DistinctIds pg i db d
step-DistinctIds pg db (logs_in i) d = rw (sessions-record_successful_login i db) d
step-DistinctIds pg db (administers accounts) d = d

-- The row of `id` is still there, and is a continuation of `s`.
abbrev pub Survives : Text → AuthSession → Database → Type 0
Survives id s db = (t : AuthSession) × (row_of id db ≡ some t) × Continues s t

create-Survives :
    (pg : Locale) (i : CreateSessionInput) (db : Database) (id : Text) (s : AuthSession)
    → row_of id db ≡ some s
    → row_of id (create pg i db).1 ≡ some s
create-Survives pg i db id s e = elim (create_cases pg i db) [
  | inl same ↦ rw same e
  | inr (free, new) ↦ elim (Bool-cases (text_eq i.id id)) [
    | inl clash ↦
        let gone = lookup-Absent i.id db.auth_sessions (Absent-of_any i.id db.auth_sessions free) in
        absurd (none≢some (sym gone ∙ rw ((text_eq_iff i.id id).0 clash) e))
    | inr other ↦ rw (new, other) e
  ]
]
  where
    none≢some : none ≡ some s → ⊥
    none≢some h = cc

succeed-Continues :
    (i : RotateInput) (s : AuthSession) → s.revoked_at ≡ none → Continues s (succeed i s)
unfolding succeed
succeed-Continues i s free = record {
  same_id = refl;
  same_account = refl;
  same_device = refl;
  same_birth = refl;
  same_expiry = refl;
  frozen = λ h. absurd (h free);
}

revoke-Continues :
    (i : RotateInput) (s : AuthSession) → s.revoked_at ≡ none → Continues s (revoke i s)
unfolding revoke
revoke-Continues i s free = record {
  same_id = refl;
  same_account = refl;
  same_device = refl;
  same_birth = refl;
  same_expiry = refl;
  frozen = λ h. absurd (h free);
}

-- A replacement of the row of `key` by a continuation of it is one of any row.
Replaces-Survives :
    (key id : Text) (u u' s : AuthSession) (db db' : Database)
    → row_of key db ≡ some u
    → Replaces key u' db db'
    → Continues u u'
    → row_of id db ≡ some s
    → Survives id s db'
Replaces-Survives key id u u' s db db' stored rep c e = elim (Bool-cases (text_eq id key)) [
  | inl same ↦
      let k = (text_eq_iff id key).0 same in
      let equal : u ≡ s = cc (sym stored ∙ subst (λ x. row_of x db ≡ some s) k e) in
      (u', rw k rep.row, subst (λ x. Continues x u') equal c)
  | inr differs ↦
      (s, rep.others id (λ h. ground (arith, differs, h, text_eq_iff id key)) ∙ e, Continues-refl s)
]

rotate-Survives :
    (i : RotateInput) (db : Database) (id : Text) (s : AuthSession)
    (r : Result Thrown RotateResult × Database)
    → Effect i db r
    → row_of id db ≡ some s
    → Survives id s r.1
rotate-Survives i db id s (err x, db') same e = (s, rw same e, Continues-refl s)
rotate-Survives i db id s (ok invalid, db') same e = (s, rw same e, Continues-refl s)
rotate-Survives i db id s (ok rotated, db') (u, usable, hit, rep) e =
    Replaces-Survives i.session_id id u (succeed i u) s db db' usable.stored rep
      (succeed-Continues i u usable.unrevoked) e
rotate-Survives i db id s (ok reused, db') (u, usable, miss, rep) e =
    Replaces-Survives i.session_id id u (revoke i u) s db db' usable.stored rep
      (revoke-Continues i u usable.unrevoked) e

step-Survives :
    (pg : Locale) (db : Database) (c : Call) (id : Text) (s : AuthSession)
    → DistinctIds db.auth_sessions
    → row_of id db ≡ some s
    → Survives id s (step pg db c)
unfolding step
step-Survives pg db (creates i) id s d e = (s, create-Survives pg i db id s e, Continues-refl s)
step-Survives pg db (rotates i) id s d e =
    rotate-Survives i db id s (rotate pg i db) (rotate-Effect pg i db d) e
step-Survives pg db (logs_in i) id s d e =
    (s, rw (sessions-record_successful_login i db) e, Continues-refl s)
step-Survives pg db (administers accounts) id s d e = (s, e, Continues-refl s)

-- Whatever is called in whatever order, the row of a session stays in the table with its account,
-- its device, its birth and its expiry, and from its revocation on it never changes again.
pub run-Continues :
    (pg : Locale) (db : Database) (cs : List Call) (id : Text) (s : AuthSession)
    → DistinctIds db.auth_sessions
    → row_of id db ≡ some s
    → Survives id s (run pg db cs)
unfolding run
run-Continues pg db [] id s d e = (s, e, Continues-refl s)
run-Continues pg db (c ∷ cs) id s d e =
    let (t, e', a) = step-Survives pg db c id s d e in
    let (u, e'', b) = run-Continues pg (step pg db c) cs id t (step-DistinctIds pg db c d) e' in
    (u, e'', Continues-trans s t u a b)

pub run-DistinctIds :
    (pg : Locale) (db : Database) (cs : List Call)
    → DistinctIds db.auth_sessions
    → DistinctIds (run pg db cs).auth_sessions
unfolding run
run-DistinctIds pg db [] d = d
run-DistinctIds pg db (c ∷ cs) d = run-DistinctIds pg (step pg db c) cs (step-DistinctIds pg db c d)
