-- ===== src/UseCases/Authenticate/Outcome.antt =====
-- packages/useCases/authentication/index.ts: what a login attempt lets its caller see, and when it
-- succeeds.
use protege_mais.Base.{
  ◌≡◌, refl, ◌⊎◌, inl, true, false, Option, none, some, ◌∷◌, arith, ℤ, Result, ok, err,
}
use protege_mais.Text.{Text}
use protege_mais.Common.Errors.{Thrown, plain_error}
use protege_mais.Database.Tables.{Database}
use protege_mais.Database.Accounts.{
  AccountRecord, find_by_normalized_email, RecordSuccessfulLoginInput, record_successful_login,
}
use protege_mais.Services.Password
use protege_mais.UseCases.World.{
  Environment, World, authentication_succeeded, authentication_failed, invalid_credentials,
}
use protege_mais.UseCases.Authenticate.{
  Credentials, AuthenticatedAccount, email_lookup_key, hash_of_record, reject_credentials, accepted,
  complete_authentication, authenticate,
}

-- How an attempt can end. Rejected: the error is always the same one, and so is the event. Refused
-- by the database: nothing is recorded. Accepted: one event. No session is touched by any.
abbrev pub Ends : World → Result Thrown AuthenticatedAccount × World → Type 0
Ends w (ok a, w') =
    (w'.audit ≡ authentication_succeeded ∷ w.audit)
    × (w'.database.auth_sessions ≡ w.database.auth_sessions)
Ends w (err e, w') =
    (w'.database.auth_sessions ≡ w.database.auth_sessions)
    × (((e ≡ invalid_credentials) × (w'.audit ≡ authentication_failed ∷ w.audit))
        ⊎ ((e ≡ plain_error) × (w'.audit ≡ w.audit)))

record_cases :
    (i : RecordSuccessfulLoginInput) (db : Database)
    → ((record_successful_login i db).1.auth_sessions ≡ db.auth_sessions)
      × (((record_successful_login i db).0 ≡ ok true)
          ⊎ ((record_successful_login i db).0 ≡ ok false)
          ⊎ ((record_successful_login i db).0 ≡ err plain_error))
unfolding record_successful_login
record_cases i db = ground arith

complete-Ends :
    (now : ℤ) (found : Option (AccountRecord × Text)) (w : World)
    → Ends w (complete_authentication now found w)
unfolding complete_authentication reject_credentials
complete-Ends now none w = (refl, inl (refl, refl))
complete-Ends now (some (a, hash)) w =
    let i : RecordSuccessfulLoginInput = record {
      account_id = a.id;
      expected_password_hash = hash;
      occurred_at = now;
    } in
    let (same, outcome) = record_cases i w.database in ground (arith, same, outcome)

-- A login attempt tells nobody why it fails: whether the e-mail is unknown or malformed, the
-- password wrong, the account blocked, disabled or without a password, or changed meanwhile, the
-- caller gets one error and the audit one event. The sole other error is the database's own, and no
-- attempt touches a session.
pub authenticate-Ends :
    (env : Environment) (now : ℤ) (i : Credentials) (w : World) → Ends w (authenticate env now i w)
unfolding authenticate
authenticate-Ends env now i w =
    let account = find_by_normalized_email w.database (email_lookup_key env i.email) in
    complete-Ends now
      (accepted (Password.verify env.unicode env.argon i.password (hash_of_record account)).0
        account)
      w

abbrev pub login_input : AccountRecord → Text → ℤ → RecordSuccessfulLoginInput
login_input a hash now = record {
  account_id = a.id;
  expected_password_hash = hash;
  occurred_at = now;
}
