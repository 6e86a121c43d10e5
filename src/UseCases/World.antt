-- ===== src/UseCases/World.antt =====
-- packages/useCases/authentication: what a use case reads and changes, and a call as a function of
-- it. What the containers inject is a record: the libraries, the secrets and the database's locale.
-- The audit lists the newest event first.
use protege_mais.Base.{Bool, none, some, List, ◌∷◌, ℤ, pos, Result, ok, err}
use protege_mais.Text.{Text}
use protege_mais.Text.Unicode.{Unicode}
use protege_mais.Common.Errors.{Thrown, application, range_error}
use protege_mais.Database.Tables.{Database, Locale}
use protege_mais.Services.Dates.{Date, valid, invalid_date}
use protege_mais.Services.Jose.{Jose}
use protege_mais.Services.Password.{Argon}

pub record Environment : Type 0 where
  pub unicode : Unicode
  pub locale : Locale
  pub jose : Jose
  pub argon : Argon
  pub is_uuid_v7 : Text → Bool
  pub digest : Text → Text
  pub access_key : Text
  pub refresh_key : Text

-- The five events of `StructuredAuthenticationAudit` and `StructuredAuthenticationSessionAudit`.
pub data AuditEvent : Type 0 where
  authentication_succeeded authentication_failed : AuditEvent
  refresh_succeeded refresh_failed refresh_reuse_detected : AuditEvent

pub record World : Type 0 where
  pub database : Database
  pub audit : List AuditEvent

abbrev pub Action : Type 0 → Type 0
Action A = World → Result Thrown A × World

module _ {A : Type 0} where
  abbrev pub lift : Result Thrown A → Action A
  lift r w = (r, w)

  -- A call of a repository.
  abbrev pub transact : (Database → Result Thrown A × Database) → Action A
  transact f w = let (r, db) = f w.database in (r, record w { database = db })

  abbrev pub throw : Thrown → Action A
  throw e w = (err e, w)

abbrev pub record_event : AuditEvent → Action (Unit {0})
record_event e w = (ok tt, record w { audit = e ∷ w.audit })

infixl 5 ◌>>=!◌ ◌>>!◌
abbrev pub ◌>>=!◌ : {A B : Type 0} → Action A → (A → Action B) → Action B
◌>>=!◌ m f w = let (r, w') = m w in elim r [ ok a ↦ f a w' | err e ↦ (err e, w') ]

abbrev pub ◌>>!◌ : {A B : Type 0} → Action A → Action B → Action B
m >>! k = m >>=! λ _. k

-- `new InvalidCredentialsError()` and `new InvalidRefreshTokenError()`
abbrev pub invalid_credentials : Thrown
invalid_credentials = application (record {
  code = "INVALID_CREDENTIALS";
  message = "E-mail ou senha inválidos.";
  message_key = some "authentication.invalidCredentials";
  status_code = pos 401;
  cause = none;
})

abbrev pub invalid_refresh_token : Thrown
invalid_refresh_token = application (record {
  code = "INVALID_REFRESH_TOKEN";
  message = "Refresh token inválido.";
  message_key = some "authentication.invalidRefreshToken";
  status_code = pos 401;
  cause = none;
})

-- A date as a parameter of a statement: an invalid one makes the driver throw.
abbrev pub instant : Date → Result Thrown ℤ
instant (valid t) = ok t
instant invalid_date = err range_error
