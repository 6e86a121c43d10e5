-- ===== src/UseCases/Login/Opening.antt =====
-- packages/useCases/authentication/login.ts: what a successful login leaves behind.
use protege_mais.Base.{
  ◌≡◌, refl, ap, ◌∙◌, inl, inr, Bool, true, false, none, ◌∷◌, arith, Bool-cases, Result, ok, err,
}
use protege_mais.Text.{Text}
use protege_mais.Common.AuthSessions.{is_valid_auth_session_device_identifier}
use protege_mais.Common.Errors.{Thrown}
use protege_mais.Database.Tables.{AuthSession}
use protege_mais.Database.Sessions.{CreateSessionInput, create, new_session}
use protege_mais.Services.RefreshToken.{hash_refresh_token}
use protege_mais.UseCases.World.{Environment, World, transact, ◌>>=!◌}
use protege_mais.UseCases.Authenticate.{AuthenticatedAccount, authenticate}
use protege_mais.UseCases.Authenticate.Outcome.{Ends, authenticate-Ends}
use protege_mais.UseCases.Login.{
  LoginInput, LoginDraws, TokenPair, answer_creation, run_opening, prepare_opening, open_by,
  open_session, login,
}

-- The row that a login has put in front of the sessions that there were.
pub record Opened (env : Environment) (draws : LoginDraws) (i : LoginInput)
    (account : AuthenticatedAccount) (before after : World) (pair : TokenPair) : Type 0 where
  pub row : AuthSession
  pub inserted : after.database.auth_sessions ≡ row ∷ before.database.auth_sessions
  pub same_id : row.id ≡ draws.session_id
  pub owner : row.account_id ≡ account.account_id
  pub device : row.device_identifier ≡ i.device_identifier
  pub keeps_hash : hash_refresh_token env.digest pair.refresh_token ≡ ok row.refresh_token_hash
  pub live : row.revoked_at ≡ none
  pub one_factor : account.mfa_enabled ≡ false

prepared_inv :
    (env : Environment) (draws : LoginDraws) (i : LoginInput) (account_id : Text)
    (input : CreateSessionInput) (pair : TokenPair)
    → prepare_opening env draws i account_id ≡ ok (input, pair)
    → (input.id ≡ draws.session_id)
      × (input.account_id ≡ account_id)
      × (input.device_identifier ≡ i.device_identifier)
      × (hash_refresh_token env.digest pair.refresh_token ≡ ok input.refresh_token_hash)
unfolding prepare_opening
prepared_inv env draws i account_id input pair e = ground arith

created_inv :
    (env : Environment) (input : CreateSessionInput) (pair b : TokenPair) (w : World)
    → ((transact (create env.locale input) >>=! answer_creation pair) w).0 ≡ ok b
    → (b ≡ pair)
      × ((transact (create env.locale input) >>=! answer_creation pair) w).1.database.auth_sessions
        ≡ new_session input ∷ w.database.auth_sessions
unfolding create
created_inv env input pair b w e = ground arith

opening_inv :
    (env : Environment) (draws : LoginDraws) (i : LoginInput) (account : AuthenticatedAccount)
    (w : World) (b : TokenPair) (prepared : Result Thrown (CreateSessionInput × TokenPair))
    → prepare_opening env draws i account.account_id ≡ prepared
    → account.mfa_enabled ≡ false
    → (run_opening env prepared w).0 ≡ ok b
    → Opened env draws i account w (run_opening env prepared w).1 b
unfolding run_opening
opening_inv env draws i account w b (err x) made single e = cc
opening_inv env draws i account w b (ok (input, pair)) made single e =
    let (a, owner, device, hashed) = prepared_inv env draws i account.account_id input pair made in
    let (equal, rows) = created_inv env input pair b w e in
    record {
      row = new_session input;
      inserted = rows;
      same_id = a;
      owner = owner;
      device = device;
      keeps_hash = rw equal hashed;
      live = refl;
      one_factor = single;
    }

open_by_inv :
    (env : Environment) (draws : LoginDraws) (i : LoginInput) (account : AuthenticatedAccount)
    (w : World) (b : TokenPair) (second : Bool)
    → account.mfa_enabled ≡ second
    → (open_by env second draws i account.account_id w).0 ≡ ok b
    → Opened env draws i account w (open_by env second draws i account.account_id w).1 b
unfolding open_by
open_by_inv env draws i account w b true asks e = cc
open_by_inv env draws i account w b false asks e =
    opening_inv env draws i account w b (prepare_opening env draws i account.account_id) refl asks e

open_session_inv :
    (env : Environment) (draws : LoginDraws) (i : LoginInput) (account : AuthenticatedAccount)
    (w : World) (b : TokenPair)
    → (open_session env draws i account w).0 ≡ ok b
    → Opened env draws i account w (open_session env draws i account w).1 b
unfolding open_session
open_session_inv env draws i account w b e =
    open_by_inv env draws i account w b account.mfa_enabled refl e

-- An account that has been authenticated, and the row that its login then added.
abbrev Follows :
    Environment
    → LoginDraws
    → LoginInput
    → World
    → Result Thrown AuthenticatedAccount × World
    → World
    → TokenPair
    → Type 0
Follows env draws i w r after pair =
    (account : AuthenticatedAccount) × (r.0 ≡ ok account) × Opened env draws i account w after pair

-- The sessions before the authentication are those after it.
moved :
    (env : Environment) (draws : LoginDraws) (i : LoginInput) (account : AuthenticatedAccount)
    (w w' after : World) (pair : TokenPair)
    → w'.database.auth_sessions ≡ w.database.auth_sessions
    → Opened env draws i account w' after pair
    → Opened env draws i account w after pair
moved env draws i account w w' after pair same o = record {
  row = o.row;
  inserted = o.inserted ∙ ap (λ rows. o.row ∷ rows) same;
  same_id = o.same_id;
  owner = o.owner;
  device = o.device;
  keeps_hash = o.keeps_hash;
  live = o.live;
  one_factor = o.one_factor;
}

authenticated_inv :
    (env : Environment) (draws : LoginDraws) (i : LoginInput) (w : World) (pair : TokenPair)
    (r : Result Thrown AuthenticatedAccount × World)
    → Ends w r
    → (((λ before. r) >>=! open_session env draws i) w).0 ≡ ok pair
    → Follows env draws i w r (((λ before. r) >>=! open_session env draws i) w).1 pair
authenticated_inv env draws i w pair (err x, w') ends e = cc
authenticated_inv env draws i w pair (ok account, w') ends e = (
  account,
  refl,
  moved env draws i account w w' (open_session env draws i account w').1 pair (ends.1)
      (open_session_inv env draws i account w' pair e),
)

-- After a successful login: its device identifier was valid, the credentials were accepted for an
-- account that asks for no second factor, and exactly one session has been added, in front of those
-- that there were: under the new identifier, for that account and device, not revoked, with the
-- hash of the refresh token that was handed out.
pub login-Opened :
    (env : Environment) (draws : LoginDraws) (i : LoginInput) (w : World) (pair : TokenPair)
    → (login env draws i w).0 ≡ ok pair
    → (account : AuthenticatedAccount) × ((authenticate env draws.authenticated_at i.credentials
          w).0
        ≡ ok account)
      × (is_valid_auth_session_device_identifier i.device_identifier ≡ true)
      × Opened env draws i account w (login env draws i w).1 pair
unfolding login
login-Opened env draws i w pair e =
    elim (Bool-cases (is_valid_auth_session_device_identifier i.device_identifier)) [
      | inr bad ↦ cc (rw (bad, login) at e)
      | inl good ↦
          let (account, found, opened) =
            authenticated_inv env draws i w pair
              (authenticate env draws.authenticated_at i.credentials w)
              (authenticate-Ends env draws.authenticated_at i.credentials w)
              (rw (good, login) at e) in
          rw (good, login) (account, found, refl, opened)
    ]
