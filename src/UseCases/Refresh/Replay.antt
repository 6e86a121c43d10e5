-- ===== src/UseCases/Refresh/Replay.antt =====
-- packages/useCases/authentication/refresh-session.ts: a refresh token buys one pair of tokens.
use protege_mais.Base.{
  ◌≡◌, refl, sym, ap, ◌∙◌, ◌≢◌, Option, none, some, List, ◌∷◌, arith, All, ℤ, Result, ok, err,
}
use protege_mais.UseCases.Refresh.{prepare_renewal, run_renewal, answer_rotation, renew, refresh}
use protege_mais.Text.{Text}
use protege_mais.Database.Sessions.Rows.{DistinctIds}
use protege_mais.Database.Sessions.History.{Call, run}
use protege_mais.Database.Sessions.Replay.{Avoids, rotate_once}
use protege_mais.Services.RefreshToken.Window.{refresh_token_text, signed_session}
use mathlib.Core.Path.{subst}
use protege_mais.Common.Errors.{Thrown}
use protege_mais.Database.Tables.{Database}
use protege_mais.Database.Sessions.{RotateInput, RotateResult, rotated, rotate}
use protege_mais.Services.Dates.{Date, valid, authentication_token_issued_at}
use protege_mais.Services.RefreshToken
use protege_mais.Services.RefreshToken.{
  VerifiedRefreshToken, IssueRefreshTokenInput, IssuedRefreshToken, hash_refresh_token,
}
use protege_mais.UseCases.World.{Environment, World, refresh_succeeded, transact, ◌>>=!◌}
use protege_mais.UseCases.Login.{TokenPair}

-- If the answer to a rotation is a success, the rotation said `rotated`.
answer_inv :
    (f : Database → Result Thrown RotateResult × Database) (pair : TokenPair) (w : World)
    (b : TokenPair)
    → ((transact f >>=! answer_rotation pair) w).0 ≡ ok b
    → ((f w.database).0 ≡ ok rotated)
      × (b ≡ pair)
      × ((transact f >>=! answer_rotation pair) w).1
        ≡ record { database = (f w.database).1; audit = refresh_succeeded ∷ w.audit }
answer_inv f pair w b e = ground arith

-- What a successful renewal has done: it has rotated the session of the verified token, from the
-- hash of the token presented to the hash of the token handed out.
pub record Renewal (env : Environment) (presented : Text) (v : VerifiedRefreshToken) (w w' : World)
    (pair : TokenPair) : Type 0 where
  pub input : RotateInput
  pub session : input.session_id ≡ v.session_id
  pub presented_hash :
      hash_refresh_token env.digest presented ≡ ok input.presented_refresh_token_hash
  pub successor_hash :
      hash_refresh_token env.digest pair.refresh_token ≡ ok input.successor_refresh_token_hash
  pub accepted : (rotate env.locale input w.database).0 ≡ ok rotated
  pub stored : w' ≡ record {
    database = (rotate env.locale input w.database).1;
    audit = refresh_succeeded ∷ w.audit;
  }

prepare_inv :
    (env : Environment) (token_id : Text) (used_at : Date) (presented : Text)
    (v : VerifiedRefreshToken) (input : RotateInput) (pair : TokenPair)
    → prepare_renewal env token_id used_at presented v ≡ ok (input, pair)
    → (input.session_id ≡ v.session_id)
      × (hash_refresh_token env.digest presented ≡ ok input.presented_refresh_token_hash)
      × (hash_refresh_token env.digest pair.refresh_token ≡ ok input.successor_refresh_token_hash)
unfolding prepare_renewal
prepare_inv env token_id used_at presented v input pair e = ground arith

run_inv :
    (env : Environment) (token_id : Text) (used_at : Date) (presented : Text)
    (v : VerifiedRefreshToken) (w : World) (b : TokenPair)
    (prepared : Result Thrown (RotateInput × TokenPair))
    → prepare_renewal env token_id used_at presented v ≡ prepared
    → (run_renewal env prepared w).0 ≡ ok b
    → Renewal env presented v w (run_renewal env prepared w).1 b
unfolding run_renewal
run_inv env token_id used_at presented v w b (err x) made e = cc
run_inv env token_id used_at presented v w b (ok (input, pair)) made e =
    let (same, hashed, hashed') = prepare_inv env token_id used_at presented v input pair made in
    let (won, equal, stored) = answer_inv (rotate env.locale input) pair w b e in
    record {
      input = input;
      session = same;
      presented_hash = hashed;
      successor_hash = rw equal hashed';
      accepted = won;
      stored = stored;
    }

renew_inv :
    (env : Environment) (token_id : Text) (used_at : Date) (presented : Text) (w : World)
    (pair : TokenPair) (found : Option VerifiedRefreshToken)
    → (renew env token_id used_at presented found w).0 ≡ ok pair
    → (v : VerifiedRefreshToken) × (found ≡ some v)
      × Renewal env presented v w (renew env token_id used_at presented found w).1 pair
unfolding renew
renew_inv env token_id used_at presented w pair none e = cc
renew_inv env token_id used_at presented w pair (some v) e = (
  v,
  refl,
  run_inv env token_id used_at presented v w pair (prepare_renewal env token_id used_at presented v)
      refl e,
)

pub refresh_inv :
    (env : Environment) (now : ℤ) (token_id presented : Text) (w : World) (pair : TokenPair)
    → (refresh env now token_id presented w).0 ≡ ok pair
    → (v : VerifiedRefreshToken) × (RefreshToken.verify env.jose env.is_uuid_v7 env.refresh_key
          presented
          (authentication_token_issued_at (valid now))
        ≡ some v)
      × Renewal env presented v w (refresh env now token_id presented w).1 pair
unfolding refresh
refresh_inv env now token_id presented w pair e =
    let used_at = authentication_token_issued_at (valid now) in
    renew_inv env token_id used_at presented w pair
      (RefreshToken.verify env.jose env.is_uuid_v7 env.refresh_key presented used_at) e

-- The hash that a rotation presented is the hash of the token.
same_hash :
    (env : Environment) (presented h k : Text)
    → hash_refresh_token env.digest presented ≡ ok h
    → hash_refresh_token env.digest presented ≡ ok k
    → h ≡ k
same_hash env presented h k a b = cc (sym a ∙ b)

-- A refresh token buys one pair of tokens. Once `execute` has answered with a pair for a token that
-- was signed for a session, no later `execute` answers with a pair for that token, whatever has
-- been called on the database in between, provided that no new token has the hash of that one.
pub refresh_once :
    (env : Environment) (account session identifier : Text) (issued expires : ℤ) (now now' : ℤ)
    (token_id token_id' h : Text) (w w' : World) (cs : List Call) (pair pair' : TokenPair)
    → let presented =
        refresh_token_text env.jose env.is_uuid_v7 env.refresh_key account session identifier issued
          expires in
      DistinctIds w.database.auth_sessions
      → hash_refresh_token env.digest presented ≡ ok h
      → (refresh env now token_id presented w).0 ≡ ok pair
      → hash_refresh_token env.digest pair.refresh_token ≢ ok h
      → All (Avoids h) cs
      → w'.database ≡ run env.locale (refresh env now token_id presented w).1.database cs
      → (refresh env now' token_id' presented w').0 ≢ ok pair'
refresh_once env account session identifier issued expires now now' token_id token_id' h w w' cs
      pair pair' d hashed won fresh avoids later again =
    let presented =
      refresh_token_text env.jose env.is_uuid_v7 env.refresh_key account session identifier issued
        expires in
    let (v, e, first) = refresh_inv env now token_id presented w pair won in
    let (u, f, second) = refresh_inv env now' token_id' presented w' pair' again in
    let i = first.input in
    let j = second.input in
    let hi : h ≡ i.presented_refresh_token_hash =
      same_hash env presented h i.presented_refresh_token_hash hashed first.presented_hash in
    let hj : h ≡ j.presented_refresh_token_hash =
      same_hash env presented h j.presented_refresh_token_hash hashed second.presented_hash in
    let vs : v.session_id ≡ session =
      signed_session env.jose env.is_uuid_v7 env.refresh_key account session identifier issued
        expires (authentication_token_issued_at (valid now)) v e in
    let us : u.session_id ≡ session =
      signed_session env.jose env.is_uuid_v7 env.refresh_key account session identifier issued
        expires (authentication_token_issued_at (valid now')) u f in
    let after : (refresh env now token_id presented w).1.database
        ≡ (rotate env.locale i w.database).1 =
      ap (λ (x : World). x.database) first.stored in
    let between : w'.database ≡ run env.locale (rotate env.locale i w.database).1 cs =
      subst (λ db. w'.database ≡ run env.locale db cs) after later in
    rotate_once env.locale i j w.database cs d first.accepted
      (λ x. fresh (first.successor_hash ∙ ap ok (x ∙ sym hi)))
      (subst (λ k. All (Avoids k) cs) hi avoids) (second.session ∙ us ∙ sym (first.session ∙ vs))
      (sym hj ∙ hi) (subst (λ db. (rotate env.locale j db).0 ≡ ok rotated) between second.accepted)
