-- ===== src/Tests/Login.antt =====
-- packages/useCases/authentication: the theorems on a login and on a renewal.
use protege_mais.Base.{ℕ, ◌+◌, ◌≤◌, ◌≡◌, ◌↔◌, true, false, none, some, [], ◌∷◌, ◌++◌, length, pos}
use protege_mais.Text.Unicode.{ascii_only}
use protege_mais.UseCases.Authenticate.{Credentials, AuthenticatedAccount, authenticate}
use protege_mais.Text.{Text, codes, text_eq}
use protege_mais.Services.Password.{
  Argon, argon2id_prefix, authentication_dummy_password_hash, Confirms, verify_lem,
}
use protege_mais.Services.Password
use protege_mais.UseCases.World.{Environment, World}
use protege_mais.UseCases.Authenticate.Outcome.{Ends, authenticate-Ends}
use protege_mais.Tests.Data.{plain_locale, account_id, stored_password, one_session}
use protege_mais.Tests.Codec.{plain_jose}
use protege_mais.Tests.Tokens.{has_36, secret}

-- A hash that is the password behind its parameters.
abbrev pub plain_argon : Argon
plain_argon = record {
  argon_hash = λ p. some (argon2id_prefix ++ (codes "m=1$s$" ++ p));
  argon_verify = λ h p. some (text_eq h (argon2id_prefix ++ (codes "m=1$s$" ++ p)));
  argon_needs_rehash = λ h. some false;
}

-- A digest of one character: the sum of the token's.
unfoldable pub total : Text → ℕ
total [] = 1000
total (c ∷ s) = c + total s

abbrev pub digest : Text → Text
digest s = total s ∷ []

abbrev pub plain : Environment
plain = record {
  unicode = ascii_only;
  locale = plain_locale;
  jose = plain_jose;
  argon = plain_argon;
  is_uuid_v7 = has_36;
  digest = digest;
  access_key = secret;
  refresh_key = secret;
}

abbrev pub credentials : Credentials
credentials = record { email = codes " ANA@example.org"; password = codes "correct horse battery" }

abbrev pub world : World
world = record { database = one_session; audit = [] }

abbrev is_ana : AuthenticatedAccount
is_ana = record { account_id = account_id; mfa_enabled = false }

verify_lem_example :
    (((Password.verify ascii_only plain_argon
          (codes "correct horse battery")
          (some stored_password)).0
        ≡ true)
      ↔ Confirms ascii_only plain_argon (codes "correct horse battery") stored_password)
    × (1 ≤ length (Password.verify ascii_only plain_argon (codes "correct horse battery") none).1)
    × (length (Password.verify ascii_only plain_argon (codes "correct horse battery") none).1 ≤ 2)
    × (Password.verify ascii_only plain_argon (codes "correct horse battery") none
        ≡ (false, authentication_dummy_password_hash ∷ []))
verify_lem_example =
    verify_lem ascii_only plain_argon (codes "correct horse battery") stored_password none

authenticate-Ends_example : Ends world (authenticate plain (pos 5000) credentials world)
authenticate-Ends_example = authenticate-Ends plain (pos 5000) credentials world
