-- ===== src/Services/Password.antt =====
-- packages/services/authentication/index.ts, `Argon2idPasswordHashService`. The library `argon2` is
-- a parameter; `none` is a rejected promise. `verify` also gives the hashes that it had compared,
-- in order, since the work is meant to be the same with and without a credential.
use protege_mais.Base.{
  ℕ, zero, suc, ◌≤◌, ◌≡◌, ◌↔◌, Bool, true, false, not, ◌&&◌, ◌||◌, Option, none, some, List, [],
  ◌∷◌, arith, leb, ◌==◌, if◌then◌else◌, default, length, drop, Result, ok, err,
}
use protege_mais.Text.{Text, codes, text_eq, utf16_length, starts_with}
use protege_mais.Text.Unicode.{Unicode}
use protege_mais.Common.Errors.{Thrown, range_error}
use protege_mais.Common.Authentication.{
  normalize_authentication_password, is_valid_new_authentication_password,
  is_authentication_password_within_maximum_length,
}

pub record Argon : Type 0 where
  pub argon_hash : Text → Option Text
  -- `argon2.verify(hash, password)`
  pub argon_verify : Text → Text → Option Bool
  pub argon_needs_rehash : Text → Option Bool

abbrev pub maximum_encoded_password_hash_length : ℕ
maximum_encoded_password_hash_length = 512

abbrev pub dummy_password : Text
dummy_password = codes "invalid-authentication-attempt-prot-022"

abbrev pub authentication_dummy_password_hash : Text
authentication_dummy_password_hash =
    codes
      "$argon2id$v=19$m=19456,p=1,t=2$cTTnkIkIHvJfGgS9AFzBcA$U0Mb8DdVnSy62YYbC/MukLBlQ6kJzmtyR6Ar8+YFwMA"

-- `^[^$]+(?:\$[^$]+){n}$`: `open` says that the current field has a character.
unfoldable pub has_fields : Bool → ℕ → Text → Bool
has_fields filled n [] = filled && n == 0
has_fields filled zero (c ∷ s) = not (c == b'$') && has_fields true zero s
has_fields filled (suc n) (c ∷ s) =
    has_fields (not (c == b'$')) (if c == b'$' then n else suc n) s && (filled || not (c == b'$'))

abbrev pub argon2id_prefix : Text
argon2id_prefix = codes "$argon2id$v=19$"

-- `^\$argon2id\$v=19\$[^$]+\$[^$]+\$[^$]+$`, within the maximum length.
unfoldable pub is_supported_argon2id_hash : Text → Bool
unfolding utf16_length starts_with has_fields
is_supported_argon2id_hash value =
    leb (utf16_length value) maximum_encoded_password_hash_length
    && starts_with value argon2id_prefix
    && has_fields false 2 (drop (length argon2id_prefix) value)

unfoldable pub is_supported_credential : Option Text → Bool
is_supported_credential none = false
is_supported_credential (some encoded) = is_supported_argon2id_hash encoded

-- The hash that is compared: the credential's if there is one to compare, else the dummy.
abbrev pub hash_to_verify : Bool → Option Text → Text
hash_to_verify usable none = authentication_dummy_password_hash
hash_to_verify usable (some encoded) =
    if usable then encoded else authentication_dummy_password_hash

-- The second comparison, after a failure on a hash that is not the dummy.
abbrev pub compared : Text → List Text
compared hash =
    if text_eq hash authentication_dummy_password_hash
    then hash ∷ []
    else hash ∷ authentication_dummy_password_hash ∷ []

module _ (u : Unicode) (argon : Argon) where
  unfoldable pub hash : Text → Result Thrown (Option Text)
  hash password =
      let normalized = normalize_authentication_password u password in
      if is_valid_new_authentication_password u normalized
      then ok (argon.argon_hash normalized)
      else err range_error

  unfoldable pub verify : Text → Option Text → Bool × List Text
  verify password encoded_hash =
      let within = is_authentication_password_within_maximum_length u password in
      let normalized =
        if within then normalize_authentication_password u password else dummy_password in
      let usable = within && is_supported_credential encoded_hash in
      let hash = hash_to_verify usable encoded_hash in
      elim (argon.argon_verify hash normalized) [
        | some matches ↦ (usable && matches, hash ∷ [])
        | none ↦ (false, compared hash)
      ]

  unfoldable pub needs_rehash : Text → Bool
  needs_rehash encoded_hash =
      if is_supported_argon2id_hash encoded_hash
      then default (argon.argon_needs_rehash encoded_hash) true
      else true

  -- What `argon2` has to say for the password to be accepted.
  abbrev pub Confirms : Text → Text → Type 0
  Confirms password encoded =
      (is_supported_argon2id_hash encoded ≡ true)
      × (is_authentication_password_within_maximum_length u password ≡ true)
      × (argon.argon_verify encoded (normalize_authentication_password u password) ≡ some true)

  verify_iff :
      (password encoded : Text)
      → ((verify password (some encoded)).0 ≡ true) ↔ Confirms password encoded
  unfolding verify is_supported_credential
  verify_iff password encoded = ground arith

  verify-none : (password : Text) → (verify password none).0 ≡ false
  unfolding verify is_supported_credential
  verify-none password = ground arith

  compares :
      (password : Text) (encoded_hash : Option Text)
      → (1 ≤ length (verify password encoded_hash).1)
        × (length (verify password encoded_hash).1 ≤ 2)
  unfolding verify
  compares password encoded_hash = ground arith

  compares_dummy :
      (password : Text) → (verify password none).1 ≡ authentication_dummy_password_hash ∷ []
  unfolding verify text_eq
  compares_dummy password = ground arith

  -- A password is accepted exactly when it is short enough, the stored hash is of the supported
  -- form, and `argon2` confirms it. Whatever the answer, at least one hash and at most two are
  -- compared; without a credential it is the dummy, once, and the answer is no.
  pub verify_lem :
      (password encoded : Text) (encoded_hash : Option Text)
      → (((verify password (some encoded)).0 ≡ true) ↔ Confirms password encoded)
        × (1 ≤ length (verify password encoded_hash).1)
        × (length (verify password encoded_hash).1 ≤ 2)
        × (verify password none ≡ (false, authentication_dummy_password_hash ∷ []))
  verify_lem password encoded encoded_hash = (
    verify_iff password encoded,
    (compares password encoded_hash).0,
    (compares password encoded_hash).1,
    cc (verify-none password, compares_dummy password),
  )
