-- ===== src/Services/Jose.antt =====
-- The library `jose`, which is not part of the repository, as the services use it: `new SignJWT(…)
-- .sign(key)` and `jwtVerify(token, key, options)`. A key is the text of its secret. The values of
-- a payload come from outside, so each may be missing or of another type.
use protege_mais.Base.{
  ◌≡◌, Bool, true, false, not, ◌&&◌, ◌||◌, Option, none, some, if◌then◌else◌, ℤ, ltb_ℤ,
}
use protege_mais.Base.Number.{Number, integer, fraction, non_finite}
use protege_mais.Text.{Text, text_eq}
use protege_mais.Services.Dates.{unix_time}

pub data Claim : Type 0 where
  missing : Claim
  text : Text → Claim
  number : Number → Claim
  other : Claim

pub record Header : Type 0 where
  pub alg : Claim
  pub typ : Claim

pub record Payload : Type 0 where
  pub iss : Claim
  pub sub : Claim
  pub aud : Claim
  pub jti : Claim
  pub sid : Claim
  pub token_use : Claim
  pub iat : Claim
  pub exp : Claim

-- The options of `jwtVerify`, with one algorithm and no clock tolerance.
pub record VerifyOptions : Type 0 where
  pub algorithm : Text
  pub audience : Text
  pub issuer : Text
  pub typ : Text
  pub needs_jti : Bool

-- `claim === value`
abbrev pub is_text : Claim → Text → Bool
is_text (text s) t = text_eq s t
is_text missing t = false
is_text (number n) t = false
is_text other t = false

abbrev pub is_present : Claim → Bool
is_present missing = false
is_present (text s) = true
is_present (number n) = true
is_present other = true

-- A number of seconds that is not over at `now`.
abbrev pub is_after : ℤ → Claim → Bool
is_after now (number (integer n)) = ltb_ℤ now n
is_after now (number fraction) = false
is_after now (number non_finite) = false
is_after now missing = false
is_after now (text s) = false
is_after now other = false

abbrev pub is_number : Claim → Bool
is_number (number n) = true
is_number missing = false
is_number (text s) = false
is_number other = false

-- What `jwtVerify` documents that it accepts, of a token signed with the same key: algorithm, type,
-- issuer and audience as asked for, every required claim, and an expiry in the future.
unfoldable pub jwt_accepts : VerifyOptions → ℤ → Header → Payload → Bool
jwt_accepts o now h p =
    is_text h.alg o.algorithm
    && is_text h.typ o.typ
    && is_text p.iss o.issuer
    && is_text p.aud o.audience
    && is_present p.sub
    && is_present p.sid
    && is_present p.token_use
    && (not o.needs_jti || is_present p.jti)
    && is_number p.iat
    && is_after now p.exp

pub record Jose : Type 0 where
  pub sign : Text → Header → Payload → Text
  -- `none` is a rejected promise. The instant is `currentDate`, in milliseconds.
  pub jwt_verify : Text → Text → VerifyOptions → ℤ → Option (Header × Payload)
  -- A token that was signed with the key is accepted as documented, and read back.
  pub verify_sign :
      (key : Text) (h : Header) (p : Payload) (o : VerifyOptions) (at : ℤ)
      → jwt_verify (sign key h p) key o at
        ≡ (if jwt_accepts o (unix_time at) h p then some (h, p) else none)
