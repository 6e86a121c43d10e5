-- ===== src/Edge/Redis/Guards.antt =====
-- packages/plugins/redis/index.ts with packages/middlewares/authentication/index.ts: the guards of
-- the commands, and the rate limit of logins that counts by `incrementWithExpiration`.
use protege_mais.Edge.RateLimit.{
  rate_limit_key_prefix, opaque_rate_limit_key, Limiter, normalized_client_address,
}
use protege_mais.Edge.Redis.{Client, is_unsafe_key}
use protege_mais.Base.{
  ℕ, ◌≤◌, ◌≡◌, refl, ◌∙◌, Bool, true, false, ◌&&◌, ◌||◌, List, [], ◌∷◌, ◌++◌, arith, leb, length,
  length-append, every, any,
}
use protege_mais.Text.{
  Text, utf16_length, is_ascii_control, is_space, StartsSolid, EndsSolid, trim_id, text_eq_refl,
}

-- A printable character of ASCII, without the space.
abbrev is_printable : ℕ → Bool
is_printable c = leb 0x21 c && leb c 0x7e

printable_solid : (c : ℕ) → is_printable c ≡ true → is_space c ≡ false
unfolding is_space
printable_solid c h = ground arith

printable-StartsSolid : (s : Text) → every is_printable s ≡ true → StartsSolid s
printable-StartsSolid [] h = tt
printable-StartsSolid (c ∷ s) h = printable_solid c (ground arith)

printable-EndsSolid : (s : Text) → every is_printable s ≡ true → EndsSolid s
printable-EndsSolid [] h = tt
printable-EndsSolid (c ∷ []) h = printable_solid c (ground arith)
printable-EndsSolid (c ∷ d ∷ s) h = printable-EndsSolid (d ∷ s) (ground arith)

printable_length : (s : Text) → every is_printable s ≡ true → utf16_length s ≡ length s
unfolding utf16_length
printable_length [] h = refl
printable_length (c ∷ s) h = ground (arith, printable_length s)

printable_uncontrolled : (s : Text) → every is_printable s ≡ true → any is_ascii_control s ≡ false
unfolding is_ascii_control
printable_uncontrolled [] h = refl
printable_uncontrolled (c ∷ s) h = ground (arith, printable_uncontrolled s)

printable_safe :
    (key : Text)
    → every is_printable key ≡ true
    → 1 ≤ length key
    → length key ≤ 512
    → is_unsafe_key key ≡ false
unfolding is_unsafe_key
printable_safe key h low high =
    rw
      (
        printable_length key h,
        trim_id key (printable-StartsSolid key h) (printable-EndsSolid key h),
        text_eq_refl key,
        printable_uncontrolled key h,
      )
      (ground arith)

every_append :
    {A : Type 0} (p : A → Bool) (xs ys : List A) → every p (xs ++ ys) ≡ every p xs && every p ys
every_append p [] ys = refl
every_append p (x ∷ xs) ys = ground (arith, every_append p xs ys)

-- A digest in hexadecimal: `digest('hex')` of SHA-256.
abbrev pub is_hexadecimal : ℕ → Bool
is_hexadecimal c = (leb b'0' c && leb c b'9') || (leb b'a' c && leb c b'f')

hexadecimal_printable : (s : Text) → every is_hexadecimal s ≡ true → every is_printable s ≡ true
hexadecimal_printable [] h = refl
hexadecimal_printable (c ∷ s) h = ground (arith, hexadecimal_printable s)

module _ {S : Type 0} (client : Client S) (digest : Text → Text → Text) (l : Limiter)
    (hexadecimal : (secret value : Text) → every is_hexadecimal (digest secret value) ≡ true)
    (long : (secret value : Text) → length (digest secret value) ≡ 64) where
  -- The key of an attempt is one that `assertKey` lets through.
  pub opaque_key_safe :
      (address : Text) → is_unsafe_key (opaque_rate_limit_key digest address l.secret) ≡ false
  unfolding opaque_rate_limit_key
  opaque_key_safe address =
      let value = normalized_client_address address in
      printable_safe (rate_limit_key_prefix ++ digest l.secret value)
        (every_append is_printable rate_limit_key_prefix (digest l.secret value)
          ∙ hexadecimal_printable (digest l.secret value) (hexadecimal l.secret value))
        (ground
          (arith, length-append rate_limit_key_prefix (digest l.secret value), long l.secret value))
        (ground
          (arith, length-append rate_limit_key_prefix (digest l.secret value), long l.secret value))
