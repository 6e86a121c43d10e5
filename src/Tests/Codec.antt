-- ===== src/Tests/Codec.antt =====
-- A signing library that the tests can run: a token is its key, header and payload in plain
-- numbers, so what was signed can be read back.
use protege_mais.Base.{
  ℕ, zero, suc, ◌≡◌, refl, ◌&&◌, Option, none, some, [], ◌∷◌, ◌++◌, ◌==◌, if◌then◌else◌, length, ℤ,
  pos, negsuc,
}
use protege_mais.Text.{Text, text_eq, text_eq_refl}
use protege_mais.Base.Number.{integer, fraction, non_finite}
use protege_mais.Services.Dates.{unix_time}
use protege_mais.Services.Jose.{
  Claim, missing, text, number, other, Header, Payload, VerifyOptions, is_text, jwt_accepts, Jose,
}

-- A claim in front of what follows it.
abbrev pub put : Claim → Text → Text
put missing r = 0 ∷ r
put (text s) r = 1 ∷ length s ∷ (s ++ r)
put (number (integer (pos n))) r = 2 ∷ n ∷ r
put (number (integer (negsuc n))) r = 3 ∷ n ∷ r
put (number fraction) r = 4 ∷ r
put (number non_finite) r = 5 ∷ r
put other r = 6 ∷ r

unfoldable pub split : ℕ → Text → Option (Text × Text)
split zero s = some ([], s)
split (suc n) [] = none
split (suc n) (c ∷ s) = elim (split n s) [ none ↦ none | some (a, b) ↦ some (c ∷ a, b) ]

abbrev head_number : (ℕ → ℤ) → Text → Option (Claim × Text)
head_number sign [] = none
head_number sign (n ∷ r) = some (number (integer (sign n)), r)

abbrev head_text : Text → Option (Claim × Text)
head_text [] = none
head_text (n ∷ r) = elim (split n r) [ none ↦ none | some (s, r') ↦ some (text s, r') ]

unfoldable pub get : Text → Option (Claim × Text)
unfolding split
get [] = none
get (tag ∷ r) =
    if tag == 0
    then some (missing, r)
    else if tag == 1
    then head_text r
    else if tag == 2
    then head_number pos r
    else if tag == 3
    then head_number negsuc r
    else if tag == 4
    then some (number fraction, r)
    else if tag == 5
    then some (number non_finite, r)
    else some (other, r)

split-append : (s r : Text) → split (length s) (s ++ r) ≡ some (s, r)
unfolding split
split-append [] r = refl
split-append (c ∷ s) r = rw (split-append s r) refl

head_text_append : (s r : Text) → head_text (length s ∷ (s ++ r)) ≡ some (text s, r)
head_text_append s r = rw (split-append s r, head_text) refl

get-put : (c : Claim) (r : Text) → get (put c r) ≡ some (c, r)
unfolding get
get-put missing r = refl
get-put (text s) r = head_text_append s r
get-put (number (integer (pos n))) r = refl
get-put (number (integer (negsuc n))) r = refl
get-put (number fraction) r = refl
get-put (number non_finite) r = refl
get-put other r = refl

abbrev put_payload : Payload → Text
put_payload p =
    put p.iss
      (put p.sub (put p.aud (put p.jti (put p.sid (put p.token_use (put p.iat (put p.exp [])))))))

abbrev pub sign : Text → Header → Payload → Text
sign key h p = put (text key) (put h.alg (put h.typ (put_payload p)))

infixl 5 ◌>>=?◌
abbrev ◌>>=?◌ : {A B : Type 0} → Option A → (A → Option B) → Option B
none >>=? f = none
some a >>=? f = f a

unfoldable pub get_payload : Text → Option Payload
unfolding get
get_payload t = get t >>=? λ (iss, a). get a >>=? λ (sub, b). get b >>=? λ (aud, c).
    get c >>=? λ (jti, d). get d >>=? λ (sid, e). get e >>=? λ (token_use, f).
    get f >>=? λ (iat, g). get g >>=? λ (exp, h). some (record {
      iss = iss;
      sub = sub;
      aud = aud;
      jti = jti;
      sid = sid;
      token_use = token_use;
      iat = iat;
      exp = exp;
    })

get_payload-put : (p : Payload) → get_payload (put_payload p) ≡ some p
unfolding get_payload
get_payload-put p =
    let h = put p.exp [] in
    let g = put p.iat h in
    let f = put p.token_use g in
    let e = put p.sid f in
    let d = put p.jti e in
    let c = put p.aud d in
    let b = put p.sub c in
    rw
      (
        get-put p.iss b,
        get-put p.sub c,
        get-put p.aud d,
        get-put p.jti e,
        get-put p.sid f,
        get-put p.token_use g,
        get-put p.iat h,
        get-put p.exp [],
      )
      refl

unfoldable pub read_token : Text → Text → VerifyOptions → ℤ → Option (Header × Payload)
unfolding get get_payload jwt_accepts text_eq
read_token token key o at = get token >>=? λ (k, a). get a >>=? λ (alg, b). get b >>=? λ (typ, c).
    get_payload c >>=? λ p.
    let h : Header = record { alg = alg; typ = typ } in
    if is_text k key && jwt_accepts o (unix_time at) h p then some (h, p) else none

pub read-sign :
    (key : Text) (h : Header) (p : Payload) (o : VerifyOptions) (at : ℤ)
    → read_token (sign key h p) key o at
      ≡ (if jwt_accepts o (unix_time at) h p then some (h, p) else none)
unfolding read_token
read-sign key h p o at =
    let c = put_payload p in
    let b = put h.typ c in
    let a = put h.alg b in
    rw (get-put (text key) a, get-put h.alg b, get-put h.typ c, get_payload-put p, text_eq_refl key)
      refl

abbrev pub plain_jose : Jose
plain_jose = record { sign = sign; jwt_verify = read_token; verify_sign = read-sign }
