-- ===== src/Services/AccessToken/Window.antt =====
-- packages/services/authentication/access-token.ts: what `verify` says of a token that `issue`
-- made, second by second, and what it guarantees of any token that it accepts.
use protege_mais.Base.{
  ◌≡◌, refl, sym, ap, ◌∙◌, inl, inr, Bool, true, false, ◌&&◌, arith, ltb, ◌==◌, if◌then◌else◌,
  Bool-cases, Option-cases, ℤ, pos, ◌+ℤ◌, ◌-ℤ◌, ◌≤ℤ◌, ltb_ℤ, leb_ℤ, eqb_ℤ, eq_of_parts, add-sub,
  add-sub_self, ok, err,
}
use protege_mais.Base.Number.{is_safe}
use protege_mais.Services.AccessToken.{
  safe_claim, access_token_lifetime_seconds, access_token_maximum_length, invalid_access_token,
  VerifiedAccessToken, access_header, access_payload, access_options, access_claims_hold,
  read_access_token, verify,
}
use protege_mais.Text.{Text, text_eq, utf16_length}
use protege_mais.Services.Dates.{valid, unix_time, date_of_seconds}
use protege_mais.Services.Jose.{Header, Payload, jwt_accepts, Jose}

-- The claims that `issue` writes are those that `jwtVerify` and the service ask for.
accepts_issued :
    (account session : Text) (issued now : ℤ)
    → jwt_accepts access_options now access_header (access_payload account session issued)
      ≡ ltb_ℤ now (issued +ℤ pos access_token_lifetime_seconds)
unfolding jwt_accepts text_eq
accepts_issued account session issued now = refl

holds_issued :
    (account session : Text) (issued : ℤ)
    → access_claims_hold access_header (access_payload account session issued) ≡ true
unfolding access_claims_hold text_eq
holds_issued account session issued = refl

plus_lifetime :
    (issued expires : ℤ)
    → eqb_ℤ (expires -ℤ issued) (pos access_token_lifetime_seconds) ≡ true
    → expires ≡ issued +ℤ pos access_token_lifetime_seconds
plus_lifetime issued expires h =
    sym (add-sub_self issued expires)
    ∙ ap (◌+ℤ◌ issued)
        (eq_of_parts (expires -ℤ issued) (pos access_token_lifetime_seconds) (ground arith))

module _ (jose : Jose) (is_uuid_v7 : Text → Bool) where
  abbrev pub issued_token : Text → Text → Text → ℤ → Text
  issued_token key account session issued =
      jose.sign key access_header (access_payload account session issued)

  read_issued :
      (account session : Text) (issued now : ℤ)
      → is_uuid_v7 account ≡ true
      → is_uuid_v7 session ≡ true
      → is_safe issued ≡ true
      → is_safe (issued +ℤ pos access_token_lifetime_seconds) ≡ true
      → read_access_token jose is_uuid_v7 now access_header (access_payload account session issued)
        ≡ (if leb_ℤ issued now
            then ok (record {
              account_id = account;
              session_id = session;
              issued_at = date_of_seconds issued;
              expires_at = date_of_seconds (issued +ℤ pos access_token_lifetime_seconds);
            })
            else err invalid_access_token)
  unfolding read_access_token
  read_issued account session issued now ua us si se =
      rw
        (
          holds_issued account session issued,
          ua,
          us,
          si,
          se,
          add-sub issued (pos access_token_lifetime_seconds),
        )
        (elim (Bool-cases (leb_ℤ issued now)) [ inl e ↦ rw e refl | inr e ↦ rw e refl ])

  -- A token that was signed with the key for an account and a session at the second `issued` is
  -- accepted in the fifteen minutes from then on and at no other second; it names the account, the
  -- session and the two ends of its life. The two identifiers are of version 7, both seconds are
  -- safe integers, and the token is not empty and no longer than the maximum.
  pub accepted_while_fresh :
      (key account session : Text) (issued : ℤ) (at : ℤ)
      → is_uuid_v7 account ≡ true
      → is_uuid_v7 session ≡ true
      → is_safe issued ≡ true
      → is_safe (issued +ℤ pos access_token_lifetime_seconds) ≡ true
      → (utf16_length (issued_token key account session issued) == 0) ≡ false
      → ltb access_token_maximum_length (utf16_length (issued_token key account session issued))
        ≡ false
      → verify jose is_uuid_v7 key (issued_token key account session issued) (valid at) ≡ (
          if leb_ℤ issued (unix_time at)
            && ltb_ℤ (unix_time at) (issued +ℤ pos access_token_lifetime_seconds)
          then ok (record {
            account_id = account;
            session_id = session;
            issued_at = date_of_seconds issued;
            expires_at = date_of_seconds (issued +ℤ pos access_token_lifetime_seconds);
          })
          else err invalid_access_token)
  unfolding verify
  accepted_while_fresh key account session issued at ua us si se nonempty short =
      let token_read =
        jose.verify_sign key access_header (access_payload account session issued) access_options
          at in
      let now = unix_time at in
      let expires = issued +ℤ pos access_token_lifetime_seconds in
      rw (nonempty, short, token_read, accepts_issued account session issued now)
        (elim (Bool-cases (ltb_ℤ now expires)) [
          | inl e ↦
              rw (e, read_issued account session issued now ua us si se)
                (elim (Bool-cases (leb_ℤ issued now)) [ inl f ↦ rw f refl | inr f ↦ rw f refl ])
          | inr e ↦
              rw e (elim (Bool-cases (leb_ℤ issued now)) [ inl f ↦ rw f refl | inr f ↦ rw f refl ])
        ])

  read_sound :
      (now : ℤ) (h : Header) (p : Payload) (v : VerifiedAccessToken)
      → read_access_token jose is_uuid_v7 now h p ≡ ok v
      → (issued : ℤ) × (issued ≤ℤ now)
        × (v.issued_at ≡ date_of_seconds issued)
        × (v.expires_at ≡ date_of_seconds (issued +ℤ pos access_token_lifetime_seconds))
        × (is_uuid_v7 v.account_id ≡ true)
        × (is_uuid_v7 v.session_id ≡ true)
  unfolding read_access_token
  read_sound now h p v e = elim (Option-cases (safe_claim p.iat)) [
    | inl bad ↦ ground arith
    | inr (issued, a) ↦ elim (Option-cases (safe_claim p.exp)) [
      | inl bad ↦ ground arith
      | inr (expires, b) ↦ (
        issued,
        ground arith,
        ground arith,
        ground (arith, plus_lifetime issued expires),
        ground arith,
        ground arith,
      )
    ]
  ]

  -- Of any token at all: what `verify` accepts was issued in the past for exactly fifteen minutes,
  -- to two identifiers of version 7.
  pub access_sound :
      (key token : Text) (at : ℤ) (v : VerifiedAccessToken)
      → verify jose is_uuid_v7 key token (valid at) ≡ ok v
      → (issued : ℤ) × (issued ≤ℤ unix_time at)
        × (v.issued_at ≡ date_of_seconds issued)
        × (v.expires_at ≡ date_of_seconds (issued +ℤ pos access_token_lifetime_seconds))
        × (is_uuid_v7 v.account_id ≡ true)
        × (is_uuid_v7 v.session_id ≡ true)
  unfolding verify
  access_sound key token at v e =
      elim (Option-cases (jose.jwt_verify token key access_options at)) [
        | inl failed ↦ ground arith
        | inr ((h, p), found) ↦ read_sound (unix_time at) h p v (ground (arith, found))
      ]
