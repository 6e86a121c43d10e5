-- ===== src/Services/RefreshToken/Window.antt =====
-- packages/services/authentication/refresh-token.ts: what `verify` says of a token that `issue`
-- made, and what it guarantees of any token that it accepts.
use protege_mais.Base.{
  ◌≡◌, refl, inl, inr, Bool, true, false, ◌&&◌, none, some, arith, ltb, ◌==◌, if◌then◌else◌,
  Bool-cases, Option-cases, every, length, ℤ, pos, ◌-ℤ◌, ◌≤ℤ◌, ◌<ℤ◌, ltb_ℤ, leb_ℤ, ok,
}
use protege_mais.Base.Number.{is_safe}
use protege_mais.Text.{Text, text_eq, utf16_length}
use protege_mais.Text.Patterns.{exactly, is_base64url}
use protege_mais.Services.Dates.{Date, invalid_date, valid, unix_time, date_of_seconds}
use protege_mais.Services.Jose.{Header, Payload, jwt_accepts, Jose}
use protege_mais.Services.AccessToken.{safe_claim}
use protege_mais.Services.RefreshToken.{
  refresh_token_maximum_length, is_refresh_token_id, IssueRefreshTokenInput, IssuedRefreshToken,
  VerifiedRefreshToken, refresh_header, refresh_payload, refresh_options, refresh_claims_hold,
  refresh_lifetime_holds, issue_between, issue, read_refresh_token, verify,
}

accepts_issued :
    (account session token_id : Text) (issued expires now : ℤ)
    → jwt_accepts refresh_options now refresh_header
        (refresh_payload account session token_id issued expires)
      ≡ ltb_ℤ now expires
unfolding jwt_accepts text_eq
accepts_issued account session token_id issued expires now = refl

holds_issued :
    (account session token_id : Text) (issued expires : ℤ)
    → refresh_claims_hold refresh_header (refresh_payload account session token_id issued expires)
      ≡ true
unfolding refresh_claims_hold text_eq
holds_issued account session token_id issued expires = refl

module _ (jose : Jose) (is_uuid_v7 : Text → Bool) where
  abbrev pub refresh_token_text : Text → Text → Text → Text → ℤ → ℤ → Text
  refresh_token_text key account session token_id issued expires =
      jose.sign key refresh_header (refresh_payload account session token_id issued expires)

  abbrev pub verified : Text → Text → Text → ℤ → ℤ → VerifiedRefreshToken
  verified account session token_id issued expires = record {
    account_id = account;
    session_id = session;
    token_id = token_id;
    issued_at = date_of_seconds issued;
    expires_at = date_of_seconds expires;
  }

  read_issued :
      (account session token_id : Text) (issued expires now : ℤ)
      → is_uuid_v7 account ≡ true
      → is_uuid_v7 session ≡ true
      → is_refresh_token_id token_id ≡ true
      → is_safe issued ≡ true
      → is_safe expires ≡ true
      → refresh_lifetime_holds issued expires ≡ true
      → read_refresh_token jose is_uuid_v7 now refresh_header
          (refresh_payload account session token_id issued expires)
        ≡ (if leb_ℤ issued now
            then some (verified account session token_id issued expires)
            else none)
  unfolding read_refresh_token
  read_issued account session token_id issued expires now ua us ut si se life =
      rw (holds_issued account session token_id issued expires, ua, us, ut, si, se, life)
        (elim (Bool-cases (leb_ℤ issued now)) [ inl e ↦ rw e refl | inr e ↦ rw e refl ])

  -- A refresh token that was signed with the key is accepted from the second of its issue up to
  -- its expiry and at no other second; it names the account, the session, its own identifier and
  -- the two ends of its life. The identifiers are well formed, both seconds are safe integers a
  -- lifetime apart, and the token is not empty and no longer than the maximum.
  pub accepted_until_expiry :
      (key account session token_id : Text) (issued expires at : ℤ)
      → is_uuid_v7 account ≡ true
      → is_uuid_v7 session ≡ true
      → is_refresh_token_id token_id ≡ true
      → is_safe issued ≡ true
      → is_safe expires ≡ true
      → refresh_lifetime_holds issued expires ≡ true
      → (utf16_length (refresh_token_text key account session token_id issued expires) == 0) ≡ false
      → ltb refresh_token_maximum_length
          (utf16_length (refresh_token_text key account session token_id issued expires))
        ≡ false
      → verify jose is_uuid_v7 key
          (refresh_token_text key account session token_id issued expires)
          (valid at)
        ≡ (if leb_ℤ issued (unix_time at) && ltb_ℤ (unix_time at) expires
            then some (verified account session token_id issued expires)
            else none)
  unfolding verify
  accepted_until_expiry key account session token_id issued expires at ua us ut si se life nonempty
        short =
      let token_read =
        jose.verify_sign key refresh_header
          (refresh_payload account session token_id issued expires) refresh_options at in
      let now = unix_time at in
      rw (nonempty, short, token_read, accepts_issued account session token_id issued expires now)
        (elim (Bool-cases (ltb_ℤ now expires)) [
          | inl e ↦
              rw (e, read_issued account session token_id issued expires now ua us ut si se life)
                (elim (Bool-cases (leb_ℤ issued now)) [ inl f ↦ rw f refl | inr f ↦ rw f refl ])
          | inr e ↦
              rw e (elim (Bool-cases (leb_ℤ issued now)) [ inl f ↦ rw f refl | inr f ↦ rw f refl ])
        ])

  read_sound :
      (now : ℤ) (h : Header) (p : Payload) (v : VerifiedRefreshToken)
      → read_refresh_token jose is_uuid_v7 now h p ≡ some v
      → (issued : ℤ) × (expires : ℤ) × (issued ≤ℤ now)
        × (refresh_lifetime_holds issued expires ≡ true)
        × (v.issued_at ≡ date_of_seconds issued)
        × (v.expires_at ≡ date_of_seconds expires)
        × (is_uuid_v7 v.account_id ≡ true)
        × (is_uuid_v7 v.session_id ≡ true)
        × (is_refresh_token_id v.token_id ≡ true)
  unfolding read_refresh_token
  read_sound now h p v e = elim (Option-cases (safe_claim p.iat)) [
    | inl bad ↦ ground arith
    | inr (issued, a) ↦ elim (Option-cases (safe_claim p.exp)) [
      | inl bad ↦ ground arith
      | inr (expires, b) ↦ (
        issued,
        expires,
        ground arith,
        ground arith,
        ground arith,
        ground arith,
        ground arith,
        ground arith,
        ground arith,
      )
    ]
  ]

  lifetime_bounds :
      (issued expires : ℤ)
      → refresh_lifetime_holds issued expires ≡ true
      → (pos 0 <ℤ expires -ℤ issued) × (expires -ℤ issued ≤ℤ pos 2592000)
  lifetime_bounds issued expires h = (ground (arith, h), ground (arith, h))

  id_shape :
      (s : Text) → is_refresh_token_id s ≡ true → (length s ≡ 43) × (every is_base64url s ≡ true)
  unfolding is_refresh_token_id exactly
  id_shape s h = (ground (arith, h), ground (arith, h))

  -- Of any token at all: what `verify` accepts was not issued in the future, for more than no time
  -- and at most thirty days, 2592000 seconds, to two identifiers of version 7, under an identifier of
  -- 43 characters of base64url.
  pub refresh_sound :
      (key token : Text) (at : ℤ) (v : VerifiedRefreshToken)
      → verify jose is_uuid_v7 key token (valid at) ≡ some v
      → (issued : ℤ) × (expires : ℤ) × (issued ≤ℤ unix_time at)
        × (pos 0 <ℤ expires -ℤ issued)
        × (expires -ℤ issued ≤ℤ pos 2592000)
        × (v.issued_at ≡ date_of_seconds issued)
        × (v.expires_at ≡ date_of_seconds expires)
        × (is_uuid_v7 v.account_id ≡ true)
        × (is_uuid_v7 v.session_id ≡ true)
        × (length v.token_id ≡ 43)
        × (every is_base64url v.token_id ≡ true)
  unfolding verify
  refresh_sound key token at v e =
      elim (Option-cases (jose.jwt_verify token key refresh_options at)) [
        | inl failed ↦ ground arith
        | inr ((h, p), found) ↦
            let (issued, expires, past, life, a, b, ua, us, ut) =
              read_sound (unix_time at) h p v (ground (arith, found)) in
            let (positive, bounded) = lifetime_bounds issued expires life in
            let (long, chars) = id_shape v.token_id ut in
            (issued, expires, past, positive, bounded, a, b, ua, us, long, chars)
      ]

  read_session :
      (now : ℤ) (account session token_id : Text) (issued expires : ℤ) (v : VerifiedRefreshToken)
      → read_refresh_token jose is_uuid_v7 now refresh_header
          (refresh_payload account session token_id issued expires)
        ≡ some v
      → v.session_id ≡ session
  unfolding read_refresh_token
  read_session now account session token_id issued expires v e = ground arith

  -- A token names the session that it was signed for.
  pub signed_session :
      (key account session token_id : Text) (issued expires : ℤ) (at : Date)
      (v : VerifiedRefreshToken)
      → verify jose is_uuid_v7 key
          (refresh_token_text key account session token_id issued expires)
          at
        ≡ some v
      → v.session_id ≡ session
  unfolding verify
  signed_session key account session token_id issued expires invalid_date v e = cc
  signed_session key account session token_id issued expires (valid at) v e =
      let token_read =
        jose.verify_sign key refresh_header
          (refresh_payload account session token_id issued expires) refresh_options at in
      read_session (unix_time at) account session token_id issued expires v
        (ground (arith, token_read))

  -- If `issue` returns for two valid dates, the token is the one signed with the key for the
  -- account, the session and the identifier, from the second of the one date to the second of the
  -- other; the answer states that end and the time in between, which is positive and at most thirty
  -- days, 2592000 seconds.
  pub issue_sound :
      (key token_id : Text) (i : IssueRefreshTokenInput) (at until : ℤ) (r : IssuedRefreshToken)
      → i.issued_at ≡ valid at
      → i.expires_at ≡ some (valid until)
      → issue jose is_uuid_v7 key token_id i ≡ ok r
      → (r.token
          ≡ refresh_token_text key i.account_id i.session_id token_id
              (unix_time at)
              (unix_time until))
        × (r.expires_at ≡ date_of_seconds (unix_time until))
        × (r.expires_in_seconds ≡ unix_time until -ℤ unix_time at)
        × (pos 0 <ℤ r.expires_in_seconds)
        × (r.expires_in_seconds ≤ℤ pos 2592000)
  unfolding issue issue_between
  issue_sound key token_id i at until r e f g = ground arith
