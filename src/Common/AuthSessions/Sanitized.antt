-- ===== src/Common/AuthSessions/Sanitized.antt =====
-- packages/common/auth-sessions/index.ts: what the sanitized texts are.
use protege_mais.Base.{
  ℕ, zero, suc, ◌≤◌, ◌<◌, ◌≡◌, refl, sym, ap, some, [], ◌∷◌, arith, length, take, length-take-le,
}
use protege_mais.Text.{
  Text, trim, collapse_spaces, trim-StartsSolid, trim-EndsSolid, StartsSolid, EndsSolid,
}
use protege_mais.Common.AuthSessions.{blank_controls, sanitize_auth_session_text}
use mathlib.Core.Path.{subst}

take_all : (n : ℕ) (s : Text) → length (take n s) < n → take n s ≡ s
take_all zero s h = absurd (ground (arith, h))
take_all (suc n) [] h = refl
take_all (suc n) (c ∷ s) h = ap (λ r. c ∷ r) (take_all n s (ground (arith, h)))

length-take : (n : ℕ) (s : Text) → 1 ≤ n → 1 ≤ length s → 1 ≤ length (take n s)
length-take zero s h k = h
length-take (suc n) [] h k = k
length-take (suc n) (c ∷ s) h k = ground arith

take-StartsSolid : (n : ℕ) (s : Text) → StartsSolid s → StartsSolid (take n s)
take-StartsSolid zero s h = tt
take-StartsSolid (suc n) [] h = tt
take-StartsSolid (suc n) (c ∷ s) h = h

kept :
    (value : Text) (maximum : ℕ) (s : Text)
    → sanitize_auth_session_text (some value) maximum ≡ some s
    → (1 ≤ length (trim (collapse_spaces (blank_controls value))))
      × (take maximum (trim (collapse_spaces (blank_controls value))) ≡ s)
unfolding sanitize_auth_session_text
kept value maximum s e = ground arith

-- A sanitized text is not empty, no longer than the maximum, begins with no space, and ends with
-- none unless it was cut at the maximum.
pub sanitize_auth_session_text_lem :
    (value : Text) (maximum : ℕ) (s : Text)
    → 1 ≤ maximum
    → sanitize_auth_session_text (some value) maximum ≡ some s
    → (1 ≤ length s) × (length s ≤ maximum) × StartsSolid s × (length s < maximum → EndsSolid s)
sanitize_auth_session_text_lem value maximum s positive e =
    let t = trim (collapse_spaces (blank_controls value)) in
    let (some_length, equal) = kept value maximum s e in
    subst
      (λ x.
        (1 ≤ length x) × (length x ≤ maximum) × StartsSolid x × (length x < maximum → EndsSolid x))
      equal
      (
        length-take maximum t positive some_length,
        length-take-le maximum t,
        take-StartsSolid maximum t (trim-StartsSolid (collapse_spaces (blank_controls value))),
        (λ short.
            subst EndsSolid (sym (take_all maximum t short))
              (trim-EndsSolid (collapse_spaces (blank_controls value)))),
      )
