-- ===== src/Logging/Spelling.antt =====
-- packages/plugins/logging/sanitization.ts: the spellings of a key that are one key.
use protege_mais.Base.{
  ℕ, ◌≡◌, refl, inl, inr, Bool, true, false, not, [], ◌∷◌, ◌++◌, map, arith, Bool-cases, every,
  keep,
}
use protege_mais.Text.{Text, is_alphanumeric, is_upper, is_lower, is_digit}
use protege_mais.Text.Unicode.{Unicode, is_ascii, lower_ascii, upper_ascii}
use protege_mais.Logging.Keys.{is_sensitive_log_key, normalize_key, is_combining}

keep_all :
    (p q : ℕ → Bool) (s : Text)
    → ((c : ℕ) → q c ≡ true → p c ≡ true)
    → every q s ≡ true
    → keep p s ≡ s
keep_all p q [] h e = refl
keep_all p q (c ∷ s) h e = rw (h c (ground arith), keep_all p q s h (ground arith)) refl

every-keep : (p q : ℕ → Bool) (s : Text) → every q s ≡ true → every q (keep p s) ≡ true
every-keep p q [] e = refl
every-keep p q (c ∷ s) e = ground (arith, every-keep p q s)

upper_alphanumeric : (c : ℕ) → is_alphanumeric (upper_ascii c) ≡ is_alphanumeric c
unfolding is_alphanumeric upper_ascii is_upper is_lower is_digit
upper_alphanumeric c = ground arith

upper_lower : (c : ℕ) → lower_ascii (upper_ascii c) ≡ lower_ascii c
unfolding upper_ascii lower_ascii is_upper is_lower
upper_lower c = ground arith

-- What is left of a key of ASCII characters.
abbrev letters : Text → Text
letters key = map lower_ascii (keep is_alphanumeric key)

letters_upper : (key : Text) → letters (map upper_ascii key) ≡ letters key
letters_upper [] = refl
letters_upper (c ∷ key) = elim (Bool-cases (is_alphanumeric c)) [
  | inl kept ↦ rw (upper_alphanumeric c, kept, upper_lower c, letters_upper key) refl
  | inr dropped ↦ rw (upper_alphanumeric c, dropped) (letters_upper key)
]

letters_separated :
    (separator : ℕ) (a b : Text)
    → is_alphanumeric separator ≡ false
    → letters (a ++ separator ∷ b) ≡ letters (a ++ b)
letters_separated separator [] b h = rw h refl
letters_separated separator (c ∷ a) b h = elim (Bool-cases (is_alphanumeric c)) [
  | inl kept ↦ rw (kept, letters_separated separator a b h) refl
  | inr dropped ↦ rw dropped (letters_separated separator a b h)
]

every_upper : (key : Text) → every is_ascii key ≡ true → every is_ascii (map upper_ascii key) ≡ true
unfolding upper_ascii is_lower
every_upper [] h = refl
every_upper (c ∷ key) h = ground (arith, every_upper key)

every_insert :
    (c : ℕ) (a b : Text)
    → every is_ascii (a ++ b) ≡ true
    → is_ascii c ≡ true
    → every is_ascii (a ++ c ∷ b) ≡ true
every_insert c [] b h e = ground arith
every_insert c (d ∷ a) b h e = ground (arith, every_insert c a b)

uncombined : (c : ℕ) → is_ascii c ≡ true → not (is_combining c) ≡ true
uncombined c h = ground arith

module _ (u : Unicode) (to_nfd : Text → Text)
    (nfd_of_ascii : (s : Text) → every is_ascii s ≡ true → to_nfd s ≡ s) where
  normalize_key_lem :
      (key : Text) → every is_ascii key ≡ true → normalize_key u to_nfd key ≡ letters key
  unfolding normalize_key
  normalize_key_lem key h =
      rw
        (
          nfd_of_ascii key h,
          normalize_key,
          keep_all (λ c. not (is_combining c)) is_ascii key uncombined h,
        )
        (u.lower_of_ascii (keep is_alphanumeric key) (every-keep is_alphanumeric is_ascii key h))

  same_letters :
      (key other : Text)
      → every is_ascii key ≡ true
      → every is_ascii other ≡ true
      → letters key ≡ letters other
      → is_sensitive_log_key u to_nfd key ≡ is_sensitive_log_key u to_nfd other
  unfolding is_sensitive_log_key
  same_letters key other h h' same =
      rw (is_sensitive_log_key, normalize_key_lem key h, normalize_key_lem other h', same) refl

  -- A key of ASCII characters is as sensitive in capitals, and with a separator put into it that is
  -- no letter and no digit, as it is without.
  pub is_sensitive_log_key-letters :
      (a b : Text) (separator : ℕ)
      → every is_ascii (a ++ b) ≡ true
      → is_ascii separator ≡ true
      → is_alphanumeric separator ≡ false
      → (is_sensitive_log_key u to_nfd (map upper_ascii (a ++ b))
          ≡ is_sensitive_log_key u to_nfd (a ++ b))
        × (is_sensitive_log_key u to_nfd (a ++ separator ∷ b)
            ≡ is_sensitive_log_key u to_nfd (a ++ b))
  is_sensitive_log_key-letters a b separator h hs apart = (
    same_letters (map upper_ascii (a ++ b)) (a ++ b) (every_upper (a ++ b) h) h
        (letters_upper (a ++ b)),
    same_letters (a ++ separator ∷ b) (a ++ b) (every_insert separator a b h hs) h
        (letters_separated separator a b apart),
  )
