-- ===== src/Database/Directory/Cnpj.antt =====
-- packages/common/organizations against packages/models/organizations.ts: the application and the
-- table agree on what a CNPJ is.
use protege_mais.Base.{
  ℕ, suc, ◌+◌, ◌-◌, ◌*◌, ◌≡◌, refl, inl, inr, Bool, true, false, ◌&&◌, ◌||◌, none, some, [], ◌∷◌,
  arith, ◌==◌, ==_iff, Bool-cases, and_true, length, take, drop, every,
}
use protege_mais.Common.Organizations.Cnpj.{
  normalize_organization_cnpj, is_valid_organization_cnpj, is_valid_normalized_cnpj, has_cnpj_shape,
  cnpj_check_digits, calculate_cnpj_check_digit, check_digit, weighted_sum,
}
use protege_mais.Database.Directory.{
  codes, cnpj_check_digits_check, cnpj_format_check, Text, digits_agree, digit_of_sum,
}
use protege_mais.Text.Unicode.{Unicode}
use protege_mais.Text.{is_upper, text_eq, is_digit}

-- A digit's character and its value.
digit_char : (c d : ℕ) → is_digit c ≡ true → (c == 48 + d) ≡ (c - 48 == d)
unfolding is_digit
digit_char c d h = ground arith

-- The sums of the two sides differ by the zero that `reduce` starts from.
first_sum :
    (v₁ v₂ v₃ v₄ v₅ v₆ v₇ v₈ v₉ v₁₀ v₁₁ v₁₂ : ℕ)
    → 0
        + v₁ * 5
        + v₂ * 4
        + v₃ * 3
        + v₄ * 2
        + v₅ * 9
        + v₆ * 8
        + v₇ * 7
        + v₈ * 6
        + v₉ * 5
        + v₁₀ * 4
        + v₁₁ * 3
        + v₁₂ * 2
      ≡ v₁ * 5
        + v₂ * 4
        + v₃ * 3
        + v₄ * 2
        + v₅ * 9
        + v₆ * 8
        + v₇ * 7
        + v₈ * 6
        + v₉ * 5
        + v₁₀ * 4
        + v₁₁ * 3
        + v₁₂ * 2
first_sum v₁ v₂ v₃ v₄ v₅ v₆ v₇ v₈ v₉ v₁₀ v₁₁ v₁₂ = omega arith

second_sum :
    (v₁ v₂ v₃ v₄ v₅ v₆ v₇ v₈ v₉ v₁₀ v₁₁ v₁₂ : ℕ)
    → 0
        + v₁ * 6
        + v₂ * 5
        + v₃ * 4
        + v₄ * 3
        + v₅ * 2
        + v₆ * 9
        + v₇ * 8
        + v₈ * 7
        + v₉ * 6
        + v₁₀ * 5
        + v₁₁ * 4
        + v₁₂ * 3
      ≡ v₁ * 6
        + v₂ * 5
        + v₃ * 4
        + v₄ * 3
        + v₅ * 2
        + v₆ * 9
        + v₇ * 8
        + v₈ * 7
        + v₉ * 6
        + v₁₀ * 5
        + v₁₁ * 4
        + v₁₂ * 3
second_sum v₁ v₂ v₃ v₄ v₅ v₆ v₇ v₈ v₉ v₁₀ v₁₁ v₁₂ = omega arith

-- The two digits, where the second sum of the application is of the first digit that it computed,
-- and that of the table is of the digit in the text.
digits_against :
    (c d s p : ℕ)
    → is_digit c ≡ true
    → is_digit d ≡ true
    → ((c == 48 + check_digit s)
        && ((d == 48 + check_digit (p + ((48 + check_digit s) - 48) * 2)) && true))
      ≡ ((c - 48 == digit_of_sum s) && (d - 48 == digit_of_sum (p + (c - 48) * 2)))
digits_against c d s p h h' = elim (Bool-cases (c - 48 == check_digit s)) [
  | inl same ↦
      rw
        (
          digit_char c (check_digit s) h,
          digit_char d (check_digit (p + ((48 + check_digit s) - 48) * 2)) h',
          same,
        )
        (ground (arith, same))
  | inr other ↦ rw (digit_char c (check_digit s) h, other) refl
]

digits_lem :
    (c₁ c₂ c₃ c₄ c₅ c₆ c₇ c₈ c₉ c₁₀ c₁₁ c₁₂ c₁₃ c₁₄ : ℕ)
    → is_digit c₁₃ ≡ true
    → is_digit c₁₄ ≡ true
    → elim (cnpj_check_digits (c₁ ∷ c₂ ∷ c₃ ∷ c₄ ∷ c₅ ∷ c₆ ∷ c₇ ∷ c₈ ∷ c₉ ∷ c₁₀ ∷ c₁₁ ∷ c₁₂ ∷ [])) [
      | none ↦ false
      | some digits ↦ text_eq (c₁₃ ∷ c₁₄ ∷ []) digits
    ]
      ≡ digits_agree (c₁ ∷ c₂ ∷ c₃ ∷ c₄ ∷ c₅ ∷ c₆ ∷ c₇ ∷ c₈ ∷ c₉ ∷ c₁₀ ∷ c₁₁ ∷ c₁₂ ∷ c₁₃ ∷ c₁₄ ∷ [])
unfolding cnpj_check_digits calculate_cnpj_check_digit weighted_sum text_eq
digits_lem c₁ c₂ c₃ c₄ c₅ c₆ c₇ c₈ c₉ c₁₀ c₁₁ c₁₂ c₁₃ c₁₄ h h' =
    rw
      (
        first_sum (c₁ - 48) (c₂ - 48) (c₃ - 48) (c₄ - 48) (c₅ - 48) (c₆ - 48) (c₇ - 48) (c₈ - 48)
            (c₉ - 48) (c₁₀ - 48) (c₁₁ - 48) (c₁₂ - 48),
        second_sum (c₁ - 48) (c₂ - 48) (c₃ - 48) (c₄ - 48) (c₅ - 48) (c₆ - 48) (c₇ - 48) (c₈ - 48)
            (c₉ - 48) (c₁₀ - 48) (c₁₁ - 48) (c₁₂ - 48),
      )
      (digits_against c₁₃ c₁₄ _ _ h h')

-- A statement of the texts of one length, by the first character.
peel :
    (n : ℕ) (P : Text → Type 0)
    → ((c : ℕ) (t : Text) → length t ≡ n → P (c ∷ t))
    → (s : Text) → length s ≡ suc n
    → P s
peel n P step [] e = cc
peel n P step (c ∷ s) e = step c s (omega (arith, e))

-- What the application asks of the two digits of a text in the shape of a CNPJ.
abbrev asked : Text → Bool
asked s = elim (cnpj_check_digits (take 12 s)) [
  | none ↦ false
  | some digits ↦ text_eq (drop 12 s) digits
]

abbrev Agreeing : Text → Type 0
Agreeing s = every is_digit (drop 12 s) ≡ true → asked s ≡ digits_agree s

ended :
    (c₁ c₂ c₃ c₄ c₅ c₆ c₇ c₈ c₉ c₁₀ c₁₁ c₁₂ c₁₃ c₁₄ : ℕ) (t : Text)
    → length t ≡ 0
    → Agreeing (c₁ ∷ c₂ ∷ c₃ ∷ c₄ ∷ c₅ ∷ c₆ ∷ c₇ ∷ c₈ ∷ c₉ ∷ c₁₀ ∷ c₁₁ ∷ c₁₂ ∷ c₁₃ ∷ c₁₄ ∷ t)
ended c₁ c₂ c₃ c₄ c₅ c₆ c₇ c₈ c₉ c₁₀ c₁₁ c₁₂ c₁₃ c₁₄ [] e h =
    digits_lem c₁ c₂ c₃ c₄ c₅ c₆ c₇ c₈ c₉ c₁₀ c₁₁ c₁₂ c₁₃ c₁₄ (ground (arith, h))
      (ground (arith, h))
ended c₁ c₂ c₃ c₄ c₅ c₆ c₇ c₈ c₉ c₁₀ c₁₁ c₁₂ c₁₃ c₁₄ (c ∷ t) e h = cc

shaped_digits : (s : Text) → length s ≡ 14 → Agreeing s
shaped_digits = peel 13 Agreeing (λ c₁ t l.
    peel 12 (λ t. Agreeing (c₁ ∷ t))
      (λ c₂ t l.
        peel 11 (λ t. Agreeing (c₁ ∷ c₂ ∷ t))
          (λ c₃ t l.
            peel 10 (λ t. Agreeing (c₁ ∷ c₂ ∷ c₃ ∷ t))
              (λ c₄ t l.
                peel 9 (λ t. Agreeing (c₁ ∷ c₂ ∷ c₃ ∷ c₄ ∷ t))
                  (λ c₅ t l.
                    peel 8 (λ t. Agreeing (c₁ ∷ c₂ ∷ c₃ ∷ c₄ ∷ c₅ ∷ t))
                      (λ c₆ t l.
                        peel 7 (λ t. Agreeing (c₁ ∷ c₂ ∷ c₃ ∷ c₄ ∷ c₅ ∷ c₆ ∷ t))
                          (λ c₇ t l.
                            peel 6 (λ t. Agreeing (c₁ ∷ c₂ ∷ c₃ ∷ c₄ ∷ c₅ ∷ c₆ ∷ c₇ ∷ t))
                              (λ c₈ t l.
                                peel 5 (λ t. Agreeing (c₁ ∷ c₂ ∷ c₃ ∷ c₄ ∷ c₅ ∷ c₆ ∷ c₇ ∷ c₈ ∷ t))
                                  (λ c₉ t l.
                                    peel 4
                                      (λ t.
                                        Agreeing (c₁ ∷ c₂ ∷ c₃ ∷ c₄ ∷ c₅ ∷ c₆ ∷ c₇ ∷ c₈ ∷ c₉ ∷ t))
                                      (λ c₁₀ t l.
                                        peel 3
                                          (λ t.
                                            Agreeing (
                                              c₁ ∷ c₂ ∷ c₃ ∷ c₄ ∷ c₅ ∷ c₆ ∷ c₇ ∷ c₈ ∷ c₉ ∷ c₁₀ ∷ t))
                                          (λ c₁₁ t l.
                                            peel 2
                                              (λ t. Agreeing (
                                                c₁ ∷ c₂ ∷ c₃ ∷ c₄ ∷ c₅ ∷ c₆ ∷ c₇ ∷ c₈ ∷ c₉ ∷ c₁₀
                                                ∷ c₁₁ ∷ t))
                                              (λ c₁₂ t l.
                                                peel 1
                                                  (λ t. Agreeing (
                                                    c₁ ∷ c₂ ∷ c₃ ∷ c₄ ∷ c₅ ∷ c₆ ∷ c₇ ∷ c₈ ∷ c₉ ∷ c₁₀
                                                    ∷ c₁₁ ∷ c₁₂ ∷ t))
                                                  (λ c₁₃ t l.
                                                    peel 0
                                                      (λ t. Agreeing (
                                                        c₁ ∷ c₂ ∷ c₃ ∷ c₄ ∷ c₅ ∷ c₆ ∷ c₇ ∷ c₈ ∷ c₉
                                                        ∷ c₁₀ ∷ c₁₁ ∷ c₁₂ ∷ c₁₃ ∷ t))
                                                      (ended c₁ c₂ c₃ c₄ c₅ c₆ c₇ c₈ c₉ c₁₀ c₁₁ c₁₂
                                                        c₁₃)
                                                      t l)
                                                  t l)
                                              t l)
                                          t l)
                                      t l)
                                  t l)
                              t l)
                          t l)
                      t l)
                  t l)
              t l)
          t l)
      t l)

shape_inv :
    (s : Text) → has_cnpj_shape s ≡ true → (length s ≡ 14) × (every is_digit (drop 12 s) ≡ true)
unfolding has_cnpj_shape
shape_inv s h =
    let letters = every (λ c. is_digit c || is_upper c) (take 12 s) in
    let (a, b) = and_true (length s == 14 && letters) (every is_digit (drop 12 s)) h in
    ((==_iff (length s) 14).0 (and_true (length s == 14) letters a).0, b)

is_valid_normalized_cnpj_lem :
    (s : Text) → is_valid_normalized_cnpj s ≡ (cnpj_format_check s && cnpj_check_digits_check s)
unfolding is_valid_normalized_cnpj cnpj_format_check cnpj_check_digits_check
is_valid_normalized_cnpj_lem s = elim (Bool-cases (has_cnpj_shape s)) [
  | inl shaped ↦
      let (fourteen, digits) = shape_inv s shaped in
      elim (Bool-cases (text_eq s (codes "00000000000000"))) [
        | inl zeros ↦ rw (shaped, zeros) refl
        | inr other ↦ rw (shaped, other) (shaped_digits s fourteen digits)
      ]
  | inr shapeless ↦ rw shapeless refl
]

-- The application accepts a normalized text as a CNPJ exactly if the two checks of the table accept
-- it, that of its format and that of its check digits.
pub is_valid_organization_cnpj_lem :
    (u : Unicode) (value : Text)
    → is_valid_organization_cnpj u value ≡ (
        cnpj_format_check (normalize_organization_cnpj u value)
        && cnpj_check_digits_check (normalize_organization_cnpj u value))
unfolding is_valid_organization_cnpj
is_valid_organization_cnpj_lem u value =
    is_valid_normalized_cnpj_lem (normalize_organization_cnpj u value)
