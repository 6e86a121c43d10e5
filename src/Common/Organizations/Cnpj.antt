-- ===== src/Common/Organizations/Cnpj.antt =====
-- packages/common/organizations/index.ts: the CNPJ, numeric or alphanumeric, and its check digits.
use protege_mais.Base.{
  ℕ, ◌+◌, ◌-◌, ◌*◌, ◌%◌, Bool, false, not, ◌&&◌, ◌||◌, Option, none, some, List, [], ◌∷◌, ◌++◌, ltb,
  ◌==◌, if◌then◌else◌, length, take, drop, every, keep,
}
use protege_mais.Text.{Text, codes, text_eq, is_space, is_digit, is_upper, trim}
use protege_mais.Text.Unicode.{Unicode}

abbrev pub first_cnpj_check_digit_weights : List ℕ
first_cnpj_check_digit_weights = 5 ∷ 4 ∷ 3 ∷ 2 ∷ 9 ∷ 8 ∷ 7 ∷ 6 ∷ 5 ∷ 4 ∷ 3 ∷ 2 ∷ []

abbrev pub second_cnpj_check_digit_weights : List ℕ
second_cnpj_check_digit_weights = 6 ∷ 5 ∷ 4 ∷ 3 ∷ 2 ∷ 9 ∷ 8 ∷ 7 ∷ 6 ∷ 5 ∷ 4 ∷ 3 ∷ 2 ∷ []

-- The weighted sum from `total` on; `none` is the RangeError of a missing weight. The callers
-- have checked that each character is a digit or a capital letter, so none lies below `0`.
unfoldable pub weighted_sum : ℕ → Text → List ℕ → Option ℕ
weighted_sum total [] weights = some total
weighted_sum total (c ∷ s) [] = none
weighted_sum total (c ∷ s) (w ∷ weights) = weighted_sum (total + (c - b'0') * w) s weights

abbrev pub check_digit : ℕ → ℕ
check_digit sum = if ltb (sum % 11) 2 then 0 else 11 - sum % 11

unfoldable pub calculate_cnpj_check_digit : Text → List ℕ → Option ℕ
unfolding weighted_sum
calculate_cnpj_check_digit value weights = elim (weighted_sum 0 value weights) [
  | none ↦ none
  | some sum ↦ some (check_digit sum)
]

-- `[./\s-]`
unfoldable pub is_cnpj_mask : ℕ → Bool
unfolding is_space
is_cnpj_mask c = c == b'.' || c == b'/' || is_space c || c == b'-'

unfoldable pub normalize_organization_cnpj : Unicode → Text → Text
unfolding trim is_cnpj_mask
normalize_organization_cnpj u value =
    keep (λ c. not (is_cnpj_mask c)) (u.to_upper_case (trim value))

-- `^[0-9A-Z]{12}[0-9]{2}$`
unfoldable pub has_cnpj_shape : Text → Bool
unfolding is_digit is_upper
has_cnpj_shape s =
    length s == 14
    && every (λ c. is_digit c || is_upper c) (take 12 s)
    && every is_digit (drop 12 s)

-- A digit as its character, as a template literal writes it.
abbrev pub digit_text : ℕ → Text
digit_text d = (b'0' + d) ∷ []

-- The check digits that the first twelve characters ask for.
unfoldable pub cnpj_check_digits : Text → Option Text
unfolding calculate_cnpj_check_digit
cnpj_check_digits base = elim (calculate_cnpj_check_digit base first_cnpj_check_digit_weights) [
  | none ↦ none
  | some first ↦
      elim (calculate_cnpj_check_digit (base ++ digit_text first) second_cnpj_check_digit_weights) [
        | none ↦ none
        | some second ↦ some (digit_text first ++ digit_text second)
      ]
]

-- The test on a normalized value; no weight is missing for twelve characters, so the RangeError
-- cannot arise, and the model says `false` for it.
unfoldable pub is_valid_normalized_cnpj : Text → Bool
unfolding has_cnpj_shape cnpj_check_digits text_eq
is_valid_normalized_cnpj normalized =
    if not (has_cnpj_shape normalized) || text_eq normalized (codes "00000000000000")
    then false
    else elim (cnpj_check_digits (take 12 normalized)) [
      | none ↦ false
      | some digits ↦ text_eq (drop 12 normalized) digits
    ]

unfoldable pub is_valid_organization_cnpj : Unicode → Text → Bool
unfolding normalize_organization_cnpj is_valid_normalized_cnpj
is_valid_organization_cnpj u value = is_valid_normalized_cnpj (normalize_organization_cnpj u value)
