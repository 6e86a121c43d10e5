-- ===== src/Common/Units.antt =====
-- packages/common/organization-units/index.ts. A coordinate is a number of millionths of a degree,
-- or a value that is not finite.
use protege_mais.Base.{
  ℕ, Bool, false, not, ◌&&◌, ◌||◌, Option, none, some, [], ◌∷◌, leb, ◌==◌, keep, ℤ, pos, negsuc,
  leb_ℤ,
}
use protege_mais.Text.{Text, is_space, is_digit, is_upper, is_lower, trim}
use protege_mais.Text.Unicode.{Unicode}
use protege_mais.Text.Patterns.{exactly, head_then, is_address}

unfoldable pub normalize_organization_unit_code : Unicode → Text → Text
unfolding trim
normalize_organization_unit_code u value = u.to_upper_case (trim value)

-- `[A-Z0-9]` and `[A-Z0-9._-]`
unfoldable pub is_code_start : ℕ → Bool
unfolding is_upper is_digit
is_code_start c = is_upper c || is_digit c

unfoldable pub is_code_char : ℕ → Bool
unfolding is_code_start
is_code_char c = is_code_start c || c == b'.' || c == b'_' || c == b'-'

unfoldable pub is_valid_organization_unit_code : Text → Bool
unfolding is_code_start is_code_char head_then
is_valid_organization_unit_code = head_then is_code_start is_code_char 0 62

unfoldable pub normalize_organization_unit_type : Unicode → Text → Text
unfolding trim
normalize_organization_unit_type u value = u.to_lower_case (trim value)

unfoldable pub is_type_char : ℕ → Bool
unfolding is_lower is_digit
is_type_char c = is_lower c || is_digit c || c == b'_'

unfoldable pub is_valid_organization_unit_type : Text → Bool
unfolding is_lower is_type_char head_then
is_valid_organization_unit_type = head_then is_lower is_type_char 0 62

unfoldable pub normalize_organization_unit_contact_email : Unicode → Text → Text
unfolding trim
normalize_organization_unit_contact_email u value = u.to_lower_case (trim value)

unfoldable pub is_valid_organization_unit_contact_email : Text → Bool
unfolding is_address
is_valid_organization_unit_contact_email = is_address

-- `[1-9]`
abbrev pub is_nonzero_digit : ℕ → Bool
is_nonzero_digit c = leb b'1' c && leb c b'9'

-- `^\+[1-9][0-9]{1,14}$`
unfoldable pub is_valid_organization_unit_phone_e164 : Text → Bool
unfolding head_then is_digit
is_valid_organization_unit_phone_e164 [] = false
is_valid_organization_unit_phone_e164 (c ∷ s) =
    c == b'+' && head_then is_nonzero_digit is_digit 1 14 s

-- `.replace(/[\s-]/gu, '')`
unfoldable pub normalize_organization_unit_postal_code : Text → Text
unfolding trim is_space
normalize_organization_unit_postal_code value =
    keep (λ c. not (is_space c || c == b'-')) (trim value)

unfoldable pub is_valid_organization_unit_postal_code : Text → Bool
unfolding exactly is_digit
is_valid_organization_unit_postal_code = exactly is_digit 8

-- A coordinate in millionths of a degree; `none` stands for NaN and the infinities.
unfoldable pub is_valid_organization_unit_position : Option ℤ → Option ℤ → Bool
is_valid_organization_unit_position none latitude = false
is_valid_organization_unit_position (some x) none = false
is_valid_organization_unit_position (some x) (some y) =
    leb_ℤ (negsuc 179999999) x
    && leb_ℤ x (pos 180000000)
    && leb_ℤ (negsuc 89999999) y
    && leb_ℤ y (pos 90000000)
