-- ===== src/Common/Organizations.antt =====
-- packages/common/organizations/index.ts and organization-members/index.ts: names, the CNPJ with
-- its check digits, and the IBGE code of a municipality.
use protege_mais.Base.{
  ℕ, String, Bool, false, not, ◌&&◌, Option, none, some, List, [], ◌∷◌, ltb, leb, if◌then◌else◌,
  is_none, length, any,
}
use protege_mais.Text.{
  Text, codes, text_eq, is_space, is_digit, is_upper, is_control, trim, collapse_spaces,
  starts_with,
}
use protege_mais.Text.Unicode.{Unicode}
use protege_mais.Text.Patterns.{exactly}
pub mod Cnpj

unfoldable pub normalize_whitespace : Text → Text
unfolding collapse_spaces trim
normalize_whitespace value = collapse_spaces (trim value)

unfoldable pub normalize_organization_name : Text → Text
unfolding normalize_whitespace
normalize_organization_name = normalize_whitespace

unfoldable pub normalize_organization_search_text : Unicode → Text → Text
unfolding normalize_organization_name
normalize_organization_search_text u value = u.to_lower_case (normalize_organization_name value)

-- `brazilianStateMunicipalityPrefixes`
abbrev pub state_prefixes : List (String × String)
state_prefixes =
    ("AC", "12")
    ∷ ("AL", "27")
    ∷ ("AP", "16")
    ∷ ("AM", "13")
    ∷ ("BA", "29")
    ∷ ("CE", "23")
    ∷ ("DF", "53")
    ∷ ("ES", "32")
    ∷ ("GO", "52")
    ∷ ("MA", "21")
    ∷ ("MT", "51")
    ∷ ("MS", "50")
    ∷ ("MG", "31")
    ∷ ("PA", "15")
    ∷ ("PB", "25")
    ∷ ("PR", "41")
    ∷ ("PE", "26")
    ∷ ("PI", "22")
    ∷ ("RJ", "33")
    ∷ ("RN", "24")
    ∷ ("RS", "43")
    ∷ ("RO", "11")
    ∷ ("RR", "14")
    ∷ ("SC", "42")
    ∷ ("SP", "35")
    ∷ ("SE", "28")
    ∷ ("TO", "17")
    ∷ []

-- `brazilianStateMunicipalityPrefixes[code]`, if the code is one of its own keys.
unfoldable pub prefix_of : Text → List (String × String) → Option Text
unfolding text_eq
prefix_of value [] = none
prefix_of value ((state, prefix) ∷ rest) =
    if text_eq value (codes state) then some (codes prefix) else prefix_of value rest

unfoldable pub normalize_organization_state_code : Unicode → Text → Text
unfolding trim
normalize_organization_state_code u value = u.to_upper_case (trim value)

unfoldable pub is_brazilian_state_code : Text → Bool
unfolding prefix_of
is_brazilian_state_code value = not (is_none (prefix_of value state_prefixes))

unfoldable pub normalize_organization_municipality_code : Text → Text
unfolding trim
normalize_organization_municipality_code = trim

unfoldable pub is_valid_organization_municipality_code : Unicode → Text → Text → Bool
unfolding normalize_organization_state_code normalize_organization_municipality_code prefix_of
    exactly is_digit starts_with
is_valid_organization_municipality_code u value state_code =
    let code = normalize_organization_municipality_code value in
    elim (prefix_of (normalize_organization_state_code u state_code) state_prefixes) [
      | none ↦ false
      | some prefix ↦ exactly is_digit 7 code && starts_with code prefix
    ]

-- organization-members: `normalizeOrganizationMemberText`, of a registration number and a job title.
unfoldable pub normalize_organization_member_text : Text → Text
unfolding collapse_spaces trim
normalize_organization_member_text value = collapse_spaces (trim value)

unfoldable pub is_valid_normalized_text : Text → ℕ → Bool
unfolding normalize_organization_member_text is_control text_eq
is_valid_normalized_text value maximum =
    ltb 0 (length value)
    && leb (length value) maximum
    && not (any is_control value)
    && text_eq value (normalize_organization_member_text value)

unfoldable pub is_valid_organization_member_registration_number : Text → Bool
unfolding is_valid_normalized_text
is_valid_organization_member_registration_number value = is_valid_normalized_text value 63

unfoldable pub is_valid_organization_member_job_title : Text → Bool
unfolding is_valid_normalized_text
is_valid_organization_member_job_title value = is_valid_normalized_text value 160
