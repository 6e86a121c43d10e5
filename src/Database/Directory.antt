-- ===== src/Database/Directory.antt =====
-- packages/models/organizations.ts, organization-units.ts, organization-members.ts and
-- authorization.ts: the rows, the constraints of their tables and the functions over them. The types
-- of organizations are texts; `lower`, `upper` and the classes of characters are PostgreSQL's. A
-- coordinate is a number of millionths of a degree, or `none`, which no comparison accepts.
pub mod Public
pub mod Cnpj
pub mod Municipality
pub mod Position
mod Rows
pub use Rows.*
use protege_mais.Base.{
  ℕ, ◌+◌, ◌-◌, ◌*◌, ◌%◌, Bool, true, false, not, ◌&&◌, ◌||◌, Option, none, some, [], ◌∷◌, ltb, leb,
  ◌==◌, if◌then◌else◌, is_none, length, take, every, any, ℤ, pos, ◌-ℤ◌, leb_ℤ,
}
use protege_mais.Text.{Text, codes, text_eq, is_digit, is_lower}
use protege_mais.Text.Patterns.{exactly, head_then}
use protege_mais.Common.Organizations.{state_prefixes, prefix_of}
use protege_mais.Common.Organizations.Cnpj.{has_cnpj_shape}
use protege_mais.Common.Units.{
  is_code_start, is_code_char, is_type_char, is_valid_organization_unit_phone_e164,
}
use protege_mais.Database.Tables.{Locale, is_btrimmed, null_or, max_integer}

-- One term of a sum of check digits: `(ascii(substr(cnpj, i, 1)) - 48) * w`. The sums are asked for
-- only of texts in the shape of a CNPJ, whose characters are not below `0`.
abbrev pub term : ℕ → ℕ → ℕ
term c w = (c - 48) * w

-- `CASE WHEN mod(sum, 11) < 2 THEN 0 ELSE 11 - mod(sum, 11) END`
abbrev pub digit_of_sum : ℕ → ℕ
digit_of_sum sum = if ltb (sum % 11) 2 then 0 else 11 - sum % 11

-- `organizations_cnpj_format_check`
unfoldable pub cnpj_format_check : Text → Bool
unfolding has_cnpj_shape text_eq
cnpj_format_check cnpj = has_cnpj_shape cnpj && not (text_eq cnpj (codes "00000000000000"))

-- The condition of `organizations_cnpj_check_digits_check` on fourteen characters.
abbrev pub digits_agree : Text → Bool
digits_agree (c₁ ∷ c₂ ∷ c₃ ∷ c₄ ∷ c₅ ∷ c₆ ∷ c₇ ∷ c₈ ∷ c₉ ∷ c₁₀ ∷ c₁₁ ∷ c₁₂ ∷ c₁₃ ∷ c₁₄ ∷ []) =
    (c₁₃ - 48
      == digit_of_sum (
          term c₁ 5
          + term c₂ 4
          + term c₃ 3
          + term c₄ 2
          + term c₅ 9
          + term c₆ 8
          + term c₇ 7
          + term c₈ 6
          + term c₉ 5
          + term c₁₀ 4
          + term c₁₁ 3
          + term c₁₂ 2))
    && (c₁₄ - 48
        == digit_of_sum (
            term c₁ 6
            + term c₂ 5
            + term c₃ 4
            + term c₄ 3
            + term c₅ 2
            + term c₆ 9
            + term c₇ 8
            + term c₈ 7
            + term c₉ 6
            + term c₁₀ 5
            + term c₁₁ 4
            + term c₁₂ 3
            + term c₁₃ 2))
digits_agree other = false

-- `organizations_cnpj_check_digits_check`
unfoldable pub cnpj_check_digits_check : Text → Bool
unfolding has_cnpj_shape
cnpj_check_digits_check cnpj = not (has_cnpj_shape cnpj) || digits_agree cnpj

-- `…_state_code_check`
unfoldable pub state_code_check : Text → Bool
unfolding prefix_of
state_code_check state = not (is_none (prefix_of state state_prefixes))

-- `…_municipality_code_check`
unfoldable pub municipality_code_check : Text → Bool
unfolding exactly is_digit
municipality_code_check = exactly is_digit 7

-- `…_municipality_state_check`: for another state the CASE is NULL, and so is the comparison, which
-- refuses no row.
unfoldable pub municipality_state_check : Text → Text → Bool
unfolding exactly is_digit prefix_of text_eq
municipality_state_check code state = elim (prefix_of state state_prefixes) [
  | none ↦ true
  | some prefix ↦ not (exactly is_digit 7 code) || text_eq (take 2 code) prefix
]

abbrev pub positive_version : ℕ → Bool
positive_version v = leb 1 v && leb v max_integer

-- `btrim(x)`: plain spaces only.
abbrev pub is_plain_space : ℕ → Bool
is_plain_space c = c == 0x20

abbrev pub ltrim : Text → Text
ltrim [] = []
ltrim (c ∷ s) = if is_plain_space c then ltrim s else c ∷ s

abbrev pub rtrim_onto : ℕ → Text → Text
rtrim_onto c [] = if is_plain_space c then [] else c ∷ []
rtrim_onto c (d ∷ s) = c ∷ d ∷ s

abbrev pub rtrim : Text → Text
rtrim [] = []
rtrim (c ∷ s) = rtrim_onto c (rtrim s)

abbrev pub btrim : Text → Text
btrim s = rtrim (ltrim s)

-- `x BETWEEN -most AND most`, in millionths.
abbrev pub is_between : ℕ → Option ℤ → Bool
is_between most none = false
is_between most (some x) = leb_ℤ (pos 0 -ℤ pos most) x && leb_ℤ x (pos most)

-- `[[:space:]]{2,}`
unfoldable pub has_double : (ℕ → Bool) → Text → Bool
has_double p [] = false
has_double p (c ∷ []) = false
has_double p (c ∷ d ∷ s) = (p c && p d) || has_double p (d ∷ s)

module _ (pg : Locale) (lower upper : Text → Text) where
  -- `char_length(x) > 0 AND x = btrim(x) AND x !~ '[[:cntrl:]]' AND x !~ '[[:space:]]{2,}'`
  unfoldable pub written_check : Text → Bool
  unfolding is_btrimmed has_double
  written_check x =
      leb 1 (length x) && is_btrimmed x && not (any pg.pg_cntrl x) && not (has_double pg.pg_space x)

  -- The check of a name and its normalized form.
  unfoldable pub name_check : Text → Text → Bool
  unfolding written_check text_eq
  name_check name normalized = written_check name && text_eq normalized (lower name)

  -- Every check of `organizations`, and the lengths of its columns.
  unfoldable pub organization_check : Organization → Bool
  unfolding name_check cnpj_format_check cnpj_check_digits_check state_code_check
      municipality_code_check municipality_state_check
  organization_check o =
      name_check o.name o.name_normalized
      && name_check o.legal_name o.legal_name_normalized
      && cnpj_format_check o.cnpj
      && cnpj_check_digits_check o.cnpj
      && state_code_check o.state_code
      && municipality_code_check o.municipality_code
      && municipality_state_check o.municipality_code o.state_code
      && positive_version o.version
      && leb (length o.name) 160
      && leb (length o.name_normalized) 160
      && leb (length o.legal_name) 255
      && leb (length o.legal_name_normalized) 255

  -- `^[^@[:space:]]+@[^@[:space:]]+$`, with the behaviour of the source's own expression on the class
  -- of PostgreSQL.
  abbrev pub is_pg_address : Bool → Text → Bool
  is_pg_address seen [] = false
  is_pg_address seen (c ∷ s) =
      if c == b'@'
      then seen && every (λ d. not (d == b'@') && not (pg.pg_space d)) s && leb 1 (length s)
      else not (pg.pg_space c) && is_pg_address true s

  -- Every check of `organization_units` but the lengths of its columns.
  unfoldable pub organization_unit_check : OrganizationUnit → Bool
  unfolding name_check written_check is_btrimmed head_then is_code_start is_code_char is_type_char
      is_lower is_valid_organization_unit_phone_e164 exactly is_digit state_code_check
      municipality_code_check municipality_state_check text_eq
  organization_unit_check x =
      name_check x.name x.name_normalized
      && text_eq x.code (upper (btrim x.code))
      && head_then is_code_start is_code_char 0 62 x.code
      && text_eq x.type (lower (btrim x.type))
      && head_then is_lower is_type_char 0 62 x.type
      && null_or (λ e. text_eq e (lower (btrim e)) && is_pg_address false e) x.contact_email
      && null_or is_valid_organization_unit_phone_e164 x.contact_phone_e164
      && written_check x.address_street
      && written_check x.address_number
      && null_or written_check x.address_complement
      && written_check x.address_district
      && exactly is_digit 8 x.postal_code
      && state_code_check x.state_code
      && municipality_code_check x.municipality_code
      && municipality_state_check x.municipality_code x.state_code
      && is_between 180000000 x.longitude
      && is_between 90000000 x.latitude
      && positive_version x.version

  -- Every check of `organization_members`, and the lengths of its columns.
  unfoldable pub organization_member_check : OrganizationMember → Bool
  unfolding written_check
  organization_member_check m =
      null_or (λ x. written_check x && leb (length x) 63) m.registration_number
      && null_or (λ x. written_check x && leb (length x) 160) m.job_title
      && positive_version m.version

-- `isOrganizationOperational`, `isOrganizationUnitOperational` and `isOrganizationMemberActive`
unfoldable pub is_organization_operational : Organization → Bool
is_organization_operational o = o.is_active && is_none o.deleted_at

unfoldable pub is_organization_unit_operational : OrganizationUnit → Organization → Bool
is_organization_unit_operational x o =
    x.is_active && is_none x.deleted_at && o.is_active && is_none o.deleted_at

unfoldable pub is_organization_member_active : OrganizationMember → Bool
is_organization_member_active m = m.is_active
