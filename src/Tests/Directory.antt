-- ===== src/Tests/Directory.antt =====
-- The theorems on organizations, their units and permissions.
use protege_mais.Base.{◌≡◌, refl, true, ◌&&◌, [], ◌∷◌, ok}
use protege_mais.Text.{codes}
use protege_mais.Text.Unicode.{ascii_only}
use protege_mais.Common.Organizations.{
  is_valid_organization_municipality_code, normalize_organization_state_code,
  normalize_organization_municipality_code,
}
use protege_mais.Common.Organizations.Cnpj.{is_valid_organization_cnpj, normalize_organization_cnpj}
use protege_mais.Database.Directory.{
  cnpj_format_check, cnpj_check_digits_check, state_code_check, municipality_code_check,
  municipality_state_check,
}
use protege_mais.Database.Directory.Cnpj.{is_valid_organization_cnpj_lem}
use protege_mais.Database.Directory.Municipality.{is_valid_organization_municipality_code_lem}
use protege_mais.Database.Directory.Position.{
  OrganizationUnitPosition, parse_organization_unit_position,
}
use protege_mais.Database.Directory.Position.Ewkb.{ewkb, parse_organization_unit_position-ewkb}

is_valid_organization_cnpj_lem_example :
    is_valid_organization_cnpj ascii_only (codes "12.abc.345/01de-35") ≡ (
      cnpj_format_check (normalize_organization_cnpj ascii_only (codes "12.abc.345/01de-35"))
      && cnpj_check_digits_check
          (normalize_organization_cnpj ascii_only (codes "12.abc.345/01de-35")))
is_valid_organization_cnpj_lem_example =
    is_valid_organization_cnpj_lem ascii_only (codes "12.abc.345/01de-35")

is_valid_organization_municipality_code_lem_example :
    is_valid_organization_municipality_code ascii_only (codes " 3550308") (codes "sp") ≡ (
      state_code_check (normalize_organization_state_code ascii_only (codes "sp"))
      && (municipality_code_check (normalize_organization_municipality_code (codes " 3550308"))
          && municipality_state_check
              (normalize_organization_municipality_code (codes " 3550308"))
              (normalize_organization_state_code ascii_only (codes "sp"))))
is_valid_organization_municipality_code_lem_example =
    is_valid_organization_municipality_code_lem ascii_only (codes " 3550308") (codes "sp")

abbrev square : OrganizationUnitPosition
square = record {
  longitude = 0xc0 ∷ 0x47 ∷ 0x51 ∷ 0 ∷ 0 ∷ 0 ∷ 0 ∷ 1 ∷ [];
  latitude = 0xc0 ∷ 0x37 ∷ 0x8c ∷ 0 ∷ 0 ∷ 0 ∷ 0 ∷ 2 ∷ [];
}

parse_organization_unit_position-ewkb_example :
    parse_organization_unit_position (ewkb true square) ≡ ok square
parse_organization_unit_position-ewkb_example =
    parse_organization_unit_position-ewkb true square refl refl refl refl
