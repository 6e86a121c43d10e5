-- ===== src/Database/Directory/Rows.antt =====
-- packages/models/organizations.ts, organization-units.ts and organization-members.ts: the rows.
use protege_mais.Base.{ℕ, Bool, Option, ℤ}
use protege_mais.Text.{Text}

pub record Organization : Type 0 where
  pub id : Text
  pub name : Text
  pub name_normalized : Text
  pub legal_name : Text
  pub legal_name_normalized : Text
  pub type : Text
  pub cnpj : Text
  pub state_code : Text
  pub municipality_code : Text
  pub is_active : Bool
  pub integration_enabled : Bool
  pub created_at : ℤ
  pub updated_at : ℤ
  pub version : ℕ
  pub deleted_at : Option ℤ

pub record OrganizationUnit : Type 0 where
  pub id : Text
  pub organization_id : Text
  pub name : Text
  pub name_normalized : Text
  pub code : Text
  pub type : Text
  pub contact_email : Option Text
  pub contact_phone_e164 : Option Text
  pub address_street : Text
  pub address_number : Text
  pub address_complement : Option Text
  pub address_district : Text
  pub postal_code : Text
  pub state_code : Text
  pub municipality_code : Text
  pub longitude : Option ℤ
  pub latitude : Option ℤ
  pub is_active : Bool
  pub created_at : ℤ
  pub updated_at : ℤ
  pub version : ℕ
  pub deleted_at : Option ℤ

pub record OrganizationMember : Type 0 where
  pub id : Text
  pub account_id : Text
  pub organization_id : Text
  pub organization_unit_id : Option Text
  pub registration_number : Option Text
  pub job_title : Option Text
  pub is_active : Bool
  pub created_at : ℤ
  pub updated_at : ℤ
  pub version : ℕ
