-- ===== src/Database/Directory/Public.antt =====
-- packages/models/organizations.ts, organization-units.ts and organization-members.ts: what leaves
-- the application of a row.
use protege_mais.Base.{ℕ, Bool, Option, ℤ}
use protege_mais.Text.{Text}
use protege_mais.Database.Directory.{Organization, OrganizationUnit, OrganizationMember}

pub record PublicOrganization : Type 0 where
  pub id : Text
  pub name : Text
  pub type : Text
  pub state_code : Text
  pub municipality_code : Text
  pub is_active : Bool
  pub integration_enabled : Bool
  pub created_at : ℤ
  pub updated_at : ℤ
  pub version : ℕ

unfoldable pub serialize_public_organization : Organization → PublicOrganization
serialize_public_organization o = record {
  id = o.id;
  name = o.name;
  type = o.type;
  state_code = o.state_code;
  municipality_code = o.municipality_code;
  is_active = o.is_active;
  integration_enabled = o.integration_enabled;
  created_at = o.created_at;
  updated_at = o.updated_at;
  version = o.version;
}

pub record PublicOrganizationUnit : Type 0 where
  pub id : Text
  pub organization_id : Text
  pub name : Text
  pub code : Text
  pub type : Text
  pub is_active : Bool
  pub created_at : ℤ
  pub updated_at : ℤ
  pub version : ℕ

unfoldable pub serialize_public_organization_unit : OrganizationUnit → PublicOrganizationUnit
serialize_public_organization_unit x = record {
  id = x.id;
  organization_id = x.organization_id;
  name = x.name;
  code = x.code;
  type = x.type;
  is_active = x.is_active;
  created_at = x.created_at;
  updated_at = x.updated_at;
  version = x.version;
}

pub record PublicOrganizationMember : Type 0 where
  pub id : Text
  pub account_id : Text
  pub organization_id : Text
  pub organization_unit_id : Option Text
  pub job_title : Option Text
  pub is_active : Bool
  pub created_at : ℤ
  pub updated_at : ℤ
  pub version : ℕ

unfoldable pub serialize_public_organization_member : OrganizationMember → PublicOrganizationMember
serialize_public_organization_member m = record {
  id = m.id;
  account_id = m.account_id;
  organization_id = m.organization_id;
  organization_unit_id = m.organization_unit_id;
  job_title = m.job_title;
  is_active = m.is_active;
  created_at = m.created_at;
  updated_at = m.updated_at;
  version = m.version;
}
