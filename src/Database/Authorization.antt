-- ===== src/Database/Authorization.antt =====
-- packages/models/authorization.ts: roles, permissions and their grants, with the constraints of the
-- four tables on one row, and their keys.
use protege_mais.Base.{
  ℕ, ◌≡◌, refl, sym, inl, inr, Bool, true, false, not, ◌&&◌, ◌||◌, Option, none, some, List, [],
  ◌∷◌, map, arith, leb, Bool-cases, and_true, is_none, length, every, ℤ,
}
use mathlib.Core.Path.{subst}
use protege_mais.Text.{codes, member, text_eq→eq, Text, text_eq, is_lower}
use protege_mais.Text.Patterns.{head_then}
use protege_mais.Common.Units.{is_type_char}
use protege_mais.Common.AuthSessions.{is_permission_code, permission_codes}
use protege_mais.Config.Shapes.{split_on}
use protege_mais.Database.Tables.{max_integer}

pub record Role : Type 0 where
  pub id : Text
  pub code : Text
  pub is_system : Bool
  pub is_active : Bool
  pub created_at : ℤ
  pub updated_at : ℤ
  pub version : ℕ

pub record Permission : Type 0 where
  pub id : Text
  pub code : Text
  pub created_at : ℤ

pub record RolePermission : Type 0 where
  pub role_id : Text
  pub permission_id : Text
  pub created_at : ℤ

pub record AccountRole : Type 0 where
  pub id : Text
  pub account_id : Text
  pub role_id : Text
  pub organization_id : Option Text
  pub organization_unit_id : Option Text
  pub created_at : ℤ

-- `^[a-z][a-z0-9_]{0,62}$`
unfoldable pub is_code_part : Text → Bool
unfolding head_then is_lower is_type_char
is_code_part = head_then is_lower is_type_char 0 62

-- `roles_code_check`, `roles_system_state_check`, `roles_version_check`
unfoldable pub role_check : Role → Bool
unfolding is_code_part
role_check r =
    is_code_part r.code
    && (not r.is_system || r.is_active)
    && leb 1 r.version
    && leb r.version max_integer

abbrev pub are_two_parts : List Text → Bool
are_two_parts (a ∷ b ∷ []) = is_code_part a && is_code_part b
are_two_parts other = false

-- `permissions_code_check`: neither part can hold a dot. With the length of the column.
unfoldable pub permission_code_check : Text → Bool
unfolding split_on is_code_part
permission_code_check code = are_two_parts (split_on b'.' code) && leb (length code) 127

-- `account_roles_scope_check`
unfoldable pub scope_check : AccountRole → Bool
scope_check a = is_none a.organization_unit_id || not (is_none a.organization_id)

-- Equal where NULLs are not distinct.
abbrev pub same_option : Option Text → Option Text → Bool
same_option none none = true
same_option none (some b) = false
same_option (some a) none = false
same_option (some a) (some b) = text_eq a b

-- `role_permissions_pkey` and `account_roles_account_role_context_key`: whether two rows collide.
unfoldable pub same_grant : RolePermission → RolePermission → Bool
unfolding text_eq
same_grant a b = text_eq a.role_id b.role_id && text_eq a.permission_id b.permission_id

unfoldable pub same_context : AccountRole → AccountRole → Bool
unfolding text_eq
same_context a b =
    text_eq a.account_id b.account_id
    && text_eq a.role_id b.role_id
    && same_option a.organization_id b.organization_id
    && same_option a.organization_unit_id b.organization_unit_id

unfoldable pub is_role_mutable : Role → Bool
is_role_mutable r = not r.is_system

member_holds :
    (p : Text → Bool) (value : Text) (values : List Text)
    → every p values ≡ true
    → member value values ≡ true
    → p value ≡ true
unfolding member
member_holds p value [] h e = cc
member_holds p value (x ∷ xs) h e =
    let (own, others) = and_true (p x) (every p xs) h in
    elim (Bool-cases (text_eq value x)) [
      | inl same ↦ subst (λ y. p y ≡ true) (sym (text_eq→eq value x same)) own
      | inr other ↦ member_holds p value xs others (ground (arith, e, other))
    ]

-- Every permission that the application knows has a code that the table of permissions accepts.
is_permission_code-permission_code_check :
    (code : Text) → is_permission_code code ≡ true → permission_code_check code ≡ true
unfolding is_permission_code permission_code_check
is_permission_code-permission_code_check code h =
    member_holds permission_code_check code (map codes permission_codes) refl h
