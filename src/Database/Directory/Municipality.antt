-- ===== src/Database/Directory/Municipality.antt =====
-- packages/common/organizations against packages/models/organizations.ts and organization-units.ts:
-- the application and the tables agree on the municipalities of a state.
use protege_mais.Base.{
  String, ◌≡◌, refl, Bool, true, false, not, ◌&&◌, ◌||◌, Option, none, some, List, [], ◌∷◌, ◌==◌,
  if◌then◌else◌, ==_iff, and_true, is_none, length, take, every,
}
use protege_mais.Text.{Text, codes, text_eq, is_digit, starts_with}
use protege_mais.Text.Unicode.{Unicode}
use protege_mais.Text.Patterns.{exactly}
use protege_mais.Common.Organizations.{
  state_prefixes, prefix_of, is_valid_organization_municipality_code,
  normalize_organization_state_code, normalize_organization_municipality_code,
}
use protege_mais.Database.Directory.{
  state_code_check, municipality_code_check, municipality_state_check,
}

starts_with-take : (s p : Text) → starts_with s p ≡ text_eq (take (length p) s) p
unfolding starts_with text_eq
starts_with-take [] [] = refl
starts_with-take (c ∷ s) [] = refl
starts_with-take [] (d ∷ p) = refl
starts_with-take (c ∷ s) (d ∷ p) = rw (starts_with-take s p) refl

-- Every prefix has two digits.
abbrev is_two : String × String → Bool
is_two (state, prefix) = length (codes prefix) == 2

one_prefix :
    (b : Bool) (own prefix : Text) (others : Option Text)
    → length own ≡ 2
    → (others ≡ some prefix → length prefix ≡ 2)
    → (if b then some own else others) ≡ some prefix
    → length prefix ≡ 2
one_prefix true own prefix others two later e = cc
one_prefix false own prefix others two later e = later e

prefix_two :
    (value : Text) (entries : List (String × String)) (prefix : Text)
    → every is_two entries ≡ true
    → prefix_of value entries ≡ some prefix
    → length prefix ≡ 2
unfolding prefix_of
prefix_two value [] prefix h e = cc
prefix_two value ((state, own) ∷ rest) prefix h e =
    let (two, others) = and_true (length (codes own) == 2) (every is_two rest) h in
    one_prefix (text_eq value (codes state)) (codes own) prefix (prefix_of value rest)
      ((==_iff (length (codes own)) 2).0 two) (prefix_two value rest prefix others) e

absorbed : (a b : Bool) → (a && b) ≡ (a && (not a || b))
absorbed true b = refl
absorbed false b = refl

in_state :
    (code state : Text) (found : Option Text)
    → prefix_of state state_prefixes ≡ found
    → (elim found [
      | none ↦ false
      | some prefix ↦ exactly is_digit 7 code && starts_with code prefix
    ])
      ≡ (not (is_none found)
          && (exactly is_digit 7 code && (elim found [
            | none ↦ true
            | some prefix ↦ not (exactly is_digit 7 code) || text_eq (take 2 code) prefix
          ])))
in_state code state none e = refl
in_state code state (some prefix) e =
    rw (starts_with-take code prefix, prefix_two state state_prefixes prefix refl e)
      (absorbed (exactly is_digit 7 code) (text_eq (take 2 code) prefix))

-- The application accepts a code as that of a municipality of a state exactly if, of the normalized
-- code and state, the three checks of the tables hold: the state is one of Brazil's, the code has
-- seven digits, and it begins with the two digits of the state.
pub is_valid_organization_municipality_code_lem :
    (u : Unicode) (value state : Text)
    → is_valid_organization_municipality_code u value state ≡ (
        state_code_check (normalize_organization_state_code u state)
        && (municipality_code_check (normalize_organization_municipality_code value)
            && municipality_state_check
                (normalize_organization_municipality_code value)
                (normalize_organization_state_code u state)))
unfolding is_valid_organization_municipality_code state_code_check municipality_code_check
    municipality_state_check
is_valid_organization_municipality_code_lem u value state =
    in_state (normalize_organization_municipality_code value)
      (normalize_organization_state_code u state)
      (prefix_of (normalize_organization_state_code u state) state_prefixes) refl
