-- ===== src/Queues/Payload.antt =====
-- packages/plugins/queues/index.ts: `assertPayloadValue`. A value is a tree, so no array or object
-- is its own ancestor and the test for cycles never fires.
pub mod Depth
use protege_mais.Base.{
  ℕ, ◌+◌, Bool, not, ◌||◌, List, [], ◌∷◌, ltb, ◌==◌, if◌then◌else◌, keep, Result, ok, err, ◌>>◌,
  throw_if,
}
use protege_mais.Text.{Text, codes, is_alphanumeric, member, text_eq}
use protege_mais.Text.Unicode.{Unicode}
use protege_mais.Base.Number.{Number, is_finite}
use protege_mais.Common.Errors.{Thrown, range_error, type_error}

-- `plain` is an object that `isRecord` accepts; `exotic` an object that it does not, and
-- `no_json` a value of a type that JSON does not have.
mutual
  pub data Json : Type 0 where
    null_value : Json
    string : Text → Json
    boolean : Bool → Json
    number : Number → Json
    no_json : Json
    exotic : Json
    array : Items → Json
    plain : Members → Json

  pub data Items : Type 0 where
    no_items : Items
    item : Json → Items → Items

  pub data Members : Type 0 where
    no_members : Members
    entry : Text → Json → Members → Members

abbrev pub forbidden_payload_keys : List Text
forbidden_payload_keys =
    codes "accesstoken"
    ∷ codes "address"
    ∷ codes "authorization"
    ∷ codes "buffer"
    ∷ codes "content"
    ∷ codes "coordinates"
    ∷ codes "cpf"
    ∷ codes "email"
    ∷ codes "evidencecontent"
    ∷ codes "file"
    ∷ codes "idempotencykey"
    ∷ codes "latitude"
    ∷ codes "longitude"
    ∷ codes "narrative"
    ∷ codes "password"
    ∷ codes "phone"
    ∷ codes "refreshtoken"
    ∷ codes "report"
    ∷ codes "secret"
    ∷ codes "token"
    ∷ []

-- `key.replaceAll(/[^a-z0-9]/giu, '').toLowerCase()`. With the flags `i` and `u` the class also has
-- the two letters that fold to `s` and `k`: U+017F and U+212A.
abbrev pub is_key_char : ℕ → Bool
is_key_char c = is_alphanumeric c || c == 0x17F || c == 0x212A

unfoldable pub normalized_payload_key : Unicode → Text → Text
unfolding is_alphanumeric
normalized_payload_key u key = u.to_lower_case (keep is_key_char key)

unfoldable pub is_forbidden : Unicode → Text → Bool
unfolding normalized_payload_key
is_forbidden u key = member (normalized_payload_key u key) forbidden_payload_keys

abbrev pub payload_maximum_depth : ℕ
payload_maximum_depth = 12

-- `if (depth > 12) throw …`, before any case.
abbrev pub within_depth : ℕ → Result Thrown (Unit {0}) → Result Thrown (Unit {0})
within_depth depth rest = if ltb payload_maximum_depth depth then err range_error else rest

unfoldable mutual
  unfolding is_forbidden

  pub assert_payload_value : Unicode → Json → ℕ → Result Thrown (Unit {0})
  assert_payload_value u null_value depth = within_depth depth (ok tt)
  assert_payload_value u (string s) depth = within_depth depth (ok tt)
  assert_payload_value u (boolean b) depth = within_depth depth (ok tt)
  assert_payload_value u (number n) depth =
      within_depth depth (throw_if (not (is_finite n)) type_error)
  assert_payload_value u no_json depth = within_depth depth (err type_error)
  assert_payload_value u exotic depth = within_depth depth (err type_error)
  assert_payload_value u (array xs) depth = within_depth depth (assert_items u xs (depth + 1))
  assert_payload_value u (plain ms) depth = within_depth depth (assert_members u ms (depth + 1))

  pub assert_items : Unicode → Items → ℕ → Result Thrown (Unit {0})
  assert_items u no_items depth = ok tt
  assert_items u (item x xs) depth = assert_payload_value u x depth >> assert_items u xs depth

  pub assert_members : Unicode → Members → ℕ → Result Thrown (Unit {0})
  assert_members u no_members depth = ok tt
  assert_members u (entry k x ms) depth =
      throw_if (is_forbidden u k) type_error
      >> (assert_payload_value u x depth >> assert_members u ms depth)
