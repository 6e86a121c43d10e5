-- ===== src/Queues/Payload/Depth.antt =====
-- packages/plugins/queues/index.ts: which payloads `assertPayloadValue` accepts.
use protege_mais.Base.{
  ℕ, suc, ◌+◌, ◌≡◌, refl, inl, inr, Bool, true, false, not, ◌&&◌, arith, leb, if◌then◌else◌,
  Bool-cases, Result, ok, err, ◌>>◌, succeeds,
}
use protege_mais.Text.Unicode.{Unicode}
use protege_mais.Base.Number.{is_finite}
use protege_mais.Common.Errors.{Thrown}
use protege_mais.Queues.Payload.{
  Json, Items, Members, null_value, string, boolean, number, no_json, exotic, array, plain,
  no_items, item, no_members, entry, is_forbidden, assert_payload_value, assert_items,
  assert_members,
}

abbrev pub larger : ℕ → ℕ → ℕ
larger a b = if leb a b then b else a

unfoldable mutual
  -- How many arrays and objects stand around the deepest value.
  pub height : Json → ℕ
  height null_value = 0
  height (string s) = 0
  height (boolean b) = 0
  height (number n) = 0
  height no_json = 0
  height exotic = 0
  height (array xs) = height_items xs
  height (plain ms) = height_members ms

  pub height_items : Items → ℕ
  height_items no_items = 0
  height_items (item x xs) = larger (suc (height x)) (height_items xs)

  pub height_members : Members → ℕ
  height_members no_members = 0
  height_members (entry k x ms) = larger (suc (height x)) (height_members ms)

unfoldable mutual
  unfolding is_forbidden

  -- No forbidden key, no infinite number and nothing that is not JSON, at any depth.
  pub is_clean : Unicode → Json → Bool
  is_clean u null_value = true
  is_clean u (string s) = true
  is_clean u (boolean b) = true
  is_clean u (number n) = is_finite n
  is_clean u no_json = false
  is_clean u exotic = false
  is_clean u (array xs) = items_clean u xs
  is_clean u (plain ms) = members_clean u ms

  pub items_clean : Unicode → Items → Bool
  items_clean u no_items = true
  items_clean u (item x xs) = is_clean u x && items_clean u xs

  pub members_clean : Unicode → Members → Bool
  members_clean u no_members = true
  members_clean u (entry k x ms) = not (is_forbidden u k) && (is_clean u x && members_clean u ms)

succeeds_then : (m k : Result Thrown (Unit {0})) → succeeds (m >> k) ≡ (succeeds m && succeeds k)
succeeds_then (ok tt) k = refl
succeeds_then (err e) k = refl

mutual
  unfolding assert_payload_value assert_items assert_members height height_items height_members
      is_clean items_clean members_clean

  assert_value_iff :
      (u : Unicode) (x : Json) (d : ℕ)
      → succeeds (assert_payload_value u x d) ≡ (leb (d + height x) 12 && is_clean u x)
  assert_value_iff u null_value d = ground arith
  assert_value_iff u (string s) d = ground arith
  assert_value_iff u (boolean b) d = ground arith
  assert_value_iff u (number n) d = ground arith
  assert_value_iff u no_json d = ground arith
  assert_value_iff u exotic d = ground arith
  assert_value_iff u (array xs) d = ground (arith, assert_items_iff u xs d)
  assert_value_iff u (plain ms) d = ground (arith, assert_members_iff u ms d)

  assert_items_iff :
      (u : Unicode) (xs : Items) (d : ℕ)
      → leb d 12 && succeeds (assert_items u xs (d + 1))
        ≡ (leb (d + height_items xs) 12 && items_clean u xs)
  assert_items_iff u no_items d = ground arith
  assert_items_iff u (item x xs) d =
      rw
        (
          succeeds_then (assert_payload_value u x (d + 1)) (assert_items u xs (d + 1)),
          assert_value_iff u x (d + 1),
        )
        (ground (arith, assert_items_iff u xs d))

  assert_members_iff :
      (u : Unicode) (ms : Members) (d : ℕ)
      → leb d 12 && succeeds (assert_members u ms (d + 1))
        ≡ (leb (d + height_members ms) 12 && members_clean u ms)
  assert_members_iff u no_members d = ground arith
  assert_members_iff u (entry k x ms) d = elim (Bool-cases (is_forbidden u k)) [
    | inl bad ↦ ground (arith, bad)
    | inr fine ↦
        rw
          (
            fine,
            succeeds_then (assert_payload_value u x (d + 1)) (assert_members u ms (d + 1)),
            assert_value_iff u x (d + 1),
          )
          (ground (arith, assert_members_iff u ms d))
  ]

-- A payload passes exactly if it is nested no deeper than twelve levels and nowhere in it stands a
-- forbidden key, a number that is not finite or a value that is not JSON.
pub assert_payload_lem :
    (u : Unicode) (x : Json)
    → succeeds (assert_payload_value u x 0) ≡ (leb (height x) 12 && is_clean u x)
assert_payload_lem u x = ground (arith, assert_value_iff u x 0)
