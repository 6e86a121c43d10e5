-- ===== src/Logging/Fits.antt =====
-- packages/plugins/logging/sanitization.ts: what `sanitizeLogValue` may hand to the logger.
use protege_mais.Base.{
  ℕ, zero, suc, ◌+◌, ◌≤◌, ◌≡◌, refl, sym, inl, inr, Bool, false, not, ◌&&◌, arith, Bool-cases,
}
use protege_mais.Text.{Text, text_eq, text_eq→eq}
use mathlib.Core.Path.{subst}
use protege_mais.Logging.Patterns.{redacted_log_value}
use protege_mais.Logging.Sanitization.{
  Logged, LoggedItems, LoggedMembers, text, absent, empty, flag, numeral, items, members, no_items,
  item, no_members, entry, assign, push, is_prototype_key,
}

abbrev pub is_redacted : Logged → Bool
is_redacted (text t) = text_eq t redacted_log_value
is_redacted other = false

abbrev pub item_count : LoggedItems → ℕ
item_count no_items = 0
item_count (item v rest) = suc (item_count rest)

abbrev pub member_count : LoggedMembers → ℕ
member_count no_members = 0
member_count (entry k v rest) = suc (member_count rest)

-- At most `height` levels of lists and objects, each of at most 101 entries; under a sensitive key
-- only the mark of a redaction, and nothing under the keys of a prototype.
abbrev mutual
  pub Fits : (Text → Bool) → (height : ℕ) → Logged → Type 0
  Fits sensitive height (text t) = Unit
  Fits sensitive height absent = Unit
  Fits sensitive height empty = Unit
  Fits sensitive height (flag b) = Unit
  Fits sensitive height (numeral n) = Unit
  Fits sensitive zero (items xs) = 1 ≤ 0
  Fits sensitive (suc height) (items xs) = (item_count xs ≤ 101) × FitItems sensitive height xs
  Fits sensitive zero (members xs) = 1 ≤ 0
  Fits sensitive (suc height) (members xs) =
      (member_count xs ≤ 101) × FitMembers sensitive height xs

  pub FitItems : (Text → Bool) → (height : ℕ) → LoggedItems → Type 0
  FitItems sensitive height no_items = Unit
  FitItems sensitive height (item v rest) = Fits sensitive height v × FitItems sensitive height rest

  pub FitMembers : (Text → Bool) → (height : ℕ) → LoggedMembers → Type 0
  FitMembers sensitive height no_members = Unit
  FitMembers sensitive height (entry k v rest) =
      (is_prototype_key k ≡ false)
      × ((sensitive k && not (is_redacted v)) ≡ false)
      × Fits sensitive height v
      × FitMembers sensitive height rest

module _ (sensitive : Text → Bool) (height : ℕ) where
  pub push-FitItems :
      (v : Logged) (xs : LoggedItems)
      → Fits sensitive height v
      → FitItems sensitive height xs
      → FitItems sensitive height (push v xs) × (item_count (push v xs) ≡ item_count xs + 1)
  push-FitItems v no_items fv fx = ((fv, tt), refl)
  push-FitItems v (item x xs) fv (fx, fxs) =
      let (a, b) = push-FitItems v xs fv fxs in ((fx, a), omega (arith, b))

  pub assign-FitMembers :
      (k : Text) (v : Logged) (xs : LoggedMembers)
      → is_prototype_key k ≡ false
      → (sensitive k && not (is_redacted v)) ≡ false
      → Fits sensitive height v
      → FitMembers sensitive height xs
      → FitMembers sensitive height (assign k v xs)
        × (member_count (assign k v xs) ≤ member_count xs + 1)
  assign-FitMembers k v no_members own safe fv fx = ((own, safe, fv, tt), omega arith)
  assign-FitMembers k v (entry x w xs) own safe fv (own', safe', fw, fxs) =
      elim (Bool-cases (text_eq x k)) [
        | inl same ↦ rw same (
          (
            own',
            subst (λ y. (sensitive y && not (is_redacted v)) ≡ false) (sym (text_eq→eq x k same))
                safe,
            fv,
            fxs,
          ),
          omega arith,
        )
        | inr other ↦
            let (a, b) = assign-FitMembers k v xs own safe fv fxs in
            rw other ((own', safe', fw, a), omega (arith, b))
      ]
