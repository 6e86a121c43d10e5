-- ===== src/Logging/Once.antt =====
-- packages/plugins/logging/sanitization.ts: no object is entered twice.
use protege_mais.Base.{
  ℕ, suc, ◌≤◌, ◌≡◌, refl, inl, inr, Bool, false, none, some, List, [], ◌∷◌, arith, ◌==◌,
  if◌then◌else◌, Bool-cases, count,
}
use mathlib.Core.Path.{subst}
use protege_mais.Text.{Text}
use protege_mais.Logging.Entered.{Has, Has-enter, internal-Entered, seen_after, second_time}
use protege_mais.Logging.Cycles.{blind, blind_inside}
use protege_mais.Logging.Sanitization.{
  LogValue, object, Heap, Seen, sanitize_leaf, sanitize_inside, has_seen, sanitize_internal,
  circular_log_value, text,
}

-- How often an object was entered.
abbrev pub entries_of : ℕ → Seen → ℕ
entries_of id = count (λ other. other == id)

abbrev AtMostOnce : ℕ → Seen → Type 0
AtMostOnce id seen = entries_of id seen ≤ 1

entries_of-new : (id : ℕ) (seen : Seen) → has_seen id seen ≡ false → entries_of id seen ≡ 0
entries_of-new id [] h = refl
entries_of-new id (other ∷ seen) h = ground (arith, h, entries_of-new id seen (ground (arith, h)))

AtMostOnce-enter :
    (id other : ℕ) (seen : Seen)
    → has_seen other seen ≡ false
    → AtMostOnce id seen
    → AtMostOnce id (other ∷ seen)
AtMostOnce-enter id other seen new h = elim (Bool-cases (other == id)) [
  | inl same ↦
      let equal : other ≡ id = ground (arith, same) in
      let none_yet = entries_of-new id seen (subst (λ x. has_seen x seen ≡ false) equal new) in
      rw same (omega (arith, none_yet))
  | inr different ↦ rw different h
]

entries_of-Has : (id : ℕ) (seen : Seen) → Has id seen → 1 ≤ entries_of id seen
entries_of-Has id [] h = cc
entries_of-Has id (other ∷ seen) h = elim (Bool-cases (other == id)) [
  | inl same ↦ rw same (omega arith)
  | inr different ↦ rw different (entries_of-Has id seen (ground (arith, h, different)))
]

-- What is sanitized after one another, each value at its depth.
abbrev pub sanitize_each : (Text → Bool) → Heap → List (ℕ × LogValue) → Seen → Seen
sanitize_each sensitive heap [] seen = seen
sanitize_each sensitive heap ((left, value) ∷ values) seen =
    sanitize_each sensitive heap values (sanitize_internal sensitive heap left value seen).1

module _ (sensitive : Text → Bool) (heap : Heap) (id : ℕ) where
  each-Has :
      (values : List (ℕ × LogValue)) (seen : Seen)
      → Has id seen
      → Has id (sanitize_each sensitive heap values seen)
  each-Has [] seen h = h
  each-Has ((left, value) ∷ values) seen h =
      each-Has values (sanitize_internal sensitive heap left value seen).1
        (internal-Entered (Has id) (Has-enter id) sensitive heap left value seen h)

  each-AtMostOnce :
      (values : List (ℕ × LogValue)) (seen : Seen)
      → AtMostOnce id seen
      → AtMostOnce id (sanitize_each sensitive heap values seen)
  each-AtMostOnce [] seen h = h
  each-AtMostOnce ((left, value) ∷ values) seen h =
      each-AtMostOnce values (sanitize_internal sensitive heap left value seen).1
        (internal-Entered (AtMostOnce id) (AtMostOnce-enter id) sensitive heap left value seen h)

  -- However the values of a heap refer to one another: an array or a plain object that is sanitized
  -- above the maximum depth, among whatever else is sanitized before and after it in the same call of
  -- `sanitizeLogValue`, has then been entered exactly once. Where it was not entered before, it becomes
  -- what a traversal makes of its content that takes every reference to it for a cycle without
  -- looking, at every depth but the deepest. And from then on a reference to it is the mark of a cycle,
  -- at every depth but the deepest, and enters nothing.
  pub sanitize_internal_again :
      (before between : List (ℕ × LogValue)) (left later : ℕ)
      → sanitize_leaf (heap id) ≡ none
      → let first = sanitize_each sensitive heap before [] in
        let seen =
          sanitize_each sensitive heap between
            (sanitize_internal sensitive heap (suc left) (object id) first).1 in
        (entries_of id seen ≡ 1)
        × (sanitize_internal sensitive heap (suc left) (object id) first ≡ (
            if has_seen id first
            then (some (text circular_log_value), first)
            else sanitize_inside sensitive (blind sensitive heap id left) (heap id) (id ∷ first)))
        × (sanitize_internal sensitive heap (suc later) (object id) seen
            ≡ (some (text circular_log_value), seen))
  unfolding sanitize_internal
  sanitize_internal_again before between left later entered =
      let first = sanitize_each sensitive heap before [] in
      let after = (sanitize_internal sensitive heap (suc left) (object id) first).1 in
      let seen = sanitize_each sensitive heap between after in
      let keeping = internal-Entered (Has id) (Has-enter id) sensitive heap left in
      let has = each-Has between after (
        seen_after sensitive heap id (sanitize_internal sensitive heap left) first entered
          keeping) in
      let once = each-AtMostOnce between after (
        internal-Entered (AtMostOnce id) (AtMostOnce-enter id) sensitive heap (suc left) (object id)
          first (each-AtMostOnce before [] (omega arith))) in
      (
        omega (arith, once, entries_of-Has id seen has),
        blind_inside sensitive heap id entered left first,
        second_time sensitive heap id (sanitize_internal sensitive heap later) seen entered has,
      )
