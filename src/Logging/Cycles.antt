-- ===== src/Logging/Cycles.antt =====
-- packages/plugins/logging/sanitization.ts: inside an object that is being sanitized, every reference
-- to it is the mark of a cycle.
use protege_mais.Base.{
  ℕ, zero, suc, ◌≡◌, refl, ap, inl, inr, Bool, none, some, List, [], ◌∷◌, arith, ◌==◌,
  if◌then◌else◌, Bool-cases, take,
}
use mathlib.Core.Path.{subst}
use protege_mais.Text.{Text}
use protege_mais.Logging.Sanitization.{
  LoggedMembers, LogValue, object, Property, throws, gives, Object, array, plain, Heap, Seen,
  Sanitizing, Logged, sanitize_leaf, sanitize_items, sanitize_property, sanitize_entry,
  sanitize_entries, maximum_entries, sanitize_inside, sanitize_deepest, sanitize_object, has_seen,
  on_value, sanitize_internal, no_members, circular_log_value, text,
}
use protege_mais.Logging.Entered.{
  Has, Has-enter, Keeping, entry-Entered, internal-Entered, second_time,
}

module _ (sensitive : Text → Bool) (heap : Heap) (id : ℕ) where
  -- A traversal that takes every reference to the object for a cycle, at every depth but the deepest,
  -- without asking what was entered.
  unfoldable pub blind : (left : ℕ) → LogValue → Sanitizing Logged
  blind zero = on_value (sanitize_deepest heap)
  blind (suc left) = on_value (λ other seen.
      if other == id
      then (some (text circular_log_value), seen)
      else sanitize_object sensitive (blind left) heap other seen)

  abbrev Agree : (f g : LogValue → Sanitizing Logged) → Type 0
  Agree f g = (v : LogValue) (seen : Seen) → Has id seen → f v seen ≡ g v seen

  module _ (f g : LogValue → Sanitizing Logged) (agree : Agree f g)
      (keeping : Keeping (Has id) (Has-enter id) f) where
    still : (v : LogValue) (seen : Seen) → Has id seen → Has id (g v seen).1
    still v seen h = subst (λ r. Has id r.1) (agree v seen h) (keeping v seen h)

    items_agree :
        (values : List LogValue) (seen : Seen)
        → Has id seen
        → sanitize_items f values seen ≡ sanitize_items g values seen
    unfolding sanitize_items
    items_agree [] seen h = refl
    items_agree (v ∷ values) seen h =
        rw (agree v seen h, items_agree values (g v seen).1 (still v seen h)) refl

    property_agree :
        (p : Property) (seen : Seen)
        → Has id seen
        → sanitize_property f p seen ≡ sanitize_property g p seen
    unfolding sanitize_property
    property_agree throws seen h = refl
    property_agree (gives v) seen h = rw (agree v seen h) refl

    entry_agree :
        (key : Text) (p : Property) (result : LoggedMembers) (seen : Seen)
        → Has id seen
        → sanitize_entry sensitive f key p result seen
          ≡ sanitize_entry sensitive g key p result seen
    unfolding sanitize_entry
    entry_agree key p result seen h = rw (property_agree p seen h) refl

    entries_agree :
        (properties : List (Text × Property)) (result : LoggedMembers) (seen : Seen)
        → Has id seen
        → sanitize_entries sensitive f properties result seen
          ≡ sanitize_entries sensitive g properties result seen
    unfolding sanitize_entries
    entries_agree [] result seen h = refl
    entries_agree ((key, p) ∷ properties) result seen h =
        let same = entry_agree key p result seen h in
        let (result', seen') = sanitize_entry sensitive g key p result seen in
        let kept =
          subst (λ r. Has id r.1) same
            (entry-Entered (Has id) (Has-enter id) sensitive f keeping key p result seen h) in
        rw same (entries_agree properties result' seen' kept)

    inside_agree :
        (o : Object) (seen : Seen)
        → Has id seen
        → sanitize_inside sensitive f o seen ≡ sanitize_inside sensitive g o seen
    unfolding sanitize_inside
    inside_agree (array values) seen h = rw (items_agree (take maximum_entries values) seen h) refl
    inside_agree (plain properties) seen h =
        rw (entries_agree (take maximum_entries properties) no_members seen h) refl
    inside_agree other seen h = refl

    object_agree :
        (other : ℕ) (seen : Seen)
        → Has id seen
        → sanitize_object sensitive f heap other seen ≡ sanitize_object sensitive g heap other seen
    unfolding sanitize_object
    object_agree other seen h =
        rw (inside_agree (heap other) (other ∷ seen) (ground (arith, h))) refl

  module _ (entered : sanitize_leaf (heap id) ≡ none) where
    -- Once the object was entered, the two traversals do the same.
    blind-Agree : (left : ℕ) → Agree (sanitize_internal sensitive heap left) (blind left)
    unfolding sanitize_internal blind
    blind-Agree zero v seen h = refl
    blind-Agree (suc left) (object other) seen h = elim (Bool-cases (other == id)) [
      | inl same ↦
          let equal : other ≡ id = ground (arith, same) in
          rw (same, equal)
            (second_time sensitive heap id (sanitize_internal sensitive heap left) seen entered h)
      | inr different ↦ rw different (
          object_agree (sanitize_internal sensitive heap left) (blind left) (blind-Agree left)
            (internal-Entered (Has id) (Has-enter id) sensitive heap left) other seen h)
    ]
    blind-Agree (suc left) other seen h = refl

    pub blind_inside :
        (left : ℕ) (seen : Seen)
        → sanitize_internal sensitive heap (suc left) (object id) seen ≡ (
            if has_seen id seen
            then (some (text circular_log_value), seen)
            else sanitize_inside sensitive (blind left) (heap id) (id ∷ seen))
    unfolding sanitize_internal sanitize_object
    blind_inside left seen = rw entered (
        ap (λ inside. if has_seen id seen then (some (text circular_log_value), seen) else inside)
          (inside_agree (sanitize_internal sensitive heap left) (blind left) (blind-Agree left)
            (internal-Entered (Has id) (Has-enter id) sensitive heap left) (heap id) (id ∷ seen)
            (ground arith)))
