-- ===== src/Logging/Entered.antt =====
-- packages/plugins/logging/sanitization.ts: what goes on holding of the objects that were
-- entered.
use protege_mais.Base.{
  ℕ, zero, suc, ◌≡◌, refl, inl, inr, Bool, true, false, Option, none, some, List, [], ◌∷◌, arith,
  if◌then◌else◌, Bool-cases, take,
}
use protege_mais.Text.{Text}
use protege_mais.Logging.Sanitization.{
  LoggedMembers, LogValue, object, Property, throws, gives, Object, array, plain, Heap, Seen,
  Sanitizing, Logged, LoggedItems, sanitize_leaf, sanitize_items, join_items, sanitize_property,
  sanitize_entry, sanitize_entries, maximum_entries, sanitize_inside, sanitize_deepest,
  sanitize_object, has_seen, unless_leaf, on_value, sanitize_internal, is_prototype_key, no_members,
  circular_log_value, truncated_log_value, text,
}

-- What holds of the objects that were entered, and goes on holding when one is entered that was not
-- yet, holds whatever is sanitized.
module _ (Entered : Seen → Type 0)
    (enter : (id : ℕ) (seen : Seen)
      → has_seen id seen ≡ false
      → Entered seen
      → Entered (id ∷ seen)) where
  abbrev pub Keeping : (LogValue → Sanitizing Logged) → Type 0
  Keeping f = (v : LogValue) (seen : Seen) → Entered seen → Entered (f v seen).1

  joined :
      (first : Option Logged) (rest : Option LoggedItems) (before after : Seen)
      → Entered before
      → Entered after
      → Entered (join_items first rest before after).1
  joined none rest before after a b = a
  joined (some first) none before after a b = b
  joined (some first) (some rest) before after a b = b

  unless_leaf-Entered :
      (leaf : Option (Option Logged)) (seen : Seen) (otherwise : Option Logged × Seen)
      → Entered seen
      → Entered otherwise.1
      → Entered (unless_leaf leaf seen otherwise).1
  unless_leaf-Entered none seen otherwise a b = b
  unless_leaf-Entered (some answer) seen otherwise a b = a

  on_value-Entered :
      (f : ℕ → Sanitizing Logged)
      → ((id : ℕ) (seen : Seen) → Entered seen → Entered (f id seen).1)
      → Keeping (on_value f)
  on_value-Entered f keeping (object id) seen d = keeping id seen d
  on_value-Entered f keeping value seen d = d

  module _ (sensitive : Text → Bool) (f : LogValue → Sanitizing Logged) (keeping : Keeping f) where
    items-Entered :
        (values : List LogValue) (seen : Seen)
        → Entered seen
        → Entered (sanitize_items f values seen).1
    unfolding sanitize_items
    items-Entered [] seen d = d
    items-Entered (v ∷ values) seen d =
        let seen' = (f v seen).1 in
        let first = keeping v seen d in
        joined (f v seen).0 (sanitize_items f values seen').0 seen'
          (sanitize_items f values seen').1 first (items-Entered values seen' first)

    property-Entered :
        (p : Property) (seen : Seen) → Entered seen → Entered (sanitize_property f p seen).1
    unfolding sanitize_property
    property-Entered throws seen d = d
    property-Entered (gives v) seen d = keeping v seen d

    pub entry-Entered :
        (key : Text) (p : Property) (result : LoggedMembers) (seen : Seen)
        → Entered seen
        → Entered (sanitize_entry sensitive f key p result seen).1
    unfolding sanitize_entry
    entry-Entered key p result seen d = elim (Bool-cases (is_prototype_key key)) [
      | inl own ↦ rw own d
      | inr other ↦ elim (Bool-cases (sensitive key)) [
        | inl hidden ↦ rw (other, hidden) d
        | inr plainly ↦ rw (other, plainly) (property-Entered p seen d)
      ]
    ]

    entries-Entered :
        (properties : List (Text × Property)) (result : LoggedMembers) (seen : Seen)
        → Entered seen
        → Entered (sanitize_entries sensitive f properties result seen).1
    unfolding sanitize_entries
    entries-Entered [] result seen d = d
    entries-Entered ((key, p) ∷ properties) result seen d =
        let (result', seen') = sanitize_entry sensitive f key p result seen in
        entries-Entered properties result' seen' (entry-Entered key p result seen d)

    pub inside-Entered :
        (o : Object) (seen : Seen) → Entered seen → Entered (sanitize_inside sensitive f o seen).1
    unfolding sanitize_inside
    inside-Entered (array values) seen d = items-Entered (take maximum_entries values) seen d
    inside-Entered (plain properties) seen d =
        entries-Entered (take maximum_entries properties) no_members seen d
    inside-Entered other seen d = d

    object-Entered :
        (heap : Heap) (id : ℕ) (seen : Seen)
        → Entered seen
        → Entered (sanitize_object sensitive f heap id seen).1
    unfolding sanitize_object
    object-Entered heap id seen d =
        unless_leaf-Entered (sanitize_leaf (heap id)) seen
          (if has_seen id seen
            then (some (text circular_log_value), seen)
            else sanitize_inside sensitive f (heap id) (id ∷ seen))
          d
          (elim (Bool-cases (has_seen id seen)) [
            | inl again ↦ rw again d
            | inr new ↦ rw new (inside-Entered (heap id) (id ∷ seen) (enter id seen new d))
          ])

  pub internal-Entered :
      (sensitive : Text → Bool) (heap : Heap) (left : ℕ)
      → Keeping (sanitize_internal sensitive heap left)
  unfolding sanitize_internal sanitize_deepest
  internal-Entered sensitive heap zero value seen d =
      on_value-Entered (sanitize_deepest heap)
        (λ id seen d.
          unless_leaf-Entered (sanitize_leaf (heap id)) seen (some (text truncated_log_value), seen)
            d d)
        value seen d
  internal-Entered sensitive heap (suc left) value seen d =
      on_value-Entered (sanitize_object sensitive (sanitize_internal sensitive heap left) heap)
        (object-Entered sensitive (sanitize_internal sensitive heap left)
          (internal-Entered sensitive heap left) heap)
        value seen d

-- An object that was entered stays among those that were.
abbrev pub Has : ℕ → Seen → Type 0
Has id seen = has_seen id seen ≡ true

pub Has-enter :
    (id other : ℕ) (seen : Seen) → has_seen other seen ≡ false → Has id seen → Has id (other ∷ seen)
Has-enter id other seen new h = ground (arith, h)

module _ (sensitive : Text → Bool) (heap : Heap) (id : ℕ) where
  pub seen_after :
      (f : LogValue → Sanitizing Logged) (seen : Seen)
      → sanitize_leaf (heap id) ≡ none
      → Keeping (Has id) (Has-enter id) f
      → Has id (sanitize_object sensitive f heap id seen).1
  unfolding sanitize_object
  seen_after f seen entered keeping = elim (Bool-cases (has_seen id seen)) [
    | inl again ↦ rw (entered, again) again
    | inr new ↦
        rw (entered, new)
          (inside-Entered (Has id) (Has-enter id) sensitive f keeping (heap id) (id ∷ seen)
            (ground arith))
  ]

  pub second_time :
      (f : LogValue → Sanitizing Logged) (seen : Seen)
      → sanitize_leaf (heap id) ≡ none
      → has_seen id seen ≡ true
      → sanitize_object sensitive f heap id seen ≡ (some (text circular_log_value), seen)
  unfolding sanitize_object
  second_time f seen entered again = rw (entered, sanitize_object, again) refl
