-- ===== src/Logging/Shape/Entries.antt =====
-- packages/plugins/logging/sanitization.ts: the entries of lists and objects fit the log.
use protege_mais.Base.{
  ℕ, suc, ◌+◌, ◌≤◌, ◌≡◌, refl, inl, inr, Bool, true, false, Option, none, some, List, [], ◌∷◌,
  arith, ltb, Bool-cases, length, take, length-take-le, count,
}
use protege_mais.Text.{Text, codes, text_eq}
use protege_mais.Logging.Patterns.{redacted_log_value}
use protege_mais.Logging.Sanitization.{
  ErrorName, Logged, LoggedItems, LoggedMembers, text, items, members, no_members, is_prototype_key,
  truncated_log_value, LogValue, undefined, null_value, symbol, function, boolean, number, big_int,
  string, object, Property, throws, gives, Object, error, date, buffer, array, plain, revoked, Seen,
  Sanitizing, safe_error_serializer, sanitize_primitive, sanitize_leaf, sanitize_items, join_items,
  list_of, or_unserializable, sanitize_property, sanitize_entry, sanitize_entries, close_items,
  close_members, maximum_entries, sanitize_inside,
}
use protege_mais.Logging.Fits.{
  Fits, FitItems, FitMembers, item_count, member_count, push-FitItems, assign-FitMembers,
}

-- What holds of an answer that is no throw.
abbrev pub Given : {A : Type 0} → (A → Type 0) → Option A → Type 0
Given P none = Unit
Given P (some a) = P a

abbrev pub Taming : (sensitive : Text → Bool) (height : ℕ) → (LogValue → Sanitizing Logged) → Type 0
Taming sensitive height f =
    (v : LogValue) (seen : Seen) → Given (Fits sensitive height) (f v seen).0

module _ (sensitive : Text → Bool) (type_fine : sensitive (codes "type") ≡ false)
    (truncated_fine : sensitive (codes "truncated") ≡ false) where
  error-Fits :
      (height : ℕ) (name : ErrorName) (type : Property)
      → Fits sensitive (suc height) (safe_error_serializer name type)
  unfolding safe_error_serializer text_eq
  error-Fits height name type = (omega arith, (refl, rw type_fine refl, tt, tt))

  -- Of a value that is no object, and of an object that is not entered.
  pub primitive-Fits :
      (height : ℕ) (v : LogValue) → Given (Fits sensitive height) (sanitize_primitive v)
  unfolding sanitize_primitive
  primitive-Fits height undefined = tt
  primitive-Fits height null_value = tt
  primitive-Fits height symbol = tt
  primitive-Fits height function = tt
  primitive-Fits height (boolean b) = tt
  primitive-Fits height (number true written) = tt
  primitive-Fits height (number false written) = tt
  primitive-Fits height (big_int written) = tt
  primitive-Fits height (string value) = tt
  primitive-Fits height (object id) = tt

  pub leaf-Fits :
      (height : ℕ) (o : Object) → Given (Given (Fits sensitive (suc height))) (sanitize_leaf o)
  unfolding sanitize_leaf
  leaf-Fits height (error name type) = error-Fits height name type
  leaf-Fits height (date none) = tt
  leaf-Fits height (date (some written)) = tt
  leaf-Fits height buffer = tt
  leaf-Fits height revoked = tt
  leaf-Fits height (array values) = tt
  leaf-Fits height (plain properties) = tt

  pub or_unserializable-Fits :
      (height : ℕ) (o : Option Logged)
      → Given (Fits sensitive height) o
      → Fits sensitive height (or_unserializable o)
  or_unserializable-Fits height none h = tt
  or_unserializable-Fits height (some v) h = h

  module _ (height : ℕ) (f : LogValue → Sanitizing Logged) (tame : Taming sensitive height f) where
    abbrev FitResult : (most : ℕ) → LoggedItems → Type 0
    FitResult most xs = FitItems sensitive height xs × (item_count xs ≤ most)

    joined :
        (most : ℕ) (head : Option Logged) (rest : Option LoggedItems) (before after : Seen)
        → Given (Fits sensitive height) head
        → Given (FitResult most) rest
        → Given (FitResult (suc most)) (join_items head rest before after).0
    joined most none rest before after a b = tt
    joined most (some h) none before after a b = tt
    joined most (some h) (some r) before after a (b, c) = ((a, b), omega (arith, c))

    items-Fits :
        (values : List LogValue) (seen : Seen)
        → Given (FitResult (length values)) (sanitize_items f values seen).0
    unfolding sanitize_items
    items-Fits [] seen = (tt, omega arith)
    items-Fits (v ∷ values) seen =
        let seen' = (f v seen).1 in
        joined (length values) (f v seen).0 (sanitize_items f values seen').0 seen'
          (sanitize_items f values seen').1 (tame v seen) (items-Fits values seen')

    property-Fits :
        (p : Property) (seen : Seen) → Fits sensitive height (sanitize_property f p seen).0
    unfolding sanitize_property
    property-Fits throws seen = tt
    property-Fits (gives v) seen = or_unserializable-Fits height (f v seen).0 (tame v seen)

    abbrev FitSoFar : (most : ℕ) → LoggedMembers → Type 0
    FitSoFar most xs = FitMembers sensitive height xs × (member_count xs ≤ most)

    entry-Fits :
        (key : Text) (p : Property) (result : LoggedMembers) (most : ℕ) (seen : Seen)
        → FitSoFar most result
        → FitSoFar (suc most) (sanitize_entry sensitive f key p result seen).0
    unfolding sanitize_entry
    entry-Fits key p result most seen (fits, few) = elim (Bool-cases (is_prototype_key key)) [
      | inl own ↦ rw own (fits, omega (arith, few))
      | inr other ↦ elim (Bool-cases (sensitive key)) [
        | inl hidden ↦
            rw (other, hidden)
              (let (a, b) =
                  assign-FitMembers sensitive height key (text redacted_log_value) result other
                    (ground (arith)) tt fits in
                (a, omega (arith, b, few)))
        | inr open_key ↦
            rw (other, open_key)
              (let (a, b) =
                  assign-FitMembers sensitive height key (sanitize_property f p seen).0 result other
                    (rw open_key refl) (property-Fits p seen) fits in
                (a, omega (arith, b, few)))
      ]
    ]

    entries-Fits :
        (properties : List (Text × Property)) (result : LoggedMembers) (most total : ℕ)
        (seen : Seen)
        → FitSoFar most result
        → most + length properties ≤ total
        → FitSoFar total (sanitize_entries sensitive f properties result seen).0
    unfolding sanitize_entries
    entries-Fits [] result most total seen (fits, few) room = (fits, omega (arith, few, room))
    entries-Fits ((key, p) ∷ properties) result most total seen h room =
        let (result', seen') = sanitize_entry sensitive f key p result seen in
        entries-Fits properties result' (suc most) total seen' (entry-Fits key p result most seen h)
          (omega (arith, room))

    closed-Fits :
        (over : Bool) (xs : LoggedItems)
        → FitResult 100 xs
        → Fits sensitive (suc height) (items (close_items over xs))
    closed-Fits false xs (fits, few) = (omega (arith, few), fits)
    closed-Fits true xs (fits, few) =
        let (a, b) = push-FitItems sensitive height (text truncated_log_value) xs tt fits in
        (omega (arith, b, few), a)

    sealed-Fits :
        (over : Bool) (xs : LoggedMembers)
        → FitSoFar 100 xs
        → Fits sensitive (suc height) (members (close_members over xs))
    unfolding text_eq
    sealed-Fits false xs (fits, few) = (omega (arith, few), fits)
    sealed-Fits true xs (fits, few) =
        let (a, b) =
          assign-FitMembers sensitive height (codes "truncated") (text truncated_log_value) xs refl
            (rw truncated_fine refl) tt fits in
        (omega (arith, b, few), a)

    eased :
        (few most : ℕ) (result : Option LoggedItems)
        → few ≤ most
        → Given (FitResult few) result
        → Given (FitResult most) result
    eased few most none le h = tt
    eased few most (some xs) le (fits, count) = (fits, omega (arith, count, le))

    listed-Fits :
        (over : Bool) (result : Option LoggedItems)
        → Given (FitResult 100) result
        → Given (Fits sensitive (suc height)) (list_of over result)
    listed-Fits over none h = tt
    listed-Fits over (some xs) h = closed-Fits over xs h

    pub inside-Fits :
        (o : Object) (seen : Seen)
        → Given (Fits sensitive (suc height)) (sanitize_inside sensitive f o seen).0
    unfolding sanitize_inside
    inside-Fits (array values) seen =
        listed-Fits (ltb maximum_entries (length values))
          (sanitize_items f (take maximum_entries values) seen).0
          (eased (length (take maximum_entries values)) 100
            (sanitize_items f (take maximum_entries values) seen).0 (length-take-le 100 values)
            (items-Fits (take maximum_entries values) seen))
    inside-Fits (plain properties) seen =
        sealed-Fits (ltb maximum_entries (length properties))
          (sanitize_entries sensitive f (take maximum_entries properties) no_members seen).0
          (entries-Fits (take maximum_entries properties) no_members 0 100 seen (tt, omega arith)
            (omega (arith, length-take-le 100 properties)))
    inside-Fits other seen = tt
