-- ===== src/Logging/Sanitization.antt =====
-- packages/plugins/logging/sanitization.ts: `sanitizeLogValue`. Objects live on a heap and refer to
-- one another by their numbers, so a value may contain itself.
mod Values
pub use Values.*
use protege_mais.Base.{
  ℕ, zero, suc, Bool, false, ◌&&◌, ◌||◌, Option, none, some, List, [], ◌∷◌, ltb, leb, ◌==◌,
  if◌then◌else◌, length, take, every,
}
use protege_mais.Text.Unicode.{Unicode}
use protege_mais.Logging.Keys.{is_sensitive_log_key}
use protege_mais.Text.{Text, codes, text_eq, is_alphanumeric, is_upper, is_lower}
use protege_mais.Logging.Patterns.{sanitize_string, redacted_log_value}

-- `/^[A-Za-z][A-Za-z0-9_.-]{0,63}$/u`
abbrev is_type_char : ℕ → Bool
is_type_char c = is_alphanumeric c || c == b'_' || c == b'.' || c == b'-'

unfoldable pub is_type_name : Text → Bool
unfolding is_alphanumeric is_upper is_lower
is_type_name [] = false
is_type_name (c ∷ s) = (is_upper c || is_lower c) && every is_type_char s && leb (length s) 63

-- The text of a property, if it is a text that names a type; a throw ends the search.
abbrev typed : Property → Option (Option Text)
typed throws = none
typed (gives (string value)) = if is_type_name value then some (some value) else some none
typed (gives other) = some none

abbrev named : ErrorName → Option (Option Text)
named name_throws = none
named (name_text value) = if is_type_name value then some (some value) else some none
named (name_other passes) = if passes then none else some none

abbrev named_by : Property → Text
named_by type = elim (typed type) [
  | none ↦ codes "Error"
  | some found ↦ elim found [ none ↦ codes "Error" | some value ↦ sanitize_string value ]
]

-- `errorType` of an Error.
unfoldable pub error_type : (name : ErrorName) (type : Property) → Text
unfolding is_type_name sanitize_string
error_type name type = elim (named name) [
  | none ↦ codes "Error"
  | some found ↦ elim found [ none ↦ named_by type | some value ↦ sanitize_string value ]
]

-- `safeErrorSerializer` of an Error.
unfoldable pub safe_error_serializer : (name : ErrorName) (type : Property) → Logged
unfolding error_type
safe_error_serializer name type =
    members (entry (codes "type") (text (error_type name type)) no_members)

-- The values that are no objects.
unfoldable pub sanitize_primitive : LogValue → Option Logged
unfolding sanitize_string
sanitize_primitive undefined = some absent
sanitize_primitive null_value = some empty
sanitize_primitive symbol = some (text (codes "[SYMBOL]"))
sanitize_primitive function = some (text (codes "[FUNCTION]"))
sanitize_primitive (boolean b) = some (flag b)
sanitize_primitive (number finite written) =
    if finite then some (numeral written) else some (text (codes "[NON_FINITE_NUMBER]"))
sanitize_primitive (big_int written) = some (text written)
sanitize_primitive (string value) = some (text (sanitize_string value))
sanitize_primitive (object id) = none

-- The objects that are not entered, before the depth is asked; the inner `none` is a throw.
unfoldable pub sanitize_leaf : Object → Option (Option Logged)
unfolding safe_error_serializer
sanitize_leaf (error name type) = some (some (safe_error_serializer name type))
sanitize_leaf (date none) = some (some (text unserializable_log_value))
sanitize_leaf (date (some written)) = some (some (text written))
sanitize_leaf buffer = some (some (text (codes "[BINARY]")))
sanitize_leaf revoked = some none
sanitize_leaf (array values) = none
sanitize_leaf (plain properties) = none

-- What a list becomes by its first element and the others; a throw leaves the others out.
abbrev pub join_items : Option Logged → Option LoggedItems → Seen → Seen → Option LoggedItems × Seen
join_items none rest before after = (none, before)
join_items (some first) none before after = (none, after)
join_items (some first) (some rest) before after = (some (item first rest), after)

-- `map(…)`
unfoldable pub sanitize_items :
    (LogValue → Sanitizing Logged) → List LogValue → Sanitizing LoggedItems
sanitize_items f [] seen = (some no_items, seen)
sanitize_items f (v ∷ values) seen =
    let (first, seen') = f v seen in
    let (rest, seen'') = sanitize_items f values seen' in join_items first rest seen' seen''

abbrev pub is_prototype_key : Text → Bool
is_prototype_key key =
    text_eq key (codes "__proto__")
    || text_eq key (codes "constructor")
    || text_eq key (codes "prototype")

abbrev pub or_unserializable : Option Logged → Logged
or_unserializable none = text unserializable_log_value
or_unserializable (some value) = value

-- The body of `try`, with what `catch` makes of a throw.
unfoldable pub sanitize_property : (LogValue → Sanitizing Logged) → Property → Seen → Logged × Seen
sanitize_property f throws seen = (text unserializable_log_value, seen)
sanitize_property f (gives value) seen =
    let (sanitized, seen') = f value seen in (or_unserializable sanitized, seen')

-- One round of the loop over the keys of an object, with the `result` so far.
unfoldable pub sanitize_entry :
    (Text → Bool)
    → (LogValue → Sanitizing Logged)
    → Text
    → Property
    → LoggedMembers
    → Seen
    → LoggedMembers × Seen
unfolding sanitize_property text_eq
sanitize_entry sensitive f key property result seen =
    let (value, seen') = sanitize_property f property seen in
    if is_prototype_key key
    then (result, seen)
    else if sensitive key
    then (assign key (text redacted_log_value) result, seen)
    else (assign key value result, seen')

-- The loop.
unfoldable pub sanitize_entries :
    (Text → Bool)
    → (LogValue → Sanitizing Logged)
    → List (Text × Property)
    → LoggedMembers
    → Seen
    → LoggedMembers × Seen
unfolding sanitize_entry
sanitize_entries sensitive f [] result seen = (result, seen)
sanitize_entries sensitive f ((key, property) ∷ properties) result seen =
    let (result', seen') = sanitize_entry sensitive f key property result seen in
    sanitize_entries sensitive f properties result' seen'

abbrev pub close_items : Bool → LoggedItems → LoggedItems
close_items over result = if over then push (text truncated_log_value) result else result

abbrev pub close_members : Bool → LoggedMembers → LoggedMembers
close_members over result =
    if over then assign (codes "truncated") (text truncated_log_value) result else result

abbrev pub list_of : Bool → Option LoggedItems → Option Logged
list_of over none = none
list_of over (some result) = some (items (close_items over result))

-- An object that is entered, where `f` takes the values one level down.
unfoldable pub sanitize_inside :
    (Text → Bool) → (LogValue → Sanitizing Logged) → Object → Sanitizing Logged
unfolding sanitize_items sanitize_entries
sanitize_inside sensitive f (array values) seen =
    let (result, seen') = sanitize_items f (take maximum_entries values) seen in
    (list_of (ltb maximum_entries (length values)) result, seen')
sanitize_inside sensitive f (plain properties) seen =
    let (result, seen') =
      sanitize_entries sensitive f (take maximum_entries properties) no_members seen in
    (some (members (close_members (ltb maximum_entries (length properties)) result)), seen')
sanitize_inside sensitive f other seen = (none, seen)

-- A leaf's answer, or what follows where the object is no leaf.
abbrev pub unless_leaf : Option (Option Logged) → Seen → Option Logged × Seen → Option Logged × Seen
unless_leaf none seen otherwise = otherwise
unless_leaf (some answer) seen otherwise = (answer, seen)

-- `sanitizeLogValueInternal` at the maximum depth, for the number of an object.
unfoldable pub sanitize_deepest : Heap → ℕ → Sanitizing Logged
unfolding sanitize_leaf
sanitize_deepest heap id seen =
    unless_leaf (sanitize_leaf (heap id)) seen (some (text truncated_log_value), seen)

-- And above it, where `f` takes the values one level down.
unfoldable pub sanitize_object :
    (Text → Bool) → (LogValue → Sanitizing Logged) → Heap → ℕ → Sanitizing Logged
unfolding sanitize_leaf sanitize_inside
sanitize_object sensitive f heap id seen =
    let inside = sanitize_inside sensitive f (heap id) (id ∷ seen) in
    unless_leaf (sanitize_leaf (heap id)) seen
      (if has_seen id seen then (some (text circular_log_value), seen) else inside)

abbrev pub on_value : (ℕ → Sanitizing Logged) → LogValue → Sanitizing Logged
on_value f (object id) seen = f id seen
on_value f value seen = (sanitize_primitive value, seen)

-- `sanitizeLogValueInternal`, where `left` is the maximum depth less the depth.
unfoldable pub sanitize_internal : (Text → Bool) → Heap → (left : ℕ) → LogValue → Sanitizing Logged
unfolding sanitize_primitive sanitize_deepest sanitize_object
sanitize_internal sensitive heap zero = on_value (sanitize_deepest heap)
sanitize_internal sensitive heap (suc left) =
    on_value (sanitize_object sensitive (sanitize_internal sensitive heap left) heap)

unfoldable pub sanitize_log_value : Unicode → (Text → Text) → Heap → LogValue → Logged
unfolding sanitize_internal is_sensitive_log_key
sanitize_log_value u to_nfd heap value =
    or_unserializable
      (sanitize_internal (is_sensitive_log_key u to_nfd) heap maximum_depth value []).0
