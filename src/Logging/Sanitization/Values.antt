-- ===== src/Logging/Sanitization/Values.antt =====
-- packages/plugins/logging/sanitization.ts: the values that are logged, the objects behind them, and
-- what goes into the log.
use protege_mais.Base.{ℕ, Bool, Option, List, ◌==◌, if◌then◌else◌, any}
use protege_mais.Text.{Text, codes, text_eq}

abbrev pub unserializable_log_value : Text
unserializable_log_value = codes "[UNSERIALIZABLE]"

abbrev pub circular_log_value : Text
circular_log_value = codes "[CIRCULAR]"

abbrev pub truncated_log_value : Text
truncated_log_value = codes "[TRUNCATED]"

abbrev pub maximum_depth : ℕ
maximum_depth = 8

abbrev pub maximum_entries : ℕ
maximum_entries = 100

pub data LogValue : Type 0 where
  undefined null_value symbol function : LogValue
  boolean : Bool → LogValue
  -- `Number.isFinite`, and how the number is written
  number : Bool → Text → LogValue
  big_int : Text → LogValue
  string : Text → LogValue
  object : (id : ℕ) → LogValue

-- What reading a property gives; a getter may throw.
pub data Property : Type 0 where
  throws : Property
  gives : LogValue → Property

-- What reading the `name` of an Error gives. Of a name that is no text, whether its conversion to
-- one passes the expression for names; then the call of `replace` throws.
pub data ErrorName : Type 0 where
  name_throws : ErrorName
  name_text : Text → ErrorName
  name_other : (passes : Bool) → ErrorName

-- An object, by the first of the source's tests that it passes. `none` of a Date is a throw of
-- `toISOString`. Of an Error, what reading `name` and `type` gives.
pub data Object : Type 0 where
  error : (name : ErrorName) (type : Property) → Object
  date : Option Text → Object
  buffer : Object
  array : List LogValue → Object
  plain : List (Text × Property) → Object
  -- every test of it throws, as of a revoked Proxy
  revoked : Object

abbrev pub Heap : Type 0
Heap = ℕ → Object

-- What goes into the log.
mutual
  pub data Logged : Type 0 where
    text : Text → Logged
    absent empty : Logged
    flag : Bool → Logged
    numeral : Text → Logged
    items : LoggedItems → Logged
    members : LoggedMembers → Logged

  pub data LoggedItems : Type 0 where
    no_items : LoggedItems
    item : Logged → LoggedItems → LoggedItems

  pub data LoggedMembers : Type 0 where
    no_members : LoggedMembers
    entry : Text → Logged → LoggedMembers → LoggedMembers

-- `result[key] = value`
abbrev pub assign : Text → Logged → LoggedMembers → LoggedMembers
assign key value no_members = entry key value no_members
assign key value (entry k v rest) =
    if text_eq k key then entry k value rest else entry k v (assign key value rest)

-- `result.push(value)`
abbrev pub push : Logged → LoggedItems → LoggedItems
push value no_items = item value no_items
push value (item v rest) = item v (push value rest)

-- The `seen` set, and what a call gives; `none` is a throw.
abbrev pub Seen : Type 0
Seen = List ℕ

abbrev pub has_seen : ℕ → Seen → Bool
has_seen id = any (λ other. other == id)

abbrev pub Sanitizing : Type 0 → Type 0
Sanitizing A = Seen → Option A × Seen
