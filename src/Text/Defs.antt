-- ===== src/Text/Defs.antt =====
-- `String.prototype.trim`, `.length`, `.replace(/\s+/gu, ' ')`, `===`, `.includes`, and the classes of characters that the
-- regular expressions of the source name.
use Prim.Native.Char.{code}
use protege_mais.Base.{
  ℕ, ◌+◌, String, Bool, true, false, ◌&&◌, ◌||◌, List, [], ◌∷◌, ltb, leb, ◌==◌, if◌then◌else◌, any,
}

abbrev pub Text : Type 0
Text = List ℕ

-- A literal of the source.
abbrev pub codes : String → Text
codes String.[] = []
codes (String.◌∷◌ c s) = code c ∷ codes s

-- `a === b`
unfoldable pub text_eq : Text → Text → Bool
text_eq [] [] = true
text_eq [] (_ ∷ _) = false
text_eq (_ ∷ _) [] = false
text_eq (a ∷ s) (b ∷ t) = a == b && text_eq s t

-- `value.length`: a code point beyond the basic plane takes two UTF-16 units.
unfoldable pub utf16_length : Text → ℕ
utf16_length [] = 0
utf16_length (c ∷ s) = (if ltb c 0x10000 then 1 else 2) + utf16_length s

-- `Buffer.byteLength(value, 'utf8')` and `new TextEncoder().encode(value).byteLength`.
unfoldable pub utf8_length : Text → ℕ
utf8_length [] = 0
utf8_length (c ∷ s) =
    (if ltb c 0x80 then 1 else if ltb c 0x800 then 2 else if ltb c 0x10000 then 3 else 4)
    + utf8_length s

-- ECMAScript's white space and line terminators: what `\s` and `trim` mean.
unfoldable pub is_space : ℕ → Bool
is_space c =
    (leb 9 c && leb c 13)
    || c == 0x20
    || c == 0xa0
    || c == 0x1680
    || (leb 0x2000 c && leb c 0x200a)
    || c == 0x2028
    || c == 0x2029
    || c == 0x202f
    || c == 0x205f
    || c == 0x3000
    || c == 0xfeff

-- `[\u0000-\u001f\u007f]`
unfoldable pub is_ascii_control : ℕ → Bool
is_ascii_control c = ltb c 0x20 || c == 0x7f

-- `[\u0000-\u001f\u007f-\u009f]`
unfoldable pub is_control : ℕ → Bool
is_control c = ltb c 0x20 || (leb 0x7f c && leb c 0x9f)

unfoldable pub is_digit : ℕ → Bool
is_digit c = leb b'0' c && leb c b'9'

unfoldable pub is_upper : ℕ → Bool
is_upper c = leb b'A' c && leb c b'Z'

unfoldable pub is_lower : ℕ → Bool
is_lower c = leb b'a' c && leb c b'z'

-- `[A-Za-z0-9]`
unfoldable pub is_alphanumeric : ℕ → Bool
unfolding is_digit is_upper is_lower
is_alphanumeric c = is_upper c || is_lower c || is_digit c

unfoldable pub trim_start : Text → Text
unfolding is_space
trim_start [] = []
trim_start (c ∷ s) = if is_space c then trim_start s else c ∷ s

-- White space at the end goes: a character stays if it is solid or something stays behind it.
unfoldable pub before_end : ℕ → Text → Text
unfolding is_space
before_end c [] = if is_space c then [] else c ∷ []
before_end c (d ∷ s) = c ∷ d ∷ s

unfoldable pub trim_end : Text → Text
unfolding before_end
trim_end [] = []
trim_end (c ∷ s) = before_end c (trim_end s)

unfoldable pub trim : Text → Text
unfolding trim_start trim_end
trim s = trim_end (trim_start s)

-- `value.replace(/\s+/gu, ' ')`: each run of white space becomes one space. `inside` says that
-- the character before was of the run.
unfoldable pub collapse_from : Bool → Text → Text
unfolding is_space
collapse_from inside [] = []
collapse_from true (c ∷ s) = if is_space c then collapse_from true s else c ∷ collapse_from false s
collapse_from false (c ∷ s) =
    if is_space c then 0x20 ∷ collapse_from true s else c ∷ collapse_from false s

unfoldable pub collapse_spaces : Text → Text
unfolding collapse_from
collapse_spaces = collapse_from false

unfoldable pub starts_with : Text → Text → Bool
starts_with s [] = true
starts_with [] (_ ∷ _) = false
starts_with (c ∷ s) (d ∷ p) = c == d && starts_with s p

-- `value.includes(part)`
unfoldable pub includes : Text → Text → Bool
unfolding starts_with
includes [] p = starts_with [] p
includes (c ∷ s) p = starts_with (c ∷ s) p || includes s p

-- `new Set(values).has(value)`
unfoldable pub member : Text → List Text → Bool
unfolding text_eq
member s values = any (text_eq s) values
