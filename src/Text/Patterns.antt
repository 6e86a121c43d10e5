-- ===== src/Text/Patterns.antt =====
-- The shapes of the regular expressions of the source: anchored sequences of character classes.
use protege_mais.Base.{
  ℕ, Bool, true, false, not, ◌&&◌, ◌||◌, [], ◌∷◌, leb, ◌==◌, if◌then◌else◌, length, every,
}
use protege_mais.Text.Defs.{Text, is_alphanumeric, is_space}

-- `^[p][q]{low,high}$`
unfoldable pub head_then : (ℕ → Bool) → (ℕ → Bool) → ℕ → ℕ → Text → Bool
head_then p q low high [] = false
head_then p q low high (c ∷ s) = p c && every q s && leb low (length s) && leb (length s) high

-- `^[q]{n}$`
unfoldable pub exactly : (ℕ → Bool) → ℕ → Text → Bool
exactly q n s = every q s && length s == n

-- `[A-Za-z0-9._:-]`
unfoldable pub is_identifier_char : ℕ → Bool
unfolding is_alphanumeric
is_identifier_char c = is_alphanumeric c || c == b'.' || c == b'_' || c == b':' || c == b'-'

-- `^[A-Za-z0-9][A-Za-z0-9._:-]{0,127}$`
unfoldable pub is_identifier : Text → Bool
unfolding head_then is_identifier_char is_alphanumeric
is_identifier = head_then is_alphanumeric is_identifier_char 0 127

-- `[^@\s]`
unfoldable pub is_address_char : ℕ → Bool
unfolding is_space
is_address_char c = not (c == b'@') && not (is_space c)

-- `^[^@\s]*@[^@\s]+$` behind at least `seen` characters: one `@`, and something on both sides.
unfoldable pub address_from : Bool → Text → Bool
unfolding is_address_char
address_from seen [] = false
address_from seen (c ∷ s) =
    if c == b'@'
    then seen && every is_address_char s && leb 1 (length s)
    else is_address_char c && address_from true s

-- `^[^@\s]+@[^@\s]+$`
unfoldable pub is_address : Text → Bool
unfolding address_from
is_address = address_from false

-- `[A-Za-z0-9_-]`, the alphabet of base64url.
unfoldable pub is_base64url : ℕ → Bool
unfolding is_alphanumeric
is_base64url c = is_alphanumeric c || c == b'_' || c == b'-'
