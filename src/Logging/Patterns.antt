-- ===== src/Logging/Patterns.antt =====
-- packages/plugins/logging/sanitization.ts: `sanitizeString`. Its regular expressions only repeat
-- classes of characters, so a pattern is a list of pieces, matched as JavaScript matches them: greedy,
-- and with backtracking.
mod Matcher
unfoldable pub use Matcher.*
use protege_mais.Base.{ℕ, ◌-◌, Bool, not, ◌||◌, none, List, [], ◌∷◌, ◌++◌, ◌==◌}
use protege_mais.Text.{Text, codes, is_space, is_digit, is_alphanumeric}

abbrev pub redacted_log_value : Text
redacted_log_value = codes "[REDACTED]"

-- `\w`, and with the flags `i` and `u` also the two letters that fold into ASCII.
abbrev is_word : ℕ → Bool
is_word c = is_alphanumeric c || c == b'_'

abbrev is_folded : ℕ → Bool
is_folded c = is_alphanumeric c || c == 0x17f || c == 0x212a

abbrev is_folded_word : ℕ → Bool
is_folded_word c = is_folded c || c == b'_'

abbrev exactly : ℕ → Piece
exactly c = run (λ d. d == c) 1 0

-- A letter under the flag `i`.
abbrev either_case : ℕ → Piece
either_case c = run (λ d. d == c || d == c - 32) 1 0

abbrev maybe : ℕ → Piece
maybe c = run (λ d. d == c) 0 1

-- `/\bBearer\s+[^\s,;]+/gi`
abbrev bearer : Rule
bearer =
    (
      0,
      boundary is_word
          ∷ either_case b'b'
          ∷ either_case b'e'
          ∷ either_case b'a'
          ∷ either_case b'r'
          ∷ either_case b'e'
          ∷ either_case b'r'
          ∷ endless is_space 1
          ∷ endless (λ c. not (is_space c || c == b',' || c == b';')) 1
          ∷ [],
    )
    ∷ []

abbrev is_base64url : ℕ → Bool
is_base64url c = is_alphanumeric c || c == b'_' || c == b'-'

-- `/\beyJ[A-Za-z0-9_-]+\.[A-Za-z0-9_-]+\.[A-Za-z0-9_-]+\b/g`
abbrev json_web_token : Rule
json_web_token =
    (
      0,
      boundary is_word
          ∷ exactly b'e'
          ∷ exactly b'y'
          ∷ exactly b'J'
          ∷ endless is_base64url 1
          ∷ exactly b'.'
          ∷ endless is_base64url 1
          ∷ exactly b'.'
          ∷ endless is_base64url 1
          ∷ boundary is_word
          ∷ [],
    )
    ∷ []

-- `/\b\d{3}\.?\d{3}\.?\d{3}-?\d{2}\b/g`
abbrev cpf : Rule
cpf =
    (
      0,
      boundary is_word
          ∷ run is_digit 3 0
          ∷ maybe b'.'
          ∷ run is_digit 3 0
          ∷ maybe b'.'
          ∷ run is_digit 3 0
          ∷ maybe b'-'
          ∷ run is_digit 2 0
          ∷ boundary is_word
          ∷ [],
    )
    ∷ []

-- `/\b[0-9A-Z]{2}\.?[0-9A-Z]{3}\.?[0-9A-Z]{3}\/?[0-9A-Z]{4}-?[0-9]{2}\b/giu`
abbrev cnpj : Rule
cnpj =
    (
      0,
      boundary is_folded_word
          ∷ run is_folded 2 0
          ∷ maybe b'.'
          ∷ run is_folded 3 0
          ∷ maybe b'.'
          ∷ run is_folded 3 0
          ∷ maybe b'/'
          ∷ run is_folded 4 0
          ∷ maybe b'-'
          ∷ run is_digit 2 0
          ∷ boundary is_folded_word
          ∷ [],
    )
    ∷ []

-- `-?\d{1,3}\.\d{3,}\s*,\s*-?\d{1,3}\.\d{3,}(?=$|[^\d])`
abbrev coordinate_pair : List Piece
coordinate_pair =
    maybe b'-'
    ∷ run is_digit 1 2
    ∷ exactly b'.'
    ∷ endless is_digit 3
    ∷ endless is_space 0
    ∷ exactly b','
    ∷ endless is_space 0
    ∷ maybe b'-'
    ∷ run is_digit 1 2
    ∷ exactly b'.'
    ∷ endless is_digit 3
    ∷ ahead_not is_digit
    ∷ []

-- The group `(^|[^\d])` before it is kept.
abbrev coordinates : Rule
coordinates =
    (0, start ∷ coordinate_pair) ∷ (1, run (λ c. not (is_digit c)) 1 0 ∷ coordinate_pair) ∷ []

unfoldable pub replace_all : Rule → Text → Text → Text
unfolding replace_from
replace_all rule by s = replace_from rule by 0 none s

unfoldable pub sanitize_string : Text → Text
unfolding replace_all is_space is_digit is_alphanumeric
sanitize_string value = replace_all coordinates redacted_log_value (
    replace_all cnpj redacted_log_value (
      replace_all cpf redacted_log_value (
        replace_all json_web_token redacted_log_value
          (replace_all bearer (codes "Bearer " ++ redacted_log_value) value))))
