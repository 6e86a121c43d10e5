-- ===== src/Config/Shapes.antt =====
-- packages/config/validation.ts: the tests on the texts of the configuration. `Net` is what Node and
-- the URL standard decide: `isIP`, `new URL(…)` and `decodeURIComponent`, where `none` is a throw.
use protege_mais.Base.{
  ℕ, ◌+◌, ◌-◌, ◌*◌, Bool, true, false, not, ◌&&◌, ◌||◌, Option, none, some, List, [], ◌∷◌, leb,
  ◌==◌, if◌then◌else◌, length, every, any,
}
use protege_mais.Text.{
  Text, codes, utf16_length, is_space, is_alphanumeric, is_lower, is_digit, includes, member,
}
use protege_mais.Text.Unicode.{Unicode}

pub record Url : Type 0 where
  pub protocol : Text
  pub hostname : Text
  pub pathname : Text
  pub username : Text
  pub password : Text
  pub search : Text
  pub hash : Text
  pub origin : Text

pub record Net : Type 0 where
  pub is_ip : Text → Bool
  pub parse_url : Text → Option Url
  pub decode_uri_component : Text → Option Text

-- `value.split(separator)` at one character: never the empty list.
abbrev pub front : ℕ → List Text → List Text
front c [] = (c ∷ []) ∷ []
front c (s ∷ parts) = (c ∷ s) ∷ parts

unfoldable pub split_on : ℕ → Text → List Text
split_on separator [] = [] ∷ []
split_on separator (c ∷ s) =
    let rest = split_on separator s in if c == separator then [] ∷ rest else front c rest

-- All characters but the last, and the last.
unfoldable pub unsnoc : Text → Option (Text × ℕ)
unsnoc [] = none
unsnoc (c ∷ s) = elim (unsnoc s) [
  | none ↦ some ([], c)
  | some (middle, last) ↦ some (c ∷ middle, last)
]

abbrev pub is_empty_list : List Text → Bool
is_empty_list [] = true
is_empty_list (s ∷ parts) = false

abbrev pub is_empty : Text → Bool
is_empty [] = true
is_empty (c ∷ s) = false

-- `^[p](?:[q]*[p])?$`
unfoldable pub is_framed : (ℕ → Bool) → (ℕ → Bool) → Text → Bool
unfolding unsnoc
is_framed p q [] = false
is_framed p q (c ∷ s) =
    p c && elim (unsnoc s) [ none ↦ true | some (middle, last) ↦ every q middle && p last ]

-- `^[p][q]{low,high}[p]$`
unfoldable pub is_framed_between : (ℕ → Bool) → (ℕ → Bool) → ℕ → ℕ → Text → Bool
unfolding unsnoc
is_framed_between p q low high [] = false
is_framed_between p q low high (c ∷ s) = p c && elim (unsnoc s) [
  | none ↦ false
  | some (middle, last) ↦
      every q middle && leb low (length middle) && leb (length middle) high && p last
]

-- `^[a-z0-9](?:[a-z0-9-]*[a-z0-9])?$` with the flag `i`, of at most 63 characters.
unfoldable pub is_host_label : Text → Bool
unfolding is_framed is_alphanumeric utf16_length
is_host_label label =
    leb (utf16_length label) 63
    && is_framed is_alphanumeric (λ c. is_alphanumeric c || c == b'-') label

-- What `host` accepts.
unfoldable pub is_host : Net → Text → Bool
unfolding includes is_space split_on is_host_label utf16_length
is_host net value =
    not (
      includes value (codes "://")
      || includes value (codes "/")
      || includes value (codes "?")
      || includes value (codes "#")
      || any is_space value)
    && (net.is_ip value
        || (leb (utf16_length value) 253 && every is_host_label (split_on b'.' value)))

-- `/^\d+$/`, and the number that such a text writes.
unfoldable pub is_decimal : Text → Bool
unfolding is_digit
is_decimal [] = false
is_decimal (c ∷ s) = every is_digit (c ∷ s)

unfoldable pub decimal_from : ℕ → Text → ℕ
decimal_from n [] = n
decimal_from n (c ∷ s) = decimal_from (n * 10 + (c - b'0')) s

-- `^<.*>$` and `^\[.*\]$`: the dot takes no line terminator.
abbrev pub is_line_char : ℕ → Bool
is_line_char c = not (c == 10 || c == 13 || c == 0x2028 || c == 0x2029)

unfoldable pub is_enclosed : ℕ → ℕ → Text → Bool
unfolding unsnoc
is_enclosed opening closing [] = false
is_enclosed opening closing (c ∷ s) = c == opening && elim (unsnoc s) [
  | none ↦ false
  | some (middle, last) ↦ every is_line_char middle && last == closing
]

abbrev pub unsafe_production_secrets : List Text
unsafe_production_secrets =
    codes "admin"
    ∷ codes "adminadmin"
    ∷ codes "change-me"
    ∷ codes "dev-only"
    ∷ codes "local-only"
    ∷ codes "password"
    ∷ codes "replace-me"
    ∷ codes "secret"
    ∷ codes "troque-me"
    ∷ []

-- `isUnsafeProductionSecret`
unfoldable pub is_unsafe_production_secret : Unicode → Text → Bool
unfolding member includes is_enclosed
is_unsafe_production_secret u value =
    let normalized = u.to_lower_case value in
    member normalized unsafe_production_secrets
    || includes normalized (codes "change-before-production")
    || includes normalized (codes "troque-por")
    || is_enclosed b'<' b'>' normalized
    || is_enclosed b'[' b']' normalized

-- `^[^\s@]+\.[^\s@]+$` from a character on: a dot with something before it and behind it.
unfoldable pub has_inner_dot : Text → Bool
has_inner_dot [] = false
has_inner_dot (c ∷ []) = false
has_inner_dot (c ∷ d ∷ []) = false
has_inner_dot (c ∷ d ∷ e ∷ s) = d == b'.' || has_inner_dot (d ∷ e ∷ s)

abbrev pub is_mailbox_char : ℕ → Bool
is_mailbox_char c = not (c == b'@') && not (is_space c)

-- `^[^\s@]+@[^\s@]+\.[^\s@]+$`
unfoldable pub is_mailbox : Text → Bool
unfolding split_on has_inner_dot is_space
is_mailbox value = elim (split_on b'@' value) [
  | [] ↦ false
  | local ∷ rest ↦ elim rest [
    | [] ↦ false
    | domain ∷ more ↦
        is_empty_list more
        && not (is_empty local)
        && every is_mailbox_char local
        && every is_mailbox_char domain
        && has_inner_dot domain
  ]
]

-- `/^[a-z0-9][a-z0-9.-]{1,61}[a-z0-9]$/` without two dots in a row, and the same without dots.
abbrev pub is_name_char : ℕ → Bool
is_name_char c = is_lower c || is_digit c

unfoldable pub is_bucket : Text → Bool
unfolding is_framed_between is_lower is_digit includes
is_bucket value =
    is_framed_between is_name_char (λ c. is_name_char c || c == b'.' || c == b'-') 1 61 value
    && not (includes value (codes ".."))

unfoldable pub is_region : Text → Bool
unfolding is_framed_between is_lower is_digit
is_region value = is_framed_between is_name_char (λ c. is_name_char c || c == b'-') 1 61 value

-- `/^\/(?:\d+)?$/`, or the empty path.
unfoldable pub is_database_path : Text → Bool
unfolding is_digit
is_database_path [] = true
is_database_path (c ∷ s) = c == b'/' && every is_digit s

-- `[...new Set(values)]`: the first of equal values stays.
unfoldable pub unique_from : List Text → List Text → List Text
unfolding member
unique_from seen [] = []
unique_from seen (x ∷ xs) =
    let kept = x ∷ unique_from (x ∷ seen) xs in
    let dropped = unique_from seen xs in if member x seen then dropped else kept
