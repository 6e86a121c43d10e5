-- ===== src/Text/Unicode.antt =====
-- What the source takes from the Unicode tables of the JavaScript engine: `toLowerCase`,
-- `toUpperCase` and `normalize('NFC')` are parameters, with the documented behaviour on ASCII.
use protege_mais.Base.{ℕ, ◌+◌, ◌-◌, ◌≡◌, refl, Bool, true, map, ltb, if◌then◌else◌, every}
use protege_mais.Text.Defs.{Text, is_upper, is_lower}

abbrev pub is_ascii : ℕ → Bool
is_ascii c = ltb c 0x80

unfoldable pub lower_ascii : ℕ → ℕ
unfolding is_upper
lower_ascii c = if is_upper c then c + 32 else c

unfoldable pub upper_ascii : ℕ → ℕ
unfolding is_lower
upper_ascii c = if is_lower c then c - 32 else c

pub record Unicode : Type 0 where
  pub to_lower_case : Text → Text
  pub to_upper_case : Text → Text
  pub to_nfc : Text → Text
  -- The mappings of SpecialCasing and UnicodeData agree with ASCII's below U+0080, and a text of
  -- ASCII characters is in every normal form.
  pub lower_of_ascii : (s : Text) → every is_ascii s ≡ true → to_lower_case s ≡ map lower_ascii s
  pub upper_of_ascii : (s : Text) → every is_ascii s ≡ true → to_upper_case s ≡ map upper_ascii s
  pub nfc_of_ascii : (s : Text) → every is_ascii s ≡ true → to_nfc s ≡ s

-- The parameters of an engine that knows only ASCII.
abbrev pub ascii_only : Unicode
ascii_only = record {
  to_lower_case = map lower_ascii;
  to_upper_case = map upper_ascii;
  to_nfc = λ s. s;
  lower_of_ascii = λ s h. refl;
  upper_of_ascii = λ s h. refl;
  nfc_of_ascii = λ s h. refl;
}
