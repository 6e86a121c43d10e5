-- ===== src/Logging/Patterns/Matcher.antt =====
-- packages/plugins/logging/sanitization.ts: how JavaScript matches the expressions that only repeat
-- classes of characters, greedy and with backtracking, and replaces their matches.
use protege_mais.Base.{
  ℕ, zero, suc, ◌-◌, Bool, true, false, not, Option, none, some, List, [], ◌∷◌, ◌++◌, ◌==◌,
  if◌then◌else◌, length, take,
}
use protege_mais.Text.{Text}

pub data Piece : Type 0 where
  -- from `low` on at most `low + more` characters of a class, or without a bound
  run : (p : ℕ → Bool) (low more : ℕ) → Piece
  endless : (p : ℕ → Bool) (low : ℕ) → Piece
  -- `\b`, for a class of word characters
  boundary : (word : ℕ → Bool) → Piece
  -- `^`
  start : Piece
  -- `(?=$|[^p])`
  ahead_not : (p : ℕ → Bool) → Piece

-- What follows a piece: from the character before and the rest, the rest behind the match.
abbrev Continuation : Type 0
Continuation = Option ℕ → Text → Option Text

abbrev or_else : Option Text → Option Text → Option Text
or_else none other = other
or_else (some rest) other = some rest

abbrev holds_of : (ℕ → Bool) → Option ℕ → Bool
holds_of p none = false
holds_of p (some c) = p c

abbrev next_char : Text → Option ℕ
next_char [] = none
next_char (c ∷ s) = some c

abbrev agree : Bool → Bool → Bool
agree true b = b
agree false b = not b

-- `p*`, greedy.
unfoldable pub match_endless : (ℕ → Bool) → Continuation → Option ℕ → Text → Option Text
match_endless p k before [] = k before []
match_endless p k before (c ∷ s) =
    let longer = match_endless p k (some c) s in
    if p c then or_else longer (k before (c ∷ s)) else k before (c ∷ s)

-- `p{0,more}`, greedy.
unfoldable pub match_more : (ℕ → Bool) → Continuation → ℕ → Option ℕ → Text → Option Text
match_more p k zero before s = k before s
match_more p k (suc more) before [] = k before []
match_more p k (suc more) before (c ∷ s) =
    let longer = match_more p k more (some c) s in
    if p c then or_else longer (k before (c ∷ s)) else k before (c ∷ s)

-- `p{low}`.
unfoldable pub match_exactly : (ℕ → Bool) → Continuation → ℕ → Option ℕ → Text → Option Text
match_exactly p k zero before s = k before s
match_exactly p k (suc low) before [] = none
match_exactly p k (suc low) before (c ∷ s) =
    let rest = match_exactly p k low (some c) s in if p c then rest else none

unfoldable pub match_pieces : List Piece → Continuation
unfolding match_exactly match_more match_endless
match_pieces [] before s = some s
match_pieces (run p low more ∷ pieces) before s =
    match_exactly p (match_more p (match_pieces pieces) more) low before s
match_pieces (endless p low ∷ pieces) before s =
    match_exactly p (match_endless p (match_pieces pieces)) low before s
match_pieces (boundary word ∷ pieces) before s =
    let rest = match_pieces pieces before s in
    if agree (holds_of word before) (holds_of word (next_char s)) then none else rest
match_pieces (start ∷ pieces) none s = match_pieces pieces none s
match_pieces (start ∷ pieces) (some c) s = none
match_pieces (ahead_not p ∷ pieces) before s =
    let rest = match_pieces pieces before s in if holds_of p (next_char s) then none else rest

-- The alternatives of an expression, each with how many of its first characters the replacement
-- keeps: the group `$1`.
abbrev pub Rule : Type 0
Rule = List (ℕ × List Piece)

-- The characters that a match keeps, and how many it takes beyond the first. No expression here
-- matches the empty text.
unfoldable pub match_rule : Rule → Option ℕ → Text → Option (Text × ℕ)
unfolding match_pieces
match_rule [] before s = none
match_rule ((kept, pieces) ∷ rule) before s =
    let others = match_rule rule before s in
    elim (match_pieces pieces before s) [
      | none ↦ others
      | some rest ↦
          if length rest == length s then others else some (take kept s, length s - length rest - 1)
    ]

-- `value.replace(/…/g, …)`, where `skip` characters are still of the last match.
unfoldable pub replace_from : Rule → Text → ℕ → Option ℕ → Text → Text
unfolding match_rule
replace_from rule by skip before [] = []
replace_from rule by (suc skip) before (c ∷ s) = replace_from rule by skip (some c) s
replace_from rule by zero before (c ∷ s) = elim (match_rule rule before (c ∷ s)) [
  | none ↦ c ∷ replace_from rule by zero (some c) s
  | some (kept, more) ↦ kept ++ by ++ replace_from rule by more (some c) s
]
