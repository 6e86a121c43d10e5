-- ===== src/Base/Number.antt =====
-- A JavaScript number, as far as the source tells numbers apart: an integer, or a value that no
-- `Number.isInteger` accepts (a fraction, an infinity, NaN; only the last two are not finite).
use mathlib.Core.Bool.{Bool, true, false, ◌&&◌}
use mathlib.Core.Option.{Option, none, some}
use protege_mais.Base.Int.{ℤ, pos, negsuc, leb_ℤ}

pub data Number : Type 0 where
  integer : ℤ → Number
  fraction : Number
  non_finite : Number

-- 2 ^ 53 - 1
abbrev pub max_safe_integer : ℤ
max_safe_integer = pos 9007199254740991

abbrev pub min_safe_integer : ℤ
min_safe_integer = negsuc 9007199254740990

-- `Number.isInteger`
abbrev pub as_integer : Number → Option ℤ
as_integer (integer n) = some n
as_integer fraction = none
as_integer non_finite = none

abbrev pub is_finite : Number → Bool
is_finite (integer n) = true
is_finite fraction = true
is_finite non_finite = false

abbrev pub is_safe : ℤ → Bool
is_safe n = leb_ℤ min_safe_integer n && leb_ℤ n max_safe_integer
