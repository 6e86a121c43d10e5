-- ===== src/Services/Dates.antt =====
-- packages/services/authentication/access-token.ts and refresh-token.ts, packages/useCases/
-- authentication/time.ts: a JavaScript `Date`, which is an instant in milliseconds or invalid.
use protege_mais.Base.{
  ◌≡◌, Bool, true, false, ◌&&◌, if◌then◌else◌, ℤ, pos, negsuc, leb_ℤ, floor_div, scale,
  floor_div-scale,
}

pub data Date : Type 0 where
  valid : ℤ → Date
  invalid_date : Date

-- TimeClip: at most 8.64e15 milliseconds from the epoch.
abbrev pub in_date_range : ℤ → Bool
in_date_range t = leb_ℤ (negsuc 8639999999999999) t && leb_ℤ t (pos 8640000000000000)

-- `new Date(t)`
abbrev pub new_date : ℤ → Date
new_date t = if in_date_range t then valid t else invalid_date

-- `Number.isFinite(value.getTime())`
abbrev pub valid_date : Date → Bool
valid_date (valid t) = true
valid_date invalid_date = false

-- `unixTime`, of a valid date.
unfoldable pub unix_time : ℤ → ℤ
unfolding floor_div
unix_time t = floor_div t 1000

-- `new Date(seconds * 1_000)`
unfoldable pub date_of_seconds : ℤ → Date
unfolding scale
date_of_seconds s = new_date (scale s 1000)

-- `authenticationTokenIssuedAt`: the whole second of an instant.
unfoldable pub authentication_token_issued_at : Date → Date
unfolding unix_time date_of_seconds
authentication_token_issued_at invalid_date = invalid_date
authentication_token_issued_at (valid t) = date_of_seconds (unix_time t)

-- Truncation to the second changes no count of seconds.
pub unix_time-scale : (s : ℤ) → unix_time (scale s 1000) ≡ s
unfolding unix_time
unix_time-scale s = floor_div-scale s
