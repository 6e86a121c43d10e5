-- ===== src/Edge/RateLimit/Window.antt =====
-- packages/middlewares/authentication/index.ts: what a window of the rate limit lets through.
use protege_mais.Base.{
  ℕ, zero, suc, ◌+◌, ◌-◌, ◌≤◌, ◌≡◌, refl, inl, inr, Option, none, some, arith, leb, if◌then◌else◌,
  Bool-cases, ℤ, pos, ◌-ℤ◌, ◌≤ℤ◌, ◌<ℤ◌, ltb_ℤ, Result, ok, err, succeeds, ok_inj,
}
use mathlib.Core.Path.{subst}
use protege_mais.Text.{Text}
use protege_mais.Base.Number.{integer}
use protege_mais.Common.Errors.{Foreign, ApplicationError, application}
use protege_mais.Edge.RateLimit.{
  Increment, Consumption, Refusal, exceeded, other_error, Limiter, plausible, judge, judged,
  unavailable, limit_exceeded, opaque_rate_limit_key, consume,
}

-- What each answer of the limiter says, of the limiter and the answer of the counter.
abbrev pub Judged : Limiter → Result Foreign Increment → Result Refusal Consumption → Type 0
Judged l a (ok c) =
    (i : Increment) × (value : ℤ) × (a ≡ ok i)
    × (i.value ≡ integer value)
    × (i.ttl_seconds ≡ integer c.retry_after_seconds)
    × (value ≤ℤ l.maximum_attempts)
    × (c.remaining_attempts ≡ l.maximum_attempts -ℤ value)
    × (pos 1 ≤ℤ c.retry_after_seconds)
    × (c.retry_after_seconds ≤ℤ l.window_seconds)
Judged l a (err (exceeded e ttl)) =
    (i : Increment) × (value : ℤ) × (a ≡ ok i)
    × (i.value ≡ integer value)
    × (i.ttl_seconds ≡ integer ttl)
    × (l.maximum_attempts <ℤ value)
    × (pos 1 ≤ℤ ttl)
    × (ttl ≤ℤ l.window_seconds)
    × (e.status_code ≡ pos 429)
Judged l a (err (other_error x)) =
    (e : ApplicationError) × (x ≡ application e)
    × (e.status_code ≡ pos 503)
    × ((i : Increment) → a ≡ ok i → plausible l i ≡ none)

plausible_inv :
    (l : Limiter) (i : Increment) (value ttl : ℤ)
    → plausible l i ≡ some (value, ttl)
    → (i.value ≡ integer value)
      × (i.ttl_seconds ≡ integer ttl)
      × (pos 1 ≤ℤ ttl)
      × (ttl ≤ℤ l.window_seconds)
unfolding plausible
plausible_inv l i value ttl e = (ground arith, ground arith, ground arith, ground arith)

judge_plausible :
    (l : Limiter) (i : Increment) (p : Option (ℤ × ℤ))
    → plausible l i ≡ p
    → Judged l (ok i) (judged l p)
unfolding judged unavailable limit_exceeded
judge_plausible l i none e =
    (_, refl, refl, λ j same. subst (λ x. plausible l x ≡ none) (ok_inj same) e)
judge_plausible l i (some (value, ttl)) e =
    let (a, b, c, d) = plausible_inv l i value ttl e in
    elim (Bool-cases (ltb_ℤ l.maximum_attempts value)) [
      | inl over ↦ rw over (i, value, refl, a, b, ground (arith, over), c, d, refl)
      | inr within ↦ rw within (i, value, refl, a, b, ground (arith, within), refl, c, d)
    ]

-- What every answer of the limiter means, whatever the counter says. An attempt is let through
-- only at a whole count up to the maximum, and is told how many are left and a time within the
-- window. An attempt is refused with status 429 only at a whole count above the maximum, with a
-- time within the window. Any other error has status 503, and then the counter failed or its two
-- numbers were not plausible.
pub judge-Judged : (l : Limiter) (a : Result Foreign Increment) → Judged l a (judge l a)
unfolding judge unavailable
judge-Judged l (err cause) = (_, refl, refl, λ i same. cc)
judge-Judged l (ok i) = judge_plausible l i (plausible l i) refl

-- A counter between two expirations of its keys, which it lets live for `w` seconds: it has counted
-- the calls for a key, adds one, and answers with the new number and the time that the key has left.
pub record WindowCounter (S : Type 0) (w : ℕ) : Type 0 where
  pub increment : Text → ℤ → S → Result Foreign Increment × S
  pub counted : Text → S → ℕ
  pub time_left : Text → S → ℕ
  pub counts :
      (key : Text) (window : ℤ) (s : S) → counted key (increment key window s).1 ≡ counted key s + 1
  pub answers :
      (key : Text) (window : ℤ) (s : S)
      → (increment key window s).0
        ≡ ok (record {
          value = integer (pos (counted key s + 1));
          ttl_seconds = integer (pos (time_left key s));
        })
  pub lives : (key : Text) (s : S) → (1 ≤ time_left key s) × (time_left key s ≤ w)

plausible_counted :
    (l : Limiter) (w v ttl : ℕ)
    → l.window_seconds ≡ pos w
    → 1 ≤ v
    → v ≤ 9007199254740991
    → 1 ≤ ttl
    → ttl ≤ w
    → w ≤ 9007199254740991
    → plausible l (record { value = integer (pos v); ttl_seconds = integer (pos ttl) })
      ≡ some (pos v, pos ttl)
unfolding plausible
plausible_counted l w v ttl ew a b c d e = rw ew (ground arith)

-- A value that the counter says within the limits of the window succeeds up to the maximum.
pub judge_counted :
    (l : Limiter) (m w v ttl : ℕ)
    → l.maximum_attempts ≡ pos m
    → l.window_seconds ≡ pos w
    → 1 ≤ v
    → v ≤ 9007199254740991
    → 1 ≤ ttl
    → ttl ≤ w
    → w ≤ 9007199254740991
    → succeeds (judge l (ok (record { value = integer (pos v); ttl_seconds = integer (pos ttl) })))
      ≡ leb v m
unfolding judge judged
judge_counted l m w v ttl em ew a b c d e =
    let i : Increment = record { value = integer (pos v); ttl_seconds = integer (pos ttl) } in
    let known : plausible l i ≡ some (pos v, pos ttl) = plausible_counted l w v ttl ew a b c d e in
    rw known (ground (arith, em))

module _ {S : Type 0} {w : ℕ} (counter : WindowCounter S w) (digest : Text → Text → Text)
    (l : Limiter) (address : Text) where
  -- How many of the next `n` calls of `consume` are let through.
  unfoldable pub let_through : ℕ → S → ℕ
  let_through zero s = 0
  let_through (suc n) s =
      let (r, s') = consume digest (counter.increment) l address s in
      (if succeeds r then 1 else 0) + let_through n s'

  consume_counted :
      (m c : ℕ) (s : S)
      → l.maximum_attempts ≡ pos m
      → l.window_seconds ≡ pos w
      → w ≤ 9007199254740991
      → counter.counted (opaque_rate_limit_key digest address l.secret) s ≡ c
      → c + 1 ≤ 9007199254740991
      → (succeeds (consume digest (counter.increment) l address s).0 ≡ leb (c + 1) m)
        × (counter.counted
              (opaque_rate_limit_key digest address l.secret)
              (consume digest (counter.increment) l address s).1
            ≡ c + 1)
  unfolding consume
  consume_counted m c s em ew hw ec h =
      let key = opaque_rate_limit_key digest address l.secret in
      let (left, right) = counter.lives key s in
      let answer = counter.answers key l.window_seconds s in
      (
        rw (answer, ec)
            (judge_counted l m w (c + 1) (counter.time_left key s) em ew (ground arith) h left right
              hw),
        rw ec at (counter.counts key l.window_seconds s),
      )

  -- The next `n` calls after `c` let through as many as there is room for up to the maximum.
  let_through_from :
      (m c n : ℕ) (s : S)
      → l.maximum_attempts ≡ pos m
      → l.window_seconds ≡ pos w
      → w ≤ 9007199254740991
      → counter.counted (opaque_rate_limit_key digest address l.secret) s ≡ c
      → c + n ≤ 9007199254740991
      → let_through n s ≡ (if leb n (m - c) then n else m - c)
  unfolding let_through
  let_through_from m c zero s em ew hw ec h = ground arith
  let_through_from m c (suc n) s em ew hw ec h =
      let (said, next) = consume_counted m c s em ew hw ec (ground (arith, h)) in
      let rest =
        let_through_from m (c + 1) n (consume digest (counter.increment) l address s).1 em ew hw
          next (ground (arith, h)) in
      rw (said, rest) (ground arith)

  -- With a counter that lets its keys live for the limiter's window, from no call counted for the
  -- key of an address, the limiter
  -- lets through the first calls for an address up to the maximum, and no other: of the next `n`
  -- calls, `n` or the maximum, whichever is less. The maximum is a natural number, and the window
  -- and `n` are safe integers.
  pub let_through_lem :
      (m n : ℕ) (s : S)
      → l.maximum_attempts ≡ pos m
      → l.window_seconds ≡ pos w
      → w ≤ 9007199254740991
      → n ≤ 9007199254740991
      → counter.counted (opaque_rate_limit_key digest address l.secret) s ≡ 0
      → let_through n s ≡ (if leb n m then n else m)
  let_through_lem m n s em ew hw h ec =
      ground (arith, let_through_from m 0 n s em ew hw ec (ground (arith, h)))
