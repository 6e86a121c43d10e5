-- ===== src/Edge/Redis/Delay.antt =====
-- packages/plugins/redis/index.ts: the delays between reconnections.
use protege_mais.Base.{
  ℕ, suc, ◌+◌, ◌*◌, ◌^◌, ◌≤◌, ◌<◌, ◌≡◌, inl, inr, arith, leb, leb→le, Bool-cases,
}
use native.Mathlib.Nat.{pow-le-pow_right, pow-succ'}
use protege_mais.Edge.Redis.{redis_reconnect_delay, min_ℕ}

min_ℕ_within : (a b : ℕ) → a ≤ b → min_ℕ a b ≡ a
min_ℕ_within a b h = ground arith

power_mono : (a b : ℕ) → a ≤ b → 2 ^ a ≤ 2 ^ b
power_mono a b h = pow-le-pow_right (omega arith) h

-- One retry more doubles the base of the delay.
power_doubles : (a b : ℕ) → a < b → 2 * 2 ^ a ≤ 2 ^ b
power_doubles a b h = omega (arith, pow-succ' 2 a, power_mono (suc a) b (omega (arith, h)))

-- Two delays of which the later one has at least twice the base of the first.
delays :
    (p q d e : ℕ) → d < 200 → 4 ≤ p → 2 * p ≤ q → min_ℕ (50 * p + d) 2000 ≤ min_ℕ (50 * q + e) 2000
delays p q d e h k l = ground arith

-- The delay from the sixth retry on.
longest : (drawn retries : ℕ) → 6 ≤ retries → redis_reconnect_delay drawn retries ≡ 2000
unfolding redis_reconnect_delay
longest drawn retries h = ground (arith, power_mono 6 (min_ℕ retries 10) (ground arith))

shortest : (drawn retries : ℕ) → 50 ≤ redis_reconnect_delay drawn retries
unfolding redis_reconnect_delay
shortest drawn retries = ground (arith, power_mono 0 (min_ℕ retries 10) (omega arith))

below_maximum : (drawn retries : ℕ) → redis_reconnect_delay drawn retries ≤ 2000
unfolding redis_reconnect_delay
below_maximum drawn retries = ground arith

early_grows :
    (drawn redrawn retries later : ℕ)
    → drawn < 200
    → 2 ≤ retries
    → retries < later
    → later ≤ 10
    → redis_reconnect_delay drawn retries ≤ redis_reconnect_delay redrawn later
unfolding redis_reconnect_delay
early_grows drawn redrawn retries later h two more early =
    rw (min_ℕ_within retries 10 (omega (arith, more, early)), min_ℕ_within later 10 early)
      (delays (2 ^ retries) (2 ^ later) drawn redrawn h (power_mono 2 retries two)
        (power_doubles retries later more))

grows :
    (drawn redrawn retries later : ℕ)
    → drawn < 200
    → 2 ≤ retries
    → retries < later
    → redis_reconnect_delay drawn retries ≤ redis_reconnect_delay redrawn later
grows drawn redrawn retries later h two more = elim (Bool-cases (leb later 10)) [
  | inl early ↦ early_grows drawn redrawn retries later h two more (leb→le later 10 early)
  | inr late ↦ rw (longest redrawn later (ground (arith, late))) (below_maximum drawn retries)
]

-- The time before a reconnection is at least 50 and at most 2000 milliseconds, and from the sixth
-- retry on 2000; and from the second retry on it does not shrink when more retries have failed.
-- All this holds whatever is drawn each time, below 200.
pub redis_reconnect_delay-bounds :
    (drawn redrawn retries later more : ℕ)
    → drawn < 200
    → 2 ≤ retries
    → retries < later
    → (50 ≤ redis_reconnect_delay redrawn more)
      × (redis_reconnect_delay redrawn more ≤ 2000)
      × (redis_reconnect_delay redrawn (more + 6) ≡ 2000)
      × (redis_reconnect_delay drawn retries ≤ redis_reconnect_delay redrawn later)
redis_reconnect_delay-bounds drawn redrawn retries later more h two after = (
  shortest redrawn more,
  below_maximum redrawn more,
  longest redrawn (more + 6) (omega arith),
  grows drawn redrawn retries later h two after,
)
