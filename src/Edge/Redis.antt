-- ===== src/Edge/Redis.antt =====
-- packages/plugins/redis/index.ts: the guards, the namespace, the delay of a reconnection and the
-- commands. The client of the package `redis` is a parameter: one function for each of its calls.
pub mod Delay
pub mod Guards
pub mod Limit
pub mod Lifecycle
use protege_mais.Base.{
  ℕ, ◌+◌, ◌*◌, ◌^◌, Bool, not, ◌||◌, Option, none, some, List, [], ◌∷◌, ◌++◌, ltb, leb, ◌==◌,
  if◌then◌else◌, any, ℤ, pos, ltb_ℤ, leb_ℤ, eqb_ℤ, Result, ok, err, ◌>>=◌, ◌>>◌, throw_if,
}
use protege_mais.Text.{Text, codes, trim, utf16_length, is_ascii_control, text_eq, member}
use protege_mais.Text.Unicode.{Unicode}
use protege_mais.Common.Errors.{Foreign, named}
use protege_mais.Base.Number.{Number, integer, is_safe, as_integer}
use protege_mais.Edge.RateLimit.{Increment}

abbrev pub redis_maximum_reconnect_delay_ms : ℕ
redis_maximum_reconnect_delay_ms = 2000

-- The test of `assertKey`.
unfoldable pub is_unsafe_key : Text → Bool
unfolding utf16_length trim text_eq is_ascii_control
is_unsafe_key key =
    utf16_length key == 0
    || ltb 512 (utf16_length key)
    || not (text_eq key (trim key))
    || any is_ascii_control key

unfoldable pub assert_key : Text → Result Foreign (Unit {0})
unfolding is_unsafe_key
assert_key key = throw_if (is_unsafe_key key) (named (codes "RangeError"))

-- `assertTtl`, with the number of seconds that passed.
unfoldable pub assert_ttl : Number → Result Foreign ℤ
assert_ttl ttl = elim (as_integer ttl) [
  | none ↦ err (named (codes "RangeError"))
  | some n ↦ if not (is_safe n) || leb_ℤ n (pos 0) then err (named (codes "RangeError")) else ok n
]

abbrev pub namespace_environments : List Text
namespace_environments = codes "local" ∷ codes "dev" ∷ codes "hmg" ∷ codes "prod" ∷ []

unfoldable pub redis_key_namespace : Unicode → Text → Result Foreign Text
unfolding trim member
redis_key_namespace u environment =
    let normalized = u.to_lower_case (trim environment) in
    if not (member normalized namespace_environments)
    then err (named (codes "RangeError"))
    else ok (codes "protege-mais:" ++ normalized ++ codes ":")

abbrev pub min_ℕ : ℕ → ℕ → ℕ
min_ℕ a b = if leb a b then a else b

-- `jitter` is `Math.floor(Math.random() * 200)`.
unfoldable pub redis_reconnect_delay : ℕ → ℕ → ℕ
redis_reconnect_delay jitter retries =
    min_ℕ (50 * 2 ^ min_ℕ retries 10 + jitter) redis_maximum_reconnect_delay_ms

-- A reply of a transaction, as `typeof` tells it.
pub data Reply : Type 0 where
  number : Number → Reply
  other_reply : Reply

-- The calls of the client, each on what the server holds; a rejection is an error.
pub record Client (S : Type 0) : Type 0 where
  pub get : Text → S → Result Foreign (Option Text) × S
  pub set : Text → Text → S → Result Foreign (Unit {0}) × S
  pub set_ex : Text → ℤ → Text → S → Result Foreign (Unit {0}) × S
  pub del : Text → S → Result Foreign ℕ × S
  pub expire : Text → ℤ → S → Result Foreign ℤ × S
  -- `multi().incr(key).expire(key, ttl, 'NX').ttl(key).exec()`
  pub increment : Text → ℤ → S → Result Foreign (Reply × Reply × Reply) × S

-- A reply that is a safe integer from 1 on.
abbrev pub counted_reply : Reply → Option ℤ
counted_reply other_reply = none
counted_reply (number n) = elim (as_integer n) [
  | none ↦ none
  | some value ↦ if not (is_safe value) || ltb_ℤ value (pos 1) then none else some value
]

-- The test of the replies of a transaction.
abbrev pub checked_replies : Option ℤ → Option ℤ → Result Foreign Increment
checked_replies (some value) (some ttl) =
    ok (record { value = integer value; ttl_seconds = integer ttl })
checked_replies (some value) none = err (named (codes "Error"))
checked_replies none ttl = err (named (codes "Error"))

unfoldable pub read_replies : Result Foreign (Reply × Reply × Reply) → Result Foreign Increment
read_replies (err cause) = err cause
read_replies (ok (value, changed, ttl)) = checked_replies (counted_reply value) (counted_reply ttl)

-- A call behind a guard: a throw leaves it out.
abbrev pub behind :
    {A B S : Type 0} → Result Foreign A → (A → S → Result Foreign B × S) → S → Result Foreign B × S
behind (err e) action s = (err e, s)
behind (ok a) action s = action a s

module _ {S : Type 0} (client : Client S) where
  unfoldable pub get : Text → S → Result Foreign (Option Text) × S
  unfolding assert_key
  get key = behind (assert_key key) (λ fine. client.get key)

  unfoldable pub set : Text → Text → S → Result Foreign (Unit {0}) × S
  unfolding assert_key
  set key value = behind (assert_key key) (λ fine. client.set key value)

  unfoldable pub set_with_expiration : Text → Text → Number → S → Result Foreign (Unit {0}) × S
  unfolding assert_key assert_ttl
  set_with_expiration key value ttl =
      behind (assert_key key >> assert_ttl ttl) (λ seconds. client.set_ex key seconds value)

  -- `delete`
  unfoldable pub remove : Text → S → Result Foreign ℕ × S
  unfolding assert_key
  remove key = behind (assert_key key) (λ fine. client.del key)

  unfoldable pub expire : Text → Number → S → Result Foreign Bool × S
  unfolding assert_key assert_ttl
  expire key ttl = behind (assert_key key >> assert_ttl ttl) (λ seconds s.
      let (answer, s') = client.expire key seconds s in
      (answer >>= (λ n. ok (eqb_ℤ n (pos 1))), s'))

  unfoldable pub increment_with_expiration : Text → Number → S → Result Foreign Increment × S
  unfolding assert_key assert_ttl read_replies
  increment_with_expiration key ttl =
      behind (assert_key key >> assert_ttl ttl) (λ seconds s.
        let (answer, s') = client.increment key seconds s in (read_replies answer, s'))
