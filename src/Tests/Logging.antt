-- ===== src/Tests/Logging.antt =====
-- The theorems on the logs and on Redis.
use protege_mais.Logging.Sanitization.{
  sanitize_inside, has_seen, Seen, Heap, plain, gives, throws, string, object, sanitize_log_value,
  sanitize_internal, sanitize_leaf, text, circular_log_value,
}
use protege_mais.Base.{
  ℕ, ◌+◌, ◌≤◌, ◌≡◌, refl, Bool, true, false, none, some, List, [], ◌∷◌, arith, leb, if◌then◌else◌,
  pos, ◌-ℤ◌, ok, err, succeeds,
}
use protege_mais.Text.{Text, codes, is_alphanumeric}
use protege_mais.Text.Unicode.{ascii_only}
use protege_mais.Logging.Keys.{is_sensitive_log_key}
use protege_mais.Logging.Fits.{Fits}
use protege_mais.Logging.Cycles.{blind}
use protege_mais.Logging.Once.{entries_of, sanitize_each, sanitize_internal_again}
use protege_mais.Logging.Shape.{sanitize_log_value-Fits}
use protege_mais.Logging.Spelling.{is_sensitive_log_key-letters}
use protege_mais.Edge.Redis.{
  increment_with_expiration, Client, number, other_reply, redis_reconnect_delay,
}
use protege_mais.Edge.Redis.Delay.{redis_reconnect_delay-bounds}
use protege_mais.Edge.Redis.Limit.{
  FromRedis, consume_redis, consume_redis_sound, consume_redis_complete,
}
use protege_mais.Edge.Redis.Lifecycle.{
  Event, history-close, connects, starts, closes, commands, asks_ready, own_calls, client_reports,
  history, close, new_connection, is_ready, connections, closings, connect,
}
use protege_mais.Base.Number.{integer}
use protege_mais.Edge.RateLimit.{consume, plausible, Limiter, opaque_rate_limit_key}
use protege_mais.Common.Errors.{named}

-- An object with a secret, a getter that throws, and itself.
abbrev cyclic : Heap
cyclic id = plain (
    (codes "password", gives (string (codes "x")))
    ∷ (codes "self", gives (object id))
    ∷ (codes "broken", throws)
    ∷ [])

sanitize_log_value-Fits_example :
    Fits
      (is_sensitive_log_key ascii_only (λ s. s))
      9
      (sanitize_log_value ascii_only (λ s. s) cyclic (object 7))
sanitize_log_value-Fits_example =
    sanitize_log_value-Fits ascii_only (λ s. s) (λ s h. refl) cyclic (object 7)

abbrev sensitive : Text → Bool
sensitive = is_sensitive_log_key ascii_only (λ s. s)

-- The object 7 holds itself, and is sanitized between the objects 3 and 9.
abbrev first_seen : Seen
first_seen = sanitize_each sensitive cyclic ((8, object 3) ∷ []) []

abbrev all_seen : Seen
all_seen =
    sanitize_each sensitive cyclic ((3, object 9) ∷ (0, object 7) ∷ [])
      (sanitize_internal sensitive cyclic 8 (object 7) first_seen).1

sanitize_internal_again_example :
    (entries_of 7 all_seen ≡ 1)
    × (sanitize_internal sensitive cyclic 8 (object 7) first_seen ≡ (
        if has_seen 7 first_seen
        then (some (text circular_log_value), first_seen)
        else sanitize_inside sensitive (blind sensitive cyclic 7 7) (cyclic 7) (7 ∷ first_seen)))
    × (sanitize_internal sensitive cyclic 5 (object 7) all_seen
        ≡ (some (text circular_log_value), all_seen))
unfolding sanitize_leaf
sanitize_internal_again_example =
    sanitize_internal_again sensitive cyclic 7 ((8, object 3) ∷ [])
      ((3, object 9) ∷ (0, object 7) ∷ []) 7 4 refl

is_sensitive_log_key-letters_example :
    is_sensitive_log_key ascii_only (λ s. s) (codes "push-Token")
    ≡ is_sensitive_log_key ascii_only (λ s. s) (codes "pushToken")
unfolding is_alphanumeric
is_sensitive_log_key-letters_example =
    (is_sensitive_log_key-letters ascii_only (λ s. s) (λ s h. refl) (codes "push") (codes "Token")
      b'-' refl refl refl).1

redis_reconnect_delay-bounds_example :
    (50 ≤ redis_reconnect_delay 7 1)
    × (redis_reconnect_delay 7 1 ≤ 2000)
    × (redis_reconnect_delay 7 (1 + 6) ≡ 2000)
    × (redis_reconnect_delay 199 2 ≤ redis_reconnect_delay 7 3)
redis_reconnect_delay-bounds_example =
    redis_reconnect_delay-bounds 199 7 2 3 1 (omega arith) (omega arith) (omega arith)

abbrev before_close : List Event
before_close = connects ∷ starts ∷ client_reports true true ∷ commands ∷ asks_ready (some true) ∷ []

abbrev after_close : List Event
after_close = closes ∷ starts ∷ commands ∷ asks_ready (some true) ∷ []

history-close_example :
    (connections (history after_close (close (history before_close new_connection))).calls ≤ 1)
    × (closings (history after_close (close (history before_close new_connection))).calls ≤ 1)
    × (own_calls (history after_close (close (history before_close new_connection))).calls
        ≡ own_calls (close (history before_close new_connection)).calls)
    × ((connect (history after_close (close (history before_close new_connection)))).0
        ≡ err (named (codes "Error")))
    × (is_ready (some true) (history after_close (close (history before_close new_connection)))
        ≡ (false, history after_close (close (history before_close new_connection))))
history-close_example = history-close before_close after_close (some true)

-- A server whose count of every key is the number it holds.
abbrev server : Client ℕ
server = record {
  get = λ key n. (ok none, n);
  set = λ key value n. (ok tt, n);
  set_ex = λ key ttl value n. (ok tt, n);
  del = λ key n. (ok 0, n);
  expire = λ key ttl n. (ok (pos 1), n);
  increment = λ key ttl n.
      (ok (number (integer (pos (n + 1))), other_reply, number (integer (pos 30))), n + 1);
}

abbrev limiter : Limiter
limiter = record {
  secret = codes "the secret of the rate limit, 32+";
  maximum_attempts = pos 5;
  window_seconds = pos 60;
}

-- Sixty-four digits.
abbrev digits : Text
digits = codes "0123456789abcdef0123456789abcdef0123456789abcdef0123456789abcdef"

consume_redis_complete_example :
    succeeds
      (consume_redis server
        (λ key value. digits)
        limiter
        (λ key value. refl)
        (λ key value. refl)
        60
        refl
        (omega arith)
        (omega arith)
        (codes "10.0.0.1")
        5).0
    ≡ leb 6 5
consume_redis_complete_example =
    consume_redis_complete server (λ key value. digits) limiter (λ key value. refl)
      (λ key value. refl) 60 refl (omega arith) (omega arith) (codes "10.0.0.1") 5 5 6 30
      other_reply refl refl (omega arith) (omega arith) (omega arith) (omega arith)

-- The sixth attempt.
consume_redis_sound_example :
    ((consume_redis server
        (λ key value. digits)
        limiter
        (λ key value. refl)
        (λ key value. refl)
        60
        refl
        (omega arith)
        (omega arith)
        (codes "10.0.0.1")
        5).1
      ≡ 6)
    × FromRedis server
        (λ key value. digits)
        limiter
        (λ key value. refl)
        (λ key value. refl)
        60
        refl
        (omega arith)
        (omega arith)
        (codes "10.0.0.1")
        (server.increment
          (opaque_rate_limit_key (λ key value. digits) (codes "10.0.0.1") limiter.secret)
          (pos 60)
          5).0
        (consume_redis server
          (λ key value. digits)
          limiter
          (λ key value. refl)
          (λ key value. refl)
          60
          refl
          (omega arith)
          (omega arith)
          (codes "10.0.0.1")
          5).0
unfolding consume increment_with_expiration plausible ◌-ℤ◌
consume_redis_sound_example =
    consume_redis_sound server (λ key value. digits) limiter (λ key value. refl) (λ key value. refl)
      60 refl (omega arith) (omega arith) (codes "10.0.0.1") 5
