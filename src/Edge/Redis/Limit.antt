-- ===== src/Edge/Redis/Limit.antt =====
-- packages/middlewares/authentication/index.ts over packages/plugins/redis/index.ts: the rate limit
-- of logins that counts by `incrementWithExpiration`.
use protege_mais.Base.{
  ℕ, ◌≤◌, ◌≡◌, refl, sym, ap, ◌∙◌, true, Option, none, some, arith, leb, length, every, ℤ, pos,
  ◌-ℤ◌, ◌≤ℤ◌, ◌<ℤ◌, Result, ok, err, succeeds, ok_inj,
}
use protege_mais.Text.{Text}
use protege_mais.Edge.RateLimit.Window.{Judged, judge_counted, judge-Judged}
use mathlib.Core.Path.{subst}
use protege_mais.Common.Errors.{Foreign, ApplicationError, application}
use protege_mais.Base.Number.{integer}
use protege_mais.Edge.RateLimit.{
  Increment, Limiter, Refusal, exceeded, other_error, Consumption, consume, opaque_rate_limit_key,
  judge,
}
use protege_mais.Edge.Redis.{
  Client, Reply, number, other_reply, counted_reply, checked_replies, read_replies, assert_key,
  assert_ttl, increment_with_expiration,
}
use protege_mais.Edge.Redis.Guards.{is_hexadecimal, opaque_key_safe}

counted_reply_inv :
    (r : Reply) (n : ℤ) → counted_reply r ≡ some n → (r ≡ number (integer n)) × (pos 1 ≤ℤ n)
counted_reply_inv other_reply n e = cc
counted_reply_inv (number x) n e = (ground arith, ground arith)

checked_inv :
    (value ttl : Option ℤ) (i : Increment)
    → checked_replies value ttl ≡ ok i
    → (n : ℤ) × (t : ℤ) × (value ≡ some n)
      × (ttl ≡ some t)
      × (i.value ≡ integer n)
      × (i.ttl_seconds ≡ integer t)
checked_inv none ttl i e = cc
checked_inv (some n) none i e = cc
checked_inv (some n) (some t) i e = (
  n,
  t,
  refl,
  refl,
  ap (λ (i : Increment). i.value) (sym (ok_inj e)),
  ap (λ (i : Increment). i.ttl_seconds) (sym (ok_inj e)),
)

integer_inj : (a b : ℤ) → integer a ≡ integer b → a ≡ b
integer_inj a b e = cc

-- What a counter has said when its replies were accepted.
replies_inv :
    (answer : Result Foreign (Reply × Reply × Reply)) (i : Increment) (value ttl : ℤ)
    → read_replies answer ≡ ok i
    → i.value ≡ integer value
    → i.ttl_seconds ≡ integer ttl
    → (changed : Reply) × (answer ≡ ok (number (integer value), changed, number (integer ttl)))
      × (pos 1 ≤ℤ value)
unfolding read_replies
replies_inv (err e) i value ttl read v t = cc
replies_inv (ok (a, changed, b)) i value ttl read v t =
    let (n, m, en, em, vn, tm) = checked_inv (counted_reply a) (counted_reply b) i read in
    let (ea, positive) = counted_reply_inv a n en in
    let (eb, lasting) = counted_reply_inv b m em in
    let same : n ≡ value = integer_inj n value (sym vn ∙ v) in
    let same' : m ≡ ttl = integer_inj m ttl (sym tm ∙ t) in
    (changed, rw (ea, eb, same, same') refl, subst (λ x. pos 1 ≤ℤ x) same positive)

counted_lem :
    (n : ℕ) → 1 ≤ n → n ≤ 9007199254740991 → counted_reply (number (integer (pos n))) ≡ some (pos n)
counted_lem n low high = ground arith

replies_lem :
    (n t : ℕ) (changed : Reply)
    → 1 ≤ n
    → n ≤ 9007199254740991
    → 1 ≤ t
    → t ≤ 9007199254740991
    → read_replies (ok (number (integer (pos n)), changed, number (integer (pos t))))
      ≡ ok (record { value = integer (pos n); ttl_seconds = integer (pos t) })
unfolding read_replies
replies_lem n t changed low high lasting within =
    rw (counted_lem n low high, counted_lem t lasting within) refl

module _ {S : Type 0} (client : Client S) (digest : Text → Text → Text) (l : Limiter)
    (hexadecimal : (secret value : Text) → every is_hexadecimal (digest secret value) ≡ true)
    (long : (secret value : Text) → length (digest secret value) ≡ 64) (w : ℕ)
    (window : l.window_seconds ≡ pos w) (positive : 1 ≤ w) (safe : w ≤ 9007199254740991)
    (address : Text) where
  -- The limiter as the application makes it, over the commands of Redis.
  abbrev pub consume_redis : S → Result Refusal Consumption × S
  consume_redis =
      consume digest (λ key seconds. increment_with_expiration client key (integer seconds)) l
        address

  abbrev answer : S → Result Foreign (Reply × Reply × Reply) × S
  answer = client.increment (opaque_rate_limit_key digest address l.secret) (pos w)

  consume_redis_lem :
      (s : S) → consume_redis s ≡ (judge l (read_replies (answer s).0), (answer s).1)
  unfolding consume increment_with_expiration assert_key assert_ttl
  consume_redis_lem s =
      rw (opaque_key_safe client digest l hexadecimal long address, window)
        (ground (arith, positive, safe))

  -- The answer of the transaction, read by what the limiter has made of it.
  abbrev pub FromRedis :
      Result Foreign (Reply × Reply × Reply) → Result Refusal Consumption → Type 0
  FromRedis said (ok c) =
      (value : ℤ) × (changed : Reply) × (said
        ≡ ok (number (integer value), changed, number (integer c.retry_after_seconds)))
      × (pos 1 ≤ℤ value)
      × (value ≤ℤ l.maximum_attempts)
      × (c.remaining_attempts ≡ l.maximum_attempts -ℤ value)
      × (pos 1 ≤ℤ c.retry_after_seconds)
      × (c.retry_after_seconds ≤ℤ pos w)
  FromRedis said (err (exceeded e ttl)) =
      (value : ℤ) × (changed : Reply) × (said
        ≡ ok (number (integer value), changed, number (integer ttl)))
      × (l.maximum_attempts <ℤ value)
      × (pos 1 ≤ℤ ttl)
      × (ttl ≤ℤ pos w)
      × (e.status_code ≡ pos 429)
  FromRedis said (err (other_error x)) =
      (e : ApplicationError) × (x ≡ application e) × (e.status_code ≡ pos 503)

  Judged-FromRedis :
      (said : Result Foreign (Reply × Reply × Reply)) (r : Result Refusal Consumption)
      → Judged l (read_replies said) r
      → FromRedis said r
  Judged-FromRedis said (ok c) (i, value, read, v, t, within, left, lasting, bounded) =
      let (changed, answered, counted) = replies_inv said i value c.retry_after_seconds read v t in
      (
        value,
        changed,
        answered,
        counted,
        within,
        left,
        lasting,
        subst (λ x. c.retry_after_seconds ≤ℤ x) window bounded,
      )
  Judged-FromRedis said (err (exceeded e ttl))
        (i, value, read, v, t, over, lasting, bounded, status) =
      let (changed, answered, counted) = replies_inv said i value ttl read v t in
      (value, changed, answered, over, lasting, subst (λ x. ttl ≤ℤ x) window bounded, status)
  Judged-FromRedis said (err (other_error x)) (e, same, status, implausible) = (e, same, status)

  -- Of every attempt, whatever becomes of it: what Redis holds is moved by one transaction, of the
  -- address's key and the window, and by nothing else. If the attempt is let through, the transaction
  -- has answered with a whole count between 1 and the maximum, of which the answer tells the rest, and
  -- with a time to live between one second and the window, which it tells too. If the attempt is
  -- refused with 429, the count is above the maximum, and the time to live is within the window.
  -- Whatever else is thrown has status 503.
  pub consume_redis_sound :
      (s : S) → ((consume_redis s).1 ≡ (answer s).1) × FromRedis (answer s).0 (consume_redis s).0
  consume_redis_sound s =
      let made = consume_redis_lem s in
      (
        ap (λ r. r.1) made,
        subst (FromRedis (answer s).0) (sym (ap (λ r. r.0) made)) (
            Judged-FromRedis (answer s).0 (judge l (read_replies (answer s).0))
              (judge-Judged l (read_replies (answer s).0))),
      )

  -- When Redis answers with a count and a time to live within the window, an attempt is let through
  -- exactly if the count is at most the maximum.
  pub consume_redis_complete :
      (s : S) (m n t : ℕ) (changed : Reply)
      → l.maximum_attempts ≡ pos m
      → (answer s).0 ≡ ok (number (integer (pos n)), changed, number (integer (pos t)))
      → 1 ≤ n
      → n ≤ 9007199254740991
      → 1 ≤ t
      → t ≤ w
      → succeeds (consume_redis s).0 ≡ leb n m
  consume_redis_complete s m n t changed em answered low high lasting within =
      rw (consume_redis_lem s, answered, replies_lem n t changed low high lasting (omega arith))
        (judge_counted l m w n t em window low high lasting within safe)
