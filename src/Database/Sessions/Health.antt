-- ===== src/Database/Sessions/Health.antt =====
-- packages/repositories/authentication/index.ts and packages/models/auth-sessions.ts: the table
-- satisfies its constraints, and where the clock has not run back no rotation breaks them.
use protege_mais.Base.{
  ◌<◌, ◌≡◌, refl, ap, ◌∙◌, inl, inr, Bool, true, false, not, ◌||◌, some, List, [], ◌∷◌, map, arith,
  Bool-cases, every, any, ℤ, leb_ℤ,
}
use protege_mais.Database.Sessions.{text_eq, targeted, RotateInput, is_live, revoke, succeed}
use protege_mais.Text.{text_eq_iff, Text}
use protege_mais.Database.Sessions.Rows.{text_eq_symm, lookup, updated, Absent, DistinctIds}
use protege_mais.Database.Sessions.Effect.{targeted_key}
use mathlib.Core.Path.{subst}
use protege_mais.Database.Tables.{
  AuthSession, Database, Locale, is_unique, session_check, hash_check, null_or, max_integer,
  lifecycle_check, version_check,
}

abbrev pub hash_of : AuthSession → Text
hash_of s = s.refresh_token_hash

-- The constraints of the table hold.
pub record IsHealthy (pg : Locale) (db : Database) : Type 0 where
  pub distinct : DistinctIds db.auth_sessions
  pub checked : every (session_check pg) db.auth_sessions ≡ true
  pub unique_hashes : is_unique hash_of db.auth_sessions ≡ true

-- The clock reads no less than what the row records, and the row can be renewed once more.
pub record IsTimely (i : RotateInput) (s : AuthSession) : Type 0 where
  pub after_birth : leb_ℤ s.created_at i.used_at ≡ true
  pub after_use : null_or (λ u. leb_ℤ u i.used_at) s.last_used_at ≡ true
  pub countable : s.version < max_integer

pub session_check-succeed :
    (pg : Locale) (i : RotateInput) (s : AuthSession)
    → session_check pg s ≡ true
    → is_live i.used_at s ≡ true
    → IsTimely i s
    → hash_check pg i.successor_refresh_token_hash ≡ true
    → session_check pg (succeed i s) ≡ true
unfolding session_check succeed lifecycle_check version_check
session_check-succeed pg i s ok_row live timely ok_hash = ground arith

pub session_check-revoke :
    (pg : Locale) (i : RotateInput) (s : AuthSession)
    → session_check pg s ≡ true
    → is_live i.used_at s ≡ true
    → IsTimely i s
    → session_check pg (revoke i s) ≡ true
unfolding session_check revoke lifecycle_check version_check
session_check-revoke pg i s ok_row live timely = ground arith

-- The rows after an update pass the checks if the changed ones do.
every-updated :
    (c p : AuthSession → Bool) (f : AuthSession → AuthSession) (rows : List AuthSession)
    → every c rows ≡ true
    → every (λ s. not (p s) || c (f s)) rows ≡ true
    → every c (map (updated p f) rows) ≡ true
every-updated c p f [] h k = refl
every-updated c p f (s ∷ rows) h k = ground (arith, h, k, every-updated c p f rows)

-- An update of the row under one key changes no row where the key is absent.
map-Absent :
    (id h : Text) (at : ℤ) (f : AuthSession → AuthSession) (rows : List AuthSession)
    → Absent id rows
    → map (updated (targeted id h at) f) rows ≡ rows
unfolding targeted
map-Absent id h at f [] a = refl
map-Absent id h at f (s ∷ rows) a = rw (a.0, map-Absent id h at f rows a.1) refl

-- A hash that no row has before the update, and that the update does not write.
any-updated :
    (p : AuthSession → Bool) (f : AuthSession → AuthSession) (k : Text) (rows : List AuthSession)
    → any (λ (s : AuthSession). text_eq s.refresh_token_hash k) rows ≡ false
    → ((s : AuthSession) → text_eq (f s).refresh_token_hash k ≡ false)
    → any (λ (s : AuthSession). text_eq s.refresh_token_hash k) (map (updated p f) rows) ≡ false
any-updated p f k [] h w = refl
any-updated p f k (s ∷ rows) h w = ground (arith, h, w s, any-updated p f k rows)

-- Writing a hash that no row has into the one row of a key keeps the hashes distinct.
pub is_unique-succeed :
    (i : RotateInput) (id h : Text) (rows : List AuthSession)
    → DistinctIds rows
    → is_unique hash_of rows ≡ true
    → any (λ (s : AuthSession). text_eq s.refresh_token_hash i.successor_refresh_token_hash) rows
      ≡ false
    → is_unique hash_of (map (updated (targeted id h i.used_at) (succeed i)) rows) ≡ true
unfolding is_unique succeed
is_unique-succeed i id h [] d u a = refl
is_unique-succeed i id h (s ∷ rows) d u a = elim (Bool-cases (targeted id h i.used_at s)) [
  | inl hit ↦
      let fresh = subst (λ k. Absent k rows) (targeted_key id h i.used_at s hit) d.0 in
      rw (hit, map-Absent id h i.used_at (succeed i) rows fresh) (ground (arith, u, a))
  | inr miss ↦ rw miss (
      ground (
        arith,
        u,
        a,
        text_eq_symm s.refresh_token_hash i.successor_refresh_token_hash,
        any-updated (targeted id h i.used_at) (succeed i) s.refresh_token_hash rows,
        is_unique-succeed i id h rows d.1,
      ))
]

-- A revocation writes no hash.
hash-revoked :
    (i : RotateInput) (p : AuthSession → Bool) (s : AuthSession)
    → (updated p (revoke i) s).refresh_token_hash ≡ s.refresh_token_hash
unfolding revoke
hash-revoked i p s = ground arith

any_revoked :
    (i : RotateInput) (p : AuthSession → Bool) (k : Text) (rows : List AuthSession)
    → any (λ (s : AuthSession). text_eq s.refresh_token_hash k) (map (updated p (revoke i)) rows)
      ≡ any (λ (s : AuthSession). text_eq s.refresh_token_hash k) rows
any_revoked i p k [] = refl
any_revoked i p k (s ∷ rows) = rw (hash-revoked i p s, any_revoked i p k rows) refl

pub is_unique-revoke :
    (i : RotateInput) (p : AuthSession → Bool) (rows : List AuthSession)
    → is_unique hash_of (map (updated p (revoke i)) rows) ≡ is_unique hash_of rows
unfolding is_unique
is_unique-revoke i p [] = refl
is_unique-revoke i p (s ∷ rows) =
    rw (hash-revoked i p s, any_revoked i p s.refresh_token_hash rows, is_unique-revoke i p rows)
      refl

every-Absent :
    (c : AuthSession → Bool) (f : AuthSession → AuthSession) (id h : Text) (at : ℤ)
    (rows : List AuthSession)
    → Absent id rows
    → every (λ r. not (targeted id h at r) || c (f r)) rows ≡ true
unfolding targeted
every-Absent c f id h at [] a = refl
every-Absent c f id h at (r ∷ rows) a = rw (a.0) (every-Absent c f id h at rows a.1)

-- The check of the one row that an update targets is the check of all that it changes.
pub every_keyed :
    (c : AuthSession → Bool) (f : AuthSession → AuthSession) (id h : Text) (at : ℤ)
    → (rows : List AuthSession) (s : AuthSession) → DistinctIds rows
    → lookup id rows ≡ some s
    → c (f s) ≡ true
    → every (λ r. not (targeted id h at r) || c (f r)) rows ≡ true
every_keyed c f id h at [] s d e k = refl
every_keyed c f id h at (r ∷ rows) s d e k = elim (Bool-cases (text_eq r.id id)) [
  | inl hit ↦
      let fresh = subst (λ k. Absent k rows) ((text_eq_iff r.id id).0 hit) d.0 in
      let equal : r ≡ s = cc (rw hit at e) in
      let passes : c (f r) ≡ true = ap (λ x. c (f x)) equal ∙ k in
      ground (arith, passes, every-Absent c f id h at rows fresh)
  | inr miss ↦
      let other : targeted id h at r ≡ false = unfold targeted in ground (arith, miss) in
      rw other (every_keyed c f id h at rows s d.1 (rw miss at e) k)
]
