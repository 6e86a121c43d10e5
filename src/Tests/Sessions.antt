-- ===== src/Tests/Sessions.antt =====
-- packages/repositories/authentication/index.ts: the theorems on one session.
use protege_mais.Base.{
  ◌≡◌, refl, ◌≢◌, true, false, some, List, [], ◌∷◌, arith, if◌then◌else◌, any, ok,
}
use protege_mais.Text.Patterns.{is_identifier}
use protege_mais.Text.{text_eq_iff, Text, codes, text_eq}
use protege_mais.Database.Sessions.Outcomes.{row_of}
use protege_mais.Database.Tables.{
  AuthSession, is_unique, session_check, hash_check, label_check, is_btrimmed, ends_plain,
  lifecycle_check, version_check,
}
use protege_mais.Tests.Data.{
  session_id, plain_locale, phone, one_session, renewal, replay, later_renewal, second_device,
}
use protege_mais.Database.Sessions.{
  invalid, reused, rotated, rotate, rotate_selected, selectable, update_sessions, targeted, succeed,
  revoke,
}
use protege_mais.Database.Sessions.Contract.{Contract, rotate-Contract}
use protege_mais.Database.Sessions.Effect.{IsUsable}
use protege_mais.Database.Sessions.History.{Call, creates, rotates, run, Continues, run-Continues}
use protege_mais.Database.Sessions.Health.{IsHealthy, IsTimely}
use protege_mais.Database.Sessions.Complete.{Done, rotate_complete}
use protege_mais.Database.Sessions.Replay.{rotate_once, reused_forever, rotate_expired}

abbrev calls : List Call
calls = creates second_device ∷ rotates later_renewal ∷ []

renewed : (rotate plain_locale renewal one_session).0 ≡ ok rotated
unfolding rotate rotate_selected selectable update_sessions targeted succeed session_check
    hash_check label_check is_btrimmed ends_plain lifecycle_check version_check is_unique text_eq
    is_identifier
renewed = refl

caught : (rotate plain_locale replay one_session).0 ≡ ok reused
unfolding rotate rotate_selected selectable update_sessions targeted revoke session_check hash_check
    label_check is_btrimmed ends_plain lifecycle_check version_check is_unique text_eq is_identifier
caught = refl

pub differ : (a b : Text) → text_eq a b ≡ false → a ≢ b
differ a b h e = ground (arith, h, e, text_eq_iff a b)

other_hash : codes "sha256:second" ≢ codes "sha256:first"
unfolding text_eq
other_hash = differ (codes "sha256:second") (codes "sha256:first") refl

third_hash : codes "sha256:other" ≢ codes "sha256:first"
unfolding text_eq
third_hash = differ (codes "sha256:other") (codes "sha256:first") refl

fourth_hash : codes "sha256:fourth" ≢ codes "sha256:first"
unfolding text_eq
fourth_hash = differ (codes "sha256:fourth") (codes "sha256:first") refl

stored : row_of session_id one_session ≡ some phone
unfolding text_eq
stored = refl

healthy : IsHealthy plain_locale one_session
unfolding session_check hash_check label_check is_btrimmed ends_plain lifecycle_check version_check
    is_unique is_identifier
healthy = record { distinct = (tt, tt); checked = refl; unique_hashes = refl }

usable : IsUsable renewal one_session phone
unfolding text_eq
usable = record {
  stored = refl;
  owner = refl;
  expiry = refl;
  unrevoked = refl;
  unexpired = ground arith;
  account_active = refl;
}

timely : IsTimely renewal phone
timely = record { after_birth = refl; after_use = refl; countable = ground arith }

formed : hash_check plain_locale renewal.successor_refresh_token_hash ≡ true
unfolding hash_check
formed = refl

fresh :
    any
      (λ (r : AuthSession). text_eq r.refresh_token_hash renewal.successor_refresh_token_hash)
      one_session.auth_sessions
    ≡ false
unfolding text_eq
fresh = refl

rotate-Contract_example : Contract renewal one_session (rotate plain_locale renewal one_session)
rotate-Contract_example = rotate-Contract plain_locale renewal one_session (tt, tt)

rotate_once_example :
    (rotate plain_locale renewal
      (run plain_locale (rotate plain_locale renewal one_session).1 calls)).0
    ≢ ok rotated
rotate_once_example =
    rotate_once plain_locale renewal renewal one_session calls (tt, tt) renewed other_hash
      (third_hash, (fourth_hash, tt)) refl refl

reused_forever_example :
    rotate plain_locale later_renewal
      (run plain_locale (rotate plain_locale replay one_session).1 calls)
    ≡ (ok invalid, run plain_locale (rotate plain_locale replay one_session).1 calls)
reused_forever_example =
    reused_forever plain_locale replay later_renewal one_session calls (tt, tt) caught refl

rotate_expired_example :
    rotate plain_locale later_renewal (run plain_locale one_session calls)
    ≡ (ok invalid, run plain_locale one_session calls)
rotate_expired_example =
    rotate_expired plain_locale one_session calls later_renewal phone (tt, tt) stored (ground arith)

run-Continues_example :
    (t : AuthSession) × (row_of session_id (run plain_locale one_session calls) ≡ some t)
    × Continues phone t
run-Continues_example =
    run-Continues plain_locale one_session calls session_id phone (tt, tt) stored

rotate_complete_example :
    ((rotate plain_locale renewal one_session).0
      ≡ ok (
          if text_eq phone.refresh_token_hash renewal.presented_refresh_token_hash
          then rotated
          else reused))
    × Done renewal one_session phone
        (text_eq phone.refresh_token_hash renewal.presented_refresh_token_hash)
        (rotate plain_locale renewal one_session).1
rotate_complete_example =
    rotate_complete plain_locale renewal one_session phone healthy usable timely formed fresh
