-- ===== src/Queues/Producer.antt =====
-- packages/plugins/queues/index.ts: `QueueProducer`. A BullMQ queue is a parameter, one function for
-- each of its calls, of the name of the queue and on what the server holds.
pub mod Idempotence
use protege_mais.Base.{
  ℕ, Bool, true, false, not, ◌||◌, Option, none, some, List, [], ◌∷◌, if◌then◌else◌, Result, ok,
  err, ◌>>=◌, ◌>>◌, throw_if,
}
use protege_mais.Text.{Text, codes, text_eq, member}
use protege_mais.Text.Unicode.{Unicode}
use protege_mais.Common.Errors.{Thrown, Foreign, foreign, range_error}
use protege_mais.Queues.Envelope.{
  RawEnvelope, BaseJobEnvelope, parse_job_envelope, assert_job_name, queue_job_id,
}

abbrev pub queue_names : List Text
queue_names =
    codes "emergency"
    ∷ codes "notifications"
    ∷ codes "integrations"
    ∷ codes "evidences"
    ∷ codes "risk"
    ∷ []

pub record QueueJobIdentity : Type 0 where
  pub queue_name : Text
  pub job_name : Text
  pub idempotency_key : Text

pub record PublishedJob : Type 0 where
  pub queue_name : Text
  pub job_name : Text
  pub job_id : Text

pub record QueueJobSnapshot : Type 0 where
  pub queue_name : Text
  pub job_name : Text
  pub job_id : Text
  pub state : Text
  pub attempts_made : ℕ

-- The fields of a job that are read, and its state.
pub record HeldJob : Type 0 where
  pub name : Text
  pub attempts_made : ℕ

pub record JobQueues (S : Type 0) : Type 0 where
  pub add : Text → Text → BaseJobEnvelope → Text → S → Result Foreign (Unit {0}) × S
  pub get_job : Text → Text → S → Result Foreign (Option HeldJob) × S
  pub get_state : Text → Text → S → Result Foreign Text × S
  pub remove : Text → Text → S → Result Foreign (Unit {0}) × S

-- `await` of a call, and what follows it.
abbrev pub awaiting :
    {A B S : Type 0} → Result Foreign A × S → (A → S → Result Thrown B × S) → Result Thrown B × S
awaiting (ok value, s) next = next value s
awaiting (err cause, s) next = (err (foreign cause), s)

-- What the guards gave, and what follows where they passed.
abbrev pub guarded :
    {A B S : Type 0} → Result Thrown A → (A → S → Result Thrown B × S) → S → Result Thrown B × S
guarded (ok value) next s = next value s
guarded (err thrown) next s = (err thrown, s)

-- `queueByName`
unfoldable pub assert_queue_name : Text → Result Thrown (Unit {0})
unfolding member
assert_queue_name name = throw_if (not (member name queue_names)) range_error

abbrev pub is_settled_state : Text → Bool
is_settled_state state = text_eq state (codes "completed") || text_eq state (codes "failed")

module _ {S : Type 0} (queues : JobQueues S) (digest : Text → Text) where
  -- The identifier of an identity, in a queue of the catalogue.
  unfoldable pub locate : QueueJobIdentity → Result Thrown Text
  unfolding queue_job_id assert_queue_name
  locate i = do
    job_id ← queue_job_id digest i.job_name i.idempotency_key
    assert_queue_name i.queue_name
    ok job_id

  -- The guards of `publish`: the envelope and the identifier.
  unfoldable pub prepare :
      Unicode
      → (BaseJobEnvelope → ℕ)
      → QueueJobIdentity
      → Option RawEnvelope
      → Result Thrown (BaseJobEnvelope × Text)
  unfolding assert_job_name parse_job_envelope locate
  prepare u serialized_bytes i raw = do
    assert_job_name i.job_name
    envelope ← parse_job_envelope u serialized_bytes raw
    job_id ← locate i
    ok (envelope, job_id)

  abbrev pub answer_published :
      QueueJobIdentity → Text → Unit {0} → S → Result Thrown PublishedJob × S
  answer_published i job_id done s =
      (ok (record { queue_name = i.queue_name; job_name = i.job_name; job_id = job_id }), s)

  -- The call of `add`, and the answer.
  abbrev pub add_prepared :
      QueueJobIdentity → BaseJobEnvelope × Text → S → Result Thrown PublishedJob × S
  add_prepared i (envelope, job_id) s =
      awaiting (queues.add i.queue_name i.job_name envelope job_id s) (answer_published i job_id)

  unfoldable pub publish :
      Unicode
      → (BaseJobEnvelope → ℕ)
      → QueueJobIdentity
      → Option RawEnvelope
      → S
      → Result Thrown PublishedJob × S
  unfolding prepare
  publish u serialized_bytes i raw = guarded (prepare u serialized_bytes i raw) (add_prepared i)

  -- `inspect`, by the job that was found.
  abbrev pub snapshot :
      QueueJobIdentity → Text → Option HeldJob → S → Result Thrown (Option QueueJobSnapshot) × S
  snapshot i job_id none s = (ok none, s)
  snapshot i job_id (some job) s = awaiting (queues.get_state i.queue_name job_id s) (λ state s'. (
    ok (
        some (record {
          queue_name = i.queue_name;
          job_name = job.name;
          job_id = job_id;
          state = state;
          attempts_made = job.attempts_made;
        })),
    s',
  ))

  unfoldable pub inspect : QueueJobIdentity → S → Result Thrown (Option QueueJobSnapshot) × S
  unfolding locate
  inspect i =
      guarded (locate i)
        (λ job_id s. awaiting (queues.get_job i.queue_name job_id s) (snapshot i job_id))

  -- `removeSettled`, by the job that was found.
  abbrev pub remove_found : QueueJobIdentity → Text → Option HeldJob → S → Result Thrown Bool × S
  remove_found i job_id none s = (ok false, s)
  remove_found i job_id (some job) s =
      awaiting (queues.get_state i.queue_name job_id s) (λ state s'.
        let removed =
          awaiting (queues.remove i.queue_name job_id s') (λ done s''. (ok true, s'')) in
        if is_settled_state state then removed else (ok false, s'))

  unfoldable pub remove_settled : QueueJobIdentity → S → Result Thrown Bool × S
  unfolding locate text_eq
  remove_settled i =
      guarded (locate i)
        (λ job_id s. awaiting (queues.get_job i.queue_name job_id s) (remove_found i job_id))
