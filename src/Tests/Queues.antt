-- ===== src/Tests/Queues.antt =====
-- The theorems on the producer and the consumer of the queues.
use protege_mais.Base.{
  ℕ, ◌+◌, ◌≡◌, refl, true, ◌&&◌, Option, none, some, [], ◌∷◌, if◌then◌else◌, ok,
}
use protege_mais.Text.{Text, codes, text_eq, text_eq_refl}
use protege_mais.Text.Unicode.{ascii_only}
use protege_mais.Queues.Payload.{Members, no_members}
use protege_mais.Queues.Envelope.{RawEnvelope, BaseJobEnvelope}
use protege_mais.Queues.Producer.{QueueJobIdentity, HeldJob, JobQueues, publish}
use protege_mais.Queues.Producer.Idempotence.{HoldingQueues, publish_again}
use protege_mais.Worker.Jobs.{JobUseCaseDefinition, retryable}
use protege_mais.Worker.Pool.{StoredJob, process_stored, Settled, process_stored-Settled}

-- What a server holds, by queue and identifier.
abbrev Held : Type 0
Held = Text → Text → Option HeldJob

abbrev added : Option HeldJob → Text → Text → Text → Held → Held
added (some job) queue name id s = s
added none queue name id s = λ q i.
    if text_eq queue q && text_eq id i
    then some (record { name = name; attempts_made = 0 })
    else s q i

added_there :
    (queue name id : Text) (s : Held)
    → added none queue name id s queue id ≡ some (record { name = name; attempts_made = 0 })
added_there queue name id s = rw (text_eq_refl queue, text_eq_refl id) refl

abbrev queues : JobQueues Held
queues = record {
  add = λ queue name e id s. (ok tt, added (s queue id) queue name id s);
  get_job = λ queue id s. (ok (s queue id), s);
  get_state = λ queue id s. (ok (codes "waiting"), s);
  remove = λ queue id s. (ok tt, s);
}

ignored :
    (queue name : Text) (e : BaseJobEnvelope) (id : Text) (job : HeldJob) (s : Held)
    → s queue id ≡ some job
    → queues.add queue name e id s ≡ (ok tt, s)
ignored queue name e id job s there = rw there refl

stored :
    (queue name : Text) (e : BaseJobEnvelope) (id : Text) (s : Held)
    → s queue id ≡ none
    → (queues.add queue name e id s).1 queue id ≡ some (record { name = name; attempts_made = 0 })
stored queue name e id s free = rw free (added_there queue name id s)

abbrev holding : HoldingQueues Held
holding = record {
  queues = queues;
  held = λ queue id s. s queue id;
  state_of = λ queue id s. codes "waiting";
  ignores = ignored;
  adds = stored;
  gets = λ queue id s. refl;
  reads = λ queue id s. refl;
}

abbrev identity : QueueJobIdentity
identity = record {
  queue_name = codes "risk";
  job_name = codes "risk.evaluate";
  idempotency_key = codes "case-1";
}

abbrev raw : Option RawEnvelope
raw = some (record {
  version_matches = true;
  correlation_id = some (codes "c1");
  payload = some no_members;
})

abbrev digit_of : Text → Text
digit_of s = codes "0"

publish_again_example :
    (publish queues digit_of ascii_only
      (λ e. 40)
      identity
      none
      (publish queues digit_of ascii_only (λ e. 40) identity raw (λ q i. none)).1).1
    ≡ (publish queues digit_of ascii_only (λ e. 40) identity raw (λ q i. none)).1
unfolding publish
publish_again_example =
    (publish_again holding digit_of ascii_only (λ e. 40) identity raw none (λ q i. none)
      (record {
        queue_name = codes "risk";
        job_name = codes "risk.evaluate";
        job_id = codes "job-0";
      })
      refl).0

abbrev evaluation : JobUseCaseDefinition Members ℕ
evaluation = record {
  name = codes "risk.evaluate";
  use_case = λ payload context n. (retryable, n + 1);
}

abbrev taken : StoredJob
taken = record {
  id = some (codes "job-0123456789abcdef0123456789abcdef0123456789abcdef0123456789abcdef");
  name = codes "risk.evaluate";
  raw = raw;
  attempts_made = 2;
  attempts = some 3;
}

process_stored-Settled_example :
    Settled ascii_only
      (λ e. 40)
      (evaluation ∷ [])
      (codes "r1")
      (codes "risk")
      taken
      0
      (process_stored ascii_only (λ e. 40) (evaluation ∷ []) (codes "r1") (codes "risk") taken 0)
process_stored-Settled_example =
    process_stored-Settled ascii_only (λ e. 40) (evaluation ∷ []) (codes "r1") (codes "risk") taken
      0
