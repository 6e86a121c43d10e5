-- ===== src/Worker/Jobs.antt =====
-- packages/useCases/jobs/index.ts (`JobUseCaseRegistry`), apps/worker/src/job-processor.ts
-- (`JobProcessor.process`) and `QueueWorkerPool.#process`. A use case is what its promise ends in,
-- of the payload, the context and a state `S`; a log entry keeps the fields that differ.
use protege_mais.Base.{
  ℕ, not, Option, none, some, List, [], ◌∷◌, ltb, ◌==◌, if◌then◌else◌, is_none, length, Result, ok,
  err, ◌>>=◌,
}
use protege_mais.Text.{Text, codes, text_eq}
use protege_mais.Common.Errors.{Thrown, range_error, plain_error}

-- What a use case is told of the job; `request_id` is drawn for each run.
pub record JobContext : Type 0 where
  pub request_id : Text
  pub correlation_id : Text
  pub job_id : Text
  pub queue_name : Text
  pub job_name : Text
  pub attempt : ℕ
  pub max_attempts : ℕ

-- Resolved, or rejected with a RetryableJobError, a TerminalJobError or anything else.
pub data JobOutcome : Type 0 where
  resolved retryable terminal unclassified : JobOutcome

abbrev pub JobUseCase : Type 0 → Type 0 → Type 0
JobUseCase P S = P → JobContext → S → JobOutcome × S

pub record JobUseCaseDefinition (P S : Type 0) : Type 0 where
  pub name : Text
  pub use_case : JobUseCase P S

module _ {P S : Type 0} where
  -- The `Map` of the registry, the newest definition first.
  unfoldable pub resolve : Text → List (JobUseCaseDefinition P S) → Option (JobUseCase P S)
  unfolding text_eq
  resolve name [] = none
  resolve name (d ∷ registry) =
      if text_eq d.name name then some d.use_case else resolve name registry

  unfoldable pub register :
      JobUseCaseDefinition P S
      → List (JobUseCaseDefinition P S)
      → Result Thrown (List (JobUseCaseDefinition P S))
  unfolding resolve
  register d registry =
      if length d.name == 0
      then err range_error
      else if not (is_none (resolve d.name registry))
      then err plain_error
      else ok (d ∷ registry)

  -- The constructor: the definitions in their order.
  unfoldable pub construct :
      List (JobUseCaseDefinition P S)
      → List (JobUseCaseDefinition P S)
      → Result Thrown (List (JobUseCaseDefinition P S))
  unfolding register
  construct [] registry = ok registry
  construct (d ∷ ds) registry = register d registry >>= λ next. construct ds next

pub data FailureType : Type 0 where
  transient_failure exhausted_failure terminal_failure : FailureType

pub data JobEvent : Type 0 where
  started completed : JobEvent
  retry_scheduled : Text → FailureType → JobEvent
  failed : Text → FailureType → JobEvent

-- What `process` throws: QueueRetryableError or QueueTerminalError.
pub data QueueError : Type 0 where
  queue_retryable queue_terminal : QueueError

pub record QueueJob (P : Type 0) : Type 0 where
  pub context : JobContext
  pub payload : P

abbrev pub retry_event : JobContext → JobEvent
retry_event c =
    if ltb c.attempt c.max_attempts
    then retry_scheduled (codes "RETRYABLE_JOB_ERROR") transient_failure
    else failed (codes "RETRYABLE_JOB_ERROR") exhausted_failure

-- The events that follow `started`, and what is thrown.
abbrev pub after_execution : JobContext → JobOutcome → List JobEvent × Result QueueError (Unit {0})
after_execution c resolved = (completed ∷ [], ok tt)
after_execution c retryable = (retry_event c ∷ [], err queue_retryable)
after_execution c terminal =
    (failed (codes "TERMINAL_JOB_ERROR") terminal_failure ∷ [], err queue_terminal)
after_execution c unclassified =
    (failed (codes "UNCLASSIFIED_JOB_ERROR") terminal_failure ∷ [], err queue_terminal)

-- What one run leaves: the events, what was thrown, and the state.
pub record Processed (S : Type 0) : Type 0 where
  pub events : List JobEvent
  pub result : Result QueueError (Unit {0})
  pub state : S

module _ {P S : Type 0} where
  unfoldable pub execute : JobUseCase P S → QueueJob P → S → Processed S
  execute use_case job s =
      let (outcome, s') = use_case job.payload job.context s in
      let (events, result) = after_execution job.context outcome in
      record { events = started ∷ events; result = result; state = s' }

  unfoldable pub process : List (JobUseCaseDefinition P S) → QueueJob P → S → Processed S
  unfolding resolve execute
  process registry job s = elim (resolve job.context.job_name registry) [
    | none ↦ record {
      events = started ∷ failed (codes "JOB_USE_CASE_NOT_FOUND") terminal_failure ∷ [];
      result = err queue_terminal;
      state = s;
    }
    | some use_case ↦ execute use_case job s
  ]
