-- ===== src/Worker/Pool.antt =====
-- packages/plugins/queues/index.ts: `QueueWorkerPool.#process`, with `JobProcessor.process` as its
-- handler, as apps/worker/src/worker-runtime.ts puts them together.
use protege_mais.Worker.Settlement.{process_there, process_absent, announces_retry, reports_failure}
use protege_mais.Base.{
  ℕ, ◌+◌, ◌≡◌, refl, sym, ◌⊎◌, inl, inr, Bool, true, false, not, ◌&&◌, ◌||◌, Option, none, some,
  List, [], ◌∷◌, ltb, leb, if◌then◌else◌, Bool-cases, Option-cases, default, drop, any, Result, ok,
  err, succeeds,
}
use protege_mais.Worker.Jobs.{
  Processed, JobContext, JobOutcome, resolved, retryable, terminal, unclassified, JobUseCase,
  after_execution, JobUseCaseDefinition, JobEvent, QueueError, queue_retryable, queue_terminal,
  QueueJob, process, started, resolve, execute,
}
use mathlib.Core.Path.{subst}
use protege_mais.Text.{Text, codes, starts_with, is_digit}
use protege_mais.Text.Unicode.{Unicode}
use protege_mais.Text.Patterns.{exactly}
use protege_mais.Common.Errors.{Thrown}
use protege_mais.Queues.Payload.{Members}
use protege_mais.Queues.Envelope.{RawEnvelope, BaseJobEnvelope, parse_job_envelope}

-- The fields of a BullMQ job that are read; `raw` is its `data`, none where `isRecord` refuses it.
pub record StoredJob : Type 0 where
  pub id : Option Text
  pub name : Text
  pub raw : Option RawEnvelope
  pub attempts_made : ℕ
  pub attempts : Option ℕ

-- What the queue is told: BullMQ tries a job again after an Error, and not after an
-- UnrecoverableError.
pub data PoolError : Type 0 where
  unrecoverable : Text → PoolError
  retryable_failure : PoolError

pub record Run (S : Type 0) : Type 0 where
  pub events : List JobEvent
  pub result : Result PoolError (Unit {0})
  pub state : S

-- `generatedJobIdPattern`
abbrev pub is_generated_char : ℕ → Bool
is_generated_char c = (leb b'a' c && leb c b'f') || is_digit c

unfoldable pub is_generated_job_id : Text → Bool
unfolding starts_with exactly is_digit
is_generated_job_id id = starts_with id (codes "job-") && exactly is_generated_char 64 (drop 4 id)

-- `Math.max(job.opts.attempts ?? 1, 1)`
abbrev pub max_attempts_of : StoredJob → ℕ
max_attempts_of job = let n = default job.attempts 1 in if ltb n 1 then 1 else n

-- What the handler is called with.
abbrev pub queue_job : Text → Text → StoredJob → Text → BaseJobEnvelope → QueueJob Members
queue_job request_id queue_name job id envelope = record {
  context = record {
    request_id = request_id;
    correlation_id = envelope.correlation_id;
    job_id = id;
    queue_name = queue_name;
    job_name = job.name;
    attempt = job.attempts_made + 1;
    max_attempts = max_attempts_of job;
  };
  payload = envelope.payload;
}

-- What `catch` makes of the handler's end.
abbrev pub settled : Result QueueError (Unit {0}) → Result PoolError (Unit {0})
settled (ok done) = ok tt
settled (err queue_retryable) = err retryable_failure
settled (err queue_terminal) = err (unrecoverable (codes "TERMINAL_JOB_FAILURE"))

abbrev pub refused : {S : Type 0} → Text → S → Run S
refused code s = record { events = []; result = err (unrecoverable code); state = s }

module _ {S : Type 0} (u : Unicode) (serialized_bytes : BaseJobEnvelope → ℕ)
    (registry : List (JobUseCaseDefinition Members S)) (request_id : Text) where
  unfoldable pub handle : Text → StoredJob → Text → BaseJobEnvelope → S → Run S
  unfolding process
  handle queue_name job id envelope s =
      let p = process registry (queue_job request_id queue_name job id envelope) s in
      record { events = p.events; result = settled p.result; state = p.state }

  -- By what `parseJobEnvelope` gives.
  abbrev pub after_parse : Text → StoredJob → Text → Result Thrown BaseJobEnvelope → S → Run S
  after_parse queue_name job id (err e) s = refused (codes "INVALID_JOB_ENVELOPE") s
  after_parse queue_name job id (ok envelope) s = handle queue_name job id envelope s

  abbrev pub with_id : Text → StoredJob → Option Text → S → Run S
  with_id queue_name job none s = refused (codes "INVALID_JOB_ID") s
  with_id queue_name job (some id) s =
      if is_generated_job_id id
      then after_parse queue_name job id (parse_job_envelope u serialized_bytes job.raw) s
      else refused (codes "INVALID_JOB_ID") s

  unfoldable pub process_stored : Text → StoredJob → S → Run S
  unfolding is_generated_job_id parse_job_envelope handle
  process_stored queue_name job s = with_id queue_name job job.id s

  abbrev pub asks_again : Result PoolError (Unit {0}) → Bool
  asks_again (ok done) = false
  asks_again (err (unrecoverable code)) = false
  asks_again (err retryable_failure) = true

  -- What the queue has to be told of each end of a use case.
  abbrev pub Told : JobOutcome → Result PoolError (Unit {0}) → Type 0
  Told resolved r = r ≡ ok tt
  Told retryable r = r ≡ err retryable_failure
  Told terminal r = (code : Text) × (r ≡ err (unrecoverable code))
  Told unclassified r = (code : Text) × (r ≡ err (unrecoverable code))

  -- A job without a generated identifier, or without a valid envelope.
  abbrev pub Unusable : StoredJob → Type 0
  Unusable job =
      (job.id ≡ none)
      ⊎ ((id : Text) × (job.id ≡ some id)
          × ((is_generated_job_id id ≡ false)
              ⊎ ((e : Thrown) × (parse_job_envelope u serialized_bytes job.raw ≡ err e))))

  abbrev pub Usable : StoredJob → Text → BaseJobEnvelope → Type 0
  Usable job id envelope =
      (job.id ≡ some id)
      × (is_generated_job_id id ≡ true)
      × (parse_job_envelope u serialized_bytes job.raw ≡ ok envelope)

  abbrev pub Refused : StoredJob → S → Run S → Type 0
  Refused job s r =
      Unusable job
      × (r.events ≡ [])
      × (r.state ≡ s)
      × ((code : Text) × (r.result ≡ err (unrecoverable code)))

  abbrev pub Unknown : StoredJob → S → Run S → Type 0
  Unknown job s r =
      (id : Text) × (envelope : BaseJobEnvelope) × Usable job id envelope
      × (resolve job.name registry ≡ none)
      × (r.state ≡ s)
      × ((code : Text) × (r.result ≡ err (unrecoverable code)))
      × (any announces_retry r.events ≡ false)
      × (any reports_failure r.events ≡ true)

  -- Whether the job will be tried again: the use case asks for it, and attempts are left.
  abbrev pub comes_again : StoredJob → JobOutcome → Bool
  comes_again job resolved = false
  comes_again job retryable = ltb (job.attempts_made + 1) (max_attempts_of job)
  comes_again job terminal = false
  comes_again job unclassified = false

  abbrev pub Ran : Text → StoredJob → S → Run S → Type 0
  Ran queue_name job s r =
      (id : Text) × (envelope : BaseJobEnvelope) × (use_case : JobUseCase Members S)
      × (end : JobOutcome) × Usable job id envelope
      × (resolve job.name registry ≡ some use_case)
      × (use_case envelope.payload (queue_job request_id queue_name job id envelope).context s
          ≡ (end, r.state))
      × Told end r.result
      × (any announces_retry r.events ≡ comes_again job end)
      × (any reports_failure r.events ≡ (not (succeeds r.result) && not (comes_again job end)))

  -- How a run of a stored job may end.
  abbrev pub Settled : Text → StoredJob → S → Run S → Type 0
  Settled queue_name job s r = Refused job s r ⊎ (Unknown job s r ⊎ Ran queue_name job s r)

  told_lem : (c : JobContext) (end : JobOutcome) → Told end (settled (after_execution c end).1)
  told_lem c resolved = refl
  told_lem c retryable = refl
  told_lem c terminal = (_, refl)
  told_lem c unclassified = (_, refl)

  -- The events of a run that ends so.
  events_lem :
      (job : StoredJob) (c : JobContext) (end : JobOutcome)
      → c.attempt ≡ job.attempts_made + 1
      → c.max_attempts ≡ max_attempts_of job
      → (any announces_retry (started ∷ (after_execution c end).0) ≡ comes_again job end)
        × (any reports_failure (started ∷ (after_execution c end).0)
            ≡ (not (succeeds (settled (after_execution c end).1)) && not (comes_again job end)))
  events_lem job c resolved a m = (refl, refl)
  events_lem job c terminal a m = (refl, refl)
  events_lem job c unclassified a m = (refl, refl)
  events_lem job c retryable a m =
      rw (← a, ← m)
        (elim (Bool-cases (ltb c.attempt c.max_attempts)) [
          | inl left ↦ rw left (refl, refl)
          | inr out ↦ rw out (refl, refl)
        ])

  -- What `handle` makes of what the processor leaves.
  abbrev run_of : Processed S → Run S
  run_of p = record { events = p.events; result = settled p.result; state = p.state }

  handle-Settled :
      (queue_name : Text) (job : StoredJob) (id : Text) (envelope : BaseJobEnvelope) (s : S)
      → Usable job id envelope
      → Settled queue_name job s (handle queue_name job id envelope s)
  unfolding handle execute
  handle-Settled queue_name job id envelope s usable =
      let q = queue_job request_id queue_name job id envelope in
      elim (Option-cases (resolve job.name registry)) [
        | inl absent ↦ inr (
            inl (
              subst (λ p. Unknown job s (run_of p)) (sym (process_absent registry q s absent))
                (id, envelope, usable, absent, refl, (_, refl), refl, refl)))
        | inr (use_case, there) ↦
            let end = (use_case envelope.payload q.context s).0 in
            let (announced, reported) = events_lem job q.context end refl refl in
            inr (
              inr (
                subst (λ p. Ran queue_name job s (run_of p))
                  (sym (process_there registry q s use_case there))
                  (
                    id,
                    envelope,
                    use_case,
                    end,
                    usable,
                    there,
                    refl,
                    told_lem q.context end,
                    announced,
                    reported,
                  )))
      ]

  after_parse-Settled :
      (queue_name : Text) (job : StoredJob) (id : Text) (parsed : Result Thrown BaseJobEnvelope)
      (s : S)
      → job.id ≡ some id
      → is_generated_job_id id ≡ true
      → parse_job_envelope u serialized_bytes job.raw ≡ parsed
      → Settled queue_name job s (after_parse queue_name job id parsed s)
  after_parse-Settled queue_name job id (err thrown) s e g p =
      inl (inr (id, e, inr (thrown, p)), refl, refl, (codes "INVALID_JOB_ENVELOPE", refl))
  after_parse-Settled queue_name job id (ok envelope) s e g p =
      handle-Settled queue_name job id envelope s (e, g, p)

  with_id-Settled :
      (queue_name : Text) (job : StoredJob) (id : Option Text) (s : S)
      → job.id ≡ id
      → Settled queue_name job s (with_id queue_name job id s)
  with_id-Settled queue_name job none s e = inl (inl e, refl, refl, (codes "INVALID_JOB_ID", refl))
  with_id-Settled queue_name job (some id) s e = elim (Bool-cases (is_generated_job_id id)) [
    | inl fine ↦ rw fine (
        after_parse-Settled queue_name job id (parse_job_envelope u serialized_bytes job.raw) s e
          fine refl)
    | inr other ↦
        rw other (inl (inr (id, e, inl other), refl, refl, (codes "INVALID_JOB_ID", refl)))
  ]

  -- Of every job that the pool takes from a queue, one of three things holds. It has no generated
  -- identifier or no valid envelope; then nothing is logged, no use case has run and the queue is told
  -- not to try again. Or it has both, but its name is no use case's; then none has run, a failure is
  -- reported and the queue is told not to try again. Or the use case of its name has run on the
  -- payload of its envelope, and the state is the one that it left: the queue is told that it is done
  -- if it resolved, to try again if it was rejected as retryable, and not to try again if it was
  -- rejected in another way; the log announces a retry exactly if one was asked for and attempts are
  -- left after this one, and reports a failure exactly if the run failed and no retry is announced.
  pub process_stored-Settled :
      (queue_name : Text) (job : StoredJob) (s : S)
      → Settled queue_name job s (process_stored queue_name job s)
  unfolding process_stored
  process_stored-Settled queue_name job s = with_id-Settled queue_name job job.id s refl
