-- ===== src/Worker/Settlement.antt =====
-- apps/worker/src/job-processor.ts and packages/useCases/jobs/index.ts: which use case runs a job,
-- and what its end is reported as.
use protege_mais.Worker.Jobs.{
  terminal_failure, JobContext, JobOutcome, resolved, retryable, terminal, unclassified, JobUseCase,
  JobUseCaseDefinition, resolve, register, construct, JobEvent, started, completed, retry_scheduled,
  failed, QueueError, queue_retryable, queue_terminal, QueueJob, after_execution, Processed,
  execute, process,
}
use protege_mais.Text.{codes, Text, text_eq, text_eq_iff}
use protege_mais.Base.{
  ℕ, ◌≡◌, refl, ◌∙◌, inl, inr, Bool, true, false, not, ◌&&◌, Option, none, some, List, [], ◌∷◌,
  arith, ltb, Bool-cases, Option-cases, any, Result, ok, err, succeeds, bind_inv, ok_inj,
}
use mathlib.Core.Path.{subst}

abbrev pub announces_retry : JobEvent → Bool
announces_retry started = false
announces_retry completed = false
announces_retry (retry_scheduled code kind) = true
announces_retry (failed code kind) = false

abbrev pub reports_failure : JobEvent → Bool
reports_failure started = false
reports_failure completed = false
reports_failure (retry_scheduled code kind) = false
reports_failure (failed code kind) = true

abbrev pub asks_for_retry : Result QueueError (Unit {0}) → Bool
asks_for_retry (ok done) = false
asks_for_retry (err queue_retryable) = true
asks_for_retry (err queue_terminal) = false

module _ {P S : Type 0} where
  abbrev first_of : Option (JobUseCase P S) → Option (JobUseCase P S) → Option (JobUseCase P S)
  first_of (some f) other = some f
  first_of none other = other

  register_inv :
      (d : JobUseCaseDefinition P S) (registry next : List (JobUseCaseDefinition P S))
      → register d registry ≡ ok next
      → (resolve d.name registry ≡ none) × (next ≡ d ∷ registry)
  unfolding register
  register_inv d registry next e = elim (Option-cases (resolve d.name registry)) [
    | inl free ↦ (free, ground (arith, e, free))
    | inr (f, taken) ↦ absurd (ground (arith, e, taken))
  ]

  resolve_next :
      (name : Text) (d : JobUseCaseDefinition P S) (ds registry : List (JobUseCaseDefinition P S))
      → resolve d.name registry ≡ none
      → first_of (resolve name (d ∷ registry)) (resolve name ds)
        ≡ first_of (resolve name registry) (resolve name (d ∷ ds))
  unfolding resolve
  resolve_next name d ds registry free = elim (Bool-cases (text_eq d.name name)) [
    | inl same ↦
        let none_there : resolve name registry ≡ none =
          subst (λ k. resolve k registry ≡ none) ((text_eq_iff d.name name).0 same) free in
        rw (same, none_there) refl
    | inr other ↦ rw other refl
  ]

  resolve-construct_from :
      (ds registry r : List (JobUseCaseDefinition P S)) (name : Text)
      → construct ds registry ≡ ok r
      → resolve name r ≡ first_of (resolve name registry) (resolve name ds)
  unfolding construct
  resolve-construct_from [] registry r name e =
      subst (λ x. resolve name x ≡ first_of (resolve name registry) none) (ok_inj e)
        (elim (Option-cases (resolve name registry)) [
          | inl absent ↦ rw absent refl
          | inr (f, there) ↦ rw there refl
        ])
  resolve-construct_from (d ∷ ds) registry r name e =
      let (next, rest, made) = bind_inv (λ next. construct ds next) (register d registry) e in
      let (free, shape) = register_inv d registry next made in
      let found = resolve-construct_from ds next r name rest in
      found ∙ (rw shape (resolve_next name d ds registry free))

  -- A registry that was built from a list of definitions runs each job by the definition of the
  -- job's name in that list, and ends a job that no definition has the name of as a terminal
  -- failure.
  pub process-construct :
      (ds r : List (JobUseCaseDefinition P S)) (job : QueueJob P) (s : S)
      → construct ds [] ≡ ok r
      → ((f : JobUseCase P S)
          → resolve job.context.job_name ds ≡ some f
          → process r job s ≡ execute f job s)
        × (resolve job.context.job_name ds ≡ none → (process r job s).result ≡ err queue_terminal)
  unfolding process
  process-construct ds r job s e =
      let found = resolve-construct_from ds [] r job.context.job_name e in
      ((λ f is_f. rw (found ∙ is_f, process) refl), (λ absent. rw (found ∙ absent, process) refl))

module _ {S : Type 0} where
  -- What is logged agrees with what the queue is told: a retry is announced exactly where one is
  -- asked for and attempts are left; a failure exactly where the run failed and no retry is.
  abbrev pub Reports : ℕ → ℕ → Processed S → Type 0
  Reports attempt maximum p =
      (any announces_retry p.events ≡ (asks_for_retry p.result && ltb attempt maximum))
      × (any reports_failure p.events
          ≡ (not (succeeds p.result) && not (asks_for_retry p.result && ltb attempt maximum)))

  execute-Reports :
      (c : JobContext) (end : JobOutcome) (s : S)
      → Reports c.attempt c.max_attempts (record {
        events = started ∷ (after_execution c end).0;
        result = (after_execution c end).1;
        state = s;
      })
  execute-Reports c resolved s = (refl, refl)
  execute-Reports c terminal s = (refl, refl)
  execute-Reports c unclassified s = (refl, refl)
  execute-Reports c retryable s = elim (Bool-cases (ltb c.attempt c.max_attempts)) [
    | inl left ↦ rw left (refl, refl)
    | inr out ↦ rw out (refl, refl)
  ]

module _ {P S : Type 0} where
  -- A job of a name without a use case, and one with.
  pub process_absent :
      (registry : List (JobUseCaseDefinition P S)) (job : QueueJob P) (s : S)
      → resolve job.context.job_name registry ≡ none
      → process registry job s ≡ record {
        events = started ∷ failed (codes "JOB_USE_CASE_NOT_FOUND") terminal_failure ∷ [];
        result = err queue_terminal;
        state = s;
      }
  unfolding process
  process_absent registry job s absent = rw (absent, process) refl

  pub process_there :
      (registry : List (JobUseCaseDefinition P S)) (job : QueueJob P) (s : S)
      (use_case : JobUseCase P S)
      → resolve job.context.job_name registry ≡ some use_case
      → process registry job s ≡ execute use_case job s
  unfolding process
  process_there registry job s use_case there = rw (there, process) refl

  -- Of every run of a job, in whichever way it ends, the log announces a retry exactly if the queue
  -- is asked for one and attempts are left, and reports a failure exactly if the run failed and no
  -- retry is announced.
  pub process-Reports :
      (registry : List (JobUseCaseDefinition P S)) (job : QueueJob P) (s : S)
      → Reports job.context.attempt job.context.max_attempts (process registry job s)
  unfolding process execute
  process-Reports registry job s = elim (Option-cases (resolve job.context.job_name registry)) [
    | inl absent ↦ rw (absent, process) (refl, refl)
    | inr (f, there) ↦
        rw (there, process)
          (execute-Reports job.context (f job.payload job.context s).0
            (f job.payload job.context s).1)
  ]
