-- ===== src/Tests/Edge.antt =====
-- The theorems on the edge of the API, the queues and the worker.
use protege_mais.Base.{
  ℕ, ◌+◌, ◌-◌, ◌≤◌, ◌≡◌, refl, true, false, ◌&&◌, none, some, [], ◌∷◌, arith, leb, if◌then◌else◌,
  pos, ok, err, succeeds,
}
use protege_mais.Text.{Text, codes, text_eq, trim}
use protege_mais.Text.Unicode.{ascii_only}
use protege_mais.Base.Number.{integer}
use protege_mais.Common.Errors.{Thrown, foreign}
use protege_mais.Edge.RateLimit.{Limiter, judge}
use protege_mais.Edge.RateLimit.Window.{
  Judged, judge-Judged, WindowCounter, let_through, let_through_lem,
}
use protege_mais.Edge.ErrorHandler.{LogEntry, Response, handle_error}
use protege_mais.Edge.ErrorHandler.Safety.{Answers, handle_error-Answers}
use protege_mais.Edge.Readiness.{
  ReadinessProbe, ReadinessRegistry, new_registry, is_fulfilled, is_ready, mark_shutting_down,
  is_ready-register,
}
use protege_mais.Queues.Payload.{
  Json, string, plain, array, no_items, item, entry, no_members, assert_payload_value,
}
use protege_mais.Queues.Payload.Depth.{height, is_clean, assert_payload_lem}
use protege_mais.Edge.Readiness
use protege_mais.Worker.Jobs
use protege_mais.Worker.Jobs.{
  JobContext, JobOutcome, resolved, retryable, JobUseCase, JobUseCaseDefinition, resolve, construct,
  QueueJob, Processed, queue_terminal, execute, process,
}
use protege_mais.Worker.Settlement.{Reports, process-construct, process-Reports}

abbrev limiter : Limiter
limiter = record {
  secret = codes "the secret of the rate limit, 32+";
  maximum_attempts = pos 5;
  window_seconds = pos 60;
}

-- One count for every key, of which a call costs a second of the window at most.
abbrev seconds_left : ℕ → ℕ
seconds_left n = 60 - (if leb n 59 then n else 59)

seconds_left-lives : (n : ℕ) → (1 ≤ seconds_left n) × (seconds_left n ≤ 60)
seconds_left-lives n = (ground arith, ground arith)

abbrev counter : WindowCounter ℕ 60
counter = record {
  increment = λ key window n. (
    ok (record { value = integer (pos (n + 1)); ttl_seconds = integer (pos (seconds_left n)) }),
    n + 1,
  );
  counted = λ key n. n;
  time_left = λ key n. seconds_left n;
  counts = λ key window n. refl;
  answers = λ key window n. refl;
  lives = λ key n. seconds_left-lives n;
}

abbrev keyed : Text → Text → Text
keyed key address = address

let_through_lem_example :
    let_through counter keyed limiter (codes "10.0.0.1") 7 0 ≡ (if leb 7 5 then 7 else 5)
let_through_lem_example =
    let_through_lem counter keyed limiter (codes "10.0.0.1") 5 7 0 refl refl (ground arith)
      (ground arith) refl

judge-Judged_example :
    Judged limiter
      (ok (record { value = integer (pos 6); ttl_seconds = integer (pos 30) }))
      (judge limiter (ok (record { value = integer (pos 6); ttl_seconds = integer (pos 30) })))
judge-Judged_example =
    judge-Judged limiter (ok (record { value = integer (pos 6); ttl_seconds = integer (pos 30) }))

abbrev conflict : Thrown
conflict = foreign (record {
  is_error = true;
  name = codes "FastifyError";
  has_validation = false;
  status = some (integer (pos 409));
})

handle_error-Answers_example :
    (log : LogEntry) × (r : Response) × (handle_error none (codes "Error") conflict ≡ ok (log, r))
    × Answers none conflict log r
handle_error-Answers_example = handle_error-Answers none (codes "Error") conflict

abbrev payload : Json
payload = plain (
    entry (codes "caseId") (string (codes "c-1"))
      (entry (codes "tags") (array (item (string (codes "a")) no_items)) no_members))

assert_payload_lem_example :
    succeeds (assert_payload_value ascii_only payload 0)
    ≡ (leb (height payload) 12 && is_clean ascii_only payload)
assert_payload_lem_example = assert_payload_lem ascii_only payload

abbrev redis_probe : ReadinessProbe
redis_probe = record { name = codes " redis "; check = some true }

abbrev with_redis : ReadinessRegistry
with_redis = record {
  probes = record { name = codes "redis"; check = some true } ∷ [];
  accepting_traffic = true;
}

probe_registered : Readiness.register redis_probe new_registry ≡ ok with_redis
unfolding Readiness.register trim
probe_registered = refl

is_ready-register_example :
    (is_ready with_redis with_redis
      ≡ (is_fulfilled redis_probe && is_ready new_registry with_redis))
    × (is_ready (mark_shutting_down with_redis) with_redis ≡ false)
    × (is_ready with_redis (mark_shutting_down with_redis) ≡ false)
is_ready-register_example =
    is_ready-register redis_probe new_registry with_redis with_redis probe_registered

abbrev risk_job : JobUseCaseDefinition ℕ ℕ
risk_job = record { name = codes "risk.assess"; use_case = λ p c s. (resolved, s + p) }

abbrev mail_job : JobUseCaseDefinition ℕ ℕ
mail_job = record { name = codes "mail.send"; use_case = λ p c s. (retryable, s) }

abbrev mail : QueueJob ℕ
mail = record {
  context = record {
    request_id = codes "r-1";
    correlation_id = codes "c-1";
    job_id = codes "job-1";
    queue_name = codes "notifications";
    job_name = codes "mail.send";
    attempt = 1;
    max_attempts = 3;
  };
  payload = 4;
}

built : construct (risk_job ∷ mail_job ∷ []) [] ≡ ok (mail_job ∷ risk_job ∷ [])
unfolding construct Jobs.register resolve text_eq
built = refl

process-construct_example :
    ((f : JobUseCase ℕ ℕ)
      → resolve (codes "mail.send") (risk_job ∷ mail_job ∷ []) ≡ some f
      → process (mail_job ∷ risk_job ∷ []) mail 0 ≡ execute f mail 0)
    × (resolve (codes "mail.send") (risk_job ∷ mail_job ∷ []) ≡ none
        → (process (mail_job ∷ risk_job ∷ []) mail 0).result ≡ err queue_terminal)
process-construct_example =
    process-construct (risk_job ∷ mail_job ∷ []) (mail_job ∷ risk_job ∷ []) mail 0 built

process-Reports_example : Reports 1 3 (process (mail_job ∷ risk_job ∷ []) mail 0)
process-Reports_example = process-Reports (mail_job ∷ risk_job ∷ []) mail 0
