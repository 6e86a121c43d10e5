-- ===== src/Queues/Producer/Idempotence.antt =====
-- packages/plugins/queues/index.ts: a job is published once.
use protege_mais.Base.{
  ℕ, ◌≡◌, refl, sym, ap, ◌∙◌, inl, inr, Option, none, some, Option-cases, Result, ok, err, bind_inv,
  ok_inj,
}
use protege_mais.Queues.Producer.{
  publish, add_prepared, answer_published, PublishedJob, awaiting, guarded, locate, prepare,
  inspect, QueueJobIdentity, HeldJob, JobQueues,
}
use protege_mais.Queues.Envelope.{RawEnvelope, assert_job_name, parse_job_envelope, BaseJobEnvelope}
use protege_mais.Common.Errors.{Thrown, Foreign}
use protege_mais.Text.{Text}
use protege_mais.Text.Unicode.{Unicode}

-- Queues as BullMQ documents them: a job that is added under an identifier that a job of the queue
-- has is ignored, otherwise it is there, not yet attempted; reading changes nothing.
pub record HoldingQueues (S : Type 0) : Type 0 where
  pub queues : JobQueues S
  pub held : Text → Text → S → Option HeldJob
  pub state_of : Text → Text → S → Text
  pub ignores :
      (queue name : Text) (e : BaseJobEnvelope) (id : Text) (job : HeldJob) (s : S)
      → held queue id s ≡ some job
      → queues.add queue name e id s ≡ (ok tt, s)
  pub adds :
      (queue name : Text) (e : BaseJobEnvelope) (id : Text) (s : S)
      → held queue id s ≡ none
      → held queue id (queues.add queue name e id s).1
        ≡ some (record { name = name; attempts_made = 0 })
  pub gets : (queue id : Text) (s : S) → queues.get_job queue id s ≡ (ok (held queue id s), s)
  pub reads :
      (queue id : Text) (s : S) → queues.get_state queue id s ≡ (ok (state_of queue id s), s)

module _ {S : Type 0} (h : HoldingQueues S) (digest : Text → Text) (u : Unicode)
    (serialized_bytes : BaseJobEnvelope → ℕ) where
  -- What a publication that succeeded has found or left.
  held_after :
      (queue name : Text) (e : BaseJobEnvelope) (id : Text) (s : S)
      → (job : HeldJob) × (h.held queue id (h.queues.add queue name e id s).1 ≡ some job)
  held_after queue name e id s = elim (Option-cases (h.held queue id s)) [
    | inl free ↦ (record { name = name; attempts_made = 0 }, h.adds queue name e id s free)
    | inr (job, there) ↦ (
      job,
      ap (λ (r : Result Foreign (Unit {0}) × S). h.held queue id r.1)
            (h.ignores queue name e id job s there)
          ∙ there,
    )
  ]

  prepare_inv :
      (i : QueueJobIdentity) (raw : Option RawEnvelope) (e : BaseJobEnvelope) (id : Text)
      → prepare h.queues digest u serialized_bytes i raw ≡ ok (e, id)
      → locate h.queues digest i ≡ ok id
  unfolding prepare
  prepare_inv i raw e id made =
      let (done, r₁, e₁) = bind_inv _ (assert_job_name i.job_name) made in
      let (envelope, r₂, e₂) = bind_inv _ (parse_job_envelope u serialized_bytes raw) r₁ in
      let (job_id, r₃, e₃) = bind_inv _ (locate h.queues digest i) r₂ in
      e₃ ∙ ap ok (ap (λ (x : BaseJobEnvelope × Text). x.1) (ok_inj r₃))

  -- Adding again under the identifier of a held job.
  again :
      (i : QueueJobIdentity) (id : Text) (job : HeldJob) (s : S)
      (prepared : Result Thrown (BaseJobEnvelope × Text))
      → locate h.queues digest i ≡ ok id
      → h.held i.queue_name id s ≡ some job
      → ((e : BaseJobEnvelope) (other : Text)
          → prepared ≡ ok (e, other)
          → locate h.queues digest i ≡ ok other)
      → (guarded prepared (add_prepared h.queues digest i) s).1 ≡ s
  again i id job s (err thrown) located there agree = refl
  again i id job s (ok (e, other)) located there agree =
      let same : other ≡ id = ok_inj (sym (agree e other refl) ∙ located) in
      rw (same, h.ignores i.queue_name i.job_name e id job s there) refl

  inspect_held :
      (i : QueueJobIdentity) (id : Text) (job : HeldJob) (s : S)
      → locate h.queues digest i ≡ ok id
      → h.held i.queue_name id s ≡ some job
      → inspect h.queues digest i s ≡ (
        ok (
            some (record {
              queue_name = i.queue_name;
              job_name = job.name;
              job_id = id;
              state = h.state_of i.queue_name id s;
              attempts_made = job.attempts_made;
            })),
        s,
      )
  unfolding inspect
  inspect_held i id job s located there =
      rw (located, inspect, h.gets i.queue_name id s, there, h.reads i.queue_name id s) refl

  answered :
      (i : QueueJobIdentity) (id : Text) (p : PublishedJob) (r : Result Foreign (Unit {0}) × S)
      → (awaiting r (answer_published h.queues digest i id)).0 ≡ ok p
      → (id ≡ p.job_id) × ((awaiting r (answer_published h.queues digest i id)).1 ≡ r.1)
  answered i id p (ok done, s) e = (ap (λ (x : PublishedJob). x.job_id) (ok_inj e), refl)
  answered i id p (err cause, s) e = cc

  -- What a publication that succeeded has left.
  published :
      (i : QueueJobIdentity) (s : S) (p : PublishedJob)
      (prepared : Result Thrown (BaseJobEnvelope × Text))
      → ((e : BaseJobEnvelope) (id : Text)
          → prepared ≡ ok (e, id)
          → locate h.queues digest i ≡ ok id)
      → (guarded prepared (add_prepared h.queues digest i) s).0 ≡ ok p
      → (job : HeldJob) × (locate h.queues digest i ≡ ok p.job_id)
        × (h.held i.queue_name p.job_id (guarded prepared (add_prepared h.queues digest i) s).1
            ≡ some job)
  published i s p (err thrown) agree e = cc
  published i s p (ok (envelope, id)) agree e =
      let (job, there) = held_after i.queue_name i.job_name envelope id s in
      let (same, left) = answered i id p (h.queues.add i.queue_name i.job_name envelope id s) e in
      (
        job,
        agree envelope id refl ∙ ap ok same,
        ap (λ k. h.held i.queue_name k (add_prepared h.queues digest i (envelope, id) s).1)
              (sym same)
            ∙ ap (h.held i.queue_name id) left
            ∙ there,
      )

  -- A job that was published stays published once: publishing again under the same identity, with
  -- whatever envelope, changes nothing in the queues, and `inspect` finds the job under the identifier
  -- that the first publication answered with, and changes nothing either.
  pub publish_again :
      (i : QueueJobIdentity) (raw other : Option RawEnvelope) (s : S) (p : PublishedJob)
      → (publish h.queues digest u serialized_bytes i raw s).0 ≡ ok p
      → ((publish h.queues digest u serialized_bytes i other
            (publish h.queues digest u serialized_bytes i raw s).1).1
          ≡ (publish h.queues digest u serialized_bytes i raw s).1)
        × ((job : HeldJob) × (inspect h.queues digest i
                (publish h.queues digest u serialized_bytes i raw s).1
              ≡ (
                ok (
                    some (record {
                      queue_name = i.queue_name;
                      job_name = job.name;
                      job_id = p.job_id;
                      state =
                          h.state_of i.queue_name p.job_id
                            (publish h.queues digest u serialized_bytes i raw s).1;
                      attempts_made = job.attempts_made;
                    })),
                (publish h.queues digest u serialized_bytes i raw s).1,
              )))
  unfolding publish
  publish_again i raw other s p e =
      let prepared = prepare h.queues digest u serialized_bytes i raw in
      let (job, located, there) = published i s p prepared (prepare_inv i raw) e in
      let s' = (guarded prepared (add_prepared h.queues digest i) s).1 in
      (
        again i p.job_id job s' (prepare h.queues digest u serialized_bytes i other) located there
            (prepare_inv i other),
        (job, inspect_held i p.job_id job s' located there),
      )
