-- ===== src/Logging/Correlation.antt =====
-- packages/plugins/logging/correlation.ts: the identifiers of a request and of a job. A generator is
-- what calling it gives, `none` for a throw; `uuid` is what `createUuidV7` gives.
use protege_mais.Base.{◌≡◌, refl, inl, inr, true, Option, none, some, Bool-cases, default}
use protege_mais.Text.{Text}
use protege_mais.Text.Patterns.{is_identifier}
use protege_mais.Queues.Envelope.{valid_correlation_identifier}

pub record CorrelationContext : Type 0 where
  pub request_id : Text
  pub correlation_id : Text

-- Both headers, where they are texts.
pub record CorrelationInput : Type 0 where
  pub request_id : Option Text
  pub correlation_id : Option Text

unfoldable pub generate_identifier : Option Text → Text → Text
unfolding valid_correlation_identifier
generate_identifier generated uuid = default (valid_correlation_identifier generated) uuid

unfoldable pub create_correlation_context :
    CorrelationInput → Option Text → Text → CorrelationContext
unfolding generate_identifier
create_correlation_context input generated uuid =
    let request_id =
      default (valid_correlation_identifier input.request_id)
        (generate_identifier generated uuid) in
    record {
      request_id = request_id;
      correlation_id = default (valid_correlation_identifier input.correlation_id) request_id;
    }

unfoldable pub create_worker_correlation_context :
    Option Text → Option Text → Text → CorrelationContext
unfolding create_correlation_context
create_worker_correlation_context correlation_id generated uuid =
    create_correlation_context (record { request_id = none; correlation_id = correlation_id })
      generated uuid

valid_inv :
    (value : Option Text) (other : Text)
    → is_identifier other ≡ true
    → is_identifier (default (valid_correlation_identifier value) other) ≡ true
unfolding valid_correlation_identifier
valid_inv none other h = h
valid_inv (some value) other h = elim (Bool-cases (is_identifier value)) [
  | inl fine ↦ rw (fine, valid_correlation_identifier) fine
  | inr bad ↦ rw (bad, valid_correlation_identifier) h
]

-- Whatever the headers are and whatever the generator gives, both identifiers of a request have the
-- shape of an identifier, provided that a UUID has it; and the correlation of a request without a
-- valid header is its own identifier.
pub create_correlation_context-is_identifier :
    (input : CorrelationInput) (generated : Option Text) (uuid : Text)
    → is_identifier uuid ≡ true
    → (is_identifier (create_correlation_context input generated uuid).request_id ≡ true)
      × (is_identifier (create_correlation_context input generated uuid).correlation_id ≡ true)
      × ((create_correlation_context
            (record input { correlation_id = none })
            generated
            uuid).correlation_id
          ≡ (create_correlation_context input generated uuid).request_id)
unfolding create_correlation_context generate_identifier valid_correlation_identifier
create_correlation_context-is_identifier input generated uuid h =
    let first =
      valid_inv input.request_id (generate_identifier generated uuid)
        (valid_inv generated uuid h) in
    (
      first,
      valid_inv input.correlation_id
          (default (valid_correlation_identifier input.request_id)
            (generate_identifier generated uuid))
          first,
      refl,
    )
