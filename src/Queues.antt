-- ===== src/Queues.antt =====
-- packages/plugins/queues/index.ts: the payloads of the jobs, their envelopes and identities.
pub mod Payload
pub mod Envelope
pub mod Producer
