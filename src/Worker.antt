-- ===== src/Worker.antt =====
-- packages/useCases/jobs and apps/worker/src/job-processor.ts, and the consumer of
-- packages/plugins/queues/index.ts that calls them.
pub mod Jobs
pub mod Settlement
pub mod Pool
