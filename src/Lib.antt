-- ===== src/Lib.antt =====
-- Verification of the Protege Mais backend: the authentication of accounts, the sessions behind
-- their refresh tokens, the edge of the API and the processing of jobs.
--
-- The program is a Fastify API and a worker over PostgreSQL and Redis. A login authenticates an
-- e-mail and a password against `accounts`, issues an access and a refresh token, and creates a row
-- of `auth_sessions` that keeps the hash of the refresh token. A refresh verifies the token
-- presented, issues two new tokens and rotates the row from one hash to the other; a token that is
-- not the row's current one revokes the session. Errors leave through one handler, logins pass a
-- rate limit, and jobs go from queues to the use cases of a registry.
--
-- Files, and the code that they model:
-- - Base (Tests, Lists, Int, Outcome, Number): Boolean tests and lists over the native numbers, the
--   integers for instants and status codes, results of calls that may throw, JavaScript's numbers.
-- - Text (Defs, Laws, Unicode, Patterns): strings as lists of code points with their lengths in
--   UTF-16 and UTF-8, trimming, the classes of characters; the Unicode tables are a parameter.
-- - Common: packages/common (errors, auth-sessions, accounts, authentication, permissions,
--   organizations, organization-units, organization-members).
-- - Database: Tables is packages/models (accounts, auth-sessions) with every constraint of
--   auth_sessions; Accounts and Sessions are packages/repositories/authentication. A method is one
--   transaction that locks what it reads, so a call is one step, and one that throws changes nothing.
--   Children of Sessions: Rows (tables by key), Outcomes (the cases of a rotation), Effect (what each
--   does), Contract (its abstract form), History (sequences of calls), Replay, Health and Complete
--   (when a rotation cannot throw).
--   Directory and Authorization are the tables of organizations, units, members, roles and permissions
--   (packages/models): their checks, in Cnpj and Municipality against the application's own rules, and
--   in Position the parser of the positions that PostGIS answers with.
-- - Services: packages/services/authentication; Jose is the library of that name with the documented
--   law that it accepts what was signed with the key as the options say, Dates the instants,
--   AccessToken and RefreshToken with their Window, Separation, and Password over argon2.
-- - UseCases: packages/useCases/authentication; World is what a use case reads and changes (the
--   database and the audit), Authenticate, Login and Refresh are the three use cases.
-- - Config: packages/config/validation.ts. Shapes are its tests on texts, Hosts the form of an accepted
--   host, Readers its functions for one key, Environments the configurations; Blame and Refusal are
--   what a reader blames, Manager and Accepted the configuration of the API.
-- - Edge: RateLimit (packages/middlewares/authentication), ErrorHandler, Readiness and Redis
--   (packages/plugins); in Redis, Limit is the rate limit over the commands of Redis, and Lifecycle
--   the connection, as a history of calls and of what its client reports.
-- - Logging: packages/plugins/logging/sanitization.ts. Patterns matches its regular expressions, Keys
--   says which keys are sensitive, and Sanitization is the traversal, on a heap of objects; Entered and
--   Cycles are about the objects that it has entered. Correlation is correlation.ts beside it.
-- - Queues: packages/plugins/queues: Payload, Envelope and Producer, over the queues of BullMQ.
-- - Worker: packages/useCases/jobs, apps/worker/src/job-processor.ts, and in Pool the consumer of
--   packages/plugins/queues that hands its jobs to the processor.
-- - Tests: concrete data on which the theorems are applied, with parameters that compute.
--
-- Numbers: instants are milliseconds and claims are seconds, both as integers without bound; the
-- source's own bounds (safe integers, the range of Date, the column `integer`) are written out. No
-- definition uses fuel: all recursion is structural.
--
-- Not modelled: what the clients, the routes and the schemas do; the wrapper of pg, the start and
-- the end of the connections of BullMQ, and the loggers themselves; foreign keys and indexes.
-- Parameters: jose, argon2, the SHA-256 and HMAC digests, the clock and the generators of
-- identifiers, the test for a UUID of version 7, the client of Redis, the queues of BullMQ, URLs and
-- network addresses, the locale of PostgreSQL and the Unicode tables.
pub mod Base
pub mod Text
pub mod Common
pub mod Database
pub mod Services
pub mod UseCases
pub mod Edge
pub mod Logging
pub mod Queues
pub mod Worker
pub mod Config
pub mod Tests
