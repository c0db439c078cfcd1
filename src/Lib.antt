-- ===== src/Lib.antt =====
-- Models of the core services of dina-mobile, a personal agent that keeps a user's data in vaults
-- on the phone, with the theorems that make them correct.
--
-- The core (packages/core) runs between the brain (packages/brain), which reasons, and the outside.
-- A message of another node is received by d2d, which passes it to the staging inbox, to the
-- quarantine or to the brain; from the inbox items go into a vault. What an agent is to do is a task
-- of the workflow store. What leaves passes the gatekeeper and the gates of d2d, or the windows
-- of service for a query and its answer, and is delivered or put into the outbox. Requests of other
-- devices pass the guards of auth and the caches of rpc; devices get in by pairing. What
-- happens is written to the audit log. Each is a module here. They meet in the code through
-- function calls on module state; here each is a state and functions on it, and D2d.Receive, D2d.Send,
-- Auth.Middleware and Pairing.Ceremony put the states of what they call together. What goes to
-- the vault or to the Response Bridge is written to a log of the state.
--
--   Prelude, JsMap, JsSet  shared names; Map and Set of JavaScript in their insertion order.
--   Approval               packages/core/src/approval: Manager (manager.ts, ApprovalManager); theorems in
--                          Grants and Decisions.
--   Audit                  packages/core/src/audit: HashChain (hash_chain.ts), Service (service.ts:
--                          appendAudit, queryAudit, sweepRetention); theorems in Chain, Tampering,
--                          Retention, Runs and Query.
--   Auth                   packages/core/src/auth: RateLimit (ratelimit.ts, PerDIDRateLimiter), Nonce
--                          (nonce.ts, NonceCache), CallerType (caller_type.ts), Authz (authz.ts),
--                          Middleware (middleware.ts, authenticateRequest; timestamp.ts,
--                          isTimestampValid); theorems in Quota, Replay, Access and Requests.
--   Brain                  packages/brain/src: CircuitBreaker (core_client/circuit_breaker.ts), AgenticLoop
--                          (reasoning/agentic_loop.ts, runAgenticTurn); theorems in Breaking and
--                          LoopBounds (on LoopSteps).
--   D2d                    packages/core/src/d2d: Families (families.ts, the message types), Gates
--                          (gates.ts, the state and the four gates), Quarantine (quarantine.ts),
--                          Receive (receive_pipeline.ts, receiveD2D; receive.ts; the replay cache of
--                          transport/adversarial.ts), Send (send.ts, sendD2D up to its delivery and
--                          after it); theorems in Egress, QuarantineIds, Unquarantine, Replay,
--                          Admission, Effects, Outgoing and Answers (on Settling).
--   Devices                packages/core/src/devices: Registry (registry.ts); theorems in Revocation.
--   Gatekeeper             packages/core/src/gatekeeper: Intent (intent.ts, evaluateIntent), Sharing
--                          and Tiers (sharing.ts, checkSharingPolicy, filterByTier), Egress
--                          (egress.ts, checkEgress); theorems in Approval, Policy and Tiers.
--   Pairing                packages/core/src/pairing: Crockford (crockford.ts), Ceremony (ceremony.ts,
--                          completePairing); theorems in Codes (on Symbols and Encoder), Typos and
--                          SingleUse.
--   Rpc                    packages/core/src/rpc: Idempotency (idempotency_cache.ts), NonceReplay
--                          (nonce_replay_cache.ts), Evict (the eviction that both write out);
--                          theorems in Replies (on Keys) and Sightings.
--   Service                packages/core/src/service: QueryWindow (query_window.ts, windows.ts), Bodies
--                          (d2d/service_bodies.ts), Config (service_config.ts), Bypass (bypass.ts);
--                          theorems in OneShot and Reserve.
--   Staging                packages/core/src/staging: StateMachine (state_machine.ts), Inbox, Multi and
--                          Sweep (service.ts: ingest, claim, resolve, fail, ...; resolveMulti; sweep and
--                          drainForPersona); Steps, Calls and Loops prepare the theorems of Legal; Claims,
--                          Drain and Privacy hold the others.
--   Sync                   packages/core/src/sync: Dedup (dedup.ts), LivingWindow (living_window.ts);
--                          theorems in Recency and Zones.
--   Task                   packages/core/src/task: Queue (queue.ts); theorems in Jobs and
--                          Attempts.
--   Transport              packages/core/src/transport: Outbox (outbox.ts), Retry (retry.ts,
--                          retryPendingOutbox); theorems in Capacity, Attempts (on Credit) and Pass.
--   Workflow               packages/core/src/workflow: Domain (domain.ts), Repo, Lease, Finish, Delivery
--                          and Query (repository.ts, InMemoryWorkflowRepository), Service and
--                          Lifecycle (service.ts, WorkflowService); theorems in Transitions (on Moves), Atomicity,
--                          Claims, Availability and EventIds. Bridge is the Response Bridge of service.ts after a
--                          task is completed, as a step relation; theorems in Exclusion,
--                          Responses and Resend.
--
-- State is passed on explicitly: a method that throws gives a Result beside the state it leaves. Times,
-- random ids and hashes are arguments. Numbers are natural; a difference of times that could
-- be negative is written as a sum on the other side of the comparison. Every loop runs over a list,
-- a map or a number of rounds by structural recursion, or over a number that shrinks by the
-- accessibility of the order (the encoder of Pairing.Crockford), so no fuel is used. Where a call
-- awaits, it is in two steps (D2d.Send), or in steps of a relation, in which a send that times out goes
-- on (Workflow.Bridge), or it takes the calls that other code makes meanwhile as a further argument
-- (Transport.Retry.Turn); a call that may never settle has that among its outcomes
-- (Brain.AgenticLoop.Awaited).
--
-- Outside the models: the SQL repositories and the vault, whose calls are written to logs; texts of
-- errors and reasons; JSON, a parser and a printer for the workflow service and the service bodies;
-- SHA-256, signatures, sealed boxes and DIDs, which are parameters of Audit, Auth, D2d and
-- Pairing; the scrubber of personal data, a parameter of Gatekeeper.Egress; timers; the app and
-- the rest of the brain. The index into a plain object, which also finds what every object inherits, is
-- modelled in Gatekeeper.Intent; in D2d.Families the types are taken to be none of those names.
pub mod Prelude
pub mod JsMap
pub mod JsSet
pub mod Approval
pub mod Audit
pub mod Auth
pub mod Brain
pub mod D2d
pub mod Devices
pub mod Gatekeeper
pub mod Pairing
pub mod Rpc
pub mod Service
pub mod Staging
pub mod Sync
pub mod Task
pub mod Transport
pub mod Workflow
