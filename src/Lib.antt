-- ===== src/Lib.antt =====
-- openunion: a marketplace where organisations fund bounties, workers take the jobs and submit
-- evidence, and an accepted submission becomes a payout.
--
-- The parts modelled, and how they meet. An organisation publishes a bounty (src/store.ts), which
-- reserves its budget on the billing account and opens one job per fingerprint class. A worker leases
-- a job that findClaimableJob offers it (src/store.ts and the claim and release endpoints of
-- src/server.ts) and submits evidence for it, unless the same content was accepted before; a verifier
-- claims the submission's attempt and gives a verdict, an inconclusive one asks for another attempt, and
-- a pass makes the payout (addPayout). It is held for the dispute window; a payout.requested event in the outbox asks
-- workers/handlers.ts to pay it, off chain by a provider or on chain by one call of a splitter
-- contract, which a payout.confirm.requested event confirms. Until the hold is over the organisation
-- may dispute it, which stops the event, and a dispute.auto_refund.requested event refunds it when the
-- hold ends. workers/outbox-lib.ts claims the events, runs the handlers, retries and gives up.
--
-- Which file models what:
--   Enums, Rows           src/types.ts, src/db/types.ts: the rows of the tables as records, the
--                         database as a record of lists (Db).
--   Fees                  src/payments/crypto/baseUsdc.ts: computeFeeSplitCents,
--                         computePayoutSplitCents, centsToUsdcBaseUnits, proofworkFeeBps.
--   Outbox                workers/outbox-lib.ts, and enqueueOutbox of src/store.ts.
--   Accounts              the statements on billing accounts and billing events.
--   Billing               publishBounty and setBountyStatus of src/store.ts, and the admin top-up of
--                         src/server.ts.
--   Payouts               addPayout and markPayoutStatus of src/store.ts.
--   PayoutEnv, OnChain,   workers/handlers.ts: handlePayoutRequested and
--   Handlers              handlePayoutConfirmRequested.
--   Verifications         the statements of src/store.ts on submissions, verifications and reputation,
--                         and the verifier's claim; below it Verdict, the verdict endpoint.
--   Artifacts             attachSubmissionArtifacts of src/storage.ts.
--   Submissions           the submit endpoint.
--   Admin                 the administrator's requeue, mark-duplicate, override-verdict, payout retry
--                         and mark, and outbox requeue of src/server.ts.
--   Stripe                the Stripe webhook of src/server.ts.
--   Claimable             findClaimableJob, workerDuplicateRate and expectedPassRate of src/store.ts,
--                         originAllowed of src/buyer.ts.
--   RateLimit             src/ratelimit.ts, the token bucket.
--   BlockedDomains        src/security/blockedDomains.ts.
--   Addresses             isPrivateOrSpecialIpv4 of src/buyer.ts.
--   IntelPolicy           decideRepoPolicy of src/intel/policy.ts.
--   Sessions              src/auth/sessions.ts.
--   Disputes              createDispute, cancelDispute and resolveDisputeAdmin of src/store.ts, and
--                         handleDisputeAutoRefundRequested of workers/handlers.ts.
--   Jobs                  leaseJob, releaseJobLease, getActiveJobForWorker and reapExpiredLeases of
--                         src/store.ts, the claim and release endpoints, isLeaseExpired of src/utils.ts.
--   LedgerRuns            the operations above that post to the ledger, as steps in any order.
-- The modules below one of these hold its theorems; Examples below it applies them to concrete rows,
-- which Samples holds. Prelude has the shared notation, the integers of the ledger, the result type
-- and the lemmas on tables.
--
-- How the code corresponds. A table is a list of rows in the order of insertion, a SELECT of one row is
-- `find`, an UPDATE is `update`, an INSERT appends. An operation takes the clock and a supply of fresh
-- ids and returns the new database. A transaction that throws leaves the database as it was: the
-- result is `err`. A handler that writes outside a transaction returns the database that it left with
-- its outcome. Identifiers, digests, addresses and nonces are natural numbers, times are milliseconds,
-- money is a natural number of cents, and the signed amounts of billing events are integers. The
-- payment provider, the chain's RPC and the signer are fields of `Env`. Which outbox rows another
-- transaction has locked is the parameter `held`. No recursion needs fuel: the loop of the runner is
-- modelled one round at a time (Outbox.poll), and a run is a list of rounds.
--
-- The digests, the HMAC, the URL parser, the JSON descriptors of tasks and the database's failures are
-- parameters of the definitions that use them.
--
-- Bounds. Numbers are unbounded: JavaScript's loss of precision above 2^53 is not modelled, and neither
-- are the rounding errors of the floating-point tokens of the rate limit and of the scores of jobs.
-- Within one operation the clock is read once. An outbox error message and the reason of a verdict are
-- kept whole, where the code cuts them at 5,000 and at 500 characters. Concurrent requests are modelled
-- as one after another, except for the rows that other transactions lock in the outbox.
--
-- Not modelled: the other routes of src/server.ts (registration, uploads, organisations' settings, lists
-- and pages), the storage and scanning of artifacts besides their attachment, retention, GitHub ingest,
-- alarms and metrics, the integrations and the pages of the browser, audit metadata, and the columns that
-- no modelled operation reads.
pub mod Prelude
pub mod Enums
pub mod Rows
pub mod Fees
pub mod Outbox
pub mod Accounts
pub mod Billing
pub mod Payouts
pub mod PayoutEnv
pub mod OnChain
pub mod Handlers
pub mod Disputes
pub mod Jobs
pub mod Samples
pub mod Artifacts
pub mod Submissions
pub mod Admin
pub mod RateLimit
pub mod Addresses
pub mod Claimable
pub mod Stripe
pub mod IntelPolicy
pub mod BlockedDomains
pub mod Sessions
pub mod Verifications
pub mod LedgerRuns
