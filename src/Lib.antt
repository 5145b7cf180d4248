-- ===== src/Lib.antt =====
-- Ahjoor backend: a NestJS service for rotating savings groups (ROSCAs) on the Stellar network. Members
-- pay into a group each round, and one member is paid out each round, in the payout order.
--
-- Parts, with the file that models each; all paths are under ahjoorxmr/src.
--   Memberships (memberships/memberships.service.ts): addMember, removeMember, leaveGroup,
--     getCurrentRecipient, recordPayout, suspendMember, reinstateMember.
--   Waitlist (waitlist/waitlist.service.ts): the queue for a full group and the admission from it, which
--     a freed slot starts.
--   Groups (groups/groups.service.ts): update, softDelete, activateGroup with its payout order
--     strategies, transferAdmin; Groups.ManualRound: advanceRound.
--   Rounds (groups/round.service.ts): tryAdvanceRound, which closes a round that all active members paid
--     and calls the payout.
--   Payout (groups/payout.service.ts): distributePayout and the poll of unconfirmed payouts;
--     Payout.Reconciliation (bullmq/payout-reconciliation.processor.ts): the settlement by the chain.
--   Stellar (stellar/stellar.service.ts as payout.service.ts calls it): the answers of the chain, of
--     decimal.js and of text formatting, as one record of functions, Outside, that every theorem is
--     about all values of.
--   Penalties (penalties/services/penalty.service.ts): fines, which block a payout while they are pending.
--   Contributions (contributions/contributions.service.ts): createContribution, which records a payment
--     and asks for the next round, and the reconciliation of stuck records.
--   Payments (payments/payments.service.ts, installment-penalty-accrual.ts): installment plans.
--   Invites (groups/invites/group-invite.service.ts): membership by a code.
--   Circuit, Congestion (stellar/stellar-circuit-breaker.service.ts, congestion-monitor.service.ts): the
--     circuit breaker before the network.
--   Challenges (challenge.store.ts): one-time login challenges.
--   Groups.Templates, Groups.Cloning (groups/group-templates.service.ts): the templates, and their merge
--     into a request for a group.
--   FeatureFlags (feature-flags/services/feature-flag.service.ts): the flags in Redis, their cache in each
--     process, the answer for a user, and reads that overlap after a write by another process.
--   EventListener (event-listener/event-listener.service.ts): the poll of the contract's transactions, the
--     parsing of their events and the handlers, which write to contributions, groups and members.
--   Scheduler (scheduler/services/distributed-lock.service.ts, round-advance.service.ts,
--     group-status.service.ts): the lock, the retry of a job, the job that advances rounds and the
--     start and end of groups.
--   TrustScore (trust-score/trust-score.service.ts): the score of a member, its access, the suspicion of a
--     repeated cohort, and the nightly recalculation in batches.
--   BalanceMonitor (stellar/balance-monitor.service.ts): the checks of the accounts' balances and the
--     alerts for those that are low or have recovered.
--   Sessions (auth/auth.service.ts): refresh tokens, their rotation and revocation.
--   BackupCodes (two-factor/two-factor.service.ts): the backup codes of the second factor.
--   Throttler (throttler/redis-throttler-storage.service.ts): the counts of requests in Redis.
--   PoisonMessages (bullmq/poison-message-detector.service.ts): jobs that fail in the same way repeatedly.
--   System: the steps of the services that share groups and members, and what every run keeps.
--   Entities, Finance: the rows; Common: tables as lists, rows by key, results; Fixtures: test rows.
--
-- How the code is read. A repository is a list of rows in the order of insertion; the tables that the
-- services share are the record Db, with the effects sent to other services (notifications, webhooks,
-- queue jobs, the admission that setImmediate starts) as a list. A SELECT is `find` or `filter_by`, an
-- UPDATE `update_where`, `save(row)` the replacement of the row with its id. A handler is a function from
-- a database to a result; where a handler writes before it throws, it gives back the database as well.
-- A transaction under a row lock is one such function. Ids, wallets, hashes, names, texts and amounts that
-- are only stored and compared are numbers; ids that the database generates are arguments. Numbers are
-- those of the code below 2 ^ 53; a comparison of a difference that may be negative is written without
-- subtraction. A Map, a Set and a hash of Redis are lists of entries with one entry for a key
-- (Common.Maps, Common.Sets). Loops over rows are structural recursion. The loop of recalculateAll runs on
-- fuel, one more than there are users, which is enough, since each round moves the offset on by 200.
--
-- Hypotheses that come back: HasKeys, HasGroupKeys, HasPlanKeys, HasEntryKeys, HasPayoutKeys,
-- HasPenaltyKeys and HasInviteKeys say that a table's primary key is unique, which the database enforces.
--
-- Not modelled: createGroup (groups/groups.service.ts), which always throws, since it reads a service that
-- the class does not have; reads for display and their pagination, logging, failures of the database and
-- of the notification and queue services, the retries of notifications, the mail and webhook bodies, the jobs
-- of the scheduler for archives, statistics and cleaning up, and the parts that are calls of third-party
-- services (FX, KYC, mail, metrics, authentication tokens).
pub mod BackupCodes
pub mod BalanceMonitor
pub mod Challenges
pub mod Circuit
pub mod Common
pub mod Congestion
pub mod Contributions
pub mod Entities
pub mod EventListener
pub mod FeatureFlags
pub mod Finance
pub mod Fixtures
pub mod Groups
pub mod Invites
pub mod Memberships
pub mod Payments
pub mod Payout
pub mod Penalties
pub mod PoisonMessages
pub mod Rounds
pub mod Scheduler
pub mod Sessions
pub mod Stellar
pub mod System
pub mod Throttler
pub mod TrustScore
pub mod Waitlist
