-- ===== src/Lib.antt =====
-- Verification of the HaloChat API, a NestJS chat server: its relationships (friend requests and
-- blocks), its calls, its logins with their sessions, refresh tokens and passwords, the queue of side
-- effects to be retried, the reports on users with their penalties and appeals, the reactions to its messages, and the read
-- receipts of its conversations.
--
-- The parts and how they interact. Each service of src/modules is a class over one or more
-- collections of MongoDB. `Schemas` has the documents and enumerations (modules/*/schemas and
-- modules/*/types). `World` has what the services share: the collections, Redis' sets of unseen
-- conversations and its keys with an expiry, the queue of BullMQ, the events for the realtime layer, and the clock. An asynchronous
-- method is an `Action`: a function from a `World` to a result, or an exception, and the
-- `World` it leaves (`Shared/Action`). What a method has written before it throws stays written,
-- unless it stands in `session.withTransaction`. A read that stands there without the session sees what
-- is committed: the count of strikes takes the reports from before the decision as an argument.
--
-- MongoDB, ObjectIds and Redis are not code of the repository. `Shared/Platform` has them as a record:
-- find, findOne, findOneAndUpdate, findOneAndDelete, create, updateMany, deleteMany, countDocuments
-- with what the manual says of each, over an enumeration of a collection in no particular order.
-- Which of several matching documents is taken is left open. Every theorem holds for every such
-- platform; `Shared/ListPlatform` is one, on lists, that the tests run on. An ObjectId is a
-- number; its text may have several spellings (`ObjectId.isValid` takes hex digits of either case).
-- `Shared/Redis` has the commands on keys with an expiry in the same way, and `Shared/ListRedis` meets them.
--
-- The files.
--   * RedisService: the wrappers on keys with an expiry of src/redis/redis.service.ts.
--   * Users: `findOne` and `checkUser` of src/modules/users/user-query.service.ts; Login has its
--     `findByEmailOrPhoneForLogin`; Codes and Password are user-code.service.ts and user-password.service.ts.
--     Resetting has the proofs.
--   * Relationships: src/modules/relationships. Access, Query, Request and Block are
--     relationship-access, -query, -request and -block.service.ts. The conversation that `accept` opens is
--     the interface `Chat`. Reading, Uniqueness, Blocking, Effects, Acceptance and Trace have
--     the proofs.
--   * CleanupJobs: src/modules/cleanup-jobs. Create has the retry schedules, the rules on payloads
--     and `createCleanupJob`; Command has cleanup-job-command.service.ts; Dispatcher has
--     cleanup-job-dispatcher.service.ts over the interface `Media`; Process has `processCleanupJob` and
--     the worker of the queue. Schedule, Keeping, Locking, Settling and Progress have the proofs.
--   * Sessions: src/modules/session. Service has session.service.ts, `removeDevice` and
--     `resolveDeviceContext`; Deferral and
--     Revoking have the proofs. The fallback of a revocation that fails is a job of CleanupJobs, whose handler
--     calls Sessions again.
--   * Calls: src/modules/calls/call.service.ts. Query, Message and Change have the operations;
--     `getMessageById` and the emission of events are the interface `Messages`. `end_write` is the second
--     half of `endCall`, so that other requests can come between its read and its write. Missing is
--     `createMissingCallMessages`.
--     Machine, Following, Running, Telling, Backfill, Retelling and Completing have the proofs.
--   * Realtime: StartCall is `startCall` of src/modules/realtime/realtime-call.service.ts, up to the
--     creation of the call; OneCall and Locking have the proofs.
--   * Reports: Penalty is src/modules/reports/report-penalty.service.ts with the constants of
--     constants/penalty.constant.ts; Resolve is `resolve` of reports.service.ts with `resolveReport`, whose
--     transaction is `decide` and whose part after the commit is `announce`; Appeal is
--     report-appeal.service.ts over the interfaces `AppealTokens` and `EvidenceImages`; Admin is
--     report-admin-action.service.ts; Create is `create` with its limit. bcrypt is the interface `Passwords`. Escalation, Severity and
--     Application have the proofs about penalties. Lifecycle has the machine of a report; Following,
--     Deciding, Announcing, Resolution, Pardoning, Appealing and Running take each operation through
--     it; Merging and Discarding have what is left of other reports.
--   * Auth: src/auth/auth.service.ts. Tokens has the interface of JSON web tokens and hashes, and
--     `generateJWT`; Refresh is `refreshToken`; Logout has `logout`, `logoutAllDevices` and
--     `logoutAllDevicesByAdmin`; Login is `validateUser` with the block after failures, and the strategy
--     of src/auth/passport/local.strategy.ts that calls it. Granting, Replay, Ending,
--     FailCount, Comparing, Guessing, Blocking and Recovery have the proofs.
--   * Messages: Reaction is src/modules/messages/message-reaction.service.ts; Checking and Reacting
--     have the proofs.
--   * Conversations: Access is conversation-access.service.ts; State has the last message, pins and
--     read receipts of conversation-state.service.ts; Member has `removeMember` of
--     conversation-member.service.ts over the interface `Posts`; Reading and Membership have the proofs.
--   * Samples has documents for the tests. Tests in each folder, Reports/LifecycleTests, Auth/LoginTests,
--     Auth/RecoveryTests and Calls/MissingTests run the operations on the list platform and instantiate
--     the theorems.
--
-- Fuel is used once, by the loop over the batches of `createMissingCallMessages`: it is the number of the calls,
-- and each round leaves ten calls less. The other operations are loop free, or recursive on a list. Numbers are natural
-- numbers: dates are milliseconds, and subtraction of dates stops at 0 where the code takes
-- a maximum with 0.
--
-- Not modelled: rendering of documents and paged listings, uploads, mail, what follows `validateUser`
-- in a login, registration and profiles, the socket gateway but for the start of a call, push
-- notifications, statistics and the audit log; of conversations, the addition of members,
-- administration and hidden histories; of messages, all but reactions; of reports, automatic bans.
pub mod Shared
pub mod Schemas
pub mod World
pub mod Samples
pub mod Users
pub mod Relationships
pub mod CleanupJobs
pub mod Sessions
pub mod Conversations
pub mod Calls
pub mod Reports
pub mod Auth
pub mod Messages
pub mod RedisService
pub mod Realtime
