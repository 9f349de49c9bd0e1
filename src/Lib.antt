-- ===== src/Lib.antt =====
-- Verification of the SocialHub backend (backend/): posts that are reviewed, scheduled and
-- published to social networks, for organizations whose members have roles and whose plans have
-- limits.
--
-- The parts, each with the code that it models:
--   Schema, Database    The enums of backend/prisma/schema.prisma, and one database table as an
--                       interface: find, guarded update, create, delete, list and count, with what Prisma
--                       documents of them as laws. Every service takes its tables as parameters.
--                       Database.Rows implements the interface by a list of slots, and Every
--                       says what holds of all rows of a table.
--   SocialToken         backend/src/social-accounts/social-token.service.ts: needsReconnect,
--                       isDueForRefresh, refreshAccount, ensureFreshAccessToken and
--                       refreshDueAccounts, under the same names in snake case.
--   Publishing          backend/src/publishing/publishing.service.ts. A World holds the tables,
--                       the queues, and what has been posted and notified. Validate: loadAndValidate
--                       and loadAndValidateCarousel. Enqueue: publishNow, publishCarouselNow,
--                       schedule and scheduleCarousel. Dispatch: dispatchDueScheduledJobs. Cancel:
--                       requeueJob, cancelJob, findJobScoped and cancelScheduled. Execute:
--                       executePublish and executeCarouselPublish, their second half in Attempt.
--                       Worker: the process method of
--                       backend/src/publishing/processors/base-publish.processor.ts and the retries
--                       of the queue. Lifecycle: all of these as steps of one relation.
--   Access              backend/src/common/constants/role-rank.ts and guards/roles.guard.ts (Roles),
--                       backend/src/organizations/members and invites (Members, Invites), and
--                       backend/src/content/approval.service.ts (Approval).
--   Plans               backend/src/billing/plan-config.ts and plan-limits.service.ts, and in Quota
--                       backend/src/ai/quota.guard.ts.
--   Billing             backend/src/billing/billing.service.ts: ensureCustomer and, in Webhook,
--                       handleWebhook with syncSubscription, recordInvoice and markPastDue.
--   RateLimit           A counter of a window in Redis. Throttle:
--                       backend/src/auth/auth-throttle.service.ts. Guard:
--                       backend/src/common/guards/org-rate-limit.guard.ts. Redis is an interface
--                       with the laws of its commands, which Memory fills by a function; a Net says
--                       which commands of a call fail.
--   Auth                backend/src/auth/auth.service.ts (Session: issueTokenPair, refresh, logout;
--                       Login: register, login), backend/src/auth/account.service.ts (Account),
--                       backend/src/auth/mfa.service.ts with completeMfaLogin (Mfa, Enrolment),
--                       setOrgStatus of backend/src/admin/admin-compliance.service.ts (Suspension),
--                       and backend/src/auth/google-auth.service.ts (IdToken, Google).
--   Connect             backend/src/social-accounts/social-accounts.service.ts: the state of an
--                       authorization, upsertAccount and disconnect; the URLs and the callbacks of
--                       the platforms (Start), and what Meta has deleted (Deletion).
--   Webhooks            backend/src/webhooks/webhooks.service.ts.
--   Erasure             backend/src/users/account-data.service.ts (Accounts), over the cascades and
--                       the restrictions of backend/prisma/schema.prisma (Cascades).
--   Analytics           backend/src/analytics/analytics-aggregation.ts.
--   Variants            backend/src/content/variant-generator.service.ts, with the capabilities of
--                       the adapters in backend/src/social-accounts/adapters.
--   Gateway             backend/src/ai/ai-gateway.service.ts.
--   Notifications       backend/src/notifications/notifications.service.ts.
--   Crypto              backend/src/common/crypto/base32.util.ts and totp.util.ts.
--   Samples             Concrete tables and rows, and the theorems applied to them.
--
-- How they interact: a request validates a variant and an account and stores a job, which goes
-- to the queue of its platform at once or, when it is scheduled, once a tick has claimed its
-- row. A worker runs each entry of a queue: it loads the target, asks the token service for an
-- access token, posts through the platform, and records the result on the row. An attempt that
-- throws is run again by the queue, up to three in all, also where the platform has made the post
-- before the call threw. The approval of a design, which the
-- publishing gate reads, moves by the rules of Access.Approval; an invitation asks Plans for a
-- free seat, by the plan that Billing sets on the organization.
--
-- A login asks the throttle before it looks at the password, and tells it of each failure and
-- each session; the throttle counts in the same Redis as the limit of an organization. A session
-- is an access token and a refresh token, whose row Auth.Session rotates; a reset of the
-- password closes the sessions of its user. A sign-in with Google finds, links or creates the user
-- and hands over a ticket, which is exchanged for the same pair of tokens.
--
-- A connection asks Plans for room and stores the account that Publishing posts through; a webhook
-- of the platform revokes it, or marks a published job as failed. A deletion goes along the
-- references of all these rows.
--
-- Conventions. An id is a number, which the code only compares; a time is a number of
-- milliseconds. An exception is a value, in most services one constructor for each message. Every operation is
-- atomic between two steps except where the code guards a write by a count: the claim of a
-- dispatch (on a row that was read earlier), the cancellation of a schedule, and the acceptance
-- of an invitation are each a step of their own, on a state that others may have changed. So are
-- the second halves of a refresh, of the redemption of a link and of the use of a recovery code,
-- which take what was read as an argument. The retries are a recursion on the attempts that are
-- left; three suffice, since an entry is added with three. The two loops on fuel are in Crypto:
-- the digits of a number take no more rounds than its value, which is the fuel; and at most
-- twelve bits wait when a byte has come in, where two rounds leave fewer than five, and the fuel
-- is three.
--
-- Parameters: the service that encrypts tokens
-- (backend/src/common/crypto/token-encryption.service.ts, where each encryption has a nonce of its
-- own), as a pair of functions, of which the reading one may fail; and, as code that is not in the
-- repository: the database, the queues' storage, the hashes of tokens and of passwords, HMAC, the signer of access tokens, the random
-- values, toUpperCase and the normalization of an address, the answers of the platforms and of
-- Stripe, and the clock. A text that is taken apart is the list of its character codes.
--
-- Not modelled: failures of the database or of Redis (but a write for an organization that is
-- missing does fail) outside RateLimit, and the refusals of a deletion outside Erasure and Connect;
-- the uniqueness of Stripe's ids in the mirror, listJobs, the export of an account's data, the
-- columns for creation and update times, email, the approval policy's own two calls, SSO, and the
-- parts of the backend that the tree above does not name; the frontend.
pub mod Access
pub mod Analytics
pub mod Auth
pub mod Billing
pub mod Connect
pub mod Crypto
pub mod Database
pub mod Erasure
pub mod Gateway
pub mod Notifications
pub mod Plans
pub mod Prelude
pub mod Publishing
pub mod RateLimit
pub mod Samples
pub mod Schema
pub mod SocialToken
pub mod Variants
pub mod Webhooks
