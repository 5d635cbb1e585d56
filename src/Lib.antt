-- ===== src/Lib.antt =====
-- Verification of the money movement core of a wallet service (NestJS and PostgreSQL, apps/api)
-- and of what its web client (apps/web) does with amounts, calls and lists.
--
-- The program. A user holds one wallet. A direct transfer (POST /transfers) or an accepted money
-- request (POST /money-requests/:id/accept) moves an amount between two wallets inside one database
-- transaction: it claims the Idempotency-Key, locks both wallets, checks them and the sender's
-- limits, writes the transfer, the two ledger rows and the two balances, scores the transfer,
-- writes an outbox event and an audit row, and stores the response under the key. A worker drains the
-- outbox into notifications and explanations. Requests come through guards that ask for a session,
-- which rotates at every refresh; lists are read in pages behind a cursor.
--
-- The files and the code.
--   Base         natural numbers, integers (Base/Int), tables as lists (Base/Lists), texts as code
--                points with their order and decimal texts (Base/Text)
--   Store        database/prisma/schema.prisma as records (Store/Rows), the stored responses
--                (Store/Dto), the errors of apps/api/src/common/exceptions and
--                database/prisma-errors.util.ts (Store/Failure), the database, calls on it and
--                transactions (Store/Tx), inversion of calls that returned (Store/Run)
--   Platform     what comes from outside: the UUID casts, ISO texts, trim, SHA-256, the configured
--                limits; Env is what one run meets, its clock readings and the ids drawn for it
--   Idempotency  idempotency/idempotency.service.ts; RequestHash is request-hash.util.ts; Replay,
--                Claims and Stored say what begin and complete leave in the record of a key,
--                Order that the canonical text forgets the order of members, Quoting that a
--                quoted text is read back
--   Limits       limits/transaction-limit.service.ts and its repository
--   Risk         risk/risk-engine.service.ts
--   Audit        audit/audit.service.ts
--   Outbox       outbox/outbox.repository.ts: the insert here, the worker's statements in Queue;
--                outbox.processor.ts (Processor) and outbox.poller.ts (Poller, a step relation);
--                Steps says what one step does, Attempts and Drained what a drain does to the events
--   Notifications  notifications/notification.consumer.ts (Consumer), its repository (Repository),
--                markRead (Service); Redelivery is about an event that comes twice, Announced about
--                the way from a transfer to the notification of its receiver
--   Auth         auth/auth.service.ts (Service), auth-session.repository.ts (Sessions), the account
--                statements of users.repository.ts and wallets.repository.ts (Accounts), the token and
--                password services over what comes from outside (Credentials); Rotation, Once and
--                LoggedOut are about sessions, Opening about registrations, Admission about logins
--   Money        apps/web/lib/money.ts and common/money/format-minor.util.ts: Format, Parse; Grouping
--                and RoundTrip hold the results
--   Transfers    transfers/transfers.repository.ts (Repository), settle and its assertions (Settle),
--                createDirectTransfer, runTransfer and the read path (Service); Authorise, Moves,
--                Annotations and Settled take a settlement apart, Wallets and Money are about the
--                balances, Outcome about the retry loop, Movement and Notes about when the rows are
--                written; Payload is about the canonical
--                text; Direct, Once, Guarantees, Reading, Success and Returns hold the
--                results
--   MoneyRequests  money-requests/money-requests.repository.ts with the mapper (Repository), the
--                commands and assertions (Rules) and the handlers (Service) of
--                money-request.service.ts; Transitions and Lifecycle are about one request, Handlers,
--                Accepting, Creating and Final hold the
--                results
--   Pagination   common/pagination: the order and the pages of a list (Keyset), its cursor (Cursor), the
--                lists of notifications and of money requests (Lists); Order and Pages hold the
--                results
--   Activity     activity/activity.repository.ts and activity-query.service.ts
--   Verification  verification/verification.service.ts and nid.util.ts; Final holds the result
--   Users        users/users.service.ts without its search, email-mask.util.ts and
--                wallets/wallets.service.ts; Mask is about the mask
--   Http         the guards, the Idempotency-Key parameter and global-exception.filter.ts of
--                apps/api/src/common; Guarded is about a handler behind the guard
--   Client       apps/web/lib/api-client.ts: Request, and the keys it makes (Key); Outcome is about
--                its errors; Feed is lib/use-activity.ts as a step relation, Whole its invariant
--   Fixtures     a small platform and database on which the theorems are tried, in the Tests modules
--
-- State and calls. `Db` holds every table as the list of its rows and the row locks of the running
-- transaction. A call is a function from a database to a result and a database; what it wrote before
-- it threw stands until `transaction` rolls it back. A handler may run its transaction several times;
-- each attempt has clock readings and id draws of its own, and may be ended by the database with an
-- error, which is how a deadlock or a serialization failure shows. Transactions run one after the
-- other: interleavings are not modelled, and locks are recorded in the order in which they are taken.
--
-- Numbers. Amounts are integers without bound, as bigint is; the columns are BIGINT, and a balance
-- outside 0 to 2^63 - 1 is refused where the database refuses it. Ids are numbers that stand for UUID
-- values; where a client sends a text, the text is kept and cast. Times are milliseconds.
-- `Number(bigint)` keeps the integer, as it does up to 2^53; the routes accept no larger amount. Texts
-- are code points: `.sort()` compares UTF-16 units, which is the same order on the keys of a payload.
--
-- Loops. `begin` has three rounds and createDirectTransfer and accept have three attempts, as in the
-- source, and each is a recursion on the rounds that are left, with no further bound.
--
-- A drain of the outbox is a recursion on its batch; Outbox.Drained says which batch is large enough.
-- The decimal text of a number and its groups of a thousand recur on fuel one above the number.
--
-- Pagination.Pages reads a list page by page on fuel, for which one more than its rows is enough.
--
-- Outside calls. argon2, the JWT signer and verifier, random tokens, CITEXT, base64url, the AI
-- service, Redis and the browser's fetch are arguments or fields of the records that a run takes
-- (Credentials, Step, Encoding, Browser), as is the way in which the language turns a member of a
-- payload into a text or a bigint (Language).
--
-- Not modelled. A connection that is lost after the database has committed: an attempt that the
-- database ends is rolled back. Foreign keys (the ids that are written come from rows just read), the messages and
-- details of errors, routes and schemas of requests, the search for users and the pages of the web
-- client.
pub mod Base
pub mod Store
pub mod Platform
pub mod Risk
pub mod Limits
pub mod Audit
pub mod Idempotency
pub mod Outbox
pub mod Fixtures
pub mod Transfers
pub mod MoneyRequests
pub mod Auth
pub mod Money
pub mod Pagination
pub mod Activity
pub mod Verification
pub mod Users
pub mod Http
pub mod Client
pub mod Notifications
