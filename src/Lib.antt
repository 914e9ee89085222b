-- ===== src/Lib.antt =====
-- A model of the core of the NudgeOn platform, a service that sends messages to the users of its customers'
-- apps. The parts modelled here are TypeScript.
--
-- The parts and how they interact. A customer is a tenant with members, who log in to a console and hold a
-- role. A request carries a session token: the session service finds the member behind it, the permission
-- guard compares the member's role with what the handler requires, and the handler calls a service. A member
-- who has a second factor logs in with a one-time code or a backup code; the secret of the codes is stored
-- in an envelope. A member writes segments of an app's users as a definition, which the segment compiler
-- turns into a query with bound values, and that into a ClickHouse query with named parameters. What the
-- apps send is limited by token buckets. A member also draws journeys, graphs of steps that messages are sent
-- by, and in-app campaigns: these are saved, reviewed, published and paused, and the installations of an app
-- ask for a decision, which reserves a delivery, have it authorized, and report what became of it.
-- Where the platform is installed for one customer, whoever has the setup token claims the installation for a
-- while and sets it up, which makes the customer's workspace with its owner and locks the installation.
--
-- Files, and the code that they are about:
--   Common            what the others share: tests on numbers, lists, results, texts, tables as lists of rows.
--   Segment           packages/segment-dsl/src/index.ts. Segment: the types and errors; Params: `Params`,
--                     `scalar`, `arrayValues`, `intValue`; Attribute, Channel, Event: `compileAttribute`,
--                     `compileChannel` and `compileDevice`, `compileEvent`; Compile: `compileCondition`,
--                     `compileGroup`, `compile`; Bind: `toClickHouse`. Supported describes the accepted
--                     definitions on its own; Emits counts places and values; Nests follows brackets; Scope is about
--                     the query's head.
--   Authz             apps/api/src/authz/permissions.ts and permission.guard.ts: the matrix, `can`,
--                     `permissionsForRole`, `isRole`, and `canActivate` as `can_activate`.
--   Accounts          the tables of db/postgres/schema.sql that the accounts use, as lists of rows.
--                     Sessions: apps/api/src/auth/session.service.ts (`create`, `resolve`, `revoke`,
--                     `revokeAllForMember`); Members: apps/api/src/members/members.service.ts (`create` as
--                     `create_member`, `changeRole`, `remove`, `assertInTenant`, and its checks).
--   Envelope          apps/api/src/crypto/envelope.ts (`seal`, `open` as `unseal`, `encryptEnvelope`,
--                     `decryptEnvelope`).
--   TwoFactor         Totp: apps/api/src/auth/totp.ts (`hotp`, `counterAt`, `verifyTotp`); Login and
--                     Enrollment: apps/api/src/auth/totp.service.ts (`verifyForLogin`, `tryBackupCode`,
--                     `startEnrollment`, `confirmEnrollment`, `disable` as `disable_totp`,
--                     `resetForMember`, `clear`).
--   Journey           packages/journey-model/src/index.ts and validation.ts. Journey: the types of a journey
--                     and `outputPorts`; Topology: `validateGraph` with its issues; Digraph: its loop that
--                     sorts the nodes and its walk from the start, over the texts of their ids. Order
--                     and Reach say what the two loops find, Nodes, Edges, Wiring and Sound what the issues
--                     are about.
--   Bootstrap         apps/api/src/auth/bootstrap.service.ts, for one customer. Bootstrap: the tables, and
--                     `createWorkspace` of auth.service.ts; Claims: `ensureInstallation`, `claim`, `setup`,
--                     `extend`, `setupResult` and `status`, and what reaches them one after the other. Once,
--                     Lease, Grant and Replay are about the one workspace, the lease and the repetition.
--   InApp             apps/api/src/in-app. InApp: the rows of db/postgres/upgrades/0011_in_app_campaigns.sql
--                     and the errors; Access: delivery.service.ts `register` and `auth`; Decision: `decide`;
--                     Display: `artifact`, `authorize`, `status`, `revoke`, and in Events `event`; Campaigns:
--                     campaign.service.ts `save`, `review` and `transition`; Live: delivery.controller.ts as
--                     `act` behind `auth`. Progress draws the diagram of a delivery's states.
--   RateLimit         apps/api/src/rate-limit/rate-limit.service.ts: the token bucket of its Lua script
--                     (`take_token`) and `check`, in thousandths of a token.
--
-- How code and definitions correspond. A function that throws gives a result, a value or an error with the
-- exception's reason; `Params`, which the compiler writes to, is a list of values passed along by do blocks.
-- A table is a list of rows: `first_row` is a SELECT, `update_rows` an UPDATE and `count_rows` its number of
-- rows. A transaction is one step, and one that is rolled back an error, which leaves the store. Ids are
-- numbers in place of uuids, and times numbers of milliseconds.
--
-- What is outside the code is an argument: the text of a JavaScript number (`number_text`), SHA-256
-- (`hash_token`), SQL's `lower`, HMAC-SHA1, argon2, base64, UTF-8 and AES-256-GCM (the fields of `Host` and
-- `Cipher`), the clock, the days of a time zone (`day_start` and `next_day`), the reading of uuids, the
-- files of an artifact, and random bytes. Of the in-app tables the foreign keys are left out. What is
-- assumed of the cipher stands in `IsCipher`, and of SHA-256, that it gives no empty text, in `IsDigest`.
--
-- Bounds. `decimal` writes a number with as much fuel as its value, and a number has at most one digit more
-- than its value. The loop of `verifyTotp` runs over the counters of its window, of which there are finitely
-- many. The sorting of a graph has as many rounds as there are nodes, since each round takes a node off the
-- queue and no node is put there twice; the walk has a round for the start and each arc, since nothing else is
-- pushed. All other recursion is on lists and texts.
--
-- Not modelled: of the journeys all but the graph; of the in-app messages the workbench, bundles and reading
-- of requests; ingestion, signup, and what becomes of API keys after they are made; the console's pages, which
-- are React; the worker and its queue library, which are Go; the other controllers, which pass requests on; the
-- isolation of transactions, which is the database's, such as a pause between the campaigns that `decide` reads
-- and the delivery that it inserts; columns that nothing modelled reads.
mod Common
pub mod Segment
pub mod Authz
pub mod Accounts
pub mod Envelope
pub mod TwoFactor
pub mod RateLimit
pub mod Journey
pub mod Bootstrap
pub mod InApp
