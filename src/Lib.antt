-- ===== src/Lib.antt =====
-- OpenWhistle, a whistleblower reporting system: its core logic as executable definitions.
--
-- A report is written anonymously and handled by the accounts of an office under two statutory
-- deadlines. The routes check who asks, call the services, write an audit entry and commit. Two
-- jobs and the counters of failed attempts share Redis with them.
--
-- Calendar models the part of Python's datetime that the code uses. Deadlines is
-- app/services/deadlines.py. Models holds the rows of app/models and the writing half of
-- app/services/audit.py; a database is the record of its tables, and a route returns the one it
-- commits. Access is the checks of app/api/admin.py and app/api/deps.py. Reports is the
-- operations of app/services/report.py on one report, Reports.Listing its page of the
-- dashboard. Cases is the case routes of app/api/admin.py, with Cases.Deletion for the
-- four-eyes deletion, Cases.Links for the links between cases and Makers for the walk from an
-- account to its makers. Accounts is the account routes over app/services/users.py. RateLimit
-- is app/services/rate_limit.py, Retention is app/services/retention.py and Reminders is
-- app/services/reminders.py. Wizard is the steps of a submission in app/api/reports.py, and
-- Drafts its Lua scripts with the requests that hand one draft over. Intake is the reporter's
-- side of app/services/report.py and the status pages of app/api/reports.py. SignIn is
-- app/services/auth.py, app/services/mfa.py and app/services/oidc.py under the routes of
-- app/api/auth.py. The children of these modules hold the theorems; Examples applies each of
-- them. Base has the shared helpers, among them Outcome: a value, an HTTPException with its
-- status, or any other exception.
--
-- A UUID is a number, since its fixed-width text orders like one. What a route draws (a fresh
-- identifier, a hash, the time) is an argument. Every datetime is aware and in UTC; a date out
-- of the years 1 to 9999 raises. The walk to the makers runs on fuel, two rounds more than
-- there are accounts: every round but the last two sees another account.
--
-- Parameters stand for what is not in this repository: Fernet with its round trip
-- (Reports.Vault), the comparisons of PostgreSQL and the order in which
-- it answers a query (Listing.Columns), str.upper and str.casefold,
-- HMAC, bcrypt, JWT, pyotp, the directory and the provider of identities (SignIn.Outside,
-- Intake.Desk), the cipher of drafts (Drafts.Steps.Cipher), and the answers of the mail server
-- (Reminders.Mail). A Redis command is a function on one key that takes the time; in
-- RateLimit.Interleaving, Drafts.Steps and SignIn.Sweep the commands of several requests come
-- in any order, and a request may end between any two of them.
--
-- Some records hold what no code reads: SignIn.Server.trail notes the inputs on which a request
-- was let pass, with the account as it was then, so that a theorem can check them again, and
-- SignIn.Sweep.World.origin where a token came from. RateLimit.Interleaving.Race counts attempts.
--
-- Not modelled: attachments and their storage, notifications, branding, telemetry, the setup
-- wizard, rendering and the frame of the application. The draft of a session does not expire in
-- Drafts. A record keeps the columns that the modelled code reads or writes. Commits, row locks
-- and log lines are left out. A Boolean in an entry's detail is written as its text. The mark of
-- a sent reminder does not replace an older one, which has run out by then.
pub mod Base
pub mod Calendar
pub mod Deadlines
pub mod Models
pub mod Access
pub mod Reports
pub mod Makers
pub mod Cases
pub mod Accounts
pub mod RateLimit
pub mod Retention
pub mod Reminders
pub mod Wizard
pub mod Examples
pub mod Drafts
pub mod SignIn
pub mod Intake
