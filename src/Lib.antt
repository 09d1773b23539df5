-- ===== src/Lib.antt =====
-- Expense Splitter, the Go service under server/: members of a group record what they spent, a
-- group admin closes the group, the service computes who pays whom, and every payment goes
-- through the debtor's proof, the creditor's confirmation and the admin's finalization.
--
-- How the parts work together. A request names an account. A service method looks the account
-- up, checks its role, and runs its queries, mostly in one transaction. CloseGroup locks the
-- group, reads the members, what each paid and how each expense is split, and gives these to
-- buildFairShares and computePlan; it stores the transfers of the plan as pending payments and
-- closes the group. The payment requests drive each payment through validatePaymentTransition,
-- and the last finalization settles the group.
--
-- Which file models what:
--
-- - Prelude: Boolean tests and lists over the native numbers, integers (Prelude/Int), int64
--   arithmetic with its wrap-around (Prelude/Int64), the conversion to int32 (Prelude/Int32),
--   Go maps (Prelude/Dict), do blocks over Option (Prelude/Bind).
-- - Settlement: server/services/settlement.go. Settlement/Shares is fairShares and
--   weightedShares, Settlement/Allocations is allocationsFromRows, Settlement/Fair is
--   buildFairShares, Settlement/Plan is computePlan; the modules below each hold its proofs.
-- - Types: server/types, the errors of the API and the enumerations and records that the
--   services share.
-- - Payment: server/services/payments.go, validatePaymentTransition (`decide_action` is its
--   switch) and auditActionFor; Payment/Rules is the independent list of rules, Payment/TwoKeys
--   and Payment/Settling are about whole histories of a payment.
-- - Store: the tables of server/database/migration/schema as lists of rows, and the queries of
--   server/database/repo as functions on them, with the CHECK, UNIQUE and FOREIGN KEY
--   constraints that can refuse a write. Store/Action is a request against the database,
--   Store/Hoare the rules to reason about one.
-- - Services: server/services. Services/Authz is authz.go with principalByKeycloakID,
--   Services/Payments is the requests of payments.go (`transition_payment` is
--   transitionPayment), Services/Close is close.go, Services/Expenses, Services/Memberships,
--   Services/Verification, Services/Groups, Services/Admin, Services/Registration,
--   Services/Proofs, Services/Nudges and Services/Summary are the files of these names, and
--   Services/AuditLog is the list of audit.go. Services/Request lists the requests that change
--   the database. Services/Atomic, Services/GroupState and Services/Admins hold proofs about
--   all of them; Services/Reads and Services/Frame are what these share. Services/Recording,
--   Services/Closing, Services/Creation and Services/Deletion are about single requests,
--   Services/Figures is about the summary beside the close and Services/Snapshot about the
--   snapshot that the close stores, Services/Reminders about reminders in a row, and
--   Services/Concurrent about payment requests that overlap.
-- - Tests: runs of the model, and each theorem at a concrete input.
--
-- The state. A `World` is the database, the state of the object store and the number of calls
-- made so far. An `Env` decides which calls fail, which ids the database generates and what
-- time it is, and stands for code of others: citext, SHA-256, http.DetectContentType and MinIO;
-- the theorems hold for every `Env`. `in_tx` is Begin, the body, Commit and the deferred
-- Rollback; a commit that fails counts as rolled back. A query answers a row, pgx.ErrNoRows or
-- another error.
--
-- Numbers. An int64 is an integer, and every operation wraps at 2^63 (add64, mul64 and so on);
-- where a theorem needs that nothing wraps, it says so. The sums of the database are exact and
-- fail when no bigint holds them. The loop of computePlan runs on as many rounds as there are
-- accounts, which is enough since every round settles one account. An id, a token and a
-- Keycloak subject are natural numbers, since the code only compares uuids; the day of an
-- expense is the number of that day; a time is a number of seconds from the zero time of Go,
-- and the session of the database is in UTC. sort.Slice and ORDER BY are insertion sorts, whose
-- orders leave no choice between two rows that the code could tell apart.
--
-- Not modelled: text that is no uuid (a query refuses it), columns that no modelled query
-- reads, the JSON of responses and of the snapshot, row locks (requests are served one after
-- another, but for Services/Concurrent), and the log output. The list of expenses, the Validate
-- methods and the report have no model. Handlers, routing, tokens, Keycloak, MinIO, the PDF and
-- the configuration only call libraries or pass values on.
pub mod Prelude
pub mod Settlement
pub mod Types
pub mod Payment
pub mod Store
pub mod Services
mod Tests
