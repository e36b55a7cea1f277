-- ===== src/Lib.antt =====
-- Quartermaster: the rules that keep its database in order, over the code in src/.
--
-- The program is a mod manager for an SPT server: a command line and a web server over one SQLite
-- database. The web handlers check a session, then call methods of `Database` (src/db/*.rs) under a
-- lock; long work runs as tasks that the tracker (src/web/tasks.rs) shows in the pages.
--
-- How it is modelled. A table is the list of its rows in the order of insertion, and an SQL statement
-- is a function of such lists (Sql). A method of `Database` is a function of a record of tables that
-- gives the new tables and the answer, or `err` where a constraint stops a statement. A handler is the
-- sequence of its calls. Times and random texts are arguments; AUTOINCREMENT keys are counters,
-- and the key of a backup is one more than the greatest. Foreign keys, UNIQUE and CHECK constraints are
-- tests of the statements that they can stop; the parts on requests keep of `users` the ids. An id
-- is a natural number, and so is a count; SQLite's 64-bit limit is not reached by a key. What one
-- process does under the lock is one step, so the sequences of steps below are the interleavings.
--
-- Which file models which part:
--   Prelude          Boolean tests, options and lists; Prelude/Texts: the order of texts
--   Sql              statements on tables; Sql/Keys and Sql/Distinct: primary keys; Sql/Count: counts; Sql/OrderBy:
--                    ORDER BY
--   Rbac             src/db/rbac.rs and the users of src/db/users.rs. Rbac/Permission: the enum and its
--                    slugs; Rbac/Tables: rows and queries; Rbac/Users and Rbac/Roles: the writes with
--                    their guards; Rbac/Steps: the writes as steps; the other files: proofs
--   Requests         src/db/requests.rs with src/web/handlers/requests.rs, queue.rs and src/ops.rs where
--                    they move a request. Requests/Tables: rows and queries; Requests/Writes: the
--                    methods; Requests/Handlers: the handlers' calls; Requests/Lifecycle: the edges of
--                    the life cycle; Requests/Steps: all of it as steps
--   Tasks            src/web/tasks.rs: Tasks/Tracker: the tracker's methods; Tasks/Prune: what it keeps
--                    of finished tasks; Tasks/Running: its steps
--   Accounts         invites and password resets: Accounts/Tables, Accounts/Invites (src/db/users.rs,
--                    src/web/invite.rs), Accounts/Registration (src/web/handlers/join.rs, and what a
--                    deletion cascades to), Accounts/Resets (src/web/handlers/auth.rs); Accounts/Steps and Accounts/ResetOnce:
--                    the operations as steps; Accounts/Codes, Accounts/Spent and Accounts/Freed: proofs
--   Queue            the pending operations of src/db/users.rs: Queue/Table: rows and operations;
--                    Queue/Actions and Queue/Pending: proofs
--   Recovery         src/ops.rs: what the server does at its start with updates that were
--                    interrupted. Recovery/State: the tables of src/db/mods.rs and
--                    src/db/addons.rs and the disk, a list
--                    of files with their hashes; Recovery/Recover: the
--                    recovery of mods; Recovery/Addons: of addons, and the loop; Recovery/Kept,
--                    Recovery/Recorded and Recovery/Startup: proofs
--   Deps             src/ops.rs: the search for all mods that need a mod. Deps/Collect: the search; Deps/Ends,
--                    Deps/Invariant and Deps/Correct: proofs
--   Backups          src/db/backups.rs and src/backup.rs. Backups/Table: rows and queries; Backups/Names: names of
--                    directories; Backups/Retention: recording and pruning; Backups/Newest and
--                    Backups/Recorded: proofs
--   Config           src/config.rs: the groups of mod sync. Config/Slugs: slugs; Config/Paths and Config/Groups: what
--                    loading brings up to date; Config/SlugLaws, Config/PathLaws, Config/GroupLaws,
--                    Config/Lookups, Config/Migrated and Config/Overrides: proofs
--   Toggle           src/ops.rs: disabling and enabling. Toggle/Tables: the statements of src/db/mods.rs and
--                    src/db/addons.rs; Toggle/Paths: directories of files; Toggle/Disk: batches of renames on a
--                    disk that is a parameter; Toggle/Moves: what is moved, and the operations;
--                    Toggle/Prefix, Toggle/Classify, Toggle/TopLevel, Toggle/Outcomes, Toggle/RoundTrip and
--                    Toggle/Plan: proofs
--   Health           src/health.rs with the grouping of files in src/cli/common.rs: Health/Report: the report, its
--                    exit code and its checks; Health/Exit: proofs
--   Tests            concrete runs
--
-- The loops of these parts run over lists, but for the search for dependents: its fuel is the number
-- of mods and one, and each mod enters the queue once, so it is enough; and for pruning backups, whose
-- fuel is their number, as each round deletes one. The tracker's ids wrap at 2 ^ 64.
-- Where a handler relies on chrono to compare times, the comparison is an argument, and so is the
-- reading of a JSON column by serde_json.
--
-- Not modelled: the pages and sessions, the forge client, archives and files, the container and the
-- command line, which are input and output around these parts; the sorted list queries; copying and restoring files of backups, mod
-- sync, the comparison of installed with loaded mods in the health checks, and raids.
mod Prelude
pub mod Sql
pub mod Rbac
pub mod Requests
pub mod Tasks
pub mod Accounts
pub mod Health
pub mod Queue
pub mod Recovery
pub mod Backups
pub mod Config
pub mod Deps
pub mod Toggle
mod Tests
