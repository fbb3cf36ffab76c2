-- ===== src/Lib.antt =====
-- A verification library for kontexta: the protocol that keeps the machines of a brain in step, what
-- happens to files that two machines changed, the conflicts in a calendar, and the consent that a
-- tool run waits for.
--
-- The relay (packages/relay/src) orders the operations of each brain. It versions every record and
-- family, parks the operations that lose a race as conflicts, and keeps the log. A machine
-- (packages/core/src/storage) queues its own operations in an outbox, drains it to the relay, and
-- takes a lock on a record for as long as it applies a remote operation. What cannot be applied over
-- a local change is parked as a conflict, which the user resolves, or merged where it is a journal.
-- The MCP server (apps/mcp/src/hands) holds back a tool run until its token is confirmed.
--
-- Base: the libraries' names passed on, Boolean tests, and a database table as the list of its rows
-- with one function per kind of SQL statement. Json and Chars: parsed JSON, and character classes of
-- the regular expressions.
--
-- Relay.Tables: the rows of packages/relay/src/db/schema.sql.
-- Relay.Store: the class BrainStore of packages/relay/src/store.ts; `append_op` is appendOp and
-- `ops_since` is opsSince, and so on in snake case. Relay.Store.Versions and Relay.Store.Log hold
-- the lemmas on versions and on the order of the log.
-- Relay.Members: brains, machines and tokens of store.ts and auth.ts.
-- Relay.Wire: validateIncomingOp, isEnvelope and kindFamily of packages/relay/src/routes/ops.ts.
-- Relay.Ops: the POST /ops handler of the same file; Relay.Poll: its GET /ops handler.
-- Relay.Join and Relay.Admin: POST /brains/join, PATCH /brains/me and DELETE
-- /brains/me/machines/:machine_id of packages/relay/src/routes/brains.ts.
-- Relay.Snapshot: snapshotPage and listMachines of store.ts with GET /brains/snapshot and GET
-- /brains/me; Relay.TextOrder is the order of SQLite on texts. Relay.Ops.Isolation.Views compares what is
-- answered about a brain. Pages follows `next` as
-- packages/core/src/storage/bootstrap.ts does.
-- A handler takes the database and gives the next one with its reply, so a transaction is the
-- composition of its statements, and a route runs to its end before the next one starts, as
-- better-sqlite3 is synchronous.
--
-- Sync.Op: packages/core/src/storage/op.ts and packages/core/src/identity/gid.ts.
-- Sync.Outbox: packages/core/src/storage/outbox.ts and versions.ts.
-- Sync.Backoff and Sync.Push: backoffDelay and pushOutbox of packages/core/src/storage/client.ts.
-- What the server replies to a batch is a function argument, so every reply is covered.
-- Sync.Apply and Sync.Pull: pullRemoteOps of the same file. The files and conflict copies that an
-- operation changes are the interface `FileStore`; the loop over the pages takes the number of
-- rounds as fuel, and Sync.Pull.Rounds bounds it by the length of the server's log.
-- Sync.Bootstrap: packages/core/src/storage/bootstrap.ts. Record has processRecord, Loop the pages and
-- bootstrapIfNeeded; the files and tables are the interface `SnapshotStore`, and each request
-- gets its reply from a function of its `after`. Kept, Resume, Paged, Interrupted and Cursor hold what follows.
-- Merging a journal queues a local operation in the source; a `SnapshotStore` leaves the outbox alone.
-- Sync.Conflicts: packages/core/src/storage/conflicts.ts. The disk is a list of files and a table
-- the list of its rows; Sync.CopyName has buildConflictPath, Fork has registerPathConflict and
-- forkConflictFromOp, Resolve and Copies the transactions of the strategies, Engine
-- resolvePathConflict and resolveConflict, and Queries listConflicts and getConflict. Node's path functions, the hash and the placing of a path
-- in the data folder are the record `Env`. Every disk write of these succeeds; a statement that breaks the
-- unique index on a gid, and a malformed operation, roll the transaction back.
-- Sync.Diff: myersEdits, myersDiff and computeDiff of the same file. Graph has the edit graph, Furthest the
-- furthest place of each step, Rows and Search the typed array and the loop over the steps, Script and
-- Backtrack the way back, Shortest and Texts what comes out.
-- Sync.JournalSync: mergeJournalInto and mergeOrFork of packages/core/src/storage/journal-merge.ts.
-- Sync.Remote: applyFileUpdate, applyFileDelete, applyFileMove and parkIfPathTaken of
-- packages/core/src/storage/apply.ts. An update may find that the disk refuses its file (`can_write`); the
-- other writes and the removals succeed.
-- Sync.ShareId: packages/core/src/storage/shareid.ts; Blocks has the bits, five bytes for eight
-- symbols.
-- Sync.Locks: packages/core/src/storage/locks.ts; Sync.Locks.Exclusion runs the processes that share
-- it as a step relation, and Sync.Locks.Waiting has withSyncLock, whose turns (the clock and the table
-- of each try) are a function argument.
-- Safety: withLock of packages/core/src/util/safety.ts, whose promise chains are numbered tasks and a
-- step relation.
-- Journal.Cooldown: packages/core/src/journal/cooldown.ts.
-- Journal.Merge: mergeJournalContent of packages/core/src/storage/journal-merge.ts on lists of
-- UTF-16 units.
-- Hands.Confirm: the class ConfirmStore of apps/mcp/src/hands/confirm.ts.
-- Calendar.Conflicts: packages/core/src/calendar/conflicts.ts; the events, links and entities that
-- the repository lists are arguments. The boundary of a buffer is compared as its ISO text; a
-- buffer that ends after the last `Date`, where toISOString throws, is not modelled.
-- Tests: runs on small inputs.
--
-- Bounds: the loops are structural recursion on the batch, the table or the text, save the pages of
-- a pull or a snapshot, the turns of withSyncLock, the digits of a number and the inner loop of a share id, which have fuel that is enough:
-- more rounds than the log is ahead or than there are gids, more
-- turns than the timeout has intervals, more than the number, and the two rounds that 12 bits allow.
-- The loops of the line diff count what is left of
-- a list, of a row or of the steps. The limits of the code (2000 edits of a diff, 1000 operations of a batch or a page, 2 ^ 9 as the largest step of the
-- backoff) are written out. Local ids are safe integers. Numbers that are no natural numbers are kept as their text; none of the
-- modelled code computes with one.
--
-- Not modelled: HTTP, the opening of the database and the cipher, which are parameters where they
-- are used (`hmac`, `sha256`, `encrypt`, the record `Env`); the loop that schedules push and pull; of
-- the remote operations all but the update, the deletion and the move of a file; the rest of the journal and
-- of the calendar, search and files; the web app, the publisher and the command line.
pub mod Base
pub mod Json
pub mod Chars
pub mod Relay
pub mod Safety
pub mod Sync
pub mod Hands
pub mod Calendar
pub mod Journal
pub mod Tests
