-- ===== src/Sync/Push.antt =====
-- packages/core/src/storage/client.ts, `pushOutbox`: one drain of the outbox. The rest of the world is
-- three arguments: whether the machine can sync at all, the clock before and after the request, and
-- the reply that the server gives to a batch. Encryption is the parameter of `to_server`.
pub mod Accepted
pub mod Custody
use kontexta.Base.{
  ℕ, zero, suc, ◌+◌, String, Bool, true, false, ◌&&◌, Option, none, some, List, [], ◌∷◌, ◌++◌, map,
  leb, if◌then◌else◌, ◌==◌, length, select, update_rows, nat_eq, string_eq,
}
use Prim.Native.String.{◌++◌ as text_append}
use kontexta.Json.{Json}
use kontexta.Relay.Tables.{NewOp}
use kontexta.Sync.Op.{OpKind, kind_name, kind_family, Op, file_create, file_update}
use kontexta.Sync.Outbox.{
  OutboxRow, Local, is_waiting, known_gid_version, record_gid_version, mark_lost_push, mark_sent,
  mark_acked, mark_failed, bump_pending_bases, pending, sent,
}
use kontexta.Sync.Backoff.{backoff_initial_ms, backoff_max_ms, backoff_delay}

abbrev pub max_batch_size : ℕ
max_batch_size = 1000

-- `versionKey`, as the pair that the text `gid|family` stands for
pub record VersionKey : Type 0 where
  pub gid : String
  pub family : String

abbrev pub key_of_row : OutboxRow → VersionKey
key_of_row r = record { gid = r.gid; family = kind_family r.kind }

abbrev pub same_key : VersionKey → VersionKey → Bool
same_key j k = j.gid == k.gid && j.family == k.family

-- `seenInBatch`: the keys of the rows before
pub times_seen : VersionKey → List VersionKey → ℕ
times_seen k [] = 0
times_seen k (j ∷ js) = let n = times_seen k js in if same_key j k then suc n else n

pub record Wire : Type 0 where
  pub row : OutboxRow
  pub base : Option ℕ

abbrev base_or_zero : Option ℕ → ℕ
base_or_zero none = 0
base_or_zero (some b) = b

-- A create with no predecessor in the batch stays `null`.
pub wire_base : Option ℕ → ℕ → Option ℕ
wire_base none zero = none
wire_base b predecessors = some (base_or_zero b + predecessors)

pub wire_rows : List VersionKey → List OutboxRow → List Wire
unfolding times_seen wire_base
wire_rows seen [] = []
wire_rows seen (r ∷ rs) =
    record { row = r; base = wire_base r.base_version (times_seen (key_of_row r) seen) }
    ∷ wire_rows (key_of_row r ∷ seen) rs

-- An entry of the request's body.
pub to_server : (Json → String → String → String → Json) → Wire → NewOp
to_server encrypt w = record {
  gid = w.row.gid;
  kind = kind_name w.row.kind;
  origin = w.row.origin;
  base_version = w.base;
  payload = encrypt w.row.payload w.row.gid (kind_name w.row.kind) w.row.origin;
  created_at = w.row.created_at;
  client_seq = some w.row.id;
}

-- next_attempt_at IS NULL OR next_attempt_at <= ?
abbrev is_due_at : ℕ → Option ℕ → Bool
is_due_at now none = true
is_due_at now (some at) = leb at now

abbrev pub is_due : ℕ → OutboxRow → Bool
is_due now r = is_waiting r && is_due_at now r.next_attempt_at

abbrev take {ℓ} : {A : Type ℓ} → ℕ → List A → List A
take zero xs = []
take (suc n) [] = []
take (suc n) (x ∷ xs) = x ∷ take n xs

abbrev is_sent : OutboxRow → Bool
is_sent r = elim r.status [ sent ↦ true | _ ↦ false ]

-- Crash recovery: a row left `sent` goes back to `pending`.
pub requeue : Local → Local
requeue db = record db {
  outbox = update_rows is_sent (λ r. record r { status = pending }) db.outbox;
}

pub due_rows : ℕ → Local → List OutboxRow
due_rows now db = take max_batch_size (select (is_due now) db.outbox)

abbrev pub ids_of : List OutboxRow → List ℕ
ids_of = map (λ r. r.id)

-- An entry of `results` that has the three fields; `version` is `none` where it is no integer.
pub record ServerResult : Type 0 where
  pub client_seq : ℕ
  pub seq : ℕ
  pub status : String
  pub version : Option ℕ

pub data Reply : Type 0 where
  request_failed : String → Reply
  http_error : String → Reply
  malformed_reply : Reply
  results : List ServerResult → Reply

-- `byClientSeq`, where a later entry overwrites an earlier one
unfoldable pub result_for : ℕ → List ServerResult → Option ServerResult
result_for id [] = none
result_for id (r ∷ rs) = elim (result_for id rs) [
  | some s ↦ some s
  | none ↦ if r.client_seq == id then some r else none
]

pub record PushState : Type 0 where
  pub db : Local
  pub conflicts : List Op
  pub delivered : ℕ

abbrev pub row_op : OutboxRow → Op
row_op r = record {
  gid = r.gid;
  kind = r.kind;
  origin = r.origin;
  base_version = r.base_version;
  payload = r.payload;
  created_at = r.created_at;
}

abbrev pub is_content_edit : OpKind → Bool
is_content_edit file_create = true
is_content_edit file_update = true
is_content_edit _ = false

abbrev reported : Option ℕ → ℕ → ℕ
reported none known = suc known
reported (some v) known = v

pub retry_at : ℕ → OutboxRow → ℕ
unfolding backoff_delay
retry_at now r = now + backoff_delay r.attempts backoff_initial_ms backoff_max_ms

abbrev settle_with : ℕ → Local → Wire → PushState → Option ServerResult → PushState
settle_with later before w s none = record s {
  db =
      mark_failed w.row.id "server response missing a result for client_seq" (retry_at later w.row)
        s.db;
}
settle_with later before w s (some r) =
    let family = kind_family w.row.kind in
    let lost = r.status == "conflict" in
    let noted =
      if lost && is_content_edit w.row.kind then mark_lost_push w.row.gid s.db else s.db in
    let recorded =
      record_gid_version w.row.gid family
        (reported r.version (known_gid_version w.row.gid family before))
        (mark_acked w.row.id r.seq noted) in
    record {
      db = if lost then recorded else bump_pending_bases w.row.gid family w.row.id recorded;
      conflicts = if lost then s.conflicts ++ row_op w.row ∷ [] else s.conflicts;
      delivered = suc s.delivered;
    }

-- One row of the loop over the batch; `before` holds the versions known before the loop.
pub settle_row : ℕ → Local → List ServerResult → Wire → PushState → PushState
settle_row later before rs w s = settle_with later before w s (result_for w.row.id rs)

pub settle_rows : ℕ → Local → List ServerResult → List Wire → PushState → PushState
unfolding settle_row
settle_rows later before rs [] s = s
settle_rows later before rs (w ∷ ws) s =
    settle_rows later before rs ws (settle_row later before rs w s)

pub fail_batch : ℕ → String → List OutboxRow → Local → Local
unfolding retry_at
fail_batch later error [] db = db
fail_batch later error (r ∷ rs) db =
    fail_batch later error rs (mark_failed r.id error (retry_at later r) db)

pub record PushResult : Type 0 where
  pub attempted : ℕ
  pub delivered : ℕ
  pub conflicts : List Op
  pub error : Option String

abbrev failure : ℕ → String → PushResult
failure n msg = record { attempted = n; delivered = 0; conflicts = []; error = some msg }

-- What the machine does with the reply to `due`, after `db` was marked `sent`.
pub settle_reply : ℕ → List OutboxRow → Reply → Local → Local × PushResult
unfolding fail_batch settle_rows
settle_reply later due (request_failed msg) db =
    (fail_batch later (text_append "request failed: " msg) due db, failure (length due) msg)
settle_reply later due (http_error msg) db = (fail_batch later msg due db, failure (length due) msg)
settle_reply later due malformed_reply db =
    let msg : String = "malformed POST /ops response (missing results[])" in
    (fail_batch later msg due db, failure (length due) msg)
settle_reply later due (results rs) db =
    let s =
      settle_rows later db rs (wire_rows [] due)
        (record { db = db; conflicts = []; delivered = 0 }) in
    (
      s.db,
      record {
        attempted = length due;
        delivered = s.delivered;
        conflicts = s.conflicts;
        error = none;
      },
    )

pub data Readiness : Type 0 where
  not_connected bootstrap_pending no_brain_key ready : Readiness

abbrev nothing_due : PushResult
nothing_due = record { attempted = 0; delivered = 0; conflicts = []; error = none }

abbrev push_due : ℕ → (List Wire → Reply) → List OutboxRow → Local → Local × PushResult
push_due later server [] db = (db, nothing_due)
push_due later server (r ∷ rs) db =
    settle_reply later (r ∷ rs) (server (wire_rows [] (r ∷ rs))) (mark_sent (ids_of (r ∷ rs)) db)

pub push_outbox : Readiness → ℕ → ℕ → (List Wire → Reply) → Local → Local × PushResult
unfolding requeue due_rows settle_reply wire_rows
push_outbox not_connected now later server db = (db, failure 0 "not connected")
push_outbox bootstrap_pending now later server db = (db, failure 0 "brain bootstrap pending")
push_outbox no_brain_key now later server db =
    (db, failure 0 "this machine has no brain key; reconnect with the share id")
push_outbox ready now later server db =
    let queued = requeue db in push_due later server (due_rows now queued) queued
