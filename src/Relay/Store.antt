-- ===== src/Relay/Store.antt =====
-- packages/relay/src/store.ts: the operation log, the kept records and the parked conflicts of a
-- brain. The time comes as the argument `now`.
pub mod Versions
pub mod Log
use kontexta.Base.{
  ℕ, zero, suc, ◌*◌, ◌/◌, max, String, Bool, true, false, ◌&&◌, ◌||◌, Option, none, some, List, [],
  ◌∷◌, ◌++◌, map, ltb, leb, if◌then◌else◌, ◌==◌, select, find_row, count_rows, delete_rows, nat_eq,
  string_eq,
}
use kontexta.Relay.Tables.{Status, NewOp, OpRow, RecordRow, ConflictRow, Db, accepted, conflict}

unfoldable pub is_tombstone_kind : String → Bool
is_tombstone_kind kind = kind == "file.delete" || kind == "project.unregister"

-- WHERE brain_id = ? AND gid = ? AND kind_family = ?, on the three tables
abbrev pub record_in : ℕ → String → String → RecordRow → Bool
record_in b g f r = r.brain_id == b && (r.gid == g && r.kind_family == f)

abbrev pub record_of : ℕ → String → RecordRow → Bool
record_of b g r = r.brain_id == b && r.gid == g

abbrev pub op_in : ℕ → String → String → OpRow → Bool
op_in b g f o = o.brain_id == b && (o.gid == g && o.kind_family == f)

abbrev pub is_accepted : Status → Bool
is_accepted accepted = Bool.true
is_accepted conflict = Bool.false

-- SELECT MAX(version) …, and 0 where no row is selected
unfoldable pub max_version : ℕ → String → String → List RecordRow → ℕ
max_version b g f [] = 0
max_version b g f (r ∷ rs) =
    let m = max_version b g f rs in if record_in b g f r then max r.version m else m

unfoldable pub current_version : ℕ → String → String → Db → ℕ
unfolding max_version
current_version b g f db = max_version b g f db.records

-- INSERT … ON CONFLICT(brain_id, gid, kind) DO UPDATE
unfoldable pub upsert_record : RecordRow → List RecordRow → List RecordRow
upsert_record new [] = new ∷ []
upsert_record new (r ∷ rs) =
    if r.brain_id == new.brain_id && (r.gid == new.gid && r.kind == new.kind)
    then record r {
      version = new.version;
      payload = new.payload;
      origin = new.origin;
      deleted = new.deleted;
      last_seq = new.last_seq;
      updated_at = new.updated_at;
    }
      ∷ rs
    else r ∷ upsert_record new rs

-- base_version IS NULL OR base_version <= ?
abbrev pub at_most : Option ℕ → ℕ → Bool
at_most none v = Bool.true
at_most (some b) v = leb b v

abbrev pub parked_under : ℕ → String → String → ℕ → ConflictRow → Bool
parked_under b g f v c =
    c.brain_id == b && (c.gid == g && (c.kind_family == f && at_most c.base_version v))

unfoldable pub clear_parked : ℕ → String → String → Option ℕ → List ConflictRow → List ConflictRow
clear_parked b g f none cs = cs
clear_parked b g f (some v) cs = delete_rows (parked_under b g f v) cs

abbrev pub new_row : ℕ → ℕ → NewOp → String → Status → ℕ → OpRow
new_row b now op family status seq = record {
  seq = seq;
  brain_id = b;
  gid = op.gid;
  kind = op.kind;
  kind_family = family;
  origin = op.origin;
  base_version = op.base_version;
  payload = op.payload;
  created_at = op.created_at;
  client_seq = op.client_seq;
  status = status;
  received_at = now / 1000 * 1000;
}

abbrev pub parked_row : ℕ → NewOp → String → ℕ → ConflictRow
parked_row b op family seq = record {
  brain_id = b;
  seq = seq;
  gid = op.gid;
  kind = op.kind;
  kind_family = family;
  origin = op.origin;
  base_version = op.base_version;
  payload = op.payload;
  created_at = op.created_at;
}

abbrev pub kept_row : ℕ → ℕ → NewOp → String → ℕ → ℕ → RecordRow
kept_row b now op family version seq = record {
  brain_id = b;
  gid = op.gid;
  kind = op.kind;
  kind_family = family;
  version = version;
  payload = op.payload;
  origin = op.origin;
  deleted = is_tombstone_kind op.kind;
  last_seq = seq;
  updated_at = now;
}

pub record Appended : Type 0 where
  pub seq : ℕ
  pub version : ℕ

-- INSERT INTO ops; the row has the next id.
unfoldable pub insert_op : ℕ → ℕ → NewOp → String → Status → Db → Db
insert_op b now op family status db = record db {
  ops = db.ops ++ new_row b now op family status (suc db.op_seq) ∷ [];
  op_seq = suc db.op_seq;
}

unfoldable pub drop_records : Bool → ℕ → String → List RecordRow → List RecordRow
drop_records tombstone b g rs = if tombstone then delete_rows (record_of b g) rs else rs

unfoldable pub append_op : ℕ → ℕ → NewOp → String → Status → Db → Db × Appended
unfolding insert_op drop_records clear_parked
append_op b now op family conflict db =
    let before = current_version b op.gid family db in
    let seq = suc db.op_seq in
    let db' = insert_op b now op family conflict db in
    (
      record db' { conflicts = db'.conflicts ++ parked_row b op family seq ∷ [] },
      record { seq = seq; version = before },
    )
append_op b now op family accepted db =
    let version = suc (current_version b op.gid family db) in
    let seq = suc db.op_seq in
    let db' = insert_op b now op family accepted db in
    let kept = drop_records (is_tombstone_kind op.kind) b op.gid db'.records in
    (
      record db' {
        records = upsert_record (kept_row b now op family version seq) kept;
        conflicts = clear_parked b op.gid family op.base_version db'.conflicts;
      },
      record { seq = seq; version = version },
    )

-- COUNT(*) of the accepted ops of the family up to and including `seq`
abbrev pub counts_at : ℕ → String → String → ℕ → OpRow → Bool
counts_at b g f seq o = op_in b g f o && (is_accepted o.status && leb o.seq seq)

unfoldable pub version_at : ℕ → String → String → ℕ → Db → ℕ
version_at b g f seq db = count_rows (counts_at b g f seq) db.ops

pub record Found : Type 0 where
  pub seq : ℕ
  pub status : Status
  pub version : ℕ

-- client_seq = ?, which a NULL never meets
abbrev pub seq_is : Option ℕ → ℕ → Bool
seq_is none c = Bool.false
seq_is (some d) c = d == c

abbrev pub sent_as : ℕ → String → ℕ → OpRow → Bool
sent_as b origin c o = o.brain_id == b && (o.origin == origin && seq_is o.client_seq c)

unfoldable pub find_by_client_seq : ℕ → String → ℕ → Db → Option Found
find_by_client_seq b origin c db = elim (find_row (sent_as b origin c) db.ops) [
  | none ↦ none
  | some o ↦ some (record {
    seq = o.seq;
    status = o.status;
    version = version_at b o.gid o.kind_family o.seq db;
  })
]

-- ORDER BY seq ASC LIMIT ?
abbrev pub take {ℓ} : {A : Type ℓ} → ℕ → List A → List A
take zero xs = []
take (suc n) [] = []
take (suc n) (x ∷ xs) = x ∷ take n xs

abbrev pub is_after : ℕ → ℕ → OpRow → Bool
is_after b since o = o.brain_id == b && ltb since o.seq

-- A row as it is sent: `kind_family` is replaced by the version that the op gave its family.
pub record SentOp : Type 0 where
  pub row : OpRow
  pub gid_version : ℕ

unfoldable pub send_op : ℕ → Db → OpRow → SentOp
send_op b db o = record { row = o; gid_version = version_at b o.gid o.kind_family o.seq db }

unfoldable pub ops_since : ℕ → ℕ → ℕ → Db → List SentOp
unfolding send_op
ops_since b since limit db = map (send_op b db) (take limit (select (is_after b since) db.ops))

-- SELECT MAX(seq)
unfoldable pub max_seq : ℕ → List OpRow → ℕ
max_seq b [] = 0
max_seq b (o ∷ os) = let m = max_seq b os in if o.brain_id == b then max o.seq m else m

unfoldable pub latest_seq : ℕ → Db → ℕ
unfolding max_seq
latest_seq b db = max_seq b db.ops
