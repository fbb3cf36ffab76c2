-- ===== src/Relay/Ops.antt =====
-- packages/relay/src/routes/ops.ts: POST /ops and GET /ops. A request is its authorization header and
-- its parsed parts; a reply is a constructor for each `c.json` of the handler.
pub mod Steps
pub mod Retry
pub mod Races
pub mod Guard
pub mod Isolation
use kontexta.Base.{
  ℕ, suc, String, Bool, true, false, ◌&&◌, ◌||◌, Option, none, some, List, [], ◌∷◌, ltb,
  if◌then◌else◌, ◌==◌, length, nat_eq, string_eq,
}
use kontexta.Json.{Json}
use kontexta.Relay.Tables.{Status, NewOp, Db, accepted, conflict}
use kontexta.Relay.Wire.{kind_family, is_envelope, validate_incoming_op, raw_ops}
use kontexta.Relay.Store.{current_version, append_op, Found, find_by_client_seq}
use kontexta.Relay.Members.{touch_machine, Machine, authenticate}

abbrev pub max_ops_limit : ℕ
max_ops_limit = 1000

pub record OpResult : Type 0 where
  pub client_seq : Option ℕ
  pub seq : ℕ
  pub status : Status
  pub duplicate : Bool
  pub version : ℕ

-- A record's key in `lostInBatch`, a set of strings in the source. No family holds a `|`, so the
-- string and the pair tell the same keys apart.
pub record Key : Type 0 where
  pub gid : String
  pub family : String

abbrev pub key_eq : Key → Key → Bool
key_eq j k = j.gid == k.gid && j.family == k.family

unfoldable pub has_key : Key → List Key → Bool
has_key k [] = false
has_key k (j ∷ js) = key_eq j k || has_key k js

-- The base is behind the accepted version.
abbrev pub is_stale : Option ℕ → ℕ → Bool
is_stale none current = ltb 0 current
is_stale (some base) current = ltb base current

pub record Batch : Type 0 where
  pub db : Db
  pub lost : List Key

abbrev verdict : Bool → Status
verdict true = conflict
verdict false = accepted

abbrev note_lost : Status → Key → List Key → List Key
note_lost accepted k lost = lost
note_lost conflict k lost = k ∷ lost

abbrev pub key_of : NewOp → Key
key_of op = record { gid = op.gid; family = kind_family op.kind }

-- The verdict on an op that is no duplicate.
unfoldable pub status_of : ℕ → NewOp → Batch → Status
unfolding has_key
status_of b op s = verdict (
    is_stale op.base_version (current_version b op.gid (kind_family op.kind) s.db)
    || has_key (key_of op) s.lost)

unfoldable pub post_new : ℕ → ℕ → NewOp → Batch → Batch × OpResult
unfolding status_of
post_new b now op s =
    let status = status_of b op s in
    let (db, res) = append_op b now op (kind_family op.kind) status s.db in
    (
      record { db = db; lost = note_lost status (key_of op) s.lost },
      record {
        client_seq = op.client_seq;
        seq = res.seq;
        status = status;
        duplicate = false;
        version = res.version;
      },
    )

abbrev pub duplicate_of : Option ℕ → Found → OpResult
duplicate_of c f = record {
  client_seq = c;
  seq = f.seq;
  status = f.status;
  duplicate = true;
  version = f.version;
}

unfoldable pub existing : ℕ → NewOp → Option ℕ → Db → Option Found
existing b op none db = none
existing b op (some c) db = find_by_client_seq b op.origin c db

-- One round of the loop in the transaction.
unfoldable pub post_op : ℕ → ℕ → NewOp → Batch → Batch × OpResult
unfolding post_new existing
post_op b now op s = elim (existing b op op.client_seq s.db) [
  | none ↦ post_new b now op s
  | some f ↦ (s, duplicate_of op.client_seq f)
]

unfoldable pub post_all : ℕ → ℕ → List NewOp → Batch → Batch × List OpResult
unfolding post_op
post_all b now [] s = (s, [])
post_all b now (op ∷ ops) s =
    let (s', r) = post_op b now op s in let (s'', rs) = post_all b now ops s' in (s'', r ∷ rs)

-- The transaction: the batch in order, then the machine is touched.
unfoldable pub post_batch : ℕ → ℕ → String → List NewOp → Db → Db × List OpResult
unfolding post_all
post_batch b now machine ops db =
    let (s, rs) = post_all b now ops (record { db = db; lost = [] }) in
    (touch_machine now b machine none s.db, rs)

pub data PostReply : Type 0 where
  unauthorized invalid_json not_an_array batch_too_large : PostReply
  malformed_op not_an_envelope foreign_origin : ℕ → PostReply
  posted : String → List OpResult → PostReply

abbrev pub post_status : PostReply → ℕ
post_status unauthorized = 401
post_status invalid_json = 400
post_status not_an_array = 400
post_status batch_too_large = 400
post_status (malformed_op i) = 400
post_status (not_an_envelope i) = 400
post_status (foreign_origin i) = 403
post_status (posted m rs) = 200

pub data Checked : Type 0 where
  refused : PostReply → Checked
  valid : List NewOp → Checked

abbrev cons_checked : NewOp → Checked → Checked
cons_checked op (refused r) = refused r
cons_checked op (valid ops) = valid (op ∷ ops)

abbrev check_op : String → ℕ → Option NewOp → Checked → Checked
check_op machine i none rest = refused (malformed_op i)
check_op machine i (some op) rest =
    if is_envelope op.payload
    then (if op.origin == machine then cons_checked op rest else refused (foreign_origin i))
    else refused (not_an_envelope i)

-- The validation loop, from index `i`.
pub check_ops : String → ℕ → List Json → Checked
check_ops machine i [] = valid []
check_ops machine i (raw ∷ raws) =
    check_op machine i (validate_incoming_op raw) (check_ops machine (suc i) raws)

abbrev answer : ℕ → Machine → Db → Checked → Db × PostReply
answer now who db (refused r) = (db, r)
answer now who db (valid ops) =
    let (db', rs) = post_batch who.brain_id now who.machine_id ops db in
    (db', posted who.machine_id rs)

abbrev post_array : ℕ → Machine → Db → Option (List Json) → Db × PostReply
post_array now who db none = (db, not_an_array)
post_array now who db (some []) = (db, posted who.machine_id [])
post_array now who db (some (raw ∷ raws)) =
    if ltb max_ops_limit (length (raw ∷ raws))
    then (db, batch_too_large)
    else answer now who db (check_ops who.machine_id 0 (raw ∷ raws))

abbrev post_body : ℕ → Option Machine → Option Json → Db → Db × PostReply
post_body now none body db = (db, unauthorized)
post_body now (some who) none db = (db, invalid_json)
post_body now (some who) (some body) db = post_array now who db (raw_ops body)

module _ (hmac : String → String → String) where
  -- `body` is `none` where the JSON does not parse.
  unfoldable pub post_ops : String → ℕ → Option String → Option Json → Db → Db × PostReply
  unfolding post_batch check_ops
  post_ops pepper now header body db = post_body now (authenticate hmac pepper header db) body db
