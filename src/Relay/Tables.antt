-- ===== src/Relay/Tables.antt =====
-- packages/relay/src/db/schema.sql and the row types of store.ts. A table is the list of its rows in
-- insertion order, which for `ops` and `conflicts` is the order of `seq`. Times are milliseconds;
-- hashes and payloads are opaque.
use kontexta.Base.{ℕ, String, Bool, Option, List, []}
use kontexta.Json.{Json, JsNumber}

pub data Status : Type 0 where
  accepted conflict : Status

pub record NewOp : Type 0 where
  pub gid : String
  pub kind : String
  pub origin : String
  pub base_version : Option ℕ
  pub payload : Json
  pub created_at : JsNumber
  pub client_seq : Option ℕ

pub record OpRow : Type 0 where
  pub seq : ℕ
  pub brain_id : ℕ
  pub gid : String
  pub kind : String
  pub kind_family : String
  pub origin : String
  pub base_version : Option ℕ
  pub payload : Json
  pub created_at : JsNumber
  pub client_seq : Option ℕ
  pub status : Status
  pub received_at : ℕ

pub record RecordRow : Type 0 where
  pub brain_id : ℕ
  pub gid : String
  pub kind : String
  pub kind_family : String
  pub version : ℕ
  pub payload : Json
  pub origin : String
  pub deleted : Bool
  pub last_seq : ℕ
  pub updated_at : ℕ

pub record ConflictRow : Type 0 where
  pub brain_id : ℕ
  pub seq : ℕ
  pub gid : String
  pub kind : String
  pub kind_family : String
  pub origin : String
  pub base_version : Option ℕ
  pub payload : Json
  pub created_at : JsNumber

pub record BrainRow : Type 0 where
  pub id : ℕ
  pub share_hash : String
  pub name : String
  pub created_at : ℕ

pub record ClientRow : Type 0 where
  pub brain_id : ℕ
  pub machine_id : String
  pub hostname : Option String
  pub token_hash : String
  pub first_seen_at : ℕ
  pub last_seen_at : ℕ
  pub acked_seq : ℕ

-- `brain_seq` and `op_seq` are the counters behind AUTOINCREMENT: the last id given out.
pub record Db : Type 0 where
  pub brains : List BrainRow
  pub clients : List ClientRow
  pub ops : List OpRow
  pub records : List RecordRow
  pub conflicts : List ConflictRow
  pub brain_seq : ℕ
  pub op_seq : ℕ

abbrev pub empty_db : Db
empty_db = record {
  brains = [];
  clients = [];
  ops = [];
  records = [];
  conflicts = [];
  brain_seq = 0;
  op_seq = 0;
}
