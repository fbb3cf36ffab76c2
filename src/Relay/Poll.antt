-- ===== src/Relay/Poll.antt =====
-- packages/relay/src/routes/ops.ts: GET /ops, one poll of a machine.
pub mod Pages
use kontexta.Base.{ℕ, min, String, Option, none, some, List, [], ◌∷◌, ltb, if◌then◌else◌}
use kontexta.Json.{JsNumber, nat, other}
use kontexta.Relay.Tables.{Db}
use kontexta.Relay.Store.{SentOp, ops_since}
use kontexta.Relay.Members.{touch_machine, Machine, authenticate}
use kontexta.Relay.Ops.{max_ops_limit}

-- A query parameter as the handler tests it: absent, the empty text, or another text with the number
-- that `Number` reads in it.
pub data RawNumber : Type 0 where
  absent empty : RawNumber
  reads : JsNumber → RawNumber

abbrev pub default_ops_limit : ℕ
default_ops_limit = 200

pub record GetOpsParams : Type 0 where
  pub since : ℕ
  pub limit : ℕ

since_of : RawNumber → Option ℕ
since_of absent = some 0
since_of (reads (nat n)) = some n
since_of _ = none

limit_of : ℕ → RawNumber → Option ℕ
limit_of default_limit absent = if ltb default_limit 1 then none else some default_limit
limit_of default_limit (reads (nat n)) = if ltb n 1 then none else some n
limit_of default_limit _ = none

abbrev params_of : Option ℕ → Option ℕ → Option GetOpsParams
params_of (some since) (some limit) =
    some (record { since = since; limit = min limit max_ops_limit })
params_of _ _ = none

pub parse_get_ops_params : ℕ → RawNumber → RawNumber → Option GetOpsParams
unfolding since_of limit_of
parse_get_ops_params default_limit raw_since raw_limit =
    params_of (since_of raw_since) (limit_of default_limit raw_limit)

-- `none` is a refused value, `some none` an absent one; `Number("")` is 0.
pub acked_of : RawNumber → Option (Option ℕ)
acked_of absent = some none
acked_of empty = some (some 0)
acked_of (reads (nat n)) = some (some n)
acked_of (reads (other t)) = none

-- The last sequence number of a page, or the cursor itself where the page is empty.
pub next_cursor : ℕ → List SentOp → ℕ
next_cursor since [] = since
next_cursor since (o ∷ os) = next_cursor o.row.seq os

pub data GetReply : Type 0 where
  get_unauthorized bad_params bad_acked : GetReply
  page : List SentOp → ℕ → GetReply

abbrev get_page : ℕ → Machine → Db → Option GetOpsParams → Option (Option ℕ) → Db × GetReply
get_page now who db none acked = (db, bad_params)
get_page now who db (some p) none = (db, bad_acked)
get_page now who db (some p) (some acked) =
    let ops = ops_since who.brain_id p.since p.limit db in
    (touch_machine now who.brain_id who.machine_id acked db, page ops (next_cursor p.since ops))

abbrev get_as : ℕ → Option Machine → Db → Option GetOpsParams → Option (Option ℕ) → Db × GetReply
get_as now none db params acked = (db, get_unauthorized)
get_as now (some who) db params acked = get_page now who db params acked

module _ (hmac : String → String → String) where
  pub get_ops :
      String → ℕ → ℕ → Option String → RawNumber → RawNumber → RawNumber → Db → Db × GetReply
  unfolding next_cursor parse_get_ops_params acked_of
  get_ops pepper default_limit now header raw_since raw_limit raw_acked db =
      get_as now (authenticate hmac pepper header db) db
        (parse_get_ops_params default_limit raw_since raw_limit) (acked_of raw_acked)
