-- ===== src/Relay/Snapshot.antt =====
-- packages/relay/src/store.ts, `snapshotPage` and `listMachines`, and packages/relay/src/routes/brains.ts,
-- GET /brains/snapshot and GET /brains/me.
pub mod Order
pub mod Pages
use kontexta.Base.{
  ℕ, min, String, Bool, not, ◌&&◌, Option, none, some, List, [], ◌∷◌, ◌++◌, map, ltb, leb,
  if◌then◌else◌, ◌==◌, length, select, nat_eq, string_eq,
}
use kontexta.Json.{Json, nat}
use kontexta.Relay.Tables.{RecordRow, ConflictRow, BrainRow, ClientRow, Db}
use kontexta.Relay.TextOrder.{text_before}
use kontexta.Relay.Members.{get_brain, Machine, authenticate}
use kontexta.Relay.Poll.{RawNumber, absent, reads}
use kontexta.Relay.Store.{record_of, take, latest_seq}

-- A record as it is sent; its `base_version` is null.
pub record SnapshotRecord : Type 0 where
  pub seq : ℕ
  pub gid : String
  pub kind : String
  pub kind_family : String
  pub version : ℕ
  pub origin : String
  pub deleted : Bool
  pub created_at : ℕ
  pub payload : Json

pub record SnapshotGid : Type 0 where
  pub gid : String
  pub records : List SnapshotRecord
  pub conflicts : List ConflictRow

-- UNION … ORDER BY gid
unfoldable pub insert_gid : String → List String → List String
insert_gid g [] = g ∷ []
insert_gid g (h ∷ hs) =
    let rest = insert_gid g hs in
    if g == h then h ∷ hs else if text_before g h then g ∷ h ∷ hs else h ∷ rest

unfoldable pub sort_gids : List String → List String
unfolding insert_gid
sort_gids [] = []
sort_gids (g ∷ gs) = insert_gid g (sort_gids gs)

abbrev pub record_after : ℕ → String → RecordRow → Bool
record_after b after r = r.brain_id == b && text_before after r.gid

abbrev pub conflict_after : ℕ → String → ConflictRow → Bool
conflict_after b after c = c.brain_id == b && text_before after c.gid

-- The gids of the selected rows, before LIMIT.
unfoldable pub gids_after : ℕ → String → Db → List String
unfolding sort_gids
gids_after b after db =
    let rs = map (λ (r : RecordRow). r.gid) (select (record_after b after) db.records) in
    let cs = map (λ (c : ConflictRow). c.gid) (select (conflict_after b after) db.conflicts) in
    sort_gids (rs ++ cs)

-- ORDER BY last_seq ASC
pub insert_record : RecordRow → List RecordRow → List RecordRow
insert_record r [] = r ∷ []
insert_record r (q ∷ qs) =
    let rest = insert_record r qs in if leb r.last_seq q.last_seq then r ∷ q ∷ qs else q ∷ rest

pub sort_records : List RecordRow → List RecordRow
unfolding insert_record
sort_records [] = []
sort_records (r ∷ rs) = insert_record r (sort_records rs)

abbrev pub sent_record : RecordRow → SnapshotRecord
sent_record r = record {
  seq = r.last_seq;
  gid = r.gid;
  kind = r.kind;
  kind_family = r.kind_family;
  version = r.version;
  origin = r.origin;
  deleted = r.deleted;
  created_at = r.updated_at;
  payload = r.payload;
}

abbrev pub parked_of : ℕ → String → ConflictRow → Bool
parked_of b g c = c.brain_id == b && c.gid == g

unfoldable pub snapshot_gid : ℕ → Db → String → SnapshotGid
unfolding sort_records
snapshot_gid b db g = record {
  gid = g;
  records = map sent_record (sort_records (select (record_of b g) db.records));
  conflicts = select (parked_of b g) db.conflicts;
}

abbrev pub last_gid : List String → Option String
last_gid [] = none
last_gid (g ∷ []) = some g
last_gid (g ∷ h ∷ gs) = last_gid (h ∷ gs)

pub record SnapshotPage : Type 0 where
  pub gids : List SnapshotGid
  pub next : Option String

unfoldable pub snapshot_page : ℕ → String → ℕ → Db → SnapshotPage
unfolding gids_after snapshot_gid
snapshot_page b after limit db =
    let gids = take limit (gids_after b after db) in
    record {
      gids = map (snapshot_gid b db) gids;
      next = if length gids == limit then last_gid gids else none;
    }

abbrev pub snapshot_default : ℕ
snapshot_default = 200

abbrev pub snapshot_max : ℕ
snapshot_max = 1000

pub parse_limit : RawNumber → Option ℕ
parse_limit absent = some snapshot_default
parse_limit (reads (nat n)) = if ltb n 1 then none else some (min n snapshot_max)
parse_limit _ = none

pub data SnapshotReply : Type 0 where
  snapshot_unauthorized bad_limit : SnapshotReply
  snapshot : SnapshotPage → (latest_seq : ℕ) → SnapshotReply

abbrev pub or_first : Option String → String
or_first none = ""
or_first (some after) = after

abbrev pub snapshot_as : Option Machine → Option ℕ → Option String → Db → SnapshotReply
snapshot_as none limit after db = snapshot_unauthorized
snapshot_as (some who) none after db = bad_limit
snapshot_as (some who) (some limit) after db =
    snapshot (snapshot_page who.brain_id (or_first after) limit db) (latest_seq who.brain_id db)

pub record MachineStatus : Type 0 where
  pub machine_id : String
  pub hostname : Option String
  pub last_seen_at : ℕ
  pub acked_seq : ℕ

-- ORDER BY last_seen_at DESC, machine_id ASC
seen_first : ClientRow → ClientRow → Bool
seen_first c d =
    if c.last_seen_at == d.last_seen_at
    then not (text_before d.machine_id c.machine_id)
    else ltb d.last_seen_at c.last_seen_at

pub insert_machine : ClientRow → List ClientRow → List ClientRow
unfolding seen_first
insert_machine c [] = c ∷ []
insert_machine c (d ∷ ds) =
    let rest = insert_machine c ds in if seen_first c d then c ∷ d ∷ ds else d ∷ rest

pub sort_machines : List ClientRow → List ClientRow
unfolding insert_machine
sort_machines [] = []
sort_machines (c ∷ cs) = insert_machine c (sort_machines cs)

unfoldable pub list_machines : ℕ → Db → List MachineStatus
unfolding sort_machines
list_machines b db =
    let rows = sort_machines (select (λ c. c.brain_id == b) db.clients) in
    map
      (λ (c : ClientRow). record {
        machine_id = c.machine_id;
        hostname = c.hostname;
        last_seen_at = c.last_seen_at;
        acked_seq = c.acked_seq;
      })
      rows

pub data StatusReply : Type 0 where
  status_unauthorized no_brain : StatusReply
  status : (brain_id : ℕ) (name : String) (latest_seq : ℕ) → List MachineStatus → StatusReply

-- `store.getBrain(who.brainId)!`: reading a missing brain throws.
abbrev status_of_brain : ℕ → Option BrainRow → Db → StatusReply
status_of_brain b none db = no_brain
status_of_brain b (some brain) db =
    status brain.id brain.name (latest_seq b db) (list_machines b db)

abbrev status_as : Option Machine → Db → StatusReply
status_as none db = status_unauthorized
status_as (some who) db = status_of_brain who.brain_id (get_brain who.brain_id db) db

module _ (hmac : String → String → String) where
  -- GET /brains/snapshot
  pub get_snapshot : String → Option String → RawNumber → Option String → Db → SnapshotReply
  unfolding parse_limit
  get_snapshot pepper header raw_limit after db =
      snapshot_as (authenticate hmac pepper header db) (parse_limit raw_limit) after db

  -- GET /brains/me
  pub get_status : String → Option String → Db → StatusReply
  get_status pepper header db = status_as (authenticate hmac pepper header db) db
