-- ===== src/Sync/Conflicts.antt =====
-- packages/core/src/storage/conflicts.ts: the conflicts between a local file and a remote operation on
-- it. Every write to the disk succeeds; the times that SQLite sets by itself are not kept, and the
-- diff of a record is not, as it follows from the two contents.
pub mod Fork
pub mod Resolve
pub mod Copies
pub mod Engine
pub mod Settled
pub mod Ended
pub mod Unique
pub mod Agree
pub mod Queries
use kontexta.Sync.CopyName.{Env, build_conflict_path}
use kontexta.Base.{
  ℕ, suc, String, Bool, true, false, ◌&&◌, ◌||◌, Option, none, some, List, [], ◌∷◌, ◌++◌,
  if◌then◌else◌, ◌==◌, find_row, update_rows, delete_rows, nat_eq, string_eq,
}
use kontexta.Json.{JsNumber, nat}
use kontexta.Sync.Outbox.{Local}

pub data ConflictStatus : Type 0 where
  unresolved resolved : ConflictStatus

pub data ConflictStrategy : Type 0 where
  keep_server keep_mine keep_both merged : ConflictStrategy

pub data ConflictKind : Type 0 where
  content path : ConflictKind

-- A row of the table `conflicts`.
pub record ConflictRecord : Type 0 where
  pub id : ℕ
  pub gid : String
  pub file_path : String
  pub conflict_path : String
  pub origin : String
  pub origin_label : Option String
  pub base_version : Option ℕ
  pub server_seq : Option ℕ
  pub local_content : String
  pub remote_content : String
  pub status : ConflictStatus
  pub resolution : Option ConflictStrategy
  pub resolved_at : Option ℕ
  pub created_at : JsNumber
  pub conflict_kind : ConflictKind

pub record RegisterConflictInput : Type 0 where
  pub gid : String
  pub file_path : String
  pub conflict_path : Option String
  pub origin : String
  pub origin_label : Option String
  pub base_version : Option ℕ
  pub server_seq : Option ℕ
  pub remote_content : String
  pub local_content : Option String
  pub created_at : Option JsNumber

pub record DiskFile : Type 0 where
  pub path : String
  pub content : String

-- A row of the table `files`; `gid` is unique.
pub record FileRow : Type 0 where
  pub id : ℕ
  pub path : String
  pub title : String
  pub project_id : Option ℕ
  pub storage_type : String
  pub content_class : Option String
  pub content_hash : Option String
  pub gid : Option String

-- A row of the table `fts_index`.
pub record FtsRow : Type 0 where
  pub rowid : ℕ
  pub title : String
  pub content : String

pub record ProjectRow : Type 0 where
  pub id : ℕ
  pub gid : Option String

pub record ClientRow : Type 0 where
  pub machine_id : String
  pub hostname : Option String

-- The disk and the tables; `files_seq` and `conflicts_seq` are the counters behind AUTOINCREMENT.
pub record State : Type 0 where
  pub disk : List DiskFile
  pub files : List FileRow
  pub files_seq : ℕ
  pub fts_index : List FtsRow
  pub projects : List ProjectRow
  pub clients : List ClientRow
  pub conflicts : List ConflictRecord
  pub conflicts_seq : ℕ
  pub local : Local

abbrev pub at_path : String → DiskFile → Bool
at_path p f = f.path == p

abbrev pub content_of : Option DiskFile → Option String
content_of none = none
content_of (some f) = some f.content

unfoldable pub read_file : String → List DiskFile → Option String
read_file p disk = content_of (find_row (at_path p) disk)

unfoldable pub write_file : String → String → List DiskFile → List DiskFile
write_file p text disk = record { path = p; content = text } ∷ delete_rows (at_path p) disk

unfoldable pub remove_file : String → List DiskFile → List DiskFile
remove_file p disk = delete_rows (at_path p) disk

unfoldable pub or_else {ℓ} : {A : Type ℓ} → Option A → A → A
or_else none d = d
or_else (some a) d = a

abbrev indexed_content : Option FtsRow → String
indexed_content none = ""
indexed_content (some r) = r.content

abbrev content_in_index : Option FileRow → List FtsRow → String
content_in_index none fts = ""
content_in_index (some f) fts = indexed_content (find_row (λ (r : FtsRow). r.rowid == f.id) fts)

abbrev pub has_gid : String → FileRow → Bool
has_gid g f = elim f.gid [ some h ↦ h == g | none ↦ false ]

-- The content of the input, else of the disk, else of the index for the first row that fits.
local_content_of : RegisterConflictInput → State → String
unfolding read_file or_else
local_content_of i s = or_else i.local_content (
    or_else (read_file i.file_path s.disk) (
      content_in_index
        (find_row (λ (f : FileRow). has_gid i.gid f || f.path == i.file_path) s.files) s.fts_index))

-- A copy with another content keeps its path, and the new one takes a stamped path.
abbrev pub free_path : Option String → String → String → String → String
free_path none candidate stamped remote = candidate
free_path (some old) candidate stamped remote = if old == remote then candidate else stamped

choose_path : Env → RegisterConflictInput → JsNumber → List DiskFile → String
unfolding read_file or_else
choose_path env i now disk =
    let label = or_else i.origin_label i.origin in
    let candidate = build_conflict_path env i.file_path label none in
    let stamped = build_conflict_path env i.file_path label (some now) in
    let chosen = free_path (read_file candidate disk) candidate stamped i.remote_content in
    elim i.conflict_path [ none ↦ chosen | some given ↦ if given == "" then chosen else given ]

abbrev pub is_unresolved : ConflictRecord → Bool
is_unresolved c = elim c.status [ unresolved ↦ true | resolved ↦ false ]

abbrev pub is_open : String → ConflictRecord → Bool
is_open g c = c.gid == g && is_unresolved c

abbrev pub conflict_id : ℕ → ConflictRecord → Bool
conflict_id id c = c.id == id

-- UPDATE conflicts SET …: the columns that a second registration writes.
abbrev pub rewrite : ConflictRecord → ConflictRecord → ConflictRecord
rewrite new old = record old {
  file_path = new.file_path;
  conflict_path = new.conflict_path;
  origin = new.origin;
  origin_label = new.origin_label;
  base_version = new.base_version;
  server_seq = new.server_seq;
  local_content = new.local_content;
  remote_content = new.remote_content;
  created_at = new.created_at;
}

-- The rows with the new one, and the record that is returned.
unfoldable pub put_conflict :
    Option ConflictRecord → ConflictRecord → State → State × ConflictRecord
put_conflict (some old) new s = (
  record s { conflicts = update_rows (conflict_id old.id) (rewrite new) s.conflicts },
  record new { id = old.id },
)
put_conflict none new s =
    let id = suc s.conflicts_seq in
    let row = record new { id = id } in
    (record s { conflicts = s.conflicts ++ row ∷ []; conflicts_seq = id }, row)

-- The record before it has its id.
abbrev pub draft : RegisterConflictInput → String → String → JsNumber → ConflictRecord
draft i copy text now = record {
  id = 0;
  gid = i.gid;
  file_path = i.file_path;
  conflict_path = copy;
  origin = i.origin;
  origin_label = i.origin_label;
  base_version = i.base_version;
  server_seq = i.server_seq;
  local_content = text;
  remote_content = i.remote_content;
  status = unresolved;
  resolution = none;
  resolved_at = none;
  created_at = now;
  conflict_kind = content;
}

unfoldable pub register_conflict : Env → ℕ → RegisterConflictInput → State → State × ConflictRecord
unfolding put_conflict choose_path local_content_of write_file or_else
register_conflict env clock i s =
    let now = or_else i.created_at (nat clock) in
    let text = local_content_of i s in
    let copy = choose_path env i now s.disk in
    put_conflict (find_row (is_open i.gid) s.conflicts) (draft i copy text now)
      (record s { disk = write_file copy i.remote_content s.disk })
