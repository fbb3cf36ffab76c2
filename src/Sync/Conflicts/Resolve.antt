-- ===== src/Sync/Conflicts/Resolve.antt =====
-- packages/core/src/storage/conflicts.ts, `resolveConflict`: the four ways to settle a conflict on the
-- content of a file. A transaction that throws leaves the tables, but not the disk, as they were.
use kontexta.Base.{
  ℕ, String, Option, none, some, List, [], ◌∷◌, ◌++◌, if◌then◌else◌, ◌==◌, find_row, update_rows,
  delete_rows, nat_eq, string_eq,
}
use kontexta.Json.{Json, Fields, nat, null, str, obj, end, field}
use kontexta.Sync.Op.{Op, file_update}
use kontexta.Sync.Outbox.{Local, enqueue_op}
use kontexta.Sync.CopyName.{Env}
use kontexta.Sync.Conflicts.{
  ConflictStrategy, ConflictRecord, DiskFile, FileRow, FtsRow, State, write_file, remove_file,
  or_else, has_gid, conflict_id, resolved, keep_server, keep_mine, keep_both, merged,
}

pub record ResolveConflictOptions : Type 0 where
  pub strategy : String
  pub merged_content : Option String

pub record ResolveConflictResult : Type 0 where
  pub gid : String
  pub strategy : ConflictStrategy
  pub resolved_at : ℕ
  pub outbox_op_id : Option ℕ
  pub new_file_gid : Option String

pub data ResolveError : Type 0 where
  no_conflict invalid_strategy needs_content refused_write : ResolveError

pub data Resolution : Type 0 where
  done : State → ResolveConflictResult → Resolution
  threw : State → ResolveError → Resolution

unfoldable pub parse_strategy : String → Option ConflictStrategy
parse_strategy t =
    if t == "keep-server"
    then some keep_server
    else if t == "keep-mine"
    then some keep_mine
    else if t == "keep-both"
    then some keep_both
    else if t == "merged"
    then some merged
    else none

abbrev pub opt_field : String → Option String → Fields → Fields
opt_field k none rest = rest
opt_field k (some t) rest = field k (str t) rest

abbrev pub text_or_null : Option String → Json
text_or_null none = null
text_or_null (some t) = str t

-- The payload of `file.update`.
abbrev pub update_payload : Env → String → String → String → Json
update_payload env p title text = obj (
    field "path" (str p) (
      opt_field "rel_path" (env.to_rel_path p) (
        field "title" (str title)
          (field "content" (str text) (field "content_hash" (str (env.sha256 text)) end)))))

abbrev pub settle_row : ConflictStrategy → ℕ → ConflictRecord → ConflictRecord
settle_row strategy now c = record c {
  status = resolved;
  resolution = some strategy;
  resolved_at = some now;
}

unfoldable pub settle : ℕ → ConflictStrategy → ℕ → List ConflictRecord → List ConflictRecord
settle id strategy now rows = update_rows (conflict_id id) (settle_row strategy now) rows

-- DELETE and INSERT on the index for one file.
unfoldable pub index_text : ℕ → String → String → List FtsRow → List FtsRow
index_text id title text fts =
    delete_rows (λ (r : FtsRow). r.rowid == id) fts
    ++ record { rowid = id; title = title; content = text } ∷ []

abbrev pub reindex : Option FileRow → String → List FtsRow → List FtsRow
reindex none text fts = fts
reindex (some f) text fts = index_text f.id f.title text fts

abbrev pub title_of : Option FileRow → String → String
title_of none default = default
title_of (some f) default = f.title

-- The last steps of a transaction, after the operation was queued.
abbrev pub commit :
    ConflictRecord → ConflictStrategy → ℕ → State → Option (Local × ℕ) → Option (State × ℕ)
commit c strategy now s none = none
commit c strategy now s (some (local, op_id)) =
    some (record s { local = local; conflicts = settle c.id strategy now s.conflicts }, op_id)

-- The operation that publishes a text under the gid of the record.
abbrev pub update_op : Env → String → ConflictRecord → ℕ → String → String → ℕ → Op
update_op env machine c base title text now = record {
  gid = c.gid;
  kind = file_update;
  origin = machine;
  base_version = some base;
  payload = update_payload env c.file_path title text;
  created_at = nat now;
}

abbrev pub with_hash : String → FileRow → FileRow
with_hash hash f = record f { content_hash = some hash }

-- The transaction of `keep-server`, `keep-mine` and `merged`.
unfoldable pub publish :
    Env → String → ConflictRecord → ConflictStrategy → ℕ → String → ℕ → State → Option (State × ℕ)
unfolding settle index_text
publish env machine c strategy base text now s =
    let files = update_rows (has_gid c.gid) (with_hash (env.sha256 text)) s.files in
    let file = find_row (has_gid c.gid) files in
    let title = title_of file (env.basename c.file_path "") in
    commit c strategy now (record s { files = files; fts_index = reindex file text s.fts_index })
      (enqueue_op (update_op env machine c base title text now) s.local)

abbrev pub on_disk : List DiskFile → State → State
on_disk disk s = record s { disk = disk }

-- The answer after the transaction, with the conflict copy removed.
abbrev pub finish : ConflictRecord → ConflictStrategy → ℕ → State → Option (State × ℕ) → Resolution
finish c strategy now s none = threw s refused_write
finish c strategy now s (some (t, op_id)) =
    done (on_disk (remove_file c.conflict_path t.disk) t) (record {
      gid = c.gid;
      strategy = strategy;
      resolved_at = now;
      outbox_op_id = some op_id;
      new_file_gid = none;
    })

-- The canonical file gets `text`, which is published.
unfoldable pub replace_content :
    Env → String → ConflictRecord → ConflictStrategy → ℕ → String → ℕ → State → Resolution
unfolding publish write_file remove_file
replace_content env machine c strategy base text now s =
    let written = on_disk (write_file c.file_path text s.disk) s in
    finish c strategy now written (publish env machine c strategy base text now written)

-- `keep-mine` leaves a file that exists and publishes what it holds.
abbrev pub keep_mine_with : Env → String → ConflictRecord → ℕ → State → Option String → Resolution
keep_mine_with env machine c now s (some mine) =
    finish c keep_mine now s (publish env machine c keep_mine (or_else c.base_version 0) mine now s)
keep_mine_with env machine c now s none =
    replace_content env machine c keep_mine (or_else c.base_version 0) c.local_content now s
