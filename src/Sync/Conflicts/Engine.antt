-- ===== src/Sync/Conflicts/Engine.antt =====
-- packages/core/src/storage/conflicts.ts: `resolvePathConflict` and the choice of `resolveConflict`.
use kontexta.Base.{
  ℕ, suc, String, Bool, ◌||◌, Option, none, some, List, [], ◌∷◌, ◌++◌, if◌then◌else◌, ◌==◌,
  find_row, update_rows, nat_eq, string_eq,
}
use kontexta.Json.{nat, str, obj, end, field}
use kontexta.Sync.Op.{Op, file_delete, file_move}
use kontexta.Sync.Outbox.{Local, clear_lost_push, enqueue_op}
use kontexta.Sync.CopyName.{Env}
use kontexta.Sync.Conflicts.{
  ConflictStrategy, ConflictKind, ConflictRecord, FileRow, State, read_file, write_file,
  remove_file, or_else, is_open, keep_server, keep_mine, keep_both, merged, content, path,
}
use kontexta.Sync.Conflicts.Resolve.{
  ResolveConflictOptions, Resolution, parse_strategy, opt_field, settle, index_text, title_of,
  update_op, replace_content, keep_mine_with, no_conflict, invalid_strategy, needs_content, threw,
}
use kontexta.Sync.Conflicts.Copies.{
  ensure_copy, row_id, gid_is_free, copy_row, with_op, answer, keep_both_copies,
}

abbrev pub local_of : Option (Local × ℕ) → Option Local
local_of none = none
local_of (some (local, op_id)) = some local

abbrev pub delete_op : Env → String → ConflictRecord → ℕ → String → Op
delete_op env machine c now g = record {
  gid = g;
  kind = file_delete;
  origin = machine;
  base_version = some 0;
  payload =
      obj (field "path" (str c.file_path) (opt_field "rel_path" (env.to_rel_path c.file_path) end));
  created_at = nat now;
}

-- The record that lost its path is deleted under its own gid.
abbrev pub retire : Env → String → ConflictRecord → ℕ → Option String → Local → Option Local
retire env machine c now none local = some local
retire env machine c now (some g) local =
    let deleted = local_of (enqueue_op (delete_op env machine c now g) local) in
    if g == "" || g == c.gid then some local else deleted

abbrev pub with_local : State → Option Local → Option State
with_local s none = none
with_local s (some local) = some (record s { local = local })

-- The local row takes the gid of the remote record.
unfoldable pub adopt_row :
    Env → String → ConflictRecord → String → ℕ → Option FileRow → State → Option State
unfolding gid_is_free index_text
adopt_row env machine c text now none s = some s
adopt_row env machine c text now (some f) s =
    let hash = env.sha256 text in
    let taken = λ (r : FileRow). record r { gid = some c.gid; content_hash = some hash } in
    let adopted =
      with_local
        (record s {
          files = update_rows (row_id f.id) taken s.files;
          fts_index = index_text f.id f.title text s.fts_index;
        })
        (retire env machine c now f.gid s.local) in
    if gid_is_free f.id c.gid s.files then adopted else none

-- `merged` publishes the text; `keep-server` queues nothing.
abbrev pub publish_merged :
    Env
    → String
    → ConflictRecord
    → ConflictStrategy
    → String
    → String
    → ℕ
    → Option State
    → Option (State × Option ℕ)
publish_merged env machine c strategy title text now none = none
publish_merged env machine c merged title text now (some s) =
    with_op c merged now s (enqueue_op (update_op env machine c 0 title text now) s.local)
publish_merged env machine c strategy title text now (some s) =
    some (record s { conflicts = settle c.id strategy now s.conflicts }, none)

abbrev pub without_copy : ConflictRecord → Option (State × Option ℕ) → Option (State × Option ℕ)
without_copy c none = none
without_copy c (some (s, op_id)) =
    some (record s { disk = remove_file c.conflict_path s.disk }, op_id)

-- `keep-server` and `merged` on a path conflict.
unfoldable pub take_path :
    Env → String → ConflictRecord → ConflictStrategy → String → ℕ → State → Resolution
unfolding adopt_row settle write_file remove_file
take_path env machine c strategy text now s =
    let written = record s { disk = write_file c.file_path text s.disk } in
    let local = find_row (λ (f : FileRow). f.path == c.file_path) s.files in
    let title = title_of local (env.basename c.file_path "") in
    answer c strategy now c.gid written (
      without_copy c (
        publish_merged env machine c strategy title text now
          (adopt_row env machine c text now local written)))

abbrev pub move_op : Env → String → ConflictRecord → ℕ → Op
move_op env machine c now = record {
  gid = c.gid;
  kind = file_move;
  origin = machine;
  base_version = some 0;
  payload = obj (
      field "from" (str c.file_path) (
        field "to" (str c.conflict_path) (
          opt_field "rel_from" (env.to_rel_path c.file_path)
            (opt_field "rel_to" (env.to_rel_path c.conflict_path) end))));
  created_at = nat now;
}

-- The rows with the one of the copy, and its id.
unfoldable pub place_copy :
    Env → ConflictRecord → Option FileRow → Option FileRow → State → Option (State × ℕ)
unfolding gid_is_free
place_copy env c local (some existing) s =
    let moved = λ (r : FileRow). record r {
      gid = some c.gid;
      content_hash = some (env.sha256 c.remote_content);
    } in
    let placed =
      some (record s { files = update_rows (row_id existing.id) moved s.files }, existing.id) in
    if gid_is_free existing.id c.gid s.files then placed else none
place_copy env c local none s =
    let id = suc s.files_seq in
    let placed =
      some
        (record s { files = s.files ++ copy_row env c local id c.gid ∷ []; files_seq = id }, id) in
    if gid_is_free id c.gid s.files then placed else none

abbrev pub move_copy :
    Env
    → String
    → ConflictRecord
    → ConflictStrategy
    → ℕ
    → Option (State × ℕ)
    → Option (State × Option ℕ)
move_copy env machine c strategy now none = none
move_copy env machine c strategy now (some (s, id)) =
    with_op c strategy now
      (record s {
        fts_index = index_text id (env.basename c.conflict_path "") c.remote_content s.fts_index;
      })
      (enqueue_op (move_op env machine c now) s.local)

-- `keep-mine` and `keep-both` on a path conflict.
unfoldable pub split_path :
    Env → String → ConflictRecord → ConflictStrategy → ℕ → State → Resolution
unfolding place_copy index_text read_file
split_path env machine c strategy now s =
    let local = find_row (λ (f : FileRow). f.path == c.file_path) s.files in
    let kept = ensure_copy c (read_file c.conflict_path s.disk) s in
    let existing = find_row (λ (f : FileRow). f.path == c.conflict_path) s.files in
    answer c strategy now c.gid kept
      (move_copy env machine c strategy now (place_copy env c local existing kept))

unfoldable pub resolve_path_conflict :
    Env → String → ConflictRecord → ConflictStrategy → Option String → ℕ → State → Resolution
unfolding take_path split_path or_else
resolve_path_conflict env machine c keep_server text now s =
    take_path env machine c keep_server c.remote_content now s
resolve_path_conflict env machine c merged text now s =
    take_path env machine c merged (or_else text "") now s
resolve_path_conflict env machine c keep_mine text now s = split_path env machine c keep_mine now s
resolve_path_conflict env machine c keep_both text now s = split_path env machine c keep_both now s

-- The four strategies for a conflict on the content.
unfoldable pub resolve_content :
    Env → String → ConflictRecord → ConflictStrategy → Option String → ℕ → State → Resolution
unfolding replace_content keep_both_copies read_file or_else
resolve_content env machine c keep_server text now s =
    replace_content env machine c keep_server 0 c.remote_content now s
resolve_content env machine c keep_mine text now s =
    keep_mine_with env machine c now s (read_file c.file_path s.disk)
resolve_content env machine c keep_both text now s = keep_both_copies env machine c now s
resolve_content env machine c merged text now s =
    replace_content env machine c merged (or_else c.base_version 0) (or_else text "") now s

abbrev pub run_kind :
    Env
    → String
    → ConflictRecord
    → ConflictStrategy
    → Option String
    → ℕ
    → State
    → ConflictKind
    → Resolution
run_kind env machine c strategy text now s path =
    resolve_path_conflict env machine c strategy text now s
run_kind env machine c strategy text now s content =
    resolve_content env machine c strategy text now s

abbrev pub run_strategy :
    Env → String → ConflictRecord → ConflictStrategy → Option String → ℕ → State → Resolution
run_strategy env machine c strategy text now s =
    run_kind env machine c strategy text now (record s { local = clear_lost_push c.gid s.local })
      c.conflict_kind

abbrev pub with_strategy :
    Env → String → ConflictRecord → Option ConflictStrategy → Option String → ℕ → State → Resolution
with_strategy env machine c none text now s = threw s invalid_strategy
with_strategy env machine c (some merged) none now s = threw s needs_content
with_strategy env machine c (some strategy) text now s =
    run_strategy env machine c strategy text now s

abbrev pub later_or : Option ConflictRecord → Bool → ConflictRecord → Option ConflictRecord
later_or (some d) b c = some d
later_or none b c = if b then some c else none

-- The latest unresolved conflict of a record.
unfoldable pub last_open : String → List ConflictRecord → Option ConflictRecord
last_open g [] = none
last_open g (c ∷ cs) = later_or (last_open g cs) (is_open g c) c

abbrev pub resolve_found :
    Env → String → ResolveConflictOptions → ℕ → State → Option ConflictRecord → Resolution
resolve_found env machine o now s none = threw s no_conflict
resolve_found env machine o now s (some c) =
    with_strategy env machine c (parse_strategy o.strategy) o.merged_content now s

unfoldable pub resolve_conflict :
    Env → String → ℕ → String → ResolveConflictOptions → State → Resolution
unfolding last_open resolve_content resolve_path_conflict parse_strategy
resolve_conflict env machine now g o s = resolve_found env machine o now s (last_open g s.conflicts)
