-- ===== src/Sync/Conflicts/Copies.antt =====
-- packages/core/src/storage/conflicts.ts: the ways to settle a conflict that keep the copy as a file of
-- its own, and `resolvePathConflict`.
use kontexta.Base.{
  ℕ, suc, String, Bool, true, not, ◌&&◌, Option, none, some, List, [], ◌∷◌, ◌++◌, if◌then◌else◌,
  ◌==◌, find_row, nat_eq, string_eq,
}
use kontexta.Json.{Json, nat, str, obj, end, field}
use kontexta.Sync.Op.{format_gid, file_create}
use kontexta.Sync.Outbox.{Local, enqueue_op}
use kontexta.Sync.CopyName.{Env}
use kontexta.Sync.Conflicts.{
  ConflictStrategy, ConflictRecord, FileRow, ProjectRow, State, read_file, write_file, has_gid,
  keep_both,
}
use kontexta.Sync.Conflicts.Resolve.{
  Resolution, opt_field, text_or_null, settle, refused_write, done, threw,
}

-- The copy on the disk, written again where it is missing.
abbrev pub ensure_copy : ConflictRecord → Option String → State → State
ensure_copy c none s = record s { disk = write_file c.conflict_path c.remote_content s.disk }
ensure_copy c (some text) s = s

abbrev storage_of : Option FileRow → String
storage_of none = "local"
storage_of (some f) = f.storage_type

abbrev project_of : Option FileRow → Option ℕ
project_of none = none
project_of (some f) = f.project_id

abbrev class_of : Option FileRow → Option String
class_of none = none
class_of (some f) = f.content_class

abbrev gid_of_project : Option ProjectRow → Option String
gid_of_project none = none
gid_of_project (some p) = p.gid

abbrev project_gid : Option ℕ → List ProjectRow → Option String
project_gid none projects = none
project_gid (some id) projects = gid_of_project (find_row (λ (p : ProjectRow). p.id == id) projects)

abbrev pub row_id : ℕ → FileRow → Bool
row_id id f = f.id == id

-- The unique index on `gid`: another row that holds it makes the statement throw.
unfoldable pub gid_is_free : ℕ → String → List FileRow → Bool
gid_is_free id g [] = true
gid_is_free id g (f ∷ fs) = not (has_gid g f && not (f.id == id)) && gid_is_free id g fs

-- The row of the copy, a file of the canonical file's project and kind.
abbrev pub copy_row : Env → ConflictRecord → Option FileRow → ℕ → String → FileRow
copy_row env c canonical id g = record {
  id = id;
  path = c.conflict_path;
  title = env.basename c.conflict_path "";
  project_id = project_of canonical;
  storage_type = storage_of canonical;
  content_class = class_of canonical;
  content_hash = some (env.sha256 c.remote_content);
  gid = some g;
}

abbrev create_payload : Env → ConflictRecord → Option FileRow → List ProjectRow → Json
create_payload env c canonical projects = obj (
    field "path" (str c.conflict_path) (
      opt_field "rel_path" (env.to_rel_path c.conflict_path) (
        field "title" (str (env.basename c.conflict_path "")) (
          field "project_gid" (text_or_null (project_gid (project_of canonical) projects)) (
            field "storage_type" (str (storage_of canonical)) (
              field "content_class" (text_or_null (class_of canonical)) (
                field "content" (str c.remote_content)
                  (field "content_hash" (str (env.sha256 c.remote_content)) end))))))))

-- The tables with the operation queued and the conflict settled; the second part is its number.
abbrev pub with_op :
    ConflictRecord → ConflictStrategy → ℕ → State → Option (Local × ℕ) → Option (State × Option ℕ)
with_op c strategy now s none = none
with_op c strategy now s (some (local, op_id)) =
    some (record s { local = local; conflicts = settle c.id strategy now s.conflicts }, some op_id)

abbrev gid_of_copy : FileRow → String → String
gid_of_copy f machine = elim f.gid [ some g ↦ g | none ↦ format_gid f.id machine ]

-- The transaction of `keep-both`, with the gid of the copy.
unfoldable pub track_copy :
    Env → String → ConflictRecord → ℕ → Option FileRow → State → Option (State × Option ℕ) × String
unfolding settle gid_is_free
track_copy env machine c now (some existing) s = (
  some (record s { conflicts = settle c.id keep_both now s.conflicts }, none),
  gid_of_copy existing machine,
)
track_copy env machine c now none s =
    let canonical = find_row (has_gid c.gid) s.files in
    let id = suc s.files_seq in
    let g = format_gid id machine in
    let added = record s {
      files = s.files ++ copy_row env c canonical id g ∷ [];
      files_seq = id;
      fts_index =
          s.fts_index
          ++ record {
            rowid = id;
            title = env.basename c.conflict_path "";
            content = c.remote_content;
          }
            ∷ [];
    } in
    let written = with_op c keep_both now added (
      enqueue_op
        (record {
          gid = g;
          kind = file_create;
          origin = machine;
          base_version = none;
          payload = create_payload env c canonical s.projects;
          created_at = nat now;
        })
        s.local) in
    (if gid_is_free id g s.files then written else none, g)

abbrev pub answer :
    ConflictRecord → ConflictStrategy → ℕ → String → State → Option (State × Option ℕ) → Resolution
answer c strategy now g s none = threw s refused_write
answer c strategy now g s (some (t, op_id)) = done t (record {
  gid = c.gid;
  strategy = strategy;
  resolved_at = now;
  outbox_op_id = op_id;
  new_file_gid = some g;
})

unfoldable pub keep_both_copies : Env → String → ConflictRecord → ℕ → State → Resolution
unfolding track_copy read_file
keep_both_copies env machine c now s =
    let kept = ensure_copy c (read_file c.conflict_path s.disk) s in
    let existing = find_row (λ (f : FileRow). f.path == c.conflict_path) s.files in
    let (written, g) = track_copy env machine c now existing kept in
    answer c keep_both now g kept written
