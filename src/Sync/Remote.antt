-- ===== src/Sync/Remote.antt =====
-- packages/core/src/storage/apply.ts: what a remote operation on a file does to the
-- disk and the tables. The optional texts of a payload are texts or missing, as their types say. The
-- locks on the paths are not modelled.
pub mod Lands
use kontexta.Base.{
  ℕ, suc, String, Bool, true, false, not, ◌&&◌, ◌||◌, Option, none, some, List, [], ◌∷◌, ◌++◌,
  if◌then◌else◌, ◌==◌, find_row, update_rows, delete_rows, nat_eq, string_eq,
}
use kontexta.Json.{Fields, member, str}
use kontexta.Sync.Op.{Op}
use kontexta.Sync.Conflicts.{
  DiskFile, FileRow, FtsRow, State, read_file, write_file, remove_file, or_else, has_gid, path,
}
use kontexta.Sync.Conflicts.Fork.{register_path_conflict, payload_fields}
use kontexta.Sync.Conflicts.Resolve.{index_text, title_of}
use kontexta.Sync.Conflicts.Copies.{row_id, gid_is_free}
use kontexta.Sync.JournalSync.{
  Machine, Applied, text_of_json, filled, is_daily_journal_path, merge_journal_into, applied,
  refused,
}

-- The owner of the path, if the operation is about another record than any here.
abbrev pub owner_gid : String → Option FileRow → Option String
owner_gid g none = none
owner_gid g (some f) = elim f.gid [ none ↦ none | some h ↦ if h == g then none else some h ]

abbrev pub owner_unless : Option FileRow → Option String → Option String
owner_unless none owner = owner
owner_unless (some f) owner = none

pub path_owner : String → String → List FileRow → Option String
path_owner g p files =
    owner_unless (find_row (has_gid g) files)
      (owner_gid g (find_row (λ (f : FileRow). f.path == p) files))

-- `parkIfPathTaken`, where another record owns the path.
pub park : Machine → ℕ → Op → String → String → String → State → Applied
unfolding merge_journal_into is_daily_journal_path
park m now op owner p text s =
    let journal = merge_journal_into m now owner p text s in
    let parked = applied (register_path_conflict m.env now op p text s).0 in
    if is_daily_journal_path m p then journal else parked

abbrev pub has_no_gid : FileRow → Bool
has_no_gid f = elim f.gid [ none ↦ true | some g ↦ false ]

-- The row of the record, or one on the path that has no gid yet.
abbrev pub row_for : String → Option String → List FileRow → Option FileRow
row_for g none files = find_row (has_gid g) files
row_for g (some p) files =
    find_row (λ (f : FileRow). has_gid g f || f.path == p && has_no_gid f) files

pub path_is_free : ℕ → String → List FileRow → Bool
path_is_free id p [] = true
path_is_free id p (f ∷ fs) = not (f.path == p && not (f.id == id)) && path_is_free id p fs

abbrev pub landed : String → String → String → String → FileRow → FileRow
landed g p title hash f = record f {
  path = p;
  title = title;
  content_hash = some hash;
  gid = some g;
}

abbrev pub new_file : String → String → String → String → ℕ → FileRow
new_file g p title hash id = record {
  id = id;
  path = p;
  title = title;
  project_id = none;
  storage_type = "local";
  content_class = none;
  content_hash = some hash;
  gid = some g;
}

-- UPDATE or INSERT; `none` is the error of a unique index.
pub put_file : String → String → String → String → Option FileRow → State → Option (State × ℕ)
unfolding gid_is_free path_is_free
put_file g p title hash (some f) s =
    let files = update_rows (row_id f.id) (landed g p title hash) s.files in
    if gid_is_free f.id g s.files && path_is_free f.id p s.files
    then some (record s { files = files }, f.id)
    else none
put_file g p title hash none s =
    let id = suc s.files_seq in
    let files = s.files ++ new_file g p title hash id ∷ [] in
    if gid_is_free id g s.files && path_is_free id p s.files
    then some (record s { files = files; files_seq = id }, id)
    else none

-- `can` tells whether the folder and the file can be written, which is tried after the transaction.
abbrev pub finish_update : String → String → String → Bool → State → Option (State × ℕ) → Applied
finish_update p title text can before none = refused before
finish_update p title text can before (some (s, id)) =
    let rows = record s { fts_index = index_text id title text s.fts_index } in
    if can then applied (record rows { disk = write_file p text s.disk }) else refused rows

abbrev pub first_of {ℓ} : {A : Type ℓ} → Option A → Option A → Option A
first_of none b = b
first_of (some a) b = some a

pub update_at : Machine → Op → Fields → String → Option FileRow → State → Applied
unfolding put_file index_text write_file
update_at m op f target existing s =
    let text = or_else (text_of_json (member "content" f)) "" in
    let hash = or_else (text_of_json (member "content_hash" f)) (m.env.sha256 text) in
    let title =
      or_else (text_of_json (member "title" f)) (title_of existing (m.env.basename target "")) in
    let record_row = first_of (row_for op.gid (some target) s.files) existing in
    finish_update target title text (m.can_write target) s
      (put_file op.gid target title hash record_row s)

abbrev pub path_of_row : Option FileRow → Option String
path_of_row none = none
path_of_row (some f) = some f.path

-- Without a path in the payload the row has it.
abbrev pub update_in_place :
    Machine → Op → Fields → Option FileRow → Option String → State → Applied
update_in_place m op f existing none s = refused s
update_in_place m op f existing (some target) s = update_at m op f target existing s

-- With one, `parkIfPathTaken` comes first.
abbrev pub update_owned :
    Machine → ℕ → Op → Fields → String → Option FileRow → Option String → State → Applied
update_owned m now op f p existing none s = update_at m op f p existing s
update_owned m now op f p existing (some owner) s =
    park m now op owner p (or_else (text_of_json (member "content" f)) "") s

abbrev pub update_to : Machine → ℕ → Op → Fields → Option String → State → Applied
update_to m now op f none s =
    let existing = row_for op.gid none s.files in
    update_in_place m op f existing (path_of_row existing) s
update_to m now op f (some p) s =
    update_owned m now op f p (row_for op.gid (some p) s.files) (path_owner op.gid p s.files) s

-- `none` is an unsafe path.
abbrev pub update_resolved : Machine → ℕ → Op → Fields → Option String → State → Applied
update_resolved m now op f none s = refused s
update_resolved m now op f (some p) s = update_to m now op f (some p) s

abbrev pub update_given : Machine → ℕ → Op → Fields → Option String → State → Applied
update_given m now op f none s = update_to m now op f none s
update_given m now op f (some given) s =
    update_resolved m now op f (m.env.resolve_sync_path (some (str given)) (member "rel_path" f)) s

abbrev pub update_with : Machine → ℕ → Op → Option Fields → State → Applied
update_with m now op none s = refused s
update_with m now op (some f) s =
    update_given m now op f (filled (text_of_json (member "path" f))) s

pub apply_file_update : Machine → ℕ → Op → State → Applied
unfolding update_at park path_owner
apply_file_update m now op s = update_with m now op (payload_fields op.payload) s

abbrev delete_row : Option FileRow → State → State
delete_row none s = s
delete_row (some f) s = record s {
  files = delete_rows (row_id f.id) s.files;
  fts_index = delete_rows (λ (r : FtsRow). r.rowid == f.id) s.fts_index;
  disk = remove_file f.path s.disk;
}

pub apply_file_delete : Op → State → State
unfolding remove_file
apply_file_delete op s = delete_row (find_row (has_gid op.gid) s.files) s

-- `renameSync`, where the file exists.
abbrev rename_file : Option String → String → String → List DiskFile → List DiskFile
rename_file none from to disk = disk
rename_file (some text) from to disk = write_file to text (remove_file from disk)

-- COALESCE(given, kept)
abbrev moved : String → String → Option String → FileRow → FileRow
moved g to class f = record f {
  path = to;
  content_class = first_of class f.content_class;
  gid = some g;
}

abbrev move_row : String → String → Option String → Option FileRow → State → Applied
move_row g to class none s = applied s
move_row g to class (some f) s =
    let files = update_rows (row_id f.id) (moved g to class) s.files in
    let disk = rename_file (read_file f.path s.disk) f.path to s.disk in
    if path_is_free f.id to s.files
    then applied (record s { files = files; disk = disk })
    else refused s

-- Both paths must be safe; the row has the one that is moved from.
abbrev move_to : Op → Fields → Option String → Option String → State → Applied
move_to op f (some from) (some to) s =
    move_row op.gid to (text_of_json (member "content_class" f)) (find_row (has_gid op.gid) s.files)
      s
move_to op f (some from) none s = refused s
move_to op f none to s = refused s

abbrev move_given : Machine → Op → Fields → Option String → Option String → State → Applied
move_given m op f (some from) (some to) s =
    move_to op f (m.env.resolve_sync_path (some (str from)) (member "rel_from" f))
      (m.env.resolve_sync_path (some (str to)) (member "rel_to" f)) s
move_given m op f (some from) none s = refused s
move_given m op f none to s = refused s

abbrev move_with : Machine → Op → Option Fields → State → Applied
move_with m op none s = refused s
move_with m op (some f) s =
    move_given m op f (filled (text_of_json (member "from" f)))
      (filled (text_of_json (member "to" f))) s

pub apply_file_move : Machine → Op → State → Applied
unfolding path_is_free read_file write_file remove_file
apply_file_move m op s = move_with m op (payload_fields op.payload) s
