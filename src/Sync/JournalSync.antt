-- ===== src/Sync/JournalSync.antt =====
-- packages/core/src/storage/journal-merge.ts: a remote version of a daily journal is merged into the local
-- file, and any other file becomes a conflict copy.
use kontexta.Base.{
  ℕ, String, Bool, true, false, ◌&&◌, Option, none, some, List, [], ◌∷◌, if◌then◌else◌, ◌==◌,
  find_row, update_rows, nat_eq, string_eq,
}
use kontexta.Json.{Json, Fields, member, nat, str}
use kontexta.Journal.Merge.{strip_prefix, Shape, fits, merge_journal_content, a_digit, unit}
use kontexta.Sync.Op.{Op, file_update}
use kontexta.Sync.Outbox.{Local, enqueue_op}
use kontexta.Sync.CopyName.{Env}
use kontexta.Sync.Conflicts.{
  ConflictRecord, FileRow, State, read_file, write_file, or_else, has_gid,
}
use kontexta.Sync.Conflicts.Fork.{payload_fields, fork_conflict_from_op}
use kontexta.Sync.Conflicts.Resolve.{update_payload, index_text, title_of, with_hash}
use kontexta.Sync.Conflicts.Copies.{row_id}

-- `units` and `text_of` pass between a text and its UTF-16 units.
pub record Machine : Type 0 where
  pub env : Env
  pub id : String
  pub units : String → List ℕ
  pub text_of : List ℕ → String
  pub can_write : String → Bool

pub data Applied : Type 0 where
  applied : State → Applied
  refused : State → Applied

abbrev pub text_of_json : Option Json → Option String
text_of_json v = elim v [ some j ↦ elim j [ str t ↦ some t | _ ↦ none ] | none ↦ none ]

-- A text that is not empty.
abbrev pub filled : Option String → Option String
filled none = none
filled (some t) = if t == "" then none else some t

-- knowledge/journal/journal-YYYY-MM-DD.md
abbrev journal_start : List ℕ
journal_start =
    b'k' ∷ b'n' ∷ b'o' ∷ b'w' ∷ b'l' ∷ b'e' ∷ b'd' ∷ b'g' ∷ b'e' ∷ b'/' ∷ b'j' ∷ b'o' ∷ b'u' ∷ b'r'
    ∷ b'n' ∷ b'a' ∷ b'l' ∷ b'/' ∷ b'j' ∷ b'o' ∷ b'u' ∷ b'r' ∷ b'n' ∷ b'a' ∷ b'l' ∷ b'-' ∷ []

abbrev journal_end : List Shape
journal_end =
    a_digit
    ∷ a_digit
    ∷ a_digit
    ∷ a_digit
    ∷ unit b'-'
    ∷ a_digit
    ∷ a_digit
    ∷ unit b'-'
    ∷ a_digit
    ∷ a_digit
    ∷ unit b'.'
    ∷ unit b'm'
    ∷ unit b'd'
    ∷ []

fits_all : List Shape → List ℕ → Bool
fits_all [] [] = true
fits_all [] (c ∷ cs) = false
fits_all (p ∷ ps) [] = false
fits_all (p ∷ ps) (c ∷ cs) = fits p c && fits_all ps cs

abbrev ends_journal : Option (List ℕ) → Bool
ends_journal none = false
ends_journal (some rest) = fits_all journal_end rest

abbrev is_daily_rel : (String → List ℕ) → Option String → Bool
is_daily_rel units none = false
is_daily_rel units (some rel) = ends_journal (strip_prefix journal_start (units rel))

unfoldable pub is_daily_journal_path : Machine → String → Bool
unfolding fits_all strip_prefix
is_daily_journal_path m p = is_daily_rel m.units (m.env.to_rel_path p)

-- The row that takes the merged text.
abbrev store_merged : Machine → Option FileRow → String → State → State
store_merged m none union s = s
store_merged m (some f) union s = record s {
  files = update_rows (row_id f.id) (with_hash (m.env.sha256 union)) s.files;
  fts_index = index_text f.id f.title union s.fts_index;
}

abbrev queue_merged : State → Option (Local × ℕ) → Applied
queue_merged s none = refused s
queue_merged s (some (local, op_id)) = applied (record s { local = local })

-- A malformed gid throws after the writes.
unfoldable pub merge_journal_into : Machine → ℕ → String → String → String → State → Applied
unfolding index_text
merge_journal_into m now g p remote s =
    let local = or_else (read_file p s.disk) "" in
    let union = m.text_of (merge_journal_content (m.units local) (m.units remote)) in
    let row = find_row (has_gid g) s.files in
    let written = store_merged m row union (record s { disk = write_file p union s.disk }) in
    let stored = if union == local then s else written in
    let op : Op = record {
      gid = g;
      kind = file_update;
      origin = m.id;
      base_version = some 0;
      payload = update_payload m.env p (title_of row (m.env.basename p "")) union;
      created_at = nat now;
    } in
    if union == remote then applied stored else queue_merged stored (enqueue_op op stored.local)

abbrev forked_state : State → Option (State × ConflictRecord) → Applied
forked_state s none = refused s
forked_state s (some (t, c)) = applied t

abbrev merge_or_fork_at : Machine → ℕ → Op → Option ℕ → Fields → Option String → State → Applied
merge_or_fork_at m now op seq f none s = refused s
merge_or_fork_at m now op seq f (some p) s =
    let journal =
      merge_journal_into m now op.gid p (or_else (text_of_json (member "content" f)) "") s in
    let forked = forked_state s (fork_conflict_from_op m.env now op none seq s) in
    if is_daily_journal_path m p then journal else forked

abbrev merge_or_fork_with : Machine → ℕ → Op → Option ℕ → Option Fields → State → Applied
merge_or_fork_with m now op seq none s = refused s
merge_or_fork_with m now op seq (some f) s =
    merge_or_fork_at m now op seq f
      (m.env.resolve_sync_path (member "path" f) (member "rel_path" f)) s

-- A daily journal merges, any other file becomes a conflict copy.
pub merge_or_fork : Machine → ℕ → Op → Option ℕ → State → Applied
unfolding merge_journal_into is_daily_journal_path
merge_or_fork m now op seq s = merge_or_fork_with m now op seq (payload_fields op.payload) s
