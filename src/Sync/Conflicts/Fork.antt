-- ===== src/Sync/Conflicts/Fork.antt =====
-- packages/core/src/storage/conflicts.ts: a conflict that starts with a remote operation, and the
-- questions that the other parts ask.
use Prim.Native.Char.{code}
use kontexta.Base.{
  ℕ, zero, suc, String, Bool, true, false, not, ◌&&◌, ◌||◌, Option, none, some, List, [], ◌∷◌,
  if◌then◌else◌, ◌==◌, find_row, count_rows, update_rows, nat_eq, string_eq,
}
use kontexta.Json.{Json, Fields, member, null, bool, num, str, arr, obj, end}
use kontexta.Sync.Op.{Op}
use kontexta.Sync.CopyName.{Env}
use kontexta.Sync.Conflicts.{
  ConflictKind, ConflictRecord, RegisterConflictInput, ClientRow, State, or_else, is_unresolved,
  conflict_id, register_conflict, path,
}

-- `origin.slice(0, 8)`; a machine id is ASCII.
first_chars : ℕ → String → String
first_chars n String.[] = String.[]
first_chars zero (String.◌∷◌ c s) = String.[]
first_chars (suc n) (String.◌∷◌ c s) = String.◌∷◌ c (first_chars n s)

abbrev hostname_of : Option ClientRow → String
hostname_of none = ""
hostname_of (some c) = elim c.hostname [ some h ↦ h | none ↦ "" ]

pub label_for_origin : String → State → String
unfolding first_chars
label_for_origin origin s =
    let name = hostname_of (find_row (λ (c : ClientRow). c.machine_id == origin) s.clients) in
    if name == "" then first_chars 8 origin else name

abbrev pub of_kind : ConflictKind → ConflictRecord → ConflictRecord
of_kind kind c = record c { conflict_kind = kind }

abbrev pub set_kind : ConflictKind → State × ConflictRecord → State × ConflictRecord
set_kind kind (s, c) = (
  record s { conflicts = update_rows (conflict_id c.id) (of_kind kind) s.conflicts },
  of_kind kind c,
)

abbrev pub path_input : Op → String → String → State → RegisterConflictInput
path_input op local_path remote_content s = record {
  gid = op.gid;
  file_path = local_path;
  conflict_path = none;
  origin = op.origin;
  origin_label = some (label_for_origin op.origin s);
  base_version = op.base_version;
  server_seq = none;
  remote_content = remote_content;
  local_content = none;
  created_at = some op.created_at;
}

-- The remote file landed on the path of another local file.
unfoldable pub register_path_conflict :
    Env → ℕ → Op → String → String → State → State × ConflictRecord
unfolding register_conflict label_for_origin
register_path_conflict env clock op local_path remote_content s =
    set_kind path (register_conflict env clock (path_input op local_path remote_content s) s)

-- The members of a payload; reading one of `null` throws.
abbrev pub payload_fields : Json → Option Fields
payload_fields null = none
payload_fields (bool b) = some end
payload_fields (num n) = some end
payload_fields (str t) = some end
payload_fields (arr i) = some end
payload_fields (obj f) = some f

abbrev text_or_empty : Option Json → String
text_or_empty v = elim v [ some j ↦ elim j [ str t ↦ t | _ ↦ "" ] | none ↦ "" ]

abbrev pub fork_at :
    Env
    → ℕ
    → Op
    → String
    → Option ℕ
    → Fields
    → Option String
    → State
    → Option (State × ConflictRecord)
fork_at env clock op label seq fields none s = none
fork_at env clock op label seq fields (some file_path) s = some (
    register_conflict env clock
      (record {
        gid = op.gid;
        file_path = file_path;
        conflict_path = none;
        origin = op.origin;
        origin_label = some label;
        base_version = op.base_version;
        server_seq = seq;
        remote_content = text_or_empty (member "content" fields);
        local_content = none;
        created_at = some op.created_at;
      })
      s)

abbrev pub fork_with :
    Env → ℕ → Op → String → Option ℕ → Option Fields → State → Option (State × ConflictRecord)
fork_with env clock op label seq none s = none
fork_with env clock op label seq (some fields) s =
    fork_at env clock op label seq fields
      (env.resolve_sync_path (member "path" fields) (member "rel_path" fields)) s

-- `none` is the error on an unsafe path.
unfoldable pub fork_conflict_from_op :
    Env → ℕ → Op → Option String → Option ℕ → State → Option (State × ConflictRecord)
unfolding register_conflict label_for_origin or_else
fork_conflict_from_op env clock op label seq s =
    fork_with env clock op (or_else label (label_for_origin op.origin s)) seq
      (payload_fields op.payload) s

pub count_unresolved_conflicts : State → ℕ
count_unresolved_conflicts s = count_rows is_unresolved s.conflicts

abbrev pub holds {ℓ} : {A : Type ℓ} → Option A → Bool
holds none = false
holds (some a) = true

-- `(\.[^.]*)?$` at the end of a name
no_more_dots : String → Bool
no_more_dots String.[] = true
no_more_dots (String.◌∷◌ c s) = not (code c == b'.') && no_more_dots s

abbrev is_extension : String → Bool
is_extension String.[] = true
is_extension (String.◌∷◌ c s) = code c == b'.' && no_more_dots s

-- `[^()]+\)(\.[^.]*)?$`; `seen` tells whether a character of the label was read.
label_follows : Bool → String → Bool
unfolding no_more_dots
label_follows seen String.[] = false
label_follows seen (String.◌∷◌ c s) =
    let more = label_follows true s in
    if code c == b')' then seen && is_extension s else not (code c == b'(') && more

-- `^ \(from ` and the rest, at one place
copy_mark : List ℕ → String → Bool
unfolding label_follows
copy_mark [] s = label_follows false s
copy_mark (c ∷ cs) String.[] = false
copy_mark (c ∷ cs) (String.◌∷◌ d s) = code d == c && copy_mark cs s

abbrev from_mark : List ℕ
from_mark = b' ' ∷ b'(' ∷ b'f' ∷ b'r' ∷ b'o' ∷ b'm' ∷ b' ' ∷ []

is_copy_name : String → Bool
unfolding copy_mark
is_copy_name String.[] = false
is_copy_name (String.◌∷◌ c s) = copy_mark from_mark (String.◌∷◌ c s) || is_copy_name s

pub is_unresolved_conflict_copy : Env → String → State → Bool
unfolding is_copy_name
is_unresolved_conflict_copy env p s =
    is_copy_name (env.basename p "")
    && holds
        (find_row (λ (c : ConflictRecord). c.conflict_path == p && is_unresolved c) s.conflicts)
