-- ===== src/Sync/Op.antt =====
-- packages/core/src/storage/op.ts and identity/gid.ts: the operation, its kind and family, and the
-- checks on it. An `Op` of this type has a kind of the list, a base version that is `null` or a
-- non-negative integer, a finite time and a JSON payload; `parseOp` checks the rest.
pub mod GidRoundTrip
use Prim.Native.Char.{Char, char, code}
use kontexta.Base.{
  ℕ, zero, suc, ◌+◌, ◌-◌, ◌*◌, ◌/◌, ◌%◌, String, Bool, true, false, not, ◌&&◌, ◌||◌, Option, none,
  some, List, [], ◌∷◌, ltb, leb, if◌then◌else◌, ◌==◌, find_row, nat_eq, string_eq,
}
use text.Mathlib.Text.{starts_with}
use kontexta.Json.{JsNumber, Json}

pub data OpKind : Type 0 where
  file_create file_update file_delete file_move : OpKind
  folder_create folder_delete : OpKind
  tag_set favorite_set : OpKind
  project_register project_unregister : OpKind
  calendar_entity_upsert calendar_event_upsert calendar_link_upsert : OpKind
  journal_meta_upsert : OpKind

-- The text of a kind, as it is stored and sent.
unfoldable pub kind_name : OpKind → String
kind_name file_create = "file.create"
kind_name file_update = "file.update"
kind_name file_delete = "file.delete"
kind_name file_move = "file.move"
kind_name folder_create = "folder.create"
kind_name folder_delete = "folder.delete"
kind_name tag_set = "tag.set"
kind_name favorite_set = "favorite.set"
kind_name project_register = "project.register"
kind_name project_unregister = "project.unregister"
kind_name calendar_entity_upsert = "calendar.entity.upsert"
kind_name calendar_event_upsert = "calendar.event.upsert"
kind_name calendar_link_upsert = "calendar.link.upsert"
kind_name journal_meta_upsert = "journal.meta.upsert"

-- `kindFamily` on the text of a kind.
unfoldable pub family_of_name : String → String
family_of_name name =
    if starts_with name "file."
    then "content"
    else if name == "tag.set" || name == "favorite.set"
    then "metadata"
    else if starts_with name "folder."
    then "folder"
    else if starts_with name "project."
    then "project"
    else if name == "journal.meta.upsert"
    then "journal"
    else name

unfoldable pub kind_family : OpKind → String
unfolding kind_name family_of_name
kind_family kind = family_of_name (kind_name kind)

abbrev all_kinds : List OpKind
all_kinds =
    file_create ∷ file_update ∷ file_delete ∷ file_move ∷ folder_create ∷ folder_delete ∷ tag_set
    ∷ favorite_set ∷ project_register ∷ project_unregister ∷ calendar_entity_upsert
    ∷ calendar_event_upsert ∷ calendar_link_upsert ∷ journal_meta_upsert ∷ []

-- The kind that a text names.
unfoldable pub kind_of_name : String → Option OpKind
kind_of_name name = find_row (λ k. kind_name k == name) all_kinds

pub record Op : Type 0 where
  pub gid : String
  pub kind : OpKind
  pub origin : String
  pub base_version : Option ℕ
  pub payload : Json
  pub created_at : JsNumber

pub record GidParts : Type 0 where
  pub local_id : ℕ
  pub machine_id : String

abbrev pub digit : ℕ → Char
digit zero = char b'0' tt
digit (suc zero) = char b'1' tt
digit (suc (suc zero)) = char b'2' tt
digit (suc (suc (suc zero))) = char b'3' tt
digit (suc (suc (suc (suc zero)))) = char b'4' tt
digit (suc (suc (suc (suc (suc zero))))) = char b'5' tt
digit (suc (suc (suc (suc (suc (suc zero)))))) = char b'6' tt
digit (suc (suc (suc (suc (suc (suc (suc zero))))))) = char b'7' tt
digit (suc (suc (suc (suc (suc (suc (suc (suc zero)))))))) = char b'8' tt
digit (suc (suc (suc (suc (suc (suc (suc (suc (suc n))))))))) = char b'9' tt

-- The decimal digits of a number before a text; the fuel is larger than the number.
abbrev pub show_before : ℕ → ℕ → String → String
show_before zero n s = s
show_before (suc fuel) n s =
    let rest = String.◌∷◌ (digit (n % 10)) s in
    let more = show_before fuel (n / 10) rest in if ltb n 10 then rest else more

unfoldable pub show_decimal : ℕ → String
show_decimal n = show_before (suc n) n ""

-- A local id is a safe integer (below 2^53): JavaScript prints all its digits and reads them back.
unfoldable pub format_gid : ℕ → String → String
format_gid local_id machine_id =
    show_before (suc local_id) local_id (String.◌∷◌ (char b'@' tt) machine_id)

is_digit : ℕ → Bool
is_digit c = leb 48 c && leb c 57

-- The digits before the first `@`, read so far as `n`; `seen` tells whether there was one.
parse_local : ℕ → Bool → String → Option GidParts
parse_local n seen String.[] = none
parse_local n seen (String.◌∷◌ c s) =
    let more = parse_local (n * 10 + (code c - 48)) true s in
    if code c == b'@'
    then (if seen && not (s == "") then some (record { local_id = n; machine_id = s }) else none)
    else if is_digit (code c)
    then more
    else none

unfoldable pub parse_gid : String → Option GidParts
unfolding parse_local is_digit
parse_gid gid = parse_local 0 false gid

abbrev is_some {ℓ} : {A : Type ℓ} → Option A → Bool
is_some none = false
is_some (some a) = true

unfoldable pub parse_op : Op → Option Op
unfolding parse_gid
parse_op op = if is_some (parse_gid op.gid) && not (op.origin == "") then some op else none
