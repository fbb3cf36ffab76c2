-- ===== src/Relay/Wire.antt =====
-- packages/relay/src/routes/ops.ts: what is read from a request, before the database is touched.
pub mod Valid
use Prim.Native.Char.{Char, code}
use text.Mathlib.Text.{starts_with}
use kontexta.Base.{
  ℕ, zero, suc, String, Bool, true, false, not, ◌&&◌, ◌||◌, Option, none, some, List, [], ◌∷◌, leb,
  if◌then◌else◌, ◌==◌, nat_eq, string_eq,
}
use kontexta.Json.{JsNumber, Json, Fields, member, items, nat, other, null, num, str, arr, obj}
use kontexta.Chars.{is_digit, is_letter, is_dot, utf16_length, every_char}
use kontexta.Relay.Tables.{NewOp}

abbrev pub op_kinds : List String
op_kinds =
    "file.create" ∷ "file.update" ∷ "file.delete" ∷ "file.move" ∷ "folder.create" ∷ "folder.delete"
    ∷ "tag.set" ∷ "favorite.set" ∷ "project.register" ∷ "project.unregister"
    ∷ "calendar.entity.upsert" ∷ "calendar.event.upsert" ∷ "calendar.link.upsert"
    ∷ "journal.meta.upsert" ∷ []

pub includes : List String → String → Bool
includes [] s = false
includes (x ∷ xs) s = x == s || includes xs s

unfoldable pub kind_family : String → String
kind_family kind =
    if starts_with kind "file."
    then "content"
    else if kind == "tag.set" || kind == "favorite.set"
    then "metadata"
    else if starts_with kind "folder."
    then "folder"
    else if starts_with kind "project."
    then "project"
    else if kind == "journal.meta.upsert"
    then "journal"
    else kind

-- /^\d+@.+/
gid_tail : String → Bool
gid_tail String.[] = false
gid_tail (String.◌∷◌ c s) = is_dot c

gid_digits : String → Bool
gid_digits String.[] = false
gid_digits (String.◌∷◌ c s) = if code c == b'@' then gid_tail s else is_digit c && gid_digits s

pub is_gid : String → Bool
is_gid String.[] = false
is_gid (String.◌∷◌ c s) = is_digit c && gid_digits s

-- /^[A-Za-z0-9+/]{16}$/
is_base64 : Char → Bool
is_base64 c = is_letter c || (is_digit c || (code c == b'+' || code c == b'/'))

is_nonce : String → Bool
is_nonce s = utf16_length s == 16 && every_char is_base64 s

abbrev version_tag : Option Json → Bool
version_tag (some (num (nat n))) = n == 1
version_tag _ = false

nonce_field : Option Json → Bool
nonce_field (some (str s)) = is_nonce s
nonce_field _ = false

cipher_field : Option Json → Bool
cipher_field (some (str s)) = leb 24 (utf16_length s)
cipher_field _ = false

-- An AES-GCM envelope: `e` is 1, `n` a nonce and `c` a ciphertext.
pub is_envelope : Json → Bool
is_envelope (obj o) =
    version_tag (member "e" o) && (nonce_field (member "n" o) && cipher_field (member "c" o))
is_envelope _ = false

-- The checks of `validateIncomingOp` on one field each; `none` refuses the op.
gid_of : Option Json → Option String
gid_of (some (str s)) = if is_gid s then some s else none
gid_of _ = none

kind_of : Option Json → Option String
kind_of (some (str s)) = if includes op_kinds s then some s else none
kind_of _ = none

origin_of : Option Json → Option String
origin_of (some (str s)) = if s == "" then none else some s
origin_of _ = none

base_of : Option Json → Option (Option ℕ)
base_of (some null) = some none
base_of (some (num (nat n))) = some (some n)
base_of _ = none

-- `JSON.parse` reads a number that is too large as an infinity.
abbrev is_finite : JsNumber → Bool
is_finite (nat n) = true
is_finite (other text) = not (text == "Infinity" || text == "-Infinity")

created_of : Option Json → Option JsNumber
created_of (some (num n)) = if is_finite n then some n else none
created_of _ = none

client_seq_of : Option Json → Option (Option ℕ)
client_seq_of none = some none
client_seq_of (some null) = some none
client_seq_of (some (num (nat zero))) = none
client_seq_of (some (num (nat (suc n)))) = some (some (suc n))
client_seq_of _ = none

infixl 5 ◌>>=◌
abbrev ◌>>=◌ {ℓ κ} : {A : Type ℓ} {B : Type κ} → Option A → (A → Option B) → Option B
none >>= f = none
some a >>= f = f a

validate_fields : Fields → Option NewOp
validate_fields r = do
  gid ← gid_of (member "gid" r)
  kind ← kind_of (member "kind" r)
  origin ← origin_of (member "origin" r)
  base ← base_of (member "base_version" r)
  created ← created_of (member "created_at" r)
  payload ← member "payload" r
  client_seq ← client_seq_of (member "client_seq" r)
  some (record {
    gid = gid;
    kind = kind;
    origin = origin;
    base_version = base;
    payload = payload;
    created_at = created;
    client_seq = client_seq;
  })

pub validate_incoming_op : Json → Option NewOp
validate_incoming_op (obj r) = validate_fields r
validate_incoming_op _ = none

-- The array of a POST body: the body itself, or its member `ops`.
raw_array : Option Json → Option (List Json)
raw_array (some (arr xs)) = some (items xs)
raw_array _ = none

unfoldable pub raw_ops : Json → Option (List Json)
unfolding raw_array
raw_ops (arr xs) = some (items xs)
raw_ops (obj o) = raw_array (member "ops" o)
raw_ops _ = none
