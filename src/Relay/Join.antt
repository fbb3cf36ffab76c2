-- ===== src/Relay/Join.antt =====
-- packages/relay/src/routes/brains.ts: joining a brain, its name and its machines. The keyed hash
-- `hmac` and the digest `sha256` are parameters, and so is each fresh token.
pub mod Access
use Prim.Native.Char.{Char, code}
use Prim.Native.String.{◌++◌ as text_append}
use kontexta.Base.{
  ℕ, zero, suc, String, Bool, true, false, ◌&&◌, ◌||◌, Option, none, some, [], ◌∷◌, ltb, leb,
  if◌then◌else◌, ◌==◌, nat_eq, string_eq,
}
use kontexta.Json.{Json, Fields, member, str, obj}
use kontexta.Chars.{is_digit, utf16_length, every_char}
use kontexta.Relay.Tables.{BrainRow, Db}
use kontexta.Relay.Store.{latest_seq}
use kontexta.Relay.Members.{
  create_brain, find_brain_by_share_hash, enroll_machine, has_machine, rotate_token, drop_spaces,
  all_spaces, hash_token,
}

-- /^[0-9a-f]{n}$/
is_hex : Char → Bool
is_hex c = is_digit c || leb 97 (code c) && leb (code c) 102

pub is_hex_of : ℕ → String → Bool
unfolding is_hex
is_hex_of n s = utf16_length s == n && every_char is_hex s

-- The environment of the server.
pub record JoinOptions : Type 0 where
  pub pepper : String
  pub enroll_secret : String
  pub allow_open_create : Bool

pub record JoinRequest : Type 0 where
  pub route_id : String
  pub machine_id : String
  pub hostname : Option String
  pub name : String

host_of : Option Json → Option String
host_of (some (str s)) = if ltb 0 (utf16_length s) && leb (utf16_length s) 255 then some s else none
host_of _ = none

drop_end : String → String
drop_end String.[] = ""
drop_end (String.◌∷◌ c s) = if all_spaces (String.◌∷◌ c s) then "" else String.◌∷◌ c (drop_end s)

pub trim : String → String
unfolding drop_end
trim s = drop_end (drop_spaces s)

-- `slice(0, n)` in UTF-16 units; a pair that lies across the end is left out.
pub slice_to : ℕ → String → String
slice_to n String.[] = ""
slice_to zero (String.◌∷◌ c s) = ""
slice_to (suc zero) (String.◌∷◌ c s) = if leb 0x10000 (code c) then "" else String.◌∷◌ c ""
slice_to (suc (suc n)) (String.◌∷◌ c s) =
    let narrow = slice_to (suc n) s in
    let wide = slice_to n s in String.◌∷◌ c (if leb 0x10000 (code c) then wide else narrow)

abbrev or_brain : Option String → String
or_brain none = "brain"
or_brain (some host) = host

name_of : Option String → Option Json → String
unfolding trim slice_to
name_of host (some (str s)) = if trim s == "" then or_brain host else slice_to 120 (trim s)
name_of host _ = or_brain host

pub data JoinReply : Type 0 where
  bad_json not_an_object bad_route_id bad_machine_id closed denied : JoinReply
  joined : (created : Bool) (brain_id : ℕ) (name token : String) (latest : ℕ) → JoinReply

module _ (hmac : String → String → String) (sha256 : String → String) where
  unfoldable pub hash_route_id : String → String → String
  hash_route_id pepper route_id = hmac pepper (text_append "route:" route_id)

  pub secrets_equal : String → String → Bool
  secrets_equal a b = sha256 a == sha256 b

  -- Entering a brain that exists: a new token for a known machine, a new row for another one.
  unfoldable pub enter_brain : ℕ → BrainRow → JoinRequest → String → Db → Db
  enter_brain now brain req token_hash db =
      if has_machine brain.id req.machine_id db
      then rotate_token now brain.id req.machine_id token_hash req.hostname db
      else enroll_machine now brain.id req.machine_id req.hostname token_hash db

  -- Whether a machine may create a brain; the reply where it may not.
  unfoldable pub may_create : JoinOptions → String → Option JoinReply
  unfolding secrets_equal
  may_create opts presented =
      if opts.enroll_secret == ""
      then (if opts.allow_open_create then none else some closed)
      else (if secrets_equal presented opts.enroll_secret then none else some denied)

  abbrev create_as :
      Option JoinReply → ℕ → String → JoinRequest → String → String → Db → Db × JoinReply
  create_as (some refusal) now share_hash req token token_hash db = (db, refusal)
  create_as none now share_hash req token token_hash db =
      let (db', b) = create_brain now share_hash req.name db in
      let db'' = enroll_machine now b req.machine_id req.hostname token_hash db' in
      (db'', joined true b req.name token (latest_seq b db''))

  abbrev join_with :
      Option BrainRow → ℕ → JoinOptions → String → String → JoinRequest → Db → Db × JoinReply
  join_with (some brain) now opts token presented req db =
      let db' = enter_brain now brain req (hash_token hmac opts.pepper token) db in
      (db', joined false brain.id brain.name token (latest_seq brain.id db'))
  join_with none now opts token presented req db =
      create_as (may_create opts presented) now (hash_route_id opts.pepper req.route_id) req token
        (hash_token hmac opts.pepper token) db

  -- The transaction of the route and its reply, for a request that was read.
  unfoldable pub join_brain : ℕ → JoinOptions → String → String → JoinRequest → Db → Db × JoinReply
  unfolding enter_brain may_create hash_route_id
  join_brain now opts token presented req db =
      join_with (find_brain_by_share_hash (hash_route_id opts.pepper req.route_id) db) now opts
        token presented req db

  abbrev read_name :
      ℕ → JoinOptions → String → String → String → String → Fields → Db → Db × JoinReply
  read_name now opts token presented route machine o db =
      let host = host_of (member "hostname" o) in
      join_brain now opts token presented
        (record {
          route_id = route;
          machine_id = machine;
          hostname = host;
          name = name_of host (member "name" o);
        })
        db

  abbrev read_machine :
      ℕ → JoinOptions → String → String → String → Option Json → Fields → Db → Db × JoinReply
  read_machine now opts token presented route (some (str m)) o db =
      if is_hex_of 16 m
      then read_name now opts token presented route m o db
      else (db, bad_machine_id)
  read_machine now opts token presented route _ o db = (db, bad_machine_id)

  abbrev read_route : ℕ → JoinOptions → String → String → Option Json → Fields → Db → Db × JoinReply
  read_route now opts token presented (some (str r)) o db =
      if is_hex_of 64 r
      then read_machine now opts token presented r (member "machine_id" o) o db
      else (db, bad_route_id)
  read_route now opts token presented _ o db = (db, bad_route_id)

  -- POST /brains/join; `body` is `none` where the JSON does not parse.
  pub join : ℕ → JoinOptions → String → String → Option Json → Db → Db × JoinReply
  unfolding join_brain host_of name_of is_hex_of
  join now opts token presented none db = (db, bad_json)
  join now opts token presented (some (obj o)) db =
      read_route now opts token presented (member "route_id" o) o db
  join now opts token presented (some _) db = (db, not_an_object)
