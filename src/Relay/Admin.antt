-- ===== src/Relay/Admin.antt =====
-- packages/relay/src/routes/brains.ts: PATCH /brains/me and DELETE /brains/me/machines/:machine_id.
pub mod Scope
use kontexta.Base.{ℕ, String, Option, none, some, if◌then◌else◌, ◌==◌, nat_eq, string_eq}
use kontexta.Json.{Json, member, str, obj}
use kontexta.Relay.Tables.{Db}
use kontexta.Relay.Members.{rename_brain, revoke_machine, Machine, authenticate}
use kontexta.Relay.Join.{trim, slice_to}

pub data AdminReply : Type 0 where
  admin_unauthorized name_required no_such_machine revoked : AdminReply
  renamed : (brain_id : ℕ) (name : String) → AdminReply

name_field : Option Json → Option String
name_field (some (str s)) = if trim s == "" then none else some (slice_to 120 (trim s))
name_field _ = none

abbrev name_in : Option Json → Option String
name_in (some (obj o)) = name_field (member "name" o)
name_in _ = none

abbrev rename_as : Option Machine → Option String → Db → Db × AdminReply
rename_as none name db = (db, admin_unauthorized)
rename_as (some who) none db = (db, name_required)
rename_as (some who) (some name) db = (rename_brain who.brain_id name db, renamed who.brain_id name)

abbrev revoke_as : Option Machine → String → Db → Db × AdminReply
revoke_as none m db = (db, admin_unauthorized)
revoke_as (some who) m db =
    let (db', deleted) = revoke_machine who.brain_id m db in
    (db', if deleted then revoked else no_such_machine)

module _ (hmac : String → String → String) where
  -- PATCH /brains/me; `body` is `none` where the JSON does not parse.
  pub patch_brain : String → Option String → Option Json → Db → Db × AdminReply
  unfolding name_field
  patch_brain pepper header body db =
      rename_as (authenticate hmac pepper header db) (name_in body) db

  -- DELETE /brains/me/machines/:machine_id
  pub delete_machine : String → Option String → String → Db → Db × AdminReply
  delete_machine pepper header m db = revoke_as (authenticate hmac pepper header db) m db
