-- ===== src/Tests/Remote.antt =====
-- A remote update of the file of one machine (packages/core/src/storage/apply.ts).
use kontexta.Base.{◌≡◌, refl, true, none, some, [], ◌∷◌}
use kontexta.Json.{Fields, nat, str, obj, end, field}
use kontexta.Sync.Op.{Op, file_update}
use kontexta.Sync.CopyName.{Env}
use kontexta.Sync.Conflicts.{FileRow, State}
use kontexta.Sync.JournalSync.{Machine}
use kontexta.Sync.Remote.{apply_file_update}
use kontexta.Sync.Remote.Lands.{Landed, is_applied, can_land, destination, apply_file_update_lands}

abbrev plain_env : Env
plain_env = record {
  dirname = λ p. "";
  extname = λ p. "";
  basename = λ p ext. p;
  join = λ d b. b;
  sha256 = λ t. t;
  to_rel_path = λ p. some p;
  resolve_sync_path = λ p r. some "b.md";
}

abbrev plain_machine : Machine
plain_machine = record {
  env = plain_env;
  id = "m1";
  units = λ t. [];
  text_of = λ u. "";
  can_write = λ p. true;
}

abbrev known_row : FileRow
known_row = record {
  id = 7;
  path = "a.md";
  title = "A";
  project_id = none;
  storage_type = "local";
  content_class = none;
  content_hash = some "old";
  gid = some "7@m2";
}

abbrev one_file : State
one_file = record {
  disk = record { path = "a.md"; content = "old" } ∷ [];
  files = known_row ∷ [];
  files_seq = 7;
  fts_index = [];
  projects = [];
  clients = [];
  conflicts = [];
  conflicts_seq = 0;
  local = record { outbox = []; outbox_seq = 0; gid_versions = [] };
}

abbrev new_content : Fields
new_content = field "path" (str "b.md") (field "content" (str "new") end)

abbrev remote_update : Op
remote_update = record {
  gid = "7@m2";
  kind = file_update;
  origin = "m2";
  base_version = some 1;
  payload = obj new_content;
  created_at = nat 5;
}

apply_file_update_lands_example :
    let dest = destination plain_machine remote_update new_content one_file in
    let r = apply_file_update plain_machine 9 remote_update one_file in
    Landed plain_machine remote_update new_content one_file dest r
    × (is_applied r ≡ can_land plain_machine "7@m2" one_file known_row dest)
apply_file_update_lands_example =
    apply_file_update_lands plain_machine 9 remote_update new_content one_file known_row refl refl
