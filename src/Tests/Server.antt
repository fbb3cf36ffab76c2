-- ===== src/Tests/Server.antt =====
-- The relay (packages/relay/src) on one brain with two machines.
mod Access
use Prim.Native.String.{◌++◌ as text_append}
use kontexta.Chars.{is_space}
use kontexta.Relay.Wire.{kind_family, raw_ops}
use kontexta.Base.{
  ℕ, String, ◌≡◌, refl, Option, none, some, List, [], ◌∷◌, ◌++◌, map, arith, eq_iff,
}
use kontexta.Json.{Json, nat, num, str, arr, obj, nil, cons, end, field}
use kontexta.Relay.Tables.{NewOp, OpRow, RecordRow, ClientRow, Db, empty_db, accepted, conflict}
use kontexta.Relay.Wire
use kontexta.Relay.Store.{
  is_tombstone_kind, max_version, current_version, upsert_record, clear_parked, new_row, kept_row,
  insert_op, drop_records, append_op, version_at, find_by_client_seq, ops_since,
}
use kontexta.Relay.Store.Versions.{FamiliesOk, current_version-accepted}
use kontexta.Relay.Members.{
  drop_spaces, all_spaces, take_word, non_empty, strip_word, after_bearer, extract_bearer_token,
  hash_token, validate_client_token, authenticate_token, authenticate,
}
use kontexta.Relay.Ops.{
  has_key, key_of, status_of, post_new, existing, post_op, post_all, post_batch, post_ops,
}
use kontexta.Relay.Ops.Retry.Noop.{SameAnswers, retry_is_noop}
use kontexta.Relay.Ops.Races.{alone, first_writer_wins, Loses, conflict_spreads, delete_forgets}
use kontexta.Relay.Ops.Isolation.Views.{SameView, post_batch_isolated}
use kontexta.Relay.Ops.Guard.{Extends, post_ops_refused, post_ops_appends_own}
use kontexta.Relay.Poll.{next_cursor}
use kontexta.Relay.Poll.Pages.{pages_join}

abbrev sealed : Json
sealed = obj (
    field "e" (num (nat 1))
      (field "n" (str "abcdefghABCDEFGH") (field "c" (str "abcdefghijklmnopqrstuvwx") end)))

-- An edit of record 1@m1 by `origin`, on a base version, as its request number.
abbrev edit : String → Option ℕ → Option ℕ → NewOp
edit origin base number = record {
  gid = "1@m1";
  kind = "file.update";
  origin = origin;
  base_version = base;
  payload = sealed;
  created_at = nat 5;
  client_seq = number;
}

abbrev removal : NewOp
removal = record (edit "m1" (some 1) none) { kind = "file.delete" }

abbrev logged_edit : OpRow
logged_edit = new_row 1 1000 (edit "m2" none (some 1)) "content" accepted 1

abbrev kept_edit : RecordRow
kept_edit = kept_row 1 1000 (edit "m2" none (some 1)) "content" 1 1

abbrev kept_tags : RecordRow
kept_tags = record kept_edit { kind = "tag.set"; kind_family = "metadata"; version = 4 }

abbrev machine_row : ClientRow
machine_row = record {
  brain_id = 1;
  machine_id = "m1";
  hostname = none;
  token_hash = "pk";
  first_seen_at = 0;
  last_seen_at = 0;
  acked_seq = 0;
}

-- One brain with one accepted edit and one tag set.
abbrev small_db : Db
small_db = record empty_db {
  brains = record { id = 1; share_hash = "proute:r0"; name = "home"; created_at = 0 } ∷ [];
  brain_seq = 1;
  clients = machine_row ∷ [];
  ops = logged_edit ∷ [];
  records = kept_edit ∷ kept_tags ∷ [];
  op_seq = 1;
}

small_db-FamiliesOk : FamiliesOk Wire.kind_family small_db
unfolding Wire.kind_family
small_db-FamiliesOk = (refl, (refl, tt))

-- The keyed hash of the examples joins the key and the message.
abbrev toy_hmac : String → String → String
toy_hmac = text_append

abbrev same_text : String → String
same_text s = s

abbrev two_edits : List NewOp
two_edits = edit "m1" (some 1) (some 1) ∷ edit "m1" (some 0) (some 2) ∷ []

-- The first edit is on the newest version and the second is not.
two_edits_posted :
    map (λ r. r.status) (post_batch 1 2000 "m1" two_edits small_db).1 ≡ accepted ∷ conflict ∷ []
unfolding post_op post_new status_of existing has_key append_op insert_op current_version
    max_version upsert_record drop_records clear_parked find_by_client_seq is_tombstone_kind
    Wire.kind_family post_batch post_all
two_edits_posted = refl

retry_is_noop_example :
    let (once, rs) = post_batch 1 2000 "m1" two_edits small_db in
    let (twice, qs) = post_batch 1 3000 "m1" two_edits once in
    (twice.ops ≡ once.ops)
    × (twice.records ≡ once.records)
    × (twice.conflicts ≡ once.conflicts)
    × (twice.op_seq ≡ once.op_seq)
    × SameAnswers rs qs
retry_is_noop_example =
    retry_is_noop 1 2000 3000 "m1" two_edits small_db ((1, refl), ((2, refl), tt))

current_version-accepted_example :
    current_version 1 "1@m1" "content"
      (append_op 1 2000 (edit "m1" (some 1) none) "content" accepted small_db).0
    ≡ 2
unfolding Wire.kind_family current_version append_op
current_version-accepted_example =
    current_version-accepted Wire.kind_family 1 2000 (edit "m1" (some 1) none) small_db 1 "1@m1"
      "content" small_db-FamiliesOk

post_batch_isolated_example : SameView 2 small_db (post_batch 1 2000 "m1" two_edits small_db).0
post_batch_isolated_example =
    post_batch_isolated 1 2 2000 "m1" two_edits small_db (λ e. omega (arith, e))

first_writer_wins_example :
    let db' = (post_op 1 2000 (edit "m1" (some 1) none) (alone small_db)).0.db in
    let (after, r) = post_op 1 3000 (edit "m2" (some 1) none) (alone db') in
    (r.status ≡ conflict)
    × (after.db.records ≡ db'.records)
    × (current_version 1 "1@m1" "content" after.db ≡ 2)
unfolding post_op post_new status_of existing has_key append_op insert_op current_version
    max_version upsert_record drop_records clear_parked find_by_client_seq is_tombstone_kind
    Wire.kind_family
first_writer_wins_example =
    first_writer_wins 1 2000 3000 (edit "m1" (some 1) none) (edit "m2" (some 1) none) small_db
      small_db-FamiliesOk refl refl refl refl refl refl

conflict_spreads_example :
    Loses
      (key_of (edit "m1" (some 0) none))
      two_edits
      (post_all 1 2000 two_edits (post_op 1 2000 (edit "m1" (some 0) none) (alone small_db)).0).1
unfolding post_op post_new status_of existing has_key append_op insert_op current_version
    max_version upsert_record drop_records clear_parked find_by_client_seq is_tombstone_kind
    Wire.kind_family
conflict_spreads_example =
    conflict_spreads 1 2000 (edit "m1" (some 0) none) two_edits (alone small_db) refl refl

delete_forgets_example :
    let db' = (append_op 1 2000 removal "content" accepted small_db).0 in
    (current_version 1 "1@m1" "metadata" db' ≡ 0)
    × (version_at 1 "1@m1" "metadata" 1 db' ≡ version_at 1 "1@m1" "metadata" 1 small_db)
unfolding Wire.kind_family is_tombstone_kind
delete_forgets_example =
    delete_forgets 1 2000 1 removal "metadata" small_db small_db-FamiliesOk refl
      (λ e. grind (arith, e, eq_iff "metadata" "content"))

-- The request's header resolves to the enrolled machine.
small_header :
    authenticate toy_hmac "p" (some "Bearer k") small_db
    ≡ some (record { brain_id = 1; machine_id = "m1" })
unfolding authenticate authenticate_token validate_client_token extract_bearer_token drop_spaces
    strip_word after_bearer non_empty take_word all_spaces is_space hash_token
small_header = refl

abbrev raw_edit : Json
raw_edit = obj (
    field "gid" (str "1@m1") (
      field "kind" (str "file.update") (
        field "origin" (str "m1") (
          field "base_version" (num (nat 1))
            (field "created_at" (num (nat 5)) (field "payload" sealed end))))))

post_ops_appends_own_example :
    Extends
      (record { brain_id = 1; machine_id = "m1" })
      small_db.ops
      (post_ops toy_hmac "p" 2000 (some "Bearer k") (some (arr (cons raw_edit nil))) small_db).0.ops
post_ops_appends_own_example =
    post_ops_appends_own toy_hmac "p" 2000 (some "Bearer k") (some (arr (cons raw_edit nil)))
      small_db (record { brain_id = 1; machine_id = "m1" }) small_header

post_ops_refused_example :
    (post_ops toy_hmac "p" 2000 (some "Bearer k") (some (num (nat 1))) small_db).0 ≡ small_db
unfolding post_ops raw_ops authenticate authenticate_token validate_client_token
    extract_bearer_token drop_spaces strip_word after_bearer non_empty take_word all_spaces is_space
    hash_token
post_ops_refused_example =
    post_ops_refused toy_hmac "p" 2000 (some "Bearer k") (some (num (nat 1))) small_db
      (λ e. omega (arith, e))

pages_join_example :
    ops_since 1 0 1 small_db ++ ops_since 1 (next_cursor 0 (ops_since 1 0 1 small_db)) 5 small_db
    ≡ ops_since 1 0 6 small_db
pages_join_example = pages_join 1 0 1 5 small_db (omega arith, omega arith)
