-- ===== src/Sync/Outbox.antt =====
-- packages/core/src/storage/outbox.ts and versions.ts: the queue of local operations, and the server
-- versions that this machine has seen.
pub mod Versions
pub mod Marks
pub mod Edits
pub mod Queued
use kontexta.Base.{
  ℕ, suc, max, String, Bool, true, false, not, ◌&&◌, ◌||◌, Option, none, some, List, [], ◌∷◌, ◌++◌,
  map, ltb, if◌then◌else◌, ◌==◌, select, find_row, count_rows, update_rows, nat_eq, string_eq,
}
use mathlib.Core.Option
use kontexta.Json.{JsNumber, Json}
use kontexta.Sync.Op.{OpKind, kind_family, Op, parse_op}

pub data Delivery : Type 0 where
  pending sent acked failed : Delivery

pub record OutboxRow : Type 0 where
  pub id : ℕ
  pub gid : String
  pub kind : OpKind
  pub origin : String
  pub base_version : Option ℕ
  pub payload : Json
  pub created_at : JsNumber
  pub status : Delivery
  pub attempts : ℕ
  pub next_attempt_at : Option ℕ
  pub last_error : Option String
  pub server_seq : Option ℕ

pub record GidVersion : Type 0 where
  pub gid : String
  pub family : String
  pub version : ℕ
  pub lost_push : Bool

-- `outbox_seq` is the counter behind AUTOINCREMENT.
pub record Local : Type 0 where
  pub outbox : List OutboxRow
  pub outbox_seq : ℕ
  pub gid_versions : List GidVersion

abbrev pub is_pending : OutboxRow → Bool
is_pending r = elim r.status [ pending ↦ true | _ ↦ false ]

-- status IN ('pending', 'failed')
abbrev pub is_waiting : OutboxRow → Bool
is_waiting r = elim r.status [ pending ↦ true | failed ↦ true | _ ↦ false ]

abbrev pub is_acked : OutboxRow → Bool
is_acked r = elim r.status [ acked ↦ true | _ ↦ false ]

abbrev pub version_of : Option GidVersion → ℕ
version_of none = 0
version_of (some v) = v.version

abbrev pub version_row : String → String → GidVersion → Bool
version_row g f v = v.gid == g && v.family == f

pub known_gid_version : String → String → Local → ℕ
known_gid_version g f db = version_of (find_row (version_row g f) db.gid_versions)

-- INSERT … ON CONFLICT(gid, family) DO UPDATE
upsert_version : GidVersion → (GidVersion → GidVersion) → List GidVersion → List GidVersion
upsert_version new f [] = new ∷ []
upsert_version new f (v ∷ vs) =
    if version_row new.gid new.family v then f v ∷ vs else v ∷ upsert_version new f vs

pub record_gid_version : String → String → ℕ → Local → Local
unfolding upsert_version
record_gid_version g f n db = record db {
  gid_versions =
      upsert_version (record { gid = g; family = f; version = n; lost_push = false })
        (λ v. record v { version = max v.version n }) db.gid_versions;
}

pub mark_lost_push : String → Local → Local
unfolding upsert_version
mark_lost_push g db = record db {
  gid_versions =
      upsert_version (record { gid = g; family = "content"; version = 0; lost_push = true })
        (λ v. record v { lost_push = true }) db.gid_versions;
}

pub clear_lost_push : String → Local → Local
clear_lost_push g db = record db {
  gid_versions =
      update_rows (version_row g "content") (λ v. record v { lost_push = false }) db.gid_versions;
}

abbrev lost_of : Option GidVersion → Bool
lost_of none = false
lost_of (some v) = v.lost_push

pub has_lost_push : String → Local → Bool
has_lost_push g db = lost_of (find_row (version_row g "content") db.gid_versions)

-- A mutation is based on the version seen now; a create stays `null`.
abbrev base_at_enqueue : Option ℕ → ℕ → Option ℕ
base_at_enqueue none known = none
base_at_enqueue (some b) known = some known

abbrev pub append_row : Option Op → Local → Option (Local × ℕ)
append_row none db = none
append_row (some op) db =
    let id = suc db.outbox_seq in
    some (
      record db {
        outbox =
            db.outbox
            ++ record {
              id = id;
              gid = op.gid;
              kind = op.kind;
              origin = op.origin;
              base_version =
                  base_at_enqueue op.base_version
                    (known_gid_version op.gid (kind_family op.kind) db);
              payload = op.payload;
              created_at = op.created_at;
              status = pending;
              attempts = 0;
              next_attempt_at = none;
              last_error = none;
              server_seq = none;
            }
              ∷ [];
        outbox_seq = id;
      },
      id,
    )

-- `none` is the error on a malformed op.
unfoldable pub enqueue_op : Op → Local → Option (Local × ℕ)
unfolding known_gid_version
enqueue_op op db = append_row (parse_op op) db

pub pending_ops : Local → List OutboxRow
pending_ops db = select is_pending db.outbox

pub pending_count : Local → ℕ
pending_count db = count_rows is_pending db.outbox

pub has_id : List ℕ → OutboxRow → Bool
has_id [] r = false
has_id (i ∷ is) r = i == r.id || has_id is r

pub mark_sent : List ℕ → Local → Local
unfolding has_id
mark_sent ids db = record db {
  outbox =
      update_rows (λ r. has_id ids r && is_waiting r) (λ r. record r { status = sent }) db.outbox;
}

pub mark_acked : ℕ → ℕ → Local → Local
mark_acked id server_seq db = record db {
  outbox =
      update_rows (λ r. id == r.id) (λ r. record r { status = acked; server_seq = some server_seq })
        db.outbox;
}

pub mark_failed : ℕ → String → ℕ → Local → Local
mark_failed id error next_attempt_at db = record db {
  outbox =
      update_rows (λ r. id == r.id && not (is_acked r))
        (λ r. record r {
          status = failed;
          attempts = suc r.attempts;
          next_attempt_at = some next_attempt_at;
          last_error = some error;
        })
        db.outbox;
}

abbrev pub raise_base : OutboxRow → OutboxRow
raise_base r = record r { base_version = Option.map suc r.base_version }

pub bump_pending_bases : String → String → ℕ → Local → Local
bump_pending_bases g f acked_id db = record db {
  outbox =
      update_rows
        (λ r. r.gid == g && (ltb acked_id r.id && (kind_family r.kind == f && is_waiting r)))
        raise_base db.outbox;
}
