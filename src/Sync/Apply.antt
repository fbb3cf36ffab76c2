-- ===== src/Sync/Apply.antt =====
-- packages/core/src/storage/client.ts: what `pullRemoteOps` does with one operation. The files and
-- conflict copies of the machine are a type `F` with the operations of `FileStore`.
use kontexta.Base.{
  ℕ, suc, max, String, Bool, true, false, not, ◌&&◌, ◌||◌, Option, none, some, List, [], ◌∷◌, ltb,
  leb, if◌then◌else◌, ◌==◌, find_row, count_rows, delete_rows, nat_eq, string_eq,
}
use kontexta.Json.{JsNumber, Json, member, null, str, obj}
use kontexta.Sync.Op.{OpKind, kind_of_name, Op, parse_op, file_delete}
use kontexta.Sync.Outbox.{OutboxRow, Local, is_acked, clear_lost_push, has_lost_push}
use kontexta.Sync.Push.{is_content_edit}

abbrev pub max_apply_attempts : ℕ
max_apply_attempts = 5

-- A row of `sync_skipped_ops`.
pub record SkipRow : Type 0 where
  pub seq : ℕ
  pub op : Op
  pub error : String
  pub attempts : ℕ
  pub skipped : Bool

-- A failure tells whether it is an `UnappliableOpError`.
pub data Outcome {ℓ} (A : Type ℓ) : Type ℓ where
  applied : A → Outcome A
  refused : (after : A) (unappliable : Bool) (error : String) → Outcome A

-- `content_hash` is the row of `files` with its hash; `null_payload` the text of the error on reading
-- a field of `null`.
pub record FileStore {ℓ} (F : Type ℓ) : Type ℓ where
  pub content_hash : String → F → Option (Option String)
  pub has_unresolved : String → F → Bool
  pub apply_remote_op : Op → F → Outcome F
  pub merge_or_fork : Op → ℕ → F → Outcome F
  pub null_payload : String

pub record Puller {ℓ} (F : Type ℓ) : Type ℓ where
  pub local : Local
  pub sync_cursor : ℕ
  pub skipped_ops : List SkipRow
  pub files : F

-- An entry of `ops` in the reply; a field is `none` where it has not the type that the code asks for.
pub record RemoteRow : Type 0 where
  pub seq : Option ℕ
  pub gid : Option String
  pub kind : Option String
  pub origin : Option String
  pub base_version : Option (Option ℕ)
  pub payload : Json
  pub created_at : Option JsNumber
  pub gid_version : Option ℕ
  pub status : Option String

infixl 5 ◌>>=◌
abbrev ◌>>=◌ {ℓ κ} : {A : Type ℓ} {B : Type κ} → Option A → (A → Option B) → Option B
none >>= f = none
some a >>= f = f a

-- `parseOp` on a row with its decrypted payload
unfoldable pub parse_row : RemoteRow → Json → Option Op
parse_row r payload = do
  gid ← r.gid
  name ← r.kind
  kind ← kind_of_name name
  origin ← r.origin
  base ← r.base_version
  created ← r.created_at
  parse_op (record {
    gid = gid;
    kind = kind;
    origin = origin;
    base_version = base;
    payload = payload;
    created_at = created;
  })

abbrev pub is_conflict : Option String → Bool
is_conflict none = false
is_conflict (some s) = s == "conflict"

-- The hash that a payload names; `none` is the error on `null`.
remote_hash : Json → Option (Option String)
remote_hash null = none
remote_hash (obj o) = elim (member "content_hash" o) [
  | some (str s) ↦ some (some s)
  | _ ↦ some none
]
remote_hash _ = some none

abbrev same_hash : Option String → Option String → Bool
same_hash (some a) (some b) = a == b
same_hash _ _ = false

-- The row of an edit that the server has not acknowledged.
abbrev is_unsent : String → OutboxRow → Bool
is_unsent g r = r.gid == g && (is_content_edit r.kind && not (is_acked r))

module _ {ℓ} {F : Type ℓ} (store : FileStore F) where
  abbrev fork_over : Bool → Op → Puller F → Option String → Option (Option String) → Option Bool
  fork_over conflict op m hash none = none
  fork_over conflict op m hash (some remote) = some (
      not (same_hash remote hash)
      && (conflict
          || (has_lost_push op.gid m.local
              || (ltb 0 (count_rows (is_unsent op.gid) m.local.outbox)
                  || store.has_unresolved op.gid m.files))))

  -- `none` where reading the payload fails.
  pub should_fork_instead_of_apply : Puller F → Op → Bool → Option Bool
  unfolding remote_hash
  should_fork_instead_of_apply m op conflict =
      if is_content_edit op.kind
      then (elim (store.content_hash op.gid m.files) [
        | none ↦ some false
        | some hash ↦ fork_over conflict op m hash (remote_hash op.payload)
      ])
      else some false

  abbrev pub keep_lost : Op → Local → Local
  keep_lost op db = if is_content_edit op.kind then clear_lost_push op.gid db else db

  abbrev pub after_files : (Local → Local) → Puller F → Outcome F → Outcome (Puller F)
  after_files f m (applied files) = applied (record m { files = files; local = f m.local })
  after_files f m (refused files u e) = refused (record m { files = files }) u e

  abbrev pub apply_by : ℕ → Op → Puller F → Option Bool → Outcome (Puller F)
  apply_by seq op m none = refused m false store.null_payload
  apply_by seq op m (some true) =
      after_files (clear_lost_push op.gid) m (store.merge_or_fork op seq m.files)
  apply_by seq op m (some false) = after_files (keep_lost op) m (store.apply_remote_op op m.files)

  abbrev pub is_delete : OpKind → Bool
  is_delete file_delete = true
  is_delete _ = false

  -- What is done with one op; a delete that lost deletes nothing.
  unfoldable pub apply_op : ℕ → Bool → Op → Puller F → Outcome (Puller F)
  unfolding should_fork_instead_of_apply
  apply_op seq conflict op m =
      if conflict && is_delete op.kind
      then applied m
      else apply_by seq op m (should_fork_instead_of_apply m op conflict)

abbrev attempts_of : Option SkipRow → ℕ
attempts_of none = 0
attempts_of (some r) = r.attempts

put_skip : SkipRow → List SkipRow → List SkipRow
put_skip new [] = new ∷ []
put_skip new (r ∷ rs) =
    if r.seq == new.seq
    then record r { error = new.error; attempts = new.attempts; skipped = new.skipped } ∷ rs
    else r ∷ put_skip new rs

module _ {ℓ} {F : Type ℓ} where
  unfoldable pub clear_apply_failure : ℕ → Puller F → Puller F
  clear_apply_failure seq m = record m {
    skipped_ops = delete_rows (λ r. r.seq == seq && not r.skipped) m.skipped_ops;
  }

  unfoldable pub record_apply_failure : ℕ → Op → Bool → String → Puller F → Puller F × Bool
  unfolding put_skip
  record_apply_failure seq op unappliable error m =
      let attempts = suc (attempts_of (find_row (λ r. r.seq == seq) m.skipped_ops)) in
      let skip = unappliable || leb max_apply_attempts attempts in
      (
        record m {
          skipped_ops =
              put_skip
                (record { seq = seq; op = op; error = error; attempts = attempts; skipped = skip })
                m.skipped_ops;
        },
        skip,
      )

  unfoldable pub advance_sync_cursor : ℕ → Puller F → Puller F
  advance_sync_cursor seq m = record m { sync_cursor = max m.sync_cursor seq }
