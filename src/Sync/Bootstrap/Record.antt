-- ===== src/Sync/Bootstrap/Record.antt =====
-- `processRecord` of packages/core/src/storage/bootstrap.ts: one record of a snapshot.
use kontexta.Base.{
  ℕ, String, Bool, true, false, not, ◌&&◌, ◌||◌, Option, none, some, List, [], ◌∷◌, ◌++◌,
  if◌then◌else◌, ◌==◌, nat_eq, string_eq,
}
use kontexta.Json.{Json, member, null, str, obj}
use kontexta.Sync.Op.{kind_family, Op}
use kontexta.Sync.Outbox.{record_gid_version}
use kontexta.Sync.Apply.{SkipRow, Outcome, applied, refused}
use kontexta.Sync.Bootstrap.{
  BootstrapMode, RefTable, SnapshotStore, Boot, Vars, Tick, Step, went_on, threw, is_content_op,
  merge, projects, calendar_entities, applied_one, forked_one, skipped_one,
}

pub record_skip : SkipRow → List SkipRow → List SkipRow
record_skip new [] = new ∷ []
record_skip new (r ∷ rs) =
    if r.seq == new.seq
    then record r { error = new.error; skipped = true } ∷ rs
    else r ∷ record_skip new rs

pub text_of : Option Json → String
text_of (some (str s)) = s
text_of _ = ""

-- The hash of the remote content; `none` is the error on reading a field of `null`.
unfoldable pub remote_hash_of : (String → String) → Json → Option String
unfolding text_of
remote_hash_of sha256 null = none
remote_hash_of sha256 (obj o) = elim (member "content_hash" o) [
  | some (str h) ↦ some h
  | _ ↦ some (sha256 (text_of (member "content" o)))
]
remote_hash_of sha256 _ = some (sha256 "")

abbrev pub is_hash : Option String → String → Bool
is_hash none h = false
is_hash (some g) h = g == h

module _ {ℓ} {F : Type ℓ} (store : SnapshotStore F) where
  abbrev lacks : RefTable → F → Option Json → Bool
  lacks table files (some (str g)) = not (g == "") && not (store.has_ref table g files)
  lacks table files _ = false

  -- `none` where reading the payload fails
  unfoldable pub depends_on_missing : F → Json → Option Bool
  depends_on_missing files null = none
  depends_on_missing files (obj o) = some (
      lacks projects files (member "project_gid" o)
      || (lacks calendar_entities files (member "entity_gid" o)
          || (lacks calendar_entities files (member "from_entity_gid" o)
              || lacks calendar_entities files (member "to_entity_gid" o))))
  depends_on_missing files _ = some false

  abbrev skip_op : ℕ → Op → String → Boot F → Boot F
  skip_op seq op error s = record s {
    skipped_ops =
        record_skip (record { seq = seq; op = op; error = error; attempts = 1; skipped = true })
          s.skipped_ops;
  }

  abbrev see_version : Op → Option ℕ → Boot F → Boot F
  see_version op none s = s
  see_version op (some n) s = record s {
    local = record_gid_version op.gid (kind_family op.kind) n s.local;
  }

  -- The end of `processRecord` after the attempt.
  abbrev pub settle : Op → ℕ → Option ℕ → Vars → Boot F → Outcome (F × List Tick) → Step F
  settle op seq version v s (applied (files, ts)) =
      went_on v (see_version op version (record s { files = files })) ts
  settle op seq version v s (refused (files, ts) true error) =
      went_on v (see_version op version (skip_op seq op error (record s { files = files })))
        (skipped_one ∷ [])
  settle op seq version v s (refused (files, ts) false error) = threw (record s { files = files })

  abbrev ticked_apply : Outcome F → Outcome (F × List Tick)
  ticked_apply (applied files) = applied (files, applied_one ∷ [])
  ticked_apply (refused files u e) = refused (files, []) u e

  abbrev ticked_fork : Outcome (F × Bool) → Outcome (F × List Tick)
  ticked_fork (applied (files, true)) = applied (files, forked_one ∷ [])
  ticked_fork (applied (files, false)) = applied (files, applied_one ∷ [])
  ticked_fork (refused (files, _) u e) = refused (files, []) u e

  -- The local row of a file, where the op is on a content.
  abbrev pub local_file : Op → F → Option (Option String)
  local_file op files = if is_content_op op.kind then store.content_hash op.gid files else none

  abbrev merge_hashed : Op → ℕ → Option String → Option String → F → Outcome (F × List Tick)
  merge_hashed op seq hash none files = refused (files, []) false ""
  merge_hashed op seq hash (some remote) files =
      if is_hash hash remote
      then applied (files, [])
      else ticked_fork (store.merge_or_fork op (some seq) files)

  module _ (sha256 : String → String) (mode : BootstrapMode) where
    abbrev pub attempt :
        Op → ℕ → Option (Option String) → F → BootstrapMode → Outcome (F × List Tick)
    attempt op seq (some hash) files merge =
        merge_hashed op seq hash (remote_hash_of sha256 op.payload) files
    attempt op seq _ files _ = ticked_apply (store.apply_remote_op op files)

    -- `processRecord` in the final pass
    unfoldable pub process_now : Op → ℕ → Option ℕ → Vars → Boot F → Step F
    unfolding remote_hash_of record_skip
    process_now op seq version v s =
        settle op seq version v s (attempt op seq (local_file op s.files) s.files mode)

    abbrev pub defer_op : Op → ℕ → Option ℕ → Vars → Boot F → Step F
    defer_op op seq version v s =
        let waiting = v.deferred ++ record { op = op; seq = seq; version = version } ∷ [] in
        went_on (record v { deferred = waiting }) (record s { saved_deferred = some waiting }) []

    abbrev pub process_unless : Option Bool → Op → ℕ → Option ℕ → Vars → Boot F → Step F
    process_unless none op seq version v s = threw s
    process_unless (some true) op seq version v s = defer_op op seq version v s
    process_unless (some false) op seq version v s = process_now op seq version v s

    -- `processRecord` outside the final pass
    unfoldable pub process_record : Op → ℕ → Option ℕ → Vars → Boot F → Step F
    unfolding depends_on_missing process_now
    process_record op seq version v s =
        process_unless (depends_on_missing s.files op.payload) op seq version v s
