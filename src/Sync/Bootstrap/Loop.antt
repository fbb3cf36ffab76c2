-- ===== src/Sync/Bootstrap/Loop.antt =====
-- `bootstrapIfNeeded` of packages/core/src/storage/bootstrap.ts: the pages of a snapshot.
use kontexta.Base.{
  ℕ, String, Bool, true, false, not, ◌||◌, Option, none, some, List, [], ◌∷◌, if◌then◌else◌, ◌==◌,
  nat_eq, string_eq,
}
use kontexta.Json.{Json, member, null, str, obj}
use kontexta.Sync.Op.{Op}
use kontexta.Sync.Apply.{Outcome, RemoteRow, parse_row, applied, refused}
use kontexta.Sync.Bootstrap.{
  BootstrapMode, SnapshotStore, SnapshotRow, SnapshotEntry, SnapshotReply, no_page, page, Deferred,
  Boot, Vars, Step, went_on, threw, BootEnd, completed, add_ticks, close, or_default, ◌>>=◌,
  saved_vars, empty, merge, forked_one, skipped_one, stopped_midway, request_failed, awaiting,
  not_needed, no_key,
}
use kontexta.Sync.Bootstrap.Record.{is_hash, local_file, process_now, process_record}

module _ {ℓ} {F : Type ℓ} (store : SnapshotStore F) where
  module _ (sha256 : String → String) (decrypt : RemoteRow → Option Json)
      (mode : BootstrapMode) where
    abbrev pub record_op : Option Op → Option ℕ → Option ℕ → Vars → Boot F → Step F
    record_op none seq version v s = went_on v s (skipped_one ∷ [])
    record_op (some op) seq version v s =
        process_record store sha256 mode op (or_default seq 0) version v s

    -- `toOp`; the base version of a row is not read.
    abbrev pub to_op : RemoteRow → Json → Option Op
    to_op r payload = parse_row (record r { base_version = some none }) payload

    abbrev pub record_with : SnapshotRow → Option Json → Vars → Boot F → Step F
    record_with r none v s = threw s
    record_with r (some payload) v s = record_op (to_op r.row payload) r.row.seq r.version v s

    unfoldable pub handle_record : SnapshotRow → Vars → Boot F → Step F
    unfolding or_default
    handle_record r v s = if r.deleted then went_on v s [] else record_with r (decrypt r.row) v s

    unfoldable pub handle_records : List SnapshotRow → Vars → Boot F → Step F
    handle_records [] v s = went_on v s []
    handle_records (r ∷ rs) v s = handle_record r v s >>= handle_records rs

    -- `typeof hash === "string" && hash === local.content_hash`; `none` is the error on `null`.
    abbrev pub names_hash : Option String → Json → Option Bool
    names_hash hash null = none
    names_hash hash (obj o) = elim (member "content_hash" o) [
      | some (str h) ↦ some (is_hash hash h)
      | _ ↦ some false
    ]
    names_hash hash _ = some false

    abbrev pub settle_fork : Vars → Boot F → Outcome (F × Bool) → Step F
    settle_fork v s (applied (files, forked)) =
        went_on v (record s { files = files }) (if forked then forked_one ∷ [] else [])
    settle_fork v s (refused (files, _) true e) =
        went_on v (record s { files = files }) (skipped_one ∷ [])
    settle_fork v s (refused (files, _) false e) = threw (record s { files = files })

    abbrev pub fork_unless : Option Bool → Op → Option ℕ → Vars → Boot F → Step F
    fork_unless none op seq v s = threw s
    fork_unless (some true) op seq v s = went_on v s []
    fork_unless (some false) op seq v s = settle_fork v s (store.merge_or_fork op seq s.files)

    abbrev pub conflict_local : Op → Option ℕ → Vars → Boot F → Option (Option String) → Step F
    conflict_local op seq v s none = went_on v s []
    conflict_local op seq v s (some hash) = fork_unless (names_hash hash op.payload) op seq v s

    abbrev pub conflict_op : Option ℕ → Vars → Boot F → Option Op → Step F
    conflict_op seq v s none = went_on v s []
    conflict_op seq v s (some op) = conflict_local op seq v s (local_file store op s.files)

    abbrev pub conflict_with : SnapshotRow → Vars → Boot F → Option Json → Step F
    conflict_with r v s none = threw s
    conflict_with r v s (some payload) = conflict_op r.row.seq v s (to_op r.row payload)

    unfoldable pub handle_conflicts : List SnapshotRow → Vars → Boot F → Step F
    handle_conflicts [] v s = went_on v s []
    handle_conflicts (r ∷ rs) v s = conflict_with r v s (decrypt r.row) >>= handle_conflicts rs

    abbrev pub pass_gid : String → Vars → Boot F → Step F
    pass_gid g v s = went_on (record v { after = g }) (record s { saved_after = some g }) []

    unfoldable pub handle_entries : List SnapshotEntry → Vars → Boot F → Step F
    unfolding handle_records handle_conflicts
    handle_entries [] v s = went_on v s []
    handle_entries (e ∷ es) v s =
        handle_records e.records v s
        >>= handle_conflicts e.conflicts
        >>= pass_gid e.gid
        >>= handle_entries es

    -- The cursor of the first page of the whole bootstrap.
    abbrev pub note_latest : Option ℕ → Vars → Boot F → Option ℕ → Vars × Boot F
    note_latest (some n) v s none = (record v { latest = n }, record s { saved_latest = some n })
    note_latest _ v s _ = (v, s)

    unfoldable pub handle_page : List SnapshotEntry → Option ℕ → Vars → Boot F → Step F
    unfolding handle_entries
    handle_page es latest_seq v s =
        let (v', s') = note_latest latest_seq v s s.saved_latest in handle_entries es v' s'

    -- The final pass over the ops that waited.
    unfoldable pub final_pass : List Deferred → Vars → Boot F → Step F
    final_pass [] v s = went_on v s []
    final_pass (d ∷ ds) v s =
        process_now store sha256 mode d.op d.seq d.version v s >>= final_pass ds

    abbrev pub finish_with : Step F → BootEnd F
    finish_with (threw s) = stopped_midway s
    finish_with (went_on v s ts) = completed (close v.latest s) ts

    abbrev pub finish : Vars → Boot F → BootEnd F
    finish v s = finish_with (final_pass v.deferred (record v { deferred = [] }) s)

    abbrev pub after_page : Bool → (Vars → Boot F → BootEnd F) → Step F → BootEnd F
    after_page more rest (threw s) = stopped_midway s
    after_page true rest (went_on v s ts) = add_ticks ts (rest v s)
    after_page false rest (went_on v s ts) = add_ticks ts (finish v s)

    abbrev pub on_reply : (Vars → Boot F → BootEnd F) → Vars → Boot F → SnapshotReply → BootEnd F
    on_reply rest v s no_page = request_failed s
    on_reply rest v s (page es more latest_seq) =
        after_page more rest (handle_page es latest_seq v s)

    -- What each request gets is a function of its `after`.
    unfoldable pub boot_loop : List (String → SnapshotReply) → Vars → Boot F → BootEnd F
    unfolding handle_page final_pass
    boot_loop [] v s = awaiting
    boot_loop (r ∷ rs) v s = on_reply (boot_loop rs) v s (r v.after)

  unfoldable pub boot_mode : Boot F → BootstrapMode
  boot_mode s = if store.file_count s.files == 0 then empty else merge

  unfoldable pub bootstrap_if_needed :
      (String → String)
      → Option (RemoteRow → Option Json)
      → Bool
      → List (String → SnapshotReply)
      → Boot F
      → BootEnd F
  unfolding boot_loop saved_vars boot_mode
  bootstrap_if_needed sha256 key connected replies s =
      if not connected || not s.pending then not_needed else (elim key [
        | none ↦ no_key
        | some decrypt ↦ boot_loop sha256 decrypt (boot_mode s) replies (saved_vars s) s
      ])
