-- ===== src/Tests/Conflicts.antt =====
-- One conflict on a small machine, and the texts of gids and share ids (packages/core/src/storage and
-- identity).
use kontexta.Base.{
  ℕ, zero, suc, ◌≡◌, refl, ◌⊎◌, none, some, List, [], ◌∷◌, arith, select, count_rows, update_rows,
  All,
}
use kontexta.Sync.Op.{format_gid, parse_gid, parse_op}
use kontexta.Sync.Op.GidRoundTrip.{separators, parse-format}
use kontexta.Sync.ShareId.{format_share_id, parse_share_id}
use kontexta.Sync.ShareId.Blocks.{IsByte}
use kontexta.Sync.ShareId.RoundTrip.{parse-format_share_id}
use kontexta.Json.{nat}
use kontexta.Sync.Outbox.{clear_lost_push, enqueue_op}
use kontexta.Sync.CopyName.{Env}
use kontexta.Sync.Conflicts.{
  ConflictRecord, FileRow, State, read_file, has_gid, is_open, conflict_id, unresolved, keep_mine,
  keep_both, content,
}
use kontexta.Sync.Conflicts.Resolve.{
  ResolveConflictOptions, ResolveConflictResult, Resolution, parse_strategy, settle_row,
  needs_content, done, threw,
}
use kontexta.Sync.Conflicts.Engine.{resolve_content, last_open, resolve_conflict}
use kontexta.Sync.Conflicts.Ended.{resolve_conflict_ends, resolve_conflict_throws}
use kontexta.Sync.Conflicts.Unique.{OneOpen, one_unresolved, resolved_with, start, after}
use kontexta.Sync.Conflicts.Agree.{decided_text, HasHash, Publishes, resolve_content_agrees}

abbrev small_env : Env
small_env = record {
  dirname = λ p. "";
  extname = λ p. "";
  basename = λ p ext. p;
  join = λ d b. b;
  sha256 = λ t. t;
  to_rel_path = λ p. some p;
  resolve_sync_path = λ p r. some "a.md";
}

abbrev parked : ConflictRecord
parked = record {
  id = 1;
  gid = "7@m1";
  file_path = "a.md";
  conflict_path = "a (from m2).md";
  origin = "m2";
  origin_label = none;
  base_version = some 3;
  server_seq = none;
  local_content = "mine";
  remote_content = "theirs";
  status = unresolved;
  resolution = none;
  resolved_at = none;
  created_at = nat 5;
  conflict_kind = content;
}

abbrev own_row : FileRow
own_row = record {
  id = 7;
  path = "a.md";
  title = "A";
  project_id = none;
  storage_type = "local";
  content_class = none;
  content_hash = some "mine";
  gid = some "7@m1";
}

abbrev small : State
small = record {
  disk =
      record { path = "a.md"; content = "newer" }
      ∷ record { path = "a (from m2).md"; content = "theirs" }
      ∷ [];
  files = own_row ∷ [];
  files_seq = 7;
  fts_index = [];
  projects = [];
  clients = [];
  conflicts = parked ∷ [];
  conflicts_seq = 1;
  local = record { outbox = []; outbox_seq = 0; gid_versions = [] };
}

abbrev take_mine : ResolveConflictOptions
take_mine = record { strategy = "keep-mine"; merged_content = none }

abbrev take_none : ResolveConflictOptions
take_none = record { strategy = "merged"; merged_content = none }

abbrev state_of : Resolution → State
state_of (done t r) = t
state_of (threw t e) = t

abbrev result_of : Resolution → ResolveConflictResult
result_of (done t r) = r
result_of (threw t e) = record {
  gid = "";
  strategy = keep_both;
  resolved_at = 0;
  outbox_op_id = none;
  new_file_gid = none;
}

abbrev mine_taken : Resolution
mine_taken = resolve_conflict small_env "m1" 9 "7@m1" take_mine small

abbrev mine_written : Resolution
mine_written = resolve_content small_env "m1" parked keep_mine none 9 small

resolve_conflict_ends_example :
    (count_rows (is_open "7@m1") (state_of mine_taken).conflicts ≡ 0)
    × ((c : ConflictRecord) × (last_open "7@m1" small.conflicts ≡ some c)
        × ((state_of mine_taken).conflicts
            ≡ update_rows
                (conflict_id c.id)
                (settle_row (result_of mine_taken).strategy 9)
                small.conflicts))
unfolding resolve_conflict parse_strategy enqueue_op parse_op
resolve_conflict_ends_example =
    resolve_conflict_ends small_env "m1" 9 "7@m1" take_mine small (state_of mine_taken)
      (result_of mine_taken) refl (omega arith)

resolve_conflict_throws_example :
    (small ≡ small)
    ⊎ (record small { disk = small.disk }
        ≡ record small { local = clear_lost_push "7@m1" small.local })
unfolding resolve_conflict parse_strategy last_open
resolve_conflict_throws_example =
    resolve_conflict_throws small_env "m1" 9 "7@m1" take_none small small needs_content refl

resolve_content_agrees_example :
    (read_file "a.md" (state_of mine_written).disk
      ≡ some (decided_text parked keep_mine none small.disk))
    × ((read_file "a (from m2).md" (state_of mine_written).disk ≡ none)
        × (All
              (HasHash (decided_text parked keep_mine none small.disk))
              (select (has_gid "7@m1") (state_of mine_written).files)
            × Publishes small_env parked
                (decided_text parked keep_mine none small.disk)
                small
                (state_of mine_written)
                (result_of mine_written).outbox_op_id))
unfolding resolve_content enqueue_op parse_op
resolve_content_agrees_example =
    resolve_content_agrees small_env "m1" parked keep_mine none 9 small (state_of mine_written)
      (result_of mine_written) (λ e. grind (arith, e)) refl refl

one_unresolved_example : OneOpen (state_of mine_taken)
unfolding resolve_conflict parse_strategy enqueue_op parse_op
one_unresolved_example =
    one_unresolved small_env "m1" small (state_of mine_taken)
      (after small small (state_of mine_taken) (start small)
        (resolved_with 9 "7@m1" take_mine small (state_of mine_taken) (result_of mine_taken) refl))
      (λ g. ground arith)

parse-format_example :
    (parse_gid (format_gid 1205 "m1") ≡ some (record { local_id = 1205; machine_id = "m1" }))
    × (separators (format_gid 1205 "m1") ≡ 1)
unfolding separators
parse-format_example = parse-format 1205 "m1" (omega arith) refl refl

abbrev sample_bytes : ℕ → List ℕ
sample_bytes zero = 7 ∷ []
sample_bytes (suc n) = 200 ∷ sample_bytes n

sample_bytes-All : (n : ℕ) → All IsByte (sample_bytes n)
sample_bytes-All zero = (omega arith, tt)
sample_bytes-All (suc n) = (omega arith, sample_bytes-All n)

parse-format_share_id_example :
    (text : List ℕ) × ((format_share_id (sample_bytes 31) ≡ some text)
      × (parse_share_id text ≡ some (sample_bytes 31)))
parse-format_share_id_example = parse-format_share_id (sample_bytes 31) refl (sample_bytes-All 31)
