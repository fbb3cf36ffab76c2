-- ===== src/Tests/Bootstrap.antt =====
-- A machine that takes over a brain of two files (packages/core/src/storage/bootstrap.ts).
use kontexta.Sync.Op.{kind_name, kind_of_name, parse_op}
use kontexta.Sync.Bootstrap.Record.{process_record}
use kontexta.Sync.Bootstrap.Paged.{
  Following, times, at_once, bootstrap_pages, last_page, more_pages,
}
use kontexta.Sync.Bootstrap.Interrupted.{bootstrap_interrupted}
use kontexta.Base.{
  ℕ, suc, String, ◌≡◌, refl, true, false, Option, none, some, List, [], ◌∷◌, ◌++◌, arith,
  if◌then◌else◌, ◌==◌, nat_eq, string_eq,
}
use kontexta.Json.{Json, member, nat, obj, end}
use kontexta.Sync.Apply.{RemoteRow, parse_row, applied}
use kontexta.Sync.Bootstrap.{
  SnapshotStore, SnapshotRow, SnapshotEntry, SnapshotReply, Boot, BootEnd, saved_vars, page,
  applied_one, completed,
}
use kontexta.Sync.Bootstrap.Loop.{handle_record, boot_mode, bootstrap_if_needed}
use kontexta.Sync.Bootstrap.Cursor.{ClosedAt, bootstrap_cursor}

-- The files are their number.
abbrev counted_files : SnapshotStore ℕ
counted_files = record {
  file_count = λ f. f;
  content_hash = λ g f. none;
  has_ref = λ t g f. true;
  apply_remote_op = λ op f. applied (suc f);
  merge_or_fork = λ op seq f. applied (f, true);
}

abbrev file_record : String → SnapshotRow
file_record g = record {
  row = record {
    seq = some 5;
    gid = some g;
    kind = some "file.update";
    origin = some "m2";
    base_version = some none;
    payload = obj end;
    created_at = some (nat 1);
    gid_version = none;
    status = none;
  };
  version = none;
  deleted = false;
}

abbrev file_entry : String → SnapshotEntry
file_entry g = record { gid = g; records = file_record g ∷ []; conflicts = [] }

abbrev plain : RemoteRow → Option Json
plain r = some r.payload

abbrev no_hash : String → String
no_hash text = text

abbrev joined : Boot ℕ
joined = record {
  files = 1;
  local = record { outbox = []; outbox_seq = 0; gid_versions = [] };
  skipped_ops = [];
  sync_cursor = 2;
  pending = true;
  saved_after = none;
  saved_latest = none;
  saved_deferred = none;
}

abbrev first_page : SnapshotReply
first_page = page (file_entry "1@m2" ∷ []) true (some 9)

abbrev final_page : SnapshotReply
final_page = page (file_entry "2@m2" ∷ []) false (some 12)

abbrev halfway : Boot ℕ
halfway = record joined { files = 2; saved_after = some "1@m2"; saved_latest = some 9 }

boot : List (String → SnapshotReply) → Boot ℕ → BootEnd ℕ
boot = bootstrap_if_needed counted_files no_hash (some plain) true

whole_run :
    boot ((λ a. first_page) ∷ (λ a. final_page) ∷ []) joined
    ≡ completed
        (record joined { files = 3; sync_cursor = 9; pending = false })
        (applied_one ∷ applied_one ∷ [])
unfolding boot bootstrap_if_needed boot_mode handle_record parse_row kind_of_name parse_op
    process_record kind_name member
whole_run = refl

abbrev two_pages : String → SnapshotReply
two_pages after = if after == "" then first_page else final_page

abbrev both_entries : List SnapshotEntry
both_entries = file_entry "1@m2" ∷ file_entry "2@m2" ∷ []

two_pages-Following : Following two_pages 2 "" both_entries
two_pages-Following =
    more_pages 1 "" "1@m2" (file_entry "1@m2" ∷ []) (file_entry "2@m2" ∷ []) 9 refl refl
      (last_page "1@m2" (file_entry "2@m2" ∷ []) 12 refl)

bootstrap_pages_example :
    bootstrap_if_needed counted_files no_hash (some plain) true (times 2 two_pages) joined
    ≡ bootstrap_if_needed counted_files no_hash
        (some plain)
        true
        (at_once two_pages both_entries)
        joined
unfolding saved_vars
bootstrap_pages_example =
    bootstrap_pages counted_files no_hash plain two_pages 2 both_entries joined two_pages-Following

bootstrap_interrupted_example :
    (xs : List SnapshotEntry) × ((ys : List SnapshotEntry) × ((both_entries ≡ xs ++ ys)
        × Following two_pages 1 "1@m2" ys
        × (bootstrap_if_needed counted_files no_hash (some plain) true (times 1 two_pages) halfway
            ≡ bootstrap_if_needed counted_files no_hash
                (some plain)
                true
                (at_once two_pages ys)
                halfway)))
unfolding bootstrap_if_needed boot_mode handle_record parse_row kind_of_name parse_op process_record
    kind_name member
bootstrap_interrupted_example =
    bootstrap_interrupted counted_files no_hash plain two_pages 1 1 both_entries joined halfway
      (omega arith) two_pages-Following refl

bootstrap_cursor_example : ClosedAt 9 joined (
    bootstrap_if_needed counted_files no_hash
      (some plain)
      true
      ((λ a. first_page) ∷ (λ a. final_page) ∷ [])
      joined)
bootstrap_cursor_example =
    bootstrap_cursor counted_files no_hash plain 9 (file_entry "1@m2" ∷ []) true (λ a. first_page)
      ((λ a. final_page) ∷ []) joined refl refl refl
