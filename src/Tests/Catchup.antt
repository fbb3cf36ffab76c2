-- ===== src/Tests/Catchup.antt =====
-- A machine that pulls from a server with one operation (packages/core/src/storage/client.ts).
use kontexta.Base.{
  ℕ, suc, ◌<◌, ◌≡◌, refl, sym, inl, inr, false, Option, none, some, [], ◌∷◌, arith, ltb,
  if◌then◌else◌, if-cases,
}
use kontexta.Json.{Json, nat, null}
use kontexta.Sync.Apply.{FileStore, Puller, RemoteRow, applied}
use kontexta.Sync.Pull.{
  Pulling, PullReply, PullResult, handle_row, handle_rows, keep_progress, pull_pages, page,
  refused_row,
}
use kontexta.Sync.Pull.Progress.Closed.{ServesInOrder, pull_fails_closed}
use kontexta.Sync.Pull.Rounds.{LogEnds, pull_pages_ends}

-- The files are the number of operations that were applied.
abbrev counting : FileStore ℕ
counting = record {
  content_hash = λ g f. none;
  has_unresolved = λ g f. false;
  apply_remote_op = λ op f. applied (suc f);
  merge_or_fork = λ op seq f. applied (suc f);
  null_payload = "null";
}

abbrev only_row : RemoteRow
only_row = record {
  seq = some 5;
  gid = some "1@m2";
  kind = some "file.update";
  origin = some "m2";
  base_version = some none;
  payload = null;
  created_at = some (nat 1);
  gid_version = some 1;
  status = some "accepted";
}

abbrev no_key : RemoteRow → Option Json
no_key r = none

abbrev one_op : ℕ → ℕ → PullReply
one_op round cursor = if ltb cursor 5 then page (only_row ∷ []) (some 5) else page [] (some 5)

abbrev fresh_machine : Puller ℕ
fresh_machine = record {
  local = record { outbox = []; outbox_seq = 0; gid_versions = [] };
  sync_cursor = 0;
  skipped_ops = [];
  files = 0;
}

abbrev first_pull : Pulling ℕ
first_pull = record {
  machine = fresh_machine;
  polled = 0;
  applied_ops = 0;
  skipped = 0;
  conflicts = [];
  handled = 0;
}

abbrev stopped_pull : PullResult ℕ
stopped_pull = record {
  state = record first_pull { polled = 1 };
  cursor = 0;
  error = refused_row only_row;
}

one_op-ServesInOrder : ServesInOrder counting no_key "m1" 10 one_op
one_op-ServesInOrder round cursor rows next h =
    elim (if-cases (ltb cursor 5) (page (only_row ∷ []) (some 5)) (page [] (some 5)) _ h) [
      | inl (below, e) ↦
          let same : only_row ∷ [] ≡ rows = cc in rw (sym same) (5, refl, ground arith, tt)
      | inr (above, e) ↦ let same : [] ≡ rows = cc in rw (sym same) tt
    ]

one_op-LogEnds : LogEnds counting no_key "m1" 10 one_op 5
one_op-LogEnds round cursor rows next h =
    elim (if-cases (ltb cursor 5) (page (only_row ∷ []) (some 5)) (page [] (some 5)) _ h) [
      | inl (below, e) ↦ let same : some 5 ≡ next = cc in rw (sym same) (omega arith)
      | inr (above, e) ↦ let same : some 5 ≡ next = cc in rw (sym same) (omega arith)
    ]

pull_fails_closed_example : (s : ℕ) × (some 5 ≡ some s) × (0 < s)
unfolding pull_pages handle_rows handle_row keep_progress
pull_fails_closed_example =
    pull_fails_closed counting no_key "m1" 10 one_op 3 0 first_pull stopped_pull only_row
      one_op-ServesInOrder (omega arith) refl refl

pull_pages_ends_example :
    (r : PullResult ℕ) × (pull_pages counting no_key "m1" 10 one_op 6 0 first_pull ≡ some r)
pull_pages_ends_example =
    pull_pages_ends counting no_key "m1" 10 one_op 5 5 0 first_pull one_op-LogEnds (omega arith)
