-- ===== src/Tests/Snapshot.antt =====
-- Runs of the relay's snapshot.
use kontexta.Base.{ℕ, String, ◌≡◌, refl, false, some, [], ◌∷◌, arith}
use kontexta.Json.{nat, str}
use kontexta.Relay.Tables.{RecordRow, ConflictRow, Db, empty_db}
use kontexta.Relay.TextOrder.{text_before}
use kontexta.Relay.Snapshot.{insert_gid, sort_gids, gids_after, snapshot_page}
use kontexta.Relay.Snapshot.Pages.{follow}
use kontexta.Relay.Snapshot.Pages.Complete.{Brings, snapshot_pages_complete}

abbrev kept : ℕ → String → ℕ → RecordRow
kept b g seq = record {
  brain_id = b;
  gid = g;
  kind = "file.update";
  kind_family = "file";
  version = 1;
  payload = str "sealed";
  origin = "m1";
  deleted = false;
  last_seq = seq;
  updated_at = 7;
}

abbrev parked : ℕ → String → ℕ → ConflictRow
parked b g seq = record {
  brain_id = b;
  seq = seq;
  gid = g;
  kind = "file.update";
  kind_family = "file";
  origin = "m2";
  base_version = some 0;
  payload = str "sealed";
  created_at = nat 7;
}

abbrev three_gids : Db
three_gids = record empty_db {
  records = kept 1 "2@m1" 4 ∷ kept 1 "10@m1" 2 ∷ kept 2 "3@m1" 3 ∷ kept 1 "2@m1" 1 ∷ [];
  conflicts = parked 1 "5@m2" 6 ∷ parked 1 "2@m1" 5 ∷ [];
}

gids_after_runs : gids_after 1 "" three_gids ≡ "10@m1" ∷ "2@m1" ∷ "5@m2" ∷ []
unfolding gids_after sort_gids insert_gid text_before
gids_after_runs = refl

next_runs : (snapshot_page 1 "" 2 three_gids).next ≡ some "2@m1"
unfolding snapshot_page gids_after sort_gids insert_gid text_before
next_runs = refl

snapshot_pages_complete_example : Brings 1 "" three_gids (follow 4 1 "" 2 three_gids)
unfolding gids_after sort_gids insert_gid text_before
snapshot_pages_complete_example =
    snapshot_pages_complete 4 1 "" 2 three_gids (omega arith) (omega arith)
