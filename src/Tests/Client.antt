-- ===== src/Tests/Client.antt =====
-- A machine (packages/core/src/storage, apps/mcp/src/hands) on a queue of two edits.
use kontexta.Base.{
  ℕ, ◌≤◌, min, ◌≡◌, refl, Option, none, some, List, [], ◌∷◌, map, arith, eq_iff, All,
}
use kontexta.Json.{nat, null}
use kontexta.Relay.Tables.{empty_db}
use kontexta.Relay.Store.{max_version, current_version}
use kontexta.Relay.Ops.{post_batch}
use kontexta.Sync.Op.{OpKind, file_create, file_update}
use kontexta.Sync.Outbox.{OutboxRow, Local, pending}
use kontexta.Sync.Outbox.Edits.{edits, acks}
use kontexta.Sync.Backoff.{backoff_delay}
use kontexta.Sync.Backoff.Bounds.{backoff_delay_bounds}
use kontexta.Sync.Push.{Wire, wire_rows, to_server, Reply, result_for, push_outbox, results, ready}
use kontexta.Sync.Push.Accepted.{IsKept, own_batch_accepted}
use kontexta.Sync.Push.Custody.{push_outbox_keeps_edits, push_outbox-acks_answered}
use kontexta.Sync.Locks.{LockRow, acquire_sync_lock}
use kontexta.Sync.Locks.Exclusion.{
  Processes, after_acquire, LockRun, lock_exclusive, acquires, stops, steps,
}
use kontexta.Journal.Cooldown.{CooldownRow, acquire_cooldown, release_cooldown}
use kontexta.Journal.Cooldown.Held.{acquire_cooldown_excludes}
use kontexta.Hands.Confirm.{PendingEntry, confirm_ttl_ms, consume}
use kontexta.Hands.Confirm.OneShot.{calls, consume_once, stashing}

abbrev queued : ℕ → OpKind → Option ℕ → OutboxRow
queued id kind base = record {
  id = id;
  gid = "1@m1";
  kind = kind;
  origin = "m1";
  base_version = base;
  payload = null;
  created_at = nat 5;
  status = pending;
  attempts = 0;
  next_attempt_at = none;
  last_error = none;
  server_seq = none;
}

abbrev two_rows : List OutboxRow
two_rows = queued 1 file_create none ∷ queued 2 file_update (some 0) ∷ []

abbrev local_db : Local
local_db = record { outbox = two_rows; outbox_seq = 2; gid_versions = [] }

abbrev first_only : List Wire → Reply
first_only ws =
    results (record { client_seq = 1; seq = 7; status = "accepted"; version = some 1 } ∷ [])

backoff_delay_bounds_example :
    (min 1000 60000 ≤ backoff_delay 3 1000 60000) × (backoff_delay 3 1000 60000 ≤ 60000)
backoff_delay_bounds_example = backoff_delay_bounds 3 1000 60000

own_batch_accepted_example :
    All IsKept
      (post_batch 1 5 "m1" (map (to_server (λ p g k o. p)) (wire_rows [] two_rows)) empty_db).1
unfolding current_version max_version
own_batch_accepted_example =
    own_batch_accepted (λ p g k o. p) 1 5 "m1" two_rows empty_db tt (omega arith, (omega arith, tt))

push_outbox_keeps_edits_example :
    edits (push_outbox ready 10 11 first_only local_db).0 ≡ edits local_db
push_outbox_keeps_edits_example = push_outbox_keeps_edits ready 10 11 first_only local_db

push_outbox-acks_answered_example : acks 2 (push_outbox ready 10 11 first_only local_db).0 ≡ []
unfolding result_for
push_outbox-acks_answered_example =
    push_outbox-acks_answered ready 10 11 first_only local_db 2 (λ ws. refl)

abbrev idle : Processes
idle = record { now = 0; table = []; leases = [] }

abbrev first_lease : LockRow
first_lease = record { gid = "1@m1"; pid = 7; token = "t1"; expires_at = 30000 }

-- One process takes the lock and another one is refused it.
contended :
    LockRun idle (after_acquire "1@m1" 8 "t2" 30000 (after_acquire "1@m1" 7 "t1" 30000 idle))
contended = steps (acquires idle "1@m1" 7 "t1" 30000) (
    steps (acquires (after_acquire "1@m1" 7 "t1" 30000 idle) "1@m1" 8 "t2" 30000)
      (stops (after_acquire "1@m1" 8 "t2" 30000 (after_acquire "1@m1" 7 "t1" 30000 idle))))

lock_exclusive_example : first_lease ≡ first_lease
unfolding after_acquire acquire_sync_lock
lock_exclusive_example =
    lock_exclusive idle (after_acquire "1@m1" 8 "t2" 30000 (after_acquire "1@m1" 7 "t1" 30000 idle))
      0 0 first_lease first_lease refl contended refl refl refl refl refl

abbrev held_run : PendingEntry ℕ
held_run = record {
  tool_name = "deploy";
  project_name = "site";
  resolved_argv = "make" ∷ [];
  working_dir = "/srv";
  env = [];
  expires_at = 0;
  execute = 5;
}

consume_once_example :
    (consume "k" 3 (
      calls confirm_ttl_ms
        (stashing "j" 2 held_run ∷ [])
        (consume "k" 1 (("k", held_run) ∷ [])).0)).1
    ≡ none
consume_once_example =
    consume_once confirm_ttl_ms "k" 1 3 (stashing "j" 2 held_run ∷ []) (("k", held_run) ∷ [])
      (refl, tt)

abbrev no_locks : List CooldownRow
no_locks = []

acquire_cooldown_excludes_example :
    let held = (acquire_cooldown "site" 60 "t1" 7 1000 no_locks).0 in
    ((acquire_cooldown "site" 60 "t2" 8 2000 held).1 ≡ none)
    × ((acquire_cooldown "site" 60 "t2" 8 2000 (release_cooldown "site" "t0" held)).1 ≡ none)
unfolding acquire_cooldown
acquire_cooldown_excludes_example =
    acquire_cooldown_excludes "site" "t1" "t0" "t2" 7 8 1000 2000 60 no_locks refl
      (λ e. grind (arith, e, eq_iff "t0" "t1")) (omega arith) (omega arith)
