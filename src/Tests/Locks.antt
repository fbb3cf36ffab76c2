-- ===== src/Tests/Locks.antt =====
-- Runs of the polling for a lock.
use kontexta.Base.{
  ℕ, ◌+◌, ◌*◌, ◌≤◌, ◌≡◌, refl, false, Option, some, List, [], ◌∷◌, arith, count_rows,
}
use kontexta.Sync.Locks.{
  LockRow, acquire_sync_lock, locks_handle, release_sync_lock, is_sync_lock_held, Turn, Waited,
  WithSyncLockOptions, sleep_ms, wait_for_lock, Guarded, with_sync_lock, ran,
}
use kontexta.Sync.Locks.Waiting.{Timers, IsOver, with_sync_lock_ends, with_sync_lock_acquires}

abbrev patient : WithSyncLockOptions
patient = record { lease_ms = 30000; timeout_ms = 100; retry_interval_ms = 20 }

abbrev old_lease : LockRow
old_lease = record { gid = "1@m1"; pid = 7; token = "t1"; expires_at = 1050 }

-- Another process holds the lock until 1050 and does not renew it.
abbrev slow_turns : ℕ → Turn
slow_turns i = record {
  now = 1000 + 40 * i;
  rows = old_lease ∷ [];
  checked = 1001 + 40 * i;
  jitter = 5;
}

abbrev seven : List LockRow → List LockRow × ℕ
seven rows = (rows, 7)

abbrev my_wait : ℕ → Option Waited
my_wait fuel = wait_for_lock patient "1@m1" 8 "t2" 1000 slow_turns fuel 0

with_sync_lock_runs : with_sync_lock seven (my_wait 3) ≡ some (ran 7 [])
unfolding with_sync_lock wait_for_lock acquire_sync_lock release_sync_lock
with_sync_lock_runs = refl

slow-Timers : Timers patient 1000 slow_turns
unfolding sleep_ms
slow-Timers = record { begins = omega arith; checks = λ i. omega arith; sleeps = λ i. omega arith }

with_sync_lock_ends_example :
    (r : Guarded ℕ) × (with_sync_lock seven (my_wait 6) ≡ some r) × IsOver patient "1@m1" "t2" r
with_sync_lock_ends_example =
    with_sync_lock_ends seven patient "1@m1" 8 "t2" 1000 5 slow_turns slow-Timers (omega arith)

lapses : (i now : ℕ) → 1050 ≤ now → is_sync_lock_held "1@m1" now (slow_turns i).rows ≡ false
unfolding is_sync_lock_held
lapses i now h = ground (arith, h)

with_sync_lock_acquires_example :
    (a : ℕ) × (rows : List LockRow) × (with_sync_lock seven (my_wait 6) ≡ some (ran a rows))
    × (count_rows (locks_handle (record { gid = "1@m1"; token = "t2" })) rows ≡ 0)
with_sync_lock_acquires_example =
    with_sync_lock_acquires seven patient "1@m1" 8 "t2" 1000 5 1050 1 slow_turns slow-Timers
      (omega arith) lapses (λ i. omega arith) (omega arith)
