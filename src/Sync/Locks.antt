-- ===== src/Sync/Locks.antt =====
-- packages/core/src/storage/locks.ts: the advisory locks of the processes that share one database.
-- An immediate transaction runs alone, so acquiring is one function on the table `sync_locks`; the
-- branch for a failed INSERT, which the transaction excludes, has no counterpart.
pub mod Exclusion
pub mod Waiting
use kontexta.Base.{
  ℕ, zero, suc, ◌+◌, ◌-◌, min, max, String, Bool, false, ◌&&◌, Option, none, some, List, [], ◌∷◌,
  ◌++◌, ltb, leb, if◌then◌else◌, ◌==◌, find_row, count_rows, update_rows, delete_rows, nat_eq,
  string_eq,
}

-- A row of `sync_locks`.
pub record LockRow : Type 0 where
  pub gid : String
  pub pid : ℕ
  pub token : String
  pub expires_at : ℕ

pub record SyncLockHandle : Type 0 where
  pub gid : String
  pub token : String

abbrev pub default_sync_lock_lease_ms : ℕ
default_sync_lock_lease_ms = 30000

abbrev pub locks_gid : String → LockRow → Bool
locks_gid g r = r.gid == g

abbrev claim :
    String → ℕ → String → ℕ → List LockRow → Option LockRow → List LockRow × Option SyncLockHandle
claim g pid token expires_at rows none = (
  rows ++ record { gid = g; pid = pid; token = token; expires_at = expires_at } ∷ [],
  some (record { gid = g; token = token }),
)
claim g pid token expires_at rows (some r) = (
  update_rows (locks_gid g) (λ q. record q { pid = pid; token = token; expires_at = expires_at })
      rows,
  some (record { gid = g; token = token }),
)

abbrev is_live : ℕ → Option LockRow → Bool
is_live now none = false
is_live now (some r) = ltb now r.expires_at

unfoldable pub acquire_sync_lock :
    String → ℕ → String → ℕ → ℕ → List LockRow → List LockRow × Option SyncLockHandle
acquire_sync_lock g pid token now lease_ms rows =
    let existing = find_row (locks_gid g) rows in
    if is_live now existing then (rows, none) else claim g pid token (now + lease_ms) rows existing

abbrev pub locks_handle : SyncLockHandle → LockRow → Bool
locks_handle h r = r.gid == h.gid && r.token == h.token

unfoldable pub release_sync_lock : SyncLockHandle → List LockRow → List LockRow × Bool
release_sync_lock h rows =
    (delete_rows (locks_handle h) rows, ltb 0 (count_rows (locks_handle h) rows))

unfoldable pub is_sync_lock_held : String → ℕ → List LockRow → Bool
is_sync_lock_held g now rows = is_live now (find_row (locks_gid g) rows)

-- What one turn of the polling loop meets: the clock and the table when it tries the lock, the clock
-- when it looks at the time that has passed, and the random milliseconds that it adds.
pub record Turn : Type 0 where
  pub now : ℕ
  pub rows : List LockRow
  pub checked : ℕ
  pub jitter : ℕ

pub data Waited : Type 0 where
  timed_out : (elapsed : ℕ) → Waited
  got_lock : SyncLockHandle → List LockRow → Waited

pub record WithSyncLockOptions : Type 0 where
  pub lease_ms : ℕ
  pub timeout_ms : ℕ
  pub retry_interval_ms : ℕ

abbrev pub default_options : WithSyncLockOptions
default_options = record {
  lease_ms = default_sync_lock_lease_ms;
  timeout_ms = 10000;
  retry_interval_ms = 20;
}

unfoldable pub sleep_ms : WithSyncLockOptions → ℕ → Turn → ℕ
sleep_ms opts start t =
    let elapsed = t.checked - start in
    min (opts.retry_interval_ms + t.jitter) (max 1 (opts.timeout_ms - elapsed))

abbrev pub after_try :
    ℕ → ℕ → ℕ → Option Waited → List LockRow × Option SyncLockHandle → Option Waited
after_try timeout start checked rest (rows, some h) = some (got_lock h rows)
after_try timeout start checked rest (rows, none) =
    if leb timeout (checked - start) then some (timed_out (checked - start)) else rest

-- The loop, where `turns` has the turns from turn i on; `none` means that the fuel ran out.
unfoldable pub wait_for_lock :
    WithSyncLockOptions → String → ℕ → String → ℕ → (ℕ → Turn) → ℕ → ℕ → Option Waited
wait_for_lock opts g pid token start turns zero i = none
wait_for_lock opts g pid token start turns (suc fuel) i =
    let t = turns i in
    after_try opts.timeout_ms start t.checked
      (wait_for_lock opts g pid token start turns fuel (suc i))
      (acquire_sync_lock g pid token t.now opts.lease_ms t.rows)

-- `fn` runs on the table and may change it; its value tells whether it threw. The lock is released
-- in both cases.
pub data Guarded {ℓ} (A : Type ℓ) : Type ℓ where
  lock_timeout : (elapsed : ℕ) → Guarded A
  ran : A → List LockRow → Guarded A

abbrev run_held {ℓ} : {A : Type ℓ} → (List LockRow → List LockRow × A) → Waited → Guarded A
run_held fn (timed_out elapsed) = lock_timeout elapsed
run_held fn (got_lock h rows) = let (rows', a) = fn rows in ran a (release_sync_lock h rows').0

unfoldable pub with_sync_lock {ℓ} :
    {A : Type ℓ} → (List LockRow → List LockRow × A) → Option Waited → Option (Guarded A)
unfolding release_sync_lock
with_sync_lock fn none = none
with_sync_lock fn (some w) = some (run_held fn w)
