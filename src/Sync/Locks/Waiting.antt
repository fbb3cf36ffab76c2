-- ===== src/Sync/Locks/Waiting.antt =====
-- How long `withSyncLock` waits (locks.ts).
use mathlib.Core.Path.{subst}
use native.Mathlib.Decide.{dec_lt}
use native.Mathlib.Nat.{suc-mul}
use kontexta.Base.{
  ℕ, zero, suc, ◌+◌, ◌-◌, ◌*◌, ◌≤◌, ◌<◌, String, ◌≡◌, refl, sym, ap, ◌∙◌, ◌≢◌, ◌⊎◌, inl, inr, Bool,
  false, Option, none, some, List, [], ◌∷◌, arith, leb, ◌==◌, Bool-cases, some-eq, find_row,
  count_rows, delete_rows, nat_eq, string_eq,
}
use kontexta.Sync.Locks.{
  LockRow, SyncLockHandle, locks_gid, claim, is_live, acquire_sync_lock, locks_handle,
  release_sync_lock, is_sync_lock_held, Turn, Waited, timed_out, got_lock, WithSyncLockOptions,
  sleep_ms, after_try, wait_for_lock, Guarded, lock_timeout, ran, with_sync_lock,
}

-- A timer runs no shorter than it was set, and the clock does not go back.
pub record Timers (opts : WithSyncLockOptions) (start : ℕ) (turns : ℕ → Turn) : Type 0 where
  pub begins : start ≤ (turns 0).now
  pub checks : (i : ℕ) → (turns i).now ≤ (turns i).checked
  pub sleeps : (i : ℕ) → (turns i).checked + sleep_ms opts start (turns i) ≤ (turns (suc i)).now

count_rows-delete {ℓ} :
    {A : Type ℓ} (p : A → Bool) (xs : List A) → count_rows p (delete_rows p xs) ≡ 0
count_rows-delete p [] = refl
count_rows-delete p (x ∷ xs) = ground (arith, count_rows-delete p xs)

-- The call gave up no earlier than the timeout, or `fn` ran and the lock is released.
pub IsOver {ℓ} : {A : Type ℓ} → WithSyncLockOptions → String → String → Guarded A → Type 0
IsOver opts g token (lock_timeout elapsed) = opts.timeout_ms ≤ elapsed
IsOver opts g token (ran a rows) =
    count_rows (locks_handle (record { gid = g; token = token })) rows ≡ 0

module _ (opts : WithSyncLockOptions) (g : String) (pid : ℕ) (token : String) (start : ℕ)
    (turns : ℕ → Turn) (timers : Timers opts start turns) where
  sleeps_long :
      (t : Turn)
      → (opts.retry_interval_ms ≤ sleep_ms opts start t)
        ⊎ (opts.timeout_ms - (t.checked - start) ≤ sleep_ms opts start t)
  unfolding sleep_ms
  sleeps_long t = elim (dec_lt (sleep_ms opts start t) opts.retry_interval_ms) [
    | yes lt ↦ inr (omega (arith, lt))
    | no ge ↦ inl (omega (arith, ge))
  ]

  -- Turn i comes no earlier than i intervals after the start, or at the timeout.
  elapses :
      (i : ℕ)
      → (start + i * opts.retry_interval_ms ≤ (turns i).now)
        ⊎ (start + opts.timeout_ms ≤ (turns i).now)
  elapses zero = inl (omega (arith, timers.begins))
  elapses (suc i) =
      let slept = timers.sleeps i in
      let checked = timers.checks i in
      let more = suc-mul i opts.retry_interval_ms in
      elim (elapses i) [
        | inl a ↦ elim (sleeps_long (turns i)) [
          | inl long ↦ inl (omega (arith, a, long, slept, checked, more))
          | inr end ↦ inr (omega (arith, end, slept))
        ]
        | inr b ↦ inr (omega (arith, b, slept, checked))
      ]

  abbrev attempt : ℕ → List LockRow × Option SyncLockHandle
  attempt i = acquire_sync_lock g pid token (turns i).now opts.lease_ms (turns i).rows

  -- The loop ends at one of the turns from i up to n, or goes on behind them.
  data Ending (i n : ℕ) : Option Waited → Type 0 where
    gets :
        (k : ℕ) (h : SyncLockHandle) (rows : List LockRow)
        → k < n
        → (attempt k).1 ≡ some h
        → Ending i n (some (got_lock h rows))
    gives_up :
        (k : ℕ)
        → k < n
        → (attempt k).1 ≡ none
        → opts.timeout_ms ≤ (turns k).checked - start
        → Ending i n (some (timed_out ((turns k).checked - start)))
    runs_on :
        ((k : ℕ) → i ≤ k → k < n → (turns k).checked - start < opts.timeout_ms) → Ending i n none

  one_more :
      (i n : ℕ) (w : Option Waited)
      → (turns i).checked - start < opts.timeout_ms
      → Ending (suc i) n w
      → Ending i n w
  one_more i n _ lt (gets k h rows le e) = gets k h rows le e
  one_more i n _ lt (gives_up k le e late) = gives_up k le e late
  one_more i n _ lt (runs_on f) = runs_on (λ k le b. elim (Bool-cases (k == i)) [
    | inl q ↦
        let same : k ≡ i = ground (arith, q) in
        subst (λ m. (turns m).checked - start < opts.timeout_ms) (sym same) lt
    | inr q ↦ f k (ground (arith, q, le)) b
  ])

  tried :
      (i n : ℕ) (rest : Option Waited) (r : List LockRow × Option SyncLockHandle)
      → i < n
      → attempt i ≡ r
      → Ending (suc i) n rest
      → Ending i n (after_try opts.timeout_ms start (turns i).checked rest r)
  tried i n rest (rows, some h) lt e f = gets i h rows lt (ap (λ p. p.1) e)
  tried i n rest (rows, none) lt e f =
      elim (Bool-cases (leb opts.timeout_ms ((turns i).checked - start))) [
        | inl late ↦ rw late (gives_up i lt (ap (λ p. p.1) e) (ground (arith, late)))
        | inr early ↦ rw early (one_more i n rest (ground (arith, early)) f)
      ]

  wait-Ending :
      (fuel i n : ℕ) → fuel + i ≡ n → Ending i n (wait_for_lock opts g pid token start turns fuel i)
  unfolding wait_for_lock
  wait-Ending zero i n e = runs_on (λ k le b. elim (bad k le b) [ ])
    where
      bad : (k : ℕ) → i ≤ k → k < n → ⊥
      bad k le b = omega (arith, e, le, b)
  wait-Ending (suc fuel) i n e =
      tried i n _ (attempt i) (omega (arith, e)) refl
        (wait-Ending fuel (suc i) n (omega (arith, e)))

  claimed :
      (existing : Option LockRow) (expires_at : ℕ) (rows : List LockRow)
      → (claim g pid token expires_at rows existing).1 ≡ some (record { gid = g; token = token })
  claimed none expires_at rows = refl
  claimed (some r) expires_at rows = refl

  attempt_own :
      (i : ℕ) (h : SyncLockHandle) → (attempt i).1 ≡ some h → h ≡ record { gid = g; token = token }
  unfolding acquire_sync_lock
  attempt_own i h =
      let t = turns i in
      let existing = find_row (locks_gid g) t.rows in
      elim (Bool-cases (is_live t.now existing)) [
        | inl e ↦ rw e (λ p. cc)
        | inr e ↦ rw e (λ p. some-eq (sym p ∙ claimed existing (t.now + opts.lease_ms) t.rows))
      ]

  attempt_free :
      (i : ℕ) → is_sync_lock_held g (turns i).now (turns i).rows ≡ false → (attempt i).1 ≢ none
  unfolding acquire_sync_lock is_sync_lock_held
  attempt_free i e =
      let t = turns i in
      let existing = find_row (locks_gid g) t.rows in
      rw e (λ p. (let q = claimed existing (t.now + opts.lease_ms) t.rows in cc))

  -- By turn n the timeout has passed.
  too_late :
      (n : ℕ)
      → opts.timeout_ms ≤ n * opts.retry_interval_ms
      → opts.timeout_ms ≤ (turns n).checked - start
  too_late n le =
      let checked = timers.checks n in
      elim (elapses n) [ inl a ↦ omega (arith, a, checked, le) | inr b ↦ omega (arith, b, checked) ]

  module _ {ℓ} {A : Type ℓ} (fn : List LockRow → List LockRow × A) where
    IsOver-release :
        (h : SyncLockHandle) (rows : List LockRow) (a : A)
        → h ≡ record { gid = g; token = token }
        → IsOver opts g token (ran a (release_sync_lock h rows).0)
    unfolding IsOver release_sync_lock
    IsOver-release h rows a e =
        subst (λ k. count_rows (locks_handle k) (delete_rows (locks_handle h) rows) ≡ 0) e
          (count_rows-delete (locks_handle h) rows)

    Ending-IsOver :
        (n : ℕ) (w : Option Waited)
        → opts.timeout_ms ≤ n * opts.retry_interval_ms
        → Ending 0 (suc n) w
        → (r : Guarded A) × (with_sync_lock fn w ≡ some r) × IsOver opts g token r
    unfolding with_sync_lock IsOver
    Ending-IsOver n _ le (gets k h rows lt e) =
        let (rows', a) = fn rows in (_, refl, IsOver-release h rows' a (attempt_own k h e))
    Ending-IsOver n _ le (gives_up k lt e late) = (_, refl, late)
    Ending-IsOver n _ le (runs_on f) =
        let late = too_late n le in
        let early = f n (omega arith) (omega arith) in
        let bad : ⊥ = omega (arith, late, early) in elim bad [ ]

    Ending-ran :
        (n e d : ℕ) (w : Option Waited)
        → opts.timeout_ms ≤ n * opts.retry_interval_ms
        → ((i now : ℕ) → e ≤ now → is_sync_lock_held g now (turns i).rows ≡ false)
        → ((i : ℕ) → (turns i).checked ≤ (turns i).now + d)
        → e + d ≤ start + opts.timeout_ms
        → Ending 0 (suc n) w
        → (a : A) × (rows : List LockRow) × (with_sync_lock fn w ≡ some (ran a rows))
          × (count_rows (locks_handle (record { gid = g; token = token })) rows ≡ 0)
    unfolding with_sync_lock IsOver
    Ending-ran n e d _ le lapses quick fits (gets k h rows lt q) =
        let (rows', a) = fn rows in (a, _, refl, IsOver-release h rows' a (attempt_own k h q))
    Ending-ran n e d _ le lapses quick fits (gives_up k lt q late) =
        let soon = quick k in
        let past : e ≤ (turns k).now = (elim (elapses k) [
          | inl a ↦ omega (arith, soon, fits, late, a)
          | inr b ↦ omega (arith, soon, fits, late, b)
        ]) in
        elim (attempt_free k (lapses k (turns k).now past) q) [ ]
    Ending-ran n e d _ le lapses quick fits (runs_on f) =
        let late = too_late n le in
        let early = f n (omega arith) (omega arith) in
        let bad : ⊥ = omega (arith, late, early) in elim bad [ ]

-- Where timers run no shorter than they were set and the clock does not go back, the call comes to an end
-- within one turn more than the timeout has intervals: it gives up at the timeout and not before it, or
-- `fn` ran and the lock is released, whether `fn` threw or not.
pub with_sync_lock_ends {ℓ} :
    {A : Type ℓ} (fn : List LockRow → List LockRow × A) (opts : WithSyncLockOptions) (g : String)
    (pid : ℕ) (token : String) (start n : ℕ) (turns : ℕ → Turn)
    → Timers opts start turns
    → opts.timeout_ms ≤ n * opts.retry_interval_ms
    → (r : Guarded A) × (with_sync_lock fn (wait_for_lock opts g pid token start turns (suc n) 0)
        ≡ some r)
      × IsOver opts g token r
with_sync_lock_ends fn opts g pid token start n turns timers le =
    Ending-IsOver opts g pid token start turns timers fn n _ le
      (wait-Ending opts g pid token start turns timers (suc n) 0 (suc n) (omega arith))

-- Where moreover no lock of another process lasts past the time e, and e comes before the timeout by more
-- than a turn takes between its two looks at the clock, the lock is acquired and `fn` runs.
pub with_sync_lock_acquires {ℓ} :
    {A : Type ℓ} (fn : List LockRow → List LockRow × A) (opts : WithSyncLockOptions) (g : String)
    (pid : ℕ) (token : String) (start n e d : ℕ) (turns : ℕ → Turn)
    → Timers opts start turns
    → opts.timeout_ms ≤ n * opts.retry_interval_ms
    → ((i now : ℕ) → e ≤ now → is_sync_lock_held g now (turns i).rows ≡ false)
    → ((i : ℕ) → (turns i).checked ≤ (turns i).now + d)
    → e + d ≤ start + opts.timeout_ms
    → (a : A) × (rows : List LockRow) × (with_sync_lock fn
          (wait_for_lock opts g pid token start turns (suc n) 0)
        ≡ some (ran a rows))
      × (count_rows (locks_handle (record { gid = g; token = token })) rows ≡ 0)
with_sync_lock_acquires fn opts g pid token start n e d turns timers le lapses quick fits =
    Ending-ran opts g pid token start turns timers fn n e d _ le lapses quick fits
      (wait-Ending opts g pid token start turns timers (suc n) 0 (suc n) (omega arith))
