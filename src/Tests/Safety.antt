-- ===== src/Tests/Safety.antt =====
-- Two calls of withLock on one key.
use kontexta.Base.{◌≡◌, refl, ap, ◌≢◌, false, [], ◌∷◌, arith}
use kontexta.Safety.{
  Chains, idle, holds, with_lock, set_status, settle_task, ChainRun, queued, running, settled,
  calls_lock, starts, settles, stops, steps,
}
use kontexta.Safety.Order.{is_queued, false-not_true}
use kontexta.Safety.Serial.{with_lock_serial}

abbrev called : Chains
called = (with_lock [] "file:a" (with_lock [] "file:a" idle).0).0

abbrev first_done : Chains
first_done = settle_task 0 (set_status 0 running called)

abbrev second_runs : Chains
second_runs = set_status 1 running first_done

second_runs-run : ChainRun idle second_runs
unfolding with_lock holds settle_task
second_runs-run = steps (calls_lock idle [] "file:a") (
    steps (calls_lock (with_lock [] "file:a" idle).0 [] "file:a") (
      steps (starts called 0 (omega arith) refl tt) (
        steps (settles (set_status 0 running called) 0 (omega arith) refl)
          (steps (starts first_done 1 (omega arith) refl refl) (stops second_runs)))))

running-not_queued : running ≢ queued
running-not_queued h = false-not_true (ap is_queued h)

reentry_refused : (with_lock ("file:a" ∷ []) "file:a" called).1 ≡ false
unfolding with_lock holds
reentry_refused = refl

with_lock_serial_example : (second_runs.tasks 0).status ≡ settled
unfolding with_lock holds settle_task
with_lock_serial_example =
    with_lock_serial second_runs 0 1 second_runs-run (omega arith) (omega arith) refl
      running-not_queued
