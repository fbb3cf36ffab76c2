-- ===== src/Safety/Serial.antt =====
-- The steps and the runs of the calls of withLock (safety.ts).
use kontexta.Base.{
  arith, ap, Bool-cases, ◌==◌, string_eq, nat_eq, ◌⊎◌, inl, inr, ℕ, ◌<◌, String, ◌≡◌, ◌≢◌, refl,
  sym, ◌∙◌, true, false, Option, none, some, List,
}
use mathlib.Core.Path.{subst}
use kontexta.Safety.{
  TaskStatus, Task, Chains, idle, CanStart, queued, running, settled, put_lock, set_status,
  settle_task, clean_up, is_last, with_lock, holds, ChainStep, calls_lock, starts, settles, cleans,
  ChainRun, stops, steps,
}
use kontexta.Safety.Order.{
  lt-cases, is_settled, is_queued, AllDone, Linked, InOrder, Moves, AllDone-Moves, Linked-Moves,
  settled-AllDone, ready-AllDone, enqueue-InOrder, idle-InOrder, text_same, false-not_true,
  task_here, task_other,
}

with_status : Task → TaskStatus → Task
with_status t st = record t { status = st }

set_status_task :
    (s : Chains) (i : ℕ) (st : TaskStatus) (k : ℕ)
    → ((k ≡ i) × ((set_status i st s).tasks k ≡ with_status (s.tasks i) st))
      ⊎ ((set_status i st s).tasks k ≡ s.tasks k)
unfolding with_status
set_status_task s i st k =
    let t : Task = with_status (s.tasks i) st in
    elim (lt-cases k i) [
      | inl h ↦ inr (task_other i k t s.tasks (λ q. omega arith))
      | inr (inl e) ↦ inl (e, rw e (task_here i t s.tasks))
      | inr (inr h) ↦ inr (task_other i k t s.tasks (λ q. omega arith))
    ]

status-key :
    (s : Chains) (i : ℕ) (st : TaskStatus) (k : ℕ)
    → ((set_status i st s).tasks k).key ≡ (s.tasks k).key
unfolding with_status
status-key s i st k = elim (set_status_task s i st k) [
  | inl (e, f) ↦ ap (λ u. u.key) f ∙ ap (λ n. (s.tasks n).key) (sym e)
  | inr f ↦ ap (λ u. u.key) f
]

status-after :
    (s : Chains) (i : ℕ) (st : TaskStatus) (k : ℕ)
    → ((set_status i st s).tasks k).after ≡ (s.tasks k).after
unfolding with_status
status-after s i st k = elim (set_status_task s i st k) [
  | inl (e, f) ↦ ap (λ u. u.after) f ∙ ap (λ n. (s.tasks n).after) (sym e)
  | inr f ↦ ap (λ u. u.after) f
]

settled-is_settled : (x : TaskStatus) → is_settled x ≡ true → x ≡ settled
settled-is_settled settled h = refl
settled-is_settled queued h = elim (false-not_true h) [ ]
settled-is_settled running h = elim (false-not_true h) [ ]

not_queued : (x : TaskStatus) → x ≢ queued → is_queued x ≡ false
not_queued queued h = elim (h refl) [ ]
not_queued running h = refl
not_queued settled h = refl

-- A status that is not settled may change; a settled one stays.
set_status-Moves :
    (s : Chains) (i : ℕ) (st : TaskStatus)
    → (is_settled (s.tasks i).status ≡ false)
    → Moves s (set_status i st s)
set_status-Moves s i st h = record {
  same_calls = refl;
  same_key = status-key s i st;
  same_after = status-after s i st;
  stays = λ k q. elim (set_status_task s i st k) [
    | inl (e, f) ↦
        elim (false-not_true (sym h ∙ ap (λ n. is_settled (s.tasks n).status) (sym e) ∙ q)) [ ]
    | inr f ↦ ap (λ u. is_settled u.status) f ∙ q
  ];
}

set_status-InOrder :
    (s : Chains) (i : ℕ) (st : TaskStatus)
    → InOrder s
    → is_settled (s.tasks i).status ≡ false
    → AllDone s (s.tasks i).key i
    → InOrder (set_status i st s)
set_status-InOrder s i st o h a =
    let m = set_status-Moves s i st h in
    record {
      started = λ j lt q. rw (status-key s i st j) (
          AllDone-Moves s (set_status i st s) (s.tasks j).key j m (elim (set_status_task s i st j) [
            | inl (e, f) ↦ rw e a
            | inr f ↦ o.started j lt (sym (ap (λ u. is_queued u.status) f) ∙ q)
          ]));
      linked = λ j lt.
          rw (status-key s i st j, status-after s i st j)
            (Linked-Moves s (set_status i st s) (s.tasks j).key j (s.tasks j).after m
              (o.linked j lt));
      last = λ k. Linked-Moves s (set_status i st s) k s.calls (s.locks k) m (o.last k);
    }

-- The order stays where neither the status nor the last tasks change.
Moves-InOrder :
    (s : Chains) (t : Chains)
    → Moves s t
    → ((j : ℕ) → is_queued (t.tasks j).status ≡ is_queued (s.tasks j).status)
    → ((k : String) → Linked s k s.calls (t.locks k))
    → InOrder s
    → InOrder t
unfolding Linked AllDone
Moves-InOrder s t m same l o = record {
  started = λ j lt q. rw (m.same_key j) (
      AllDone-Moves s t (s.tasks j).key j m
        (o.started j (rw (sym m.same_calls) lt) (sym (same j) ∙ q)));
  linked = λ j lt.
      rw (m.same_key j, m.same_after j)
        (Linked-Moves s t (s.tasks j).key j (s.tasks j).after m
          (o.linked j (rw (sym m.same_calls) lt)));
  last = λ k. rw m.same_calls (Linked-Moves s t k s.calls (t.locks k) m (l k));
}

settle_task-InOrder :
    (s : Chains) (i : ℕ)
    → InOrder s
    → i < s.calls
    → (s.tasks i).status ≡ running
    → InOrder (settle_task i s)
unfolding settle_task
settle_task-InOrder s i o lt h =
    let p = set_status-InOrder s i settled o (ap is_settled h) (o.started i lt (ap is_queued h)) in
    let m : Moves (set_status i settled s) (settle_task i s) = record {
      same_calls = refl;
      same_key = λ k. refl;
      same_after = λ k. refl;
      stays = λ k q. q;
    } in
    Moves-InOrder (set_status i settled s) (settle_task i s) m (λ k. refl) p.last p

is_last-some : (i : ℕ) (p : Option ℕ) → is_last i p ≡ true → p ≡ some i
is_last-some i none h = elim (false-not_true h) [ ]
is_last-some i (some p) h = ap some ((nat_eq.same_iff p i).0 h)

Linked-cleaned :
    (s : Chains) (i : ℕ)
    → InOrder s
    → (s.tasks i).status ≡ settled
    → s.locks (s.tasks i).key ≡ some i
    → (k : String) → Linked s k s.calls (put_lock (s.tasks i).key none s.locks k)
unfolding Linked
Linked-cleaned s i o h e k = elim (Bool-cases (k == (s.tasks i).key)) [
  | inl q ↦ rw q (
      settled-AllDone s k s.calls i o (omega arith)
        (subst (Linked s k s.calls) (ap s.locks (sym (text_same k (s.tasks i).key q)) ∙ e)
          (o.last k))
        h)
  | inr q ↦ rw q (o.last k)
]

clean_up-InOrder :
    (s : Chains) (i : ℕ) → InOrder s → (s.tasks i).status ≡ settled → InOrder (clean_up i s)
unfolding clean_up
clean_up-InOrder s i o h = elim (Bool-cases (is_last i (s.locks (s.tasks i).key))) [
  | inl e ↦ rw e (
      let t : Chains = record s { locks = put_lock (s.tasks i).key none s.locks } in
      let m : Moves s t = record {
        same_calls = refl;
        same_key = λ k. refl;
        same_after = λ k. refl;
        stays = λ k q. q;
      } in
      Moves-InOrder s t m (λ k. refl) (Linked-cleaned s i o h (is_last-some i _ e)) o)
  | inr e ↦ rw e o
]

starts-InOrder :
    (s : Chains) (i : ℕ)
    → InOrder s
    → i < s.calls
    → (s.tasks i).status ≡ queued
    → CanStart s (s.tasks i).after
    → InOrder (set_status i running s)
starts-InOrder s i o lt h c =
    set_status-InOrder s i running o (ap is_settled h)
      (ready-AllDone s (s.tasks i).key i (s.tasks i).after o (omega arith) (o.linked i lt) c)

with_lock-InOrder :
    (held : List String) (k : String) (s : Chains) → InOrder s → InOrder (with_lock held k s).0
unfolding with_lock holds
with_lock-InOrder held k s o = elim (Bool-cases (holds k held)) [
  | inl h ↦ rw h o
  | inr h ↦ rw h (enqueue-InOrder k s o)
]

step-InOrder : (s t : Chains) → ChainStep s t → InOrder s → InOrder t
step-InOrder s _ (calls_lock _ held k) o = with_lock-InOrder held k s o
step-InOrder s _ (starts _ i lt h c) o = starts-InOrder s i o lt h c
step-InOrder s _ (settles _ i lt h) o = settle_task-InOrder s i o lt h
step-InOrder s _ (cleans _ i lt h) o = clean_up-InOrder s i o h

run-InOrder : (s t : Chains) → ChainRun s t → InOrder s → InOrder t
run-InOrder s _ (stops _) o = o
run-InOrder r t (steps {s = s} p q) o = run-InOrder s t q (step-InOrder r s p o)

-- Of two calls on one key, of which the second one has been started, the first one has settled, whether
-- its function threw or not, after any run of the calls from the start of the process.
pub with_lock_serial :
    (s : Chains) (i j : ℕ)
    → ChainRun idle s
    → i < j
    → j < s.calls
    → (s.tasks i).key ≡ (s.tasks j).key
    → (s.tasks j).status ≢ queued
    → (s.tasks i).status ≡ settled
unfolding AllDone
with_lock_serial s i j run lt b e h =
    settled-is_settled (s.tasks i).status
      ((run-InOrder idle s run idle-InOrder).started j b (not_queued (s.tasks j).status h) i lt e)
