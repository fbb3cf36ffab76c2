-- ===== src/Safety/Order.antt =====
-- The order of the calls on a key: an invariant of the chains (safety.ts).
use kontexta.Base.{
  ℕ, suc, ◌<◌, String, ◌≡◌, sym, ap, ◌∙◌, ◌≢◌, ◌⊎◌, inl, inr, Bool, true, false, Option, none, some,
  arith, string_eq, ◌==◌, Bool-cases, nat_eq,
}
use kontexta.Safety.{
  TaskStatus, Task, Chains, idle, put_task, new_task, enqueue, CanStart, queued, settled,
}

abbrev pub is_settled : TaskStatus → Bool
is_settled settled = true
is_settled _ = false

abbrev pub is_queued : TaskStatus → Bool
is_queued queued = true
is_queued _ = false

pub false-not_true : false ≢ true
false-not_true h = cc

pub lt-cases : (i p : ℕ) → (i < p) ⊎ (i ≡ p) ⊎ (p < i)
lt-cases i p = ground arith

pub lt_suc-cases : (i p : ℕ) → i < suc p → (i < p) ⊎ (i ≡ p)
lt_suc-cases i p h = omega arith

is_settled-settled : (x : TaskStatus) → x ≡ settled → is_settled x ≡ true
is_settled-settled x h = cc

pub is_queued-settled : (x : TaskStatus) → x ≡ settled → is_queued x ≡ false
is_queued-settled x h = cc

-- Every earlier call on the key of call j has settled.
unfoldable pub AllDone : Chains → String → ℕ → Type 0
AllDone s k j = (i : ℕ) → i < j → (s.tasks i).key ≡ k → is_settled (s.tasks i).status ≡ true

-- A call is chained to the last one before it on its key, or all those have settled.
unfoldable pub Linked : Chains → String → ℕ → Option ℕ → Type 0
Linked s k j none = AllDone s k j
Linked s k j (some p) =
    (p < j) × ((s.tasks p).key ≡ k) × ((i : ℕ) → p < i → i < j → (s.tasks i).key ≢ k)

pub record InOrder (s : Chains) : Type 0 where
  pub started :
      (j : ℕ) → j < s.calls → is_queued (s.tasks j).status ≡ false → AllDone s (s.tasks j).key j
  pub linked : (j : ℕ) → j < s.calls → Linked s (s.tasks j).key j (s.tasks j).after
  pub last : (k : String) → Linked s k s.calls (s.locks k)

pub idle-InOrder : InOrder idle
unfolding Linked AllDone
idle-InOrder = record {
  started = λ j h. elim h [ ];
  linked = λ j h. elim h [ ];
  last = λ k i h. elim h [ ];
}

-- Nothing but the status of calls differs, and no settled call is open again.
pub record Moves (s t : Chains) : Type 0 where
  pub same_calls : t.calls ≡ s.calls
  pub same_key : (i : ℕ) → (t.tasks i).key ≡ (s.tasks i).key
  pub same_after : (i : ℕ) → (t.tasks i).after ≡ (s.tasks i).after
  pub stays : (i : ℕ) → is_settled (s.tasks i).status ≡ true → is_settled (t.tasks i).status ≡ true

pub AllDone-Moves : (s t : Chains) (k : String) (j : ℕ) → Moves s t → AllDone s k j → AllDone t k j
unfolding AllDone
AllDone-Moves s t k j m a i lt e = m.stays i (a i lt (sym (m.same_key i) ∙ e))

pub Linked-Moves :
    (s t : Chains) (k : String) (j : ℕ) (p : Option ℕ) → Moves s t → Linked s k j p → Linked t k j p
unfolding Linked
Linked-Moves s t k j none m l = AllDone-Moves s t k j m l
Linked-Moves s t k j (some p) m (lt, e, f) =
    (lt, m.same_key p ∙ e, λ i a b q. f i a b (sym (m.same_key i) ∙ q))

-- The calls before j have settled where the last one of them has.
pub settled-AllDone :
    (s : Chains) (k : String) (j p : ℕ)
    → InOrder s
    → j < suc s.calls
    → Linked s k j (some p)
    → (s.tasks p).status ≡ settled
    → AllDone s k j
unfolding Linked AllDone
settled-AllDone s k j p o lt (lp, e, f) c i b q = elim (lt-cases i p) [
  | inl h ↦ o.started p (omega arith) (is_queued-settled (s.tasks p).status c) i h (q ∙ sym e)
  | inr (inl h) ↦ is_settled-settled (s.tasks i).status cc
  | inr (inr h) ↦ elim (f i h b q) [ ]
]

-- A call that may start comes after settled calls only.
pub ready-AllDone :
    (s : Chains) (k : String) (j : ℕ) (p : Option ℕ)
    → InOrder s
    → j < suc s.calls
    → Linked s k j p
    → CanStart s p
    → AllDone s k j
unfolding Linked
ready-AllDone s k j none o lt l c = l
ready-AllDone s k j (some p) o lt l c = settled-AllDone s k j p o lt l c

pub task_here : (i : ℕ) (t : Task) (f : ℕ → Task) → put_task i t f i ≡ t
task_here i t f = ground arith

pub task_other : (i j : ℕ) (t : Task) (f : ℕ → Task) → j ≢ i → put_task i t f j ≡ f j
task_other i j t f h = ground arith

enqueue-AllDone :
    (s : Chains) (g k : String) (j : ℕ)
    → j < suc s.calls
    → AllDone s k j
    → AllDone (enqueue g s) k j
unfolding AllDone
enqueue-AllDone s g k j lt a i b q =
    let e = task_other s.calls i (new_task g s) s.tasks (λ h. omega arith) in
    ap (λ u. is_settled u.status) e ∙ a i b (sym (ap (λ u. u.key) e) ∙ q)

enqueue-Linked :
    (s : Chains) (g k : String) (j : ℕ) (p : Option ℕ)
    → j < suc s.calls
    → Linked s k j p
    → Linked (enqueue g s) k j p
unfolding Linked
enqueue-Linked s g k j none lt l = enqueue-AllDone s g k j lt l
enqueue-Linked s g k j (some p) lt (lp, e, f) =
    let o : (i : ℕ) → i < j → (enqueue g s).tasks i ≡ s.tasks i =
      λ i h. task_other s.calls i (new_task g s) s.tasks (λ q. omega arith) in
    (lp, ap (λ u. u.key) (o p lp) ∙ e, λ i a b q. f i a b (sym (ap (λ u. u.key) (o i b)) ∙ q))

pub text_same : (k g : String) → (k == g) ≡ true → g ≡ k
text_same k g h = sym ((string_eq.same_iff k g).0 h)

pub text_other : (k g : String) → (k == g) ≡ false → g ≢ k
text_other k g h e = false-not_true (sym h ∙ (string_eq.same_iff k g).1 (sym e))

-- One more call after j that is not on the key of j.
Linked-later :
    (s : Chains) (k : String) (j : ℕ) (p : Option ℕ)
    → (s.tasks j).key ≢ k
    → Linked s k j p
    → Linked s k (suc j) p
unfolding Linked AllDone
Linked-later s k j none h l = λ i b e. elim (lt_suc-cases i j b) [
  | inl q ↦ l i q e
  | inr q ↦ elim (h (sym (ap (λ n. (s.tasks n).key) q) ∙ e)) [ ]
]
Linked-later s k j (some p) h (lp, e, f) = (
  omega arith,
  e,
  λ i a b q. elim (lt_suc-cases i j b) [
    | inl r ↦ f i a r q
    | inr r ↦ h (sym (ap (λ n. (s.tasks n).key) r) ∙ q)
  ],
)

enqueue_task :
    (g : String) (s : Chains) (j : ℕ)
    → j < suc s.calls
    → ((j < s.calls) × ((enqueue g s).tasks j ≡ s.tasks j))
      ⊎ ((j ≡ s.calls) × ((enqueue g s).tasks j ≡ new_task g s))
enqueue_task g s j lt = elim (lt_suc-cases j s.calls lt) [
  | inl h ↦ inl (h, task_other s.calls j (new_task g s) s.tasks (λ q. omega arith))
  | inr e ↦ inr (e, rw e (task_here s.calls (new_task g s) s.tasks))
]

pub enqueue-InOrder : (g : String) (s : Chains) → InOrder s → InOrder (enqueue g s)
unfolding Linked
enqueue-InOrder g s o = record {
  started = λ j lt h. elim (enqueue_task g s j lt) [
    | inl (b, e) ↦ rw e (enqueue-AllDone s g (s.tasks j).key j lt (o.started j b (rw (sym e) h)))
    | inr (b, e) ↦ elim (false-not_true (sym h ∙ ap (λ u. is_queued u.status) e)) [ ]
  ];
  linked = λ j lt. elim (enqueue_task g s j lt) [
    | inl (b, e) ↦ rw e (enqueue-Linked s g (s.tasks j).key j (s.tasks j).after lt (o.linked j b))
    | inr (b, e) ↦ rw (e, b) (enqueue-Linked s g g s.calls (s.locks g) (omega arith) (o.last g))
  ];
  last = λ k. elim (Bool-cases (k == g)) [
    | inl h ↦ rw h (
      omega arith,
      ap (λ u. u.key) (task_here s.calls (new_task g s) s.tasks) ∙ text_same k g h,
      λ i a b q. omega arith,
    )
    | inr h ↦ rw h (
        Linked-later (enqueue g s) k s.calls (s.locks k)
          (λ q.
            text_other k g h (sym (ap (λ u. u.key) (task_here s.calls (new_task g s) s.tasks)) ∙ q))
          (enqueue-Linked s g k s.calls (s.locks k) (omega arith) (o.last k)))
  ];
}
