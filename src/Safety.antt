-- ===== src/Safety.antt =====
-- packages/core/src/util/safety.ts, `withLock`: the promise chains that make the calls of one process on
-- one key run one after the other. A call is a task with a number; `after` is the task whose tail it is
-- chained to. The maps are functions on their keys.
pub mod Order
pub mod Serial
use kontexta.Base.{
  ℕ, suc, ◌-◌, ◌<◌, String, ◌≡◌, Bool, true, false, ◌||◌, Option, none, some, List, [], ◌∷◌,
  if◌then◌else◌, ◌==◌, nat_eq, string_eq,
}

pub data TaskStatus : Type 0 where
  queued running settled : TaskStatus

pub record Task : Type 0 where
  pub key : String
  pub after : Option ℕ
  pub status : TaskStatus

-- `calls` is the number of tasks so far; `locks` has the last task of a key.
pub record Chains : Type 0 where
  pub calls : ℕ
  pub tasks : ℕ → Task
  pub locks : String → Option ℕ
  pub in_flight : ℕ

abbrev pub idle : Chains
idle = record {
  calls = 0;
  tasks = λ i. record { key = ""; after = none; status = settled };
  locks = λ k. none;
  in_flight = 0;
}

abbrev pub put_task : ℕ → Task → (ℕ → Task) → ℕ → Task
put_task i t tasks k = if k == i then t else tasks k

abbrev pub put_lock : String → Option ℕ → (String → Option ℕ) → String → Option ℕ
put_lock g l locks k = if k == g then l else locks k

unfoldable pub holds : String → List String → Bool
holds k [] = false
holds k (h ∷ hs) = h == k || holds k hs

abbrev pub new_task : String → Chains → Task
new_task k s = record { key = k; after = s.locks k; status = queued }

abbrev pub enqueue : String → Chains → Chains
enqueue k s = record {
  calls = suc s.calls;
  tasks = put_task s.calls (new_task k s) s.tasks;
  locks = put_lock k (some s.calls) s.locks;
  in_flight = suc s.in_flight;
}

-- The call itself, from code that holds the keys `held`; `false` is the rejection of a re-entry.
unfoldable pub with_lock : List String → String → Chains → Chains × Bool
unfolding holds
with_lock held k s = if holds k held then (s, false) else (enqueue k s, true)

abbrev pub set_status : ℕ → TaskStatus → Chains → Chains
set_status i st s = record s { tasks = put_task i (record (s.tasks i) { status = st }) s.tasks }

-- `next` settles, whether the function threw or not.
unfoldable pub settle_task : ℕ → Chains → Chains
settle_task i s = let s' = set_status i settled s in record s' { in_flight = s.in_flight - 1 }

abbrev is_last : ℕ → Option ℕ → Bool
is_last i none = false
is_last i (some p) = p == i

-- `tail.finally`
unfoldable pub clean_up : ℕ → Chains → Chains
clean_up i s =
    let k = (s.tasks i).key in
    if is_last i (s.locks k) then record s { locks = put_lock k none s.locks } else s

-- A chained call starts when the tail before it has settled.
abbrev pub CanStart : Chains → Option ℕ → Type 0
CanStart s none = Unit
CanStart s (some p) = (s.tasks p).status ≡ settled

pub data ChainStep : Chains → Chains → Type 0 where
  calls_lock : (s : Chains) (held : List String) (k : String) → ChainStep s (with_lock held k s).0
  starts :
      (s : Chains) (i : ℕ)
      → i < s.calls
      → (s.tasks i).status ≡ queued
      → CanStart s (s.tasks i).after
      → ChainStep s (set_status i running s)
  settles :
      (s : Chains) (i : ℕ)
      → i < s.calls
      → (s.tasks i).status ≡ running
      → ChainStep s (settle_task i s)
  cleans :
      (s : Chains) (i : ℕ) → i < s.calls → (s.tasks i).status ≡ settled → ChainStep s (clean_up i s)

pub data ChainRun : Chains → Chains → Type 0 where
  stops : (s : Chains) → ChainRun s s
  steps : {r s t : Chains} → ChainStep r s → ChainRun s t → ChainRun r t
