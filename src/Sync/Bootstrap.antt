-- ===== src/Sync/Bootstrap.antt =====
-- packages/core/src/storage/bootstrap.ts: taking over the state of a brain after joining it. Decryption and
-- the digest `sha256` are arguments, and so is what each request gets, as a function of its `after`.
-- The variables of the loop are kept apart from the settings that they are saved in. In the source
-- mergeOrFork may queue a local operation; here it changes only what the store holds.
pub mod Record
pub mod Loop
pub mod Kept
pub mod Resume
pub mod Cursor
pub mod Paged
pub mod Interrupted
use kontexta.Sync.Apply.{SkipRow, Outcome, RemoteRow}
use kontexta.Base.{ℕ, max, String, Bool, true, false, Option, none, some, List, [], ◌++◌}
use kontexta.Sync.Op.{OpKind, Op, file_create, file_update}
use kontexta.Sync.Outbox.{Local, pending}

pub data BootstrapMode : Type 0 where
  empty merge : BootstrapMode

pub data RefTable : Type 0 where
  projects calendar_entities : RefTable

-- What the bootstrap asks of the files and tables of the machine. `has_ref` tells whether a table has a
-- row with a gid; `merge_or_fork` whether it forked.
pub record SnapshotStore {ℓ} (F : Type ℓ) : Type ℓ where
  pub file_count : F → ℕ
  pub content_hash : String → F → Option (Option String)
  pub has_ref : RefTable → String → F → Bool
  pub apply_remote_op : Op → F → Outcome F
  pub merge_or_fork : Op → Option ℕ → F → Outcome (F × Bool)

-- An entry of `records` or of `conflicts`.
pub record SnapshotRow : Type 0 where
  pub row : RemoteRow
  pub version : Option ℕ
  pub deleted : Bool

pub record SnapshotEntry : Type 0 where
  pub gid : String
  pub records : List SnapshotRow
  pub conflicts : List SnapshotRow

pub data SnapshotReply : Type 0 where
  no_page : SnapshotReply
  page : List SnapshotEntry → (more : Bool) → (latest_seq : Option ℕ) → SnapshotReply

pub record Deferred : Type 0 where
  pub op : Op
  pub seq : ℕ
  pub version : Option ℕ

-- The machine with the settings of the bootstrap.
pub record Boot {ℓ} (F : Type ℓ) : Type ℓ where
  pub files : F
  pub local : Local
  pub skipped_ops : List SkipRow
  pub sync_cursor : ℕ
  pub pending : Bool
  pub saved_after : Option String
  pub saved_latest : Option ℕ
  pub saved_deferred : Option (List Deferred)

pub record Vars : Type 0 where
  pub after : String
  pub latest : ℕ
  pub deferred : List Deferred

-- What the counters of the result count.
pub data Tick : Type 0 where
  applied_one forked_one skipped_one : Tick

pub data Step {ℓ} (F : Type ℓ) : Type ℓ where
  went_on : Vars → Boot F → List Tick → Step F
  threw : Boot F → Step F

-- How a bootstrap ends; `awaiting` means that the replies ran out.
pub data BootEnd {ℓ} (F : Type ℓ) : Type ℓ where
  completed : Boot F → List Tick → BootEnd F
  stopped_midway request_failed : Boot F → BootEnd F
  awaiting not_needed no_key : BootEnd F

abbrev pub add_ticks {ℓ} : {F : Type ℓ} → List Tick → BootEnd F → BootEnd F
add_ticks ts (completed s us) = completed s (ts ++ us)
add_ticks ts e = e

abbrev pub close {ℓ} : {F : Type ℓ} → ℕ → Boot F → Boot F
close latest s = record s {
  sync_cursor = max s.sync_cursor latest;
  pending = false;
  saved_after = none;
  saved_latest = none;
  saved_deferred = none;
}

unfoldable pub or_default {ℓ} : {A : Type ℓ} → Option A → A → A
or_default none d = d
or_default (some a) d = a

abbrev pub with_ticks {ℓ} : {F : Type ℓ} → List Tick → Step F → Step F
with_ticks ts (went_on v s us) = went_on v s (ts ++ us)
with_ticks ts (threw s) = threw s

infixl 5 ◌>>=◌
abbrev pub ◌>>=◌ {ℓ} : {F : Type ℓ} → Step F → (Vars → Boot F → Step F) → Step F
went_on v s ts >>= k = with_ticks ts (k v s)
threw s >>= k = threw s

abbrev pub is_content_op : OpKind → Bool
is_content_op file_create = true
is_content_op file_update = true
is_content_op _ = false

-- The variables as they are read from the settings.
unfoldable pub saved_vars {ℓ} : {F : Type ℓ} → Boot F → Vars
unfolding or_default
saved_vars s = record {
  after = or_default s.saved_after "";
  latest = or_default s.saved_latest 0;
  deferred = or_default s.saved_deferred [];
}
