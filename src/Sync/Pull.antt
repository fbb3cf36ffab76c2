-- ===== src/Sync/Pull.antt =====
-- packages/core/src/storage/client.ts, `pullRemoteOps`: the pages of operations that a machine catches
-- up with. Decryption is an argument, and so is what the server replies in each round.
pub mod Progress
pub mod Rounds
use kontexta.Base.{
  ℕ, zero, suc, max, String, Bool, true, false, not, ◌||◌, Option, none, some, List, [], ◌∷◌, ◌++◌,
  ltb, if◌then◌else◌, ◌==◌, length, nat_eq, string_eq,
}
use kontexta.Json.{Json}
use kontexta.Sync.Op.{kind_name, family_of_name, Op}
use kontexta.Sync.Outbox.{Local, record_gid_version}
use kontexta.Sync.Push.{Readiness, ready}
use kontexta.Sync.Apply.{
  Outcome, FileStore, Puller, RemoteRow, parse_row, is_conflict, apply_op, clear_apply_failure,
  record_apply_failure, advance_sync_cursor, applied, refused,
}

-- The loop's state; `handled` is the variable `done`.
pub record Pulling {ℓ} (F : Type ℓ) : Type ℓ where
  pub machine : Puller F
  pub polled : ℕ
  pub applied_ops : ℕ
  pub skipped : ℕ
  pub conflicts : List Op
  pub handled : ℕ

-- A page that was handled, or the row at which the pull stops, with its state before that row's
-- progress is kept.
pub data PageEnd {ℓ} (F : Type ℓ) : Type ℓ where
  finished : Pulling F → PageEnd F
  stopped : Pulling F → RemoteRow → PageEnd F

pub data PullReply : Type 0 where
  no_page : (error : String) → PullReply
  page : (rows : List RemoteRow) (next : Option ℕ) → PullReply

pub data PullError : Type 0 where
  no_error : PullError
  not_ready : Readiness → PullError
  failed_request : String → PullError
  refused_row : RemoteRow → PullError

pub record PullResult {ℓ} (F : Type ℓ) : Type ℓ where
  pub state : Pulling F
  pub cursor : ℕ
  pub error : PullError

abbrev note_version : Option String → Option String → Option ℕ → Local → Local
note_version (some g) (some kind) (some v) db = record_gid_version g (family_of_name kind) v db
note_version _ _ _ db = db

abbrev or_seq : Option ℕ → ℕ → ℕ
or_seq none n = n
or_seq (some s) n = s

-- The row is this machine's own.
abbrev is_own : String → RemoteRow → Bool
is_own machine_id r = elim r.origin [ none ↦ false | some o ↦ o == machine_id ]

abbrev last_seq : ℕ → List RemoteRow → ℕ
last_seq cursor [] = cursor
last_seq cursor (r ∷ []) = or_seq r.seq cursor
last_seq cursor (r ∷ q ∷ rs) = last_seq cursor (q ∷ rs)

abbrev starting {ℓ} : {F : Type ℓ} → Puller F → Pulling F
starting m = record {
  machine = m;
  polled = 0;
  applied_ops = 0;
  skipped = 0;
  conflicts = [];
  handled = m.sync_cursor;
}

-- The rest of a page, unless the pull has stopped.
abbrev then_rows {ℓ} : {F : Type ℓ} → (Pulling F → PageEnd F) → PageEnd F → PageEnd F
then_rows rest (stopped q x) = stopped q x
then_rows rest (finished q) = rest q

module _ {ℓ} {F : Type ℓ} (store : FileStore F) where
  abbrev own_row : RemoteRow → Pulling F → Pulling F
  own_row r p = record p {
    machine = record p.machine { local = note_version r.gid r.kind r.gid_version p.machine.local };
    handled = or_seq r.seq p.handled;
  }

  abbrev see_version : Op → Option ℕ → Puller F → Puller F
  see_version op v m = record m {
    local = note_version (some op.gid) (some (kind_name op.kind)) v m.local;
  }

  abbrev settle_failure : RemoteRow → Op → Pulling F → Puller F × Bool → PageEnd F
  settle_failure r op p (m, false) = stopped (record p { machine = m }) r
  settle_failure r op p (m, true) = finished (record p {
    machine = see_version op r.gid_version m;
    skipped = suc p.skipped;
    handled = or_seq r.seq p.handled;
  })

  abbrev settle_outcome : RemoteRow → Op → Pulling F → Outcome (Puller F) → PageEnd F
  settle_outcome r op p (applied m) = finished (record p {
    machine = see_version op r.gid_version (clear_apply_failure (or_seq r.seq 0) m);
    applied_ops = suc p.applied_ops;
    handled = or_seq r.seq p.handled;
  })
  settle_outcome r op p (refused m unappliable error) =
      settle_failure r op p (record_apply_failure (or_seq r.seq 0) op unappliable error m)

  abbrev handle_op : RemoteRow → Pulling F → Option Op → PageEnd F
  handle_op r p none = stopped p r
  handle_op r p (some op) =
      let conflict = is_conflict r.status in
      settle_outcome r op
        (record p { conflicts = if conflict then p.conflicts ++ op ∷ [] else p.conflicts })
        (apply_op store (or_seq r.seq 0) conflict op p.machine)

  module _ (decrypt : RemoteRow → Option Json) (machine_id : String) where
    abbrev handle_foreign : RemoteRow → Pulling F → Option Json → PageEnd F
    handle_foreign r p none = stopped p r
    handle_foreign r p (some payload) = handle_op r p (parse_row r payload)

    -- One row of the loop over a page.
    unfoldable pub handle_row : RemoteRow → Pulling F → PageEnd F
    handle_row r p =
        let q = record p { polled = suc p.polled } in
        if is_own machine_id r then finished (own_row r q) else handle_foreign r q (decrypt r)

    unfoldable pub handle_rows : List RemoteRow → Pulling F → PageEnd F
    unfolding handle_row
    handle_rows [] p = finished p
    handle_rows (r ∷ rs) p = then_rows (handle_rows rs) (handle_row r p)

  -- `keepProgress`
  unfoldable pub keep_progress : ℕ → Pulling F → Puller F × ℕ
  keep_progress cursor p =
      if ltb cursor p.handled
      then (advance_sync_cursor p.handled p.machine, p.handled)
      else (p.machine, cursor)

  abbrev advance_to : ℕ → ℕ → Puller F → Puller F
  advance_to cursor next m = if ltb cursor next then advance_sync_cursor next m else m

  module _ (decrypt : RemoteRow → Option Json) (machine_id : String) (limit : ℕ)
      (server : ℕ → ℕ → PullReply) where
    abbrev after_page :
        (ℕ → Pulling F → Option (PullResult F))
        → ℕ
        → List RemoteRow
        → Option ℕ
        → PageEnd F
        → Option (PullResult F)
    after_page again cursor rows next (stopped p r) =
        let (m, c) = keep_progress cursor p in
        some (record { state = record p { machine = m }; cursor = c; error = refused_row r })
    after_page again cursor rows next (finished p) =
        let to = or_seq next (last_seq cursor rows) in
        let moved = record p { machine = advance_to cursor to p.machine } in
        let rest = again (max cursor to) moved in
        if ltb (length rows) limit || not (ltb cursor to)
        then some (record { state = moved; cursor = max cursor to; error = no_error })
        else rest

    abbrev on_reply :
        (ℕ → Pulling F → Option (PullResult F)) → ℕ → Pulling F → PullReply → Option (PullResult F)
    on_reply again cursor p (no_page e) =
        some (record { state = p; cursor = cursor; error = failed_request e })
    on_reply again cursor p (page rows next) =
        after_page again cursor rows next
          (handle_rows decrypt machine_id rows (record p { handled = cursor }))

    -- The loop over the pages, for as many rounds as `fuel`; `server` answers a round at a cursor.
    unfoldable pub pull_pages : ℕ → ℕ → Pulling F → Option (PullResult F)
    unfolding handle_rows keep_progress
    pull_pages zero cursor p = none
    pull_pages (suc fuel) cursor p = on_reply (pull_pages fuel) cursor p (server fuel cursor)

    -- A pull of a machine that is `ready`, or its refusal; `limit` is the page size.
    pub pull_remote_ops : Readiness → ℕ → Puller F → Option (PullResult F)
    unfolding pull_pages
    pull_remote_ops readiness fuel m = elim readiness [
      | ready ↦ pull_pages fuel m.sync_cursor (starting m)
      | state ↦
          some (record { state = starting m; cursor = m.sync_cursor; error = not_ready state })
    ]
