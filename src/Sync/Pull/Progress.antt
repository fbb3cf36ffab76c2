-- ===== src/Sync/Pull/Progress.antt =====
-- How far a pull gets (client.ts, `pullRemoteOps`).
pub mod Closed
use kontexta.Sync.Op.{Op}
use kontexta.Sync.Outbox.{Local, clear_lost_push}
use kontexta.Json.{Json}
use kontexta.Base.{
  ℕ, suc, ◌≤◌, ◌<◌, String, ◌≡◌, refl, ap, ◌∙◌, inl, inr, Bool, true, false, ◌&&◌, Option, none,
  some, List, [], ◌∷◌, ◌++◌, arith, if◌then◌else◌, Bool-cases,
}
use kontexta.Sync.Apply.{
  Outcome, FileStore, Puller, RemoteRow, parse_row, is_conflict, keep_lost, after_files, apply_by,
  is_delete, apply_op, clear_apply_failure, record_apply_failure, applied, refused,
}
use kontexta.Sync.Pull.{
  Pulling, PageEnd, finished, stopped, or_seq, is_own, then_rows, settle_failure, settle_outcome,
  handle_op, handle_foreign, handle_row, handle_rows,
}

-- The rows have numbers that ascend from above `n`, as the relay sends them.
abbrev pub RowsAscend : ℕ → List RemoteRow → Type 0
RowsAscend n [] = Unit
RowsAscend n (r ∷ rs) = (s : ℕ) × (r.seq ≡ some s) × (n < s) × RowsAscend s rs

module _ {ℓ} {F : Type ℓ} (store : FileStore F) where
  -- What one row does to the progress: a stop keeps it, and else the row's number is reached.
  abbrev RowEnd : RemoteRow → Pulling F → PageEnd F → Type 0
  RowEnd r p (stopped q x) =
      (x ≡ r) × (q.handled ≡ p.handled) × (q.machine.sync_cursor ≡ p.machine.sync_cursor)
  RowEnd r p (finished q) =
      (q.handled ≡ or_seq r.seq p.handled) × (q.machine.sync_cursor ≡ p.machine.sync_cursor)

  abbrev cursor_of : Outcome (Puller F) → ℕ
  cursor_of (applied m) = m.sync_cursor
  cursor_of (refused m u e) = m.sync_cursor

  after_files-cursor :
      (f : Local → Local) (m : Puller F) (o : Outcome F)
      → cursor_of (after_files store f m o) ≡ m.sync_cursor
  after_files-cursor f m (applied files) = refl
  after_files-cursor f m (refused files u e) = refl

  apply_by-cursor :
      (seq : ℕ) (op : Op) (m : Puller F) (o : Option Bool)
      → cursor_of (apply_by store seq op m o) ≡ m.sync_cursor
  apply_by-cursor seq op m none = refl
  apply_by-cursor seq op m (some true) =
      after_files-cursor (clear_lost_push op.gid) m (store.merge_or_fork op seq m.files)
  apply_by-cursor seq op m (some false) =
      after_files-cursor (keep_lost store op) m (store.apply_remote_op op m.files)

  apply_op-cursor :
      (seq : ℕ) (conflict : Bool) (op : Op) (m : Puller F)
      → cursor_of (apply_op store seq conflict op m) ≡ m.sync_cursor
  unfolding apply_op
  apply_op-cursor seq conflict op m = elim (Bool-cases (conflict && is_delete store op.kind)) [
    | inl e ↦ rw e refl
    | inr e ↦ rw e (apply_by-cursor seq op m _)
  ]

  settle_failure-RowEnd :
      (r : RemoteRow) (op : Op) (p : Pulling F) (m : Puller F) (skip : Bool)
      → m.sync_cursor ≡ p.machine.sync_cursor
      → RowEnd r p (settle_failure store r op p (m, skip))
  settle_failure-RowEnd r op p m false e = (refl, refl, e)
  settle_failure-RowEnd r op p m true e = (refl, e)

  settle_outcome-RowEnd :
      (r : RemoteRow) (op : Op) (p : Pulling F) (o : Outcome (Puller F))
      → cursor_of o ≡ p.machine.sync_cursor
      → RowEnd r p (settle_outcome store r op p o)
  unfolding record_apply_failure clear_apply_failure
  settle_outcome-RowEnd r op p (applied m) e = (refl, e)
  settle_outcome-RowEnd r op p (refused m u error) e =
      let (m', skip) = record_apply_failure (or_seq r.seq 0) op u error m in
      settle_failure-RowEnd r op p m' skip e

  handle_op-RowEnd :
      (r : RemoteRow) (p : Pulling F) (o : Option Op) → RowEnd r p (handle_op store r p o)
  handle_op-RowEnd r p none = (refl, refl, refl)
  handle_op-RowEnd r p (some op) =
      settle_outcome-RowEnd r op
        (record p {
          conflicts = if is_conflict r.status then p.conflicts ++ op ∷ [] else p.conflicts;
        })
        (apply_op store (or_seq r.seq 0) (is_conflict r.status) op p.machine)
        (apply_op-cursor (or_seq r.seq 0) (is_conflict r.status) op p.machine)

  module _ (decrypt : RemoteRow → Option Json) (machine_id : String) where
    handle_row-RowEnd :
        (r : RemoteRow) (p : Pulling F) → RowEnd r p (handle_row store decrypt machine_id r p)
    unfolding handle_row
    handle_row-RowEnd r p = elim (Bool-cases (is_own machine_id r)) [
      | inl own ↦ rw own (refl, refl)
      | inr foreign ↦ rw foreign (by_payload (decrypt r))
    ]
      where
        by_payload :
            (o : Option Json)
            → RowEnd r p
                (handle_foreign store decrypt machine_id r (record p { polled = suc p.polled }) o)
        by_payload none = (refl, refl, refl)
        by_payload (some payload) =
            handle_op-RowEnd r (record p { polled = suc p.polled }) (parse_row r payload)

    -- A page that stops has made progress only below the row at which it stops.
    abbrev StopsBelow : Pulling F → PageEnd F → Type 0
    StopsBelow p (stopped q x) =
        (s : ℕ) × (x.seq ≡ some s)
        × (p.handled ≤ q.handled)
        × (q.handled < s)
        × (q.machine.sync_cursor ≡ p.machine.sync_cursor)
    StopsBelow p (finished q) =
        (p.handled ≤ q.handled) × (q.machine.sync_cursor ≡ p.machine.sync_cursor)

    StopsBelow-later :
        (p q : Pulling F) (e : PageEnd F)
        → p.handled ≤ q.handled
        → q.machine.sync_cursor ≡ p.machine.sync_cursor
        → StopsBelow q e
        → StopsBelow p e
    StopsBelow-later p q (stopped t x) le same (s, at, up, below, c) =
        (s, at, omega arith, below, c ∙ same)
    StopsBelow-later p q (finished t) le same (up, c) = (omega arith, c ∙ same)

    handle_rows-StopsBelow :
        (rs : List RemoteRow) (p : Pulling F)
        → RowsAscend p.handled rs
        → StopsBelow p (handle_rows store decrypt machine_id rs p)
    unfolding handle_rows
    handle_rows-StopsBelow [] p h = (omega arith, refl)
    handle_rows-StopsBelow (r ∷ rs) p (s, at, above, rest) =
        after (handle_row store decrypt machine_id r p) (handle_row-RowEnd r p)
          (handle_rows-StopsBelow rs)
      where
        after :
            (e : PageEnd F)
            → RowEnd r p e
            → ((q : Pulling F)
                → RowsAscend q.handled rs
                → StopsBelow q (handle_rows store decrypt machine_id rs q))
            → StopsBelow p (then_rows (handle_rows store decrypt machine_id rs) e)
        after (stopped q x) (same, kept, c) more =
            (s, ap (λ (y : RemoteRow). y.seq) same ∙ at, omega arith, omega arith, c)
        after (finished q) (reached, c) more =
            let here : q.handled ≡ s = reached ∙ ap (λ o. or_seq o p.handled) at in
            StopsBelow-later p q _ (omega arith) c (more q (rw here rest))
