-- ===== src/Sync/Push/Custody.antt =====
-- One drain of the outbox as the owner of a queued edit sees it (client.ts, `pushOutbox`).
use kontexta.Sync.Outbox.Marks.{cargo, map-update}
use kontexta.Base.{
  ℕ, String, ◌≡◌, refl, ap, ◌∙◌, inl, inr, Bool, true, false, Option, none, some, List, [], ◌∷◌,
  map, arith, nat_beq_iff, if◌then◌else◌, ◌==◌, Bool-cases, select, update_rows, nat_eq, string_eq,
}
use kontexta.Sync.Outbox.{
  OutboxRow, Local, record_gid_version, mark_lost_push, mark_sent, mark_acked, mark_failed,
  bump_pending_bases, pending,
}
use kontexta.Sync.Outbox.Edits.{
  edits, edits-mark_failed, edits-mark_acked, edits-mark_sent, edits-bump,
  record_gid_version_outbox, mark_lost_push_outbox, acked_as, acks, acks-mark_failed,
  acks-mark_acked, acks-mark_sent, acks-bump,
}
use kontexta.Sync.Push.{
  Wire, wire_rows, is_sent, requeue, due_rows, ServerResult, Reply, request_failed, http_error,
  malformed_reply, results, result_for, PushState, retry_at, settle_with, settle_row, settle_rows,
  fail_batch, settle_reply, Readiness, push_due, push_outbox, not_connected, bootstrap_pending,
  no_brain_key, ready,
}

-- A view of the local state that every step on a row of the batch keeps.
record IsKept {ℓ} {V : Type ℓ} (view : Local → V) (allowed : ℕ → Type 0) : Type ℓ where
  on_failed :
      (id at : ℕ) (error : String) (db : Local) → view (mark_failed id error at db) ≡ view db
  on_acked : (id n : ℕ) (db : Local) → allowed id → view (mark_acked id n db) ≡ view db
  on_bump : (g f : String) (id : ℕ) (db : Local) → view (bump_pending_bases g f id db) ≡ view db
  on_version : (g f : String) (n : ℕ) (db : Local) → view (record_gid_version g f n db) ≡ view db
  on_lost : (g : String) (db : Local) → view (mark_lost_push g db) ≡ view db
  on_sent : (ids : List ℕ) (db : Local) → view (mark_sent ids db) ≡ view db

-- What the server answered about a row.
abbrev pub answer : Reply → ℕ → Option ServerResult
answer (results rs) id = result_for id rs
answer _ id = none

module _ {ℓ} {V : Type ℓ} (view : Local → V) (allowed : ℕ → Type 0) (k : IsKept view allowed) where
  fail_batch_keeps :
      (later : ℕ) (error : String) (rows : List OutboxRow) (db : Local)
      → view (fail_batch later error rows db) ≡ view db
  unfolding fail_batch
  fail_batch_keeps later error [] db = refl
  fail_batch_keeps later error (r ∷ rows) db =
      fail_batch_keeps later error rows (mark_failed r.id error (retry_at later r) db)
      ∙ k.on_failed r.id (retry_at later r) error db

  noted_keeps :
      (lost : Bool) (g : String) (db : Local)
      → view (if lost then mark_lost_push g db else db) ≡ view db
  noted_keeps true g db = k.on_lost g db
  noted_keeps false g db = refl

  bumped_keeps :
      (lost : Bool) (g f : String) (id : ℕ) (db : Local)
      → view (if lost then db else bump_pending_bases g f id db) ≡ view db
  bumped_keeps true g f id db = refl
  bumped_keeps false g f id db = k.on_bump g f id db

  settle_with_keeps :
      (later : ℕ) (before : Local) (w : Wire) (s : PushState) (o : Option ServerResult)
      → ((r : ServerResult) → o ≡ some r → allowed w.row.id)
      → view (settle_with later before w s o).db ≡ view s.db
  settle_with_keeps later before w s none h = k.on_failed w.row.id (retry_at later w.row) _ s.db
  settle_with_keeps later before w s (some r) h =
      bumped_keeps (r.status == "conflict") _ _ _ _
      ∙ (k.on_version _ _ _ _ ∙ (k.on_acked _ _ _ (h r refl) ∙ noted_keeps _ w.row.gid s.db))

  settle_rows_keeps :
      (later : ℕ) (before : Local) (rs : List ServerResult) (ws : List Wire) (s : PushState)
      → ((id : ℕ) (r : ServerResult) → result_for id rs ≡ some r → allowed id)
      → view (settle_rows later before rs ws s).db ≡ view s.db
  unfolding settle_rows settle_row
  settle_rows_keeps later before rs [] s h = refl
  settle_rows_keeps later before rs (w ∷ ws) s h =
      settle_rows_keeps later before rs ws (settle_row later before rs w s) h
      ∙ settle_with_keeps later before w s (result_for w.row.id rs) (h w.row.id)

  settle_reply_keeps :
      (later : ℕ) (due : List OutboxRow) (reply : Reply) (db : Local)
      → ((id : ℕ) (r : ServerResult) → answer reply id ≡ some r → allowed id)
      → view (settle_reply later due reply db).0 ≡ view db
  unfolding settle_reply
  settle_reply_keeps later due (request_failed msg) db h = fail_batch_keeps later _ due db
  settle_reply_keeps later due (http_error msg) db h = fail_batch_keeps later _ due db
  settle_reply_keeps later due malformed_reply db h = fail_batch_keeps later _ due db
  settle_reply_keeps later due (results rs) db h =
      settle_rows_keeps later db rs (wire_rows [] due)
        (record { db = db; conflicts = []; delivered = 0 }) h

  push_due_keeps :
      (later : ℕ) (server : List Wire → Reply) (due : List OutboxRow) (db : Local)
      → ((ws : List Wire) (id : ℕ) (r : ServerResult) → answer (server ws) id ≡ some r → allowed id)
      → view (push_due later server due db).0 ≡ view db
  push_due_keeps later server [] db h = refl
  push_due_keeps later server (r ∷ rows) db h =
      settle_reply_keeps later (r ∷ rows) _ _ (h (wire_rows [] (r ∷ rows))) ∙ k.on_sent _ db

-- No drain loses, adds, reorders or changes a queued edit, whatever the server replies.
pub push_outbox_keeps_edits :
    (state : Readiness) (now later : ℕ) (server : List Wire → Reply) (db : Local)
    → edits (push_outbox state now later server db).0 ≡ edits db
unfolding push_outbox requeue
push_outbox_keeps_edits ready now later server db =
    push_due_keeps edits (λ _. Unit)
      (record {
        on_failed = edits-mark_failed;
        on_acked = λ id n d _. edits-mark_acked id n d;
        on_bump = edits-bump;
        on_version = λ g f n d. ap (map cargo) (record_gid_version_outbox g f n d);
        on_lost = λ g d. ap (map cargo) (mark_lost_push_outbox g d);
        on_sent = edits-mark_sent;
      })
      later server _ _ (λ _ _ _ _. tt)
    ∙ map-update cargo _ _ db.outbox (λ r. refl)
push_outbox_keeps_edits not_connected now later server db = refl
push_outbox_keeps_edits bootstrap_pending now later server db = refl
push_outbox_keeps_edits no_brain_key now later server db = refl

answered_other :
    (reply : Reply) (id other : ℕ) (r : ServerResult)
    → answer reply id ≡ none
    → answer reply other ≡ some r
    → (id == other) ≡ false
answered_other reply id other r h g = elim (Bool-cases (id == other)) [
  | inl e ↦ let same : id ≡ other = (nat_beq_iff id other).0 e in cc
  | inr e ↦ e
]

acks-requeue :
    (id : ℕ) (rows : List OutboxRow)
    → select (acked_as id) (update_rows is_sent (λ r. record r { status = pending }) rows)
      ≡ select (acked_as id) rows
acks-requeue id [] = refl
acks-requeue id (r ∷ rows) = ground (arith, acks-requeue id rows)

-- A drain acknowledges a row only when the server's reply has a result for it: without one, the
-- acknowledged rows with its id are the ones from before.
pub push_outbox-acks_answered :
    (state : Readiness) (now later : ℕ) (server : List Wire → Reply) (db : Local) (id : ℕ)
    → ((ws : List Wire) → answer (server ws) id ≡ none)
    → acks id (push_outbox state now later server db).0 ≡ acks id db
unfolding push_outbox requeue
push_outbox-acks_answered ready now later server db id h =
    push_due_keeps (acks id) (λ other. (id == other) ≡ false)
      (record {
        on_failed = acks-mark_failed id;
        on_acked = acks-mark_acked id;
        on_bump = acks-bump id;
        on_version = λ g f n d. ap (select (acked_as id)) (record_gid_version_outbox g f n d);
        on_lost = λ g d. ap (select (acked_as id)) (mark_lost_push_outbox g d);
        on_sent = acks-mark_sent id;
      })
      later server (due_rows now (requeue db)) (requeue db)
      (λ ws other r. answered_other (server ws) id other r (h ws))
    ∙ acks-requeue id db.outbox
push_outbox-acks_answered not_connected now later server db id h = refl
push_outbox-acks_answered bootstrap_pending now later server db id h = refl
push_outbox-acks_answered no_brain_key now later server db id h = refl
