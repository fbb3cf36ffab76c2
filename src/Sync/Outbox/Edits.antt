-- ===== src/Sync/Outbox/Edits.antt =====
-- What each statement on the outbox leaves of its rows (outbox.ts).
use kontexta.Sync.Op.{kind_family}
use kontexta.Base.{
  ℕ, suc, String, ◌≡◌, refl, Bool, false, not, ◌&&◌, some, List, [], ◌∷◌, map, arith, ltb, ◌==◌,
  select, update_rows, nat_eq, string_eq,
}
use kontexta.Sync.Outbox.{
  OutboxRow, Local, is_waiting, is_acked, record_gid_version, mark_lost_push, has_id, mark_sent,
  mark_acked, mark_failed, raise_base, bump_pending_bases, sent, acked, failed,
}
use kontexta.Sync.Outbox.Marks.{Cargo, cargo, map-update}

-- The edits in the queue, in order, without their delivery state.
abbrev pub edits : Local → List Cargo
edits db = map cargo db.outbox

pub edits-mark_failed :
    (id at : ℕ) (error : String) (db : Local) → edits (mark_failed id error at db) ≡ edits db
unfolding mark_failed
edits-mark_failed id at error db = map-update cargo _ _ db.outbox (λ r. refl)

pub edits-mark_acked : (id n : ℕ) (db : Local) → edits (mark_acked id n db) ≡ edits db
unfolding mark_acked
edits-mark_acked id n db = map-update cargo _ _ db.outbox (λ r. refl)

pub edits-mark_sent : (ids : List ℕ) (db : Local) → edits (mark_sent ids db) ≡ edits db
unfolding mark_sent
edits-mark_sent ids db = map-update cargo _ _ db.outbox (λ r. refl)

pub edits-bump :
    (g f : String) (id : ℕ) (db : Local) → edits (bump_pending_bases g f id db) ≡ edits db
unfolding bump_pending_bases
edits-bump g f id db = map-update cargo _ _ db.outbox (λ r. refl)

-- The bookkeeping of versions is on another table.
pub record_gid_version_outbox :
    (g f : String) (n : ℕ) (db : Local) → (record_gid_version g f n db).outbox ≡ db.outbox
unfolding record_gid_version
record_gid_version_outbox g f n db = refl

pub mark_lost_push_outbox : (g : String) (db : Local) → (mark_lost_push g db).outbox ≡ db.outbox
unfolding mark_lost_push
mark_lost_push_outbox g db = refl

abbrev pub acked_as : ℕ → OutboxRow → Bool
acked_as id r = is_acked r && id == r.id

-- The acknowledged rows with one id.
abbrev pub acks : ℕ → Local → List OutboxRow
acks id db = select (acked_as id) db.outbox

pub acks-mark_failed :
    (id other at : ℕ) (error : String) (db : Local)
    → acks id (mark_failed other error at db) ≡ acks id db
unfolding mark_failed
acks-mark_failed id other at error db = go db.outbox
  where
    go :
        (rows : List OutboxRow)
        → select (acked_as id) (
            update_rows
              (λ r. other == r.id && not (is_acked r))
              (λ r. record r {
                status = failed;
                attempts = suc r.attempts;
                next_attempt_at = some at;
                last_error = some error;
              })
              rows)
          ≡ select (acked_as id) rows
    go [] = refl
    go (r ∷ rows) = ground (arith, go rows)

pub acks-mark_acked :
    (id other n : ℕ) (db : Local)
    → (id == other) ≡ false
    → acks id (mark_acked other n db) ≡ acks id db
unfolding mark_acked
acks-mark_acked id other n db h = go db.outbox
  where
    go :
        (rows : List OutboxRow)
        → select (acked_as id) (
            update_rows
              (λ r. other == r.id)
              (λ r. record r { status = acked; server_seq = some n })
              rows)
          ≡ select (acked_as id) rows
    go [] = refl
    go (r ∷ rows) = ground (arith, go rows, h)

pub acks-mark_sent : (id : ℕ) (ids : List ℕ) (db : Local) → acks id (mark_sent ids db) ≡ acks id db
unfolding mark_sent
acks-mark_sent id ids db = go db.outbox
  where
    go :
        (rows : List OutboxRow)
        → select
            (acked_as id)
            (update_rows (λ r. has_id ids r && is_waiting r) (λ r. record r { status = sent }) rows)
          ≡ select (acked_as id) rows
    go [] = refl
    go (r ∷ rows) = ground (arith, go rows)

pub acks-bump :
    (id : ℕ) (g f : String) (other : ℕ) (db : Local)
    → acks id (bump_pending_bases g f other db) ≡ acks id db
unfolding bump_pending_bases
acks-bump id g f other db = go db.outbox
  where
    go :
        (rows : List OutboxRow)
        → select (acked_as id) (
            update_rows
              (λ r. r.gid == g && (ltb other r.id && (kind_family r.kind == f && is_waiting r)))
              raise_base
              rows)
          ≡ select (acked_as id) rows
    go [] = refl
    go (r ∷ rows) = ground (arith, go rows)
