-- ===== src/Relay/Ops/Steps.antt =====
-- One round of POST /ops, split on what the log already holds.
use kontexta.Base.{
  ℕ, suc, String, ◌≡◌, refl, inl, inr, false, none, some, [], ◌∷◌, ◌++◌, arith, Option-cases,
}
use kontexta.Relay.Wire.{kind_family}
use kontexta.Relay.Tables.{Status, NewOp, Db, accepted, conflict}
use kontexta.Relay.Store.{current_version, new_row, append_op, Found}
use kontexta.Relay.Ops.{
  OpResult, has_key, is_stale, Batch, status_of, post_new, duplicate_of, existing, post_op,
}

pub append_op-ops :
    (b now : ℕ) (op : NewOp) (family : String) (status : Status) (db : Db)
    → (append_op b now op family status db).0.ops
      ≡ db.ops ++ new_row b now op family status (suc db.op_seq) ∷ []
unfolding append_op
append_op-ops b now op family accepted db = refl
append_op-ops b now op family conflict db = refl

pub append_op-seq :
    (b now : ℕ) (op : NewOp) (family : String) (status : Status) (db : Db)
    → (append_op b now op family status db).1.seq ≡ suc db.op_seq
unfolding append_op
append_op-seq b now op family accepted db = refl
append_op-seq b now op family conflict db = refl

pub post_op_cases :
    (P : Batch × OpResult → Type 0) (b now : ℕ) (op : NewOp) (s : Batch)
    → (existing b op op.client_seq s.db ≡ none → P (post_new b now op s))
    → ((f : Found)
        → existing b op op.client_seq s.db ≡ some f
        → P (s, duplicate_of op.client_seq f))
    → P (post_op b now op s)
unfolding post_op
post_op_cases P b now op s fresh known = elim (Option-cases (existing b op op.client_seq s.db)) [
  | inl e ↦ rw (e, post_op) (fresh e)
  | inr (f, e) ↦ rw (e, post_op) (known f e)
]

-- An op that is not stale is accepted while nothing of the batch has lost.
pub post_new-accepted :
    (b now : ℕ) (op : NewOp) (s : Batch)
    → s.lost ≡ []
    → is_stale op.base_version (current_version b op.gid (kind_family op.kind) s.db) ≡ false
    → let (s', r) = post_new b now op s in
      (r.status ≡ accepted)
      × (s'.db ≡ (append_op b now op (kind_family op.kind) accepted s.db).0)
      × (s'.lost ≡ [])
unfolding post_new
post_new-accepted b now op s clean fresh =
    let won : status_of b op s ≡ accepted = unfold status_of has_key in ground arith in
    (won, rw won refl, rw won clean)
