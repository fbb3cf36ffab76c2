-- ===== src/Relay/Ops/Retry.antt =====
-- A batch that is sent again, as after a lost reply (routes/ops.ts and `findByClientSeq`).
pub mod Noop
use kontexta.Base.{
  ℕ, suc, String, ◌≡◌, refl, sym, inl, inr, Option, none, some, List, [], ◌∷◌, arith, eq_iff,
  Option-cases, find_row, All, find_row-append, find_row-append_new,
}
use kontexta.Relay.Tables.{Status, NewOp, OpRow, Db}
use kontexta.Relay.Wire.{kind_family}
use kontexta.Relay.Store.{new_row, append_op, Found, sent_as, find_by_client_seq}
use kontexta.Relay.Ops.Steps.{append_op-ops, append_op-seq, post_op_cases}
use kontexta.Relay.Ops.{
  OpResult, Batch, status_of, post_new, duplicate_of, existing, post_op, post_all,
}

-- The log holds the op, with the number and the verdict that `r` reported.
pub record IsSettled (b : ℕ) (op : NewOp) (r : OpResult) (db : Db) : Type 0 where
  pub number : ℕ
  pub row : OpRow
  pub numbered : op.client_seq ≡ some number
  pub logged : find_row (sent_as b op.origin number) db.ops ≡ some row
  pub same_seq : row.seq ≡ r.seq
  pub same_status : row.status ≡ r.status

IsSettled-append :
    (b now : ℕ) (op : NewOp) (r : OpResult) (next : NewOp) (family : String) (status : Status)
    (db : Db)
    → IsSettled b op r db
    → IsSettled b op r (append_op b now next family status db).0
IsSettled-append b now op r next family status db h = record {
  number = h.number;
  row = h.row;
  numbered = h.numbered;
  logged =
      rw append_op-ops (find_row-append (sent_as b op.origin h.number) db.ops _ h.row h.logged);
  same_seq = h.same_seq;
  same_status = h.same_status;
}

IsSettled-post_op :
    (b now : ℕ) (op : NewOp) (r : OpResult) (next : NewOp) (s : Batch)
    → IsSettled b op r s.db
    → IsSettled b op r (post_op b now next s).0.db
IsSettled-post_op b now op r next s h =
    post_op_cases (λ t. IsSettled b op r t.0.db) b now next s
      (λ _. unfold post_new in IsSettled-append b now op r next _ (status_of b next s) s.db h)
      (λ f _. h)

find_row-of-none :
    (b : ℕ) (op : NewOp) (c : Option ℕ) (n : ℕ) (db : Db)
    → c ≡ some n
    → existing b op c db ≡ none
    → find_row (sent_as b op.origin n) db.ops ≡ none
unfolding existing find_by_client_seq
find_row-of-none b op none n db e h = cc
find_row-of-none b op (some m) n db e h = ground arith

find_row-of-some :
    (b : ℕ) (op : NewOp) (c : Option ℕ) (n : ℕ) (f : Found) (db : Db)
    → c ≡ some n
    → existing b op c db ≡ some f
    → (o : OpRow) × (find_row (sent_as b op.origin n) db.ops ≡ some o)
      × (o.seq ≡ f.seq)
      × (o.status ≡ f.status)
unfolding existing find_by_client_seq
find_row-of-some b op none n f db e h = cc
find_row-of-some b op (some m) n f db e h =
    elim (Option-cases (find_row (sent_as b op.origin m) db.ops)) [
      | inl absent ↦ ground arith
      | inr (o, there) ↦ (o, ground arith, ground arith, ground arith)
    ]

IsSettled-new :
    (b now : ℕ) (op : NewOp) (n : ℕ) (s : Batch)
    → op.client_seq ≡ some n
    → existing b op op.client_seq s.db ≡ none
    → IsSettled b op (post_new b now op s).1 (post_new b now op s).0.db
unfolding post_new
IsSettled-new b now op n s e absent = record {
  number = n;
  row = new_row b now op (kind_family op.kind) (status_of b op s) (suc s.db.op_seq);
  numbered = e;
  logged = rw append_op-ops (
      find_row-append_new (sent_as b op.origin n) s.db.ops
        (new_row b now op (kind_family op.kind) (status_of b op s) (suc s.db.op_seq))
        (find_row-of-none b op op.client_seq n s.db e absent)
        (ground (arith, eq_iff op.origin op.origin)));
  same_seq = sym (append_op-seq b now op _ (status_of b op s) s.db);
  same_status = refl;
}

IsSettled-known :
    (b : ℕ) (op : NewOp) (n : ℕ) (f : Found) (db : Db)
    → op.client_seq ≡ some n
    → existing b op op.client_seq db ≡ some f
    → IsSettled b op (duplicate_of op.client_seq f) db
IsSettled-known b op n f db e h =
    let found = find_row-of-some b op op.client_seq n f db e h in
    record {
      number = n;
      row = found.0;
      numbered = e;
      logged = found.1;
      same_seq = found.2;
      same_status = found.3;
    }

-- Every op of the batch has its result in the log.
abbrev pub AllSettled : ℕ → List NewOp → List OpResult → Db → Type 0
AllSettled b [] [] db = Unit
AllSettled b [] (r ∷ rs) db = ⊥
AllSettled b (op ∷ ops) [] db = ⊥
AllSettled b (op ∷ ops) (r ∷ rs) db = IsSettled b op r db × AllSettled b ops rs db

abbrev pub IsNumbered : NewOp → Type 0
IsNumbered op = (n : ℕ) × (op.client_seq ≡ some n)

IsSettled-post_all :
    (b now : ℕ) (op : NewOp) (r : OpResult) (ops : List NewOp) (s : Batch)
    → IsSettled b op r s.db
    → IsSettled b op r (post_all b now ops s).0.db
unfolding post_all
IsSettled-post_all b now op r [] s h = h
IsSettled-post_all b now op r (next ∷ ops) s h =
    IsSettled-post_all b now op r ops (post_op b now next s).0
      (IsSettled-post_op b now op r next s h)

IsSettled-posted :
    (b now : ℕ) (op : NewOp) (n : ℕ) (s : Batch)
    → op.client_seq ≡ some n
    → IsSettled b op (post_op b now op s).1 (post_op b now op s).0.db
IsSettled-posted b now op n s e =
    post_op_cases (λ t. IsSettled b op t.1 t.0.db) b now op s (IsSettled-new b now op n s e)
      (λ f. IsSettled-known b op n f s.db e)

AllSettled-posted :
    (b now : ℕ) (ops : List NewOp) (s : Batch)
    → All IsNumbered ops
    → AllSettled b ops (post_all b now ops s).1 (post_all b now ops s).0.db
unfolding post_all
AllSettled-posted b now [] s h = tt
AllSettled-posted b now (op ∷ ops) s h = (
  IsSettled-post_all b now op _ ops _ (IsSettled-posted b now op h.0.0 s h.0.1),
  AllSettled-posted b now ops (post_op b now op s).0 h.1,
)
