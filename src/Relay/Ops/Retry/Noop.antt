-- ===== src/Relay/Ops/Retry/Noop.antt =====
-- The whole batch sent again (packages/relay/src/routes/ops.ts).
use kontexta.Base.{
  ℕ, String, ◌≡◌, refl, ap, true, Option, none, some, List, [], ◌∷◌, arith, find_row, All,
}
use kontexta.Relay.Tables.{NewOp, OpRow, Db}
use kontexta.Relay.Store.{version_at, Found, sent_as, find_by_client_seq}
use kontexta.Relay.Members.{touch_machine}
use kontexta.Relay.Ops.{OpResult, Batch, duplicate_of, existing, post_op, post_all, post_batch}
use kontexta.Relay.Ops.Retry.{IsSettled, AllSettled, IsNumbered, AllSettled-posted}

-- The answer to a retry: each result again, marked as a duplicate.
abbrev pub SameAnswers : List OpResult → List OpResult → Type 0
SameAnswers [] [] = Unit
SameAnswers [] (q ∷ qs) = ⊥
SameAnswers (r ∷ rs) [] = ⊥
SameAnswers (r ∷ rs) (q ∷ qs) =
    ((q.seq ≡ r.seq) × (q.status ≡ r.status) × (q.duplicate ≡ true)) × SameAnswers rs qs

abbrev found_of : ℕ → OpRow → Db → Found
found_of b o db = record {
  seq = o.seq;
  status = o.status;
  version = version_at b o.gid o.kind_family o.seq db;
}

existing-of-logged :
    (b : ℕ) (op : NewOp) (c : Option ℕ) (n : ℕ) (o : OpRow) (db : Db)
    → c ≡ some n
    → find_row (sent_as b op.origin n) db.ops ≡ some o
    → existing b op c db ≡ some (found_of b o db)
unfolding existing find_by_client_seq
existing-of-logged b op none n o db e h = cc
existing-of-logged b op (some m) n o db e h = ground arith

post_op-settled :
    (b now : ℕ) (op : NewOp) (r : OpResult) (s : Batch)
    → IsSettled b op r s.db
    → (q : OpResult) × (post_op b now op s ≡ (s, q))
      × (q.seq ≡ r.seq)
      × (q.status ≡ r.status)
      × (q.duplicate ≡ true)
post_op-settled b now op r s h =
    let known = existing-of-logged b op op.client_seq h.number h.row s.db h.numbered h.logged in
    (
      duplicate_of op.client_seq (found_of b h.row s.db),
      unfold post_op in rw (known, post_op) refl,
      h.same_seq,
      h.same_status,
      refl,
    )

post_all-settled :
    (b now : ℕ) (ops : List NewOp) (rs : List OpResult) (s : Batch)
    → AllSettled b ops rs s.db
    → (qs : List OpResult) × (post_all b now ops s ≡ (s, qs)) × SameAnswers rs qs
unfolding post_all
post_all-settled b now [] [] s h = ([], refl, tt)
post_all-settled b now [] (r ∷ rs) s h = elim h [ ]
post_all-settled b now (op ∷ ops) [] s h = elim h [ ]
post_all-settled b now (op ∷ ops) (r ∷ rs) s h =
    let one = post_op-settled b now op r s h.0 in
    let rest = post_all-settled b now ops rs s h.1 in
    (one.0 ∷ rest.0, rw (one.1, rest.1) refl, ((one.2, one.3, one.4), rest.2))

AllSettled-touch :
    (b now : ℕ) (machine : String) (ops : List NewOp) (rs : List OpResult) (db : Db)
    → AllSettled b ops rs db
    → AllSettled b ops rs (touch_machine now b machine none db)
unfolding touch_machine
AllSettled-touch b now machine [] [] db h = tt
AllSettled-touch b now machine [] (r ∷ rs) db h = h
AllSettled-touch b now machine (op ∷ ops) [] db h = h
AllSettled-touch b now machine (op ∷ ops) (r ∷ rs) db (h, hs) = (
  record {
    number = h.number;
    row = h.row;
    numbered = h.numbered;
    logged = h.logged;
    same_seq = h.same_seq;
    same_status = h.same_status;
  },
  AllSettled-touch b now machine ops rs db hs,
)

-- Sending a batch of numbered ops a second time gives every op the number and the verdict of the
-- first time, marked as a duplicate, and changes no log entry, kept record, parked conflict or
-- counter.
pub retry_is_noop :
    (b first later : ℕ) (machine : String) (ops : List NewOp) (db : Db)
    → All IsNumbered ops
    → let (once, rs) = post_batch b first machine ops db in
      let (twice, qs) = post_batch b later machine ops once in
      (twice.ops ≡ once.ops)
      × (twice.records ≡ once.records)
      × (twice.conflicts ≡ once.conflicts)
      × (twice.op_seq ≡ once.op_seq)
      × SameAnswers rs qs
unfolding post_batch touch_machine
retry_is_noop b first later machine ops db h =
    let once = post_all b first ops (record { db = db; lost = [] }) in
    let again =
      post_all-settled b later ops once.1
        (record { db = touch_machine first b machine none once.0.db; lost = [] })
        (AllSettled-touch b first machine ops once.1 once.0.db
          (AllSettled-posted b first ops (record { db = db; lost = [] }) h)) in
    (
      ap (λ t. t.0.db.ops) again.1,
      ap (λ t. t.0.db.records) again.1,
      ap (λ t. t.0.db.conflicts) again.1,
      ap (λ t. t.0.db.op_seq) again.1,
      rw again.1 again.2,
    )
