-- ===== src/Relay/Ops/Guard.antt =====
-- What reaches the log through POST /ops: the checks of the handler against the rows it writes.
use kontexta.Base.{
  ℕ, suc, String, ◌≡◌, refl, sym, ap, ◌∙◌, ◌≢◌, ◌⊎◌, inl, inr, true, Option, none, some, List, [],
  ◌∷◌, ◌++◌, append-nil, append_assoc, arith, eq_iff, ltb, Bool-cases, Option-cases, length, All,
  All-append,
}
use kontexta.Json.{Json}
use kontexta.Relay.Members.{touch_machine, Machine, authenticate}
use kontexta.Relay.Ops.Steps.{append_op-ops, post_op_cases}
use kontexta.Relay.Store.{new_row}
use kontexta.Relay.Tables.{NewOp, OpRow, Db}
use kontexta.Relay.Wire.{
  op_kinds, includes, kind_family, is_gid, is_envelope, validate_incoming_op, raw_ops,
}
use kontexta.Relay.Wire.Valid.{IsWellFormed, validate-IsWellFormed}
use kontexta.Relay.Ops.{
  max_ops_limit, Batch, status_of, post_new, post_op, post_all, post_batch, PostReply, post_status,
  Checked, refused, valid, cons_checked, check_op, check_ops, answer, post_array, post_body,
  post_ops, malformed_op,
}

-- A checked op is well-formed, sealed, and of the machine that sent it.
record IsOwn (machine : String) (op : NewOp) : Type 0 where
  own : op.origin ≡ machine
  sealed : is_envelope op.payload ≡ true
  formed : IsWellFormed op

cons_checked-valid :
    (op : NewOp) (rest : Checked) (ops : List NewOp)
    → cons_checked op rest ≡ valid ops
    → (tail : List NewOp) × (rest ≡ valid tail) × (ops ≡ op ∷ tail)
cons_checked-valid op (refused r) ops h = cc
cons_checked-valid op (valid tail) ops h = (tail, refl, cc)

check_op-valid :
    (machine : String) (i : ℕ) (op : NewOp) (rest : Checked) (ops : List NewOp)
    → check_op machine i (some op) rest ≡ valid ops
    → (is_envelope op.payload ≡ true) × (op.origin ≡ machine) × (cons_checked op rest ≡ valid ops)
check_op-valid machine i op rest ops h = ground (arith, eq_iff op.origin machine)

valid-eq : {xs ys : List NewOp} → valid xs ≡ valid ys → xs ≡ ys
valid-eq h = cc

check_ops-IsOwn :
    (machine : String) (i : ℕ) (raws : List Json) (ops : List NewOp)
    → check_ops machine i raws ≡ valid ops
    → All (IsOwn machine) ops
unfolding check_ops
check_ops-IsOwn machine i [] ops h = rw (← valid-eq h) tt
check_ops-IsOwn machine i (raw ∷ raws) ops h = elim (Option-cases (validate_incoming_op raw)) [
  | inl e ↦ let refusal : refused (malformed_op i) ≡ valid ops = rw e at h in cc
  | inr (op, e) ↦
      let (sealed, own, more) = check_op-valid machine i op _ ops (rw e at h) in
      let (tail, rest, eq) = cons_checked-valid op _ ops more in
      rw eq (
        record { own = own; sealed = sealed; formed = validate-IsWellFormed raw op e },
        check_ops-IsOwn machine (suc i) raws tail rest,
      )
]

-- A logged row of brain `who.brain_id` that its machine sent, sealed, of a known kind and family.
pub record IsOwnRow (who : Machine) (o : OpRow) : Type 0 where
  pub brain_ok : o.brain_id ≡ who.brain_id
  pub origin_ok : o.origin ≡ who.machine_id
  pub sealed : is_envelope o.payload ≡ true
  pub gid_ok : is_gid o.gid ≡ true
  pub kind_ok : includes op_kinds o.kind ≡ true
  pub family_ok : o.kind_family ≡ kind_family o.kind

-- `after` is `before` with rows of `who` added at the end.
abbrev pub Extends : Machine → List OpRow → List OpRow → Type 0
Extends who before after =
    (added : List OpRow) × (after ≡ before ++ added) × All (IsOwnRow who) added

Extends-refl : (who : Machine) (os : List OpRow) → Extends who os os
Extends-refl who os = ([], sym (append-nil os), tt)

Extends-trans :
    (who : Machine) (xs ys zs : List OpRow)
    → Extends who xs ys
    → Extends who ys zs
    → Extends who xs zs
Extends-trans who xs ys zs (a, e, h) (b, d, k) =
    (a ++ b, d ∙ (ap (λ t. t ++ b) e ∙ append_assoc xs a b), All-append (IsOwnRow who) a b h k)

module _ (who : Machine) (now : ℕ) where
  post_op-Extends :
      (op : NewOp) (s : Batch)
      → IsOwn who.machine_id op
      → Extends who s.db.ops (post_op who.brain_id now op s).0.db.ops
  post_op-Extends op s own =
      post_op_cases (λ t. Extends who s.db.ops t.0.db.ops) who.brain_id now op s
        (λ _.
          unfold post_new in
          (
            new_row who.brain_id now op (kind_family op.kind) (status_of who.brain_id op s)
                  (suc s.db.op_seq)
                ∷ [],
            append_op-ops who.brain_id now op _ (status_of who.brain_id op s) s.db,
            (
              record {
                brain_ok = refl;
                origin_ok = own.own;
                sealed = own.sealed;
                gid_ok = own.formed.gid_ok;
                kind_ok = own.formed.kind_ok;
                family_ok = refl;
              },
              tt,
            ),
          ))
        (λ f _. Extends-refl who s.db.ops)

  post_all-Extends :
      (ops : List NewOp) (s : Batch)
      → All (IsOwn who.machine_id) ops
      → Extends who s.db.ops (post_all who.brain_id now ops s).0.db.ops
  unfolding post_all
  post_all-Extends [] s own = Extends-refl who s.db.ops
  post_all-Extends (op ∷ ops) s own =
      Extends-trans who _ _ _ (post_op-Extends op s own.0)
        (post_all-Extends ops (post_op who.brain_id now op s).0 own.1)

answer-refused :
    (now : ℕ) (who : Machine) (db : Db) (checked : Checked)
    → post_status (answer now who db checked).1 ≢ 200
    → (answer now who db checked).0 ≡ db
answer-refused now who db (refused r) h = refl
answer-refused now who db (valid ops) h = absurd (h refl)

post_array-refused :
    (now : ℕ) (who : Machine) (db : Db) (raws : Option (List Json))
    → post_status (post_array now who db raws).1 ≢ 200
    → (post_array now who db raws).0 ≡ db
post_array-refused now who db none h = refl
post_array-refused now who db (some []) h = refl
post_array-refused now who db (some (raw ∷ raws)) h =
    elim (Bool-cases (ltb max_ops_limit (length (raw ∷ raws)))) [
      | inl e ↦ rw e
      | inr e ↦
          rw e (answer-refused now who db (check_ops who.machine_id 0 (raw ∷ raws)) (rw e at h))
    ]

post_body-refused :
    (now : ℕ) (who : Option Machine) (body : Option Json) (db : Db)
    → post_status (post_body now who body db).1 ≢ 200
    → (post_body now who body db).0 ≡ db
post_body-refused now none body db h = refl
post_body-refused now (some who) none db h = refl
post_body-refused now (some who) (some body) db h = post_array-refused now who db (raw_ops body) h

Checked-cases :
    (c : Checked) → ((r : PostReply) × (c ≡ refused r)) ⊎ ((ops : List NewOp) × (c ≡ valid ops))
Checked-cases (refused r) = inl (r, refl)
Checked-cases (valid ops) = inr (ops, refl)

post_array-Extends :
    (now : ℕ) (who : Machine) (db : Db) (raws : Option (List Json))
    → Extends who db.ops (post_array now who db raws).0.ops
unfolding post_batch touch_machine
post_array-Extends now who db none = Extends-refl who db.ops
post_array-Extends now who db (some []) = Extends-refl who db.ops
post_array-Extends now who db (some (raw ∷ raws)) =
    elim (Bool-cases (ltb max_ops_limit (length (raw ∷ raws)))) [
      | inl e ↦ rw e (Extends-refl who db.ops)
      | inr e ↦ rw e (elim (Checked-cases (check_ops who.machine_id 0 (raw ∷ raws))) [
        | inl (r, q) ↦ rw q (Extends-refl who db.ops)
        | inr (ops, q) ↦ rw q (
            post_all-Extends who now ops (record { db = db; lost = [] })
              (check_ops-IsOwn who.machine_id 0 (raw ∷ raws) ops q))
      ])
    ]

post_body-Extends :
    (now : ℕ) (who : Machine) (body : Option Json) (db : Db)
    → Extends who db.ops (post_body now (some who) body db).0.ops
post_body-Extends now who none db = Extends-refl who db.ops
post_body-Extends now who (some body) db = post_array-Extends now who db (raw_ops body)

module _ (hmac : String → String → String) (pepper : String) (now : ℕ) (header : Option String)
    (body : Option Json) (db : Db) where
  -- A request that is not answered with 200 changes nothing.
  pub post_ops_refused :
      post_status (post_ops hmac pepper now header body db).1 ≢ 200
      → (post_ops hmac pepper now header body db).0 ≡ db
  unfolding post_ops
  post_ops_refused h = post_body-refused now (authenticate hmac pepper header db) body db h

  -- An authenticated request only ever adds rows at the end of the log, and every row that it adds
  -- is of the token's own brain and machine, holds an encrypted envelope, and has a well-formed gid
  -- and a known kind under that kind's family.
  pub post_ops_appends_own :
      (who : Machine)
      → authenticate hmac pepper header db ≡ some who
      → Extends who db.ops (post_ops hmac pepper now header body db).0.ops
  unfolding post_ops
  post_ops_appends_own who e = rw e (post_body-Extends now who body db)
