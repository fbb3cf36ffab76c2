-- ===== src/Relay/Ops/Races.antt =====
-- Two machines that edit the same record, one batch whose first edit lost, and what a delete does to
-- the versions of a record's other families (routes/ops.ts, store.ts).
use kontexta.Base.{
  ℕ, suc, String, ◌≡◌, refl, ◌∙◌, ◌≢◌, ◌⊎◌, inl, inr, true, false, Option, none, some, List, [],
  ◌∷◌, arith, eq_iff, Bool-cases, count_rows-append,
}
use kontexta.Relay.Wire.{kind_family}
use kontexta.Relay.Tables.{Status, NewOp, Db, accepted, conflict}
use kontexta.Relay.Store.{
  is_tombstone_kind, current_version, at_most, append_op, counts_at, version_at,
}
use kontexta.Relay.Store.Versions.{FamiliesOk, current_version-accepted}
use kontexta.Relay.Ops.Steps.{append_op-ops, post_op_cases}
use kontexta.Relay.Ops.{
  OpResult, Key, key_eq, has_key, is_stale, Batch, note_lost, key_of, status_of, post_new, existing,
  post_op, post_all,
}

abbrev pub alone : Db → Batch
alone db = record { db = db; lost = [] }

post_op-fresh :
    (b now : ℕ) (op : NewOp) (s : Batch)
    → existing b op op.client_seq s.db ≡ none
    → post_op b now op s ≡ post_new b now op s
unfolding post_op
post_op-fresh b now op s e = rw (e, post_op) refl

-- A fresh op whose verdict is known moves the database as `append_op` does with it.
post_op-db :
    (b now : ℕ) (op : NewOp) (s : Batch) (status : Status)
    → existing b op op.client_seq s.db ≡ none
    → (post_op b now op s).1.status ≡ status
    → (post_op b now op s).0.db ≡ (append_op b now op (kind_family op.kind) status s.db).0
unfolding post_new
post_op-db b now op s status e h =
    let fresh = post_op-fresh b now op s e in
    let same : status_of b op s ≡ status = rw fresh at h in rw (fresh, post_new, same) refl

stale-conflict :
    (b now : ℕ) (op : NewOp) (db : Db)
    → existing b op op.client_seq db ≡ none
    → is_stale op.base_version (current_version b op.gid (kind_family op.kind) db) ≡ true
    → (post_op b now op (alone db)).1.status ≡ conflict
unfolding post_new status_of
stale-conflict b now op db e h = rw (post_op-fresh b now op (alone db) e) (ground arith)

behind-is_stale : (o : Option ℕ) (v : ℕ) → at_most o v ≡ true → is_stale o (suc v) ≡ true
behind-is_stale none v h = ground arith
behind-is_stale (some base) v h = ground arith

append_op-records :
    (b now : ℕ) (op : NewOp) (f : String) (db : Db)
    → (append_op b now op f conflict db).0.records ≡ db.records
unfolding append_op
append_op-records b now op f db = refl

module _ (b now later : ℕ) (op op' : NewOp) (db : Db) (ok : FamiliesOk kind_family db)
    (fresh : existing b op op.client_seq db ≡ none)
    (won : (post_op b now op (alone db)).1.status ≡ accepted) where
  winner :
      current_version b op.gid (kind_family op.kind) (post_op b now op (alone db)).0.db
      ≡ suc (current_version b op.gid (kind_family op.kind) db)
  winner = rw (post_op-db b now op (alone db) accepted fresh won) (
      ground (
        arith,
        current_version-accepted kind_family b now op db b op.gid (kind_family op.kind) ok,
        eq_iff op.gid op.gid,
        eq_iff (kind_family op.kind) (kind_family op.kind),
      ))

  -- Two new edits of one record and family, each posted alone, the first one accepted: the second one is
  -- parked as a conflict if it was made on the version before the first, on an older one or on none.
  -- The kept records and the version stay the first one's, the version one above what it was. Every
  -- kept record stands under the family of its kind.
  pub first_writer_wins :
      existing b op' op'.client_seq (post_op b now op (alone db)).0.db ≡ none
      → op'.gid ≡ op.gid
      → kind_family op'.kind ≡ kind_family op.kind
      → at_most op'.base_version (current_version b op.gid (kind_family op.kind) db) ≡ true
      → let db' = (post_op b now op (alone db)).0.db in
        let (after, r) = post_op b later op' (alone db') in
        (r.status ≡ conflict)
        × (after.db.records ≡ db'.records)
        × (current_version b op.gid (kind_family op.kind) after.db
            ≡ suc (current_version b op.gid (kind_family op.kind) db))
  unfolding current_version
  first_writer_wins fresh' same_gid same_family behind =
      let db' = (post_op b now op (alone db)).0.db in
      let parked : (post_op b later op' (alone db')).1.status ≡ conflict =
        stale-conflict b later op' db' fresh' (
          rw (same_gid, same_family, winner)
            (behind-is_stale op'.base_version (current_version b op.gid (kind_family op.kind) db)
              behind)) in
      let same : (post_op b later op' (alone db')).0.db.records ≡ db'.records =
        rw (post_op-db b later op' (alone db') conflict fresh' parked)
          (append_op-records b later op' (kind_family op'.kind) db') in
      (parked, same, rw same winner)

-- Of a key that has lost, every result is a conflict or a duplicate.
abbrev pub Loses : Key → List NewOp → List OpResult → Type 0
Loses k [] rs = Unit
Loses k (op ∷ ops) [] = Unit
Loses k (op ∷ ops) (r ∷ rs) =
    ((key_eq k (key_of op) ≡ false) ⊎ ((r.duplicate ≡ true) ⊎ (r.status ≡ conflict)))
    × Loses k ops rs

key_eq-eq : (j k : Key) → key_eq j k ≡ true → j ≡ k
key_eq-eq j k h = ground (arith, eq_iff j.gid k.gid, eq_iff j.family k.family)

note_lost-keeps :
    (st : Status) (k j : Key) (lost : List Key)
    → has_key k lost ≡ true
    → has_key k (note_lost st j lost) ≡ true
unfolding has_key
note_lost-keeps accepted k j lost h = h
note_lost-keeps conflict k j lost h = ground arith

has_key_self : (k : Key) (lost : List Key) → has_key k (k ∷ lost) ≡ true
unfolding has_key
has_key_self k lost = ground (arith, eq_iff k.gid k.gid, eq_iff k.family k.family)

post_op-keeps_lost :
    (b now : ℕ) (op : NewOp) (s : Batch) (k : Key)
    → has_key k s.lost ≡ true
    → has_key k (post_op b now op s).0.lost ≡ true
post_op-keeps_lost b now op s k h =
    post_op_cases (λ t. has_key k t.0.lost ≡ true) b now op s
      (λ _. unfold post_new in note_lost-keeps (status_of b op s) k (key_of op) s.lost h) (λ f _. h)

post_op-lost :
    (b now : ℕ) (op : NewOp) (s : Batch)
    → has_key (key_of op) s.lost ≡ true
    → let r = (post_op b now op s).1 in (r.duplicate ≡ true) ⊎ (r.status ≡ conflict)
post_op-lost b now op s h =
    post_op_cases (λ t. (t.1.duplicate ≡ true) ⊎ (t.1.status ≡ conflict)) b now op s
      (λ _. inr (unfold post_new status_of in ground arith)) (λ f _. inl refl)

post_all-Loses :
    (b now : ℕ) (k : Key) (ops : List NewOp) (s : Batch)
    → has_key k s.lost ≡ true
    → Loses k ops (post_all b now ops s).1
unfolding post_all
post_all-Loses b now k [] s h = tt
post_all-Loses b now k (op ∷ ops) s h = (
  elim (Bool-cases (key_eq k (key_of op))) [
    | inl e ↦ inr (post_op-lost b now op s (rw (← key_eq-eq k (key_of op) e) h))
    | inr e ↦ inl e
  ],
  post_all-Loses b now k ops (post_op b now op s).0 (post_op-keeps_lost b now op s k h),
)

post_op-notes :
    (b now : ℕ) (op : NewOp) (s : Batch)
    → existing b op op.client_seq s.db ≡ none
    → (post_op b now op s).1.status ≡ conflict
    → has_key (key_of op) (post_op b now op s).0.lost ≡ true
unfolding post_new
post_op-notes b now op s fresh h =
    let e = post_op-fresh b now op s fresh in
    let same : status_of b op s ≡ conflict = rw e at h in
    rw (e, post_new, same) (has_key_self (key_of op) s.lost)

-- After a new op of a batch was parked, every later op of the batch on the same record and family is
-- parked too, or is a duplicate from an earlier request.
pub conflict_spreads :
    (b now : ℕ) (op : NewOp) (ops : List NewOp) (s : Batch)
    → existing b op op.client_seq s.db ≡ none
    → (post_op b now op s).1.status ≡ conflict
    → Loses (key_of op) ops (post_all b now ops (post_op b now op s).0).1
conflict_spreads b now op ops s fresh lost =
    post_all-Loses b now (key_of op) ops (post_op b now op s).0
      (post_op-notes b now op s fresh lost)

-- Where every kept record stands under the family of its kind, an accepted delete resets the version
-- that decides conflicts to 0 for the record's other families, while the version that a pull and a
-- retry report for them stays as it was.
pub delete_forgets :
    (b now seq : ℕ) (op : NewOp) (f : String) (db : Db)
    → FamiliesOk kind_family db
    → is_tombstone_kind op.kind ≡ true
    → f ≢ kind_family op.kind
    → let db' = (append_op b now op (kind_family op.kind) accepted db).0 in
      (current_version b op.gid f db' ≡ 0)
      × (version_at b op.gid f seq db' ≡ version_at b op.gid f seq db)
unfolding version_at
delete_forgets b now seq op f db ok dead other = (
  current_version-accepted kind_family b now op db b op.gid f ok
      ∙ ground (arith, eq_iff (kind_family op.kind) f, eq_iff op.gid op.gid),
  rw append_op-ops (
      count_rows-append (counts_at b op.gid f seq) db.ops _
      ∙ ground (arith, eq_iff (kind_family op.kind) f)),
)
