-- ===== src/Relay/Ops/Isolation.antt =====
-- The rows of a brain after a batch of another one ("no method can reach another brain's rows",
-- store.ts).
pub mod Views
use kontexta.Base.{
  ℕ, max, String, ◌≡◌, refl, sym, ap, ◌∙◌, ◌≢◌, inl, inr, Bool, true, false, Option, none, some,
  List, [], ◌∷◌, append-nil, arith, ◌==◌, Option-cases, select, find_row, count_rows, update_rows,
  select-append, select-within, find_row-within, count_rows-within, select-delete, select-update,
  nat_eq, string_eq,
}
use kontexta.Relay.Members.{is_client, touch_machine, machine_of}
use kontexta.Relay.Ops.{Batch, status_of, post_new, post_op, post_all, post_batch}
use kontexta.Relay.Ops.Steps.{post_op_cases}
use mathlib.Core.Path.{fun_ext}
use kontexta.Relay.Tables.{
  Status, NewOp, OpRow, RecordRow, ConflictRow, ClientRow, Db, accepted, conflict,
}
use kontexta.Relay.Store.{
  record_of, max_version, current_version, upsert_record, parked_under, clear_parked, drop_records,
  append_op, counts_at, version_at, sent_as, find_by_client_seq, is_after, send_op, ops_since,
}

abbrev pub op_of : ℕ → OpRow → Bool
op_of c o = o.brain_id == c

abbrev pub kept_by : ℕ → RecordRow → Bool
kept_by c r = r.brain_id == c

abbrev pub parked_by : ℕ → ConflictRow → Bool
parked_by c r = r.brain_id == c

abbrev pub machine_in : ℕ → ClientRow → Bool
machine_in c r = r.brain_id == c

abbrev pub with_hash : String → ClientRow → Bool
with_hash h r = r.token_hash == h

-- The rows of brain `c`, and the machines that tokens open, are the
-- same in both databases.
pub record SameBrain (c : ℕ) (db db' : Db) : Type 0 where
  pub same_ops : select (op_of c) db'.ops ≡ select (op_of c) db.ops
  pub same_records : select (kept_by c) db'.records ≡ select (kept_by c) db.records
  pub same_conflicts : select (parked_by c) db'.conflicts ≡ select (parked_by c) db.conflicts
  pub same_brains : db'.brains ≡ db.brains
  pub same_machines : select (machine_in c) db'.clients ≡ select (machine_in c) db.clients
  pub same_holders :
      (h : String)
      → machine_of (find_row (with_hash h) db'.clients)
        ≡ machine_of (find_row (with_hash h) db.clients)

select-upsert :
    (c : ℕ) (new : RecordRow) (rs : List RecordRow)
    → new.brain_id ≢ c
    → select (kept_by c) (upsert_record new rs) ≡ select (kept_by c) rs
unfolding upsert_record
select-upsert c new [] h = ground arith
select-upsert c new (r ∷ rs) h = ground (arith, select-upsert c new rs h)

select-drop :
    (c b : ℕ) (tombstone : Bool) (g : String) (rs : List RecordRow)
    → b ≢ c
    → select (kept_by c) (drop_records tombstone b g rs) ≡ select (kept_by c) rs
unfolding drop_records
select-drop c b true g rs h = select-delete (kept_by c) (record_of b g) rs (λ r e. ground arith)
select-drop c b false g rs h = refl

select-clear :
    (c b : ℕ) (g f : String) (base : Option ℕ) (cs : List ConflictRow)
    → b ≢ c
    → select (parked_by c) (clear_parked b g f base cs) ≡ select (parked_by c) cs
unfolding clear_parked
select-clear c b g f none cs h = refl
select-clear c b g f (some v) cs h =
    select-delete (parked_by c) (parked_under b g f v) cs (λ r e. ground arith)

abbrev touched : ℕ → ClientRow → ClientRow
touched now r = record r { last_seen_at = now; acked_seq = max r.acked_seq 0 }

touch-holder :
    (now b : ℕ) (m h : String) (rows : List ClientRow)
    → machine_of (find_row (with_hash h) (update_rows (is_client b m) (touched now) rows))
      ≡ machine_of (find_row (with_hash h) rows)
touch-holder now b m h [] = refl
touch-holder now b m h (r ∷ rows) = ground (arith, touch-holder now b m h rows)

module _ (c b now : ℕ) (ne : b ≢ c) where
  append_op-SameBrain :
      (op : NewOp) (family : String) (status : Status) (db : Db)
      → SameBrain c db (append_op b now op family status db).0
  unfolding append_op
  append_op-SameBrain op family accepted db = record {
    same_ops = rw select-append (ground (arith, append-nil (select (op_of c) db.ops)));
    same_records = select-upsert c _ _ ne ∙ select-drop c b _ op.gid db.records ne;
    same_conflicts = select-clear c b op.gid family op.base_version db.conflicts ne;
    same_brains = refl;
    same_machines = refl;
    same_holders = λ h. refl;
  }
  append_op-SameBrain op family conflict db = record {
    same_ops = rw select-append (ground (arith, append-nil (select (op_of c) db.ops)));
    same_records = refl;
    same_conflicts =
        rw select-append (ground (arith, append-nil (select (parked_by c) db.conflicts)));
    same_brains = refl;
    same_machines = refl;
    same_holders = λ h. refl;
  }

  SameBrain-refl : (db : Db) → SameBrain c db db
  SameBrain-refl db = record {
    same_ops = refl;
    same_records = refl;
    same_conflicts = refl;
    same_brains = refl;
    same_machines = refl;
    same_holders = λ h. refl;
  }

  SameBrain-trans : (x y z : Db) → SameBrain c x y → SameBrain c y z → SameBrain c x z
  SameBrain-trans x y z h k = record {
    same_ops = k.same_ops ∙ h.same_ops;
    same_records = k.same_records ∙ h.same_records;
    same_conflicts = k.same_conflicts ∙ h.same_conflicts;
    same_brains = k.same_brains ∙ h.same_brains;
    same_machines = k.same_machines ∙ h.same_machines;
    same_holders = λ t. k.same_holders t ∙ h.same_holders t;
  }

  post_all-SameBrain : (ops : List NewOp) (s : Batch) → SameBrain c s.db (post_all b now ops s).0.db
  unfolding post_all
  post_all-SameBrain [] s = SameBrain-refl s.db
  post_all-SameBrain (op ∷ ops) s =
      SameBrain-trans s.db (post_op b now op s).0.db _
        (post_op_cases (λ t. SameBrain c s.db t.0.db) b now op s
          (λ _. unfold post_new in append_op-SameBrain op _ (status_of b op s) s.db)
          (λ f _. SameBrain-refl s.db))
        (post_all-SameBrain ops (post_op b now op s).0)

  pub post_batch-SameBrain :
      (machine : String) (ops : List NewOp) (db : Db)
      → SameBrain c db (post_batch b now machine ops db).0
  unfolding post_batch touch_machine
  post_batch-SameBrain machine ops db =
      let h = post_all-SameBrain ops (record { db = db; lost = [] }) in
      record {
        same_ops = h.same_ops;
        same_records = h.same_records;
        same_conflicts = h.same_conflicts;
        same_brains = h.same_brains;
        same_machines =
            select-update (machine_in c) (is_client b machine) (touched now) _
              (λ r e. ground (arith, e)) (λ r. refl)
            ∙ h.same_machines;
        same_holders = λ t. touch-holder now b machine t _ ∙ h.same_holders t;
      }

max_version-within :
    (c : ℕ) (g f : String) (rs : List RecordRow)
    → max_version c g f (select (kept_by c) rs) ≡ max_version c g f rs
unfolding max_version
max_version-within c g f [] = refl
max_version-within c g f (r ∷ rs) = ground (arith, max_version-within c g f rs)

module _ (c : ℕ) (db db' : Db) (h : SameBrain c db db') where
  same_count :
      (p : OpRow → Bool)
      → ((o : OpRow) → p o ≡ true → op_of c o ≡ true)
      → count_rows p db'.ops ≡ count_rows p db.ops
  same_count p k =
      sym (count_rows-within p (op_of c) db'.ops k)
      ∙ (ap (count_rows p) h.same_ops ∙ count_rows-within p (op_of c) db.ops k)

  same_select :
      (p : OpRow → Bool)
      → ((o : OpRow) → p o ≡ true → op_of c o ≡ true)
      → select p db'.ops ≡ select p db.ops
  same_select p k =
      sym (select-within p (op_of c) db'.ops k)
      ∙ (ap (select p) h.same_ops ∙ select-within p (op_of c) db.ops k)

  same_find :
      (p : OpRow → Bool)
      → ((o : OpRow) → p o ≡ true → op_of c o ≡ true)
      → find_row p db'.ops ≡ find_row p db.ops
  same_find p k =
      sym (find_row-within p (op_of c) db'.ops k)
      ∙ (ap (find_row p) h.same_ops ∙ find_row-within p (op_of c) db.ops k)

  same_version_at : (g f : String) (seq : ℕ) → version_at c g f seq db' ≡ version_at c g f seq db
  unfolding version_at
  same_version_at g f seq = same_count (counts_at c g f seq) (λ o e. ground arith)

  same_send_op : (o : OpRow) → send_op c db' o ≡ send_op c db o
  unfolding send_op
  same_send_op o = rw (same_version_at o.gid o.kind_family o.seq) refl

  pub same_ops_since : (since limit : ℕ) → ops_since c since limit db' ≡ ops_since c since limit db
  unfolding ops_since
  same_ops_since since limit =
      rw (same_select (is_after c since) (λ o e. ground arith), fun_ext same_send_op) refl

  pub same_found :
      (origin : String) (n : ℕ)
      → find_by_client_seq c origin n db' ≡ find_by_client_seq c origin n db
  unfolding find_by_client_seq
  same_found origin n = elim (Option-cases (find_row (sent_as c origin n) db.ops)) [
    | inl e ↦ ground (arith, found)
    | inr (o, e) ↦ ground (arith, found, same_version_at o.gid o.kind_family o.seq)
  ]
    where
      found : find_row (sent_as c origin n) db'.ops ≡ find_row (sent_as c origin n) db.ops
      found = same_find (sent_as c origin n) (λ o e. ground arith)

  pub same_current_version : (g f : String) → current_version c g f db' ≡ current_version c g f db
  unfolding current_version
  same_current_version g f =
      sym (max_version-within c g f db'.records)
      ∙ (ap (max_version c g f) h.same_records ∙ max_version-within c g f db.records)
