-- ===== src/Relay/Ops/Isolation/Views.antt =====
-- What another brain is shown of its own data (store.ts, brains.ts and auth.ts).
use kontexta.Base.{
  ℕ, String, ◌≡◌, refl, sym, ap, ◌∙◌, ◌≢◌, Bool, true, List, [], ◌∷◌, arith, select, select-within,
}
use mathlib.Core.Path.{fun_ext}
use kontexta.Relay.Ops.Isolation.{
  op_of, kept_by, parked_by, SameBrain, post_batch-SameBrain, same_ops_since, same_found,
  same_current_version,
}
use kontexta.Relay.Tables.{NewOp, OpRow, RecordRow, ConflictRow, Db}
use kontexta.Relay.Members.{get_brain, hash_token, validate_client_token}
use kontexta.Relay.Store.{
  record_of, current_version, find_by_client_seq, ops_since, max_seq, latest_seq,
}
use kontexta.Relay.Snapshot.{
  record_after, conflict_after, gids_after, parked_of, snapshot_gid, snapshot_page, list_machines,
}
use kontexta.Relay.Ops.{post_batch}

max_seq-within : (c : ℕ) (os : List OpRow) → max_seq c (select (op_of c) os) ≡ max_seq c os
unfolding max_seq
max_seq-within c [] = refl
max_seq-within c (o ∷ os) = ground (arith, max_seq-within c os)

module _ (c : ℕ) (db db' : Db) (h : SameBrain c db db') where
  same_kept :
      (p : RecordRow → Bool)
      → ((r : RecordRow) → p r ≡ true → kept_by c r ≡ true)
      → select p db'.records ≡ select p db.records
  same_kept p k =
      sym (select-within p (kept_by c) db'.records k)
      ∙ ap (select p) h.same_records
      ∙ select-within p (kept_by c) db.records k

  same_parked :
      (p : ConflictRow → Bool)
      → ((r : ConflictRow) → p r ≡ true → parked_by c r ≡ true)
      → select p db'.conflicts ≡ select p db.conflicts
  same_parked p k =
      sym (select-within p (parked_by c) db'.conflicts k)
      ∙ ap (select p) h.same_conflicts
      ∙ select-within p (parked_by c) db.conflicts k

  same_gids_after : (after : String) → gids_after c after db' ≡ gids_after c after db
  unfolding gids_after
  same_gids_after after =
      rw
        (
          same_kept (record_after c after) (λ r e. ground (arith, e)),
          same_parked (conflict_after c after) (λ r e. ground (arith, e)),
        )
        refl

  same_snapshot_gid : (g : String) → snapshot_gid c db' g ≡ snapshot_gid c db g
  unfolding snapshot_gid
  same_snapshot_gid g =
      rw
        (
          same_kept (record_of c g) (λ r e. ground (arith, e)),
          same_parked (parked_of c g) (λ r e. ground (arith, e)),
        )
        refl

  same_snapshot_page :
      (after : String) (limit : ℕ)
      → snapshot_page c after limit db' ≡ snapshot_page c after limit db
  unfolding snapshot_page
  same_snapshot_page after limit = rw (same_gids_after after, fun_ext same_snapshot_gid) refl

  same_latest_seq : latest_seq c db' ≡ latest_seq c db
  unfolding latest_seq
  same_latest_seq =
      sym (max_seq-within c db'.ops) ∙ ap (max_seq c) h.same_ops ∙ max_seq-within c db.ops

  same_list_machines : list_machines c db' ≡ list_machines c db
  unfolding list_machines
  same_list_machines = rw h.same_machines refl

  same_get_brain : get_brain c db' ≡ get_brain c db
  unfolding get_brain
  same_get_brain = rw h.same_brains refl

  same_validate :
      (hmac : String → String → String) (pepper token : String)
      → validate_client_token hmac pepper token db' ≡ validate_client_token hmac pepper token db
  unfolding validate_client_token
  same_validate hmac pepper token = rw (h.same_holders (hash_token hmac pepper token)) refl

-- What the relay answers about brain `c` and which machine a token opens are the same in both databases.
pub record SameView (c : ℕ) (db db' : Db) : Type 0 where
  view_ops : (since limit : ℕ) → ops_since c since limit db' ≡ ops_since c since limit db
  view_versions : (g f : String) → current_version c g f db' ≡ current_version c g f db
  view_sent :
      (origin : String) (n : ℕ)
      → find_by_client_seq c origin n db' ≡ find_by_client_seq c origin n db
  view_snapshot :
      (after : String) (limit : ℕ)
      → snapshot_page c after limit db' ≡ snapshot_page c after limit db
  view_latest : latest_seq c db' ≡ latest_seq c db
  view_machines : list_machines c db' ≡ list_machines c db
  view_brain : get_brain c db' ≡ get_brain c db
  view_tokens :
      (hmac : String → String → String) (pepper token : String)
      → validate_client_token hmac pepper token db' ≡ validate_client_token hmac pepper token db

-- A batch that a machine of brain `b` posts leaves what the relay answers about every other brain `c` as it
-- was: its pages of operations with their versions, its accepted versions, its memory of what machines
-- sent, every page of its snapshot with the parked conflicts, its latest number, its machines and its
-- name. It also leaves the machine that each token opens.
pub post_batch_isolated :
    (b c now : ℕ) (machine : String) (ops : List NewOp) (db : Db)
    → b ≢ c
    → SameView c db (post_batch b now machine ops db).0
post_batch_isolated b c now machine ops db ne =
    let h = post_batch-SameBrain c b now ne machine ops db in
    record {
      view_ops = same_ops_since c db _ h;
      view_versions = same_current_version c db _ h;
      view_sent = same_found c db _ h;
      view_snapshot = same_snapshot_page c db _ h;
      view_latest = same_latest_seq c db _ h;
      view_machines = same_list_machines c db _ h;
      view_brain = same_get_brain c db _ h;
      view_tokens = same_validate c db _ h;
    }
