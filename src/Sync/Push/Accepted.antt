-- ===== src/Sync/Push/Accepted.antt =====
-- A machine's batch against the relay: the base versions that `pushOutbox` sends for several edits of
-- one record are the ones that POST /ops expects after the earlier edits of the batch.
use kontexta.Json.{Json}
use kontexta.Relay.Store.Versions.{FamiliesOk, current_version-accepted, append_op-FamiliesOk}
use kontexta.Relay.Ops.Steps.{post_op_cases, post_new-accepted}
use kontexta.Base.{
  ℕ, zero, suc, ◌+◌, ◌≤◌, String, ◌≡◌, refl, ◌⊎◌, inl, inr, true, false, Option, none, some, List,
  [], ◌∷◌, map, arith, eq_iff, All,
}
use kontexta.Relay.Wire
use kontexta.Relay.Tables.{NewOp, Db, accepted}
use kontexta.Relay.Store.{current_version, append_op}
use kontexta.Relay.Ops.{OpResult, is_stale, Batch, post_op, post_all, post_batch}
use kontexta.Sync.Op.{OpKind, kind_name, kind_family, file_create}
use kontexta.Sync.Outbox.{OutboxRow}
use kontexta.Sync.Push.{
  VersionKey, key_of_row, times_seen, base_or_zero, wire_base, wire_rows, to_server,
}

-- The relay's `kindFamily` mirrors the core's.
kind_family_mirror : (k : OpKind) → Wire.kind_family (kind_name k) ≡ kind_family k
unfolding Wire.kind_family kind_family
kind_family_mirror file_create = refl
kind_family_mirror _ = refl

wire_base-fresh :
    (base : Option ℕ) (p current : ℕ)
    → current ≤ base_or_zero base + p
    → is_stale (wire_base base p) current ≡ false
unfolding wire_base
wire_base-fresh none zero current h = ground arith
wire_base-fresh none (suc p) current h = ground arith
wire_base-fresh (some v) p current h = ground arith

-- The relay is no further than the row's base and the `seen` rows before it.
abbrev IsCurrent : ℕ → Db → List VersionKey → OutboxRow → Type 0
IsCurrent b db seen r =
    current_version b r.gid (kind_family r.kind) db
    ≤ base_or_zero r.base_version + times_seen (key_of_row r) seen

abbrev pub IsKept : OpResult → Type 0
IsKept r = (r.duplicate ≡ true) ⊎ (r.status ≡ accepted)

module _ (encrypt : Json → String → String → String → Json) (b now : ℕ) where
  sent_op : List VersionKey → OutboxRow → NewOp
  sent_op seen r =
      to_server encrypt
        (record { row = r; base = wire_base r.base_version (times_seen (key_of_row r) seen) })

  IsCurrent-fresh :
      (seen : List VersionKey) (r : OutboxRow) (db : Db)
      → IsCurrent b db seen r
      → let op = sent_op seen r in
        is_stale op.base_version (current_version b op.gid (Wire.kind_family op.kind) db) ≡ false
  unfolding sent_op to_server
  IsCurrent-fresh seen r db h = rw kind_family_mirror (
      wire_base-fresh r.base_version (times_seen (key_of_row r) seen)
        (current_version b r.gid (kind_family r.kind) db) h)

  -- What an accepted row does to the bound of a later one.
  IsCurrent-next :
      (seen : List VersionKey) (r q : OutboxRow) (db : Db)
      → FamiliesOk Wire.kind_family db
      → IsCurrent b db seen q
      → IsCurrent b
          (append_op b now (sent_op seen r) (Wire.kind_family (sent_op seen r).kind) accepted db).0
          (key_of_row r ∷ seen)
          q
  unfolding sent_op to_server times_seen
  IsCurrent-next seen r q db ok h = ground (
    arith,
    current_version-accepted Wire.kind_family b now (sent_op seen r) db b q.gid (kind_family q.kind)
        ok,
    kind_family_mirror r.kind,
    eq_iff r.gid q.gid,
    eq_iff (kind_family r.kind) (kind_family q.kind),
  )

  IsCurrent-seen :
      (seen : List VersionKey) (r q : OutboxRow) (db : Db)
      → IsCurrent b db seen q
      → IsCurrent b db (key_of_row r ∷ seen) q
  unfolding times_seen
  IsCurrent-seen seen r q db h = ground arith

  All-mono {ℓ κ} :
      {A : Type ℓ} (P Q : A → Type κ) (xs : List A) → ((x : A) → P x → Q x) → All P xs → All Q xs
  All-mono P Q [] f h = tt
  All-mono P Q (x ∷ xs) f h = (f x h.0, All-mono P Q xs f h.1)

  requests : List VersionKey → List OutboxRow → List NewOp
  requests seen rows = map (to_server encrypt) (wire_rows seen rows)

  -- One row: its verdict, and the state that the later rows meet.
  row_kept :
      (seen : List VersionKey) (r : OutboxRow) (rows : List OutboxRow) (s : Batch)
      → s.lost ≡ []
      → FamiliesOk Wire.kind_family s.db
      → IsCurrent b s.db seen r
      → All (IsCurrent b s.db seen) rows
      → let (s', q) = post_op b now (sent_op seen r) s in
        IsKept q
        × (s'.lost ≡ [])
        × FamiliesOk Wire.kind_family s'.db
        × All (IsCurrent b s'.db (key_of_row r ∷ seen)) rows
  row_kept seen r rows s clean ok h hs =
      post_op_cases
        (λ t.
          IsKept t.1
          × (t.0.lost ≡ [])
          × FamiliesOk Wire.kind_family t.0.db
          × All (IsCurrent b t.0.db (key_of_row r ∷ seen)) rows)
        b now (sent_op seen r) s
        (λ _.
          let (won, next, still) =
            post_new-accepted b now (sent_op seen r) s clean (IsCurrent-fresh seen r s.db h) in
          (
            inr won,
            still,
            rw next (append_op-FamiliesOk Wire.kind_family b now (sent_op seen r) s.db accepted ok),
            rw next (All-mono _ _ rows (λ q. IsCurrent-next seen r q s.db ok) hs),
          ))
        (λ f _. (inl refl, clean, ok, All-mono _ _ rows (λ q. IsCurrent-seen seen r q s.db) hs))

  rows_kept :
      (seen : List VersionKey) (rows : List OutboxRow) (s : Batch)
      → s.lost ≡ []
      → FamiliesOk Wire.kind_family s.db
      → All (IsCurrent b s.db seen) rows
      → All IsKept (post_all b now (requests seen rows) s).1
  unfolding post_all wire_rows sent_op requests
  rows_kept seen [] s clean ok h = tt
  rows_kept seen (r ∷ rows) s clean ok h =
      let (kept, clean', ok', h') = row_kept seen r rows s clean ok h.0 h.1 in
      (
        kept,
        rows_kept (key_of_row r ∷ seen) rows (post_op b now (sent_op seen r) s).0 clean' ok' h',
      )

  -- A batch whose every row has a base version no older than the relay's accepted version of its record
  -- and family is never parked as a conflict: each result is accepted, or a duplicate of an earlier
  -- request, however many of the rows edit one record and whatever deletes are among them. Every record
  -- that the relay keeps stands under the family of its kind.
  pub own_batch_accepted :
      (machine : String) (rows : List OutboxRow) (db : Db)
      → FamiliesOk Wire.kind_family db
      → All
          (λ r. current_version b r.gid (kind_family r.kind) db ≤ base_or_zero r.base_version)
          rows
      → All IsKept (post_batch b now machine (map (to_server encrypt) (wire_rows [] rows)) db).1
  unfolding post_batch requests times_seen
  own_batch_accepted machine rows db ok h =
      rows_kept [] rows (record { db = db; lost = [] }) refl ok
        (All-mono _ _ rows (λ r le. omega arith) h)
