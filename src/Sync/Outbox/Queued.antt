-- ===== src/Sync/Outbox/Queued.antt =====
-- What `enqueueOp` adds to the queue (packages/core/src/storage/outbox.ts).
use mathlib.Core.Path.{subst}
use kontexta.Base.{
  ℕ, ◌≡◌, refl, sym, ap, inl, inr, Option, none, some, [], ◌∷◌, ◌++◌, arith, some-eq, if-cases,
}
use kontexta.Sync.Op.{Op, parse_op}
use kontexta.Sync.Outbox.{OutboxRow, Local, append_row, enqueue_op}

-- One row for the operation, at the end.
abbrev pub Queued : Op → Local → Local × ℕ → Type 0
Queued op db (after, id) =
    (r : OutboxRow) × ((after.outbox ≡ db.outbox ++ r ∷ [])
      × ((r.gid ≡ op.gid) × ((r.kind ≡ op.kind) × ((r.payload ≡ op.payload) × (r.id ≡ id)))))

parse_op-same : (op x : Op) → parse_op op ≡ some x → op ≡ x
unfolding parse_op
parse_op-same op x h = elim (if-cases _ (some op) none (some x) h) [
  | inl (e, g) ↦ some-eq g
  | inr (e, g) ↦ grind (arith, g)
]

append_row-Queued :
    (op : Op) (o : Option Op) (db : Local) (y : Local × ℕ)
    → ((x : Op) → o ≡ some x → op ≡ x)
    → append_row o db ≡ some y
    → Queued op db y
append_row-Queued op none db y same h = grind (arith, h)
append_row-Queued op (some x) db y same h =
    let own = same x refl in
    subst (Queued op db) (some-eq h) (
      _,
      (
        refl,
        (
          ap (λ (z : Op). z.gid) (sym own),
          (ap (λ (z : Op). z.kind) (sym own), (ap (λ (z : Op). z.payload) (sym own), refl)),
        ),
      ),
    )

pub enqueue_op-Queued :
    (op : Op) (db : Local) (y : Local × ℕ) → enqueue_op op db ≡ some y → Queued op db y
unfolding enqueue_op
enqueue_op-Queued op db y h =
    append_row-Queued op (parse_op op) db y (λ x e. parse_op-same op x e) h
