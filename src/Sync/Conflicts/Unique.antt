-- ===== src/Sync/Conflicts/Unique.antt =====
-- The unresolved conflicts of a record over every history of registrations and resolutions
-- (packages/core/src/storage/conflicts.ts).
use kontexta.Json.{Fields, member}
use mathlib.Core.Path.{subst}
use kontexta.Base.{
  ℕ, suc, ◌≤◌, String, ◌≡◌, refl, sym, ap, ◌∙◌, inl, inr, Bool, Option, none, some, List, [], ◌∷◌,
  arith, eq_iff, ◌==◌, Bool-cases, some-eq, find_row, count_rows, update_rows, count_rows-append,
  nat_eq, string_eq,
}
use kontexta.Sync.Op.{Op}
use kontexta.Sync.CopyName.{Env}
use kontexta.Sync.Conflicts.{
  ConflictKind, ConflictRecord, RegisterConflictInput, State, is_open, conflict_id, rewrite,
  put_conflict, draft, register_conflict, path,
}
use kontexta.Sync.Conflicts.Fork.{
  of_kind, set_kind, path_input, register_path_conflict, payload_fields, fork_at, fork_with,
  fork_conflict_from_op,
}
use kontexta.Sync.Conflicts.Resolve.{
  ResolveConflictOptions, ResolveConflictResult, ResolveError, done, threw,
}
use kontexta.Sync.Conflicts.Engine.{resolve_conflict}
use kontexta.Sync.Conflicts.Ended.{Ended, settle-fewer, resolve_conflict-Ended}

-- A record has at most one unresolved conflict.
abbrev pub OneOpen : State → Type 0
OneOpen s = (g : String) → count_rows (is_open g) s.conflicts ≤ 1

-- The calls that write the table, each with its outcome.
pub data Step (env : Env) (machine : String) : State → State → Type 0 where
  registered :
      (clock : ℕ) (i : RegisterConflictInput) (s : State)
      → Step env machine s (register_conflict env clock i s).0
  path_registered :
      (clock : ℕ) (op : Op) (p text : String) (s : State)
      → Step env machine s (register_path_conflict env clock op p text s).0
  forked :
      (clock : ℕ) (op : Op) (label : Option String) (seq : Option ℕ) (s t : State)
      (c : ConflictRecord)
      → fork_conflict_from_op env clock op label seq s ≡ some (t, c)
      → Step env machine s t
  resolved_with :
      (now : ℕ) (g : String) (o : ResolveConflictOptions) (s t : State) (r : ResolveConflictResult)
      → resolve_conflict env machine now g o s ≡ done t r
      → Step env machine s t
  not_resolved :
      (now : ℕ) (g : String) (o : ResolveConflictOptions) (s t : State) (e : ResolveError)
      → resolve_conflict env machine now g o s ≡ threw t e
      → Step env machine s t

pub data Reaches (env : Env) (machine : String) : State → State → Type 0 where
  start : (s : State) → Reaches env machine s s
  after : (s t u : State) → Reaches env machine s t → Step env machine t u → Reaches env machine s u

count_open-update :
    (g : String) (p : ConflictRecord → Bool) (f : ConflictRecord → ConflictRecord)
    (rows : List ConflictRecord)
    → ((c : ConflictRecord) → is_open g (f c) ≡ is_open g c)
    → count_rows (is_open g) (update_rows p f rows) ≡ count_rows (is_open g) rows
count_open-update g p f [] h = refl
count_open-update g p f (c ∷ rows) h = ground (arith, h c, count_open-update g p f rows h)

count-none :
    (g : String) (rows : List ConflictRecord)
    → find_row (is_open g) rows ≡ none
    → count_rows (is_open g) rows ≡ 0
count-none g [] h = refl
count-none g (c ∷ rows) h = ground (arith, h, count-none g rows)

put_conflict-OneOpen :
    (s : State) (new : ConflictRecord) (o : Option ConflictRecord)
    → find_row (is_open new.gid) s.conflicts ≡ o
    → OneOpen s
    → OneOpen (put_conflict o new s).0
unfolding put_conflict
put_conflict-OneOpen s new (some old) found h g =
    ground
      (arith, h g, count_open-update g (conflict_id old.id) (rewrite new) s.conflicts (λ c. refl))
put_conflict-OneOpen s new none found h g =
    let row = record new { id = suc s.conflicts_seq } in
    elim (Bool-cases (new.gid == g)) [
      | inl e ↦
          let same : new.gid ≡ g = (eq_iff new.gid g).0 e in
          let fresh : count_rows (is_open g) s.conflicts ≡ 0 =
            count-none g s.conflicts
              (ap (λ k. find_row (is_open k) s.conflicts) (sym same) ∙ found) in
          ground (arith, count_rows-append (is_open g) s.conflicts (row ∷ []), fresh)
      | inr e ↦ ground (arith, e, h g, count_rows-append (is_open g) s.conflicts (row ∷ []))
    ]

register_conflict-OneOpen :
    (env : Env) (clock : ℕ) (i : RegisterConflictInput) (s : State)
    → OneOpen s
    → OneOpen (register_conflict env clock i s).0
unfolding register_conflict
register_conflict-OneOpen env clock i s h =
    put_conflict-OneOpen (record s { disk = _ }) (draft i _ _ _) _ refl h

set_kind-OneOpen :
    (kind : ConflictKind) (x : State × ConflictRecord) → OneOpen x.0 → OneOpen (set_kind kind x).0
set_kind-OneOpen kind (s, c) h g =
    ground
      (arith, h g, count_open-update g (conflict_id c.id) (of_kind kind) s.conflicts (λ d. refl))

fork_with-OneOpen :
    (env : Env) (clock : ℕ) (op : Op) (label : String) (seq : Option ℕ) (fields : Option Fields)
    (s t : State) (c : ConflictRecord)
    → fork_with env clock op label seq fields s ≡ some (t, c)
    → OneOpen s
    → OneOpen t
fork_with-OneOpen env clock op label seq none s t c e h = grind (arith, e)
fork_with-OneOpen env clock op label seq (some fields) s t c e h =
    at (env.resolve_sync_path (member "path" fields) (member "rel_path" fields)) e
  where
    at : (p : Option String) → fork_at env clock op label seq fields p s ≡ some (t, c) → OneOpen t
    at none e = grind (arith, e)
    at (some p) e =
        rw (sym (ap (λ (x : State × ConflictRecord). x.0) (some-eq e)))
          (register_conflict-OneOpen env clock _ s h)

answered-OneOpen :
    (g : String) (now : ℕ) (s t : State) (r : ResolveConflictResult)
    → Ended g now s (done t r)
    → OneOpen s
    → OneOpen t
answered-OneOpen g now s t r (c, found, rows) h k =
    let fewer = settle-fewer k c.id r.strategy now s.conflicts in ground (arith, h k, rows, fewer)

thrown-OneOpen :
    (g : String) (now : ℕ) (s t : State) (e : ResolveError)
    → Ended g now s (threw t e)
    → OneOpen s
    → OneOpen t
thrown-OneOpen g now s t e (inl same) h k =
    ground (arith, h k, ap (λ (x : State). count_rows (is_open k) x.conflicts) same)
thrown-OneOpen g now s t e (inr same) h k =
    ground (arith, h k, ap (λ (x : State). count_rows (is_open k) x.conflicts) same)

Step-OneOpen :
    (env : Env) (machine : String) (s t : State) → Step env machine s t → OneOpen s → OneOpen t
unfolding register_path_conflict fork_conflict_from_op
Step-OneOpen env machine s t (registered clock i _) h = register_conflict-OneOpen env clock i s h
Step-OneOpen env machine s t (path_registered clock op p text _) h =
    let i = path_input op p text s in
    set_kind-OneOpen path (register_conflict env clock i s)
      (register_conflict-OneOpen env clock i s h)
Step-OneOpen env machine s t (forked clock op label seq _ _ c e) h =
    fork_with-OneOpen env clock op _ seq (payload_fields op.payload) s t c e h
Step-OneOpen env machine s t (resolved_with now g o _ _ r e) h =
    answered-OneOpen g now s t r
      (subst (Ended g now s) e (resolve_conflict-Ended env machine now g o s)) h
Step-OneOpen env machine s t (not_resolved now g o _ _ x e) h =
    thrown-OneOpen g now s t x
      (subst (Ended g now s) e (resolve_conflict-Ended env machine now g o s)) h

-- Whatever conflicts are registered, forked and resolved, with or without an error, a record never has
-- two unresolved conflicts, if none had two at the start.
pub one_unresolved :
    (env : Env) (machine : String) (s t : State) → Reaches env machine s t → OneOpen s → OneOpen t
one_unresolved env machine s t (start _) h = h
one_unresolved env machine s t (after _ u _ run step) h =
    Step-OneOpen env machine u t step (one_unresolved env machine s u run h)
