-- ===== src/Sync/Conflicts/Queries.antt =====
-- packages/core/src/storage/conflicts.ts: listing and reading the conflicts. `before` is SQLite's order of
-- the times of creation.
use mathlib.Core.Option
use kontexta.Base.{
  ℕ, String, ◌≡◌, refl, ap, ◌∙◌, inl, inr, Bool, true, false, not, ◌&&◌, ◌||◌, Option, none, some,
  List, [], ◌∷◌, arith, ltb, if◌then◌else◌, ◌==◌, Bool-cases, if-cases, select, find_row, nat_eq,
  string_eq,
}
use kontexta.Json.{JsNumber, nat}
use kontexta.Sync.Conflicts.{
  ConflictStatus, ConflictRecord, or_else, is_unresolved, conflict_id, unresolved, resolved,
}
use kontexta.Sync.Diff.{take, DiffResult, compute_diff}

pub data StatusFilter : Type 0 where
  all : StatusFilter
  only : ConflictStatus → StatusFilter

pub record ListConflictsOptions : Type 0 where
  pub status : Option StatusFilter
  pub limit : Option JsNumber

same_status : ConflictStatus → ConflictStatus → Bool
same_status unresolved unresolved = true
same_status resolved resolved = true
same_status _ _ = false

-- WHERE status = ?
passes : StatusFilter → ConflictRecord → Bool
unfolding same_status
passes all c = true
passes (only s) c = same_status c.status s

-- The record with the diff of its contents.
pub record FullRecord : Type 0 where
  pub conflict : ConflictRecord
  pub diff : DiffResult

pub row_to_record : ConflictRecord → FullRecord
row_to_record c = record {
  conflict = c;
  diff = compute_diff c.local_content c.remote_content none none;
}

-- LIMIT
limited : Option JsNumber → List ConflictRecord → List ConflictRecord
limited (some (nat n)) cs = if n == 0 then cs else take n cs
limited _ cs = cs

pub get_conflict_by_id : ℕ → List ConflictRecord → Option FullRecord
get_conflict_by_id id cs = Option.map row_to_record (find_row (conflict_id id) cs)

module _ (before : JsNumber → JsNumber → Bool) where
  -- created_at DESC, id DESC
  pub newer : ConflictRecord → ConflictRecord → Bool
  newer c d =
      before d.created_at c.created_at || (not (before c.created_at d.created_at) && ltb d.id c.id)

  insert_conflict : ConflictRecord → List ConflictRecord → List ConflictRecord
  insert_conflict c [] = c ∷ []
  insert_conflict c (d ∷ ds) =
      let rest = insert_conflict c ds in if newer d c then d ∷ rest else c ∷ d ∷ ds

  pub sort_conflicts : List ConflictRecord → List ConflictRecord
  unfolding insert_conflict
  sort_conflicts [] = []
  sort_conflicts (c ∷ cs) = insert_conflict c (sort_conflicts cs)

  pub list_conflicts : ListConflictsOptions → List ConflictRecord → List ConflictRecord
  unfolding passes limited or_else
  list_conflicts opts cs =
      limited opts.limit
        (sort_conflicts (select (passes (or_else opts.status (only unresolved))) cs))

  -- ORDER BY (CASE WHEN status = 'unresolved' THEN 0 ELSE 1 END) ASC, created_at DESC, id DESC
  comes_before : ConflictRecord → ConflictRecord → Bool
  unfolding newer
  comes_before c d =
      if is_unresolved c
      then (if is_unresolved d then newer c d else true)
      else (if is_unresolved d then false else newer c d)

  first_of : Option ConflictRecord → ConflictRecord → ConflictRecord
  unfolding comes_before
  first_of none c = c
  first_of (some d) c = if comes_before c d then c else d

  -- The first row in that order.
  best : List ConflictRecord → Option ConflictRecord
  unfolding first_of
  best [] = none
  best (c ∷ cs) = some (first_of (best cs) c)

  pub get_conflict : String → List ConflictRecord → Option FullRecord
  unfolding best
  get_conflict g cs = Option.map row_to_record (best (select (λ c. c.gid == g) cs))

  first_of-keeps :
      (o : Option ConflictRecord) (c : ConflictRecord)
      → is_unresolved c ≡ true
      → is_unresolved (first_of o c) ≡ true
  unfolding first_of comes_before
  first_of-keeps none c e = e
  first_of-keeps (some d) c e = elim (Bool-cases (is_unresolved d)) [
    | inl q ↦ elim (Bool-cases (newer c d)) [ inl n ↦ rw (e, q, n) e | inr n ↦ rw (e, q, n) q ]
    | inr q ↦ rw (e, q) e
  ]

  first_of-passes :
      (d c : ConflictRecord)
      → is_unresolved d ≡ true
      → is_unresolved c ≡ false
      → first_of (some d) c ≡ d
  unfolding first_of comes_before
  first_of-passes d c q e = rw (e, q) refl

  -- An unresolved row comes first where there is one.
  best-open :
      (cs : List ConflictRecord) (c : ConflictRecord)
      → find_row is_unresolved cs ≡ some c
      → (d : ConflictRecord) × (best cs ≡ some d) × (is_unresolved d ≡ true)
  unfolding best
  best-open [] c h = grind (arith, h)
  best-open (x ∷ cs) c h =
      elim (if-cases (is_unresolved x) (some x) (find_row is_unresolved cs) (some c) h) [
        | inl (e, _) ↦ (_, refl, first_of-keeps (best cs) x e)
        | inr (e, g) ↦
            let (d, p, q) = best-open cs c g in
            (d, ap (λ o. some (first_of o x)) p ∙ ap some (first_of-passes d x q e), q)
      ]

  -- `getConflict` gives an unresolved conflict where the record has one.
  get_conflict-open :
      (g : String) (cs : List ConflictRecord) (c : ConflictRecord)
      → find_row is_unresolved (select (λ c. c.gid == g) cs) ≡ some c
      → (d : ConflictRecord) × (get_conflict g cs ≡ some (row_to_record d))
        × (is_unresolved d ≡ true)
  unfolding get_conflict
  get_conflict-open g cs c h =
      let (d, p, q) = best-open (select (λ c. c.gid == g) cs) c h in (d, rw p refl, q)
