-- ===== src/Sync/Conflicts/Ended.antt =====
-- The end of a call of `resolveConflict` (packages/core/src/storage/conflicts.ts).
use mathlib.Core.Path.{subst}
use kontexta.Base.{
  ℕ, ◌≤◌, String, ◌≡◌, refl, sym, ap, ◌∙◌, ◌⊎◌, inl, inr, Bool, true, false, Option, none, some,
  List, [], ◌∷◌, arith, eq_iff, some-eq, count_rows, update_rows,
}
use kontexta.Sync.Outbox.{clear_lost_push}
use kontexta.Sync.CopyName.{Env}
use kontexta.Sync.Conflicts.{
  ConflictStrategy, ConflictRecord, State, is_open, conflict_id, keep_server, keep_mine, keep_both,
  merged,
}
use kontexta.Sync.Conflicts.Resolve.{
  ResolveConflictOptions, ResolveConflictResult, ResolveError, Resolution, parse_strategy,
  settle_row, settle, done, threw,
}
use kontexta.Sync.Conflicts.Engine.{
  with_strategy, later_or, last_open, resolve_found, resolve_conflict,
}
use kontexta.Sync.Conflicts.Settled.{Outcome, run_kind-Outcome}

-- What the whole call does for the conflict that it found.
abbrev pub Ended : String → ℕ → State → Resolution → Type 0
Ended g now s (done t r) =
    (c : ConflictRecord) × (last_open g s.conflicts ≡ some c)
    × (t.conflicts ≡ settle c.id r.strategy now s.conflicts)
Ended g now s (threw t e) =
    (t ≡ s) ⊎ (record t { disk = s.disk } ≡ record s { local = clear_lost_push g s.local })

from_outcome :
    (g : String) (c : ConflictRecord) (strategy : ConflictStrategy) (now : ℕ) (s : State)
    (r : Resolution)
    → last_open g s.conflicts ≡ some c
    → c.gid ≡ g
    → Outcome c strategy now (record s { local = clear_lost_push c.gid s.local }) r
    → Ended g now s r
from_outcome g c strategy now s (done t r) found same h =
    (c, found, h.0 ∙ ap (λ k. settle c.id k now s.conflicts) (sym h.1))
from_outcome g c strategy now s (threw t e) found same h = inr (
    ap (λ (x : State). record x { disk = s.disk }) h.0
    ∙ ap (λ k. record s { local = clear_lost_push k s.local }) same)

later_or-cases :
    (o : Option ConflictRecord) (b : Bool) (c d : ConflictRecord)
    → later_or o b c ≡ some d
    → (o ≡ some d) ⊎ ((o ≡ none) × ((b ≡ true) × (c ≡ d)))
later_or-cases (some e) b c d h = inl h
later_or-cases none true c d h = inr (refl, (refl, some-eq h))
later_or-cases none false c d h = grind (arith, h)

last_open-gid :
    (g : String) (rows : List ConflictRecord) (c : ConflictRecord)
    → last_open g rows ≡ some c
    → c.gid ≡ g
unfolding last_open
last_open-gid g [] c h = grind (arith, h)
last_open-gid g (d ∷ rows) c h = elim (later_or-cases (last_open g rows) (is_open g d) d c h) [
  | inl e ↦ last_open-gid g rows c e
  | inr (e, (b, same)) ↦
      ground (arith, b, ap (λ (x : ConflictRecord). x.gid) (sym same), eq_iff d.gid g)
]

later_or-none :
    (o : Option ConflictRecord) (b : Bool) (c : ConflictRecord)
    → later_or o b c ≡ none
    → (o ≡ none) × (b ≡ false)
later_or-none (some e) b c h = grind (arith, h)
later_or-none none true c h = grind (arith, h)
later_or-none none false c h = (refl, refl)

last_open-none :
    (g : String) (rows : List ConflictRecord)
    → last_open g rows ≡ none
    → count_rows (is_open g) rows ≡ 0
unfolding last_open
last_open-none g [] h = refl
last_open-none g (d ∷ rows) h =
    let (e, b) = later_or-none (last_open g rows) (is_open g d) d h in
    ground (arith, b, last_open-none g rows e)

last_open-some :
    (g : String) (rows : List ConflictRecord) (c : ConflictRecord)
    → last_open g rows ≡ some c
    → 1 ≤ count_rows (is_open g) rows
unfolding last_open
last_open-some g [] c h = grind (arith, h)
last_open-some g (d ∷ rows) c h = elim (later_or-cases (last_open g rows) (is_open g d) d c h) [
  | inl e ↦ ground (arith, last_open-some g rows c e)
  | inr (e, (b, same)) ↦ ground (arith, b)
]

pub settle-fewer :
    (g : String) (id : ℕ) (strategy : ConflictStrategy) (now : ℕ) (rows : List ConflictRecord)
    → count_rows (is_open g) (settle id strategy now rows) ≤ count_rows (is_open g) rows
unfolding settle
settle-fewer g id strategy now [] = omega arith
settle-fewer g id strategy now (d ∷ rows) = ground (arith, settle-fewer g id strategy now rows)

pub settle-ends :
    (g : String) (strategy : ConflictStrategy) (now : ℕ) (rows : List ConflictRecord)
    (c : ConflictRecord)
    → last_open g rows ≡ some c
    → count_rows (is_open g) rows ≤ 1
    → count_rows (is_open g) (settle c.id strategy now rows) ≡ 0
unfolding last_open settle
settle-ends g strategy now [] c h k = grind (arith, h)
settle-ends g strategy now (d ∷ rows) c h k =
    elim (later_or-cases (last_open g rows) (is_open g d) d c h) [
      | inl e ↦
          let one = last_open-some g rows c e in
          let closed : is_open g d ≡ false = ground (arith, one, k) in
          let few : count_rows (is_open g) rows ≤ 1 = ground (arith, closed, k) in
          ground (arith, closed, settle-ends g strategy now rows c e few)
      | inr (e, (b, same)) ↦
          let own : d.id ≡ c.id = ap (λ (x : ConflictRecord). x.id) same in
          ground (arith, own, last_open-none g rows e, settle-fewer g c.id strategy now rows)
    ]

strategy-Ended :
    (env : Env) (machine : String) (g : String) (c : ConflictRecord) (now : ℕ) (s : State)
    (o : Option ConflictStrategy) (text : Option String)
    → last_open g s.conflicts ≡ some c
    → Ended g now s (with_strategy env machine c o text now s)
strategy-Ended env machine g c now s none text found = inl refl
strategy-Ended env machine g c now s (some merged) none found = inl refl
strategy-Ended env machine g c now s (some merged) (some text) found =
    from_outcome g c merged now s _ found (last_open-gid g s.conflicts c found)
      (run_kind-Outcome env machine c now merged (some text) _ c.conflict_kind)
strategy-Ended env machine g c now s (some keep_server) text found =
    from_outcome g c keep_server now s _ found (last_open-gid g s.conflicts c found)
      (run_kind-Outcome env machine c now keep_server text _ c.conflict_kind)
strategy-Ended env machine g c now s (some keep_mine) text found =
    from_outcome g c keep_mine now s _ found (last_open-gid g s.conflicts c found)
      (run_kind-Outcome env machine c now keep_mine text _ c.conflict_kind)
strategy-Ended env machine g c now s (some keep_both) text found =
    from_outcome g c keep_both now s _ found (last_open-gid g s.conflicts c found)
      (run_kind-Outcome env machine c now keep_both text _ c.conflict_kind)

found-Ended :
    (env : Env) (machine : String) (g : String) (o : ResolveConflictOptions) (now : ℕ) (s : State)
    (found : Option ConflictRecord)
    → last_open g s.conflicts ≡ found
    → Ended g now s (resolve_found env machine o now s found)
found-Ended env machine g o now s none h = inl refl
found-Ended env machine g o now s (some c) h =
    strategy-Ended env machine g c now s (parse_strategy o.strategy) o.merged_content h

pub resolve_conflict-Ended :
    (env : Env) (machine : String) (now : ℕ) (g : String) (o : ResolveConflictOptions) (s : State)
    → Ended g now s (resolve_conflict env machine now g o s)
unfolding resolve_conflict
resolve_conflict-Ended env machine now g o s =
    found-Ended env machine g o now s (last_open g s.conflicts) refl

-- An answer of `resolveConflict` ends the conflict that it found: the record has no unresolved conflict
-- left, and the row that was the latest unresolved one carries the strategy and the time of the answer,
-- if the record had no other one.
pub resolve_conflict_ends :
    (env : Env) (machine : String) (now : ℕ) (g : String) (o : ResolveConflictOptions) (s t : State)
    (r : ResolveConflictResult)
    → resolve_conflict env machine now g o s ≡ done t r
    → count_rows (is_open g) s.conflicts ≤ 1
    → (count_rows (is_open g) t.conflicts ≡ 0)
      × ((c : ConflictRecord) × (last_open g s.conflicts ≡ some c)
          × (t.conflicts ≡ update_rows (conflict_id c.id) (settle_row r.strategy now) s.conflicts))
unfolding settle
resolve_conflict_ends env machine now g o s t r e h =
    let ended : Ended g now s (done t r) =
      subst (Ended g now s) e (resolve_conflict-Ended env machine now g o s) in
    let (c, found, rows) = ended in
    (
      ap (count_rows (is_open g)) rows ∙ settle-ends g r.strategy now s.conflicts c found h,
      (c, found, rows),
    )

-- A call of `resolveConflict` that throws leaves every table as it was, save that the mark of a lost
-- push of this record may be cleared; only the disk may have changed beside it.
pub resolve_conflict_throws :
    (env : Env) (machine : String) (now : ℕ) (g : String) (o : ResolveConflictOptions) (s t : State)
    (e : ResolveError)
    → resolve_conflict env machine now g o s ≡ threw t e
    → (t ≡ s) ⊎ (record t { disk = s.disk } ≡ record s { local = clear_lost_push g s.local })
resolve_conflict_throws env machine now g o s t e h =
    subst (Ended g now s) h (resolve_conflict-Ended env machine now g o s)
