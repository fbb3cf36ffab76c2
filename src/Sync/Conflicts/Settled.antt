-- ===== src/Sync/Conflicts/Settled.antt =====
-- What a resolution does to the tables (packages/core/src/storage/conflicts.ts, `resolveConflict`).
use kontexta.Base.{
  ℕ, String, ◌≡◌, refl, ap, ◌∙◌, Bool, true, false, Option, none, some, List, arith, if◌then◌else◌,
  ◌==◌, find_row, nat_eq, string_eq,
}
use kontexta.Sync.Outbox.{Local}
use kontexta.Sync.CopyName.{Env}
use kontexta.Sync.Conflicts.{
  ConflictStrategy, ConflictKind, ConflictRecord, DiskFile, FileRow, State, read_file, write_file,
  or_else, keep_server, keep_mine, keep_both, merged, content, path,
}
use kontexta.Sync.Conflicts.Resolve.{
  Resolution, settle, commit, publish, on_disk, finish, replace_content, keep_mine_with,
  refused_write, done, threw,
}
use kontexta.Sync.Conflicts.Copies.{
  ensure_copy, gid_is_free, with_op, track_copy, answer, keep_both_copies,
}
use kontexta.Sync.Conflicts.Engine.{
  with_local, adopt_row, publish_merged, without_copy, take_path, place_copy, move_copy, split_path,
  resolve_path_conflict, resolve_content, run_kind,
}

module _ (c : ConflictRecord) (strategy : ConflictStrategy) (now : ℕ) where
  -- A transaction that is carried out settles `c`.
  abbrev Writes : {X : Type 0} → State → Option (State × X) → Type 0
  Writes s none = Unit
  Writes s (some (t, x)) = t.conflicts ≡ settle c.id strategy now s.conflicts

  -- An answer settles `c`; an error changes the disk only.
  abbrev pub Outcome : State → Resolution → Type 0
  Outcome s (done t r) =
      (t.conflicts ≡ settle c.id strategy now s.conflicts) × (r.strategy ≡ strategy)
  Outcome s (threw t e) = (record t { disk = s.disk } ≡ s) × (e ≡ refused_write)

  commit-Writes : (s : State) (o : Option (Local × ℕ)) → Writes s (commit c strategy now s o)
  commit-Writes s none = tt
  commit-Writes s (some (local, op_id)) = refl

  with_op-Writes : (s : State) (o : Option (Local × ℕ)) → Writes s (with_op c strategy now s o)
  with_op-Writes s none = tt
  with_op-Writes s (some (local, op_id)) = refl

  later-Writes :
      {X : Type 0} (s t : State) (o : Option (State × X))
      → t.conflicts ≡ s.conflicts
      → Writes t o
      → Writes s o
  later-Writes s t none h k = tt
  later-Writes s t (some (u, x)) h k = k ∙ ap (settle c.id strategy now) h

  if-Writes :
      {X : Type 0} (b : Bool) (s : State) (o : Option (State × X))
      → Writes s o
      → Writes s (if b then o else none)
  if-Writes true s o h = h
  if-Writes false s o h = tt

  without_copy-Writes :
      (s : State) (o : Option (State × Option ℕ)) → Writes s o → Writes s (without_copy c o)
  without_copy-Writes s none h = tt
  without_copy-Writes s (some (t, op_id)) h = h

  finish-Outcome :
      (s : State) (o : Option (State × ℕ)) → Writes s o → Outcome s (finish c strategy now s o)
  finish-Outcome s none h = (refl, refl)
  finish-Outcome s (some (t, op_id)) h = (h, refl)

  answer-Outcome :
      (g : String) (s : State) (o : Option (State × Option ℕ))
      → Writes s o
      → Outcome s (answer c strategy now g s o)
  answer-Outcome g s none h = (refl, refl)
  answer-Outcome g s (some (t, op_id)) h = (h, refl)

  disk-Outcome :
      (disk : List DiskFile) (s : State) (r : Resolution) → Outcome (on_disk disk s) r → Outcome s r
  disk-Outcome disk s (done t r) h = h
  disk-Outcome disk s (threw t e) h = (ap (λ (x : State). record x { disk = s.disk }) h.0, h.1)

  ensure_copy-Outcome :
      (s : State) (o : Option String) (r : Resolution) → Outcome (ensure_copy c o s) r → Outcome s r
  ensure_copy-Outcome s none r h = disk-Outcome _ s r h
  ensure_copy-Outcome s (some text) r h = h

-- The steps before the operation is queued leave the conflicts.
abbrev Keeps : State → Option State → Type 0
Keeps s none = Unit
Keeps s (some t) = t.conflicts ≡ s.conflicts

with_local-Keeps : (s : State) (o : Option Local) → Keeps s (with_local s o)
with_local-Keeps s none = tt
with_local-Keeps s (some local) = refl

if_free-Keeps :
    (b : Bool) (s : State) (o : Option State) → Keeps s o → Keeps s (if b then o else none)
if_free-Keeps true s o h = h
if_free-Keeps false s o h = tt

module _ (env : Env) (machine : String) (c : ConflictRecord) (now : ℕ) where
  publish-Writes :
      (strategy : ConflictStrategy) (base : ℕ) (text : String) (s : State)
      → Writes c strategy now s (publish env machine c strategy base text now s)
  unfolding publish
  publish-Writes strategy base text s =
      commit-Writes c strategy now (record s { files = _; fts_index = _ }) _

  replace_content-Outcome :
      (strategy : ConflictStrategy) (base : ℕ) (text : String) (s : State)
      → Outcome c strategy now s (replace_content env machine c strategy base text now s)
  unfolding replace_content
  replace_content-Outcome strategy base text s =
      let disk = write_file c.file_path text s.disk in
      disk-Outcome c strategy now disk s _ (
        finish-Outcome c strategy now (on_disk disk s) _
          (publish-Writes strategy base text (on_disk disk s)))

  adopt_row-Keeps :
      (text : String) (o : Option FileRow) (s : State)
      → Keeps s (adopt_row env machine c text now o s)
  unfolding adopt_row
  adopt_row-Keeps text none s = refl
  adopt_row-Keeps text (some f) s =
      if_free-Keeps (gid_is_free f.id c.gid s.files) s _
        (with_local-Keeps (record s { files = _; fts_index = _ }) _)

  publish_merged-Writes :
      (strategy : ConflictStrategy) (title text : String) (s : State) (o : Option State)
      → Keeps s o
      → Writes c strategy now s (publish_merged env machine c strategy title text now o)
  publish_merged-Writes strategy title text s none h = tt
  publish_merged-Writes merged title text s (some t) h =
      later-Writes c merged now s t _ h (with_op-Writes c merged now t _)
  publish_merged-Writes keep_server title text s (some t) h = ap (settle c.id keep_server now) h
  publish_merged-Writes keep_mine title text s (some t) h = ap (settle c.id keep_mine now) h
  publish_merged-Writes keep_both title text s (some t) h = ap (settle c.id keep_both now) h

  take_path-Outcome :
      (strategy : ConflictStrategy) (text : String) (s : State)
      → Outcome c strategy now s (take_path env machine c strategy text now s)
  unfolding take_path
  take_path-Outcome strategy text s =
      let written = on_disk (write_file c.file_path text s.disk) s in
      let local = find_row (λ (f : FileRow). f.path == c.file_path) s.files in
      disk-Outcome c strategy now written.disk s _ (
        answer-Outcome c strategy now c.gid written _ (
          without_copy-Writes c strategy now written _
            (publish_merged-Writes strategy _ text written _ (adopt_row-Keeps text local written))))

  track_copy-Writes :
      (o : Option FileRow) (s : State)
      → Writes c keep_both now s (track_copy env machine c now o s).0
  unfolding track_copy
  track_copy-Writes (some f) s = refl
  track_copy-Writes none s =
      if-Writes c keep_both now (gid_is_free _ _ s.files) s _
        (with_op-Writes c keep_both now (record s { files = _; files_seq = _; fts_index = _ }) _)

  keep_both-Outcome : (s : State) → Outcome c keep_both now s (keep_both_copies env machine c now s)
  unfolding keep_both_copies
  keep_both-Outcome s =
      let found = read_file c.conflict_path s.disk in
      ensure_copy-Outcome c keep_both now s found _ (
        answer-Outcome c keep_both now _ (ensure_copy c found s) _
          (track_copy-Writes _ (ensure_copy c found s)))

  move_copy-Writes :
      (strategy : ConflictStrategy) (s : State) (o : Option (State × ℕ))
      → ((t : State) (id : ℕ) → o ≡ some (t, id) → t.conflicts ≡ s.conflicts)
      → Writes c strategy now s (move_copy env machine c strategy now o)
  move_copy-Writes strategy s none h = tt
  move_copy-Writes strategy s (some (t, id)) h =
      later-Writes c strategy now s t _ (h t id refl)
        (with_op-Writes c strategy now (record t { fts_index = _ }) _)

  place_copy-conflicts :
      (local o : Option FileRow) (s t : State) (id : ℕ)
      → place_copy env c local o s ≡ some (t, id)
      → t.conflicts ≡ s.conflicts
  unfolding place_copy
  place_copy-conflicts local none s t id h = grind (arith, h)
  place_copy-conflicts local (some f) s t id h = grind (arith, h)

  split_path-Outcome :
      (strategy : ConflictStrategy) (s : State)
      → Outcome c strategy now s (split_path env machine c strategy now s)
  unfolding split_path
  split_path-Outcome strategy s =
      let found = read_file c.conflict_path s.disk in
      let kept = ensure_copy c found s in
      let local = find_row (λ (f : FileRow). f.path == c.file_path) s.files in
      let existing = find_row (λ (f : FileRow). f.path == c.conflict_path) s.files in
      ensure_copy-Outcome c strategy now s found _ (
        answer-Outcome c strategy now c.gid kept _
          (move_copy-Writes strategy kept _ (place_copy-conflicts local existing kept)))

  resolve_path_conflict-Outcome :
      (strategy : ConflictStrategy) (text : Option String) (s : State)
      → Outcome c strategy now s (resolve_path_conflict env machine c strategy text now s)
  unfolding resolve_path_conflict
  resolve_path_conflict-Outcome keep_server text s =
      take_path-Outcome keep_server c.remote_content s
  resolve_path_conflict-Outcome keep_mine text s = split_path-Outcome keep_mine s
  resolve_path_conflict-Outcome keep_both text s = split_path-Outcome keep_both s
  resolve_path_conflict-Outcome merged text s = take_path-Outcome merged (or_else text "") s

  keep_mine-Outcome :
      (s : State) (o : Option String)
      → Outcome c keep_mine now s (keep_mine_with env machine c now s o)
  keep_mine-Outcome s none = replace_content-Outcome keep_mine _ c.local_content s
  keep_mine-Outcome s (some mine) =
      finish-Outcome c keep_mine now s _ (publish-Writes keep_mine _ mine s)

  resolve_content-Outcome :
      (strategy : ConflictStrategy) (text : Option String) (s : State)
      → Outcome c strategy now s (resolve_content env machine c strategy text now s)
  unfolding resolve_content
  resolve_content-Outcome keep_server text s =
      replace_content-Outcome keep_server 0 c.remote_content s
  resolve_content-Outcome keep_mine text s = keep_mine-Outcome s (read_file c.file_path s.disk)
  resolve_content-Outcome keep_both text s = keep_both-Outcome s
  resolve_content-Outcome merged text s = replace_content-Outcome merged _ (or_else text "") s

  pub run_kind-Outcome :
      (strategy : ConflictStrategy) (text : Option String) (s : State) (kind : ConflictKind)
      → Outcome c strategy now s (run_kind env machine c strategy text now s kind)
  run_kind-Outcome strategy text s path = resolve_path_conflict-Outcome strategy text s
  run_kind-Outcome strategy text s content = resolve_content-Outcome strategy text s
