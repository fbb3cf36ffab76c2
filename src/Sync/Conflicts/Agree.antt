-- ===== src/Sync/Conflicts/Agree.antt =====
-- The file, the tables and the queue after a conflict was settled with one text
-- (packages/core/src/storage/conflicts.ts).
use mathlib.Core.Path.{subst}
use kontexta.Base.{
  ℕ, String, ◌≡◌, refl, sym, ap, ◌∙◌, ◌≢◌, inl, inr, true, false, Option, none, some, List, [], ◌∷◌,
  ◌++◌, arith, eq_iff, ◌==◌, ==_refl, Bool-cases, some-eq, select, update_rows, All, nat_eq,
  string_eq,
}
use kontexta.Sync.Op.{file_update}
use kontexta.Sync.Outbox.{OutboxRow, Local, enqueue_op}
use kontexta.Sync.Outbox.Queued.{enqueue_op-Queued}
use kontexta.Sync.CopyName.{Env}
use kontexta.Sync.Conflicts.{
  ConflictStrategy, ConflictRecord, DiskFile, FileRow, FtsRow, State, read_file, write_file,
  remove_file, or_else, has_gid, keep_server, keep_mine, keep_both, merged,
}
use kontexta.Sync.Conflicts.Resolve.{
  ResolveConflictResult, Resolution, update_payload, commit, update_op, with_hash, publish, on_disk,
  finish, replace_content, keep_mine_with, done, threw,
}
use kontexta.Sync.Conflicts.Engine.{resolve_content}

-- The text that a strategy decides on.
unfoldable pub decided_text :
    ConflictRecord → ConflictStrategy → Option String → List DiskFile → String
decided_text c keep_server text disk = c.remote_content
decided_text c keep_mine text disk = or_else (read_file c.file_path disk) c.local_content
decided_text c keep_both text disk = or_else (read_file c.file_path disk) c.local_content
decided_text c merged text disk = or_else text ""

pub read-write :
    (p text : String) (disk : List DiskFile) → read_file p (write_file p text disk) ≡ some text
unfolding read_file write_file
read-write p text disk = rw (==_refl p) refl

read-remove : (p : String) (disk : List DiskFile) → read_file p (remove_file p disk) ≡ none
unfolding read_file remove_file
read-remove p [] = refl
read-remove p (f ∷ disk) = ground (arith, read-remove p disk)

read-remove_other :
    (p q : String) (disk : List DiskFile)
    → (q == p) ≡ false
    → read_file p (remove_file q disk) ≡ read_file p disk
unfolding read_file remove_file
read-remove_other p q [] h = refl
read-remove_other p q (f ∷ disk) h =
    ground (arith, h, read-remove_other p q disk h, eq_iff f.path p, eq_iff f.path q, eq_iff q p)

abbrev pub HasHash : String → FileRow → Type 0
HasHash hash f = f.content_hash ≡ some hash

-- The last operation of the queue publishes the text.
abbrev pub Publishes : Env → ConflictRecord → String → State → State → Option ℕ → Type 0
Publishes env c text s t op_id =
    (r : OutboxRow) × ((t.local.outbox ≡ s.local.outbox ++ r ∷ [])
      × ((r.gid ≡ c.gid)
          × ((r.kind ≡ file_update)
              × (((title : String) × (r.payload ≡ update_payload env c.file_path title text))
                  × (op_id ≡ some r.id)))))

module _ (env : Env) (machine : String) (c : ConflictRecord) (text : String) (now : ℕ) where
  abbrev Published : State → State × ℕ → Type 0
  Published s (t, op_id) =
      (t.disk ≡ s.disk)
      × (All (HasHash (env.sha256 text)) (select (has_gid c.gid) t.files)
          × Publishes env c text s t (some op_id))

  with_hash-All :
      (g hash : String) (files : List FileRow)
      → All (HasHash hash) (select (has_gid g) (update_rows (has_gid g) (with_hash hash) files))
  with_hash-All g hash [] = tt
  with_hash-All g hash (f ∷ files) = elim (Bool-cases (has_gid g f)) [
    | inl e ↦
        let kept : has_gid g (with_hash hash f) ≡ true = e in
        rw e (rw kept (refl, with_hash-All g hash files))
    | inr e ↦ rw e (rw e (with_hash-All g hash files))
  ]

  commit-Published :
      (strategy : ConflictStrategy) (base : ℕ) (title : String) (files : List FileRow)
      (fts : List FtsRow) (s : State) (o : Option (Local × ℕ)) (y : State × ℕ)
      → All (HasHash (env.sha256 text)) (select (has_gid c.gid) files)
      → enqueue_op (update_op env machine c base title text now) s.local ≡ o
      → commit c strategy now (record s { files = files; fts_index = fts }) o ≡ some y
      → Published s y
  commit-Published strategy base title files fts s none y h q e = grind (arith, e)
  commit-Published strategy base title files fts s (some (local, op_id)) y h q e =
      let (r, (added, (g, (k, (p, i))))) = enqueue_op-Queued _ s.local (local, op_id) q in
      subst (Published s) (some-eq e)
        (refl, (h, (r, (added, (g, (k, ((title, p), ap (λ n. some n) (sym i))))))))

  publish-Published :
      (strategy : ConflictStrategy) (base : ℕ) (s : State) (y : State × ℕ)
      → publish env machine c strategy base text now s ≡ some y
      → Published s y
  unfolding publish
  publish-Published strategy base s y e =
      commit-Published strategy base _ _ _ s _ y (with_hash-All c.gid (env.sha256 text) s.files)
        refl e

  -- What an answer leaves: one text in the file, in the hashes and in the queue, and no copy.
  abbrev Agree : State → State → ResolveConflictResult → Type 0
  Agree s t r =
      (read_file c.file_path t.disk ≡ some text)
      × ((read_file c.conflict_path t.disk ≡ none)
          × (All (HasHash (env.sha256 text)) (select (has_gid c.gid) t.files)
              × Publishes env c text s t r.outbox_op_id))

  abbrev AgreeOn : State → Resolution → Type 0
  AgreeOn s (done t r) = Agree s t r
  AgreeOn s (threw t e) = Unit

  finish-AgreeOn :
      (strategy : ConflictStrategy) (s : State) (o : Option (State × ℕ))
      → ((y : State × ℕ) → o ≡ some y → Published s y)
      → read_file c.file_path s.disk ≡ some text
      → (c.conflict_path == c.file_path) ≡ false
      → AgreeOn s (finish c strategy now s o)
  finish-AgreeOn strategy s none h file apart = tt
  finish-AgreeOn strategy s (some (t, op_id)) h file apart =
      let (disk, published) = h (t, op_id) refl in
      (
        read-remove_other c.file_path c.conflict_path t.disk apart
            ∙ ap (read_file c.file_path) disk
            ∙ file,
        (read-remove c.conflict_path t.disk, published),
      )

  replace_content-AgreeOn :
      (strategy : ConflictStrategy) (base : ℕ) (s : State)
      → (c.conflict_path == c.file_path) ≡ false
      → AgreeOn s (replace_content env machine c strategy base text now s)
  unfolding replace_content
  replace_content-AgreeOn strategy base s apart =
      let written = on_disk (write_file c.file_path text s.disk) s in
      finish-AgreeOn strategy written _ (publish-Published strategy base written)
        (read-write c.file_path text s.disk) apart

module _ (env : Env) (machine : String) (c : ConflictRecord) (now : ℕ) where
  keep_mine-AgreeOn :
      (s : State) (o : Option String)
      → read_file c.file_path s.disk ≡ o
      → (c.conflict_path == c.file_path) ≡ false
      → AgreeOn env machine c
          (or_else o c.local_content)
          now
          s
          (keep_mine_with env machine c now s o)
  unfolding or_else
  keep_mine-AgreeOn s none h apart =
      replace_content-AgreeOn env machine c c.local_content now keep_mine _ s apart
  keep_mine-AgreeOn s (some mine) h apart =
      finish-AgreeOn env machine c mine now keep_mine s _
        (publish-Published env machine c mine now keep_mine _ s) h apart

  resolve_content-AgreeOn :
      (strategy : ConflictStrategy) (text : Option String) (s : State)
      → strategy ≢ keep_both
      → (c.conflict_path == c.file_path) ≡ false
      → AgreeOn env machine c
          (decided_text c strategy text s.disk)
          now
          s
          (resolve_content env machine c strategy text now s)
  unfolding resolve_content decided_text
  resolve_content-AgreeOn keep_server text s single apart =
      replace_content-AgreeOn env machine c c.remote_content now keep_server 0 s apart
  resolve_content-AgreeOn keep_mine text s single apart =
      keep_mine-AgreeOn s (read_file c.file_path s.disk) refl apart
  resolve_content-AgreeOn keep_both text s single apart = absurd (single refl)
  resolve_content-AgreeOn merged text s single apart =
      replace_content-AgreeOn env machine c (or_else text "") now merged _ s apart

-- Settling a conflict on the content of a file with `keep-server`, `keep-mine` or `merged` leaves one
-- text everywhere, if the copy is another file: the file holds the text that the strategy decides on,
-- every row of the record carries its hash, the last operation of the queue publishes it under the gid
-- of the record and is the one of the answer, and the conflict copy is gone.
pub resolve_content_agrees :
    (env : Env) (machine : String) (c : ConflictRecord) (strategy : ConflictStrategy)
    (merged_text : Option String) (now : ℕ) (s t : State) (r : ResolveConflictResult)
    → strategy ≢ keep_both
    → (c.conflict_path == c.file_path) ≡ false
    → resolve_content env machine c strategy merged_text now s ≡ done t r
    → (read_file c.file_path t.disk ≡ some (decided_text c strategy merged_text s.disk))
      × ((read_file c.conflict_path t.disk ≡ none)
          × (All
                (HasHash (env.sha256 (decided_text c strategy merged_text s.disk)))
                (select (has_gid c.gid) t.files)
              × Publishes env c (decided_text c strategy merged_text s.disk) s t r.outbox_op_id))
resolve_content_agrees env machine c strategy merged_text now s t r single apart e =
    subst (AgreeOn env machine c (decided_text c strategy merged_text s.disk) now s) e
      (resolve_content-AgreeOn env machine c now strategy merged_text s single apart)
