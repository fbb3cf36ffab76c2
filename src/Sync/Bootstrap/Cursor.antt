-- ===== src/Sync/Bootstrap/Cursor.antt =====
-- The cursor that a bootstrap leaves (bootstrap.ts).
use kontexta.Base.{
  ℕ, max, String, ◌≡◌, refl, ap, ◌∙◌, Bool, true, false, Option, none, some, List, [], ◌∷◌,
}
use kontexta.Json.{Json}
use kontexta.Sync.Apply.{RemoteRow}
use kontexta.Sync.Bootstrap.{
  BootstrapMode, SnapshotStore, SnapshotEntry, SnapshotReply, no_page, page, Deferred, Boot, Vars,
  Tick, Step, went_on, threw, BootEnd, completed, add_ticks, saved_vars, stopped_midway,
  request_failed, awaiting, not_needed, no_key,
}
use kontexta.Sync.Bootstrap.Loop.{
  note_latest, handle_page, final_pass, finish_with, after_page, on_reply, boot_loop, boot_mode,
  bootstrap_if_needed,
}
use kontexta.Sync.Bootstrap.Resume.{started}
use kontexta.Sync.Bootstrap.Kept.{StepKept, then-Kept, skip, process_now-Kept, entries-Kept}

-- The pulls that follow start at the number n, and nothing is left to resume.
pub ClosedAt {ℓ} : {F : Type ℓ} → ℕ → Boot F → BootEnd F → Type 0
ClosedAt n s (completed t ts) =
    (t.sync_cursor ≡ max s.sync_cursor n)
    × (t.pending ≡ false)
    × (t.saved_after ≡ none)
    × (t.saved_latest ≡ none)
    × (t.saved_deferred ≡ none)
ClosedAt n s _ = Unit

ClosedAt-ticks {ℓ} :
    {F : Type ℓ} (n : ℕ) (s t : Boot F) (ts : List Tick) (e : BootEnd F)
    → t.sync_cursor ≡ s.sync_cursor
    → ClosedAt n t e
    → ClosedAt n s (add_ticks ts e)
unfolding ClosedAt
ClosedAt-ticks n s t ts (completed u us) c (h, p, q, r, l) = (h ∙ ap (λ m. max m n) c, p, q, r, l)
ClosedAt-ticks n s t ts (stopped_midway u) c h = tt
ClosedAt-ticks n s t ts (request_failed u) c h = tt
ClosedAt-ticks n s t ts awaiting c h = tt
ClosedAt-ticks n s t ts not_needed c h = tt
ClosedAt-ticks n s t ts no_key c h = tt

module _ {ℓ} {F : Type ℓ} (store : SnapshotStore F) (sha256 : String → String)
    (decrypt : RemoteRow → Option Json) (mode : BootstrapMode) (n : ℕ) where
  abbrev loop : List (String → SnapshotReply) → Vars → Boot F → BootEnd F
  loop = boot_loop store sha256 decrypt mode

  final_pass-Kept :
      (ds : List Deferred) (v : Vars) (s : Boot F)
      → StepKept v s (final_pass store sha256 decrypt mode ds v s)
  unfolding final_pass
  final_pass-Kept [] v s = skip store v s
  final_pass-Kept (d ∷ ds) v s =
      then-Kept v s _ _ (process_now-Kept store sha256 mode d.op d.seq d.version v s)
        (final_pass-Kept ds)

  finished_at :
      (v : Vars) (s : Boot F) (m : Step F)
      → v.latest ≡ n
      → StepKept v s m
      → ClosedAt n s (finish_with store sha256 decrypt mode m)
  unfolding ClosedAt StepKept
  finished_at v s (threw t) e k = tt
  finished_at v s (went_on w t ts) e k = (
    ap (λ m. max m w.latest) k.cursor ∙ ap (max s.sync_cursor) (k.latest ∙ e),
    refl,
    refl,
    refl,
    refl,
  )

  -- Once the number of the first page is noted it stays.
  page_after :
      (more : Bool) (rest : Vars → Boot F → BootEnd F) (v : Vars) (s : Boot F) (m : Step F)
      → v.latest ≡ n
      → s.saved_latest ≡ some n
      → StepKept v s m
      → ((w : Vars) (t : Boot F) → w.latest ≡ n → t.saved_latest ≡ some n → ClosedAt n t (rest w t))
      → ClosedAt n s (after_page store sha256 decrypt mode more rest m)
  unfolding StepKept ClosedAt
  page_after more rest v s (threw t) e l k f = tt
  page_after true rest v s (went_on w t ts) e l k f =
      ClosedAt-ticks n s t ts (rest w t) k.cursor (f w t (k.latest ∙ e) (k.saved_latest ∙ l))
  page_after false rest v s (went_on w t ts) e l k f =
      let w' = record w { deferred = [] } in
      ClosedAt-ticks n s t ts _ k.cursor
        (finished_at w' t _ (k.latest ∙ e) (final_pass-Kept w.deferred w' t))

  noted :
      (o : Option ℕ) (v : Vars) (s : Boot F) (p : Option ℕ)
      → p ≡ some n
      → note_latest store sha256 decrypt mode o v s p ≡ (v, s)
  noted none v s p e = refl
  noted (some m) v s none e = cc
  noted (some m) v s (some k) e = refl

  reply_closes :
      (rest : Vars → Boot F → BootEnd F) (v : Vars) (s : Boot F) (x : SnapshotReply)
      → v.latest ≡ n
      → s.saved_latest ≡ some n
      → ((w : Vars) (t : Boot F) → w.latest ≡ n → t.saved_latest ≡ some n → ClosedAt n t (rest w t))
      → ClosedAt n s (on_reply store sha256 decrypt mode rest v s x)
  unfolding handle_page ClosedAt
  reply_closes rest v s no_page e l f = tt
  reply_closes rest v s (page es more o) e l f =
      rw (noted o v s s.saved_latest l)
        (page_after more rest v s _ e l (entries-Kept store sha256 mode decrypt es v s) f)

  loop_closes :
      (rs : List (String → SnapshotReply)) (v : Vars) (s : Boot F)
      → v.latest ≡ n
      → s.saved_latest ≡ some n
      → ClosedAt n s (loop rs v s)
  unfolding boot_loop ClosedAt
  loop_closes [] v s e l = tt
  loop_closes (r ∷ rs) v s e l = reply_closes (loop rs) v s (r v.after) e l (loop_closes rs)

  pub first_page_closes :
      (first : String → SnapshotReply) (es : List SnapshotEntry) (more : Bool)
      (rs : List (String → SnapshotReply)) (v : Vars) (s : Boot F)
      → first v.after ≡ page es more (some n)
      → s.saved_latest ≡ none
      → ClosedAt n s (loop (first ∷ rs) v s)
  unfolding boot_loop handle_page ClosedAt
  first_page_closes first es more rs v s q l =
      let w = record v { latest = n } in
      let t = record s { saved_latest = some n } in
      rw (q, l)
        (page_after more (loop rs) w t _ refl refl (entries-Kept store sha256 mode decrypt es w t)
          (loop_closes rs))

-- A bootstrap that comes to its end leaves the cursor at the number that its first page named, or where it
-- was if that is later, and clears its settings: what was appended while it went from page to page is
-- pulled afterwards.
pub bootstrap_cursor {ℓ} :
    {F : Type ℓ} (store : SnapshotStore F) (sha256 : String → String)
    (decrypt : RemoteRow → Option Json) (n : ℕ) (es : List SnapshotEntry) (more : Bool)
    (first : String → SnapshotReply) (rs : List (String → SnapshotReply)) (s : Boot F)
    → s.pending ≡ true
    → s.saved_latest ≡ none
    → first (saved_vars s).after ≡ page es more (some n)
    → ClosedAt n s (bootstrap_if_needed store sha256 (some decrypt) true (first ∷ rs) s)
bootstrap_cursor store sha256 decrypt n es more first rs s e l q =
    rw (started store sha256 decrypt (first ∷ rs) s e) (
      first_page_closes store sha256 decrypt (boot_mode store s) n first es more rs (saved_vars s) s
        q l)
