-- ===== src/Sync/Bootstrap/Paged.antt =====
-- The pages of a snapshot as one page (bootstrap.ts).
use kontexta.Base.{
  ℕ, zero, suc, String, ◌≡◌, refl, sym, ap, ◌∙◌, inl, inr, true, false, Option, none, some, List,
  [], ◌∷◌, ◌++◌, append_assoc, arith, Bool-cases, some-eq,
}
use kontexta.Json.{Json}
use kontexta.Sync.Apply.{RemoteRow}
use kontexta.Sync.Bootstrap.{
  BootstrapMode, SnapshotStore, SnapshotEntry, SnapshotReply, no_page, page, Boot, Vars, Tick, Step,
  went_on, threw, BootEnd, completed, add_ticks, with_ticks, ◌>>=◌, saved_vars, stopped_midway,
  request_failed, awaiting, not_needed, no_key,
}
use kontexta.Sync.Bootstrap.Loop.{
  pass_gid, handle_entries, note_latest, handle_page, after_page, boot_loop, boot_mode,
  bootstrap_if_needed,
}
use kontexta.Sync.Bootstrap.Kept.{StepKept, entries-Kept}
use kontexta.Sync.Bootstrap.Resume.{started}

abbrev pub last_entry : List SnapshotEntry → Option String
last_entry [] = none
last_entry (e ∷ []) = some e.gid
last_entry (e ∷ f ∷ es) = last_entry (f ∷ es)

-- A server whose k pages from `after` on bring the entries: each page but the last one has a `next`, and
-- the following one starts behind its last gid.
pub data Following (serve : String → SnapshotReply) : ℕ → String → List SnapshotEntry → Type 0 where
  last_page :
      (after : String) (es : List SnapshotEntry) (n : ℕ)
      → serve after ≡ page es false (some n)
      → Following serve 1 after es
  more_pages :
      (k : ℕ) (after g : String) (xs ys : List SnapshotEntry) (n : ℕ)
      → serve after ≡ page xs true (some n)
      → last_entry xs ≡ some g
      → Following serve k g ys
      → Following serve (suc k) after (xs ++ ys)

abbrev pub times : ℕ → (String → SnapshotReply) → List (String → SnapshotReply)
times zero serve = []
times (suc k) serve = serve ∷ times k serve

abbrev latest_of : SnapshotReply → Option ℕ
latest_of no_page = none
latest_of (page es more n) = n

-- The same server with one page of the entries.
abbrev pub at_once : (String → SnapshotReply) → List SnapshotEntry → List (String → SnapshotReply)
at_once serve es = (λ after. page es false (latest_of (serve after))) ∷ []

module _ {ℓ} {F : Type ℓ} where
  with_ticks-nil : (m : Step F) → with_ticks [] m ≡ m
  with_ticks-nil (threw s) = refl
  with_ticks-nil (went_on v s ts) = refl

  with_ticks-append :
      (ts us : List Tick) (m : Step F) → with_ticks ts (with_ticks us m) ≡ with_ticks (ts ++ us) m
  with_ticks-append ts us (threw s) = refl
  with_ticks-append ts us (went_on v s vs) = ap (went_on v s) (sym (append_assoc ts us vs))

  add_ticks-append :
      (ts us : List Tick) (e : BootEnd F) → add_ticks ts (add_ticks us e) ≡ add_ticks (ts ++ us) e
  add_ticks-append ts us (completed s vs) = ap (completed s) (sym (append_assoc ts us vs))
  add_ticks-append ts us (stopped_midway s) = refl
  add_ticks-append ts us (request_failed s) = refl
  add_ticks-append ts us awaiting = refl
  add_ticks-append ts us not_needed = refl
  add_ticks-append ts us no_key = refl

  with_ticks-then :
      (ts : List Tick) (m : Step F) (k : Vars → Boot F → Step F)
      → with_ticks ts (m >>= k) ≡ (with_ticks ts m >>= k)
  with_ticks-then ts (threw s) k = refl
  with_ticks-then ts (went_on v s us) k = with_ticks-append ts us (k v s)

  then-split :
      (m : Step F) (k h l : Vars → Boot F → Step F)
      → ((w : Vars) (t : Boot F) → k w t ≡ (h w t >>= l))
      → (m >>= k) ≡ ((m >>= h) >>= l)
  then-split (threw s) k h l e = refl
  then-split (went_on v s ts) k h l e = ap (with_ticks ts) (e v s) ∙ with_ticks-then ts (h v s) l

  -- The variable `after` is g behind the step.
  unfoldable pub StepAt : String → Step F → Type 0
  StepAt g (went_on w t ts) = w.after ≡ g
  StepAt g (threw t) = Unit

  with_ticks-StepAt :
      (g : String) (ts : List Tick) (m : Step F) → StepAt g m → StepAt g (with_ticks ts m)
  unfolding StepAt
  with_ticks-StepAt g ts (threw s) h = tt
  with_ticks-StepAt g ts (went_on v s us) h = h

  then-StepAt :
      (g : String) (m : Step F) (k : Vars → Boot F → Step F)
      → ((w : Vars) (t : Boot F) → StepAt g (k w t))
      → StepAt g (m >>= k)
  unfolding StepAt
  then-StepAt g (threw s) k h = tt
  then-StepAt g (went_on v s ts) k h = with_ticks-StepAt g ts (k v s) (h v s)

  then_nothing-StepAt :
      (g : String) (m : Step F) → StepAt g m → StepAt g (m >>= (λ w t. went_on w t []))
  unfolding StepAt
  then_nothing-StepAt g (threw s) h = tt
  then_nothing-StepAt g (went_on v s ts) h = h

module _ {ℓ} {F : Type ℓ} (store : SnapshotStore F) (sha256 : String → String)
    (decrypt : RemoteRow → Option Json) (mode : BootstrapMode) where
  abbrev entries : List SnapshotEntry → Vars → Boot F → Step F
  entries = handle_entries store sha256 decrypt mode

  abbrev loop : List (String → SnapshotReply) → Vars → Boot F → BootEnd F
  loop = boot_loop store sha256 decrypt mode

  entries-append :
      (xs ys : List SnapshotEntry) (v : Vars) (s : Boot F)
      → entries (xs ++ ys) v s ≡ (entries xs v s >>= entries ys)
  unfolding handle_entries
  entries-append [] ys v s = sym (with_ticks-nil (entries ys v s))
  entries-append (x ∷ xs) ys v s =
      then-split _ (entries (xs ++ ys)) (entries xs) (entries ys) (entries-append xs ys)

  pub entries-StepAt :
      (es : List SnapshotEntry) (g : String) (v : Vars) (s : Boot F)
      → last_entry es ≡ some g
      → StepAt g (entries es v s)
  unfolding handle_entries StepAt
  entries-StepAt [] g v s h = grind (arith, h)
  entries-StepAt (e ∷ []) g v s h =
      then_nothing-StepAt g _
        (then-StepAt g _ (pass_gid store sha256 decrypt mode e.gid) (λ w t. some-eq h))
  entries-StepAt (e ∷ f ∷ es) g v s h =
      then-StepAt g _ (entries (f ∷ es)) (λ w t. entries-StepAt (f ∷ es) g w t h)

  noted_before :
      (o : Option ℕ) (v : Vars) (s : Boot F) (p : Option ℕ) (m : ℕ)
      → p ≡ some m
      → note_latest store sha256 decrypt mode o v s p ≡ (v, s)
  noted_before none v s p m e = refl
  noted_before (some n) v s none m e = cc
  noted_before (some n) v s (some k) m e = refl

  noted_now :
      (n : ℕ) (v : Vars) (s : Boot F) (p : Option ℕ)
      → s.saved_latest ≡ p
      → (m : ℕ) × ((note_latest store sha256 decrypt mode (some n) v s p).1.saved_latest ≡ some m)
  noted_now n v s none e = (n, refl)
  noted_now n v s (some m) e = (m, e)

  page_ticks :
      (rest : Vars → Boot F → BootEnd F) (ts : List Tick) (m : Step F)
      → add_ticks ts (after_page store sha256 decrypt mode false rest m)
        ≡ after_page store sha256 decrypt mode false rest (with_ticks ts m)
  page_ticks rest ts (threw s) = refl
  page_ticks rest ts (went_on v s us) = add_ticks-append ts us _

  page-joined :
      (k : ℕ) (serve : String → SnapshotReply) (g : String) (ys : List SnapshotEntry) (m : ℕ)
      (v : Vars) (s : Boot F) (step : Step F)
      → s.saved_latest ≡ some m
      → StepAt g step
      → StepKept v s step
      → ((w : Vars) (t : Boot F)
          → w.after ≡ g
          → loop (times k serve) w t ≡ loop (at_once serve ys) w t)
      → after_page store sha256 decrypt mode true (loop (times k serve)) step
        ≡ after_page store sha256 decrypt mode false (loop []) (step >>= entries ys)
  unfolding StepAt StepKept boot_loop handle_page
  page-joined k serve g ys m v s (threw t) l at kept f = refl
  page-joined k serve g ys m v s (went_on w t ts) l at kept f =
      ap (add_ticks ts) (f w t at ∙ served) ∙ page_ticks (loop []) ts (entries ys w t)
    where
      served :
          loop (at_once serve ys) w t
          ≡ after_page store sha256 decrypt mode false (loop []) (entries ys w t)
      served =
          rw (noted_before (latest_of (serve w.after)) w t t.saved_latest m (kept.saved_latest ∙ l))
            refl

  paged :
      (serve : String → SnapshotReply) (k : ℕ) (after : String) (es : List SnapshotEntry)
      → Following serve k after es
      → (v : Vars) (s : Boot F) → v.after ≡ after
      → loop (times k serve) v s ≡ loop (at_once serve es) v s
  unfolding boot_loop handle_page
  paged serve _ _ _ (last_page after es n q) v s a =
      let reply : serve v.after ≡ page es false (some n) = ap serve a ∙ q in rw reply refl
  paged serve _ _ _ (more_pages k after g xs ys n q last rest) v s a =
      let reply : serve v.after ≡ page xs true (some n) = ap serve a ∙ q in
      let (w, t) = note_latest store sha256 decrypt mode (some n) v s s.saved_latest in
      let (m, noted) = noted_now n v s s.saved_latest refl in
      rw (reply, entries-append xs ys w t)
        (page-joined k serve g ys m w t (entries xs w t) noted (entries-StepAt xs g w t last)
          (entries-Kept store sha256 mode decrypt xs w t) (paged serve k g ys rest))

-- A bootstrap that starts, or that starts again behind the gid where an earlier one was interrupted, ends
-- in the same way, with the same tables, settings and counts, as if the server had sent one page of all
-- the entries behind that gid, for every size of the pages: no entry is left out or handled twice.
pub bootstrap_pages {ℓ} :
    {F : Type ℓ} (store : SnapshotStore F) (sha256 : String → String)
    (decrypt : RemoteRow → Option Json) (serve : String → SnapshotReply) (k : ℕ)
    (es : List SnapshotEntry) (s : Boot F)
    → Following serve k (saved_vars s).after es
    → bootstrap_if_needed store sha256 (some decrypt) true (times k serve) s
      ≡ bootstrap_if_needed store sha256 (some decrypt) true (at_once serve es) s
unfolding bootstrap_if_needed
bootstrap_pages store sha256 decrypt serve k es s f = elim (Bool-cases s.pending) [
  | inl e ↦
      started store sha256 decrypt (times k serve) s e
      ∙ paged store sha256 decrypt (boot_mode store s) serve k _ es f (saved_vars s) s refl
      ∙ sym (started store sha256 decrypt (at_once serve es) s e)
  | inr e ↦ rw e refl
]
