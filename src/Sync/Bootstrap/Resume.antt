-- ===== src/Sync/Bootstrap/Resume.antt =====
-- A bootstrap that was interrupted goes on where it stopped, and the cursor it leaves (bootstrap.ts).
use mathlib.Core.Path.{subst}
use kontexta.Base.{
  ℕ, String, ◌≡◌, refl, sym, ap, ◌∙◌, ◌≢◌, inl, inr, Bool, true, false, Option, none, some, List,
  [], ◌∷◌, ◌++◌, arith, Bool-cases, All,
}
use kontexta.Json.{Json}
use kontexta.Sync.Apply.{RemoteRow}
use kontexta.Sync.Bootstrap.{
  BootstrapMode, SnapshotStore, SnapshotEntry, SnapshotReply, no_page, page, Boot, Vars, Tick, Step,
  went_on, threw, BootEnd, completed, add_ticks, saved_vars, stopped_midway, request_failed,
  awaiting, not_needed, no_key,
}
use kontexta.Sync.Bootstrap.Loop.{
  note_latest, handle_page, finish_with, after_page, on_reply, boot_loop, boot_mode,
  bootstrap_if_needed,
}
use kontexta.Sync.Bootstrap.Kept.{StepKept, entries-Kept}

unfoldable pub is_page : SnapshotReply → Bool
is_page no_page = false
is_page (page es more latest_seq) = true

-- The end without its counts.
pub uncounted {ℓ} : {F : Type ℓ} → BootEnd F → BootEnd F
uncounted (completed s ts) = completed s []
uncounted e = e

uncounted-add {ℓ} :
    {F : Type ℓ} (ts : List Tick) (e : BootEnd F) → uncounted (add_ticks ts e) ≡ uncounted e
unfolding uncounted
uncounted-add ts (completed s us) = refl
uncounted-add ts (stopped_midway s) = refl
uncounted-add ts (request_failed s) = refl
uncounted-add ts awaiting = refl
uncounted-add ts not_needed = refl
uncounted-add ts no_key = refl

pub add_ticks-failed {ℓ} :
    {F : Type ℓ} (ts : List Tick) (e : BootEnd F) (s : Boot F)
    → add_ticks ts e ≡ request_failed s
    → e ≡ request_failed s
add_ticks-failed ts (completed t us) s h = cc
add_ticks-failed ts (stopped_midway t) s h = cc
add_ticks-failed ts (request_failed t) s h = h
add_ticks-failed ts awaiting s h = cc
add_ticks-failed ts not_needed s h = cc
add_ticks-failed ts no_key s h = cc

pub failed-eq {ℓ} : {F : Type ℓ} (s t : Boot F) → request_failed s ≡ request_failed t → s ≡ t
failed-eq s t h = cc

module _ {ℓ} {F : Type ℓ} (store : SnapshotStore F) (sha256 : String → String)
    (decrypt : RemoteRow → Option Json) (mode : BootstrapMode) where
  abbrev loop : List (String → SnapshotReply) → Vars → Boot F → BootEnd F
  loop = boot_loop store sha256 decrypt mode

  latest-Kept :
      (n : Option ℕ) (v : Vars) (s : Boot F) (o : Option ℕ)
      → o ≡ s.saved_latest
      → saved_vars s ≡ v
      → let (w, t) = note_latest store sha256 decrypt mode n v s o in
        (saved_vars t ≡ w) × (t.pending ≡ s.pending)
  unfolding saved_vars
  latest-Kept none v s o e h = (h, refl)
  latest-Kept (some n) v s none e h = (ap (λ (w : Vars). record w { latest = n }) h, refl)
  latest-Kept (some n) v s (some m) e h = (h, refl)

  -- A step after which the settings are the variables.
  unfoldable pub Saved : Bool → Step F → Type 0
  Saved p (went_on v s ts) = (saved_vars s ≡ v) × (s.pending ≡ p)
  Saved p (threw s) = Unit

  StepKept-Saved :
      (p : Bool) (w : Vars) (t : Boot F) (m : Step F)
      → StepKept w t m
      → saved_vars t ≡ w
      → t.pending ≡ p
      → Saved p m
  unfolding StepKept Saved
  StepKept-Saved p w t (threw u) k a e = tt
  StepKept-Saved p w t (went_on v s ts) k a e = (k.saved a, k.pending ∙ e)

  pub page-Saved :
      (es : List SnapshotEntry) (n : Option ℕ) (v : Vars) (s : Boot F)
      → saved_vars s ≡ v
      → Saved s.pending (handle_page store sha256 decrypt mode es n v s)
  unfolding handle_page
  page-Saved es n v s h =
      let (w, t) = note_latest store sha256 decrypt mode n v s s.saved_latest in
      let (a, p) = latest-Kept n v s s.saved_latest refl h in
      StepKept-Saved s.pending w t _ (entries-Kept store sha256 mode decrypt es w t) a p

  pub finish-ends :
      (t : Boot F) (m : Step F) → finish_with store sha256 decrypt mode m ≢ request_failed t
  finish-ends t (threw u) h = cc
  finish-ends t (went_on w u ts) h = cc

  -- The second run ends as the remaining replies of the first would.
  abbrev Resumes : List (String → SnapshotReply) → Boot F → Boot F → BootEnd F → Type ℓ
  Resumes qs s' s whole =
      (uncounted (loop qs (saved_vars s') s') ≡ uncounted whole) × (s'.pending ≡ s.pending)

  Resumes-after :
      (qs : List (String → SnapshotReply)) (s s' : Boot F) (more : Bool) (m : Step F)
      (first whole : Vars → Boot F → BootEnd F)
      → Saved s.pending m
      → ((w : Vars) (t : Boot F)
          → saved_vars t ≡ w
          → first w t ≡ request_failed s'
          → Resumes qs s' t (whole w t))
      → after_page store sha256 decrypt mode more first m ≡ request_failed s'
      → Resumes qs s' s (after_page store sha256 decrypt mode more whole m)
  unfolding Saved
  Resumes-after qs s s' more (threw u) first whole k f h = cc
  Resumes-after qs s s' true (went_on w t ts) first whole k f h =
      let (same, p) = f w t k.0 (add_ticks-failed ts (first w t) s' h) in
      (same ∙ sym (uncounted-add ts (whole w t)), p ∙ k.1)
  Resumes-after qs s s' false (went_on w t ts) first whole k f h =
      elim (finish-ends s' _ (add_ticks-failed ts _ s' h)) [ ]

  Resumes-on_reply :
      (x : SnapshotReply) (qs : List (String → SnapshotReply)) (v : Vars) (s s' : Boot F)
      (first whole : Vars → Boot F → BootEnd F)
      → is_page x ≡ true
      → saved_vars s ≡ v
      → ((w : Vars) (t : Boot F)
          → saved_vars t ≡ w
          → first w t ≡ request_failed s'
          → Resumes qs s' t (whole w t))
      → on_reply store sha256 decrypt mode first v s x ≡ request_failed s'
      → Resumes qs s' s (on_reply store sha256 decrypt mode whole v s x)
  unfolding is_page
  Resumes-on_reply no_page qs v s s' first whole i k f h = grind (arith, i)
  Resumes-on_reply (page es more n) qs v s s' first whole i k f h =
      Resumes-after qs s s' more (handle_page store sha256 decrypt mode es n v s) first whole
        (page-Saved es n v s k) f h

  resumes :
      (ps qs : List (String → SnapshotReply)) (v : Vars) (s s' : Boot F)
      → All (λ r. (a : String) → is_page (r a) ≡ true) ps
      → saved_vars s ≡ v
      → loop (ps ++ (λ a. no_page) ∷ []) v s ≡ request_failed s'
      → Resumes qs s' s (loop (ps ++ qs) v s)
  unfolding boot_loop is_page
  resumes [] qs v s s' a k h =
      let same : s ≡ s' = failed-eq s s' h in
      (
        subst (λ t. uncounted (loop qs (saved_vars t) t) ≡ uncounted (loop qs v s)) same
            (ap (λ w. uncounted (loop qs w s)) k),
        ap (λ t. t.pending) (sym same),
      )
  resumes (r ∷ ps) qs v s s' a k h =
      Resumes-on_reply (r v.after) qs v s s' _ _ (a.0 v.after) k (λ w t. resumes ps qs w t s' a.1) h

module _ {ℓ} {F : Type ℓ} (store : SnapshotStore F) (sha256 : String → String)
    (decrypt : RemoteRow → Option Json) (rs : List (String → SnapshotReply)) (s : Boot F) where
  pub started :
      s.pending ≡ true
      → bootstrap_if_needed store sha256 (some decrypt) true rs s
        ≡ boot_loop store sha256 decrypt (boot_mode store s) rs (saved_vars s) s
  unfolding bootstrap_if_needed
  started e = rw e refl

  pub never_fails :
      (t : Boot F)
      → s.pending ≡ false
      → bootstrap_if_needed store sha256 (some decrypt) true rs s ≢ request_failed t
  unfolding bootstrap_if_needed
  never_fails t e = rw e (λ h. cc)

-- A bootstrap that stopped at a failed request and is started again ends in the same state, with the same
-- outcome, as one run that got all the replies; only the counts of its result are of the last run alone.
-- The condition is that the second run finds the mode of the first.
bootstrap_resumes {ℓ} :
    {F : Type ℓ} (store : SnapshotStore F) (sha256 : String → String)
    (decrypt : RemoteRow → Option Json) (ps qs : List (String → SnapshotReply)) (s s' : Boot F)
    → All (λ r. (a : String) → is_page (r a) ≡ true) ps
    → bootstrap_if_needed store sha256 (some decrypt) true (ps ++ (λ a. no_page) ∷ []) s
      ≡ request_failed s'
    → boot_mode store s' ≡ boot_mode store s
    → uncounted (bootstrap_if_needed store sha256 (some decrypt) true qs s')
      ≡ uncounted (bootstrap_if_needed store sha256 (some decrypt) true (ps ++ qs) s)
bootstrap_resumes store sha256 decrypt ps qs s s' a h m = elim (Bool-cases s.pending) [
  | inl e ↦
      let run = sym (started store sha256 decrypt (ps ++ (λ a. no_page) ∷ []) s e) ∙ h in
      let (same, p) =
        resumes store sha256 decrypt (boot_mode store s) ps qs (saved_vars s) s s' a refl run in
      ap uncounted (started store sha256 decrypt qs s' (p ∙ e))
      ∙ (ap (λ k. uncounted (boot_loop store sha256 decrypt k qs (saved_vars s') s')) m
          ∙ (same ∙ sym (ap uncounted (started store sha256 decrypt (ps ++ qs) s e))))
  | inr e ↦ elim (never_fails store sha256 decrypt (ps ++ (λ a. no_page) ∷ []) s s' e h) [ ]
]
