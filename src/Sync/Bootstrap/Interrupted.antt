-- ===== src/Sync/Bootstrap/Interrupted.antt =====
-- Where an interrupted bootstrap goes on (bootstrap.ts).
use kontexta.Base.{
  ℕ, zero, suc, ◌+◌, ◌<◌, String, ◌≡◌, refl, sym, ap, ◌∙◌, inl, inr, Bool, true, false, Option,
  some, List, [], ◌∷◌, ◌++◌, append_assoc, arith, Bool-cases,
}
use mathlib.Core.Path.{subst}
use kontexta.Json.{Json}
use kontexta.Sync.Apply.{RemoteRow}
use kontexta.Sync.Bootstrap.{
  BootstrapMode, SnapshotStore, SnapshotEntry, SnapshotReply, no_page, page, Boot, Vars, Step,
  went_on, threw, BootEnd, saved_vars, request_failed,
}
use kontexta.Sync.Bootstrap.Loop.{
  handle_page, after_page, on_reply, boot_loop, boot_mode, bootstrap_if_needed,
}
use kontexta.Sync.Bootstrap.Resume.{
  add_ticks-failed, failed-eq, Saved, page-Saved, finish-ends, started, never_fails,
}
use kontexta.Sync.Bootstrap.Paged.{
  Following, times, at_once, StepAt, entries-StepAt, bootstrap_pages, last_page, more_pages,
}

abbrev pub failing : String → SnapshotReply
failing after = no_page

-- What is left of the entries after a run that stopped with the settings of `s`: k more pages.
abbrev pub Remains {ℓ} :
    {F : Type ℓ} → (String → SnapshotReply) → ℕ → List SnapshotEntry → Boot F → Type 0
Remains serve k es s =
    (xs : List SnapshotEntry) × ((ys : List SnapshotEntry) × ((es ≡ xs ++ ys)
        × Following serve k (saved_vars s).after ys))

Remains-after {ℓ} :
    {F : Type ℓ} (serve : String → SnapshotReply) (k : ℕ) (xs ys : List SnapshotEntry) (s : Boot F)
    → Remains serve k ys s
    → Remains serve k (xs ++ ys) s
Remains-after serve k xs ys s (zs, (ws, (e, f))) =
    (xs ++ zs, (ws, (ap (λ l. xs ++ l) e ∙ sym (append_assoc xs zs ws), f)))

module _ {ℓ} {F : Type ℓ} (store : SnapshotStore F) (sha256 : String → String)
    (decrypt : RemoteRow → Option Json) (mode : BootstrapMode) (s' : Boot F) where
  abbrev loop : List (String → SnapshotReply) → Vars → Boot F → BootEnd F
  loop = boot_loop store sha256 decrypt mode

  page_failed :
      (more : Bool) (rest : Vars → Boot F → BootEnd F) (g : String) (p : Bool) (m : Step F)
      → after_page store sha256 decrypt mode more rest m ≡ request_failed s'
      → StepAt g m
      → Saved store sha256 decrypt mode p m
      → (w : Vars) × ((t : Boot F) × ((w.after ≡ g)
            × (saved_vars t ≡ w)
            × (rest w t ≡ request_failed s')))
  unfolding StepAt Saved
  page_failed more rest g p (threw t) h at saved = cc
  page_failed true rest g p (went_on w t ts) h at saved =
      (w, (t, (at, saved.0, add_ticks-failed ts (rest w t) s' h)))
  page_failed false rest g p (went_on w t ts) h at saved =
      elim (finish-ends store sha256 decrypt mode s' _ (add_ticks-failed ts _ s' h)) [ ]

  stops_at :
      (serve : String → SnapshotReply) (j k n : ℕ) (after : String) (es : List SnapshotEntry)
      → Following serve n after es
      → n ≡ j + k
      → 0 < k
      → (v : Vars) (s : Boot F) → v.after ≡ after
      → saved_vars s ≡ v
      → loop (times j serve ++ failing ∷ []) v s ≡ request_failed s'
      → Remains serve k es s'
  unfolding boot_loop handle_page
  stops_at serve zero k n after es f c pos v s a b h =
      let here : n ≡ k = omega (arith, c) in
      let same : s ≡ s' = failed-eq s s' h in
      let at : after ≡ (saved_vars s').after =
        sym a
        ∙ ap (λ (w : Vars). w.after) (sym b)
        ∙ ap (λ (t : Boot F). (saved_vars t).after) same in
      (
        [],
        (
          es,
          (
            refl,
            subst (λ x. Following serve k x es) at (subst (λ m. Following serve m after es) here f),
          ),
        ),
      )
  stops_at serve (suc j) k _ _ _ (last_page after es m q) c pos v s a b h =
      let bad : ⊥ = omega (arith, c, pos) in elim bad [ ]
  stops_at serve (suc j) k _ _ _ (more_pages i after g xs ys m q last rest) c pos v s a b h =
      let reply : serve v.after ≡ page xs true (some m) = ap serve a ∙ q in
      let rest_of = loop (times j serve ++ failing ∷ []) in
      let h' =
        subst (λ r. on_reply store sha256 decrypt mode rest_of v s r ≡ request_failed s') reply h in
      let (w, t') =
        page_failed true rest_of g s.pending _ h'
          (entries-StepAt store sha256 decrypt mode xs g _ _ last)
          (page-Saved store sha256 decrypt mode xs (some m) v s b) in
      let (t, (at, sv, later)) = t' in
      Remains-after serve k xs ys s'
        (stops_at serve j k i g ys rest (omega (arith, c)) pos w t at sv later)

-- A bootstrap that gets j of the pages and then no reply stops with settings from which it goes on: what
-- it passed and what the server has behind its saved gid are together the whole list of entries, and the
-- next run, in whatever mode it finds, ends as if the server had sent just the remaining ones, at once.
pub bootstrap_interrupted {ℓ} :
    {F : Type ℓ} (store : SnapshotStore F) (sha256 : String → String)
    (decrypt : RemoteRow → Option Json) (serve : String → SnapshotReply) (j k : ℕ)
    (es : List SnapshotEntry) (s s' : Boot F)
    → 0 < k
    → Following serve (j + k) (saved_vars s).after es
    → bootstrap_if_needed store sha256 (some decrypt) true (times j serve ++ failing ∷ []) s
      ≡ request_failed s'
    → (xs : List SnapshotEntry) × ((ys : List SnapshotEntry) × ((es ≡ xs ++ ys)
          × Following serve k (saved_vars s').after ys
          × (bootstrap_if_needed store sha256 (some decrypt) true (times k serve) s'
              ≡ bootstrap_if_needed store sha256 (some decrypt) true (at_once serve ys) s')))
bootstrap_interrupted store sha256 decrypt serve j k es s s' pos f h = elim (Bool-cases s.pending) [
  | inl e ↦
      let run = sym (started store sha256 decrypt (times j serve ++ failing ∷ []) s e) ∙ h in
      let (xs, (ys, (whole, g))) =
        stops_at store sha256 decrypt (boot_mode store s) s' serve j k (j + k) _ es f refl pos
          (saved_vars s) s refl refl run in
      (xs, (ys, (whole, g, bootstrap_pages store sha256 decrypt serve k ys s' g)))
  | inr e ↦ elim (never_fails store sha256 decrypt (times j serve ++ failing ∷ []) s s' e h) [ ]
]
