-- ===== src/Sync/Bootstrap/Kept.antt =====
-- What the records of a page leave as it was, and that the settings keep up with the variables
-- (bootstrap.ts).
use kontexta.Json.{Json}
use kontexta.Base.{
  ℕ, String, ◌≡◌, refl, ap, ◌∙◌, inl, inr, Bool, true, false, Option, none, some, List, [], ◌∷◌,
  ◌++◌, Bool-cases,
}
use kontexta.Sync.Op.{Op}
use kontexta.Sync.Apply.{Outcome, RemoteRow, applied, refused}
use kontexta.Sync.Bootstrap.{
  BootstrapMode, SnapshotStore, SnapshotRow, SnapshotEntry, Boot, Vars, Tick, Step, went_on, threw,
  with_ticks, ◌>>=◌, saved_vars,
}
use kontexta.Sync.Bootstrap.Record.{settle, process_now, process_unless, process_record}
use kontexta.Sync.Bootstrap.Loop.{
  record_op, record_with, handle_record, handle_records, settle_fork, fork_unless, conflict_local,
  conflict_op, conflict_with, handle_conflicts, pass_gid, handle_entries,
}

module _ {ℓ} {F : Type ℓ} where
  pub record Kept (v : Vars) (s : Boot F) (w : Vars) (t : Boot F) : Type 0 where
    pub latest : w.latest ≡ v.latest
    pub saved_latest : t.saved_latest ≡ s.saved_latest
    pub cursor : t.sync_cursor ≡ s.sync_cursor
    pub pending : t.pending ≡ s.pending
    pub saved : saved_vars s ≡ v → saved_vars t ≡ w

  Kept-refl : (v : Vars) (s : Boot F) → Kept v s v s
  Kept-refl v s = record {
    latest = refl;
    saved_latest = refl;
    cursor = refl;
    pending = refl;
    saved = λ h. h;
  }

  Kept-trans : (u v w : Vars) (r s t : Boot F) → Kept u r v s → Kept v s w t → Kept u r w t
  Kept-trans u v w r s t k l = record {
    latest = l.latest ∙ k.latest;
    saved_latest = l.saved_latest ∙ k.saved_latest;
    cursor = l.cursor ∙ k.cursor;
    pending = l.pending ∙ k.pending;
    saved = λ h. l.saved (k.saved h);
  }

  unfoldable pub StepKept : Vars → Boot F → Step F → Type 0
  StepKept v s (went_on w t ts) = Kept v s w t
  StepKept v s (threw t) = Unit

  pub then-Kept :
      (v : Vars) (s : Boot F) (m : Step F) (k : Vars → Boot F → Step F)
      → StepKept v s m
      → ((w : Vars) (t : Boot F) → StepKept w t (k w t))
      → StepKept v s (m >>= k)
  unfolding StepKept
  then-Kept v s (threw t) k h f = tt
  then-Kept v s (went_on w t ts) k h f = joined (k w t) (f w t)
    where
      joined : (n : Step F) → StepKept w t n → StepKept v s (with_ticks ts n)
      joined (threw t') g = tt
      joined (went_on w' t' us) g = Kept-trans v w w' s t t' h g

  -- A step that only writes the files, the versions and the skipped ops.
  body-Kept :
      (v : Vars) (s t : Boot F)
      → t.saved_after ≡ s.saved_after
      → t.saved_latest ≡ s.saved_latest
      → t.saved_deferred ≡ s.saved_deferred
      → t.sync_cursor ≡ s.sync_cursor
      → t.pending ≡ s.pending
      → Kept v s v t
  unfolding saved_vars
  body-Kept v s t a l d c p = record {
    latest = refl;
    saved_latest = l;
    cursor = c;
    pending = p;
    saved = λ h. cc;
  }

module _ {ℓ} {F : Type ℓ} (store : SnapshotStore F) where
  settle-Kept :
      (op : Op) (seq : ℕ) (version : Option ℕ) (v : Vars) (s : Boot F) (o : Outcome (F × List Tick))
      → StepKept v s (settle store op seq version v s o)
  unfolding StepKept
  settle-Kept op seq none v s (applied (files, ts)) = body-Kept v s _ refl refl refl refl refl
  settle-Kept op seq (some n) v s (applied (files, ts)) = body-Kept v s _ refl refl refl refl refl
  settle-Kept op seq none v s (refused (files, ts) true e) =
      body-Kept v s _ refl refl refl refl refl
  settle-Kept op seq (some n) v s (refused (files, ts) true e) =
      body-Kept v s _ refl refl refl refl refl
  settle-Kept op seq version v s (refused (files, ts) false e) = tt

  pub skip : (v : Vars) (s : Boot F) → StepKept v s (went_on v s [])
  unfolding StepKept
  skip v s = Kept-refl v s

  module _ (sha256 : String → String) (mode : BootstrapMode) where
    pub process_now-Kept :
        (op : Op) (seq : ℕ) (version : Option ℕ) (v : Vars) (s : Boot F)
        → StepKept v s (process_now store sha256 mode op seq version v s)
    unfolding process_now
    process_now-Kept op seq version v s = settle-Kept op seq version v s _

    unless-Kept :
        (d : Option Bool) (op : Op) (seq : ℕ) (version : Option ℕ) (v : Vars) (s : Boot F)
        → StepKept v s (process_unless store sha256 mode d op seq version v s)
    unfolding StepKept saved_vars
    unless-Kept none op seq version v s = tt
    unless-Kept (some true) op seq version v s = record {
      latest = refl;
      saved_latest = refl;
      cursor = refl;
      pending = refl;
      saved = λ h.
          ap
            (λ (w : Vars). record w {
              deferred = v.deferred ++ record { op = op; seq = seq; version = version } ∷ [];
            })
            h;
    }
    unless-Kept (some false) op seq version v s = process_now-Kept op seq version v s

    process_record-Kept :
        (op : Op) (seq : ℕ) (version : Option ℕ) (v : Vars) (s : Boot F)
        → StepKept v s (process_record store sha256 mode op seq version v s)
    unfolding process_record
    process_record-Kept op seq version v s = unless-Kept _ op seq version v s

    module _ (decrypt : RemoteRow → Option Json) where
      op-Kept :
          (o : Option Op) (seq version : Option ℕ) (v : Vars) (s : Boot F)
          → StepKept v s (record_op store sha256 decrypt mode o seq version v s)
      unfolding StepKept
      op-Kept none seq version v s = Kept-refl v s
      op-Kept (some op) seq version v s = process_record-Kept op _ version v s

      with-Kept :
          (r : SnapshotRow) (p : Option Json) (v : Vars) (s : Boot F)
          → StepKept v s (record_with store sha256 decrypt mode r p v s)
      unfolding StepKept
      with-Kept r none v s = tt
      with-Kept r (some payload) v s = op-Kept _ r.row.seq r.version v s

      record-Kept :
          (r : SnapshotRow) (v : Vars) (s : Boot F)
          → StepKept v s (handle_record store sha256 decrypt mode r v s)
      unfolding handle_record
      record-Kept r v s = elim (Bool-cases r.deleted) [
        | inl e ↦ rw e (skip v s)
        | inr e ↦ rw e (with-Kept r (decrypt r.row) v s)
      ]

      records-Kept :
          (rs : List SnapshotRow) (v : Vars) (s : Boot F)
          → StepKept v s (handle_records store sha256 decrypt mode rs v s)
      unfolding handle_records
      records-Kept [] v s = skip v s
      records-Kept (r ∷ rs) v s = then-Kept v s _ _ (record-Kept r v s) (records-Kept rs)

      fork-Kept :
          (v : Vars) (s : Boot F) (o : Outcome (F × Bool))
          → StepKept v s (settle_fork store sha256 decrypt mode v s o)
      unfolding StepKept
      fork-Kept v s (applied (files, forked)) = body-Kept v s _ refl refl refl refl refl
      fork-Kept v s (refused (files, _) true e) = body-Kept v s _ refl refl refl refl refl
      fork-Kept v s (refused (files, _) false e) = tt

      fork_unless-Kept :
          (d : Option Bool) (op : Op) (seq : Option ℕ) (v : Vars) (s : Boot F)
          → StepKept v s (fork_unless store sha256 decrypt mode d op seq v s)
      unfolding StepKept
      fork_unless-Kept none op seq v s = tt
      fork_unless-Kept (some true) op seq v s = Kept-refl v s
      fork_unless-Kept (some false) op seq v s = fork-Kept v s _

      local-Kept :
          (op : Op) (seq : Option ℕ) (v : Vars) (s : Boot F) (hash : Option (Option String))
          → StepKept v s (conflict_local store sha256 decrypt mode op seq v s hash)
      local-Kept op seq v s none = skip v s
      local-Kept op seq v s (some hash) = fork_unless-Kept _ op seq v s

      conflict_op-Kept :
          (seq : Option ℕ) (v : Vars) (s : Boot F) (o : Option Op)
          → StepKept v s (conflict_op store sha256 decrypt mode seq v s o)
      conflict_op-Kept seq v s none = skip v s
      conflict_op-Kept seq v s (some op) = local-Kept op seq v s _

      conflict-Kept :
          (r : SnapshotRow) (v : Vars) (s : Boot F) (p : Option Json)
          → StepKept v s (conflict_with store sha256 decrypt mode r v s p)
      unfolding StepKept
      conflict-Kept r v s none = tt
      conflict-Kept r v s (some payload) = conflict_op-Kept _ v s _

      conflicts-Kept :
          (rs : List SnapshotRow) (v : Vars) (s : Boot F)
          → StepKept v s (handle_conflicts store sha256 decrypt mode rs v s)
      unfolding handle_conflicts
      conflicts-Kept [] v s = skip v s
      conflicts-Kept (r ∷ rs) v s =
          then-Kept v s _ _ (conflict-Kept r v s (decrypt r.row)) (conflicts-Kept rs)

      pass-Kept :
          (g : String) (v : Vars) (s : Boot F)
          → StepKept v s (pass_gid store sha256 decrypt mode g v s)
      unfolding StepKept saved_vars
      pass-Kept g v s = record {
        latest = refl;
        saved_latest = refl;
        cursor = refl;
        pending = refl;
        saved = λ h. ap (λ (w : Vars). record w { after = g }) h;
      }

      pub entries-Kept :
          (es : List SnapshotEntry) (v : Vars) (s : Boot F)
          → StepKept v s (handle_entries store sha256 decrypt mode es v s)
      unfolding handle_entries
      entries-Kept [] v s = skip v s
      entries-Kept (e ∷ es) v s =
          then-Kept v s _ _
            (then-Kept v s _ _
              (then-Kept v s _ _ (records-Kept e.records v s) (conflicts-Kept e.conflicts))
              (pass-Kept e.gid))
            (entries-Kept es)
