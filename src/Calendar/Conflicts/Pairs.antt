-- ===== src/Calendar/Conflicts/Pairs.antt =====
-- The early end of the inner loop loses no conflict (calendar/conflicts.ts).
use kontexta.Calendar.Conflicts.Order.{IsSorted, sort-IsSorted, All-sort_events}
use kontexta.Base.{
  ℕ, ◌<◌, ◌≡◌, refl, ◌∙◌, inl, inr, true, List, [], ◌∷◌, ◌++◌, arith, leb, if◌then◌else◌,
  Bool-cases, All, All-map,
}
use kontexta.Calendar.Conflicts.{
  CalendarEntity, CalendarEvent, Conflict, Neighbours, build_adjacency, sort_events,
  DetectConflictsInput, boundary, year_10000, text_at_least, pair_conflicts, scan, scan_all,
  detect_conflicts,
}

-- The buffer of an event ends before the year 10000.
abbrev pub EndsInTime : ℕ → CalendarEvent → Type 0
EndsInTime buffer a = boundary buffer a < year_10000

module _ (adjacency : List Neighbours) (entities : List CalendarEntity) (buffer : ℕ) where
  -- The conflicts of one event with each later one, without an early end.
  unfoldable pub pairs_with : CalendarEvent → List CalendarEvent → List Conflict
  pairs_with a [] = []
  pairs_with a (b ∷ bs) = pair_conflicts adjacency entities buffer a b ++ pairs_with a bs

  unfoldable pub all_pairs : List CalendarEvent → List Conflict
  unfolding pairs_with
  all_pairs [] = []
  all_pairs (a ∷ rest) = pairs_with a rest ++ all_pairs rest

  -- The same, of the pairs that the boundary does not keep apart.
  abbrev pub near_conflicts : CalendarEvent → CalendarEvent → List Conflict
  near_conflicts a b =
      if text_at_least b.starts_at (boundary buffer a)
      then []
      else pair_conflicts adjacency entities buffer a b

  unfoldable pub near_with : CalendarEvent → List CalendarEvent → List Conflict
  near_with a [] = []
  near_with a (b ∷ bs) = near_conflicts a b ++ near_with a bs

  unfoldable pub near_pairs : List CalendarEvent → List Conflict
  unfolding near_with
  near_pairs [] = []
  near_pairs (a ∷ rest) = near_with a rest ++ near_pairs rest

  near_with_far :
      (a : CalendarEvent) (bs : List CalendarEvent) (at : ℕ)
      → text_at_least at (boundary buffer a) ≡ true
      → All (λ b. leb at b.starts_at ≡ true) bs
      → near_with a bs ≡ []
  unfolding near_with
  near_with_far a [] at h hs = refl
  near_with_far a (b ∷ bs) at h hs =
      let far : text_at_least b.starts_at (boundary buffer a) ≡ true = ground (arith, h, hs.0) in
      rw (far, near_with_far a bs at h hs.1) refl

  scan-near :
      (a : CalendarEvent) (bs : List CalendarEvent)
      → IsSorted bs
      → scan adjacency entities buffer a bs ≡ near_with a bs
  unfolding scan near_with
  scan-near a [] h = refl
  scan-near a (b ∷ bs) h = elim (Bool-cases (text_at_least b.starts_at (boundary buffer a))) [
    | inl far ↦
        let later = All-map _ _ bs (λ c k. ground (arith, k)) h.0 in
        rw (far, near_with_far a bs b.starts_at far later) refl
    | inr near ↦ rw (near, scan-near a bs h.1) refl
  ]

  scan_all-near :
      (es : List CalendarEvent)
      → IsSorted es
      → scan_all adjacency entities buffer es ≡ near_pairs es
  unfolding scan_all near_pairs
  scan_all-near [] h = refl
  scan_all-near (a ∷ rest) h = rw (scan-near a rest h.1, scan_all-near rest h.1) refl

  near_conflicts-pair :
      (a b : CalendarEvent)
      → EndsInTime buffer a
      → near_conflicts a b ≡ pair_conflicts adjacency entities buffer a b
  unfolding pair_conflicts
  near_conflicts-pair a b h = ground (arith, h)

  near_with-pairs_with :
      (a : CalendarEvent) (bs : List CalendarEvent)
      → EndsInTime buffer a
      → near_with a bs ≡ pairs_with a bs
  unfolding near_with pairs_with
  near_with-pairs_with a [] h = refl
  near_with-pairs_with a (b ∷ bs) h =
      rw (near_conflicts-pair a b h, near_with-pairs_with a bs h) refl

  near_pairs-all_pairs :
      (es : List CalendarEvent) → All (EndsInTime buffer) es → near_pairs es ≡ all_pairs es
  unfolding near_pairs all_pairs
  near_pairs-all_pairs [] h = refl
  near_pairs-all_pairs (a ∷ rest) h =
      rw (near_with-pairs_with a rest h.0, near_pairs-all_pairs rest h.1) refl

pub detect_conflicts-near_pairs :
    (i : DetectConflictsInput)
    → detect_conflicts i
      ≡ near_pairs (build_adjacency i.links) i.entities i.buffer_minutes (sort_events i.events)
unfolding detect_conflicts
detect_conflicts-near_pairs i =
    scan_all-near (build_adjacency i.links) i.entities i.buffer_minutes (sort_events i.events)
      (sort-IsSorted i.events)

-- Where every event ends so early that its buffer ends before the year 10000, going through the sorted
-- events and leaving the inner loop at the boundary, which is compared as a text, finds the same
-- conflicts in the same order as comparing every event with every later one.
pub detect_conflicts-all_pairs :
    (i : DetectConflictsInput)
    → All (EndsInTime i.buffer_minutes) i.events
    → detect_conflicts i
      ≡ all_pairs (build_adjacency i.links) i.entities i.buffer_minutes (sort_events i.events)
detect_conflicts-all_pairs i h =
    detect_conflicts-near_pairs i
    ∙ near_pairs-all_pairs (build_adjacency i.links) i.entities i.buffer_minutes
        (sort_events i.events) (All-sort_events _ i.events h)
