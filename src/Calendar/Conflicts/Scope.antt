-- ===== src/Calendar/Conflicts/Scope.antt =====
-- Looking at a few entities only (calendar/conflicts.ts, `findConflicts`).
use kontexta.Base.{
  ℕ, ◌≡◌, refl, sym, ap, ◌∙◌, ◌⊎◌, inl, inr, Bool, true, false, ◌&&◌, Option, none, some, List, [],
  ◌∷◌, arith, if◌then◌else◌, ◌==◌, Bool-cases, select, find_row, All, select-append, All-map,
  find_row-holds, All-append, nat_eq, string_eq,
}
use kontexta.Calendar.Conflicts.{
  CalendarEntity, CalendarLink, CalendarEvent, ConflictKind, Conflict, link_key, Neighbours, at_key,
  put_new, add_links, build_adjacency, link_of, adjacent, sort_events, DetectConflictsInput,
  boundary, text_at_least, related_conflicts, linked_conflicts, pair_conflicts, detect_conflicts,
  in_scope, is_candidate, scoped_conflict, find_conflicts, overlap, linked_overlap,
}
use kontexta.Calendar.Conflicts.Order.{sort-select}
use kontexta.Calendar.Conflicts.Pairs.{
  near_conflicts, near_with, near_pairs, detect_conflicts-near_pairs,
}

abbrev LinkJoins : List ℕ → List CalendarLink → CalendarLink → Type 0
LinkJoins scope links l =
    (x y : ℕ)
    → link_key x y ≡ link_key l.from_entity_id l.to_entity_id
    → in_scope scope x ≡ true
    → is_candidate scope links y ≡ true

link_key-eq :
    (x y u v : ℕ) → link_key x y ≡ link_key u v → ((x ≡ u) × (y ≡ v)) ⊎ ((x ≡ v) × (y ≡ u))
unfolding link_key
link_key-eq x y u v h = ground (arith, h)

in_scope-candidate :
    (scope : List ℕ) (links : List CalendarLink) (e : ℕ)
    → in_scope scope e ≡ true
    → is_candidate scope links e ≡ true
unfolding is_candidate
in_scope-candidate scope [] e h = h
in_scope-candidate scope (l ∷ ls) e h = ground (arith, in_scope-candidate scope ls e h)

candidate-cons :
    (scope : List ℕ) (l : CalendarLink) (ls : List CalendarLink) (e : ℕ)
    → is_candidate scope ls e ≡ true
    → is_candidate scope (l ∷ ls) e ≡ true
unfolding is_candidate
candidate-cons scope l ls e h = ground (arith, h)

LinkJoins-own :
    (scope : List ℕ) (l : CalendarLink) (ls : List CalendarLink) → LinkJoins scope (l ∷ ls) l
unfolding is_candidate
LinkJoins-own scope l ls x y same h = elim (link_key-eq x y _ _ same) [
  | inl (a, b) ↦ ground (arith, b, ap (in_scope scope) (sym a) ∙ h)
  | inr (a, b) ↦ ground (arith, b, ap (in_scope scope) (sym a) ∙ h)
]

links-join : (scope : List ℕ) (links : List CalendarLink) → All (LinkJoins scope links) links
links-join scope [] = tt
links-join scope (l ∷ ls) = (
  LinkJoins-own scope l ls,
  All-map _ _ ls (λ k h x y same e. candidate-cons scope l ls y (h x y same e))
      (links-join scope ls),
)

module _ (scope : List ℕ) (links : List CalendarLink) where
  abbrev Joined : Neighbours → Type 0
  Joined n =
      (x y : ℕ) → link_key x y ≡ n.key → in_scope scope x ≡ true → is_candidate scope links y ≡ true

  put_new-Joined :
      (n : Neighbours) (known : List Neighbours) (o : Option Neighbours)
      → Joined n
      → All Joined known
      → All Joined (put_new n known o)
  put_new-Joined n known none h hs = All-append Joined known _ hs (h, tt)
  put_new-Joined n known (some m) h hs = hs

  add_links-Joined :
      (known : List Neighbours) (ls : List CalendarLink)
      → All Joined known
      → All (LinkJoins scope links) ls
      → All Joined (add_links known ls)
  unfolding add_links
  add_links-Joined known [] hm hl = hm
  add_links-Joined known (l ∷ ls) hm hl =
      let key = link_key l.from_entity_id l.to_entity_id in
      let new : Neighbours = record { key = key; link = l } in
      let found = find_row (at_key key) known in
      add_links-Joined (put_new new known found) ls (put_new-Joined new known found hl.0 hm) hl.1

  adjacent-candidate :
      (x y : ℕ) (l : CalendarLink)
      → adjacent (build_adjacency links) x y ≡ some l
      → in_scope scope x ≡ true
      → is_candidate scope links y ≡ true
  unfolding adjacent build_adjacency
  adjacent-candidate x y l h e = from (find_row (at_key (link_key x y)) (add_links [] links)) refl h
    where
      from :
          (o : Option Neighbours)
          → find_row (at_key (link_key x y)) (add_links [] links) ≡ o
          → link_of o ≡ some l
          → is_candidate scope links y ≡ true
      from none found g = grind (arith, g)
      from (some n) found g =
          let (at, joined) =
            find_row-holds Joined _ (add_links [] links) n found
              (add_links-Joined [] links tt (links-join scope links)) in
          joined x y (ground (arith, at)) e

  link_key_comm : (x y : ℕ) → link_key x y ≡ link_key y x
  unfolding link_key
  link_key_comm x y = ground arith

  adjacent_comm :
      (x y : ℕ) → adjacent (build_adjacency links) x y ≡ adjacent (build_adjacency links) y x
  unfolding adjacent
  adjacent_comm x y =
      ap (λ k. link_of (find_row (at_key k) (build_adjacency links))) (link_key_comm x y)

  abbrev near : CalendarEvent → Bool
  near e = is_candidate scope links e.entity_id

  module _ (entities : List CalendarEntity) (buffer : ℕ) where
    related-unscoped :
        (kind : ConflictKind) (a b : CalendarEvent) (l : Option CalendarLink)
        → in_scope scope a.entity_id ≡ false
        → in_scope scope b.entity_id ≡ false
        → select
            (scoped_conflict scope)
            (related_conflicts (build_adjacency links) entities buffer kind a b l)
          ≡ []
    related-unscoped kind a b l h k = ground (arith, h, k)

    far_unscoped : (e : ℕ) → is_candidate scope links e ≡ false → in_scope scope e ≡ false
    far_unscoped e h = ground (arith, h, in_scope-candidate scope links e)

    -- A conflict in the scope is one between two events that are considered.
    pair_conflicts-scoped :
        (a b : CalendarEvent)
        → (near a && near b) ≡ false
        → select
            (scoped_conflict scope)
            (pair_conflicts (build_adjacency links) entities buffer a b)
          ≡ []
    unfolding pair_conflicts
    pair_conflicts-scoped a b h = elim (Bool-cases (a.entity_id == b.entity_id)) [
      | inl e ↦
          let one : a.entity_id ≡ b.entity_id = ground (arith, e) in
          let out : in_scope scope a.entity_id ≡ false =
            far_unscoped a.entity_id (ground (arith, h, ap (is_candidate scope links) one)) in
          rw e (related-unscoped overlap a b none out (ap (in_scope scope) (sym one) ∙ out))
      | inr e ↦ rw e (by_link (adjacent (build_adjacency links) a.entity_id b.entity_id) refl)
    ]
      where
        by_link :
            (o : Option CalendarLink)
            → adjacent (build_adjacency links) a.entity_id b.entity_id ≡ o
            → select
                (scoped_conflict scope)
                (linked_conflicts (build_adjacency links) entities buffer a b o)
              ≡ []
        by_link none found = refl
        by_link (some l) found =
            let back : adjacent (build_adjacency links) b.entity_id a.entity_id ≡ some l =
              adjacent_comm b.entity_id a.entity_id ∙ found in
            related-unscoped linked_overlap a b (some l)
              (ground (
                arith,
                h,
                in_scope-candidate scope links a.entity_id,
                adjacent-candidate a.entity_id b.entity_id l found,
              ))
              (ground (
                arith,
                h,
                in_scope-candidate scope links b.entity_id,
                adjacent-candidate b.entity_id a.entity_id l back,
              ))

    near_conflicts-scoped :
        (a b : CalendarEvent)
        → (near a && near b) ≡ false
        → select
            (scoped_conflict scope)
            (near_conflicts (build_adjacency links) entities buffer a b)
          ≡ []
    near_conflicts-scoped a b h =
        elim (Bool-cases (text_at_least b.starts_at (boundary buffer a))) [
          | inl e ↦ rw e refl
          | inr e ↦ rw e (pair_conflicts-scoped a b h)
        ]

    abbrev pairs_of : CalendarEvent → List CalendarEvent → List Conflict
    pairs_of = near_with (build_adjacency links) entities buffer

    near_with-scoped :
        (a : CalendarEvent) (bs : List CalendarEvent)
        → select (scoped_conflict scope) (pairs_of a bs)
          ≡ (if near a then select (scoped_conflict scope) (pairs_of a (select near bs)) else [])
    unfolding near_with
    near_with-scoped a [] = ground arith
    near_with-scoped a (b ∷ bs) =
        select-append (scoped_conflict scope)
          (near_conflicts (build_adjacency links) entities buffer a b) (pairs_of a bs)
        ∙ ground (
          arith,
          near_with-scoped a bs,
          near_conflicts-scoped a b,
          select-append (scoped_conflict scope)
              (near_conflicts (build_adjacency links) entities buffer a b)
              (pairs_of a (select near bs)),
        )

    pub near_pairs-scoped :
        (es : List CalendarEvent)
        → select (scoped_conflict scope) (near_pairs (build_adjacency links) entities buffer es)
          ≡ select
              (scoped_conflict scope)
              (near_pairs (build_adjacency links) entities buffer (select near es))
    unfolding near_pairs
    near_pairs-scoped [] = refl
    near_pairs-scoped (a ∷ rest) =
        select-append (scoped_conflict scope) (pairs_of a rest)
          (near_pairs (build_adjacency links) entities buffer rest)
        ∙ ground (
          arith,
          near_with-scoped a rest,
          near_pairs-scoped rest,
          select-append (scoped_conflict scope) (pairs_of a (select near rest))
              (near_pairs (build_adjacency links) entities buffer (select near rest)),
        )

-- Considering only the entities of a scope and those one link away from them loses nothing: the
-- conflicts found are exactly the conflicts among all events that touch an entity of the scope.
pub find_conflicts-scoped :
    (s : ℕ) (scope : List ℕ) (input : DetectConflictsInput)
    → (find_conflicts (s ∷ scope) input).conflicts
      ≡ select (scoped_conflict (s ∷ scope)) (detect_conflicts input)
unfolding find_conflicts
find_conflicts-scoped s scope input =
    let near_events = near (s ∷ scope) input.links in
    let considered : DetectConflictsInput = record input {
      events = select near_events input.events;
    } in
    ap (select (scoped_conflict (s ∷ scope))) (
      detect_conflicts-near_pairs considered
      ∙ ap (near_pairs (build_adjacency input.links) input.entities input.buffer_minutes)
          (sort-select near_events input.events))
    ∙ sym (
        near_pairs-scoped (s ∷ scope) input.links input.entities input.buffer_minutes
          (sort_events input.events))
    ∙ ap (select (scoped_conflict (s ∷ scope))) (sym (detect_conflicts-near_pairs input))
