-- ===== src/Calendar/Conflicts/Order.antt =====
-- The order in which the events are gone through (calendar/conflicts.ts).
use kontexta.Base.{
  ◌≡◌, refl, inl, inr, Bool, true, false, List, [], ◌∷◌, arith, if◌then◌else◌, Bool-cases, select,
  All, All-map,
}
use kontexta.Calendar.Conflicts.{CalendarEvent, comes_first, insert_event, sort_events}

-- Every event comes before the later ones.
abbrev pub IsSorted : List CalendarEvent → Type 0
IsSorted [] = Unit
IsSorted (a ∷ rest) = All (λ b. comes_first a b ≡ true) rest × IsSorted rest

comes_first_total : (a b : CalendarEvent) → comes_first a b ≡ false → comes_first b a ≡ true
comes_first_total a b h = ground (arith, h)

pub comes_first_trans :
    (a b c : CalendarEvent)
    → comes_first a b ≡ true
    → comes_first b c ≡ true
    → comes_first a c ≡ true
comes_first_trans a b c h k = ground (arith, h, k)

All-insert {κ} :
    (P : CalendarEvent → Type κ) (a : CalendarEvent) (bs : List CalendarEvent)
    → P a
    → All P bs
    → All P (insert_event a bs)
unfolding insert_event
All-insert P a [] h hs = (h, tt)
All-insert P a (b ∷ bs) h hs = elim (Bool-cases (comes_first a b)) [
  | inl e ↦ rw e (h, hs)
  | inr e ↦ rw e (hs.0, All-insert P a bs h hs.1)
]

insert-IsSorted :
    (a : CalendarEvent) (bs : List CalendarEvent) → IsSorted bs → IsSorted (insert_event a bs)
unfolding insert_event
insert-IsSorted a [] h = (tt, tt)
insert-IsSorted a (b ∷ bs) h = elim (Bool-cases (comes_first a b)) [
  | inl e ↦ rw e ((e, All-map _ _ bs (λ c k. comes_first_trans a b c e k) h.0), h)
  | inr e ↦ rw e (All-insert _ a bs (comes_first_total a b e) h.0, insert-IsSorted a bs h.1)
]

pub sort-IsSorted : (as' : List CalendarEvent) → IsSorted (sort_events as')
unfolding sort_events
sort-IsSorted [] = tt
sort-IsSorted (a ∷ rest) = insert-IsSorted a (sort_events rest) (sort-IsSorted rest)

pub All-sort_events {κ} :
    (P : CalendarEvent → Type κ) (es : List CalendarEvent) → All P es → All P (sort_events es)
unfolding sort_events
All-sort_events P [] h = tt
All-sort_events P (a ∷ rest) h = All-insert P a (sort_events rest) h.0 (All-sort_events P rest h.1)

module _ (p : CalendarEvent → Bool) where
  insert-first :
      (a : CalendarEvent) (bs : List CalendarEvent)
      → All (λ b. comes_first a b ≡ true) bs
      → insert_event a (select p bs) ≡ a ∷ select p bs
  unfolding insert_event
  insert-first a [] h = refl
  insert-first a (b ∷ bs) h = ground (arith, h.0, insert-first a bs h.1)

  select-insert :
      (a : CalendarEvent) (bs : List CalendarEvent)
      → IsSorted bs
      → select p (insert_event a bs) ≡ (if p a then insert_event a (select p bs) else select p bs)
  unfolding insert_event
  select-insert a [] h = ground arith
  select-insert a (b ∷ bs) h = elim (Bool-cases (comes_first a b)) [
    | inl e ↦
        let first =
          insert-first a (b ∷ bs) (e, All-map _ _ bs (λ c k. comes_first_trans a b c e k) h.0) in
        ground (arith, e, first)
    | inr e ↦ ground (arith, e, select-insert a bs h.1)
  ]

  -- Filtering the events and sorting them may change places.
  pub sort-select :
      (es : List CalendarEvent) → sort_events (select p es) ≡ select p (sort_events es)
  unfolding sort_events
  sort-select [] = refl
  sort-select (a ∷ rest) =
      ground (arith, select-insert a (sort_events rest) (sort-IsSorted rest), sort-select rest)
