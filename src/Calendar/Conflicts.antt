-- ===== src/Calendar/Conflicts.antt =====
-- packages/core/src/calendar/conflicts.ts and types.ts. An instant is the number of its milliseconds from
-- the start of the year 0. The events lie in the years 0 to 9999, whose ISO texts compare as these
-- numbers do; the end of a buffer may lie later. A buffer so long that its end is no `Date` (after
-- the year 275760), where `toISOString` throws a RangeError, is not modelled.
pub mod Order
pub mod Pairs
pub mod Scope
use kontexta.Base.{
  ℕ, ◌+◌, ◌-◌, ◌*◌, String, Bool, false, ◌&&◌, ◌||◌, Option, none, some, List, [], ◌∷◌, ◌++◌, map,
  ltb, leb, if◌then◌else◌, ◌==◌, length, select, find_row, nat_eq, string_eq,
}

pub record CalendarEntity : Type 0 where
  pub id : ℕ
  pub name : String

pub record CalendarLink : Type 0 where
  pub id : ℕ
  pub from_entity_id : ℕ
  pub to_entity_id : ℕ
  pub label : Option String

pub record CalendarEvent : Type 0 where
  pub id : ℕ
  pub entity_id : ℕ
  pub title : String
  pub starts_at : ℕ
  pub ends_at : ℕ

pub data ConflictKind : Type 0 where
  overlap linked_overlap insufficient_buffer : ConflictKind

pub record ConflictEntityRef : Type 0 where
  pub id : ℕ
  pub name : Option String

-- A difference of two instants in milliseconds.
pub data ℤ : Type 0 where
  pos negsuc : ℕ → ℤ

abbrev minus : ℕ → ℕ → ℤ
minus a b = if leb b a then pos (a - b) else negsuc (b - a - 1)

-- `gap` is `gap_minutes` in milliseconds; the wording of `reason` follows from the other fields.
pub record Conflict : Type 0 where
  pub kind : ConflictKind
  pub event_a : CalendarEvent
  pub event_b : CalendarEvent
  pub entity_a : ConflictEntityRef
  pub entity_b : ConflictEntityRef
  pub link : Option CalendarLink
  pub gap : Option ℤ

-- `linkKey`: the pair of ids in ascending order, as the text `low:high` holds it
pub record LinkKey : Type 0 where
  pub low : ℕ
  pub high : ℕ

unfoldable pub link_key : ℕ → ℕ → LinkKey
link_key a b = if ltb a b then record { low = a; high = b } else record { low = b; high = a }

abbrev pub key_is : LinkKey → LinkKey → Bool
key_is j k = j.low == k.low && j.high == k.high

pub record Neighbours : Type 0 where
  pub key : LinkKey
  pub link : CalendarLink

abbrev pub at_key : LinkKey → Neighbours → Bool
at_key k n = key_is n.key k

abbrev put_new : Neighbours → List Neighbours → Option Neighbours → List Neighbours
put_new n links none = links ++ n ∷ []
put_new n links (some m) = links

-- The loop of `buildAdjacency`: a map in which the first link of a pair stays.
unfoldable pub add_links : List Neighbours → List CalendarLink → List Neighbours
unfolding link_key
add_links known [] = known
add_links known (l ∷ ls) =
    let key = link_key l.from_entity_id l.to_entity_id in
    add_links (put_new (record { key = key; link = l }) known (find_row (at_key key) known)) ls

unfoldable pub build_adjacency : List CalendarLink → List Neighbours
unfolding add_links
build_adjacency links = add_links [] links

abbrev link_of : Option Neighbours → Option CalendarLink
link_of none = none
link_of (some n) = some n.link

unfoldable pub adjacent : List Neighbours → ℕ → ℕ → Option CalendarLink
unfolding link_key
adjacent map a b = link_of (find_row (at_key (link_key a b)) map)

-- The map by id, in which a later entity replaces an earlier one.
abbrev name_by_id : List CalendarEntity → ℕ → Option String
name_by_id [] id = none
name_by_id (e ∷ es) id =
    let later = name_by_id es id in
    elim later [ some name ↦ some name | none ↦ if e.id == id then some e.name else none ]

-- `#id` stands for a name that is `none`.
abbrev entity_ref : List CalendarEntity → ℕ → ConflictEntityRef
entity_ref entities id = record { id = id; name = name_by_id entities id }

-- The comparison that sorts the events.
abbrev pub comes_first : CalendarEvent → CalendarEvent → Bool
comes_first a b = ltb a.starts_at b.starts_at || a.starts_at == b.starts_at && leb a.id b.id

unfoldable pub insert_event : CalendarEvent → List CalendarEvent → List CalendarEvent
insert_event a [] = a ∷ []
insert_event a (b ∷ bs) = if comes_first a b then a ∷ b ∷ bs else b ∷ insert_event a bs

unfoldable pub sort_events : List CalendarEvent → List CalendarEvent
unfolding insert_event
sort_events [] = []
sort_events (a ∷ rest) = insert_event a (sort_events rest)

pub record DetectConflictsInput : Type 0 where
  pub events : List CalendarEvent
  pub links : List CalendarLink
  pub entities : List CalendarEntity
  pub buffer_minutes : ℕ

abbrev pub overlaps : CalendarEvent → CalendarEvent → Bool
overlaps a b = ltb a.starts_at b.ends_at && ltb b.starts_at a.ends_at

-- The end of the span in which a later event can be too close to `a`.
abbrev pub boundary : ℕ → CalendarEvent → ℕ
boundary buffer a = a.ends_at + buffer * 60000

abbrev pub year_10000 : ℕ
year_10000 = 315569520000000

-- `at >= limit` on the ISO texts of an event's start and a boundary: from the year 10000 on a text
-- begins with `+`, which comes before every digit.
abbrev pub text_at_least : ℕ → ℕ → Bool
text_at_least at limit = leb year_10000 limit || leb limit at

module _ (adjacency : List Neighbours) (entities : List CalendarEntity) (buffer : ℕ) where
  abbrev conflict :
      ConflictKind → CalendarEvent → CalendarEvent → Option CalendarLink → Option ℤ → Conflict
  conflict kind a b link gap = record {
    kind = kind;
    event_a = a;
    event_b = b;
    entity_a = entity_ref entities a.entity_id;
    entity_b = entity_ref entities b.entity_id;
    link = link;
    gap = gap;
  }

  abbrev related_conflicts :
      ConflictKind → CalendarEvent → CalendarEvent → Option CalendarLink → List Conflict
  related_conflicts kind a b link =
      if overlaps a b
      then conflict kind a b link none ∷ []
      else if ltb 0 buffer && ltb b.starts_at (boundary buffer a)
      then conflict insufficient_buffer a b link (some (minus b.starts_at a.ends_at)) ∷ []
      else []

  abbrev linked_conflicts : CalendarEvent → CalendarEvent → Option CalendarLink → List Conflict
  linked_conflicts a b none = []
  linked_conflicts a b (some l) = related_conflicts linked_overlap a b (some l)

  -- The body of the inner loop after its `break`: at most one conflict.
  unfoldable pub pair_conflicts : CalendarEvent → CalendarEvent → List Conflict
  unfolding adjacent
  pair_conflicts a b =
      if a.entity_id == b.entity_id
      then related_conflicts overlap a b none
      else linked_conflicts a b (adjacent adjacency a.entity_id b.entity_id)

  -- The inner loop, which stops at the boundary.
  unfoldable pub scan : CalendarEvent → List CalendarEvent → List Conflict
  unfolding pair_conflicts
  scan a [] = []
  scan a (b ∷ bs) =
      let rest = scan a bs in
      if text_at_least b.starts_at (boundary buffer a) then [] else pair_conflicts a b ++ rest

  unfoldable pub scan_all : List CalendarEvent → List Conflict
  unfolding scan
  scan_all [] = []
  scan_all (a ∷ rest) = scan a rest ++ scan_all rest

unfoldable pub detect_conflicts : DetectConflictsInput → List Conflict
unfolding scan_all build_adjacency sort_events
detect_conflicts i =
    scan_all (build_adjacency i.links) i.entities i.buffer_minutes (sort_events i.events)

-- An event is considered if its entity is in the scope or one link away from it.
pub in_scope : List ℕ → ℕ → Bool
in_scope [] e = false
in_scope (i ∷ is) e = i == e || in_scope is e

pub is_candidate : List ℕ → List CalendarLink → ℕ → Bool
unfolding in_scope
is_candidate scope [] e = in_scope scope e
is_candidate scope (l ∷ ls) e =
    in_scope scope l.from_entity_id && l.to_entity_id == e
    || (in_scope scope l.to_entity_id && l.from_entity_id == e || is_candidate scope ls e)

pub record FindConflictsResult : Type 0 where
  pub conflicts : List Conflict
  pub events_considered : ℕ

abbrev pub scoped_conflict : List ℕ → Conflict → Bool
scoped_conflict scope c = in_scope scope c.entity_a.id || in_scope scope c.entity_b.id

-- `input.events` are the events of the window; no scope is the empty one.
pub find_conflicts : List ℕ → DetectConflictsInput → FindConflictsResult
unfolding detect_conflicts is_candidate
find_conflicts [] input = record {
  conflicts = detect_conflicts input;
  events_considered = length input.events;
}
find_conflicts (s ∷ ss) input =
    let events =
      select (λ (e : CalendarEvent). is_candidate (s ∷ ss) input.links e.entity_id) input.events in
    record {
      conflicts =
          select (scoped_conflict (s ∷ ss)) (detect_conflicts (record input { events = events }));
      events_considered = length events;
    }
