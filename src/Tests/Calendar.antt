-- ===== src/Tests/Calendar.antt =====
-- Events of three entities, two of which are linked (packages/core/src/calendar/conflicts.ts).
use kontexta.Base.{ℕ, ◌≡◌, refl, none, [], ◌∷◌, arith, select}
use kontexta.Calendar.Conflicts.{
  CalendarEvent, build_adjacency, insert_event, sort_events, DetectConflictsInput, scan, scan_all,
  detect_conflicts, scoped_conflict, find_conflicts,
}
use kontexta.Calendar.Conflicts.Pairs.{all_pairs, detect_conflicts-all_pairs}
use kontexta.Calendar.Conflicts.Scope.{find_conflicts-scoped}

abbrev event : ℕ → ℕ → ℕ → ℕ → CalendarEvent
event id entity from to = record {
  id = id;
  entity_id = entity;
  title = "meeting";
  starts_at = from;
  ends_at = to;
}

abbrev busy_day : DetectConflictsInput
busy_day = record {
  events = event 1 2 50000 90000 ∷ event 2 1 0 60000 ∷ event 3 3 10000 20000 ∷ [];
  links = record { id = 1; from_entity_id = 2; to_entity_id = 1; label = none } ∷ [];
  entities = record { id = 1; name = "room" } ∷ [];
  buffer_minutes = 5;
}

detect_conflicts-all_pairs_example :
    detect_conflicts busy_day
    ≡ all_pairs
        (build_adjacency busy_day.links)
        busy_day.entities
        busy_day.buffer_minutes
        (sort_events busy_day.events)
detect_conflicts-all_pairs_example =
    detect_conflicts-all_pairs busy_day (omega arith, (omega arith, (omega arith, tt)))

-- A buffer that ends after the year 9999 hides even an overlap.
hidden_overlap : detect_conflicts (record busy_day { buffer_minutes = 6000000000 }) ≡ []
unfolding detect_conflicts sort_events insert_event scan_all scan
hidden_overlap = refl

find_conflicts-scoped_example :
    (find_conflicts (1 ∷ []) busy_day).conflicts
    ≡ select (scoped_conflict (1 ∷ [])) (detect_conflicts busy_day)
find_conflicts-scoped_example = find_conflicts-scoped 1 [] busy_day
