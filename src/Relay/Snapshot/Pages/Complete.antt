-- ===== src/Relay/Snapshot/Pages/Complete.antt =====
-- Which gids a snapshot has (store.ts, `snapshotPage`).
use kontexta.Base.{
  ℕ, ◌<◌, String, ◌≡◌, refl, ap, ◌∙◌, inl, inr, Bool, false, ◌&&◌, ◌||◌, Option, some, List, [],
  ◌∷◌, ◌++◌, map, arith, eq_iff, ◌==◌, Bool-cases, length, select, nat_eq, string_eq,
}
use kontexta.Relay.Tables.{RecordRow, ConflictRow, Db}
use kontexta.Relay.TextOrder.{text_before}
use kontexta.Relay.Snapshot.{
  SnapshotGid, insert_gid, sort_gids, record_after, conflict_after, gids_after, snapshot_gid,
}
use kontexta.Relay.Snapshot.Order.{IsAscending}
use kontexta.Relay.Snapshot.Pages.{follow, gids_after-IsAscending, follow_all}

abbrev pub has_row {ℓ} : {A : Type ℓ} → (A → Bool) → List A → Bool
has_row p [] = false
has_row p (x ∷ xs) = p x || has_row p xs

abbrev pub listed : String → List String → Bool
listed g gs = has_row (λ h. h == g) gs

has_row-append {ℓ} :
    {A : Type ℓ} (p : A → Bool) (xs ys : List A)
    → has_row p (xs ++ ys) ≡ (has_row p xs || has_row p ys)
has_row-append p [] ys = refl
has_row-append p (x ∷ xs) ys = ground (arith, has_row-append p xs ys)

listed-insert_gid :
    (g x : String) (hs : List String) → listed g (insert_gid x hs) ≡ (x == g || listed g hs)
unfolding insert_gid
listed-insert_gid g x [] = refl
listed-insert_gid g x (h ∷ hs) = elim (Bool-cases (x == h)) [
  | inl e ↦ rw e (let same : x ≡ h = (eq_iff x h).0 e in rw same (ground arith))
  | inr e ↦ rw e (ground (arith, listed-insert_gid g x hs))
]

listed-sort_gids : (g : String) (gs : List String) → listed g (sort_gids gs) ≡ listed g gs
unfolding sort_gids
listed-sort_gids g [] = refl
listed-sort_gids g (x ∷ gs) =
    listed-insert_gid g x (sort_gids gs) ∙ ap (λ b. x == g || b) (listed-sort_gids g gs)

listed-selected {ℓ} :
    {A : Type ℓ} (b : ℕ) (after g : String) (id : A → ℕ) (f : A → String) (xs : List A)
    → listed g (map f (select (λ x. id x == b && text_before after (f x)) xs))
      ≡ (text_before after g && has_row (λ x. id x == b && f x == g) xs)
listed-selected b after g id f [] = ground arith
listed-selected b after g id f (x ∷ xs) = elim (Bool-cases (f x == g)) [
  | inl e ↦
      let same : f x ≡ g = (eq_iff (f x) g).0 e in
      let cut : text_before after (f x) ≡ text_before after g = ap (text_before after) same in
      ground (arith, e, cut, listed-selected b after g id f xs)
  | inr e ↦ ground (arith, e, listed-selected b after g id f xs)
]

-- Whether a gid behind `after` has a record or a parked conflict in the brain.
abbrev pub is_kept : ℕ → String → Db → String → Bool
is_kept b after db g =
    text_before after g
    && (has_row (λ (r : RecordRow). r.brain_id == b && r.gid == g) db.records
        || has_row (λ (c : ConflictRow). c.brain_id == b && c.gid == g) db.conflicts)

listed-gids_after :
    (b : ℕ) (after g : String) (db : Db) → listed g (gids_after b after db) ≡ is_kept b after db g
unfolding gids_after
listed-gids_after b after g db =
    let rs = map (λ (r : RecordRow). r.gid) (select (record_after b after) db.records) in
    let cs = map (λ (c : ConflictRow). c.gid) (select (conflict_after b after) db.conflicts) in
    let recs = listed-selected b after g (λ (r : RecordRow). r.brain_id) (λ r. r.gid) db.records in
    let confs =
      listed-selected b after g (λ (c : ConflictRow). c.brain_id) (λ c. c.gid) db.conflicts in
    listed-sort_gids g (rs ++ cs) ∙ has_row-append (λ h. h == g) rs cs ∙ ground (arith, recs, confs)

-- What the pages bring: the entries of a list of gids that ascend strictly, so that none comes twice, and
-- that are exactly the gids behind `after` with a record or a parked conflict in the brain.
abbrev pub Brings : ℕ → String → Db → Option (List SnapshotGid) → Type 0
Brings b after db brought =
    (gs : List String) × ((brought ≡ some (map (snapshot_gid b db) gs))
      × IsAscending gs
      × ((g : String) → listed g gs ≡ is_kept b after db g))

-- Whatever the page size, following `next` from any gid until there is none ends within one round more
-- than there are gids left, and brings every gid behind it that has a record or a parked conflict in the
-- brain, only these, each once and in ascending order, with its records and conflicts of that brain.
pub snapshot_pages_complete :
    (rounds b : ℕ) (after : String) (limit : ℕ) (db : Db)
    → 0 < limit
    → length (gids_after b after db) < rounds
    → Brings b after db (follow rounds b after limit db)
snapshot_pages_complete rounds b after limit db p q = (
  gids_after b after db,
  (
    follow_all rounds b after limit db p q,
    gids_after-IsAscending b after db,
    λ g. listed-gids_after b after g db,
  ),
)
