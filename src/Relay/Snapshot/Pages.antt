-- ===== src/Relay/Snapshot/Pages.antt =====
-- Following `next` through a snapshot (store.ts, `snapshotPage`).
pub mod Complete
use mathlib.Core.Option
use mathlib.Core.Path.{subst}
use kontexta.Base.{
  ℕ, zero, suc, ◌<◌, String, ◌≡◌, refl, sym, ap, ◌∙◌, ◌≢◌, inl, inr, Bool, true, false, ◌&&◌,
  Option, none, some, List, [], ◌∷◌, ◌++◌, map, map-append, arith, nat_beq_iff, ◌==◌, Bool-cases,
  some-eq, length, select, All, length-append, select-append, All-append, nat_eq, string_eq,
}
use kontexta.Relay.Tables.{RecordRow, ConflictRow, Db}
use kontexta.Relay.TextOrder.{text_before, text_before_irrefl, text_before_trans}
use kontexta.Relay.Store.{take}
use kontexta.Relay.Snapshot.{
  SnapshotGid, sort_gids, record_after, conflict_after, gids_after, snapshot_gid, last_gid,
  snapshot_page,
}
use kontexta.Relay.Snapshot.Order.{
  IsAscending, All-insert_gid, sort_gids-IsAscending, sort_gids-select,
}

select-map {ℓ} :
    {A : Type ℓ} (p : String → Bool) (f : A → String) (xs : List A)
    → select p (map f xs) ≡ map f (select (λ x. p (f x)) xs)
select-map p f [] = refl
select-map p f (x ∷ xs) = ground (arith, select-map p f xs)

select-both {ℓ} :
    {A : Type ℓ} (p q r : A → Bool) (xs : List A)
    → ((x : A) → (q x && p x) ≡ r x)
    → select p (select q xs) ≡ select r xs
select-both p q r [] h = refl
select-both p q r (x ∷ xs) h = ground (arith, h x, select-both p q r xs h)

before-stronger :
    (b : ℕ) (id : ℕ) (after g h : String)
    → text_before after g ≡ true
    → ((id == b && text_before after h) && text_before g h) ≡ (id == b && text_before g h)
before-stronger b id after g h e = ground (arith, e, text_before_trans after g h e)

-- The gids behind a later cursor are those of the earlier one that come behind it.
gids_after-later :
    (b : ℕ) (after g : String) (db : Db)
    → text_before after g ≡ true
    → gids_after b g db ≡ select (text_before g) (gids_after b after db)
unfolding gids_after
gids_after-later b after g db e =
    let gid_of = λ (r : RecordRow). r.gid in
    let gid_of' = λ (c : ConflictRow). c.gid in
    let p = text_before g in
    let rs = select (record_after b after) db.records in
    let cs = select (conflict_after b after) db.conflicts in
    let recs =
      select-map p gid_of rs
      ∙ ap (map gid_of) (
          select-both (λ r. p r.gid) (record_after b after) (record_after b g) db.records
            (λ r. before-stronger b r.brain_id after g r.gid e)) in
    let confs =
      select-map p gid_of' cs
      ∙ ap (map gid_of') (
          select-both (λ c. p c.gid) (conflict_after b after) (conflict_after b g) db.conflicts
            (λ c. before-stronger b c.brain_id after g c.gid e)) in
    sym (
      sort_gids-select p (map gid_of rs ++ map gid_of' cs)
      ∙ ap sort_gids (
          select-append p (map gid_of rs) (map gid_of' cs)
          ∙ (ap (λ ks. ks ++ select p (map gid_of' cs)) recs
              ∙ ap (λ ks. map gid_of (select (record_after b g) db.records) ++ ks) confs)))

select_whole : (p : String → Bool) (gs : List String) → All (λ g. p g ≡ true) gs → select p gs ≡ gs
select_whole p [] a = refl
select_whole p (g ∷ gs) a = rw a.0 (ap (λ ks. g ∷ ks) (select_whole p gs a.1))

last_gid-All :
    (P : String → Type 0) (n : ℕ) (gs : List String) (g : String)
    → All P gs
    → last_gid (take n gs) ≡ some g
    → P g
last_gid-All P zero gs g a h = grind (arith, h)
last_gid-All P (suc n) [] g a h = grind (arith, h)
last_gid-All P (suc zero) (x ∷ gs) g a h = subst P (some-eq h) a.0
last_gid-All P (suc (suc n)) (x ∷ []) g a h = subst P (some-eq h) a.0
last_gid-All P (suc (suc n)) (x ∷ y ∷ gs) g a h = last_gid-All P (suc n) (y ∷ gs) g a.1 h

from_first :
    (x g : String) (gs : List String)
    → IsAscending (x ∷ gs)
    → some x ≡ some g
    → select (text_before g) (x ∷ gs) ≡ gs
from_first x g gs a h =
    subst (λ k. select (text_before k) (x ∷ gs) ≡ gs) (some-eq h)
      (rw (text_before_irrefl x) (select_whole (text_before x) gs a.0))

not_back : (x g : String) → text_before x g ≡ true → text_before g x ≡ false
not_back x g h = elim (Bool-cases (text_before g x)) [
  | inl e ↦ let round = text_before_trans x g x h e in let no = text_before_irrefl x in cc
  | inr e ↦ e
]

-- What is left behind the last gid of a page.
page_rest :
    (limit : ℕ) (gs : List String) (g : String)
    → IsAscending gs
    → last_gid (take limit gs) ≡ some g
    → take limit gs ++ select (text_before g) gs ≡ gs
page_rest zero gs g a h = grind (arith, h)
page_rest (suc n) [] g a h = grind (arith, h)
page_rest (suc zero) (x ∷ gs) g a h = ap (λ ks. x ∷ ks) (from_first x g gs a h)
page_rest (suc (suc n)) (x ∷ []) g a h = ap (λ ks. x ∷ ks) (from_first x g [] a h)
page_rest (suc (suc n)) (x ∷ y ∷ gs) g a h =
    let later = last_gid-All (λ k. text_before x k ≡ true) (suc n) (y ∷ gs) g a.0 h in
    rw (not_back x g later) (ap (λ ks. x ∷ ks) (page_rest (suc n) (y ∷ gs) g a.1 h))

All-sort_gids : (P : String → Type 0) (gs : List String) → All P gs → All P (sort_gids gs)
unfolding sort_gids
All-sort_gids P [] a = tt
All-sort_gids P (g ∷ gs) a = All-insert_gid P g (sort_gids gs) a.0 (All-sort_gids P gs a.1)

All-map-select {ℓ} :
    {A : Type ℓ} (P : String → Type 0) (p : A → Bool) (f : A → String) (xs : List A)
    → ((x : A) → p x ≡ true → P (f x))
    → All P (map f (select p xs))
All-map-select P p f [] h = tt
All-map-select P p f (x ∷ xs) h = elim (Bool-cases (p x)) [
  | inl e ↦ rw e (h x e, All-map-select P p f xs h)
  | inr e ↦ rw e (All-map-select P p f xs h)
]

-- A full page has a last gid.
full_page :
    (limit : ℕ) (gs : List String)
    → 0 < limit
    → length (take limit gs) ≡ limit
    → (g : String) × (last_gid (take limit gs) ≡ some g)
full_page zero gs p h = elim p [ ]
full_page (suc n) [] p h = let bad : ⊥ = omega (arith, h) in elim bad [ ]
full_page (suc zero) (x ∷ gs) p h = (x, refl)
full_page (suc (suc n)) (x ∷ []) p h = (x, refl)
full_page (suc (suc n)) (x ∷ y ∷ gs) p h =
    full_page (suc n) (y ∷ gs) (omega arith) (omega (arith, h))

short_page : (limit : ℕ) (gs : List String) → length (take limit gs) ≢ limit → take limit gs ≡ gs
short_page zero gs h = elim (h refl) [ ]
short_page (suc n) [] h = refl
short_page (suc n) (x ∷ gs) h = ap (λ ks. x ∷ ks) (short_page n gs (λ e. h (ap suc e)))

abbrev collect :
    List SnapshotGid
    → Option String
    → (String → Option (List SnapshotGid))
    → Option (List SnapshotGid)
collect gids none more = some gids
collect gids (some g) more = Option.map (λ rest. gids ++ rest) (more g)

-- The requests of a machine that follows `next` until there is none (bootstrap.ts,
-- `bootstrapIfNeeded`), where nothing is written in between; `none` means that the fuel ran out.
pub follow : ℕ → ℕ → String → ℕ → Db → Option (List SnapshotGid)
follow zero b after limit db = none
follow (suc rounds) b after limit db =
    let page = snapshot_page b after limit db in
    collect page.gids page.next (λ g. follow rounds b g limit db)

module _ (b : ℕ) (after : String) (db : Db) where
  pub gids_after-IsAscending : IsAscending (gids_after b after db)
  unfolding gids_after
  gids_after-IsAscending =
      let rs = map (λ (r : RecordRow). r.gid) (select (record_after b after) db.records) in
      let cs = map (λ (c : ConflictRow). c.gid) (select (conflict_after b after) db.conflicts) in
      sort_gids-IsAscending (rs ++ cs)

  gids_after-All : All (λ g. text_before after g ≡ true) (gids_after b after db)
  unfolding gids_after
  gids_after-All =
      let rs = map (λ (r : RecordRow). r.gid) (select (record_after b after) db.records) in
      let cs = map (λ (c : ConflictRow). c.gid) (select (conflict_after b after) db.conflicts) in
      All-sort_gids _ (rs ++ cs) (
        All-append _ rs cs
          (All-map-select _ (record_after b after) (λ r. r.gid) db.records
            (λ r e. ground (arith, e)))
          (All-map-select _ (conflict_after b after) (λ c. c.gid) db.conflicts
            (λ c e. ground (arith, e))))

  next_page :
      (limit : ℕ) (g : String)
      → last_gid (take limit (gids_after b after db)) ≡ some g
      → (text_before after g ≡ true)
        × (take limit (gids_after b after db) ++ gids_after b g db ≡ gids_after b after db)
  next_page limit g last =
      let gs = gids_after b after db in
      let front = last_gid-All (λ k. text_before after k ≡ true) limit gs g gids_after-All last in
      (
        front,
        ap (λ ks. take limit gs ++ ks) (gids_after-later b after g db front)
            ∙ page_rest limit gs g gids_after-IsAscending last,
      )

pub follow_all :
    (rounds b : ℕ) (after : String) (limit : ℕ) (db : Db)
    → 0 < limit
    → length (gids_after b after db) < rounds
    → follow rounds b after limit db ≡ some (map (snapshot_gid b db) (gids_after b after db))
unfolding follow snapshot_page
follow_all zero b after limit db p q = let bad : ⊥ = omega (arith, q) in elim bad [ ]
follow_all (suc rounds) b after limit db p q =
    let gs = gids_after b after db in
    let sg = snapshot_gid b db in
    elim (Bool-cases (length (take limit gs) == limit)) [
      | inl e ↦
          let full : length (take limit gs) ≡ limit = (nat_beq_iff _ _).0 e in
          let (g, last) = full_page limit gs p full in
          let (later, whole) = next_page b after db limit g last in
          let count = length-append (take limit gs) (gids_after b g db) in
          let fewer : length (gids_after b g db) < rounds =
            omega (arith, count, ap length whole, full, p, q) in
          let rest = follow_all rounds b g limit db p fewer in
          rw (follow, snapshot_page, e, last, rest)
            (ap some (sym (map-append sg (take limit gs) (gids_after b g db)) ∙ ap (map sg) whole))
      | inr e ↦
          let short = short_page limit gs (λ h. (let same = (nat_beq_iff _ _).1 h in cc)) in
          rw (follow, snapshot_page, e) (ap (λ ks. some (map sg ks)) short)
    ]
