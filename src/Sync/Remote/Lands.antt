-- ===== src/Sync/Remote/Lands.antt =====
-- A remote update of a file that this machine has (packages/core/src/storage/apply.ts).
use mathlib.Core.Path.{subst}
use kontexta.Base.{
  ℕ, String, ◌≡◌, refl, sym, ap, ◌∙◌, ◌⊎◌, inl, inr, Bool, true, false, ◌&&◌, ◌||◌, Option, none,
  some, List, [], ◌∷◌, arith, ◌==◌, ==_refl, Bool-cases, some-eq, if-cases, select, find_row,
  update_rows, All, nat_eq, string_eq,
}
use kontexta.Json.{Fields, member, str, obj}
use kontexta.Sync.Op.{Op}
use kontexta.Sync.Conflicts.{FileRow, State, read_file, or_else, has_gid}
use kontexta.Sync.Conflicts.Fork.{payload_fields}
use kontexta.Sync.Conflicts.Resolve.{title_of}
use kontexta.Sync.Conflicts.Copies.{row_id, gid_is_free}
use kontexta.Sync.Conflicts.Agree.{read-write}
use kontexta.Sync.JournalSync.{Machine, Applied, text_of_json, filled, applied, refused}
use kontexta.Sync.Remote.{
  owner_gid, owner_unless, path_owner, has_no_gid, row_for, path_is_free, landed, put_file,
  finish_update, update_at, path_of_row, update_in_place, update_owned, update_resolved,
  update_given, update_with, apply_file_update,
}

-- The row stands for a path and a content.
abbrev pub Stands : String → String → FileRow → Type 0
Stands p hash f = (f.path ≡ p) × (f.content_hash ≡ some hash)

abbrev pub content_in : Fields → String
content_in f = or_else (text_of_json (member "content" f)) ""

abbrev pub hash_in : Machine → Fields → String
hash_in m f = or_else (text_of_json (member "content_hash" f)) (m.env.sha256 (content_in f))

module _ (g p title hash : String) where
  landed-Stands :
      (id : ℕ) (files : List FileRow)
      → gid_is_free id g files ≡ true
      → All
          (Stands p hash)
          (select (has_gid g) (update_rows (row_id id) (landed g p title hash) files))
  unfolding gid_is_free
  landed-Stands id [] h = tt
  landed-Stands id (f ∷ files) h =
      let later = landed-Stands id files (ground (arith, h)) in
      elim (Bool-cases (row_id id f)) [
        | inl e ↦ rw e (rw (==_refl g) ((refl, refl), later))
        | inr e ↦
            let other_gid : has_gid g f ≡ false = ground (arith, h, e) in rw e (rw other_gid later)
      ]

-- The state of an error of the disk: the rows have changed, and nothing else.
abbrev pub Unwritten : Bool → State → State → Type 0
Unwritten can s t =
    (can ≡ false) × (t.disk ≡ s.disk) × (t.local ≡ s.local) × (t.conflicts ≡ s.conflicts)

-- Where the update goes to a path: the file there holds the text of the payload and every row of the
-- record names the path and the hash; nothing is queued and no conflict changes. An error leaves
-- everything, unless the disk refused the file. Without a path nothing changes.
abbrev pub Landed : Machine → Op → Fields → State → Option String → Applied → Type 0
Landed m op fields s none r = r ≡ refused s
Landed m op fields s (some p) (applied t) =
    (t.local ≡ s.local)
    × (t.conflicts ≡ s.conflicts)
    × (read_file p t.disk ≡ some (content_in fields))
    × All (Stands p (hash_in m fields)) (select (has_gid op.gid) t.files)
Landed m op fields s (some p) (refused t) = (t ≡ s) ⊎ Unwritten (m.can_write p) s t

abbrev pub is_applied : Applied → Bool
is_applied (applied t) = true
is_applied (refused t) = false

-- No other row than that of `f` has the gid or the path.
abbrev free : String → String → ℕ → List FileRow → Bool
free g p id files = gid_is_free id g files && path_is_free id p files

abbrev pub can_land : Machine → String → State → FileRow → Option String → Bool
can_land m g s f none = false
can_land m g s f (some p) = free g p f.id s.files && m.can_write p

-- The path of the payload, resolved, or else the one of the row.
abbrev pub destination_of : Machine → Op → Fields → State → Option String → Option String
destination_of m op fields s none = path_of_row (row_for op.gid none s.files)
destination_of m op fields s (some given) =
    m.env.resolve_sync_path (some (str given)) (member "rel_path" fields)

abbrev pub destination : Machine → Op → Fields → State → Option String
destination m op fields s =
    destination_of m op fields s (filled (text_of_json (member "path" fields)))

-- A row with the gid or on the path is the one that these are free for.
free-row :
    (g p : String) (x : ℕ) (q : FileRow → Bool) (files : List FileRow) (d : FileRow)
    → ((e : FileRow) → q e ≡ true → (has_gid g e || e.path == p) ≡ true)
    → find_row q files ≡ some d
    → free g p x files ≡ true
    → d.id ≡ x
unfolding gid_is_free path_is_free
free-row g p x q [] d k h c = grind (arith, h)
free-row g p x q (e ∷ files) d k h c =
    elim (if-cases (q e) (some e) (find_row q files) (some d) h) [
      | inl (y, same) ↦
          let here : e.id ≡ x = ground (arith, k e y, c) in
          ap (λ (u : FileRow). u.id) (sym (some-eq same)) ∙ here
      | inr (y, later) ↦ free-row g p x q files d k later (ground (arith, c))
    ]

free-same :
    (g p : String) (files : List FileRow) (f r : FileRow)
    → find_row (has_gid g) files ≡ some f
    → row_for g (some p) files ≡ some r
    → free g p r.id files ≡ free g p f.id files
free-same g p files f r known found = elim (Bool-cases (free g p r.id files)) [
  | inl e ↦
      let same = free-row g p r.id (has_gid g) files f (λ d q. ground (arith, q)) known e in
      ap (λ x. free g p x files) (sym same)
  | inr e ↦ elim (Bool-cases (free g p f.id files)) [
    | inl k ↦
        let same =
          free-row g p f.id (λ (d : FileRow). has_gid g d || d.path == p && has_no_gid d) files r
            (λ d q. ground (arith, q)) found k in
        ap (λ x. free g p x files) same
    | inr k ↦ e ∙ sym k
  ]
]

known-row_for :
    (g p : String) (files : List FileRow) (f : FileRow)
    → find_row (has_gid g) files ≡ some f
    → (r : FileRow) × (row_for g (some p) files ≡ some r)
known-row_for g p [] f h = grind (arith, h)
known-row_for g p (d ∷ files) f h = elim (Bool-cases (has_gid g d || d.path == p && has_no_gid d)) [
  | inl e ↦ (d, rw e refl)
  | inr e ↦
      let apart : has_gid g d ≡ false = ground (arith, e) in
      let (r, found) = known-row_for g p files f (ground (arith, h, apart)) in (r, rw e found)
]

-- What an update does, and whether it gets through.
abbrev Result : Machine → Op → Fields → State → FileRow → Option String → Applied → Type 0
Result m op fields s f dest r =
    Landed m op fields s dest r × (is_applied r ≡ can_land m op.gid s f dest)

finish-Result :
    (m : Machine) (op : Op) (fields : Fields) (p title : String) (s : State) (f r : FileRow)
    → free op.gid p r.id s.files ≡ free op.gid p f.id s.files
    → Result m op fields s f (some p) (
        finish_update p title
          (content_in fields)
          (m.can_write p)
          s
          (put_file op.gid p title (hash_in m fields) (some r) s))
unfolding put_file
finish-Result m op fields p title s f r same = elim (Bool-cases (free op.gid p r.id s.files)) [
  | inl e ↦ elim (Bool-cases (m.can_write p)) [
    | inl w ↦
        rw (e, w)
          (
            (
              refl,
              refl,
              read-write p (content_in fields) s.disk,
              landed-Stands op.gid p title (hash_in m fields) r.id s.files (ground (arith, e)),
            ),
            sym (rw (sym same ∙ e) refl),
          )
    | inr w ↦ rw (e, w) (inr (w, refl, refl, refl), sym (rw (sym same ∙ e) refl))
  ]
  | inr e ↦ rw e (inl refl, sym (rw (sym same ∙ e) refl))
]

update_at-Result :
    (m : Machine) (op : Op) (fields : Fields) (target : String) (existing : Option FileRow)
    (s : State) (f : FileRow)
    → find_row (has_gid op.gid) s.files ≡ some f
    → Result m op fields s f (some target) (update_at m op fields target existing s)
unfolding update_at
update_at-Result m op fields target existing s f known =
    let (r, found) = known-row_for op.gid target s.files f known in
    let title =
      or_else (text_of_json (member "title" fields))
        (title_of existing (m.env.basename target "")) in
    rw found (
      finish-Result m op fields target title s f r
        (free-same op.gid target s.files f r known found))

in_place-Result :
    (m : Machine) (op : Op) (fields : Fields) (existing : Option FileRow) (o : Option String)
    (s : State) (f : FileRow)
    → find_row (has_gid op.gid) s.files ≡ some f
    → Result m op fields s f o (update_in_place m op fields existing o s)
in_place-Result m op fields existing none s f known = (refl, refl)
in_place-Result m op fields existing (some p) s f known =
    update_at-Result m op fields p existing s f known

known-path_owner :
    (g p : String) (files : List FileRow) (f : FileRow)
    → find_row (has_gid g) files ≡ some f
    → path_owner g p files ≡ none
unfolding path_owner
known-path_owner g p files f known =
    ap (λ o. owner_unless o (owner_gid g (find_row (λ (d : FileRow). d.path == p) files))) known

resolved-Result :
    (m : Machine) (now : ℕ) (op : Op) (fields : Fields) (o : Option String) (s : State)
    (f : FileRow)
    → find_row (has_gid op.gid) s.files ≡ some f
    → Result m op fields s f o (update_resolved m now op fields o s)
resolved-Result m now op fields none s f known = (refl, refl)
resolved-Result m now op fields (some p) s f known =
    let existing = row_for op.gid (some p) s.files in
    subst (λ o. Result m op fields s f (some p) (update_owned m now op fields p existing o s))
      (sym (known-path_owner op.gid p s.files f known))
      (update_at-Result m op fields p existing s f known)

given-Result :
    (m : Machine) (now : ℕ) (op : Op) (fields : Fields) (o : Option String) (s : State)
    (f : FileRow)
    → find_row (has_gid op.gid) s.files ≡ some f
    → Result m op fields s f (destination_of m op fields s o) (update_given m now op fields o s)
given-Result m now op fields none s f known =
    in_place-Result m op fields (row_for op.gid none s.files) _ s f known
given-Result m now op fields (some given) s f known = resolved-Result m now op fields _ s f known

-- A remote `file.update` of a record that this machine has lands exactly where its path is safe, no other
-- row has its gid or path, and the disk takes the file. Then the file at the path of the payload, or of
-- the row where it has none, holds the content of the payload, every row of the record names that path
-- and the hash, no operation is queued and no conflict registered. An error changes nothing, but
-- where the disk refuses the file the rows have changed already.
pub apply_file_update_lands :
    (m : Machine) (now : ℕ) (op : Op) (fields : Fields) (s : State) (f : FileRow)
    → op.payload ≡ obj fields
    → find_row (has_gid op.gid) s.files ≡ some f
    → let dest = destination m op fields s in
      let r = apply_file_update m now op s in
      Landed m op fields s dest r × (is_applied r ≡ can_land m op.gid s f dest)
unfolding apply_file_update
apply_file_update_lands m now op fields s f e known =
    subst
      (λ j.
        Result m op fields s f (destination m op fields s)
          (update_with m now op (payload_fields j) s))
      (sym e)
      (given-Result m now op fields (filled (text_of_json (member "path" fields))) s f known)
