-- ===== src/Relay/Store/Versions.antt =====
-- How an appended op moves the version of every record family (store.ts, appendOp).
use kontexta.Base.{
  ℕ, suc, ◌≤◌, String, ◌≡◌, refl, Bool, true, false, ◌&&◌, List, [], ◌∷◌, arith, eq_iff,
  if◌then◌else◌, ◌==◌, delete_rows, All, nat_eq, string_eq,
}
use kontexta.Relay.Tables.{Status, NewOp, RecordRow, Db, accepted, conflict}
use kontexta.Relay.Store.{
  is_tombstone_kind, record_in, record_of, max_version, current_version, upsert_record, kept_row,
  drop_records, append_op,
}

-- Rows of one kind are in one family: `kind_family` is computed from `kind`.
abbrev pub FamilyOf : (String → String) → RecordRow → Type 0
FamilyOf family r = r.kind_family ≡ family r.kind

module _ (family : String → String) (b : ℕ) (g f : String) where
  max_version-upsert :
      (new : RecordRow) (rs : List RecordRow)
      → FamilyOf family new
      → All (FamilyOf family) rs
      → max_version new.brain_id new.gid new.kind_family rs ≤ new.version
      → max_version b g f (upsert_record new rs)
        ≡ (if record_in b g f new then new.version else max_version b g f rs)
  unfolding max_version upsert_record
  max_version-upsert new [] fn all le = ground arith
  max_version-upsert new (r ∷ rs) fn all le = ground (
    arith,
    eq_iff r.gid new.gid,
    eq_iff r.kind new.kind,
    eq_iff r.kind_family new.kind_family,
    eq_iff r.gid g,
    eq_iff new.gid g,
    eq_iff r.kind_family f,
    eq_iff new.kind_family f,
    max_version-upsert new rs fn all.1,
  )

  max_version-delete :
      (c : ℕ) (h : String) (rs : List RecordRow)
      → max_version b g f (delete_rows (record_of c h) rs)
        ≡ (if c == b && h == g then 0 else max_version b g f rs)
  unfolding max_version
  max_version-delete c h [] = ground arith
  max_version-delete c h (r ∷ rs) =
      ground (arith, eq_iff r.gid h, eq_iff r.gid g, eq_iff h g, max_version-delete c h rs)

  max_version-drop :
      (tombstone : Bool) (c : ℕ) (h : String) (rs : List RecordRow)
      → max_version b g f (drop_records tombstone c h rs)
        ≡ (if tombstone && (c == b && h == g) then 0 else max_version b g f rs)
  unfolding drop_records
  max_version-drop true c h rs = max_version-delete c h rs
  max_version-drop false c h rs = refl

module _ (family : String → String) where
  All-upsert :
      (new : RecordRow) (rs : List RecordRow)
      → FamilyOf family new
      → All (FamilyOf family) rs
      → All (FamilyOf family) (upsert_record new rs)
  unfolding upsert_record
  All-upsert new [] fn all = (fn, tt)
  All-upsert new (r ∷ rs) fn all =
      ground (arith, eq_iff r.kind new.kind, All-upsert new rs fn all.1)

  All-delete :
      (c : ℕ) (h : String) (rs : List RecordRow)
      → All (FamilyOf family) rs
      → All (FamilyOf family) (delete_rows (record_of c h) rs)
  All-delete c h [] all = tt
  All-delete c h (r ∷ rs) all = ground (arith, All-delete c h rs all.1)

  All-drop :
      (tombstone : Bool) (c : ℕ) (h : String) (rs : List RecordRow)
      → All (FamilyOf family) rs
      → All (FamilyOf family) (drop_records tombstone c h rs)
  unfolding drop_records
  All-drop true c h rs all = All-delete c h rs all
  All-drop false c h rs all = all

-- The kept rows name the family of their kind.
abbrev pub FamiliesOk : (String → String) → Db → Type 0
FamiliesOk family db = All (FamilyOf family) db.records

module _ (family : String → String) (b now : ℕ) (op : NewOp) (db : Db) where
  -- Where every kept record stands under the family of its kind, an accepted op raises the version of
  -- its own family by one and leaves every other family's as it was, save that a delete resets the
  -- record's other families to 0.
  pub current_version-accepted :
      (c : ℕ) (h f : String)
      → FamiliesOk family db
      → current_version c h f (append_op b now op (family op.kind) accepted db).0 ≡ (
          if b == c && (op.gid == h && family op.kind == f)
          then suc (current_version b op.gid (family op.kind) db)
          else if is_tombstone_kind op.kind && (b == c && op.gid == h)
          then 0
          else current_version c h f db)
  unfolding append_op current_version
  current_version-accepted c h f ok = ground (
    arith,
    max_version-upsert family c h f new kept refl (All-drop family gone b op.gid db.records ok),
    max_version-drop family b op.gid fam gone b op.gid db.records,
    max_version-drop family c h f gone b op.gid db.records,
    eq_iff op.gid h,
    eq_iff op.gid op.gid,
    eq_iff fam f,
  )
    where
      fam : String
      fam = family op.kind

      gone : Bool
      gone = is_tombstone_kind op.kind

      kept : List RecordRow
      kept = drop_records gone b op.gid db.records

      new : RecordRow
      new = kept_row b now op fam (suc (current_version b op.gid fam db)) (suc db.op_seq)

  -- An op that is parked as a conflict moves no version.
  pub current_version-conflict :
      (c : ℕ) (h f fam : String)
      → current_version c h f (append_op b now op fam conflict db).0 ≡ current_version c h f db
  unfolding append_op current_version
  current_version-conflict c h f fam = refl

  -- Every append, accepted or parked, leaves each kept record under the family of its kind.
  pub append_op-FamiliesOk :
      (status : Status)
      → FamiliesOk family db
      → FamiliesOk family (append_op b now op (family op.kind) status db).0
  unfolding append_op
  append_op-FamiliesOk accepted ok =
      All-upsert family _ _ refl
        (All-drop family (is_tombstone_kind op.kind) b op.gid db.records ok)
  append_op-FamiliesOk conflict ok = ok
