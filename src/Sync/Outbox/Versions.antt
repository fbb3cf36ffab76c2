-- ===== src/Sync/Outbox/Versions.antt =====
-- The versions a machine has seen never go back (versions.ts).
use kontexta.Base.{
  ℕ, max, String, ◌≡◌, refl, Bool, true, false, not, ◌&&◌, ◌||◌, List, [], ◌∷◌, arith, eq_iff,
  if◌then◌else◌, ◌==◌, find_row, update_rows, nat_eq, string_eq,
}
use kontexta.Sync.Outbox.{
  GidVersion, Local, version_of, version_row, known_gid_version, upsert_version, record_gid_version,
  mark_lost_push, clear_lost_push, lost_of, has_lost_push,
}

module _ (g f h e : String) where
  version-upsert_max :
      (n : ℕ) (vs : List GidVersion)
      → version_of (
          find_row (version_row h e) (
            upsert_version
              (record { gid = g; family = f; version = n; lost_push = false })
              (λ v. record v { version = max v.version n })
              vs))
        ≡ (if g == h && f == e
            then max (version_of (find_row (version_row g f) vs)) n
            else version_of (find_row (version_row h e) vs))
  unfolding upsert_version
  version-upsert_max n [] = ground (arith, eq_iff g h, eq_iff f e)
  version-upsert_max n (v ∷ vs) = ground (
    arith,
    version-upsert_max n vs,
    eq_iff g h,
    eq_iff f e,
    eq_iff v.gid g,
    eq_iff v.family f,
    eq_iff v.gid h,
    eq_iff v.family e,
  )

  version-upsert_lost :
      (vs : List GidVersion)
      → version_of (
          find_row (version_row h e) (
            upsert_version
              (record { gid = g; family = f; version = 0; lost_push = true })
              (λ v. record v { lost_push = true })
              vs))
        ≡ version_of (find_row (version_row h e) vs)
  unfolding upsert_version
  version-upsert_lost [] = ground (arith, eq_iff g h, eq_iff f e)
  version-upsert_lost (v ∷ vs) = ground (
    arith,
    version-upsert_lost vs,
    eq_iff v.gid g,
    eq_iff v.family f,
    eq_iff v.gid h,
    eq_iff v.family e,
  )

  version-update_lost :
      (b : Bool) (vs : List GidVersion)
      → version_of (
          find_row
            (version_row h e)
            (update_rows (version_row g f) (λ v. record v { lost_push = b }) vs))
        ≡ version_of (find_row (version_row h e) vs)
  version-update_lost b [] = refl
  version-update_lost b (v ∷ vs) = ground (arith, version-update_lost b vs)

module _ (g h f : String) where
  lost-upsert :
      (vs : List GidVersion)
      → lost_of (
          find_row (version_row h f) (
            upsert_version
              (record { gid = g; family = f; version = 0; lost_push = true })
              (λ v. record v { lost_push = true })
              vs))
        ≡ (g == h || lost_of (find_row (version_row h f) vs))
  unfolding upsert_version
  lost-upsert [] = ground (arith, eq_iff g h, eq_iff f f)
  lost-upsert (v ∷ vs) =
      ground (arith, lost-upsert vs, eq_iff g h, eq_iff v.gid g, eq_iff v.gid h, eq_iff v.family f)

  lost-update :
      (vs : List GidVersion)
      → lost_of (
          find_row
            (version_row h f)
            (update_rows (version_row g f) (λ v. record v { lost_push = false }) vs))
        ≡ (not (g == h) && lost_of (find_row (version_row h f) vs))
  lost-update [] = ground arith
  lost-update (v ∷ vs) =
      ground (arith, lost-update vs, eq_iff g h, eq_iff v.gid g, eq_iff v.gid h, eq_iff v.family f)

-- Recording a version raises the one known for its record and family to at least it, keeps the
-- higher of the two, and leaves every other one as it was.
known_gid_version-record :
    (g f h e : String) (n : ℕ) (db : Local)
    → known_gid_version h e (record_gid_version g f n db)
      ≡ (if g == h && f == e then max (known_gid_version g f db) n else known_gid_version h e db)
unfolding known_gid_version record_gid_version
known_gid_version-record g f h e n db = version-upsert_max g f h e n db.gid_versions

-- A lost push is remembered for its record alone until it is cleared for that record, and neither
-- moves a version.
lost_push_remembered :
    (g h f : String) (db : Local)
    → (has_lost_push h (mark_lost_push g db) ≡ (g == h || has_lost_push h db))
      × (has_lost_push h (clear_lost_push g db) ≡ (not (g == h) && has_lost_push h db))
      × (known_gid_version h f (mark_lost_push g db) ≡ known_gid_version h f db)
      × (known_gid_version h f (clear_lost_push g db) ≡ known_gid_version h f db)
unfolding has_lost_push mark_lost_push clear_lost_push known_gid_version
lost_push_remembered g h f db = (
  lost-upsert g h "content" db.gid_versions,
  lost-update g h "content" db.gid_versions,
  version-upsert_lost g "content" h f db.gid_versions,
  version-update_lost g "content" h f false db.gid_versions,
)
