-- ===== src/Sync/Locks/Exclusion.antt =====
-- The processes that use the locks, in any interleaving (locks.ts).
use kontexta.Base.{
  ℕ, ◌+◌, String, ◌≡◌, refl, sym, ◌∙◌, ◌⊎◌, inl, inr, true, false, Option, none, some, List, [],
  ◌∷◌, ◌++◌, arith, eq_iff, ltb, leb, ◌==◌, ==_refl, Bool-cases, some-eq, find_row, update_rows,
  delete_rows, All, find_row-append_new, All-map, get_elem?, All-at, nat_eq, string_eq,
}
use kontexta.Sync.Locks.{
  LockRow, SyncLockHandle, locks_gid, claim, is_live, acquire_sync_lock, locks_handle,
  release_sync_lock,
}

-- The shared table, the clock, and the leases that were granted and not yet released.
pub record Processes : Type 0 where
  pub now : ℕ
  pub table : List LockRow
  pub leases : List LockRow

abbrev granted : Option SyncLockHandle → LockRow → List LockRow → List LockRow
granted none l ls = ls
granted (some h) l ls = l ∷ ls

unfoldable pub after_acquire : String → ℕ → String → ℕ → Processes → Processes
unfolding acquire_sync_lock
after_acquire g pid token lease_ms m =
    let (rows, got) = acquire_sync_lock g pid token m.now lease_ms m.table in
    record {
      now = m.now;
      table = rows;
      leases =
          granted got (record { gid = g; pid = pid; token = token; expires_at = m.now + lease_ms })
            m.leases;
    }

pub after_release : SyncLockHandle → Processes → Processes
unfolding release_sync_lock
after_release h m = record {
  now = m.now;
  table = (release_sync_lock h m.table).0;
  leases = delete_rows (locks_handle h) m.leases;
}

pub data LockStep : Processes → Processes → Type 0 where
  waits : (m : Processes) (ms : ℕ) → LockStep m (record m { now = m.now + ms })
  acquires :
      (m : Processes) (g : String) (pid : ℕ) (token : String) (lease_ms : ℕ)
      → LockStep m (after_acquire g pid token lease_ms m)
  releases : (m : Processes) (h : SyncLockHandle) → LockStep m (after_release h m)

pub data LockRun : Processes → Processes → Type 0 where
  stops : (m : Processes) → LockRun m m
  steps : {m n o : Processes} → LockStep m n → LockRun n o → LockRun m o

-- A lease is over, or it is the row of its gid.
abbrev IsBacked : ℕ → List LockRow → LockRow → Type 0
IsBacked now rows l = (leb l.expires_at now ≡ true) ⊎ (find_row (locks_gid l.gid) rows ≡ some l)

abbrev pub Backed : Processes → Type 0
Backed m = All (IsBacked m.now m.table) m.leases

IsBacked-later :
    (now ms : ℕ) (rows ls : List LockRow)
    → All (IsBacked now rows) ls
    → All (IsBacked (now + ms) rows) ls
IsBacked-later now ms rows [] h = tt
IsBacked-later now ms rows (l ∷ ls) h = (ground (arith, h.0), IsBacked-later now ms rows ls h.1)

-- The one row that a claim leaves first for its gid.
find_claimed :
    (g : String) (p : ℕ) (t : String) (e : ℕ) (rows : List LockRow) (r : LockRow)
    → find_row (locks_gid g) rows ≡ some r
    → find_row
        (locks_gid g)
        (update_rows (locks_gid g) (λ q. record q { pid = p; token = t; expires_at = e }) rows)
      ≡ some (record { gid = g; pid = p; token = t; expires_at = e })
find_claimed g p t e [] r h = grind (arith, h)
find_claimed g p t e (q ∷ rows) r h = ground (arith, find_claimed g p t e rows r, eq_iff q.gid g)

-- A statement on the rows of one gid leaves what another gid finds.
find_update_other :
    (g g' : String) (f : LockRow → LockRow) (rows : List LockRow)
    → (g' == g) ≡ false
    → ((r : LockRow) → (f r).gid ≡ r.gid)
    → find_row (locks_gid g') (update_rows (locks_gid g) f rows) ≡ find_row (locks_gid g') rows
find_update_other g g' f [] n k = refl
find_update_other g g' f (r ∷ rows) n k =
    ground
      (arith, find_update_other g g' f rows n k, k r, eq_iff r.gid g, eq_iff r.gid g', eq_iff g' g)

find_add_other :
    (g' : String) (r : LockRow) (rows : List LockRow)
    → (r.gid == g') ≡ false
    → find_row (locks_gid g') (rows ++ r ∷ []) ≡ find_row (locks_gid g') rows
find_add_other g' r [] n = ground (arith, n)
find_add_other g' r (q ∷ rows) n = ground (arith, find_add_other g' r rows n)

find_delete_other :
    (h : SyncLockHandle) (rows : List LockRow) (l : LockRow)
    → locks_handle h l ≡ false
    → find_row (locks_gid l.gid) rows ≡ some l
    → find_row (locks_gid l.gid) (delete_rows (locks_handle h) rows) ≡ some l
find_delete_other h [] l n e = e
find_delete_other h (r ∷ rows) l n e = ground (arith, n, e, find_delete_other h rows l n)

-- A claim replaces only a row whose lease is over.
claim_backs :
    (g : String) (p : ℕ) (t : String) (now e : ℕ) (rows : List LockRow) (o : Option LockRow)
    (l : LockRow)
    → find_row (locks_gid g) rows ≡ o
    → is_live now o ≡ false
    → IsBacked now rows l
    → IsBacked now (claim g p t e rows o).0 l
claim_backs g p t now e rows o l found free (inl over) = inl over
claim_backs g p t now e rows none l found free (inr held) = elim (Bool-cases (g == l.gid)) [
  | inl same ↦ let here : g ≡ l.gid = (eq_iff g l.gid).0 same in cc
  | inr other ↦ inr (find_add_other l.gid _ rows other ∙ held)
]
claim_backs g p t now e rows (some r) l found free (inr held) = elim (Bool-cases (l.gid == g)) [
  | inl same ↦
      let here : l.gid ≡ g = (eq_iff l.gid g).0 same in
      let own : some r ≡ some l = cc in
      let row : r ≡ l = some-eq own in inl (rw (sym row) (ground (arith, free)))
  | inr other ↦ inr (find_update_other g l.gid _ rows other (λ r. refl) ∙ held)
]

-- What a claim grants is the row of its gid.
granted-IsBacked :
    (g : String) (p : ℕ) (t : String) (now e : ℕ) (rows ls : List LockRow) (o : Option LockRow)
    → find_row (locks_gid g) rows ≡ o
    → All (IsBacked now (claim g p t e rows o).0) ls
    → All (IsBacked now (claim g p t e rows o).0) (
        granted
          (claim g p t e rows o).1
          (record { gid = g; pid = p; token = t; expires_at = e })
          ls)
granted-IsBacked g p t now e rows ls none found hs =
    (inr (find_row-append_new (locks_gid g) rows _ found (==_refl g)), hs)
granted-IsBacked g p t now e rows ls (some r) found hs =
    (inr (find_claimed g p t e rows r found), hs)

after_acquire-Backed :
    (g : String) (p : ℕ) (t : String) (lease_ms : ℕ) (m : Processes)
    → Backed m
    → Backed (after_acquire g p t lease_ms m)
unfolding after_acquire acquire_sync_lock
after_acquire-Backed g p t lease_ms m h =
    elim (Bool-cases (is_live m.now (find_row (locks_gid g) m.table))) [
      | inl live ↦ rw live h
      | inr free ↦ rw free (
          granted-IsBacked g p t m.now (m.now + lease_ms) m.table m.leases _ refl (
            All-map _ _ m.leases
              (λ l. claim_backs g p t m.now (m.now + lease_ms) m.table _ l refl free) h))
    ]

released_backs :
    (h : SyncLockHandle) (now : ℕ) (rows : List LockRow) (l : LockRow)
    → locks_handle h l ≡ false
    → IsBacked now rows l
    → IsBacked now (delete_rows (locks_handle h) rows) l
released_backs h now rows l other (inl over) = inl over
released_backs h now rows l other (inr held) = inr (find_delete_other h rows l other held)

released-IsBacked :
    (h : SyncLockHandle) (now : ℕ) (rows ls : List LockRow)
    → All (IsBacked now rows) ls
    → All (IsBacked now (delete_rows (locks_handle h) rows)) (delete_rows (locks_handle h) ls)
released-IsBacked h now rows [] hs = tt
released-IsBacked h now rows (l ∷ ls) hs = elim (Bool-cases (locks_handle h l)) [
  | inl own ↦ rw own (released-IsBacked h now rows ls hs.1)
  | inr other ↦
      rw other (released_backs h now rows l other hs.0, released-IsBacked h now rows ls hs.1)
]

LockStep-Backed : (m n : Processes) → LockStep m n → Backed m → Backed n
unfolding after_release release_sync_lock
LockStep-Backed _ _ (waits m ms) h = IsBacked-later m.now ms m.table m.leases h
LockStep-Backed _ _ (acquires m g p t e) h = after_acquire-Backed g p t e m h
LockStep-Backed _ _ (releases m k) h = released-IsBacked k m.now m.table m.leases h

LockRun-Backed : (m n : Processes) → LockRun m n → Backed m → Backed n
LockRun-Backed _ _ (stops m) h = h
LockRun-Backed _ _ (steps {m} {n} {o} s r) h = LockRun-Backed n o r (LockStep-Backed m n s h)

same_row :
    (now : ℕ) (rows : List LockRow) (k l : LockRow)
    → IsBacked now rows k
    → IsBacked now rows l
    → ltb now k.expires_at ≡ true
    → ltb now l.expires_at ≡ true
    → k.gid ≡ l.gid
    → k ≡ l
same_row now rows k l (inl over) hl a b e = ground (arith)
same_row now rows k l (inr hk) (inl over) a b e = ground (arith)
same_row now rows k l (inr hk) (inr hl) a b e = some-eq cc

-- In any interleaving of waiting, acquiring and releasing, from a table with no lease, two leases on
-- one gid that are both still running are one and the same: at most one process holds the lock.
pub lock_exclusive :
    (start : Processes) (m : Processes) (i j : ℕ) (k l : LockRow)
    → start.leases ≡ []
    → LockRun start m
    → get_elem? i m.leases ≡ some k
    → get_elem? j m.leases ≡ some l
    → ltb m.now k.expires_at ≡ true
    → ltb m.now l.expires_at ≡ true
    → k.gid ≡ l.gid
    → k ≡ l
lock_exclusive start m i j k l fresh run at_k at_l a b e =
    let backed = LockRun-Backed start m run (rw fresh tt) in
    same_row m.now m.table k l (All-at _ m.leases k i backed at_k)
      (All-at _ m.leases l j backed at_l) a b e
