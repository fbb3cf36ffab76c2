-- ===== src/Journal/Cooldown/Held.antt =====
-- How long a distillation holds its lock (cooldown.ts).
use kontexta.Base.{
  ℕ, ◌+◌, ◌*◌, ◌≤◌, ◌<◌, String, ◌≡◌, refl, ◌≢◌, inl, inr, false, ◌&&◌, Option, none, some, List,
  [], ◌∷◌, arith, eq_iff, ◌==◌, ==_refl, Bool-cases, find_row, update_rows, delete_rows,
  find_row-append_new, nat_eq, string_eq,
}
use kontexta.Journal.Cooldown.{
  CooldownRow, lock_key_of, has_lock_key, is_recent, claim_key, acquire_cooldown, release_cooldown,
}

abbrev own_row : String → String → ℕ → ℕ → CooldownRow
own_row k token pid now = record { lock_key = k; token = token; pid = pid; acquired_at = now }

find_overwritten :
    (k token : String) (pid now : ℕ) (rows : List CooldownRow) (r : CooldownRow)
    → find_row (has_lock_key k) rows ≡ some r
    → find_row (has_lock_key k) (
        update_rows
          (has_lock_key k)
          (λ q. record q { token = token; pid = pid; acquired_at = now })
          rows)
      ≡ some (own_row k token pid now)
find_overwritten k token pid now [] r h = grind (arith, h)
find_overwritten k token pid now (q ∷ rows) r h =
    ground (arith, find_overwritten k token pid now rows r, eq_iff q.lock_key k)

-- Whoever got the lock has the row of the key.
claim_key-own :
    (k token : String) (pid now stale : ℕ) (rows : List CooldownRow) (o : Option CooldownRow)
    → find_row (has_lock_key k) rows ≡ o
    → (claim_key k token pid now stale rows o).1 ≡ some token
    → find_row (has_lock_key k) (claim_key k token pid now stale rows o).0
      ≡ some (own_row k token pid now)
claim_key-own k token pid now stale rows none found got =
    find_row-append_new (has_lock_key k) rows (own_row k token pid now) found (==_refl k)
claim_key-own k token pid now stale rows (some r) found got =
    elim (Bool-cases (is_recent now stale r)) [
      | inl recent ↦ ground (arith, got, recent)
      | inr old ↦ rw old (find_overwritten k token pid now rows r found)
    ]

find_kept :
    (k token other : String) (rows : List CooldownRow) (r : CooldownRow)
    → find_row (has_lock_key k) rows ≡ some r
    → (r.token == other) ≡ false
    → find_row (has_lock_key k) (delete_rows (λ q. q.lock_key == k && q.token == other) rows)
      ≡ some r
find_kept k token other [] r h n = h
find_kept k token other (q ∷ rows) r h n = ground (arith, h, n, find_kept k token other rows r)

-- A lock that was acquired is refused to everyone else until it is stale, and a release with another
-- token, as a process whose lock was taken over sends it, does not end that.
pub acquire_cooldown_excludes :
    (slug token other next : String) (pid pid' now later stale : ℕ) (rows : List CooldownRow)
    → (acquire_cooldown slug stale token pid now rows).1 ≡ some token
    → other ≢ token
    → now ≤ later
    → later < now + stale * 1000
    → let held = (acquire_cooldown slug stale token pid now rows).0 in
      ((acquire_cooldown slug stale next pid' later held).1 ≡ none)
      × ((acquire_cooldown slug stale next pid' later (release_cooldown slug other held)).1 ≡ none)
unfolding acquire_cooldown release_cooldown
acquire_cooldown_excludes slug token other next pid pid' now later stale rows got ne le lt =
    let k = lock_key_of slug in
    let held = (acquire_cooldown slug stale token pid now rows).0 in
    let own : find_row (has_lock_key k) held ≡ some (own_row k token pid now) =
      claim_key-own k token pid now stale rows _ refl got in
    let kept =
      find_kept k token other held (own_row k token pid now) own
        (ground (arith, eq_iff token other)) in
    (refused k held own, refused k (release_cooldown slug other held) kept)
  where
    refused :
        (k : String) (table : List CooldownRow)
        → find_row (has_lock_key k) table ≡ some (own_row k token pid now)
        → (claim_key k next pid' later stale table (find_row (has_lock_key k) table)).1 ≡ none
    refused k table own = rw own (ground arith)
