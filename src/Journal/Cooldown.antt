-- ===== src/Journal/Cooldown.antt =====
-- packages/core/src/journal/cooldown.ts: the lock that keeps two distillations of one project apart.
-- Each acquisition is one transaction on the table `journal_locks`; a fresh token is an argument.
pub mod Held
use Prim.Native.String.{◌++◌ as text_append}
use kontexta.Base.{
  ℕ, ◌-◌, ◌*◌, String, Bool, ◌&&◌, Option, none, some, List, [], ◌∷◌, ◌++◌, ltb, leb, if◌then◌else◌,
  ◌==◌, find_row, update_rows, delete_rows, nat_eq, string_eq,
}

-- A row of `journal_locks`.
pub record CooldownRow : Type 0 where
  pub lock_key : String
  pub token : String
  pub pid : ℕ
  pub acquired_at : ℕ

pub lock_key_of : String → String
lock_key_of project_slug = text_append "distill:" project_slug

abbrev pub has_lock_key : String → CooldownRow → Bool
has_lock_key k r = r.lock_key == k

-- The age is not negative and below the limit.
abbrev pub is_recent : ℕ → ℕ → CooldownRow → Bool
is_recent now stale_after_seconds r =
    leb r.acquired_at now && ltb (now - r.acquired_at) (stale_after_seconds * 1000)

abbrev claim_key :
    String
    → String
    → ℕ
    → ℕ
    → ℕ
    → List CooldownRow
    → Option CooldownRow
    → List CooldownRow × Option String
claim_key k token pid now stale rows none =
    (rows ++ record { lock_key = k; token = token; pid = pid; acquired_at = now } ∷ [], some token)
claim_key k token pid now stale rows (some r) = if is_recent now stale r then (rows, none) else (
  update_rows (has_lock_key k) (λ q. record q { token = token; pid = pid; acquired_at = now }) rows,
  some token,
)

unfoldable pub acquire_cooldown :
    String → ℕ → String → ℕ → ℕ → List CooldownRow → List CooldownRow × Option String
unfolding lock_key_of
acquire_cooldown project_slug stale_after_seconds token pid now rows =
    let k = lock_key_of project_slug in
    claim_key k token pid now stale_after_seconds rows (find_row (has_lock_key k) rows)

pub release_cooldown : String → String → List CooldownRow → List CooldownRow
unfolding lock_key_of
release_cooldown project_slug token rows =
    delete_rows (λ r. r.lock_key == lock_key_of project_slug && r.token == token) rows
