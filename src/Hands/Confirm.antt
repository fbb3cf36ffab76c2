-- ===== src/Hands/Confirm.antt =====
-- apps/mcp/src/hands/confirm.ts: the store of runs that wait for a confirmation. `A` is the type of
-- `execute`, and the token of a stash is an argument, as `randomBytes` mints it.
pub mod OneShot
use kontexta.Base.{
  ℕ, ◌+◌, String, Bool, Option, none, some, List, [], ◌∷◌, ltb, if◌then◌else◌, ◌==◌, find_row,
  delete_rows, nat_eq, string_eq,
}

pub record PendingEntry {ℓ} (A : Type ℓ) : Type ℓ where
  pub tool_name : String
  pub project_name : String
  pub resolved_argv : List String
  pub working_dir : String
  pub env : List (String × String)
  pub expires_at : ℕ
  pub execute : A

-- A `Map` with its insertion order.
abbrev pub Slot {ℓ} : Type ℓ → Type ℓ
Slot A = String × PendingEntry A

abbrev pub confirm_ttl_ms : ℕ
confirm_ttl_ms = 60000

module _ {ℓ} {A : Type ℓ} where
  abbrev pub has_token : String → Slot A → Bool
  has_token t s = s.0 == t

  pub sweep_expired : ℕ → List (Slot A) → List (Slot A)
  sweep_expired now = delete_rows (λ s. ltb s.1.expires_at now)

  abbrev map_set : String → PendingEntry A → List (Slot A) → List (Slot A)
  map_set t e [] = (t, e) ∷ []
  map_set t e (s ∷ ss) = if has_token t s then (t, e) ∷ ss else s ∷ map_set t e ss

  -- `input` with any deadline; the store sets it.
  pub stash : ℕ → String → ℕ → PendingEntry A → List (Slot A) → List (Slot A)
  unfolding sweep_expired
  stash ttl_ms token now input slots =
      map_set token (record input { expires_at = now + ttl_ms }) (sweep_expired now slots)

  abbrev run_of : ℕ → Option (Slot A) → Option (A × String)
  run_of now none = none
  run_of now (some s) = if ltb s.1.expires_at now then none else some (s.1.execute, s.1.tool_name)

  pub consume : String → ℕ → List (Slot A) → List (Slot A) × Option (A × String)
  consume token now slots =
      (delete_rows (has_token token) slots, run_of now (find_row (has_token token) slots))

  pub clear_project : String → List (Slot A) → List (Slot A)
  clear_project name = delete_rows (λ s. s.1.project_name == name)

  pub clear_all : List (Slot A) → List (Slot A)
  clear_all slots = []
