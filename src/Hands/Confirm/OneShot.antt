-- ===== src/Hands/Confirm/OneShot.antt =====
-- A confirmation token runs its tool at most once (confirm.ts).
use kontexta.Base.{
  ℕ, ◌+◌, String, ◌≡◌, refl, ap, Bool, false, none, some, List, [], ◌∷◌, arith, eq_iff, ltb, leb,
  if◌then◌else◌, ◌==◌, find_row, delete_rows, All, nat_eq, string_eq,
}
use kontexta.Hands.Confirm.{
  PendingEntry, Slot, has_token, sweep_expired, map_set, stash, run_of, consume, clear_project,
  clear_all,
}

-- A later call on the store.
pub data StoreCall {ℓ} (A : Type ℓ) : Type ℓ where
  stashing : (token : String) (now : ℕ) (input : PendingEntry A) → StoreCall A
  consuming : (token : String) (now : ℕ) → StoreCall A
  clearing : (project : String) → StoreCall A
  clearing_all : StoreCall A

module _ {ℓ} {A : Type ℓ} (ttl_ms : ℕ) where
  pub call : StoreCall A → List (Slot A) → List (Slot A)
  unfolding stash consume clear_project clear_all
  call (stashing t now e) ss = stash ttl_ms t now e ss
  call (consuming t now) ss = (consume t now ss).0
  call (clearing p) ss = clear_project p ss
  call clearing_all ss = clear_all ss

  pub calls : List (StoreCall A) → List (Slot A) → List (Slot A)
  unfolding call
  calls [] ss = ss
  calls (c ∷ cs) ss = calls cs (call c ss)

  -- The call stashes no run under the token.
  abbrev pub Other : String → StoreCall A → Type 0
  Other t (stashing u now e) = (u == t) ≡ false
  Other t _ = Unit

  absent_delete :
      (p : Slot A → Bool) (t : String) (ss : List (Slot A))
      → find_row (has_token t) ss ≡ none
      → find_row (has_token t) (delete_rows p ss) ≡ none
  absent_delete p t [] h = refl
  absent_delete p t (s ∷ ss) h = ground (arith, absent_delete p t ss)

  absent_set :
      (t u : String) (e : PendingEntry A) (ss : List (Slot A))
      → (u == t) ≡ false
      → find_row (has_token t) ss ≡ none
      → find_row (has_token t) (map_set u e ss) ≡ none
  absent_set t u e [] n h = ground (arith, n)
  absent_set t u e (s ∷ ss) n h = ground (arith, absent_set t u e ss n)

  absent_call :
      (c : StoreCall A) (t : String) (ss : List (Slot A))
      → Other t c
      → find_row (has_token t) ss ≡ none
      → find_row (has_token t) (call c ss) ≡ none
  unfolding call stash sweep_expired consume clear_project clear_all
  absent_call (stashing u now e) t ss o h =
      absent_set t u _ _ o (absent_delete (λ s. ltb s.1.expires_at now) t ss h)
  absent_call (consuming u now) t ss o h = absent_delete (has_token u) t ss h
  absent_call (clearing p) t ss o h = absent_delete _ t ss h
  absent_call clearing_all t ss o h = refl

  absent_calls :
      (cs : List (StoreCall A)) (t : String) (ss : List (Slot A))
      → All (Other t) cs
      → find_row (has_token t) ss ≡ none
      → find_row (has_token t) (calls cs ss) ≡ none
  unfolding calls
  absent_calls [] t ss os h = h
  absent_calls (c ∷ cs) t ss os h = absent_calls cs t (call c ss) os.1 (absent_call c t ss os.0 h)

  gone :
      (t : String) (ss : List (Slot A))
      → find_row (has_token t) (delete_rows (has_token t) ss) ≡ none
  gone t [] = refl
  gone t (s ∷ ss) = ground (arith, gone t ss)

  -- A token that was consumed, in time or late, runs nothing again, whatever calls come between that
  -- stash no run under it.
  pub consume_once :
      (t : String) (first second : ℕ) (cs : List (StoreCall A)) (ss : List (Slot A))
      → All (Other t) cs
      → (consume t second (calls cs (consume t first ss).0)).1 ≡ none
  unfolding consume
  consume_once t first second cs ss os = ap (run_of second) (absent_calls cs t _ os (gone t ss))

  find_set :
      (t : String) (e : PendingEntry A) (ss : List (Slot A))
      → find_row (has_token t) (map_set t e ss) ≡ some (t, e)
  find_set t e [] = ground (arith, eq_iff t t)
  find_set t e (s ∷ ss) = ground (arith, eq_iff t t, find_set t e ss)

  -- A confirmation up to `ttl_ms` after the stash gets the stashed run, a later one gets nothing.
  consume-stash :
      (t : String) (now later : ℕ) (e : PendingEntry A) (ss : List (Slot A))
      → (consume t later (stash ttl_ms t now e ss)).1
        ≡ (if leb later (now + ttl_ms) then some (e.execute, e.tool_name) else none)
  unfolding consume stash
  consume-stash t now later e ss = rw (find_set t _ (sweep_expired now ss)) (ground arith)
