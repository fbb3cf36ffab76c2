-- ===== src/Sync/Pull/Rounds.antt =====
-- How many pages a pull asks for (client.ts, `pullRemoteOps`).
use kontexta.Json.{Json}
use kontexta.Base.{
  ℕ, zero, suc, ◌+◌, ◌≤◌, ◌<◌, max, String, ◌≡◌, refl, inl, inr, not, ◌||◌, Option, some, List,
  arith, ltb, Bool-cases, length,
}
use kontexta.Sync.Apply.{FileStore, RemoteRow}
use kontexta.Sync.Pull.{
  Pulling, PageEnd, finished, stopped, PullReply, no_page, page, PullResult, or_seq, last_seq,
  handle_rows, after_page, on_reply, pull_pages,
}

module _ {ℓ} {F : Type ℓ} (store : FileStore F) (decrypt : RemoteRow → Option Json)
    (machine_id : String) (limit : ℕ) (server : ℕ → ℕ → PullReply) where
  -- No page points past `top`, the last number of the server's log.
  abbrev pub LogEnds : ℕ → Type 0
  LogEnds top =
      (round cursor : ℕ) (rows : List RemoteRow) (next : Option ℕ)
      → server round cursor ≡ page rows next
      → or_seq next (last_seq cursor rows) ≤ top

  abbrev Ends : Option (PullResult F) → Type ℓ
  Ends o = (r : PullResult F) × (o ≡ some r)

  on_reply-Ends :
      (top cursor : ℕ) (p : Pulling F) (reply : PullReply)
      (again : ℕ → Pulling F → Option (PullResult F))
      → ((rows : List RemoteRow) (next : Option ℕ)
          → reply ≡ page rows next
          → or_seq next (last_seq cursor rows) ≤ top)
      → ((to : ℕ) (q : Pulling F) → cursor < to → to ≤ top → Ends (again (max cursor to) q))
      → Ends (on_reply store decrypt machine_id limit server again cursor p reply)
  on_reply-Ends top cursor p (no_page e) again bound more = (_, refl)
  on_reply-Ends top cursor p (page rows next) again bound more =
      by_end (handle_rows store decrypt machine_id rows (record p { handled = cursor }))
        (bound rows next refl)
    where
      by_end :
          (e : PageEnd F)
          → or_seq next (last_seq cursor rows) ≤ top
          → Ends (after_page store decrypt machine_id limit server again cursor rows next e)
      by_end (stopped q x) le = (_, refl)
      by_end (finished q) le =
          let to = or_seq next (last_seq cursor rows) in
          elim (Bool-cases (ltb (length rows) limit || not (ltb cursor to))) [
            | inl last ↦ rw last (_, refl)
            | inr on ↦ rw on (more to _ (ground arith) le)
          ]

  -- A pull ends: one round more than the log is ahead of the cursor is always enough.
  pub pull_pages_ends :
      (top fuel cursor : ℕ) (p : Pulling F)
      → LogEnds top
      → top ≤ fuel + cursor
      → (r : PullResult F) × (pull_pages store decrypt machine_id limit server (suc fuel) cursor p
          ≡ some r)
  unfolding pull_pages
  pull_pages_ends top zero cursor p log le =
      on_reply-Ends top cursor p (server 0 cursor)
        (pull_pages store decrypt machine_id limit server 0) (log 0 cursor)
        (λ to q a b. absurd (omega arith))
  pull_pages_ends top (suc fuel) cursor p log le =
      on_reply-Ends top cursor p (server (suc fuel) cursor)
        (pull_pages store decrypt machine_id limit server (suc fuel)) (log (suc fuel) cursor)
        (λ to q a b. pull_pages_ends top fuel (max cursor to) q log (omega arith))
