-- ===== src/Sync/Pull/Progress/Closed.antt =====
-- A pull that ends at an operation it has to refuse (client.ts, `pullRemoteOps`).
use kontexta.Json.{Json}
use kontexta.Base.{
  ℕ, zero, suc, ◌≤◌, ◌<◌, max, String, ◌≡◌, refl, sym, ap, ◌∙◌, inl, inr, not, ◌||◌, Option, some,
  List, arith, ltb, some-eq, if-cases, length,
}
use kontexta.Sync.Apply.{FileStore, Puller, RemoteRow, advance_sync_cursor}
use kontexta.Sync.Pull.{
  Pulling, PageEnd, finished, stopped, PullReply, no_page, page, no_error, refused_row, PullResult,
  or_seq, last_seq, keep_progress, advance_to, after_page, on_reply, pull_pages,
}
use kontexta.Sync.Pull.Progress.{RowsAscend, StopsBelow, handle_rows-StopsBelow}

module _ {ℓ} {F : Type ℓ} (store : FileStore F) (decrypt : RemoteRow → Option Json)
    (machine_id : String) (limit : ℕ) (server : ℕ → ℕ → PullReply) where
  -- The rows of every page ascend from above the cursor that was asked for.
  abbrev pub ServesInOrder : Type 0
  ServesInOrder =
      (round cursor : ℕ) (rows : List RemoteRow) (next : Option ℕ)
      → server round cursor ≡ page rows next
      → RowsAscend cursor rows

  -- Where a pull ends at a refused row, the cursor is below that row's number.
  abbrev Below : PullResult F → Type 0
  Below r =
      (x : RemoteRow)
      → r.error ≡ refused_row x
      → (s : ℕ) × (x.seq ≡ some s) × (r.state.machine.sync_cursor < s)

  keep_progress-below :
      (cursor s : ℕ) (p : Pulling F)
      → p.machine.sync_cursor ≤ cursor
      → cursor ≤ p.handled
      → p.handled < s
      → (keep_progress store cursor p).0.sync_cursor < s
  unfolding keep_progress advance_sync_cursor
  keep_progress-below cursor s p a b c = ground arith

  advance_to-below :
      (cursor to : ℕ) (m : Puller F)
      → m.sync_cursor ≤ cursor
      → (advance_to store cursor to m).sync_cursor ≤ max cursor to
  unfolding advance_sync_cursor
  advance_to-below cursor to m le = ground arith

  -- What the rest of the pull keeps below a refused row.
  abbrev Onward : (ℕ → Pulling F → Option (PullResult F)) → PullResult F → Type ℓ
  Onward again r =
      (c : ℕ) (p : Pulling F) → p.machine.sync_cursor ≤ c → again c p ≡ some r → Below r

  after_page-Below :
      (again : ℕ → Pulling F → Option (PullResult F)) (cursor : ℕ) (rows : List RemoteRow)
      (next : Option ℕ) (p : Pulling F) (e : PageEnd F) (r : PullResult F)
      → Onward again r
      → p.machine.sync_cursor ≤ cursor
      → p.handled ≡ cursor
      → StopsBelow store decrypt machine_id p e
      → after_page store decrypt machine_id limit server again cursor rows next e ≡ some r
      → Below r
  after_page-Below again cursor rows next p (stopped q x) r on le here (s, at, up, below, c) h =
      rw (sym (some-eq h)) (λ y e.
        let same : x ≡ y = cc in
        (
          s,
          ap (λ (z : RemoteRow). z.seq) (sym same) ∙ at,
          keep_progress-below cursor s q (omega arith) (omega arith) below,
        ))
  after_page-Below again cursor rows next p (finished q) r on le here (up, c) h =
      let to = or_seq next (last_seq cursor rows) in
      let moved : Pulling F = record q { machine = advance_to store cursor to q.machine } in
      let ending : PullResult F = record {
        state = moved;
        cursor = max cursor to;
        error = no_error;
      } in
      elim (if-cases (ltb (length rows) limit || not (ltb cursor to)) (some ending)
        (again (max cursor to) moved) (some r) h) [
          | inl (last, g) ↦ rw (sym (some-eq g)) (λ y e. cc)
          | inr (more, g) ↦
              on (max cursor to) moved (advance_to-below cursor to q.machine (omega arith)) g
        ]

  on_reply-Below :
      (again : ℕ → Pulling F → Option (PullResult F)) (cursor : ℕ) (p : Pulling F)
      (reply : PullReply) (r : PullResult F)
      → Onward again r
      → p.machine.sync_cursor ≤ cursor
      → ((rows : List RemoteRow) (next : Option ℕ)
          → reply ≡ page rows next
          → RowsAscend cursor rows)
      → on_reply store decrypt machine_id limit server again cursor p reply ≡ some r
      → Below r
  on_reply-Below again cursor p (no_page e) r on le order h = rw (sym (some-eq h)) (λ y e. cc)
  on_reply-Below again cursor p (page rows next) r on le order h =
      let start : Pulling F = record p { handled = cursor } in
      after_page-Below again cursor rows next start _ r on le refl
        (handle_rows-StopsBelow store decrypt machine_id rows start (order rows next refl)) h

  pull_pages-Below :
      (fuel cursor : ℕ) (p : Pulling F) (r : PullResult F)
      → ServesInOrder
      → p.machine.sync_cursor ≤ cursor
      → pull_pages store decrypt machine_id limit server fuel cursor p ≡ some r
      → Below r
  unfolding pull_pages
  pull_pages-Below zero cursor p r order le h = cc
  pull_pages-Below (suc fuel) cursor p r order le h =
      on_reply-Below (pull_pages store decrypt machine_id limit server fuel) cursor p _ r
        (λ c q. pull_pages-Below fuel c q r order) le (order fuel cursor) h

  -- A pull never moves its cursor past an operation that it could not decrypt, read or apply: where it
  -- ends at such a row, the stored cursor is below the row's number, so the next pull asks for it
  -- again. The server sends the rows of each page in order from above the cursor asked for, and the
  -- pull starts at a cursor no lower than the stored one.
  pub pull_fails_closed :
      (fuel cursor : ℕ) (p : Pulling F) (r : PullResult F) (x : RemoteRow)
      → ServesInOrder
      → p.machine.sync_cursor ≤ cursor
      → pull_pages store decrypt machine_id limit server fuel cursor p ≡ some r
      → r.error ≡ refused_row x
      → (s : ℕ) × (x.seq ≡ some s) × (r.state.machine.sync_cursor < s)
  pull_fails_closed fuel cursor p r x order le h = pull_pages-Below fuel cursor p r order le h x
