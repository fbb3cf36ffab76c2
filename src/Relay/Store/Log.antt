-- ===== src/Relay/Store/Log.antt =====
-- The operation log: ascending, only appended to, and read in pages (store.ts, opsSince).
use kontexta.Base.{
  ℕ, zero, suc, ◌≤◌, ◌<◌, max, String, ◌≡◌, refl, List, [], ◌∷◌, ◌++◌, arith, select,
}
use kontexta.Relay.Tables.{Status, NewOp, OpRow, Db, accepted, conflict}
use kontexta.Relay.Store.{append_op, take, is_after}

-- The rows ascend from above `n` to at most `top`.
abbrev pub Ascends : ℕ → ℕ → List OpRow → Type 0
Ascends n top [] = n ≤ top
Ascends n top (o ∷ os) = (n < o.seq) × Ascends o.seq top os

Ascends-append :
    (n top : ℕ) (os : List OpRow) (o : OpRow)
    → Ascends n top os
    → o.seq ≡ suc top
    → Ascends n (suc top) (os ++ o ∷ [])
Ascends-append n top [] o h e = omega arith
Ascends-append n top (p ∷ os) o h e = (h.0, Ascends-append p.seq top os o h.1 e)

-- A log that ascends up to the counter ascends up to it after every append, whatever the verdict.
append_op-Ascends :
    (b now : ℕ) (op : NewOp) (family : String) (status : Status) (db : Db)
    → Ascends 0 db.op_seq db.ops
    → let db' = (append_op b now op family status db).0 in Ascends 0 db'.op_seq db'.ops
unfolding append_op
append_op-Ascends b now op family accepted db h = Ascends-append 0 _ db.ops _ h refl
append_op-Ascends b now op family conflict db h = Ascends-append 0 _ db.ops _ h refl

-- The last sequence number of a page, or the cursor itself where the page is empty.
unfoldable pub cursor_after : ℕ → List OpRow → ℕ
cursor_after since [] = since
cursor_after since (o ∷ os) = cursor_after o.seq os

skip :
    (b c n top : ℕ) (os : List OpRow)
    → Ascends n top os
    → c ≤ n
    → select (is_after b c) os ≡ select (is_after b n) os
skip b c n top [] h le = refl
skip b c n top (o ∷ os) h le = ground (arith, skip b c o.seq top os h.1, skip b n o.seq top os h.1)

cursor_grows :
    (b s c l n top : ℕ) (os : List OpRow)
    → Ascends n top os
    → c ≤ max s n
    → c ≤ cursor_after c (take l (select (is_after b s) os))
unfolding cursor_after
cursor_grows b s c zero n top os h le = omega arith
cursor_grows b s c (suc l) n top [] h le = omega arith
cursor_grows b s c (suc l) n top (o ∷ os) h le =
    ground (
      arith,
      cursor_grows b s o.seq l o.seq top os h.1,
      cursor_grows b s c (suc l) o.seq top os h.1,
    )

pub page_rest :
    (b since limit n top : ℕ) (os : List OpRow)
    → Ascends n top os
    → take limit (select (is_after b since) os)
        ++ select (is_after b (cursor_after since (take limit (select (is_after b since) os)))) os
      ≡ select (is_after b since) os
unfolding cursor_after
page_rest b since zero n top os h = refl
page_rest b since (suc l) n top [] h = refl
page_rest b since (suc l) n top (o ∷ os) h = ground (
  arith,
  skip b since o.seq top os h.1,
  page_rest b o.seq l o.seq top os h.1,
  page_rest b since (suc l) o.seq top os h.1,
  cursor_grows b o.seq o.seq l o.seq top os h.1,
  cursor_grows b since since (suc l) o.seq top os h.1,
)
