-- ===== src/Relay/Poll/Pages.antt =====
-- Following `next` from page to page (ops.ts, GET /ops).
use kontexta.Relay.Members.{touch_machine, Machine, authenticate}
use kontexta.Base.{
  ℕ, zero, suc, ◌+◌, String, ◌≡◌, refl, sym, ap, ◌∙◌, Option, none, some, List, [], ◌∷◌, ◌++◌, map,
  map-append, arith, select,
}
use kontexta.Relay.Tables.{OpRow, Db}
use kontexta.Relay.Store.{take, is_after, send_op, ops_since}
use kontexta.Relay.Store.Log.{Ascends, cursor_after, page_rest}
use kontexta.Relay.Poll.{
  RawNumber, GetOpsParams, parse_get_ops_params, acked_of, next_cursor, get_as, get_ops,
}

next_cursor-sent :
    (b : ℕ) (db : Db) (since : ℕ) (os : List OpRow)
    → next_cursor since (map (send_op b db) os) ≡ cursor_after since os
unfolding next_cursor cursor_after send_op
next_cursor-sent b db since [] = refl
next_cursor-sent b db since (o ∷ os) = next_cursor-sent b db o.seq os

take-nil {ℓ} : {A : Type ℓ} (n : ℕ) → take {A = A} n [] ≡ []
take-nil zero = refl
take-nil (suc n) = refl

take-join {ℓ} :
    {A : Type ℓ} (l n : ℕ) (xs rest : List A)
    → take l xs ++ rest ≡ xs
    → take l xs ++ take n rest ≡ take (l + n) xs
take-join zero n xs rest h =
    let same : n ≡ 0 + n = omega arith in ap (take n) h ∙ ap (λ k. take k xs) same
take-join (suc l) n [] rest h = ap (take n) h ∙ take-nil n ∙ sym (take-nil (suc l + n))
take-join (suc l) n (x ∷ xs) rest h =
    let tail : take l xs ++ rest ≡ xs = cc in
    let next : suc (l + n) ≡ suc l + n = omega arith in
    ap (λ ys. x ∷ ys) (take-join l n xs rest tail) ∙ ap (λ k. take k (x ∷ xs)) next

-- A poll and the poll that follows its `next` bring exactly what one poll with both limits would:
-- no operation is skipped and none is sent twice, where the log ascends as every append leaves it.
pub pages_join :
    (b since limit n : ℕ) (db : Db)
    → Ascends 0 db.op_seq db.ops
    → let first = ops_since b since limit db in
      first ++ ops_since b (next_cursor since first) n db ≡ ops_since b since (limit + n) db
unfolding ops_since
pages_join b since limit n db h =
    let rows = select (is_after b since) db.ops in
    let rest = page_rest b since limit 0 db.op_seq db.ops h in
    rw (next_cursor-sent b db since (take limit rows)) (
      sym (map-append (send_op b db) (take limit rows) _)
      ∙ ap (map (send_op b db)) (take-join limit n rows _ rest))

-- GET /ops moves nothing but the caller's own row among the machines, and a request that is not
-- answered with a page moves nothing at all.
pub get_ops_reads :
    (hmac : String → String → String) (pepper : String) (default_limit now : ℕ)
    (header : Option String) (since limit acked : RawNumber) (db : Db)
    → let (db', r) = get_ops hmac pepper default_limit now header since limit acked db in
      (db'.ops ≡ db.ops)
      × (db'.records ≡ db.records)
      × (db'.conflicts ≡ db.conflicts)
      × (db'.brains ≡ db.brains)
unfolding get_ops touch_machine
get_ops_reads hmac pepper default_limit now header since limit acked db =
    moves now (authenticate hmac pepper header db) (parse_get_ops_params default_limit since limit)
      (acked_of acked)
  where
    moves :
        (now : ℕ) (who : Option Machine) (p : Option GetOpsParams) (a : Option (Option ℕ))
        → let (db', r) = get_as now who db p a in
          (db'.ops ≡ db.ops)
          × (db'.records ≡ db.records)
          × (db'.conflicts ≡ db.conflicts)
          × (db'.brains ≡ db.brains)
    moves now none p a = (refl, refl, refl, refl)
    moves now (some who) none a = (refl, refl, refl, refl)
    moves now (some who) (some p) none = (refl, refl, refl, refl)
    moves now (some who) (some p) (some a) = (refl, refl, refl, refl)
