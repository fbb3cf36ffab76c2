-- ===== src/Sync/Outbox/Marks.antt =====
-- The delivery states of a queued operation (outbox.ts).
use kontexta.Sync.Op.{OpKind}
use kontexta.Json.{Json, JsNumber}
use kontexta.Base.{
  ℕ, suc, String, ◌≡◌, refl, ap, Bool, not, ◌&&◌, some, List, [], ◌∷◌, map, arith, ◌==◌, select,
  update_rows, nat_eq, string_eq,
}
use kontexta.Sync.Outbox.{
  OutboxRow, Local, is_waiting, is_acked, has_id, mark_sent, mark_acked, mark_failed, sent, failed,
}

update-update_same {ℓ} :
    {A : Type ℓ} (p : A → Bool) (f g : A → A) (xs : List A)
    → ((x : A) → p (f x) ≡ p x)
    → ((x : A) → g (f x) ≡ g x)
    → update_rows p g (update_rows p f xs) ≡ update_rows p g xs
update-update_same p f g [] h k = refl
update-update_same p f g (x ∷ xs) h k = ground (arith, h x, k x, update-update_same p f g xs h k)

-- An acknowledgement overwrites an earlier one: the second server number stands, for every row.
mark_acked_overwrites :
    (id first second : ℕ) (db : Local)
    → mark_acked id second (mark_acked id first db) ≡ mark_acked id second db
unfolding mark_acked
mark_acked_overwrites id first second db =
    ap (λ rows. record db { outbox = rows })
      (update-update_same (λ (r : OutboxRow). id == r.id) _ _ db.outbox (λ r. refl) (λ r. refl))

-- What a row still shows after its delivery state moved.
pub record Cargo : Type 0 where
  pub id : ℕ
  pub gid : String
  pub kind : OpKind
  pub origin : String
  pub payload : Json
  pub created_at : JsNumber

abbrev pub cargo : OutboxRow → Cargo
cargo r = record {
  id = r.id;
  gid = r.gid;
  kind = r.kind;
  origin = r.origin;
  payload = r.payload;
  created_at = r.created_at;
}

pub map-update {ℓ κ} :
    {A : Type ℓ} {B : Type κ} (c : A → B) (p : A → Bool) (f : A → A) (xs : List A)
    → ((x : A) → c (f x) ≡ c x)
    → map c (update_rows p f xs) ≡ map c xs
map-update c p f [] h = refl
map-update c p f (x ∷ xs) h = ground (arith, h x, map-update c p f xs h)

-- A failure or a delivery attempt never touches a row that the server acknowledged.
acked_untouched :
    (ids : List ℕ) (id at : ℕ) (error : String) (db : Local)
    → (select is_acked (mark_sent ids db).outbox ≡ select is_acked db.outbox)
      × (select is_acked (mark_failed id error at db).outbox ≡ select is_acked db.outbox)
unfolding mark_sent mark_failed
acked_untouched ids id at error db = (sent_part db.outbox, failed_part db.outbox)
  where
    sent_part :
        (rows : List OutboxRow)
        → select is_acked
            (update_rows (λ r. has_id ids r && is_waiting r) (λ r. record r { status = sent }) rows)
          ≡ select is_acked rows
    sent_part [] = refl
    sent_part (r ∷ rows) = ground (arith, sent_part rows)

    failed_part :
        (rows : List OutboxRow)
        → select is_acked (
            update_rows
              (λ r. id == r.id && not (is_acked r))
              (λ r. record r {
                status = failed;
                attempts = suc r.attempts;
                next_attempt_at = some at;
                last_error = some error;
              })
              rows)
          ≡ select is_acked rows
    failed_part [] = refl
    failed_part (r ∷ rows) = ground (arith, failed_part rows)
