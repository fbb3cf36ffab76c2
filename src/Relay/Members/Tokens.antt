-- ===== src/Relay/Members/Tokens.antt =====
-- Which token opens which brain after a machine's row is written (store.ts and auth.ts).
use kontexta.Base.{
  ℕ, String, ◌≡◌, refl, sym, ap, ◌∙◌, ◌≢◌, Bool, true, Option, none, some, List, [], ◌∷◌, arith,
  eq_iff, ◌==◌, ==_refl, find_row, update_rows, find_row-append_new, nat_eq, string_eq,
}
use kontexta.Relay.Tables.{ClientRow, Db}
use kontexta.Relay.Members.{
  create_brain, is_client, enroll_machine, is_some, has_machine, coalesce, rotate_token, machine_of,
  hash_token, validate_client_token,
}

-- The tables that are no business of the machines' rows.
pub record SameData (db db' : Db) : Type 0 where
  pub same_ops : db'.ops ≡ db.ops
  pub same_records : db'.records ≡ db.records
  pub same_conflicts : db'.conflicts ≡ db.conflicts

pub SameData-rotate :
    (now b : ℕ) (m h : String) (host : Option String) (db : Db)
    → SameData db (rotate_token now b m h host db)
unfolding rotate_token
SameData-rotate now b m h host db = record {
  same_ops = refl;
  same_records = refl;
  same_conflicts = refl;
}

pub SameData-enroll :
    (now b : ℕ) (m : String) (host : Option String) (h : String) (db : Db)
    → SameData db (enroll_machine now b m host h db)
unfolding enroll_machine
SameData-enroll now b m host h db = record {
  same_ops = refl;
  same_records = refl;
  same_conflicts = refl;
}

pub SameData-create :
    (now : ℕ) (h name : String) (db : Db) → SameData db (create_brain now h name db).0
unfolding create_brain
SameData-create now h name db = record {
  same_ops = refl;
  same_records = refl;
  same_conflicts = refl;
}

abbrev with_hash : String → ClientRow → Bool
with_hash h r = r.token_hash == h

find_rotated :
    (now b : ℕ) (m h : String) (host : Option String) (rows : List ClientRow)
    → find_row (with_hash h) rows ≡ none
    → is_some (find_row (is_client b m) rows) ≡ true
    → machine_of (
        find_row (with_hash h) (
          update_rows
            (is_client b m)
            (λ r. record r {
              token_hash = h;
              hostname = coalesce host r.hostname;
              last_seen_at = now;
            })
            rows))
      ≡ some (record { brain_id = b; machine_id = m })
find_rotated now b m h host [] fresh known = grind (arith, known)
find_rotated now b m h host (r ∷ rows) fresh known =
    ground (arith, eq_iff r.machine_id m, eq_iff h h, find_rotated now b m h host rows)

module _ (hmac : String → String → String) (pepper token : String) (filled : token ≢ "") where
  validate-filled :
      (db : Db)
      → validate_client_token hmac pepper token db
        ≡ machine_of (find_row (with_hash (hash_token hmac pepper token)) db.clients)
  unfolding validate_client_token
  validate-filled db = ground (arith, eq_iff token "")

  fresh_row :
      (db : Db)
      → validate_client_token hmac pepper token db ≡ none
      → find_row (with_hash (hash_token hmac pepper token)) db.clients ≡ none
  fresh_row db h = none_of _ (sym (validate-filled db) ∙ h)
    where
      none_of : (o : Option ClientRow) → machine_of o ≡ none → o ≡ none
      none_of none e = refl
      none_of (some r) e = grind (arith, e)

  -- A token that no machine had is the machine's key after its row got the token's hash.
  pub validate-rotate :
      (now b : ℕ) (m : String) (host : Option String) (db : Db)
      → has_machine b m db ≡ true
      → validate_client_token hmac pepper token db ≡ none
      → validate_client_token hmac pepper token
          (rotate_token now b m (hash_token hmac pepper token) host db)
        ≡ some (record { brain_id = b; machine_id = m })
  unfolding rotate_token has_machine
  validate-rotate now b m host db known h =
      validate-filled _ ∙ find_rotated now b m _ host db.clients (fresh_row db h) known

  -- The same for a machine that enrolls.
  pub validate-enroll :
      (now b : ℕ) (m : String) (host : Option String) (db : Db)
      → validate_client_token hmac pepper token db ≡ none
      → validate_client_token hmac pepper token
          (enroll_machine now b m host (hash_token hmac pepper token) db)
        ≡ some (record { brain_id = b; machine_id = m })
  unfolding enroll_machine
  validate-enroll now b m host db h =
      validate-filled _
      ∙ ap machine_of (
          find_row-append_new (with_hash (hash_token hmac pepper token)) db.clients _
            (fresh_row db h) (==_refl (hash_token hmac pepper token)))

  -- A new brain gives no token any right.
  pub validate-create :
      (now : ℕ) (h name : String) (db : Db)
      → validate_client_token hmac pepper token (create_brain now h name db).0
        ≡ validate_client_token hmac pepper token db
  unfolding create_brain validate_client_token
  validate-create now h name db = refl
