-- ===== src/Relay/Admin/Scope.antt =====
-- How far a machine's requests about its brain reach (brains.ts).
use kontexta.Base.{
  ℕ, String, ◌≡◌, refl, ◌≢◌, Bool, true, false, Option, none, some, List, [], ◌∷◌, arith, eq_iff,
  if◌then◌else◌, ◌==◌, select, find_row, delete_rows, select-delete, find_row-update, nat_eq,
  string_eq,
}
use kontexta.Json.{Json}
use kontexta.Relay.Tables.{ClientRow, Db}
use kontexta.Relay.Members.{
  get_brain, rename_brain, is_client, revoke_machine, Machine, machine_of, hash_token,
  validate_client_token, authenticate,
}
use kontexta.Relay.Admin.{name_in, rename_as, revoke_as, patch_brain, delete_machine}

machine_of-delete :
    (b : ℕ) (m : String) (p : ClientRow → Bool) (rows : List ClientRow)
    → machine_of (find_row p (delete_rows (is_client b m) rows))
      ≢ some (record { brain_id = b; machine_id = m })
machine_of-delete b m p [] h = grind (arith, h)
machine_of-delete b m p (r ∷ rows) h =
    ground (arith, h, machine_of-delete b m p rows, eq_iff r.machine_id m)

module _ (hmac : String → String → String) (pepper : String) (header : Option String) (db : Db)
    (who : Machine) (known : authenticate hmac pepper header db ≡ some who) where
  -- After a machine was revoked, by a machine of its brain or by itself, no token resolves to it.
  pub delete_machine_locks_out :
      (m token : String)
      → validate_client_token hmac pepper token (delete_machine hmac pepper header m db).0
        ≢ some (record { brain_id = who.brain_id; machine_id = m })
  unfolding delete_machine revoke_machine validate_client_token
  delete_machine_locks_out m token = rw known (by_token (token == ""))
    where
      by_token :
          (b : Bool)
          → (if b
              then none
              else machine_of (
                  find_row
                    (λ r. r.token_hash == hash_token hmac pepper token)
                    (delete_rows (is_client who.brain_id m) db.clients)))
            ≢ some (record { brain_id = who.brain_id; machine_id = m })
      by_token true h = grind (arith, h)
      by_token false h = machine_of-delete who.brain_id m _ db.clients h

  -- Renaming and revoking reach only the caller's brain: every other brain keeps its name and its
  -- machines, and no operation, record or conflict changes.
  admin_stays_home :
      (body : Option Json) (m : String) (c : ℕ)
      → c ≢ who.brain_id
      → let renamed_db = (patch_brain hmac pepper header body db).0 in
        let revoked_db = (delete_machine hmac pepper header m db).0 in
        (get_brain c renamed_db ≡ get_brain c db)
        × (renamed_db.clients ≡ db.clients)
        × (renamed_db.ops ≡ db.ops)
        × (select (λ r. r.brain_id == c) revoked_db.clients
            ≡ select (λ r. r.brain_id == c) db.clients)
        × (revoked_db.brains ≡ db.brains)
        × (revoked_db.ops ≡ db.ops)
  unfolding patch_brain delete_machine revoke_machine rename_brain get_brain
  admin_stays_home body m c ne = rw known (by_name (name_in body))
    where
      others_kept :
          select (λ r. r.brain_id == c) (delete_rows (is_client who.brain_id m) db.clients)
          ≡ select (λ r. r.brain_id == c) db.clients
      others_kept = select-delete _ _ db.clients (λ r e. ground (arith, e))

      by_name :
          (name : Option String)
          → let renamed_db = (rename_as (some who) name db).0 in
            let revoked_db = (revoke_as (some who) m db).0 in
            (find_row (λ r. r.id == c) renamed_db.brains ≡ find_row (λ r. r.id == c) db.brains)
            × (renamed_db.clients ≡ db.clients)
            × (renamed_db.ops ≡ db.ops)
            × (select (λ r. r.brain_id == c) revoked_db.clients
                ≡ select (λ r. r.brain_id == c) db.clients)
            × (revoked_db.brains ≡ db.brains)
            × (revoked_db.ops ≡ db.ops)
      by_name none = (refl, refl, refl, others_kept, refl, refl)
      by_name (some name) = (
        find_row-update _ _ _ db.brains (λ r e. ground (arith, e)) (λ r. refl),
        refl,
        refl,
        others_kept,
        refl,
        refl,
      )
