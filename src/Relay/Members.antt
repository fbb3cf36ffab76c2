-- ===== src/Relay/Members.antt =====
-- packages/relay/src/store.ts: brains and the machines enrolled in them; auth.ts: resolving a bearer
-- token. The keyed hash is the parameter `hmac`, called with the pepper and the message.
pub mod Tokens
use Prim.Native.Char.{code}
use kontexta.Base.{
  ℕ, suc, ◌+◌, max, String, Bool, true, false, ◌&&◌, Option, none, some, List, [], ◌∷◌, ◌++◌, leb,
  if◌then◌else◌, ◌==◌, find_row, update_rows, delete_rows, nat_eq, string_eq,
}
use kontexta.Chars.{is_space}
use kontexta.Relay.Tables.{BrainRow, ClientRow, Db}

-- INSERT INTO brains; the new row's id is the next one.
unfoldable pub create_brain : ℕ → String → String → Db → Db × ℕ
create_brain now share_hash name db =
    let id = suc db.brain_seq in
    (
      record db {
        brains =
            db.brains
            ++ record { id = id; share_hash = share_hash; name = name; created_at = now } ∷ [];
        brain_seq = id;
      },
      id,
    )

unfoldable pub find_brain_by_share_hash : String → Db → Option BrainRow
find_brain_by_share_hash h db = find_row (λ r. r.share_hash == h) db.brains

unfoldable pub get_brain : ℕ → Db → Option BrainRow
get_brain b db = find_row (λ r. r.id == b) db.brains

unfoldable pub rename_brain : ℕ → String → Db → Db
rename_brain b name db = record db {
  brains = update_rows (λ r. r.id == b) (λ r. record r { name = name }) db.brains;
}

abbrev pub is_client : ℕ → String → ClientRow → Bool
is_client b m r = r.brain_id == b && r.machine_id == m

unfoldable pub enroll_machine : ℕ → ℕ → String → Option String → String → Db → Db
enroll_machine now b m hostname token_hash db = record db {
  clients =
      db.clients
      ++ record {
        brain_id = b;
        machine_id = m;
        hostname = hostname;
        token_hash = token_hash;
        first_seen_at = now;
        last_seen_at = now;
        acked_seq = 0;
      }
        ∷ [];
}

abbrev is_some {ℓ} : {A : Type ℓ} → Option A → Bool
is_some none = false
is_some (some a) = true

unfoldable pub has_machine : ℕ → String → Db → Bool
has_machine b m db = is_some (find_row (is_client b m) db.clients)

-- COALESCE(?, hostname)
abbrev coalesce {ℓ} : {A : Type ℓ} → Option A → Option A → Option A
coalesce none old = old
coalesce (some new) old = some new

unfoldable pub rotate_token : ℕ → ℕ → String → String → Option String → Db → Db
rotate_token now b m token_hash hostname db = record db {
  clients =
      update_rows (is_client b m)
        (λ r. record r {
          token_hash = token_hash;
          hostname = coalesce hostname r.hostname;
          last_seen_at = now;
        })
        db.clients;
}

-- The deletion, and whether it deleted a row.
unfoldable pub revoke_machine : ℕ → String → Db → Db × Bool
unfolding has_machine
revoke_machine b m db =
    (record db { clients = delete_rows (is_client b m) db.clients }, has_machine b m db)

abbrev acked_or_zero : Option ℕ → ℕ
acked_or_zero none = 0
acked_or_zero (some n) = n

unfoldable pub touch_machine : ℕ → ℕ → String → Option ℕ → Db → Db
touch_machine now b m acked db = record db {
  clients =
      update_rows (is_client b m)
        (λ r. record r { last_seen_at = now; acked_seq = max r.acked_seq (acked_or_zero acked) })
        db.clients;
}

pub record Machine : Type 0 where
  pub brain_id : ℕ
  pub machine_id : String

abbrev pub machine_of : Option ClientRow → Option Machine
machine_of none = none
machine_of (some r) = some (record { brain_id = r.brain_id; machine_id = r.machine_id })

-- trim
unfoldable pub drop_spaces : String → String
drop_spaces String.[] = ""
drop_spaces (String.◌∷◌ c s) = if is_space c then drop_spaces s else String.◌∷◌ c s

unfoldable pub all_spaces : String → Bool
all_spaces String.[] = true
all_spaces (String.◌∷◌ c s) = is_space c && all_spaces s

-- `(\S+)\s*$`: the run of other characters, which only white space may follow
unfoldable pub take_word : String → Option String
take_word String.[] = some ""
take_word (String.◌∷◌ c s) =
    let rest = take_word s in
    if is_space c
    then (if all_spaces s then some "" else none)
    else elim rest [ none ↦ none | some w ↦ some (String.◌∷◌ c w) ]

unfoldable pub non_empty : Option String → Option String
non_empty none = none
non_empty (some s) = if s == "" then none else some s

-- The letters of `text`, in either case, and what follows them.
abbrev lower : ℕ → ℕ
lower c = if leb 65 c && leb c 90 then c + 32 else c

unfoldable pub strip_word : List ℕ → String → Option String
strip_word [] s = some s
strip_word (x ∷ xs) String.[] = none
strip_word (x ∷ xs) (String.◌∷◌ c s) = if lower (code c) == x then strip_word xs s else none

abbrev bearer : List ℕ
bearer = b'b' ∷ b'e' ∷ b'a' ∷ b'r' ∷ b'e' ∷ b'r' ∷ []

-- `\s+(\S+)\s*$` after the word
unfoldable pub after_bearer : Option String → Option String
after_bearer none = none
after_bearer (some String.[]) = none
after_bearer (some (String.◌∷◌ c s)) =
    if is_space c then non_empty (take_word (drop_spaces s)) else none

unfoldable pub extract_bearer_token : Option String → Option String
unfolding drop_spaces strip_word after_bearer non_empty take_word
extract_bearer_token none = none
extract_bearer_token (some header) = after_bearer (strip_word bearer (drop_spaces header))

module _ (hmac : String → String → String) where
  unfoldable pub hash_token : String → String → String
  hash_token pepper token = hmac pepper token

  unfoldable pub validate_client_token : String → String → Db → Option Machine
  unfolding hash_token
  validate_client_token pepper token db =
      if token == ""
      then none
      else machine_of (find_row (λ r. r.token_hash == hash_token pepper token) db.clients)

  unfoldable pub authenticate_token : String → Db → Option String → Option Machine
  authenticate_token pepper db none = none
  authenticate_token pepper db (some token) = validate_client_token pepper token db

  unfoldable pub authenticate : String → Option String → Db → Option Machine
  unfolding authenticate_token validate_client_token
  authenticate pepper header db = authenticate_token pepper db (extract_bearer_token header)
