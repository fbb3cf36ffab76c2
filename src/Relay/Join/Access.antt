-- ===== src/Relay/Join/Access.antt =====
-- Who may use a brain after a join (brains.ts, store.ts and auth.ts).
use kontexta.Relay.Members.Tokens.{
  SameData, SameData-rotate, SameData-enroll, SameData-create, validate-rotate, validate-enroll,
  validate-create,
}
use kontexta.Base.{
  ℕ, suc, String, ◌≡◌, refl, sym, ◌∙◌, ◌≢◌, ◌⊎◌, inl, inr, Bool, true, false, Option, none, some,
  [], ◌∷◌, ◌++◌, arith, Bool-cases,
}
use kontexta.Relay.Tables.{BrainRow, Db}
use kontexta.Relay.Members.{
  create_brain, find_brain_by_share_hash, has_machine, Machine, hash_token, validate_client_token,
}
use kontexta.Relay.Join.{
  JoinOptions, JoinRequest, JoinReply, joined, hash_route_id, enter_brain, may_create, create_as,
  join_with, join_brain,
}

module _ (hmac : String → String → String) (sha256 : String → String) where
  -- The two ways that `may_create` lets a machine through.
  abbrev pub Permitted : JoinOptions → String → Type 0
  Permitted opts presented =
      ((opts.enroll_secret ≡ "") × (opts.allow_open_create ≡ true))
      ⊎ (sha256 presented ≡ sha256 opts.enroll_secret)

  enter-SameData :
      (now : ℕ) (brain : BrainRow) (req : JoinRequest) (h : String) (db : Db)
      → SameData db (enter_brain hmac sha256 now brain req h db)
  unfolding enter_brain
  enter-SameData now brain req h db = elim (Bool-cases (has_machine brain.id req.machine_id db)) [
    | inl e ↦ rw e (SameData-rotate now brain.id req.machine_id h req.hostname db)
    | inr e ↦ rw e (SameData-enroll now brain.id req.machine_id req.hostname h db)
  ]

  -- Every join, allowed or refused, leaves the operations, the records and the conflicts as they are.
  pub join-SameData :
      (now : ℕ) (opts : JoinOptions) (token presented : String) (req : JoinRequest) (db : Db)
      → SameData db (join_brain hmac sha256 now opts token presented req db).0
  unfolding join_brain
  join-SameData now opts token presented req db = by_brain (find_brain_by_share_hash _ db)
    where
      created :
          (o : Option JoinReply) (h th : String)
          → SameData db (create_as hmac sha256 o now h req token th db).0
      created none h th =
          let made = SameData-create now h req.name db in
          let (db', b) = create_brain now h req.name db in
          let row = SameData-enroll now b req.machine_id req.hostname th db' in
          record {
            same_ops = row.same_ops ∙ made.same_ops;
            same_records = row.same_records ∙ made.same_records;
            same_conflicts = row.same_conflicts ∙ made.same_conflicts;
          }
      created (some r) h th = record { same_ops = refl; same_records = refl; same_conflicts = refl }

      by_brain :
          (o : Option BrainRow)
          → SameData db (join_with hmac sha256 o now opts token presented req db).0
      by_brain none = created (may_create hmac sha256 opts presented) _ _
      by_brain (some brain) = enter-SameData now brain req _ db

  -- What the reply of a join grants: the machine of the request, in the brain of the reply.
  abbrev pub granted_to : JoinRequest → JoinReply → Option Machine
  granted_to req (joined created b name token latest) =
      some (record { brain_id = b; machine_id = req.machine_id })
  granted_to req _ = none

  refusals :
      (opts : JoinOptions) (presented : String) (req : JoinRequest) (r : JoinReply)
      → may_create hmac sha256 opts presented ≡ some r
      → granted_to req r ≡ none
  unfolding may_create
  refusals opts presented req r h = ground (arith, h)

  module _ (now : ℕ) (opts : JoinOptions) (token presented : String) (req : JoinRequest) (db : Db)
      (filled : token ≢ "") (fresh : validate_client_token hmac opts.pepper token db ≡ none) where
    enter_grants :
        (brain : BrainRow)
        → validate_client_token hmac opts.pepper token
            (enter_brain hmac sha256 now brain req (hash_token hmac opts.pepper token) db)
          ≡ some (record { brain_id = brain.id; machine_id = req.machine_id })
    unfolding enter_brain
    enter_grants brain = elim (Bool-cases (has_machine brain.id req.machine_id db)) [
      | inl e ↦ rw e (
          validate-rotate hmac opts.pepper token filled now brain.id req.machine_id req.hostname db
            e fresh)
      | inr e ↦ rw e (
          validate-enroll hmac opts.pepper token filled now brain.id req.machine_id req.hostname db
            fresh)
    ]

    create_grants :
        (o : Option JoinReply) (h : String) (who : Machine)
        → ((r : JoinReply) → o ≡ some r → granted_to req r ≡ none)
        → let (db', r) =
            create_as hmac sha256 o now h req token (hash_token hmac opts.pepper token) db in
          granted_to req r ≡ some who → validate_client_token hmac opts.pepper token db' ≡ some who
    create_grants none h who k g =
        validate-enroll hmac opts.pepper token filled now _ req.machine_id req.hostname _
          (validate-create hmac opts.pepper token filled now h req.name db ∙ fresh)
        ∙ g
    create_grants (some r) h who k g =
        let no : none ≡ some who = sym (k r refl) ∙ g in grind (arith, no)

    -- The token of a successful join is the machine's key to the brain of the reply, be the brain
    -- new or not and the machine known or not, where no machine has a token of the same hash.
    pub join_grants :
        (who : Machine)
        → granted_to req (join_brain hmac sha256 now opts token presented req db).1 ≡ some who
        → validate_client_token hmac opts.pepper token
            (join_brain hmac sha256 now opts token presented req db).0
          ≡ some who
    unfolding join_brain
    join_grants who = by_brain (find_brain_by_share_hash _ db)
      where
        by_brain :
            (o : Option BrainRow)
            → let (db', r) = join_with hmac sha256 o now opts token presented req db in
              granted_to req r ≡ some who
              → validate_client_token hmac opts.pepper token db' ≡ some who
        by_brain none g =
            create_grants (may_create hmac sha256 opts presented) _ who
              (refusals opts presented req) g
        by_brain (some brain) g = enter_grants brain ∙ g

  abbrev pub says_created : JoinReply → Bool
  says_created (joined created b name token latest) = created
  says_created _ = false

  -- The brains stay and the reply tells of no new one.
  abbrev pub NoneCreated : Db → Db × JoinReply → Type 0
  NoneCreated db (db', r) = (db'.brains ≡ db.brains) × (says_created r ≡ false)

  -- The share id had no brain, creating one is permitted, and there is one more, which the reply tells.
  abbrev pub OneCreated : ℕ → JoinOptions → String → JoinRequest → Db → Db × JoinReply → Type 0
  OneCreated now opts presented req db (db', r) =
      let h = hash_route_id hmac sha256 opts.pepper req.route_id in
      (find_brain_by_share_hash h db ≡ none)
      × Permitted opts presented
      × (db'.brains
          ≡ db.brains
            ++ record { id = suc db.brain_seq; share_hash = h; name = req.name; created_at = now }
              ∷ [])
      × (says_created r ≡ true)
