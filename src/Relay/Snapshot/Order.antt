-- ===== src/Relay/Snapshot/Order.antt =====
-- The gids of a snapshot ascend, and a later cursor selects among them (store.ts, `snapshotPage`).
use kontexta.Base.{
  String, ◌≡◌, refl, sym, ap, ◌∙◌, ◌≢◌, inl, inr, Bool, true, false, List, [], ◌∷◌, arith, eq_iff,
  ◌==◌, Bool-cases, select, All, All-map, nat_eq, string_eq,
}
use kontexta.Relay.TextOrder.{text_before, text_before_irrefl, text_before_trans, text_before_total}
use kontexta.Relay.Snapshot.{insert_gid, sort_gids}

-- Every gid comes before the later ones.
abbrev pub IsAscending : List String → Type 0
IsAscending [] = Unit
IsAscending (g ∷ gs) = All (λ h. text_before g h ≡ true) gs × IsAscending gs

before-apart : (g h : String) → text_before g h ≡ true → (g == h) ≡ false
before-apart g h e = elim (Bool-cases (g == h)) [
  | inl q ↦ let same : g ≡ h = (eq_iff g h).0 q in let no = text_before_irrefl g in cc
  | inr q ↦ q
]

pub All-insert_gid {κ} :
    (P : String → Type κ) (g : String) (hs : List String) → P g → All P hs → All P (insert_gid g hs)
unfolding insert_gid
All-insert_gid P g [] p ps = (p, tt)
All-insert_gid P g (h ∷ hs) p ps = elim (Bool-cases (g == h)) [
  | inl e ↦ rw e ps
  | inr e ↦ elim (Bool-cases (text_before g h)) [
    | inl lt ↦ rw (e, lt) (p, ps)
    | inr ge ↦ rw (e, ge) (ps.0, All-insert_gid P g hs p ps.1)
  ]
]

insert_gid-IsAscending :
    (g : String) (hs : List String) → IsAscending hs → IsAscending (insert_gid g hs)
unfolding insert_gid
insert_gid-IsAscending g [] a = (tt, tt)
insert_gid-IsAscending g (h ∷ hs) a = elim (Bool-cases (g == h)) [
  | inl e ↦ rw e a
  | inr e ↦ elim (Bool-cases (text_before g h)) [
    | inl lt ↦ rw (e, lt) ((lt, All-map _ _ hs (λ k q. text_before_trans g h k lt q) a.0), a)
    | inr ge ↦
        let apart : g ≢ h = λ p. (let q = (eq_iff g h).1 p in cc) in
        rw (e, ge)
          (
            All-insert_gid _ g hs (text_before_total g h ge apart) a.0,
            insert_gid-IsAscending g hs a.1,
          )
  ]
]

pub sort_gids-IsAscending : (gs : List String) → IsAscending (sort_gids gs)
unfolding sort_gids
sort_gids-IsAscending [] = tt
sort_gids-IsAscending (g ∷ gs) = insert_gid-IsAscending g (sort_gids gs) (sort_gids-IsAscending gs)

insert_gid-first :
    (g : String) (hs : List String)
    → All (λ h. text_before g h ≡ true) hs
    → insert_gid g hs ≡ g ∷ hs
unfolding insert_gid
insert_gid-first g [] a = refl
insert_gid-first g (h ∷ hs) a = rw (before-apart g h a.0, a.0) refl

pub All-select {ℓ κ} :
    {A : Type ℓ} (P : A → Type κ) (p : A → Bool) (xs : List A) → All P xs → All P (select p xs)
All-select P p [] h = tt
All-select P p (x ∷ xs) h = elim (Bool-cases (p x)) [
  | inl e ↦ rw e (h.0, All-select P p xs h.1)
  | inr e ↦ rw e (All-select P p xs h.1)
]

module _ (p : String → Bool) where
  pub select-IsAscending : (gs : List String) → IsAscending gs → IsAscending (select p gs)
  select-IsAscending [] a = tt
  select-IsAscending (g ∷ gs) a = elim (Bool-cases (p g)) [
    | inl e ↦ rw e (All-select _ p gs a.0, select-IsAscending gs a.1)
    | inr e ↦ rw e (select-IsAscending gs a.1)
  ]

  insert_gid-skips :
      (g : String) (hs : List String) → p g ≡ false → select p (insert_gid g hs) ≡ select p hs
  unfolding insert_gid
  insert_gid-skips g [] e = rw e refl
  insert_gid-skips g (h ∷ hs) e = ground (arith, e, insert_gid-skips g hs)

  insert_gid-select :
      (g : String) (hs : List String)
      → IsAscending hs
      → p g ≡ true
      → select p (insert_gid g hs) ≡ insert_gid g (select p hs)
  unfolding insert_gid
  insert_gid-select g [] a e = rw e refl
  insert_gid-select g (h ∷ hs) a e = elim (Bool-cases (g == h)) [
    | inl q ↦
        let same : g ≡ h = (eq_iff g h).0 q in let e' : p h ≡ true = cc in rw (q, e') (rw q refl)
    | inr q ↦ elim (Bool-cases (text_before g h)) [
      | inl lt ↦
          let later = All-map _ _ hs (λ k r. text_before_trans g h k lt r) a.0 in
          elim (Bool-cases (p h)) [
            | inl u ↦ rw (q, lt, e, u) (rw (q, lt) refl)
            | inr u ↦
                rw (q, lt, e, u) (sym (insert_gid-first g (select p hs) (All-select _ p hs later)))
          ]
      | inr ge ↦ elim (Bool-cases (p h)) [
        | inl u ↦ rw (q, ge, u) (rw (q, ge) (ap (λ ks. h ∷ ks) (insert_gid-select g hs a.1 e)))
        | inr u ↦ rw (q, ge, u) (insert_gid-select g hs a.1 e)
      ]
    ]
  ]

  pub sort_gids-select : (gs : List String) → select p (sort_gids gs) ≡ sort_gids (select p gs)
  unfolding sort_gids
  sort_gids-select [] = refl
  sort_gids-select (g ∷ gs) = elim (Bool-cases (p g)) [
    | inl e ↦ rw e (
        insert_gid-select g (sort_gids gs) (sort_gids-IsAscending gs) e
        ∙ ap (insert_gid g) (sort_gids-select gs))
    | inr e ↦ rw e (insert_gid-skips g (sort_gids gs) e ∙ sort_gids-select gs)
  ]
