-- ===== src/Sync/Diff/Graph.antt =====
-- The edit graph of two lists of lines (conflicts.ts, `myersEdits`).
use mathlib.Core.Path.{subst}
use kontexta.Base.{
  ℕ, zero, suc, ◌+◌, ◌≤◌, ◌<◌, String, ◌≡◌, refl, sym, ap, inl, inr, true, false, Option, none,
  some, List, [], ◌∷◌, arith, eq_iff, ==_refl, Bool-cases, length, get_elem?, string_eq,
}
use kontexta.Sync.Diff.{same_line, matches, slide}

pub get_elem?_in {ℓ} :
    {A : Type ℓ} (i : ℕ) (xs : List A) (x : A) → get_elem? i xs ≡ some x → i < length xs
get_elem?_in i [] x h = cc
get_elem?_in zero (y ∷ ys) x h = omega arith
get_elem?_in (suc i) (y ∷ ys) x h = omega (arith, get_elem?_in i ys x h)

same_line-some :
    (p q : Option String) → same_line p q ≡ true → (l : String) × (p ≡ some l) × (q ≡ some l)
same_line-some none q h = cc
same_line-some (some s) none h = cc
same_line-some (some s) (some t) h = (s, refl, ap some (sym ((eq_iff s t).0 h)))

module _ (a b : List String) where
  -- The places that some number of edits leads to; a step along a matching line is free.
  pub data Reach : ℕ → ℕ → ℕ → Type 0 where
    start : Reach 0 0 0
    right : (d x y : ℕ) → Reach d x y → Reach (suc d) (suc x) y
    down : (d x y : ℕ) → Reach d x y → Reach (suc d) x (suc y)
    along : (d x y : ℕ) → matches a b x y ≡ true → Reach d x y → Reach d (suc x) (suc y)

  pub matches_line :
      (x y : ℕ)
      → matches a b x y ≡ true
      → (l : String) × (get_elem? x a ≡ some l) × (get_elem? y b ≡ some l)
  unfolding matches
  matches_line x y h = same_line-some (get_elem? x a) (get_elem? y b) h

  pub matches_in : (x y : ℕ) → matches a b x y ≡ true → (x < length a) × (y < length b)
  matches_in x y h =
      let (l, p, q) = matches_line x y h in (get_elem?_in x a l p, get_elem?_in y b l q)

  pub Reach-at : (d x y x' y' : ℕ) → x ≡ x' → y ≡ y' → Reach d x y → Reach d x' y'
  Reach-at d x y x' y' h k r = subst (λ q. Reach d q y') h (subst (λ q. Reach d x q) k r)

  pub Reach-to : (d x y d' x' y' : ℕ) → d ≡ d' → x ≡ x' → y ≡ y' → Reach d x y → Reach d' x' y'
  Reach-to d x y d' x' y' e h k r = subst (λ n. Reach n x' y') e (Reach-at d x y x' y' h k r)

  pub line-matches :
      (x y : ℕ) (l : String)
      → get_elem? x a ≡ some l
      → get_elem? y b ≡ some l
      → matches a b x y ≡ true
  unfolding matches
  line-matches x y l h k = rw (h, k) (==_refl ⦃c = string_eq⦄ l)

  pub slide-Reach : (fuel d x y : ℕ) → Reach d x y → let p = slide a b fuel x y in Reach d p.0 p.1
  unfolding slide
  slide-Reach zero d x y r = r
  slide-Reach (suc fuel) d x y r = elim (Bool-cases (matches a b x y)) [
    | inl e ↦ rw e (slide-Reach fuel d (suc x) (suc y) (along d x y e r))
    | inr e ↦ rw e r
  ]

  pub matches_at :
      (x y x' y' : ℕ) → x ≡ x' → y ≡ y' → matches a b x y ≡ true → matches a b x' y' ≡ true
  matches_at x y x' y' h k e = cc

  run_suc :
      (n x y : ℕ)
      → matches a b x y ≡ true
      → ((u : ℕ) → u < n → matches a b (suc x + u) (suc y + u) ≡ true)
      → (u : ℕ) → u < suc n
      → matches a b (x + u) (y + u) ≡ true
  run_suc n x y e h zero k = matches_at _ _ _ _ (omega arith) (omega arith) e
  run_suc n x y e h (suc u) k =
      matches_at _ _ _ _ (omega arith) (omega arith) (h u (omega (arith, k)))

  -- The while loop goes along n matching lines.
  pub slide_run :
      (fuel x y : ℕ)
      → let p = slide a b fuel x y in
        (n : ℕ) × (p.0 ≡ x + n)
        × (p.1 ≡ y + n)
        × ((u : ℕ) → u < n → matches a b (x + u) (y + u) ≡ true)
  unfolding slide
  slide_run zero x y = (0, omega arith, omega arith, λ u h. elim h [ ])
  slide_run (suc fuel) x y = elim (Bool-cases (matches a b x y)) [
    | inl e ↦
        let (n, p, q, h) = slide_run fuel (suc x) (suc y) in
        rw e (suc n, omega (arith, p), omega (arith, q), run_suc n x y e h)
    | inr e ↦ rw e (0, omega arith, omega arith, λ u h. elim h [ ])
  ]

  pub slide_stops :
      (fuel x y : ℕ)
      → length a ≤ x + fuel
      → let p = slide a b fuel x y in matches a b p.0 p.1 ≡ false
  unfolding slide
  slide_stops zero x y h = elim (Bool-cases (matches a b x y)) [
    | inl e ↦ let (p, q) = matches_in x y e in let bad : ⊥ = omega (arith, p, h) in elim bad [ ]
    | inr e ↦ e
  ]
  slide_stops (suc fuel) x y h = elim (Bool-cases (matches a b x y)) [
    | inl e ↦ rw e (slide_stops fuel (suc x) (suc y) (omega (arith, h)))
    | inr e ↦ rw e e
  ]
