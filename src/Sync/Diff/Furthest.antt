-- ===== src/Sync/Diff/Furthest.antt =====
-- The furthest place that d edits reach on each diagonal (conflicts.ts, `myersEdits`).
use kontexta.Base.{
  ℕ, zero, suc, ◌+◌, ◌-◌, ◌*◌, ◌≤◌, String, ◌≡◌, refl, sym, ap, inl, inr, Bool, true, false, List,
  arith, ◌==◌, Bool-cases, length, nat_eq, string_eq,
}
use kontexta.Sync.Diff.{goes_down, enter_x, matches, slide}
use kontexta.Sync.Diff.Graph.{
  Reach, Reach-at, slide-Reach, matches_at, slide_run, slide_stops, start, right, down, along,
}

pub enter_x_down : (d i l r : ℕ) → goes_down (i == 0) (i == d) l r ≡ true → enter_x d i l r ≡ r
unfolding enter_x
enter_x_down d i l r e = rw e refl

pub enter_x_right :
    (d i l r : ℕ) → goes_down (i == 0) (i == d) l r ≡ false → enter_x d i l r ≡ l + 1
unfolding enter_x
enter_x_right d i l r e = rw e refl

enter_x_after : (d i l r : ℕ) → suc l ≤ enter_x d (suc i) l r
unfolding enter_x goes_down
enter_x_after d i l r = ground arith

enter_x_before : (d i l r : ℕ) → i ≤ d → r ≤ enter_x (suc d) i l r
unfolding enter_x goes_down
enter_x_before d i l r h = ground (arith, h)

module _ (a b : List String) where
  -- Where step d enters diagonal i, and where it ends up there.
  unfoldable pub furthest : ℕ → ℕ → ℕ × ℕ
  furthest zero i = slide a b (length a) 0 0
  furthest (suc d) i =
      let x = enter_x (suc d) i (furthest d (i - 1)).0 (furthest d i).0 in
      slide a b (length a) x (x + suc d - 2 * i)

  abbrev pub entry : ℕ → ℕ → ℕ × ℕ
  entry zero i = (0, 0)
  entry (suc d) i =
      let x = enter_x (suc d) i (furthest d (i - 1)).0 (furthest d i).0 in (x, x + suc d - 2 * i)

  pub furthest-entry : (d i : ℕ) → let p = entry d i in furthest d i ≡ slide a b (length a) p.0 p.1
  unfolding furthest
  furthest-entry zero i = refl
  furthest-entry (suc d) i = refl

  abbrev OnDiagonal : ℕ → ℕ → ℕ × ℕ → Type 0
  OnDiagonal d i p = p.0 + d ≡ p.1 + 2 * i

  slide-OnDiagonal : (d i x y : ℕ) → x + d ≡ y + 2 * i → OnDiagonal d i (slide a b (length a) x y)
  slide-OnDiagonal d i x y h =
      let (n, p, q, _) = slide_run a b (length a) x y in omega (arith, p, q, h)

  -- Whether step d + 1 enters diagonal i by an insertion.
  abbrev pub by_insert : ℕ → ℕ → Bool
  by_insert d i = goes_down (i == 0) (i == suc d) (furthest d (i - 1)).0 (furthest d i).0

  pub data Entered (d i : ℕ) : Type 0 where
    by_down :
        i ≤ d
        → by_insert d i ≡ true
        → (entry (suc d) i).0 ≡ (furthest d i).0
        → (entry (suc d) i).1 ≡ suc (furthest d i).1
        → Entered d i
    by_right :
        (j : ℕ)
        → j ≤ d
        → i ≡ suc j
        → by_insert d i ≡ false
        → (entry (suc d) i).0 ≡ suc (furthest d j).0
        → (entry (suc d) i).1 ≡ (furthest d j).1
        → Entered d i

  entered : (d i : ℕ) → i ≤ suc d → ((j : ℕ) → j ≤ d → OnDiagonal d j (furthest d j)) → Entered d i
  unfolding goes_down
  entered d zero h f =
      let x = enter_x_down (suc d) 0 (furthest d 0).0 (furthest d 0).0 refl in
      by_down (omega arith) refl x (omega (arith, x, f 0))
  entered d (suc j) h f = elim (Bool-cases (by_insert d (suc j))) [
    | inl e ↦
        let le : suc j ≤ d = ground (arith, h, e) in
        let x = enter_x_down _ _ _ _ e in by_down le e x (omega (arith, x, f (suc j) le))
    | inr e ↦
        let le : j ≤ d = omega (arith, h) in
        let pred : suc j - 1 ≡ j = omega arith in
        let same = ap (λ k. (furthest d k).0) pred in
        let x = enter_x_right (suc d) (suc j) (furthest d (suc j - 1)).0 (furthest d (suc j)).0 e in
        by_right j le refl e (omega (arith, x, same)) (omega (arith, x, same, f j le))
  ]

  abbrev Place : ℕ → ℕ → Type 0
  Place d i = let p = furthest d i in Reach a b d p.0 p.1 × OnDiagonal d i p

  entered-Place : (d i : ℕ) → ((j : ℕ) → j ≤ d → Place d j) → Entered d i → Place (suc d) i
  unfolding furthest
  entered-Place d i f (by_down le e x y) =
      let (r, o) = f i le in
      let p = entry (suc d) i in
      (
        slide-Reach a b (length a) (suc d) p.0 p.1
            (Reach-at a b _ _ _ _ _ (sym x) (sym y) (down d _ _ r)),
        slide-OnDiagonal (suc d) i p.0 p.1 (omega (arith, o, x, y)),
      )
  entered-Place d i f (by_right j le k e x y) =
      let (r, o) = f j le in
      let p = entry (suc d) i in
      (
        slide-Reach a b (length a) (suc d) p.0 p.1
            (Reach-at a b _ _ _ _ _ (sym x) (sym y) (right d _ _ r)),
        slide-OnDiagonal (suc d) i p.0 p.1 (omega (arith, o, x, y, k)),
      )

  pub furthest-Place : (d i : ℕ) → i ≤ d → Place d i
  unfolding furthest
  furthest-Place zero i h =
      (slide-Reach a b (length a) 0 0 0 start, slide-OnDiagonal 0 i 0 0 (omega (arith, h)))
  furthest-Place (suc d) i h =
      entered-Place d i (furthest-Place d) (entered d i h (λ j k. (furthest-Place d j k).1))

  pub origin : (d i : ℕ) → i ≤ suc d → Entered d i
  origin d i h = entered d i h (λ j k. (furthest-Place d j k).1)

  entry-le : (d i : ℕ) → (entry (suc d) i).0 ≤ (furthest (suc d) i).0
  unfolding furthest
  entry-le d i =
      let p = entry (suc d) i in
      let (n, q, _, _) = slide_run a b (length a) p.0 p.1 in omega (arith, q)

  furthest_stops : (d i : ℕ) → matches a b (furthest d i).0 (furthest d i).1 ≡ false
  unfolding furthest
  furthest_stops zero i = slide_stops a b (length a) 0 0 (omega arith)
  furthest_stops (suc d) i =
      let p = entry (suc d) i in slide_stops a b (length a) p.0 p.1 (omega arith)

  goes_on :
      (d i x y : ℕ)
      → OnDiagonal d i (furthest d i)
      → x + d ≡ y + 2 * i
      → x ≤ (furthest d i).0
      → matches a b x y ≡ true
      → suc x ≤ (furthest d i).0
  goes_on d i x y o p le e = elim (Bool-cases (x == (furthest d i).0)) [
    | inl same ↦
        let h : x ≡ (furthest d i).0 = ground (arith, same) in
        let k : y ≡ (furthest d i).1 = omega (arith, h, o, p) in
        let hit = matches_at a b x y _ _ h k e in let stop = furthest_stops d i in cc
    | inr other' ↦ ground (arith, other', le)
  ]

  -- No place that d edits reach on the diagonal lies further.
  pub Reach-furthest :
      (d x y : ℕ)
      → Reach a b d x y
      → (i : ℕ) × (i ≤ d) × (x + d ≡ y + 2 * i) × (x ≤ (furthest d i).0)
  Reach-furthest d x y start = (0, omega arith, omega arith, omega arith)
  Reach-furthest _ _ _ (right d x y r) =
      let (i, le, o, f) = Reach-furthest d x y r in
      let pred : suc i - 1 ≡ i = omega arith in
      let same = ap (λ k. (furthest d k).0) pred in
      (
        suc i,
        omega (arith, le),
        omega (arith, o),
        omega (
          arith,
          f,
          same,
          enter_x_after (suc d) i (furthest d (suc i - 1)).0 (furthest d (suc i)).0,
          entry-le d (suc i),
        ),
      )
  Reach-furthest _ _ _ (down d x y r) =
      let (i, le, o, f) = Reach-furthest d x y r in
      (
        i,
        omega (arith, le),
        omega (arith, o),
        omega
            (arith, f, enter_x_before d i (furthest d (i - 1)).0 (furthest d i).0 le, entry-le d i),
      )
  Reach-furthest _ _ _ (along d x y e r) =
      let (i, le, o, f) = Reach-furthest d x y r in
      (i, le, omega (arith, o), goes_on d i x y (furthest-Place d i le).1 o f e)
