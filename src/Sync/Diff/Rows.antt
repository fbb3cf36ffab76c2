-- ===== src/Sync/Diff/Rows.antt =====
-- The cells of `v` hold the furthest places (conflicts.ts, `myersEdits`).
use kontexta.Base.{
  ℕ, zero, suc, ◌+◌, ◌-◌, ◌*◌, ◌≤◌, ◌<◌, String, ◌≡◌, sym, ap, ◌∙◌, ◌≢◌, inl, inr, Bool, true,
  false, List, arith, ◌==◌, Bool-cases, length, nat_eq, string_eq,
}
use kontexta.Sync.Diff.{Cells, write_cell, goes_down, enter_x, slide, is_end, place, fill_row}
use kontexta.Sync.Diff.Furthest.{furthest}

write_cell_there : (j x : ℕ) (v : Cells) (i : ℕ) → i ≡ j → write_cell j x v i ≡ x
unfolding write_cell
write_cell_there j x v i h = ground (arith, h)

write_cell_apart : (j x : ℕ) (v : Cells) (i : ℕ) → i ≢ j → write_cell j x v i ≡ v i
unfolding write_cell
write_cell_apart j x v i h = ground (arith, h)

enter_x_same :
    (d i l r l' r' : ℕ)
    → (0 < i → l ≡ l')
    → (i < d → r ≡ r')
    → i ≤ d
    → 0 < d
    → enter_x d i l r ≡ enter_x d i l' r'
unfolding enter_x goes_down
enter_x_same d zero l r l' r' h k le p = ground (arith, h, k, le, p)
enter_x_same d (suc i) l r l' r' h k le p = ground (arith, h, k, le, p)

module _ (a b : List String) where
  -- No diagonal of step d below i reaches the end.
  abbrev pub Open : ℕ → ℕ → Type 0
  Open d i = (k : ℕ) → k < i → is_end a b (furthest a b d k) ≡ false

  Open-suc : (d i : ℕ) → Open d i → is_end a b (furthest a b d i) ≡ false → Open d (suc i)
  Open-suc d i h e k le = elim (Bool-cases (k == i)) [
    | inl q ↦
        let same : k ≡ i = ground (arith, q) in ap (λ n. is_end a b (furthest a b d n)) same ∙ e
    | inr q ↦ h k (ground (arith, q, le))
  ]

module _ (a b : List String) (o : ℕ) where
  -- After step d.
  abbrev pub Holds : ℕ → Cells → Type 0
  Holds d v = (i : ℕ) → i ≤ d → v (o + 2 * i - d) ≡ (furthest a b d i).0

  place-furthest :
      (d i : ℕ) (v : Cells)
      → suc d < o
      → i ≤ suc d
      → Holds d v
      → place a b o (suc d) i v ≡ furthest a b (suc d) i
  unfolding place furthest
  place-furthest d i v lt le h = ap (λ x. slide a b (length a) x (x + suc d - 2 * i)) same_x
    where
      left : 0 < i → v (o + 2 * i - suc d - 1) ≡ (furthest a b d (i - 1)).0
      left p =
          let at : o + 2 * i - suc d - 1 ≡ o + 2 * (i - 1) - d = omega (arith, p, lt) in
          ap v at ∙ h (i - 1) (omega (arith, le))

      above : i < suc d → v (o + 2 * i - suc d + 1) ≡ (furthest a b d i).0
      above p =
          let at : o + 2 * i - suc d + 1 ≡ o + 2 * i - d = omega (arith, p, lt) in
          ap v at ∙ h i (omega (arith, p))

      same_x :
          enter_x (suc d) i (v (o + 2 * i - suc d - 1)) (v (o + 2 * i - suc d + 1))
          ≡ enter_x (suc d) i (furthest a b d (i - 1)).0 (furthest a b d i).0
      same_x = enter_x_same (suc d) i _ _ _ _ left above le (omega arith)

  write-Holds :
      (d i x : ℕ) (v : Cells) → suc d < o → Holds d v → Holds d (write_cell (o + 2 * i - suc d) x v)
  write-Holds d i x v lt h k le = write_cell_apart _ x v _ (λ e. omega (arith, e, lt)) ∙ h k le

  -- Within step d, with the first i diagonals done.
  abbrev Written : ℕ → ℕ → Cells → Type 0
  Written d i v = (k : ℕ) → k < i → v (o + 2 * k - d) ≡ (furthest a b d k).0

  write-Written :
      (d i : ℕ) (v : Cells)
      → d < o
      → Written d i v
      → Written d (suc i) (write_cell (o + 2 * i - d) (furthest a b d i).0 v)
  write-Written d i v lt h k le = elim (Bool-cases (k == i)) [
    | inl e ↦
        let same : k ≡ i = ground (arith, e) in
        let at : o + 2 * k - d ≡ o + 2 * i - d = ap (λ n. o + 2 * n - d) same in
        write_cell_there _ _ v _ at ∙ ap (λ n. (furthest a b d n).0) (sym same)
    | inr e ↦
        let before : k < i = ground (arith, e, le) in
        write_cell_apart _ _ v _ (λ e'. omega (arith, e', before, lt)) ∙ h k before
  ]

  unfoldable pub Filled : ℕ → Bool × Cells → Type 0
  Filled d (true, v) = (i : ℕ) × (i ≤ d) × (is_end a b (furthest a b d i) ≡ true)
  Filled d (false, v) = Holds d v × Open a b d (suc d)

  pub fill_row-Filled :
      (d count i : ℕ) (v : Cells)
      → suc d < o
      → count + i ≡ suc (suc d)
      → Holds d v
      → Written (suc d) i v
      → Open a b (suc d) i
      → Filled (suc d) (fill_row a b o (suc d) count i v)
  unfolding fill_row Filled
  fill_row-Filled d zero i v lt n h w f =
      (λ k le. w k (omega (arith, le, n)), λ k le. f k (omega (arith, le, n)))
  fill_row-Filled d (suc count) i v lt n h w f =
      let le : i ≤ suc d = omega (arith, n) in
      let p = furthest a b (suc d) i in
      rw (place-furthest d i v lt le h) (elim (Bool-cases (is_end a b p)) [
        | inl e ↦ rw e (i, le, e)
        | inr e ↦ rw e (
            fill_row-Filled d count (suc i) (write_cell (o + 2 * i - suc d) p.0 v) lt
              (omega (arith, n)) (write-Holds d i p.0 v lt h) (write-Written (suc d) i v lt w)
              (Open-suc a b (suc d) i f e))
      ])

  place_first : (v : Cells) → ((j : ℕ) → v j ≡ 0) → place a b o 0 0 v ≡ furthest a b 0 0
  unfolding place furthest enter_x goes_down
  place_first v z = ap (λ x. slide a b (length a) x (x + 0 - 2 * 0)) (z _)

  write_first : (v : Cells) → Holds 0 (write_cell (o + 2 * 0 - 0) (furthest a b 0 0).0 v)
  unfolding furthest
  write_first v k le =
      write_cell_there (o + 2 * 0 - 0) (furthest a b 0 0).0 v (o + 2 * k - 0) (omega (arith, le))

  Open-first : is_end a b (furthest a b 0 0) ≡ false → Open a b 0 1
  unfolding furthest
  Open-first e k le = e

  -- Step 0 has one diagonal.
  pub fill_first : (v : Cells) → ((j : ℕ) → v j ≡ 0) → Filled 0 (fill_row a b o 0 1 0 v)
  unfolding fill_row Filled
  fill_first v z = rw (place_first v z) (elim (Bool-cases (is_end a b (furthest a b 0 0))) [
    | inl e ↦ rw e (0, omega arith, e)
    | inr e ↦ rw e (write_first v, Open-first e)
  ])
