-- ===== src/Sync/Diff/Backtrack.antt =====
-- The way back from the end of both lists gives a script from the one to the other
-- (conflicts.ts, `myersEdits`).
use mathlib.Core.Path.{subst}
use kontexta.Base.{
  ℕ, suc, ◌+◌, ◌-◌, ◌*◌, ◌≤◌, ◌<◌, String, ◌≡◌, refl, sym, ap, ◌∙◌, inl, inr, Bool, true, false,
  List, [], ◌∷◌, arith, ◌==◌, length, nat_eq, string_eq,
}
use kontexta.Sync.Diff.{
  DiffOp, line_at, Cells, goes_down, matches, retreat, previous, edit_back, backtrack, delete,
  insert,
}
use kontexta.Sync.Diff.Graph.{slide_run}
use kontexta.Sync.Diff.Furthest.{
  furthest, entry, furthest-entry, by_insert, furthest-Place, origin, by_down, by_right,
}
use kontexta.Sync.Diff.Search.{Fed, AllFed}
use kontexta.Sync.Diff.Script.{Fits, Fits-insert, Fits-delete, Fits_at, retreat_run}

goes_down_same :
    (first last first' last' : Bool) (l r l' r' : ℕ)
    → first ≡ first'
    → last ≡ last'
    → (first' ≡ false → l ≡ l')
    → (last' ≡ false → r ≡ r')
    → goes_down first last l r ≡ goes_down first' last' l' r'
unfolding goes_down
goes_down_same first last first' last' l r l' r' p q h k = ground (arith, p, q, h, k)

module _ (a b : List String) where
  module _ (d i x y : ℕ) (row : Cells) (fed : Fed a b (suc d) row) (o : x + suc d ≡ y + 2 * i) where
    row_right : i ≤ d → row (x + suc d + 2 - y) ≡ (furthest a b d i).0
    unfolding Fed
    row_right le = let at : x + suc d + 2 - y ≡ 2 * i + 2 = omega (arith, o) in ap row at ∙ fed i le

    row_left : i ≤ suc d → 0 < i → row (x + suc d - y) ≡ (furthest a b d (i - 1)).0
    unfolding Fed
    row_left le p =
        let at : x + suc d - y ≡ 2 * (i - 1) + 2 = omega (arith, o, p) in
        ap row at ∙ fed (i - 1) (omega (arith, le))

    test_same :
        i ≤ suc d
        → goes_down
            (x + suc d == y)
            (x == y + suc d)
            (row (x + suc d - y))
            (row (x + suc d + 2 - y))
          ≡ by_insert a b d i
    test_same le =
        goes_down_same _ _ _ _ _ _ _ _ (ground (arith, o)) (ground (arith, o))
          (λ e. row_left le (ground (arith, e))) (λ e. row_right (ground (arith, e, le)))

    previous_down :
        i ≤ d
        → by_insert a b d i ≡ true
        → previous a b (suc d) row x y ≡ ((furthest a b d i).0, (furthest a b d i).0 + y - (x + 1))
    unfolding previous
    previous_down le e =
        rw (test_same (omega (arith, le)), e) (ap (λ r. (r, r + y - (x + 1))) (row_right le))

    previous_right :
        (j : ℕ)
        → i ≡ suc j
        → j ≤ d
        → by_insert a b d i ≡ false
        → previous a b (suc d) row x y ≡ ((furthest a b d j).0, (furthest a b d j).0 + y + 1 - x)
    unfolding previous
    previous_right j k le e =
        let pred : i - 1 ≡ j = omega (arith, k) in
        let l =
          row_left (omega (arith, k, le)) (omega (arith, k))
          ∙ ap (λ n. (furthest a b d n).0) pred in
        rw (test_same (omega (arith, k, le)), e) (ap (λ r. (r, r + y + 1 - x)) l)

  edit_insert :
      (d px s t : ℕ) (out : List DiffOp)
      → s ≡ px
      → edit_back a b (suc d) px (s, t, out) ≡ (s, t - 1, insert (line_at b (t - 1)) ∷ out)
  unfolding edit_back
  edit_insert d px s t out h = ground (arith, h)

  edit_delete :
      (d px s t : ℕ) (out : List DiffOp)
      → px < s
      → edit_back a b (suc d) px (s, t, out) ≡ (s - 1, t, delete (line_at a (s - 1)) ∷ out)
  unfolding edit_back
  edit_delete d px s t out h = ground (arith, h)

  furthest_run :
      (d i : ℕ)
      → let p = entry a b d i in
        (n : ℕ) × ((furthest a b d i).0 ≡ p.0 + n)
        × ((furthest a b d i).1 ≡ p.1 + n)
        × ((u : ℕ) → u < n → matches a b (p.0 + u) (p.1 + u) ≡ true)
  furthest_run d i =
      let p = entry a b d i in rw (furthest-entry a b d i) (slide_run a b (length a) p.0 p.1)

  abbrev one_step : ℕ → Cells → ℕ → ℕ → List DiffOp → ℕ × ℕ × List DiffOp
  one_step d row x y out =
      let (px, py) = previous a b d row x y in edit_back a b d px (retreat a b x y px py out)

  -- One turn of the loop leads to a place of the step before.
  record BackTo (d e : ℕ) (r : ℕ × ℕ × List DiffOp) : Type 0 where
    diagonal : ℕ
    in_row : diagonal ≤ d
    at_x : r.0 ≡ (furthest a b d diagonal).0
    at_y : r.1 ≡ (furthest a b d diagonal).1
    within_a : r.0 ≤ length a
    within_b : r.1 ≤ length b
    fits : Fits a b r.0 r.1 (suc e) r.2

  module _ (d i x y e : ℕ) (row : Cells) (out : List DiffOp) (fed : Fed a b (suc d) row)
      (o : x + suc d ≡ y + 2 * i) (bx : x ≤ length a) (by' : y ≤ length b) (f : Fits a b x y e out)
      (s t n : ℕ) (hx : x ≡ s + n) (hy : y ≡ t + n)
      (m : (u : ℕ) → u < n → matches a b (s + u) (t + u) ≡ true) where
    back_down :
        i ≤ d
        → by_insert a b d i ≡ true
        → s ≡ (furthest a b d i).0
        → t ≡ suc (furthest a b d i).1
        → BackTo d e (one_step (suc d) row x y out)
    back_down le c ex ey =
        let r = (furthest a b d i).0 in
        let prev = previous_down d i x y row fed o le c in
        let (out', back, g) =
          retreat_run a b n s t x y r (r + y - (x + 1)) e out hx hy m (omega (arith, ex))
            (omega (arith, ex, hx, hy)) (inl (sym ex)) f in
        let lt : t - 1 < length b = omega (arith, hy, by', ey) in
        let ft : t ≡ suc (t - 1) = omega (arith, ey) in
        rw (prev, back, edit_insert d r s t out' ex)
          (record {
            diagonal = i;
            in_row = le;
            at_x = ex;
            at_y = omega (arith, ey);
            within_a = omega (arith, hx, bx);
            within_b = omega (arith, lt);
            fits =
                Fits-insert a b s (t - 1) e out' lt (Fits_at a b _ _ _ _ _ _ out' refl ft refl g);
          })

    back_right :
        (j : ℕ)
        → i ≡ suc j
        → j ≤ d
        → by_insert a b d i ≡ false
        → s ≡ suc (furthest a b d j).0
        → t ≡ (furthest a b d j).1
        → BackTo d e (one_step (suc d) row x y out)
    back_right j k le c ex ey =
        let l = (furthest a b d j).0 in
        let prev = previous_right d i x y row fed o j k le c in
        let same : l + y + 1 - x ≡ t = omega (arith, ex, hx, hy) in
        let (out', back, g) =
          retreat_run a b n s t x y l (l + y + 1 - x) e out hx hy m (omega (arith, ex))
            (omega (arith, same)) (inr same) f in
        let lt : s - 1 < length a = omega (arith, hx, bx, ex) in
        let fs : s ≡ suc (s - 1) = omega (arith, ex) in
        rw (prev, back, edit_delete d l s t out' (omega (arith, ex)))
          (record {
            diagonal = j;
            in_row = le;
            at_x = omega (arith, ex);
            at_y = ey;
            within_a = omega (arith, lt);
            within_b = omega (arith, hy, by');
            fits =
                Fits-delete a b (s - 1) t e out' lt (Fits_at a b _ _ _ _ _ _ out' fs refl refl g);
          })

  back_first :
      (row : Cells) (i x y e : ℕ) (out : List DiffOp)
      → x ≡ (furthest a b 0 i).0
      → y ≡ (furthest a b 0 i).1
      → Fits a b x y e out
      → Fits a b 0 0 (0 + e) (backtrack a b (row ∷ []) x y out)
  unfolding backtrack previous edit_back
  back_first row i x y e out hx hy f =
      let (n, hn, kn, m) = furthest_run 0 i in
      let (out', back, g) =
        retreat_run a b n 0 0 x y 0 0 e out (hx ∙ hn) (hy ∙ kn) m (omega arith) (omega arith)
          (inl refl) f in
      let zero_e : e ≡ 0 + e = omega arith in
      subst (λ (r : ℕ × ℕ × List DiffOp). Fits a b 0 0 (0 + e) r.2) (sym back)
        (Fits_at a b _ _ _ _ _ _ out' refl refl zero_e g)

  pub backtrack-Fits :
      (row : Cells) (rows : List Cells) (i x y e : ℕ) (out : List DiffOp)
      → AllFed a b (row ∷ rows)
      → i ≤ length rows
      → x ≡ (furthest a b (length rows) i).0
      → y ≡ (furthest a b (length rows) i).1
      → x ≤ length a
      → y ≤ length b
      → Fits a b x y e out
      → Fits a b 0 0 (length rows + e) (backtrack a b (row ∷ rows) x y out)
  unfolding backtrack AllFed
  backtrack-Fits row [] i x y e out fed le hx hy bx by' f = back_first row i x y e out hx hy f
  backtrack-Fits row (row' ∷ rows) i x y e out fed le hx hy bx by' f =
      let d = length rows in
      let p = entry a b (suc d) i in
      let (n, hn, kn, m) = furthest_run (suc d) i in
      let o : x + suc d ≡ y + 2 * i = omega (arith, hx, hy, (furthest-Place a b (suc d) i le).1) in
      let back : BackTo d e (one_step (suc d) row x y out) = elim (origin a b d i le) [
        | by_down le' c ex ey ↦
            back_down d i x y e row out fed.0 o bx by' f p.0 p.1 n (hx ∙ hn) (hy ∙ kn) m le' c ex ey
        | by_right j k le' c ex ey ↦
            back_right d i x y e row out fed.0 o bx by' f p.0 p.1 n (hx ∙ hn) (hy ∙ kn) m j le' k c
              ex ey
      ] in
      let r = one_step (suc d) row x y out in
      let more : d + suc e ≡ suc d + e = omega arith in
      Fits_at a b _ _ _ _ _ _ (backtrack a b (row' ∷ rows) r.0 r.1 r.2) refl refl more (
        backtrack-Fits row' rows back.diagonal r.0 r.1 (suc e) r.2 fed.1 back.in_row back.at_x
          back.at_y back.within_a back.within_b back.fits)
