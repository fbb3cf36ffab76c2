-- ===== src/Sync/Diff/Shortest.antt =====
-- No script between the two lists has fewer edits (conflicts.ts, `myersEdits`).
use native.Mathlib.Decide.{dec_lt}
use mathlib.Core.Option
use mathlib.Core.Path.{subst}
use kontexta.Base.{
  ℕ, zero, suc, ◌+◌, ◌-◌, ◌≤◌, ◌<◌, min, String, ◌≡◌, refl, sym, ap, ◌∙◌, inl, inr, true, Option,
  none, some, List, [], ◌∷◌, arith, ◌==◌, Bool-cases, length, get_elem?, nat_eq, string_eq,
}
use kontexta.Sync.Diff.{
  DiffOp, max_edit_distance, drop, Cells, is_end, search_rows, backtrack, myers_edits, equal,
  delete, insert,
}
use kontexta.Sync.Diff.Graph.{
  Reach, matches_in, Reach-to, line-matches, matches_at, start, right, down, along,
}
use kontexta.Sync.Diff.Furthest.{furthest, furthest-Place, Reach-furthest}
use kontexta.Sync.Diff.Rows.{Open}
use kontexta.Sync.Diff.Search.{Before, AllFed, Ended, Searched, searched}
use kontexta.Sync.Diff.Script.{old_lines, new_lines, edits, Fits}
use kontexta.Sync.Diff.Backtrack.{backtrack-Fits}

drop_head :
    (a : List String) (x : ℕ) (l : String) (ls : List String)
    → drop x a ≡ l ∷ ls
    → (get_elem? x a ≡ some l) × (drop (suc x) a ≡ ls)
drop_head [] zero l ls h = cc
drop_head [] (suc x) l ls h = cc
drop_head (k ∷ ks) zero l ls h = (cc, cc)
drop_head (k ∷ ks) (suc x) l ls h = drop_head ks x l ls h

edits-le : (ops : List DiffOp) → edits ops ≤ length (old_lines ops) + length (new_lines ops)
unfolding edits old_lines new_lines
edits-le [] = omega arith
edits-le (equal l ∷ ops) = omega (arith, edits-le ops)
edits-le (delete l ∷ ops) = omega (arith, edits-le ops)
edits-le (insert l ∷ ops) = omega (arith, edits-le ops)

pub drop_all : (a : List String) → drop (length a) a ≡ []
drop_all [] = refl
drop_all (l ∷ ls) = drop_all ls

empty_list : (a : List String) → length a ≡ 0 → [] ≡ a
empty_list [] h = refl
empty_list (l ∷ ls) h = let bad : ⊥ = omega (arith, h) in elim bad [ ]

module _ (a b : List String) where
  -- A script is a way through the edit graph.
  script-Reach :
      (ops : List DiffOp) (d x y : ℕ)
      → drop x a ≡ old_lines ops
      → drop y b ≡ new_lines ops
      → Reach a b d x y
      → Reach a b (d + edits ops) (x + length (old_lines ops)) (y + length (new_lines ops))
  unfolding edits old_lines new_lines
  script-Reach [] d x y h k r = Reach-to a b _ _ _ _ _ _ (omega arith) (omega arith) (omega arith) r
  script-Reach (equal l ∷ ops) d x y h k r =
      let (p, q) = drop_head a x l (old_lines ops) h in
      let (p', q') = drop_head b y l (new_lines ops) k in
      Reach-to a b _ _ _ _ _ _ (omega arith) (omega arith) (omega arith)
        (script-Reach ops d (suc x) (suc y) q q' (along d x y (line-matches a b x y l p p') r))
  script-Reach (delete l ∷ ops) d x y h k r =
      let (p, q) = drop_head a x l (old_lines ops) h in
      Reach-to a b _ _ _ _ _ _ (omega arith) (omega arith) (omega arith)
        (script-Reach ops (suc d) (suc x) y q k (right d x y r))
  script-Reach (insert l ∷ ops) d x y h k r =
      let (p, q) = drop_head b y l (new_lines ops) k in
      Reach-to a b _ _ _ _ _ _ (omega arith) (omega arith) (omega arith)
        (script-Reach ops (suc d) x (suc y) h q (down d x y r))

  -- A way that leaves the grid could have been shorter within it.
  clip :
      (d x y : ℕ)
      → Reach a b d x y
      → (e : ℕ) × Reach a b e (min x (length a)) (min y (length b))
        × (e + (x - length a) + (y - length b) ≤ d)
  clip _ _ _ start =
      (0, Reach-to a b _ _ _ _ _ _ refl (omega arith) (omega arith) start, omega arith)
  clip _ _ _ (right d x y r) =
      let (e, q, le) = clip d x y r in
      elim (dec_lt x (length a)) [
        | yes lt ↦ (
          suc e,
          Reach-to a b _ _ _ _ _ _ refl (omega (arith, lt)) refl (right e _ _ q),
          omega (arith, le, lt),
        )
        | no ge ↦
            (e, Reach-to a b _ _ _ _ _ _ refl (omega (arith, ge)) refl q, omega (arith, le, ge))
      ]
  clip _ _ _ (down d x y r) =
      let (e, q, le) = clip d x y r in
      elim (dec_lt y (length b)) [
        | yes lt ↦ (
          suc e,
          Reach-to a b _ _ _ _ _ _ refl refl (omega (arith, lt)) (down e _ _ q),
          omega (arith, le, lt),
        )
        | no ge ↦
            (e, Reach-to a b _ _ _ _ _ _ refl refl (omega (arith, ge)) q, omega (arith, le, ge))
      ]
  clip _ _ _ (along d x y m r) =
      let (e, q, le) = clip d x y r in
      let (p, p') = matches_in a b x y m in
      let hx : x ≡ min x (length a) = omega (arith, p) in
      let hy : y ≡ min y (length b) = omega (arith, p') in
      let hit = matches_at a b x y (min x (length a)) (min y (length b)) hx hy m in
      (
        e,
        Reach-to a b _ _ _ _ _ _ refl (omega (arith, p)) (omega (arith, p')) (along e _ _ hit q),
        omega (arith, le, p, p'),
      )

  Reach-ends :
      (e : ℕ)
      → Reach a b e (length a) (length b)
      → (i : ℕ) × (i ≤ e) × (is_end a b (furthest a b e i) ≡ true)
  unfolding is_end
  Reach-ends e r =
      let (i, le, o, f) = Reach-furthest a b e (length a) (length b) r in
      let (_, o') = furthest-Place a b e i le in (i, le, ground (arith, f, o, o'))

  -- What a search gives: a shortest script, or none where every script is too long.
  unfoldable pub Diffed : Option (List DiffOp) → Type 0
  Diffed none =
      (other' : List DiffOp)
      → old_lines other' ≡ a
      → new_lines other' ≡ b
      → max_edit_distance < edits other'
  Diffed (some ops) =
      (old_lines ops ≡ a)
      × (new_lines ops ≡ b)
      × ((other' : List DiffOp)
          → old_lines other' ≡ a
          → new_lines other' ≡ b
          → edits ops ≤ edits other')

  other_Reach :
      (ops : List DiffOp)
      → old_lines ops ≡ a
      → new_lines ops ≡ b
      → Reach a b (edits ops) (length a) (length b)
  other_Reach ops h k =
      let hx : 0 + length (old_lines ops) ≡ length a = omega (arith, ap length h) in
      let hy : 0 + length (new_lines ops) ≡ length b = omega (arith, ap length k) in
      Reach-to a b _ _ _ _ _ _ (omega arith) hx hy (script-Reach ops 0 0 0 (sym h) (sym k) start)

  -- The end is not reached within steps that are open.
  not_before :
      (n : ℕ)
      → ((e : ℕ) → e < n → Open a b e (suc e))
      → (e : ℕ) → Reach a b e (length a) (length b)
      → n ≤ e
  not_before n f e r = elim (dec_lt e n) [
    | yes lt ↦ let (i, le, q) = Reach-ends e r in let q' = f e lt i (omega (arith, le)) in cc
    | no ge ↦ omega (arith, ge)
  ]

  Ended-there :
      (trace : List Cells) (t : Ended a b trace)
      → let p = furthest a b t.steps t.diagonal in (p.0 ≡ length a) × (p.1 ≡ length b)
  unfolding is_end
  Ended-there trace t =
      let p = furthest a b t.steps t.diagonal in
      let (r, _) = furthest-Place a b t.steps t.diagonal t.in_row in
      let (e, q, le) = clip t.steps p.0 p.1 r in
      let past : (length a ≤ p.0) × (length b ≤ p.1) = ground (arith, t.ends) in
      let hx : min p.0 (length a) ≡ length a = omega (arith, past.0) in
      let hy : min p.1 (length b) ≡ length b = omega (arith, past.1) in
      let last = not_before t.steps t.none_before e (Reach-to a b _ _ _ _ _ _ refl hx hy q) in
      (omega (arith, le, last, past.0), omega (arith, le, last, past.1))

  Fits-end : Fits a b (length a) (length b) 0 []
  unfolding Fits old_lines new_lines edits
  Fits-end = (sym (drop_all a), sym (drop_all b), refl)

  Ended-Diffed :
      (trace : List Cells)
      → Ended a b trace
      → Diffed (some (backtrack a b trace (length a) (length b) []))
  unfolding Diffed Fits
  Ended-Diffed [] t = let bad : ⊥ = omega (arith, t.counted) in elim bad [ ]
  Ended-Diffed (row ∷ rows) t =
      let (hx, hy) = Ended-there (row ∷ rows) t in
      let same : t.steps ≡ length rows = omega (arith, t.counted) in
      let at_x = ap (λ d. (furthest a b d t.diagonal).0) same in
      let at_y = ap (λ d. (furthest a b d t.diagonal).1) same in
      let (p, q, n) =
        backtrack-Fits a b row rows t.diagonal (length a) (length b) 0 [] t.rows_fed
          (omega (arith, same, t.in_row)) (sym hx ∙ at_x) (sym hy ∙ at_y) (omega arith)
          (omega arith) Fits-end in
      (
        p,
        q,
        λ other' h k. omega (
          arith,
          n,
          same,
          not_before t.steps t.none_before (edits other') (other_Reach other' h k),
        ),
      )

  none-Diffed : Searched a b (min (length a + length b) max_edit_distance + 1) none → Diffed none
  unfolding Diffed Searched
  none-Diffed f other' h k =
      let n = min (length a + length b) max_edit_distance + 1 in
      omega (
        arith,
        not_before n f (edits other') (other_Reach other' h k),
        edits-le other',
        ap length h,
        ap length k,
      )

  Searched-Diffed :
      (r : Option (List Cells))
      → Searched a b (min (length a + length b) max_edit_distance + 1) r
      → Diffed (Option.map (λ trace. backtrack a b trace (length a) (length b) []) r)
  unfolding Searched
  Searched-Diffed none h = none-Diffed h
  Searched-Diffed (some trace) h = Ended-Diffed trace h

  empty-Diffed : length a + length b ≡ 0 → Diffed (some [])
  unfolding Diffed old_lines new_lines edits
  empty-Diffed h =
      (empty_list a (omega (arith, h)), empty_list b (omega (arith, h)), λ other' p q. omega arith)

  pub myers_edits-Diffed : Diffed (myers_edits a b)
  unfolding myers_edits Before AllFed
  myers_edits-Diffed = elim (Bool-cases (length a + length b == 0)) [
    | inl e ↦ rw e (empty-Diffed (ground (arith, e)))
    | inr e ↦
        let o = min (length a + length b) max_edit_distance + 1 in
        let found =
          searched a b o o 0 (λ _. 0) [] (omega arith) (λ j. refl) tt refl
            (λ k bad. elim bad [ ]) in
        let same : o + 0 ≡ o = omega arith in
        rw e (
          Searched-Diffed _
            (subst (λ n. Searched a b n (search_rows a b o o 0 (λ _. 0) [])) same found))
  ]

-- What the search makes of two texts between which there is a script with n edits.
pub Shortest : List String → List String → ℕ → Option (List DiffOp) → Type 0
Shortest a b n none = max_edit_distance < n
Shortest a b n (some ops) = (old_lines ops ≡ a) × (new_lines ops ≡ b) × (edits ops ≤ n)

Diffed-Shortest :
    (a b : List String) (other' : List DiffOp) (r : Option (List DiffOp))
    → old_lines other' ≡ a
    → new_lines other' ≡ b
    → Diffed a b r
    → Shortest a b (edits other') r
unfolding Shortest Diffed
Diffed-Shortest a b other' none h k f = f other' h k
Diffed-Shortest a b other' (some ops) h k (p, q, f) = (p, q, f other' h k)

-- The search gives a script that turns the one list of lines into the other, with no more edits than any
-- other script between them; where it gives none, every script has more edits than the ceiling.
pub myers_edits-Shortest :
    (a b : List String) (other' : List DiffOp)
    → old_lines other' ≡ a
    → new_lines other' ≡ b
    → Shortest a b (edits other') (myers_edits a b)
myers_edits-Shortest a b other' h k =
    Diffed-Shortest a b other' (myers_edits a b) h k (myers_edits-Diffed a b)
