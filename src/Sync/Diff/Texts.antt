-- ===== src/Sync/Diff/Texts.antt =====
-- The diff as a whole keeps both texts (conflicts.ts, `myersDiff` and `computeDiff`).
use mathlib.Core.Path.{subst}
use kontexta.Sync.Conflicts.{or_else}
use kontexta.Base.{
  ℕ, zero, suc, ◌+◌, ◌-◌, ◌≤◌, ◌<◌, String, ◌≡◌, refl, sym, ap, ◌∙◌, inl, inr, Bool, true, ◌&&◌,
  Option, none, some, List, [], ◌∷◌, ◌++◌, map, append-nil, arith, eq_iff, ltb, ◌==◌, Bool-cases,
  length, count_rows, get_elem?, nat_eq, string_eq,
}
use kontexta.Sync.Diff.{
  DiffOp, drop, take, matches, slide, myers_edits, trim_end, replaced, myers_diff, lines_of,
  is_insert, is_delete, compute_diff, equal, delete, insert,
}
use kontexta.Sync.Diff.Graph.{matches_line, matches_in, matches_at, slide_run}
use kontexta.Sync.Diff.Script.{old_lines, new_lines}
use kontexta.Sync.Diff.Shortest.{drop_all, Diffed, myers_edits-Diffed}

old_lines-append : (xs ys : List DiffOp) → old_lines (xs ++ ys) ≡ old_lines xs ++ old_lines ys
unfolding old_lines
old_lines-append [] ys = refl
old_lines-append (equal l ∷ xs) ys = ap (λ ls. l ∷ ls) (old_lines-append xs ys)
old_lines-append (delete l ∷ xs) ys = ap (λ ls. l ∷ ls) (old_lines-append xs ys)
old_lines-append (insert l ∷ xs) ys = old_lines-append xs ys

new_lines-append : (xs ys : List DiffOp) → new_lines (xs ++ ys) ≡ new_lines xs ++ new_lines ys
unfolding new_lines
new_lines-append [] ys = refl
new_lines-append (equal l ∷ xs) ys = ap (λ ls. l ∷ ls) (new_lines-append xs ys)
new_lines-append (insert l ∷ xs) ys = ap (λ ls. l ∷ ls) (new_lines-append xs ys)
new_lines-append (delete l ∷ xs) ys = new_lines-append xs ys

lines-equal : (ls : List String) → (old_lines (map equal ls) ≡ ls) × (new_lines (map equal ls) ≡ ls)
unfolding old_lines new_lines
lines-equal [] = (refl, refl)
lines-equal (l ∷ ls) = let (p, q) = lines-equal ls in (cc, cc)

lines-delete :
    (ls : List String) → (old_lines (map delete ls) ≡ ls) × (new_lines (map delete ls) ≡ [])
unfolding old_lines new_lines
lines-delete [] = (refl, refl)
lines-delete (l ∷ ls) = let (p, q) = lines-delete ls in (cc, q)

lines-insert :
    (ls : List String) → (old_lines (map insert ls) ≡ []) × (new_lines (map insert ls) ≡ ls)
unfolding old_lines new_lines
lines-insert [] = (refl, refl)
lines-insert (l ∷ ls) = let (p, q) = lines-insert ls in (p, cc)

Keeps : List String → List String → List DiffOp → Type 0
Keeps a b ops = (old_lines ops ≡ a) × (new_lines ops ≡ b)

Keeps-append :
    (a b a' b' : List String) (xs ys : List DiffOp)
    → Keeps a b xs
    → Keeps a' b' ys
    → Keeps (a ++ a') (b ++ b') (xs ++ ys)
unfolding Keeps
Keeps-append a b a' b' xs ys (p, q) (r, s) =
    (rw (old_lines-append xs ys, p, r) refl, rw (new_lines-append xs ys, q, s) refl)

replaced-Keeps : (a b : List String) → Keeps a b (replaced a b)
unfolding Keeps replaced
replaced-Keeps a b =
    let (p, q) = lines-delete a in
    let (r, s) = lines-insert b in
    (
      rw (old_lines-append (map delete a) (map insert b), p, r) (append-nil a),
      rw (new_lines-append (map delete a) (map insert b), q, s) refl,
    )

middle-Keeps :
    (a b : List String) (r : Option (List DiffOp))
    → Diffed a b r
    → Keeps a b (or_else r (replaced a b))
unfolding Diffed or_else Keeps
middle-Keeps a b none h = replaced-Keeps a b
middle-Keeps a b (some ops) (p, q, _) = (p, q)

take-drop : (n : ℕ) (a : List String) → take n a ++ drop n a ≡ a
take-drop zero a = refl
take-drop (suc n) [] = refl
take-drop (suc n) (x ∷ xs) = ap (λ ls. x ∷ ls) (take-drop n xs)

take-nil : (n : ℕ) → take {A = String} n [] ≡ []
take-nil zero = refl
take-nil (suc n) = refl

-- The lines of a list before, between and behind two indices.
parts : (a : List String) (s e : ℕ) → s ≤ e → take s a ++ (take (e - s) (drop s a) ++ drop e a) ≡ a
parts a zero e h =
    let same : e - 0 ≡ e = omega arith in ap (λ n. take n a ++ drop e a) same ∙ take-drop e a
parts a (suc s) zero h = let bad : ⊥ = omega (arith, h) in elim bad [ ]
parts [] (suc s) (suc e) h = append-nil _ ∙ take-nil (suc e - suc s)
parts (x ∷ xs) (suc s) (suc e) h =
    let same : suc e - suc s ≡ e - s = omega arith in
    ap (λ ls. x ∷ ls)
      (ap (λ n. take s xs ++ (take n (drop s xs) ++ drop e xs)) same
        ∙ parts xs s e (omega (arith, h)))

drop_at :
    (a : List String) (x : ℕ) (l : String) → get_elem? x a ≡ some l → drop x a ≡ l ∷ drop (suc x) a
drop_at [] x l h = cc
drop_at (k ∷ ks) zero l h = cc
drop_at (k ∷ ks) (suc x) l h = drop_at ks x l h

module _ (a b : List String) where
  -- Matching lines from two places on are the same lines.
  drop_same :
      (x y : ℕ) → matches a b x y ≡ true → drop (suc x) a ≡ drop (suc y) b → drop x a ≡ drop y b
  drop_same x y m h =
      let (l, p, q) = matches_line a b x y m in
      drop_at a x l p ∙ ap (λ ls. l ∷ ls) h ∙ sym (drop_at b y l q)

  trim_end_keeps :
      (s x y : ℕ)
      → s ≤ x
      → s ≤ y
      → drop x a ≡ drop y b
      → let p = trim_end a b s x y in (s ≤ p.0) × (s ≤ p.1) × (drop p.0 a ≡ drop p.1 b)
  unfolding trim_end
  trim_end_keeps s zero y le le' h = (le, le', h)
  trim_end_keeps s (suc x) y le le' h = elim (Bool-cases c) [
    | inl e ↦
        let m : matches a b x (y - 1) ≡ true = ground (arith, e) in
        let low : s < suc x = ground (arith, e) in
        let low' : s < y = ground (arith, e) in
        let one : y ≡ suc (y - 1) = omega (arith, low') in
        rw e (
          trim_end_keeps s x (y - 1) (omega (arith, low)) (omega (arith, low'))
            (drop_same x (y - 1) m (h ∙ ap (λ n. drop n b) one)))
    | inr e ↦ rw e (le, le', h)
  ]
    where
      c : Bool
      c = (ltb s (suc x) && ltb s y) && matches a b x (y - 1)

  take_same :
      (n x y : ℕ)
      → ((u : ℕ) → u < n → matches a b (x + u) (y + u) ≡ true)
      → take n (drop x a) ≡ take n (drop y b)
  take_same zero x y m = refl
  take_same (suc n) x y m =
      let hit =
        matches_at a b (x + 0) (y + 0) x y (omega arith) (omega arith) (m 0 (omega arith)) in
      let (l, p, q) = matches_line a b x y hit in
      let next =
        take_same n (suc x) (suc y) (λ u lt.
          matches_at a b _ _ _ _ (shift x u) (shift y u) (m (suc u) (omega (arith, lt)))) in
      ap (take (suc n)) (drop_at a x l p)
      ∙ ap (λ ls. l ∷ ls) next
      ∙ sym (ap (take (suc n)) (drop_at b y l q))
    where
      shift : (z u : ℕ) → z + suc u ≡ suc z + u
      shift z u = omega arith

  run_in :
      (n : ℕ)
      → ((u : ℕ) → u < n → matches a b (0 + u) (0 + u) ≡ true)
      → (n ≤ length a) × (n ≤ length b)
  run_in zero m = (omega arith, omega arith)
  run_in (suc n) m =
      let (p, q) = matches_in a b (0 + n) (0 + n) (m n (omega arith)) in
      (omega (arith, p), omega (arith, q))

  shared : ℕ
  shared = (slide a b (length a) 0 0).0

  shared_keeps : (shared ≤ length a) × (shared ≤ length b) × (take shared a ≡ take shared b)
  unfolding shared
  shared_keeps =
      let (n, p, q, m) = slide_run a b (length a) 0 0 in
      let same : n ≡ (slide a b (length a) 0 0).0 = omega (arith, p) in
      let (le, le') = run_in n m in
      subst (λ k. (k ≤ length a) × (k ≤ length b) × (take k a ≡ take k b)) same
        (le, le', take_same n 0 0 m)

-- The kept lines and the deleted ones are the old text, and the kept lines and the inserted ones are
-- the new text, in their order, for every two lists of lines.
pub myers_diff_texts :
    (a b : List String) → (old_lines (myers_diff a b) ≡ a) × (new_lines (myers_diff a b) ≡ b)
unfolding myers_diff shared Keeps
myers_diff_texts a b =
    let s = shared a b in
    let (le, le', same) = shared_keeps a b in
    let ends = trim_end a b s (length a) (length b) in
    let (lx, ly, rest) =
      trim_end_keeps a b s (length a) (length b) le le' (drop_all a ∙ sym (drop_all b)) in
    let mid_a = take (ends.0 - s) (drop s a) in
    let mid_b = take (ends.1 - s) (drop s b) in
    let mid = middle-Keeps mid_a mid_b (myers_edits mid_a mid_b) (myers_edits-Diffed mid_a mid_b) in
    let all =
      Keeps-append _ _ _ _ _ _ (lines-equal (take s a))
        (Keeps-append _ _ _ _ _ _ mid (lines-equal (drop ends.0 a))) in
    (
      all.0 ∙ parts a s ends.0 lx,
      all.1
          ∙ (ap (λ ls. ls ++ (mid_b ++ drop ends.0 a)) same
              ∙ (ap (λ ls. take s b ++ (mid_b ++ ls)) rest ∙ parts b s ends.1 ly)),
    )

count-insert :
    (ops : List DiffOp)
    → length (old_lines ops) + count_rows is_insert ops
      ≡ length (new_lines ops) + count_rows is_delete ops
unfolding old_lines new_lines
count-insert [] = refl
count-insert (equal l ∷ ops) = omega (arith, count-insert ops)
count-insert (delete l ∷ ops) = omega (arith, count-insert ops)
count-insert (insert l ∷ ops) = omega (arith, count-insert ops)

-- The two counts that come with a diff fit the two texts: the lines of the local text and the additions
-- are as many as the lines of the remote text and the deletions.
pub compute_diff_balances :
    (local_content remote_content : String) (local_label remote_label : Option String)
    → let d = compute_diff local_content remote_content local_label remote_label in
      length (lines_of local_content) + d.additions ≡ length (lines_of remote_content) + d.deletions
unfolding compute_diff
compute_diff_balances l r p q =
    let (h, k) = myers_diff_texts (lines_of l) (lines_of r) in
    let n = count-insert (myers_diff (lines_of l) (lines_of r)) in
    elim (Bool-cases (l == r)) [
      | inl e ↦ let same : l ≡ r = (eq_iff l r).0 e in rw e (ap (λ t. length (lines_of t) + 0) same)
      | inr e ↦ rw e (omega (arith, n, ap length h, ap length k))
    ]
