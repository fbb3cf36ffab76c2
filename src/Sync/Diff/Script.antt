-- ===== src/Sync/Diff/Script.antt =====
-- Scripts of edits, and the loop back along matching lines (conflicts.ts, `myersEdits`).
use mathlib.Core.Path.{subst}
use kontexta.Base.{
  ℕ, zero, suc, ◌+◌, ◌-◌, ◌≤◌, ◌<◌, String, ◌≡◌, refl, sym, ap, ◌∙◌, ◌⊎◌, true, false, ◌&&◌, some,
  List, [], ◌∷◌, arith, ltb, length, get_elem?,
}
use kontexta.Sync.Conflicts.{or_else}
use kontexta.Sync.Diff.{DiffOp, drop, line_at, matches, retreat, equal, delete, insert}
use kontexta.Sync.Diff.Graph.{matches_line, matches_in, matches_at}

-- The two texts that a script stands for, and the number of its edits.
unfoldable pub old_lines : List DiffOp → List String
old_lines [] = []
old_lines (equal l ∷ ops) = l ∷ old_lines ops
old_lines (delete l ∷ ops) = l ∷ old_lines ops
old_lines (insert l ∷ ops) = old_lines ops

unfoldable pub new_lines : List DiffOp → List String
new_lines [] = []
new_lines (equal l ∷ ops) = l ∷ new_lines ops
new_lines (delete l ∷ ops) = new_lines ops
new_lines (insert l ∷ ops) = l ∷ new_lines ops

unfoldable pub edits : List DiffOp → ℕ
edits [] = 0
edits (equal l ∷ ops) = edits ops
edits (delete l ∷ ops) = suc (edits ops)
edits (insert l ∷ ops) = suc (edits ops)

pub drop_line : (a : List String) (i : ℕ) → i < length a → drop i a ≡ line_at a i ∷ drop (suc i) a
unfolding line_at or_else
drop_line [] i h = elim h [ ]
drop_line (l ∷ ls) zero h = refl
drop_line (l ∷ ls) (suc i) h = drop_line ls i (omega (arith, h))

line_at-some : (a : List String) (i : ℕ) (l : String) → get_elem? i a ≡ some l → line_at a i ≡ l
unfolding line_at or_else
line_at-some a i l h = rw h refl

module _ (a b : List String) where
  -- What is left of both texts behind a place, as a script with e edits.
  unfoldable pub Fits : ℕ → ℕ → ℕ → List DiffOp → Type 0
  Fits x y e out = (old_lines out ≡ drop x a) × (new_lines out ≡ drop y b) × (edits out ≡ e)

  Fits-equal :
      (x y e : ℕ) (out : List DiffOp)
      → matches a b x y ≡ true
      → Fits (suc x) (suc y) e out
      → Fits x y e (equal (line_at a x) ∷ out)
  unfolding Fits old_lines new_lines edits
  Fits-equal x y e out m (p, q, r) =
      let (lt, lt') = matches_in a b x y m in
      let (l, h, k) = matches_line a b x y m in
      let same = line_at-some a x l h ∙ sym (line_at-some b y l k) in
      let pa = drop_line a x lt in let pb = drop_line b y lt' in (cc, cc, r)

  pub Fits-insert :
      (x y e : ℕ) (out : List DiffOp)
      → y < length b
      → Fits x (suc y) e out
      → Fits x y (suc e) (insert (line_at b y) ∷ out)
  unfolding Fits old_lines new_lines edits
  Fits-insert x y e out lt (p, q, r) = let pb = drop_line b y lt in (p, cc, ap suc r)

  pub Fits-delete :
      (x y e : ℕ) (out : List DiffOp)
      → x < length a
      → Fits (suc x) y e out
      → Fits x y (suc e) (delete (line_at a x) ∷ out)
  unfolding Fits old_lines new_lines edits
  Fits-delete x y e out lt (p, q, r) = let pa = drop_line a x lt in (cc, q, ap suc r)

  pub Fits_at :
      (x y e x' y' e' : ℕ) (out : List DiffOp)
      → x ≡ x'
      → y ≡ y'
      → e ≡ e'
      → Fits x y e out
      → Fits x' y' e' out
  Fits_at x y e x' y' e' out h k l f =
      subst (λ n. Fits n y' e' out) h
        (subst (λ n. Fits x n e' out) k (subst (λ n. Fits x y n out) l f))

  -- The loop back along n matching lines.
  pub retreat_run :
      (n s t x y px py e : ℕ) (out : List DiffOp)
      → x ≡ s + n
      → y ≡ t + n
      → ((u : ℕ) → u < n → matches a b (s + u) (t + u) ≡ true)
      → px ≤ s
      → py ≤ t
      → (px ≡ s) ⊎ (py ≡ t)
      → Fits x y e out
      → (out' : List DiffOp) × (retreat a b x y px py out ≡ (s, t, out')) × Fits s t e out'
  unfolding retreat
  retreat_run zero s t zero y px py e out h k m le le' stop f =
      let hs : 0 ≡ s = omega (arith, h) in
      let kt : y ≡ t = omega (arith, k) in
      (out, ap (λ n. (n, y, out)) hs ∙ ap (λ n. (s, n, out)) kt, Fits_at _ _ _ _ _ _ _ hs kt refl f)
  retreat_run zero s t (suc x) y px py e out h k m le le' stop f =
      let hs : suc x ≡ s = omega (arith, h) in
      let kt : y ≡ t = omega (arith, k) in
      let test : (ltb px (suc x) && ltb py y) ≡ false = ground (arith, hs, kt, stop) in
      (
        out,
        rw test (ap (λ n. (n, y, out)) hs ∙ ap (λ n. (s, n, out)) kt),
        Fits_at _ _ _ _ _ _ _ hs kt refl f,
      )
  retreat_run (suc n) s t zero y px py e out h k m le le' stop f =
      let bad : ⊥ = omega (arith, h) in elim bad [ ]
  retreat_run (suc n) s t (suc x) y px py e out h k m le le' stop f =
      let test : (ltb px (suc x) && ltb py y) ≡ true = ground (arith, h, k, le, le') in
      let hx : s + n ≡ x = omega (arith, h) in
      let ky : t + n ≡ y - 1 = omega (arith, k) in
      let hit = matches_at a b _ _ _ _ hx ky (m n (omega arith)) in
      let fy : y ≡ suc (y - 1) = omega (arith, k) in
      let fits = Fits-equal x (y - 1) e out hit (Fits_at _ _ _ _ _ _ out refl fy refl f) in
      let (out', r, g) =
        retreat_run n s t x (y - 1) px py e (equal (line_at a x) ∷ out) (sym hx) (sym ky)
          (λ u lt. m u (omega (arith, lt))) le le' stop fits in
      (out', rw test r, g)
