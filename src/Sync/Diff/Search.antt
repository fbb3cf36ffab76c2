-- ===== src/Sync/Diff/Search.antt =====
-- The search ends at the first step that reaches the end of both lists, and keeps the rows that the
-- way back reads (conflicts.ts, `myersEdits`).
use mathlib.Core.Path.{subst}
use kontexta.Base.{
  ℕ, zero, suc, ◌+◌, ◌-◌, ◌*◌, ◌≤◌, ◌<◌, String, ◌≡◌, sym, ap, ◌∙◌, inl, inr, Bool, true, false,
  Option, none, some, List, [], ◌∷◌, arith, ◌==◌, Bool-cases, length, nat_eq, string_eq,
}
use kontexta.Sync.Diff.{Cells, slice_from, is_end, fill_row, search_rows}
use kontexta.Sync.Diff.Furthest.{furthest}
use kontexta.Sync.Diff.Rows.{Open, Holds, Filled, fill_row-Filled, fill_first}

module _ (a b : List String) where
  -- The row that step d starts from, and its slice.
  unfoldable pub Before : ℕ → ℕ → Cells → Type 0
  Before o zero v = (j : ℕ) → v j ≡ 0
  Before o (suc e) v = Holds a b o e v

  unfoldable pub Fed : ℕ → Cells → Type 0
  Fed zero row = Unit
  Fed (suc e) row = (i : ℕ) → i ≤ e → row (2 * i + 2) ≡ (furthest a b e i).0

  unfoldable pub AllFed : List Cells → Type 0
  unfolding Fed
  AllFed [] = Unit
  AllFed (row ∷ rows) = Fed (length rows) row × AllFed rows

  slice-Fed : (o d : ℕ) (v : Cells) → d < o → Before o d v → Fed d (slice_from (o - d - 1) v)
  unfolding Before Fed slice_from
  slice-Fed o zero v lt h = tt
  slice-Fed o (suc e) v lt h = λ i le. ap v (at i) ∙ h i le
    where
      at : (i : ℕ) → o - suc e - 1 + (2 * i + 2) ≡ o + 2 * i - e
      at i = omega (arith, lt)

  fill :
      (o d : ℕ) (v : Cells) → d < o → Before o d v → Filled a b o d (fill_row a b o d (suc d) 0 v)
  unfolding Before
  fill o zero v lt h = fill_first a b o v h
  fill o (suc e) v lt h =
      fill_row-Filled a b o e (suc (suc e)) 0 v lt (omega arith) h (λ k bad. elim bad [ ])
        (λ k bad. elim bad [ ])

  pub record Ended (trace : List Cells) : Type 0 where
    pub steps : ℕ
    pub diagonal : ℕ
    pub rows_fed : AllFed trace
    pub counted : length trace ≡ suc steps
    pub in_row : diagonal ≤ steps
    pub ends : is_end a b (furthest a b steps diagonal) ≡ true
    pub none_before : (e : ℕ) → e < steps → Open a b e (suc e)

  -- What a search that may take `limit` steps gives.
  unfoldable pub Searched : ℕ → Option (List Cells) → Type 0
  Searched limit none = (e : ℕ) → e < limit → Open a b e (suc e)
  Searched limit (some trace) = Ended trace

  broken :
      (o d : ℕ) (r : Bool × Cells)
      → Filled a b o d r
      → r.0 ≡ true
      → (i : ℕ) × (i ≤ d) × (is_end a b (furthest a b d i) ≡ true)
  unfolding Filled
  broken o d (true, v) h e = h
  broken o d (false, v) h e = cc

  went_on :
      (o d : ℕ) (r : Bool × Cells)
      → Filled a b o d r
      → r.0 ≡ false
      → Holds a b o d r.1 × Open a b d (suc d)
  unfolding Filled
  went_on o d (true, v) h e = cc
  went_on o d (false, v) h e = h

  Open-up_to :
      (d : ℕ)
      → ((e : ℕ) → e < d → Open a b e (suc e))
      → Open a b d (suc d)
      → (e : ℕ) → e < suc d
      → Open a b e (suc e)
  Open-up_to d f h e le = elim (Bool-cases (e == d)) [
    | inl q ↦ subst (λ n. Open a b n (suc n)) (ground (arith, q)) h
    | inr q ↦ f e (ground (arith, q, le))
  ]

  Searched-at : (m n : ℕ) (r : Option (List Cells)) → m ≡ n → Searched m r → Searched n r
  Searched-at m n r h = subst (λ k. Searched k r) h

  pub searched :
      (o count d : ℕ) (v : Cells) (trace : List Cells)
      → count + d < suc o
      → Before o d v
      → AllFed trace
      → length trace ≡ d
      → ((e : ℕ) → e < d → Open a b e (suc e))
      → Searched (count + d) (search_rows a b o count d v trace)
  unfolding search_rows Searched AllFed Before
  searched o zero d v trace lt h fed n f = λ e le. f e (omega (arith, le))
  searched o (suc count) d v trace lt h fed n f =
      let row = slice_from (o - d - 1) v in
      let r = fill_row a b o d (suc d) 0 v in
      let filled = fill o d v (omega (arith, lt)) h in
      let fed_row = slice-Fed o d v (omega (arith, lt)) h in
      let fed' : AllFed (row ∷ trace) = (subst (λ k. Fed k row) (sym n) fed_row, fed) in
      elim (Bool-cases r.0) [
        | inl e ↦
            let (i, le, q) = broken o d r filled e in
            rw e (record {
              steps = d;
              diagonal = i;
              rows_fed = fed';
              counted = omega (arith, n);
              in_row = le;
              ends = q;
              none_before = f;
            })
        | inr e ↦
            let (held, opened) = went_on o d r filled e in
            rw e (
              Searched-at (count + suc d) _ _ (omega arith) (
                searched o count (suc d) r.1 (row ∷ trace) (omega (arith, lt)) held fed'
                  (omega (arith, n)) (Open-up_to d f opened)))
      ]
