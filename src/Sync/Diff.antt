-- ===== src/Sync/Diff.antt =====
-- packages/core/src/storage/conflicts.ts, `myersEdits`, `myersDiff` and `computeDiff`: the line diff
-- of the two contents of a conflict. The typed array `v` is a function on its indices. A diagonal k
-- of step d is kept as the i with k = 2i − d, so `y = x - k` is written x + d − 2i, which never stops
-- at 0. `result` is kept with the newest line first, which is the list that `reverse` gives.
pub mod Graph
pub mod Furthest
pub mod Rows
pub mod Search
pub mod Script
pub mod Backtrack
pub mod Shortest
pub mod Texts
use Prim.Native.Char.{Char, code}
use Prim.Native.String.{◌++◌ as str_append}
use mathlib.Core.Option
use kontexta.Sync.Op.{show_decimal}
use kontexta.Base.{
  ℕ, zero, suc, ◌+◌, ◌-◌, ◌*◌, min, String, Bool, true, false, not, ◌&&◌, ◌||◌, Option, none, some,
  List, [], ◌∷◌, ◌++◌, map, ltb, leb, if◌then◌else◌, ◌==◌, length, count_rows, get_elem?, nat_eq,
  string_eq,
}
use kontexta.Sync.Conflicts.{or_else}

pub data DiffOp : Type 0 where
  equal delete insert : String → DiffOp

abbrev pub max_edit_distance : ℕ
max_edit_distance = 2000

module _ {ℓ} {A : Type ℓ} where
  abbrev pub drop : ℕ → List A → List A
  drop zero xs = xs
  drop (suc n) [] = []
  drop (suc n) (x ∷ xs) = drop n xs

  abbrev pub take : ℕ → List A → List A
  take zero xs = []
  take (suc n) [] = []
  take (suc n) (x ∷ xs) = x ∷ take n xs

-- `a[x] === b[y]`, where both indices are in range
abbrev pub same_line : Option String → Option String → Bool
same_line (some s) (some t) = s == t
same_line _ _ = false

-- `line: a[i]`; a line out of range is printed as `undefined`.
pub line_at : List String → ℕ → String
unfolding or_else
line_at a i = or_else (get_elem? i a) "undefined"

abbrev pub Cells : Type 0
Cells = ℕ → ℕ

-- v[j] = x
pub write_cell : ℕ → ℕ → Cells → Cells
write_cell j x v = λ i. if i == j then x else v i

pub slice_from : ℕ → Cells → Cells
slice_from from v = λ i. v (from + i)

-- The test of both loops: whether diagonal k is entered from k + 1, where `l` and `r` are the furthest
-- x on k − 1 and on k + 1.
pub goes_down : Bool → Bool → ℕ → ℕ → Bool
goes_down is_first is_last l r = is_first || (not is_last && ltb l r)

pub enter_x : ℕ → ℕ → ℕ → ℕ → ℕ
unfolding goes_down
enter_x d i l r = if goes_down (i == 0) (i == d) l r then r else l + 1

module _ (a b : List String) where
  pub matches : ℕ → ℕ → Bool
  matches x y = same_line (get_elem? x a) (get_elem? y b)

  -- while (x < n && y < m && a[x] === b[y]) { x++; y++; }
  pub slide : ℕ → ℕ → ℕ → ℕ × ℕ
  unfolding matches
  slide zero x y = (x, y)
  slide (suc fuel) x y =
      let rest = slide fuel (suc x) (suc y) in if matches x y then rest else (x, y)

  pub is_end : ℕ × ℕ → Bool
  is_end p = leb (length a) p.0 && leb (length b) p.1

  -- The place that step d reaches on its diagonal i.
  pub place : ℕ → ℕ → ℕ → Cells → ℕ × ℕ
  unfolding enter_x slide
  place offset d i v =
      let j = offset + 2 * i - d in
      let x = enter_x d i (v (j - 1)) (v (j + 1)) in slide (length a) x (x + d - 2 * i)

  -- The loop over the diagonals of step d, `count` of them left; whether it was left by `break`.
  pub fill_row : ℕ → ℕ → ℕ → ℕ → Cells → Bool × Cells
  unfolding write_cell place is_end
  fill_row offset d zero i v = (false, v)
  fill_row offset d (suc count) i v =
      let p = place offset d i v in
      let v' = write_cell (offset + 2 * i - d) p.0 v in
      let rest = fill_row offset d count (suc i) v' in if is_end p then (true, v') else rest

  -- The loop over the steps, `count` of them left; `trace` is kept with the newest row first.
  pub search_rows : ℕ → ℕ → ℕ → Cells → List Cells → Option (List Cells)
  unfolding fill_row slice_from
  search_rows offset zero d v trace = none
  search_rows offset (suc count) d v trace =
      let trace' = slice_from (offset - d - 1) v ∷ trace in
      let (found, v') = fill_row offset d (suc d) 0 v in
      let rest = search_rows offset count (suc d) v' trace' in if found then some trace' else rest

  -- while (x > prevX && y > prevY)
  pub retreat : ℕ → ℕ → ℕ → ℕ → List DiffOp → ℕ × ℕ × List DiffOp
  unfolding line_at
  retreat zero y px py out = (0, y, out)
  retreat (suc x) y px py out =
      let rest = retreat x (y - 1) px py (equal (line_at a x) ∷ out) in
      if ltb px (suc x) && ltb py y then rest else (suc x, y, out)

  -- prevX and prevY at step d
  pub previous : ℕ → Cells → ℕ → ℕ → ℕ × ℕ
  unfolding goes_down
  previous zero row x y = (0, 0)
  previous (suc e) row x y =
      let d = suc e in
      let l = row (x + d - y) in
      let r = row (x + d + 2 - y) in
      if goes_down (x + d == y) (x == y + d) l r then (r, r + y - (x + 1)) else (l, l + y + 1 - x)

  -- The edit itself, which step 0 does not have.
  pub edit_back : ℕ → ℕ → ℕ × ℕ × List DiffOp → ℕ × ℕ × List DiffOp
  unfolding line_at
  edit_back zero px (x, y, out) = (x, y, out)
  edit_back (suc e) px (x, y, out) =
      if x == px
      then (x, y - 1, insert (line_at b (y - 1)) ∷ out)
      else (x - 1, y, delete (line_at a (x - 1)) ∷ out)

  pub backtrack : List Cells → ℕ → ℕ → List DiffOp → List DiffOp
  unfolding retreat previous edit_back
  backtrack [] x y out = out
  backtrack (row ∷ rows) x y out =
      let d = length rows in
      let (px, py) = previous d row x y in
      let (x', y', out') = edit_back d px (retreat x y px py out) in backtrack rows x' y' out'

  unfoldable pub myers_edits : Option (List DiffOp)
  unfolding search_rows backtrack
  myers_edits =
      let limit = min (length a + length b) max_edit_distance in
      if length a + length b == 0
      then some []
      else Option.map (λ trace. backtrack trace (length a) (length b) [])
          (search_rows (limit + 1) (limit + 1) 0 (λ _. 0) [])

  -- while (endA > start && endB > start && a[endA - 1] === b[endB - 1]) { endA--; endB--; }
  pub trim_end : ℕ → ℕ → ℕ → ℕ × ℕ
  unfolding matches
  trim_end start zero end_b = (0, end_b)
  trim_end start (suc end_a) end_b =
      let rest = trim_end start end_a (end_b - 1) in
      if (ltb start (suc end_a) && ltb start end_b) && matches end_a (end_b - 1)
      then rest
      else (suc end_a, end_b)

unfoldable pub replaced : List String → List String → List DiffOp
replaced a b = map delete a ++ map insert b

pub myers_diff : List String → List String → List DiffOp
unfolding slide trim_end myers_edits replaced or_else
myers_diff a b =
    let start = (slide a b (length a) 0 0).0 in
    let (end_a, end_b) = trim_end a b start (length a) (length b) in
    let mid_a = take (end_a - start) (drop start a) in
    let mid_b = take (end_b - start) (drop start b) in
    map equal (take start a)
    ++ (or_else (myers_edits mid_a mid_b) (replaced mid_a mid_b) ++ map equal (drop end_a a))

starts_line_feed : String → Bool
starts_line_feed String.[] = false
starts_line_feed (String.◌∷◌ c s) = code c == 10

on_first : Char → List String → List String
on_first c [] = String.◌∷◌ c "" ∷ []
on_first c (line ∷ rest) = String.◌∷◌ c line ∷ rest

-- split(/\r?\n/)
unfoldable pub split_lines : String → List String
unfolding starts_line_feed on_first
split_lines String.[] = "" ∷ []
split_lines (String.◌∷◌ c s) =
    let rest = split_lines s in
    if code c == 10
    then "" ∷ rest
    else if code c == 13 && starts_line_feed s
    then rest
    else on_first c rest

pub lines_of : String → List String
unfolding split_lines
lines_of text = if text == "" then [] else split_lines text

abbrev pub is_insert : DiffOp → Bool
is_insert (insert l) = true
is_insert _ = false

abbrev pub is_delete : DiffOp → Bool
is_delete (delete l) = true
is_delete _ = false

diff_line : DiffOp → String
diff_line (equal l) = str_append " " l
diff_line (delete l) = str_append "-" l
diff_line (insert l) = str_append "+" l

join_lines : List String → String
join_lines [] = ""
join_lines (l ∷ []) = l
join_lines (l ∷ ls) = str_append l (str_append "\n" (join_lines ls))

hunk_line : ℕ → ℕ → String
hunk_line n m =
    str_append "@@ -1,"
      (str_append (show_decimal n) (str_append " +1," (str_append (show_decimal m) " @@")))

pub record DiffResult : Type 0 where
  pub diff : String
  pub additions : ℕ
  pub deletions : ℕ

unfoldable pub compute_diff : String → String → Option String → Option String → DiffResult
unfolding lines_of myers_diff diff_line join_lines hunk_line or_else
compute_diff local_content remote_content local_label remote_label =
    let a = lines_of local_content in
    let b = lines_of remote_content in
    let ops = myers_diff a b in
    let header =
      str_append "--- " (or_else local_label "local")
      ∷ str_append "+++ " (or_else remote_label "remote")
      ∷ hunk_line (length a) (length b)
      ∷ [] in
    if local_content == remote_content
    then record { diff = ""; additions = 0; deletions = 0 }
    else record {
      diff = join_lines (header ++ map diff_line ops);
      additions = count_rows is_insert ops;
      deletions = count_rows is_delete ops;
    }
