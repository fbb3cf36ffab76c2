-- ===== src/Tests/Diff.antt =====
-- Runs of the line diff.
use kontexta.Sync.Op.{show_decimal}
use kontexta.Base.{String, ◌≡◌, refl, none, some, List, [], ◌∷◌}
use kontexta.Sync.Diff.{
  DiffOp, myers_edits, replaced, myers_diff, split_lines, compute_diff, equal, delete, insert,
}
use kontexta.Sync.Diff.Script.{old_lines, new_lines, edits}
use kontexta.Sync.Diff.Shortest.{Shortest, myers_edits-Shortest}
use kontexta.Sync.Diff.Texts.{myers_diff_texts}

abbrev before : List String
before = "a" ∷ "b" ∷ "c" ∷ "a" ∷ "b" ∷ "b" ∷ "a" ∷ []

abbrev behind : List String
behind = "c" ∷ "b" ∷ "a" ∷ "b" ∷ "a" ∷ "c" ∷ []

abbrev five_edits : List DiffOp
five_edits =
    delete "a"
    ∷ delete "b"
    ∷ equal "c"
    ∷ insert "b"
    ∷ equal "a"
    ∷ equal "b"
    ∷ delete "b"
    ∷ equal "a"
    ∷ insert "c"
    ∷ []

myers_edits_runs : myers_edits before behind ≡ some five_edits
unfolding myers_edits
myers_edits_runs = refl

split_lines_runs : split_lines "a\r\nb\n\rc" ≡ "a" ∷ "b" ∷ "\rc" ∷ []
unfolding split_lines
split_lines_runs = refl

compute_diff_runs : compute_diff "x\ny" "x\nz\r\nw" none (some "relay") ≡ record {
  diff = "--- local\n+++ relay\n@@ -1,2 +1,3 @@\n x\n-y\n+z\n+w";
  additions = 2;
  deletions = 1;
}
unfolding compute_diff show_decimal
compute_diff_runs = refl

myers_edits-Shortest_example :
    Shortest before behind (edits (replaced before behind)) (myers_edits before behind)
unfolding replaced old_lines new_lines
myers_edits-Shortest_example = myers_edits-Shortest before behind (replaced before behind) refl refl

myers_diff_texts_example :
    (old_lines (myers_diff before behind) ≡ before)
    × (new_lines (myers_diff before behind) ≡ behind)
myers_diff_texts_example = myers_diff_texts before behind
