-- ===== src/Tests/Journal.antt =====
-- Two small versions of a journal (packages/core/src/storage/journal-merge.ts).
use kontexta.Base.{ℕ, ◌≡◌, refl, List, [], ◌∷◌, ◌++◌, length}
use kontexta.Journal.Merge.{
  separator, cut, split, trim_end, parse, leb_text, same_text, is_in, distinct, insert_block,
  sort_blocks, print_blocks, merge_parsed, print, merge_journal_content,
}
use kontexta.Journal.Merge.Commutes.{merge_journal_content_comm}

-- "h", a separator and one block, "b" or "a".
abbrev version : ℕ → List ℕ
version c = 104 ∷ separator ++ c ∷ 10 ∷ []

merge_journal_content_comm_example :
    merge_journal_content (version 98) (version 97)
    ≡ merge_journal_content (version 97) (version 98)
merge_journal_content_comm_example = merge_journal_content_comm (version 98) (version 97)

-- A header that ends in a separator of its own once it is trimmed: "f", "---" with a space after it, and
-- a block.
abbrev nested : List ℕ
nested = 102 ∷ 10 ∷ 45 ∷ 45 ∷ 45 ∷ 32 ∷ separator ++ 98 ∷ []

abbrev merged_once : List ℕ
merged_once = merge_journal_content nested nested

merged_length : length merged_once ≡ 13
unfolding merge_journal_content merge_parsed sort_blocks distinct insert_block is_in same_text
    leb_text parse cut split trim_end print print_blocks
merged_length = refl

merged_again_length : length (merge_journal_content merged_once merged_once) ≡ 9
unfolding merge_journal_content merge_parsed sort_blocks distinct insert_block is_in same_text
    leb_text parse cut split trim_end print print_blocks
merged_again_length = refl
