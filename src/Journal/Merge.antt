-- ===== src/Journal/Merge.antt =====
-- packages/core/src/storage/journal-merge.ts, `mergeJournalContent`. A text is the list of its UTF-16
-- units, which `<` compares one by one.
pub mod Order
pub mod Commutes
use kontexta.Base.{
  ℕ, zero, suc, Bool, true, false, not, ◌&&◌, ◌||◌, Option, none, some, List, [], ◌∷◌, ◌++◌, map,
  ltb, leb, if◌then◌else◌, ◌==◌, select, nat_eq, string_eq,
}

-- "\n---\n"
abbrev pub separator : List ℕ
separator = 10 ∷ 45 ∷ 45 ∷ 45 ∷ 10 ∷ []

-- The rest of a text that starts with `p`.
unfoldable pub strip_prefix : List ℕ → List ℕ → Option (List ℕ)
strip_prefix [] text = some text
strip_prefix (c ∷ cs) [] = none
strip_prefix (c ∷ cs) (d ∷ ds) = let rest = strip_prefix cs ds in if c == d then rest else none

-- The text up to the first separator, and what comes after it.
abbrev longer : ℕ → List ℕ × Option (List ℕ) → List ℕ × Option (List ℕ)
longer c (text, rest) = (c ∷ text, rest)

unfoldable pub cut : List ℕ → List ℕ × Option (List ℕ)
unfolding strip_prefix
cut [] = ([], none)
cut (c ∷ cs) =
    let later = longer c (cut cs) in
    elim (strip_prefix separator (c ∷ cs)) [ some rest ↦ ([], some rest) | none ↦ later ]

abbrev in_first : ℕ → List (List ℕ) → List (List ℕ)
in_first c [] = []
in_first c (text ∷ texts) = (c ∷ text) ∷ texts

-- `split`, with the number of units of a separator that are still to be passed over.
unfoldable pub split : ℕ → List ℕ → List (List ℕ)
unfolding strip_prefix
split skipped [] = [] ∷ []
split (suc skipped) (c ∷ cs) = split skipped cs
split zero (c ∷ cs) =
    let next = split 4 cs in
    let more = in_first c (split zero cs) in
    elim (strip_prefix separator (c ∷ cs)) [ some rest ↦ [] ∷ next | none ↦ more ]

-- `\s`
unfoldable pub is_space : ℕ → Bool
is_space c =
    leb 9 c && leb c 13
    || (c == 32
        || (c == 160
            || (c == 0x1680
                || (leb 0x2000 c && leb c 0x200A
                    || (c == 0x2028
                        || (c == 0x2029
                            || (c == 0x202F || (c == 0x205F || (c == 0x3000 || c == 0xFEFF)))))))))

abbrev is_empty {ℓ} : {A : Type ℓ} → List A → Bool
is_empty [] = true
is_empty (x ∷ xs) = false

-- `replace(/\s+$/, "")`
unfoldable pub trim_end : List ℕ → List ℕ
unfolding is_space
trim_end [] = []
trim_end (c ∷ cs) = let rest = trim_end cs in if is_space c && is_empty rest then [] else c ∷ rest

abbrev not_empty : List ℕ → Bool
not_empty text = not (is_empty text)

pub record Parsed : Type 0 where
  pub header : List ℕ
  pub blocks : List (List ℕ)

abbrev blocks_of : Option (List ℕ) → List (List ℕ)
blocks_of none = []
blocks_of (some rest) = select not_empty (map trim_end (split 0 rest))

unfoldable pub parse : List ℕ → Parsed
unfolding cut split trim_end
parse content =
    let (header, rest) = cut content in record { header = trim_end header; blocks = blocks_of rest }

-- `a <= b` on texts
unfoldable pub leb_text : List ℕ → List ℕ → Bool
leb_text [] ys = true
leb_text (x ∷ xs) [] = false
leb_text (x ∷ xs) (y ∷ ys) = let rest = leb_text xs ys in if x == y then rest else ltb x y

unfoldable pub same_text : List ℕ → List ℕ → Bool
same_text [] [] = true
same_text [] (y ∷ ys) = false
same_text (x ∷ xs) [] = false
same_text (x ∷ xs) (y ∷ ys) = x == y && same_text xs ys

-- `STAMP`, its digits and other units.
pub data Shape : Type 0 where
  a_digit : Shape
  unit : ℕ → Shape

abbrev pub fits : Shape → ℕ → Bool
fits a_digit c = leb 48 c && leb c 57
fits (unit u) c = u == c

abbrev stamp_shape : List Shape
stamp_shape =
    a_digit
    ∷ a_digit
    ∷ a_digit
    ∷ a_digit
    ∷ unit 45
    ∷ a_digit
    ∷ a_digit
    ∷ unit 45
    ∷ a_digit
    ∷ a_digit
    ∷ unit 32
    ∷ a_digit
    ∷ a_digit
    ∷ unit 58
    ∷ a_digit
    ∷ a_digit
    ∷ unit 58
    ∷ a_digit
    ∷ a_digit
    ∷ []

abbrev with_unit : ℕ → Option (List ℕ) → Option (List ℕ)
with_unit c none = none
with_unit c (some text) = some (c ∷ text)

-- The text of the shapes, if two stars follow it.
match_stamp : List Shape → List ℕ → Option (List ℕ)
unfolding strip_prefix
match_stamp [] text = elim (strip_prefix (42 ∷ 42 ∷ []) text) [ some rest ↦ some [] | none ↦ none ]
match_stamp (p ∷ ps) [] = none
match_stamp (p ∷ ps) (c ∷ cs) =
    let rest = with_unit c (match_stamp ps cs) in if fits p c then rest else none

abbrev stamp_in : Option (List ℕ) → List ℕ
stamp_in none = []
stamp_in (some rest) = elim (match_stamp stamp_shape rest) [ some text ↦ text | none ↦ [] ]

pub stamp_of : List ℕ → List ℕ
unfolding match_stamp strip_prefix
stamp_of block = stamp_in (strip_prefix (42 ∷ 42 ∷ []) block)

-- The comparison that sorts the blocks: by stamp, then by text.
unfoldable pub stamped_leb : List ℕ → List ℕ → List ℕ → List ℕ → Bool
stamped_leb sx sy x y =
    if leb_text sx sy then (if leb_text sy sx then leb_text x y else true) else false

unfoldable pub block_leb : List ℕ → List ℕ → Bool
block_leb x y = stamped_leb (stamp_of x) (stamp_of y) x y

unfoldable pub is_in : List ℕ → List (List ℕ) → Bool
is_in x [] = false
is_in x (y ∷ ys) = same_text x y || is_in x ys

-- `new Set`: equal blocks are one block, and the sort that follows orders them.
unfoldable pub distinct : List (List ℕ) → List (List ℕ)
distinct [] = []
distinct (x ∷ xs) = let rest = distinct xs in if is_in x xs then rest else x ∷ rest

unfoldable pub insert_block : List ℕ → List (List ℕ) → List (List ℕ)
insert_block x [] = x ∷ []
insert_block x (y ∷ ys) = if block_leb x y then x ∷ y ∷ ys else y ∷ insert_block x ys

unfoldable pub sort_blocks : List (List ℕ) → List (List ℕ)
sort_blocks [] = []
sort_blocks (x ∷ xs) = insert_block x (sort_blocks xs)

-- `blocks.join("\n\n---\n")` after the same separator
unfoldable pub print_blocks : List (List ℕ) → List ℕ
print_blocks [] = 10 ∷ []
print_blocks (b ∷ bs) = 10 ∷ separator ++ (b ++ print_blocks bs)

-- The smaller header and the sorted union of the blocks.
unfoldable pub merge_parsed : Parsed → Parsed → Parsed
merge_parsed a b = record {
  header = if leb_text a.header b.header then a.header else b.header;
  blocks = sort_blocks (distinct (a.blocks ++ b.blocks));
}

unfoldable pub print : Parsed → List ℕ
unfolding print_blocks
print p = p.header ++ print_blocks p.blocks

unfoldable pub merge_journal_content : List ℕ → List ℕ → List ℕ
unfolding parse merge_parsed print
merge_journal_content a b = print (merge_parsed (parse a) (parse b))
