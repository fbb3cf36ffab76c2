-- ===== src/Journal/Merge/Commutes.antt =====
-- Two versions of a journal merge to the same content in either order
-- (packages/core/src/storage/journal-merge.ts).
use kontexta.Base.{
  ℕ, ◌≡◌, refl, sym, ap, ◌∙◌, inl, inr, true, false, ◌||◌, List, [], ◌∷◌, ◌++◌, arith,
  if◌then◌else◌, Bool-cases,
}
use kontexta.Journal.Merge.{
  Parsed, parse, leb_text, same_text, block_leb, is_in, distinct, insert_block, sort_blocks,
  merge_parsed, print, merge_journal_content,
}
use kontexta.Journal.Merge.Order.{
  leb_text_total, leb_text_antisym, block_leb_antisym, block_leb_total, block_leb_trans,
  same_text-eq, same_text_refl,
}

insert_ordered :
    (x y : List ℕ) (zs : List (List ℕ))
    → block_leb x y ≡ true
    → block_leb y x ≡ false
    → insert_block x (insert_block y zs) ≡ insert_block y (insert_block x zs)
unfolding insert_block
insert_ordered x y [] h k = ground (arith, h, k)
insert_ordered x y (z ∷ zs) h k = ground (
  arith,
  h,
  k,
  block_leb_trans x y z,
  block_leb_trans y z x,
  block_leb_total x z,
  insert_ordered x y zs h k,
)

insert_comm :
    (x y : List ℕ) (zs : List (List ℕ))
    → insert_block x (insert_block y zs) ≡ insert_block y (insert_block x zs)
insert_comm x y zs = elim (Bool-cases (block_leb x y)) [
  | inl h ↦ elim (Bool-cases (block_leb y x)) [
    | inl k ↦
        ap (λ b. insert_block x (insert_block b zs)) (sym (block_leb_antisym x y h k))
        ∙ ap (λ b. insert_block b (insert_block x zs)) (block_leb_antisym x y h k)
    | inr k ↦ insert_ordered x y zs h k
  ]
  | inr h ↦ sym (insert_ordered y x zs (block_leb_total x y h) h)
]

is_in-insert :
    (x y : List ℕ) (zs : List (List ℕ))
    → is_in x (insert_block y zs) ≡ (same_text x y || is_in x zs)
unfolding insert_block is_in
is_in-insert x y [] = refl
is_in-insert x y (z ∷ zs) = ground (arith, is_in-insert x y zs)

-- The sorted set that the blocks make, one block at a time.
abbrev put : List ℕ → List (List ℕ) → List (List ℕ)
put x zs = if is_in x zs then zs else insert_block x zs

abbrev put_all : List (List ℕ) → List (List ℕ) → List (List ℕ)
put_all [] zs = zs
put_all (x ∷ xs) zs = put x (put_all xs zs)

apart_sym : (x y : List ℕ) → same_text x y ≡ false → same_text y x ≡ false
apart_sym x y h = elim (Bool-cases (same_text y x)) [
  | inl k ↦
      let own = ap (λ b. same_text b y) (same_text-eq y x k) in
      grind (arith, h, own, same_text_refl y)
  | inr k ↦ k
]

put_apart :
    (x y : List ℕ) (zs : List (List ℕ))
    → same_text x y ≡ false
    → same_text y x ≡ false
    → put x (put y zs) ≡ put y (put x zs)
put_apart x y zs h k =
    ground (arith, h, k, is_in-insert x y zs, is_in-insert y x zs, insert_comm x y zs)

put_comm : (x y : List ℕ) (zs : List (List ℕ)) → put x (put y zs) ≡ put y (put x zs)
put_comm x y zs = elim (Bool-cases (same_text x y)) [
  | inl h ↦
      let e = same_text-eq x y h in
      ap (λ b. put x (put b zs)) (sym e) ∙ ap (λ b. put b (put x zs)) e
  | inr h ↦ put_apart x y zs h (apart_sym x y h)
]

put_all-put : (x : List ℕ) (ys zs : List (List ℕ)) → put_all ys (put x zs) ≡ put x (put_all ys zs)
put_all-put x [] zs = refl
put_all-put x (y ∷ ys) zs = ap (put y) (put_all-put x ys zs) ∙ put_comm y x (put_all ys zs)

put_all_comm : (xs ys zs : List (List ℕ)) → put_all xs (put_all ys zs) ≡ put_all ys (put_all xs zs)
put_all_comm [] ys zs = refl
put_all_comm (x ∷ xs) ys zs =
    ap (put x) (put_all_comm xs ys zs) ∙ sym (put_all-put x ys (put_all xs zs))

put_all-append : (xs ys zs : List (List ℕ)) → put_all (xs ++ ys) zs ≡ put_all xs (put_all ys zs)
put_all-append [] ys zs = refl
put_all-append (x ∷ xs) ys zs = ap (put x) (put_all-append xs ys zs)

is_in-sort : (x : List ℕ) (ys : List (List ℕ)) → is_in x (sort_blocks ys) ≡ is_in x ys
unfolding sort_blocks is_in
is_in-sort x [] = refl
is_in-sort x (y ∷ ys) =
    is_in-insert x y (sort_blocks ys) ∙ ap (λ b. same_text x y || b) (is_in-sort x ys)

is_in-again :
    (x y : List ℕ) (ys : List (List ℕ))
    → is_in y ys ≡ true
    → is_in x ys ≡ (same_text x y || is_in x ys)
is_in-again x y ys h = elim (Bool-cases (same_text x y)) [
  | inl k ↦ rw k (ap (λ b. is_in b ys) (same_text-eq x y k) ∙ h)
  | inr k ↦ rw k refl
]

is_in-distinct : (x : List ℕ) (ys : List (List ℕ)) → is_in x (distinct ys) ≡ is_in x ys
unfolding distinct is_in
is_in-distinct x [] = refl
is_in-distinct x (y ∷ ys) = elim (Bool-cases (is_in y ys)) [
  | inl h ↦ rw h (is_in-distinct x ys ∙ is_in-again x y ys h)
  | inr h ↦ rw h (ap (λ b. same_text x y || b) (is_in-distinct x ys))
]

sort_distinct : (xs : List (List ℕ)) → sort_blocks (distinct xs) ≡ put_all xs []
unfolding sort_blocks distinct
sort_distinct [] = refl
sort_distinct (x ∷ xs) =
    let rest = sort_distinct xs in
    let known : is_in x (put_all xs []) ≡ is_in x xs =
      ap (is_in x) (sym rest) ∙ is_in-sort x (distinct xs) ∙ is_in-distinct x xs in
    elim (Bool-cases (is_in x xs)) [
      | inl h ↦ rw (known, h) rest
      | inr h ↦ rw (known, h) (ap (insert_block x) rest)
    ]

smaller_comm : (a b : List ℕ) → (if leb_text a b then a else b) ≡ (if leb_text b a then b else a)
smaller_comm a b = ground (arith, leb_text_total a b, leb_text_antisym a b)

merge_parsed_comm : (a b : Parsed) → merge_parsed a b ≡ merge_parsed b a
unfolding merge_parsed
merge_parsed_comm a b =
    let headers = smaller_comm a.header b.header in
    let swapped : sort_blocks (distinct (a.blocks ++ b.blocks))
        ≡ sort_blocks (distinct (b.blocks ++ a.blocks)) =
      sort_distinct (a.blocks ++ b.blocks)
      ∙ put_all-append a.blocks b.blocks []
      ∙ put_all_comm a.blocks b.blocks []
      ∙ sym (put_all-append b.blocks a.blocks [])
      ∙ sym (sort_distinct (b.blocks ++ a.blocks)) in
    cc

-- Merging two versions of a daily journal gives the same content in either order.
pub merge_journal_content_comm :
    (a b : List ℕ) → merge_journal_content a b ≡ merge_journal_content b a
unfolding merge_journal_content
merge_journal_content_comm a b = ap print (merge_parsed_comm (parse a) (parse b))
