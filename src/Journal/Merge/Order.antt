-- ===== src/Journal/Merge/Order.antt =====
-- The order of the blocks is total, so equal places are equal texts
-- (packages/core/src/storage/journal-merge.ts).
use kontexta.Base.{ℕ, ◌≡◌, refl, true, false, List, [], ◌∷◌, arith}
use kontexta.Journal.Merge.{leb_text, same_text, stamp_of, stamped_leb, block_leb}

leb_text_refl : (a : List ℕ) → leb_text a a ≡ true
unfolding leb_text
leb_text_refl [] = refl
leb_text_refl (x ∷ xs) = ground (arith, leb_text_refl xs)

pub leb_text_total : (a b : List ℕ) → leb_text a b ≡ false → leb_text b a ≡ true
unfolding leb_text
leb_text_total [] b h = grind (arith, h)
leb_text_total (x ∷ xs) [] h = refl
leb_text_total (x ∷ xs) (y ∷ ys) h = ground (arith, h, leb_text_total xs ys)

pub leb_text_antisym : (a b : List ℕ) → leb_text a b ≡ true → leb_text b a ≡ true → a ≡ b
unfolding leb_text
leb_text_antisym [] [] h k = refl
leb_text_antisym [] (y ∷ ys) h k = grind (arith, k)
leb_text_antisym (x ∷ xs) [] h k = grind (arith, h)
leb_text_antisym (x ∷ xs) (y ∷ ys) h k =
    let e : x ≡ y = ground (arith, h, k) in
    let es : xs ≡ ys = leb_text_antisym xs ys (ground (arith, h, k)) (ground (arith, h, k)) in cc

leb_text_trans : (a b c : List ℕ) → leb_text a b ≡ true → leb_text b c ≡ true → leb_text a c ≡ true
unfolding leb_text
leb_text_trans [] b c h k = refl
leb_text_trans (x ∷ xs) [] c h k = grind (arith, h)
leb_text_trans (x ∷ xs) (y ∷ ys) [] h k = grind (arith, k)
leb_text_trans (x ∷ xs) (y ∷ ys) (z ∷ zs) h k = ground (arith, h, k, leb_text_trans xs ys zs)

stamped_trans :
    (sx sy sz x y z : List ℕ)
    → stamped_leb sx sy x y ≡ true
    → stamped_leb sy sz y z ≡ true
    → stamped_leb sx sz x z ≡ true
unfolding stamped_leb
stamped_trans sx sy sz x y z h k = ground (
  arith,
  h,
  k,
  leb_text_trans x y z,
  leb_text_trans sx sy sz,
  leb_text_trans sz sx sy,
  leb_text_trans sy sz sx,
)

stamped_total : (sx sy x y : List ℕ) → stamped_leb sx sy x y ≡ false → stamped_leb sy sx y x ≡ true
unfolding stamped_leb
stamped_total sx sy x y h = ground (arith, h, leb_text_total x y, leb_text_total sx sy)

stamped_antisym :
    (sx sy x y : List ℕ)
    → stamped_leb sx sy x y ≡ true
    → stamped_leb sy sx y x ≡ true
    → (leb_text x y ≡ true) × (leb_text y x ≡ true)
unfolding stamped_leb
stamped_antisym sx sy x y h k = (ground (arith, h, k), ground (arith, h, k))

pub block_leb_antisym : (x y : List ℕ) → block_leb x y ≡ true → block_leb y x ≡ true → x ≡ y
unfolding block_leb
block_leb_antisym x y h k =
    let (le, ge) = stamped_antisym (stamp_of x) (stamp_of y) x y h k in leb_text_antisym x y le ge

pub block_leb_total : (x y : List ℕ) → block_leb x y ≡ false → block_leb y x ≡ true
unfolding block_leb
block_leb_total x y h = stamped_total (stamp_of x) (stamp_of y) x y h

pub block_leb_trans :
    (x y z : List ℕ) → block_leb x y ≡ true → block_leb y z ≡ true → block_leb x z ≡ true
unfolding block_leb
block_leb_trans x y z h k = stamped_trans (stamp_of x) (stamp_of y) (stamp_of z) x y z h k

pub same_text-eq : (a b : List ℕ) → same_text a b ≡ true → a ≡ b
unfolding same_text
same_text-eq [] [] h = refl
same_text-eq [] (y ∷ ys) h = grind (arith, h)
same_text-eq (x ∷ xs) [] h = grind (arith, h)
same_text-eq (x ∷ xs) (y ∷ ys) h =
    let e : x ≡ y = ground (arith, h) in
    let es : xs ≡ ys = same_text-eq xs ys (ground (arith, h)) in cc

pub same_text_refl : (a : List ℕ) → same_text a a ≡ true
unfolding same_text
same_text_refl [] = refl
same_text_refl (x ∷ xs) = ground (arith, same_text_refl xs)
