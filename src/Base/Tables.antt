-- ===== src/Base/Tables.antt =====
-- A table of the database is the list of its rows, in the order of insertion. The statements of the
-- program on one table are these functions.
use Prim.Native.Nat.{zero, ℕ, suc, ◌+◌}
use mathlib.Core.Path.{◌≡◌, refl, sym}
use mathlib.Core.Bool.{Bool, true, false, not}
use mathlib.Core.Option.{Option, none, some}
use mathlib.Core.List.{List, [], ◌∷◌, ◌++◌}
use native.Mathlib.Omega.{arith}
use mathlib.Core.Logic.{inl, inr}
use kontexta.Base.Tests.{if◌then◌else◌, some-eq, if-cases}

module _ {ℓ} {A : Type ℓ} where
  abbrev pub length : List A → ℕ
  length [] = 0
  length (x ∷ xs) = suc (length xs)

  -- SELECT … WHERE p
  abbrev pub select : (A → Bool) → List A → List A
  select p [] = []
  select p (x ∷ xs) = if p x then x ∷ select p xs else select p xs

  -- SELECT … WHERE p, its first row
  abbrev pub find_row : (A → Bool) → List A → Option A
  find_row p [] = none
  find_row p (x ∷ xs) = if p x then some x else find_row p xs

  -- SELECT COUNT(*) WHERE p
  abbrev pub count_rows : (A → Bool) → List A → ℕ
  count_rows p [] = 0
  count_rows p (x ∷ xs) = let n = count_rows p xs in if p x then suc n else n

  -- UPDATE … SET f WHERE p
  abbrev pub update_rows : (A → Bool) → (A → A) → List A → List A
  update_rows p f [] = []
  update_rows p f (x ∷ xs) = (if p x then f x else x) ∷ update_rows p f xs

  -- DELETE … WHERE p
  abbrev pub delete_rows : (A → Bool) → List A → List A
  delete_rows p = select (λ x. not (p x))

  abbrev pub All {κ} : (A → Type κ) → List A → Type κ
  All P [] = Unit
  All P (x ∷ xs) = P x × All P xs

  pub length-append : (xs ys : List A) → length (xs ++ ys) ≡ length xs + length ys
  length-append [] ys = omega arith
  length-append (x ∷ xs) ys = omega (arith, length-append xs ys)

  pub count_rows-append :
      (p : A → Bool) (xs ys : List A) → count_rows p (xs ++ ys) ≡ count_rows p xs + count_rows p ys
  count_rows-append p [] ys = omega arith
  count_rows-append p (x ∷ xs) ys = ground (arith, count_rows-append p xs ys)

  pub select-append :
      (p : A → Bool) (xs ys : List A) → select p (xs ++ ys) ≡ select p xs ++ select p ys
  select-append p [] ys = refl
  select-append p (x ∷ xs) ys = ground (arith, select-append p xs ys)

  -- What is found first stays first when rows are added at the end.
  pub find_row-append :
      (p : A → Bool) (xs ys : List A) (a : A)
      → find_row p xs ≡ some a
      → find_row p (xs ++ ys) ≡ some a
  find_row-append p [] ys a h = cc
  find_row-append p (x ∷ xs) ys a h = ground (arith, find_row-append p xs ys a)

  pub find_row-append_new :
      (p : A → Bool) (xs : List A) (y : A)
      → find_row p xs ≡ none
      → p y ≡ true
      → find_row p (xs ++ y ∷ []) ≡ some y
  find_row-append_new p [] y h e = rw e
  find_row-append_new p (x ∷ xs) y h e = ground (arith, find_row-append_new p xs y)

  -- A condition that implies another one reads only the rows of the other.
  pub select-within :
      (p q : A → Bool) (xs : List A)
      → ((x : A) → p x ≡ true → q x ≡ true)
      → select p (select q xs) ≡ select p xs
  select-within p q [] h = refl
  select-within p q (x ∷ xs) h = ground (arith, h x, select-within p q xs h)

  pub find_row-within :
      (p q : A → Bool) (xs : List A)
      → ((x : A) → p x ≡ true → q x ≡ true)
      → find_row p (select q xs) ≡ find_row p xs
  find_row-within p q [] h = refl
  find_row-within p q (x ∷ xs) h = ground (arith, h x, find_row-within p q xs h)

  pub count_rows-within :
      (p q : A → Bool) (xs : List A)
      → ((x : A) → p x ≡ true → q x ≡ true)
      → count_rows p (select q xs) ≡ count_rows p xs
  count_rows-within p q [] h = refl
  count_rows-within p q (x ∷ xs) h = ground (arith, h x, count_rows-within p q xs h)

  -- A statement on other rows leaves a selection as it was.
  pub select-delete :
      (p q : A → Bool) (xs : List A)
      → ((x : A) → q x ≡ true → p x ≡ false)
      → select p (delete_rows q xs) ≡ select p xs
  select-delete p q [] h = refl
  select-delete p q (x ∷ xs) h = ground (arith, h x, select-delete p q xs h)

  pub select-update :
      (p q : A → Bool) (f : A → A) (xs : List A)
      → ((x : A) → q x ≡ true → p x ≡ false)
      → ((x : A) → p (f x) ≡ p x)
      → select p (update_rows q f xs) ≡ select p xs
  select-update p q f [] h k = refl
  select-update p q f (x ∷ xs) h k = ground (arith, h x, k x, select-update p q f xs h k)

  pub All-map {κ ν} :
      (P : A → Type κ) (Q : A → Type ν) (xs : List A) → ((x : A) → P x → Q x) → All P xs → All Q xs
  All-map P Q [] f h = tt
  All-map P Q (x ∷ xs) f h = (f x h.0, All-map P Q xs f h.1)

  pub find_row-update :
      (p q : A → Bool) (f : A → A) (xs : List A)
      → ((x : A) → q x ≡ true → p x ≡ false)
      → ((x : A) → p (f x) ≡ p x)
      → find_row p (update_rows q f xs) ≡ find_row p xs
  find_row-update p q f [] h k = refl
  find_row-update p q f (x ∷ xs) h k = ground (arith, h x, k x, find_row-update p q f xs h k)

  abbrev pub get_elem? : ℕ → List A → Option A
  get_elem? i [] = none
  get_elem? zero (x ∷ xs) = some x
  get_elem? (suc i) (x ∷ xs) = get_elem? i xs

  pub All-at {κ} :
      (P : A → Type κ) (xs : List A) (a : A) (i : ℕ) → All P xs → get_elem? i xs ≡ some a → P a
  All-at P [] a i h e = grind (arith, e)
  All-at P (x ∷ xs) a zero h e = rw (sym (some-eq e)) h.0
  All-at P (x ∷ xs) a (suc i) h e = All-at P xs a i h.1 e

  -- What is found meets the condition, and what every row meets.
  pub find_row-holds {κ} :
      (P : A → Type κ) (p : A → Bool) (xs : List A) (a : A)
      → find_row p xs ≡ some a
      → All P xs
      → (p a ≡ true) × P a
  find_row-holds P p [] a h hs = grind (arith, h)
  find_row-holds P p (x ∷ xs) a h hs = elim (if-cases (p x) (some x) (find_row p xs) (some a) h) [
    | inl (e, g) ↦ rw (sym (some-eq g)) (e, hs.0)
    | inr (e, g) ↦ find_row-holds P p xs a g hs.1
  ]

  pub All-append {κ} : (P : A → Type κ) (xs ys : List A) → All P xs → All P ys → All P (xs ++ ys)
  All-append P [] ys h k = k
  All-append P (x ∷ xs) ys h k = (h.0, All-append P xs ys h.1 k)
