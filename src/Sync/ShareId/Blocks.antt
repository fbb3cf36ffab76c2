-- ===== src/Sync/ShareId/Blocks.antt =====
-- The bits of the bytes and of the symbols (packages/core/src/storage/shareid.ts): five bytes are eight
-- symbols, and the last two bytes of a share id are four.
use mathlib.Core.Path.{ap₂}
use kontexta.Base.{
  ℕ, zero, suc, ◌+◌, ◌*◌, ◌%◌, ◌<◌, ◌≡◌, ap, ◌∙◌, List, [], ◌∷◌, ◌++◌, arith, length, All,
}
use kontexta.Sync.ShareId.{to_symbols, from_values}

abbrev pub IsByte : ℕ → Type 0
IsByte b = b < 256

abbrev pub before : List ℕ → List ℕ × ℕ → List ℕ × ℕ
before bytes (out, left) = (bytes ++ out, left)

prefix5 :
    (a b c d e p q r s t : ℕ) (x y : List ℕ × ℕ)
    → p ≡ a
    → q ≡ b
    → r ≡ c
    → s ≡ d
    → t ≡ e
    → x ≡ y
    → before (p ∷ q ∷ r ∷ s ∷ t ∷ []) x ≡ before (a ∷ b ∷ c ∷ d ∷ e ∷ []) y
prefix5 a b c d e p q r s t x y h i j k l m = cc

restart :
    (acc bits_left : ℕ) (rest : List ℕ)
    → acc ≡ 0
    → bits_left ≡ 0
    → from_values acc 0 (to_symbols bits_left 0 rest) ≡ from_values 0 0 (to_symbols 0 0 rest)
restart acc bits_left rest h k = ap₂ (λ m n. from_values m 0 (to_symbols n 0 rest)) h k

five_bytes :
    (a b c d e : ℕ) (rest : List ℕ)
    → IsByte a
    → IsByte b
    → IsByte c
    → IsByte d
    → IsByte e
    → from_values 0 0 (to_symbols 0 0 (a ∷ b ∷ c ∷ d ∷ e ∷ rest))
      ≡ before (a ∷ b ∷ c ∷ d ∷ e ∷ []) (from_values 0 0 (to_symbols 0 0 rest))
unfolding to_symbols from_values
five_bytes a b c d e rest ha hb hc hd he =
    prefix5 a b c d e _ _ _ _ _ _ _ (omega (arith, ha)) (omega (arith, ha, hb))
      (omega (arith, hb, hc)) (omega (arith, hc, hd)) (omega (arith, hd, he))
      (restart _ _ rest (omega arith) (omega arith))

last2 :
    (a b p q l : ℕ)
    → p ≡ a
    → q ≡ b
    → l ≡ 0
    → before (p ∷ q ∷ []) ([], l) ≡ before (a ∷ b ∷ []) ([], 0)
last2 a b p q l h i j = cc

two_bytes :
    (a b : ℕ)
    → IsByte a
    → IsByte b
    → from_values 0 0 (to_symbols 0 0 (a ∷ b ∷ [])) ≡ (a ∷ b ∷ [], 0)
unfolding to_symbols from_values
two_bytes a b ha hb = last2 a b _ _ _ (omega (arith, ha)) (omega (arith, ha, hb)) (omega arith)

-- The bytes are read back where they are two more than a multiple of five.
pub from_values-to_symbols :
    (n : ℕ) (bytes : List ℕ)
    → length bytes ≡ 2 + 5 * n
    → All IsByte bytes
    → from_values 0 0 (to_symbols 0 0 bytes) ≡ (bytes, 0)
from_values-to_symbols n [] h k = absurd (omega (arith, h))
from_values-to_symbols n (a ∷ []) h k = absurd (omega (arith, h))
from_values-to_symbols n (a ∷ b ∷ []) h (ha, (hb, _)) = two_bytes a b ha hb
from_values-to_symbols n (a ∷ b ∷ c ∷ []) h k = absurd (omega (arith, h))
from_values-to_symbols n (a ∷ b ∷ c ∷ d ∷ []) h k = absurd (omega (arith, h))
from_values-to_symbols zero (a ∷ b ∷ c ∷ d ∷ e ∷ rest) h k = absurd (omega (arith, h))
from_values-to_symbols (suc n) (a ∷ b ∷ c ∷ d ∷ e ∷ rest) h (ha, (hb, (hc, (hd, (he, hs))))) =
    five_bytes a b c d e rest ha hb hc hd he
    ∙ ap (before (a ∷ b ∷ c ∷ d ∷ e ∷ [])) (from_values-to_symbols n rest (omega (arith, h)) hs)

eight_more :
    (z n : ℕ) (rest : List ℕ)
    → length (to_symbols 0 0 rest) ≡ 4 + 8 * n
    → suc (suc (suc (suc (suc (suc (suc (suc (length (to_symbols (z % 1) 0 rest)))))))))
      ≡ 4 + 8 * suc n
eight_more z n rest h =
    let none_left : z % 1 ≡ 0 = omega arith in
    omega (arith, h, ap (λ k. length (to_symbols k 0 rest)) none_left)

pub length-to_symbols :
    (n : ℕ) (bytes : List ℕ) → length bytes ≡ 2 + 5 * n → length (to_symbols 0 0 bytes) ≡ 4 + 8 * n
unfolding to_symbols
length-to_symbols n [] h = absurd (omega (arith, h))
length-to_symbols n (a ∷ []) h = absurd (omega (arith, h))
length-to_symbols n (a ∷ b ∷ []) h = omega (arith, h)
length-to_symbols n (a ∷ b ∷ c ∷ []) h = absurd (omega (arith, h))
length-to_symbols n (a ∷ b ∷ c ∷ d ∷ []) h = absurd (omega (arith, h))
length-to_symbols zero (a ∷ b ∷ c ∷ d ∷ e ∷ rest) h = absurd (omega (arith, h))
length-to_symbols (suc n) (a ∷ b ∷ c ∷ d ∷ e ∷ rest) h =
    eight_more _ n rest (length-to_symbols n rest (omega (arith, h)))
