-- ===== src/Relay/TextOrder.antt =====
-- The order of SQLite's BINARY collation on texts: by the bytes of their UTF-8, which is by code points.
use Prim.Native.Char.{code}
use text.Mathlib.TextEquality.{Char-path}
use kontexta.Base.{
  String, ◌≡◌, refl, ◌≢◌, inl, inr, Bool, true, false, arith, ltb, if◌then◌else◌, ◌==◌, Bool-cases,
  nat_eq, string_eq,
}

unfoldable pub text_before : String → String → Bool
text_before String.[] String.[] = false
text_before String.[] (String.◌∷◌ d t) = true
text_before (String.◌∷◌ c s) String.[] = false
text_before (String.◌∷◌ c s) (String.◌∷◌ d t) =
    let rest = text_before s t in if code c == code d then rest else ltb (code c) (code d)

pub text_before_irrefl : (s : String) → text_before s s ≡ false
unfolding text_before
text_before_irrefl String.[] = refl
text_before_irrefl (String.◌∷◌ c s) = ground (arith, text_before_irrefl s)

pub text_before_trans :
    (s t u : String) → text_before s t ≡ true → text_before t u ≡ true → text_before s u ≡ true
unfolding text_before
text_before_trans String.[] String.[] u h k = cc
text_before_trans (String.◌∷◌ c s) String.[] u h k = cc
text_before_trans String.[] (String.◌∷◌ d t) String.[] h k = cc
text_before_trans String.[] (String.◌∷◌ d t) (String.◌∷◌ e u) h k = refl
text_before_trans (String.◌∷◌ c s) (String.◌∷◌ d t) String.[] h k = cc
text_before_trans (String.◌∷◌ c s) (String.◌∷◌ d t) (String.◌∷◌ e u) h k =
    ground (arith, h, k, text_before_trans s t u)

pub text_before_total : (s t : String) → text_before s t ≡ false → s ≢ t → text_before t s ≡ true
unfolding text_before
text_before_total String.[] String.[] h k = elim (k refl) [ ]
text_before_total String.[] (String.◌∷◌ d t) h k = cc
text_before_total (String.◌∷◌ c s) String.[] h k = refl
text_before_total (String.◌∷◌ c s) (String.◌∷◌ d t) h k = elim (Bool-cases (code c == code d)) [
  | inl e ↦
      let same : c ≡ d = Char-path c d (ground (arith, e)) in
      let rest : text_before s t ≡ false = ground (arith, e, h) in
      let apart : s ≢ t = λ p. k (cc) in
      let later = text_before_total s t rest apart in ground (arith, e, later)
  | inr e ↦ ground (arith, e, h)
]
