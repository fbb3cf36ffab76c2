-- ===== src/Sync/ShareId/RoundTrip.antt =====
-- A share id that is formatted is parsed as its bytes (packages/core/src/storage/shareid.ts).
use kontexta.Base.{
  ℕ, zero, suc, ◌+◌, ◌-◌, ◌*◌, ◌%◌, ◌^◌, ◌<◌, ◌≡◌, refl, ap, ◌∙◌, inl, inr, Bool, true, false, not,
  ◌&&◌, some, List, [], ◌∷◌, map, arith, ltb, leb, ◌==◌, ==_refl, Bool-cases, length, All, nat_eq,
  string_eq,
}
use kontexta.Sync.ShareId.{
  share_bytes, share_symbols, alphabet, symbol_in, symbol, index_in, index_of, take_symbols,
  to_symbols, in_groups, format_share_id, is_dropped, upper_of, look_alike, clean, values,
  parse_share_id,
}
use kontexta.Sync.ShareId.Blocks.{IsByte, from_values-to_symbols, length-to_symbols}

abbrev IsSmall : ℕ → Type 0
IsSmall v = v < 32

take_symbols-IsSmall :
    (fuel acc bits : ℕ) (rest : List ℕ)
    → All IsSmall rest
    → All IsSmall (take_symbols fuel acc bits rest)
unfolding take_symbols
take_symbols-IsSmall zero acc bits rest h = h
take_symbols-IsSmall (suc fuel) acc bits rest h = elim (Bool-cases (leb 5 bits)) [
  | inl e ↦ rw e (omega arith, take_symbols-IsSmall fuel acc (bits - 5) rest h)
  | inr e ↦ rw e h
]

to_symbols-IsSmall : (acc bits : ℕ) (bytes : List ℕ) → All IsSmall (to_symbols acc bits bytes)
unfolding to_symbols
to_symbols-IsSmall acc bits [] = elim (Bool-cases (ltb 0 bits)) [
  | inl e ↦ rw e (omega arith, tt)
  | inr e ↦ rw e tt
]
to_symbols-IsSmall acc bits (b ∷ bs) =
    let left = (bits + 8) % 5 in
    take_symbols-IsSmall 2 _ _ _ (to_symbols-IsSmall ((acc * 256 + b) % 2 ^ left) left bs)

-- A character that `clean` leaves, is no dash, and has its place in the alphabet.
abbrev is_lone : List ℕ → ℕ → Bool
is_lone [] c = false
is_lone (d ∷ []) c = d == c
is_lone (d ∷ e ∷ ds) c = false

abbrev is_plain : ℕ → Bool
is_plain c = not (is_dropped c) && is_lone (map look_alike (upper_of c)) c

abbrev all_plain : List ℕ → Bool
all_plain [] = true
all_plain (c ∷ cs) = is_plain c && all_plain cs

alphabet_plain : all_plain alphabet ≡ true
unfolding is_dropped upper_of look_alike
alphabet_plain = refl

symbol_in-plain :
    (v : ℕ) (cs : List ℕ) → v < length cs → all_plain cs ≡ true → is_plain (symbol_in v cs) ≡ true
symbol_in-plain v [] h k = absurd (omega (arith, h))
symbol_in-plain zero (c ∷ cs) h k = ground (arith, k)
symbol_in-plain (suc v) (c ∷ cs) h k = symbol_in-plain v cs (omega (arith, h)) (ground (arith, k))

symbol-plain : (v : ℕ) → IsSmall v → is_plain (symbol v) ≡ true
unfolding symbol
symbol-plain v h = symbol_in-plain v alphabet h alphabet_plain

is_lone-eq : (xs : List ℕ) (c : ℕ) → is_lone xs c ≡ true → xs ≡ c ∷ []
is_lone-eq [] c h = grind (arith, h)
is_lone-eq (d ∷ []) c h = ap (λ k. k ∷ []) (ground (arith, h))
is_lone-eq (d ∷ e ∷ ds) c h = grind (arith, h)

clean-plain : (c : ℕ) (cs : List ℕ) → is_plain c ≡ true → clean (c ∷ cs) ≡ c ∷ clean cs
unfolding clean
clean-plain c cs h =
    let kept : is_dropped c ≡ false = ground (arith, h) in
    let lone : is_lone (map look_alike (upper_of c)) c ≡ true = ground (arith, h) in
    rw (kept, is_lone-eq _ c lone) refl

clean-dash : (cs : List ℕ) → clean (45 ∷ cs) ≡ clean cs
unfolding clean is_dropped
clean-dash cs = refl

clean-in_groups :
    (n : ℕ) (vs : List ℕ) → All IsSmall vs → clean (in_groups n (map symbol vs)) ≡ map symbol vs
unfolding in_groups clean
clean-in_groups n [] h = refl
clean-in_groups zero (v ∷ vs) (h, hs) =
    let more = in_groups 3 (map symbol vs) in
    clean-dash (symbol v ∷ more)
    ∙ clean-plain (symbol v) more (symbol-plain v h)
    ∙ ap (λ cs. symbol v ∷ cs) (clean-in_groups 3 vs hs)
clean-in_groups (suc n) (v ∷ vs) (h, hs) =
    clean-plain (symbol v) (in_groups n (map symbol vs)) (symbol-plain v h)
    ∙ ap (λ cs. symbol v ∷ cs) (clean-in_groups n vs hs)

-- No symbol stands twice in the alphabet.
abbrev is_new : ℕ → List ℕ → Bool
is_new c [] = true
is_new c (d ∷ ds) = not (d == c) && is_new c ds

abbrev all_new : List ℕ → Bool
all_new [] = true
all_new (c ∷ cs) = is_new c cs && all_new cs

is_new-symbol :
    (v c : ℕ) (cs : List ℕ) → v < length cs → is_new c cs ≡ true → (c == symbol_in v cs) ≡ false
is_new-symbol v c [] h k = absurd (omega (arith, h))
is_new-symbol zero c (d ∷ ds) h k = ground (arith, k)
is_new-symbol (suc v) c (d ∷ ds) h k = is_new-symbol v c ds (omega (arith, h)) (ground (arith, k))

index_in-symbol :
    (v : ℕ) (cs : List ℕ)
    → v < length cs
    → all_new cs ≡ true
    → index_in cs (symbol_in v cs) ≡ some v
index_in-symbol v [] h k = absurd (omega (arith, h))
index_in-symbol zero (c ∷ cs) h k = rw (==_refl c) refl
index_in-symbol (suc v) (c ∷ cs) h k =
    let other_one = is_new-symbol v c cs (omega (arith, h)) (ground (arith, k)) in
    rw (other_one, index_in-symbol v cs (omega (arith, h)) (ground (arith, k))) refl

index_of-symbol : (v : ℕ) → IsSmall v → index_of (symbol v) ≡ some v
unfolding index_of symbol
index_of-symbol v h = index_in-symbol v alphabet h refl

values-symbols : (vs : List ℕ) → All IsSmall vs → values (map symbol vs) ≡ some vs
unfolding values
values-symbols [] h = refl
values-symbols (v ∷ vs) (h, hs) = rw (index_of-symbol v h, values-symbols vs hs) refl

length-map : (f : ℕ → ℕ) (xs : List ℕ) → length (map f xs) ≡ length xs
length-map f [] = refl
length-map f (x ∷ xs) = ap suc (length-map f xs)

-- 32 bytes are formatted, and parsing the text gives them back.
pub parse-format_share_id :
    (bytes : List ℕ)
    → length bytes ≡ 32
    → All IsByte bytes
    → (text : List ℕ) × ((format_share_id bytes ≡ some text) × (parse_share_id text ≡ some bytes))
unfolding format_share_id parse_share_id share_bytes share_symbols
parse-format_share_id bytes h k =
    let vs = to_symbols 0 0 bytes in
    let small = to_symbols-IsSmall 0 0 bytes in
    let cleaned = clean-in_groups 4 vs small in
    let long : (length (map symbol vs) == 52) ≡ true =
      ground (arith, length-map symbol vs, length-to_symbols 6 bytes h) in
    (
      in_groups 4 (map symbol vs),
      (
        rw h refl,
        rw (cleaned, long, values-symbols vs small, from_values-to_symbols 6 bytes h k, h) refl,
      ),
    )
