-- ===== src/Sync/ShareId.antt =====
-- packages/core/src/storage/shareid.ts: the share id of a brain, 32 bytes, as a text of base 32. A text
-- is the list of its code points. The accumulator holds at most 12 bits, so the shifts of 32-bit
-- integers are multiplication and division, and `|` adds to bits that are 0.
pub mod Blocks
pub mod RoundTrip
use mathlib.Core.Option
use kontexta.Base.{
  ℕ, zero, suc, ◌+◌, ◌-◌, ◌*◌, ◌/◌, ◌%◌, ◌^◌, Bool, ◌&&◌, ◌||◌, Option, none, some, List, [], ◌∷◌,
  ◌++◌, map, ltb, leb, if◌then◌else◌, ◌==◌, length, nat_eq, string_eq,
}

unfoldable pub share_bytes : ℕ
share_bytes = 32

unfoldable pub share_symbols : ℕ
share_symbols = 52

-- 0123456789ABCDEFGHJKMNPQRSTVWXYZ
abbrev pub alphabet : List ℕ
alphabet =
    48 ∷ 49 ∷ 50 ∷ 51 ∷ 52 ∷ 53 ∷ 54 ∷ 55 ∷ 56 ∷ 57 ∷ 65 ∷ 66 ∷ 67 ∷ 68 ∷ 69 ∷ 70 ∷ 71 ∷ 72 ∷ 74
    ∷ 75 ∷ 77 ∷ 78 ∷ 80 ∷ 81 ∷ 82 ∷ 83 ∷ 84 ∷ 86 ∷ 87 ∷ 88 ∷ 89 ∷ 90 ∷ []

abbrev pub symbol_in : ℕ → List ℕ → ℕ
symbol_in v [] = 0
symbol_in zero (c ∷ cs) = c
symbol_in (suc v) (c ∷ cs) = symbol_in v cs

unfoldable pub symbol : ℕ → ℕ
symbol v = symbol_in v alphabet

-- `ALPHABET.indexOf(ch)`; `none` is -1.
abbrev pub index_in : List ℕ → ℕ → Option ℕ
index_in [] c = none
index_in (a ∷ more) c =
    let later = index_in more c in if a == c then some 0 else Option.map suc later

unfoldable pub index_of : ℕ → Option ℕ
index_of c = index_in alphabet c

-- The inner loop of `formatShareId`: the symbols that the accumulator has in full, before `rest`. With
-- at most 12 bits it runs at most twice.
unfoldable pub take_symbols : ℕ → ℕ → ℕ → List ℕ → List ℕ
take_symbols zero acc bits rest = rest
take_symbols (suc fuel) acc bits rest =
    let more = take_symbols fuel acc (bits - 5) rest in
    if leb 5 bits then (acc / 2 ^ (bits - 5)) % 32 ∷ more else rest

-- The symbols of the bytes by their values; each byte leaves fewer than 5 bits.
unfoldable pub to_symbols : ℕ → ℕ → List ℕ → List ℕ
unfolding take_symbols
to_symbols acc bits [] = if ltb 0 bits then (acc * 2 ^ (5 - bits)) % 32 ∷ [] else []
to_symbols acc bits (b ∷ bs) =
    let left = (bits + 8) % 5 in
    take_symbols 2 (acc * 256 + b) (bits + 8) (to_symbols ((acc * 256 + b) % 2 ^ left) left bs)

-- `out.match(/.{1,4}/g).join("-")`
unfoldable pub in_groups : ℕ → List ℕ → List ℕ
in_groups n [] = []
in_groups zero (c ∷ cs) = 45 ∷ c ∷ in_groups 3 cs
in_groups (suc n) (c ∷ cs) = c ∷ in_groups n cs

-- `none` is the error on another number of bytes.
unfoldable pub format_share_id : List ℕ → Option (List ℕ)
unfolding share_bytes to_symbols symbol in_groups
format_share_id bytes =
    if length bytes == share_bytes
    then some (in_groups 4 (map symbol (to_symbols 0 0 bytes)))
    else none

-- `[\s-]`
unfoldable pub is_dropped : ℕ → Bool
is_dropped c =
    c == 45
    || (leb 9 c && leb c 13
        || (c == 32
            || (c == 160
                || (c == 0x1680
                    || (leb 0x2000 c && leb c 0x200A
                        || (c == 0x2028
                            || (c == 0x2029
                                || (c == 0x202F
                                    || (c == 0x205F || (c == 0x3000 || c == 0xFEFF))))))))))

-- `toUpperCase` where its result has ASCII letters only; any other result has a character that is no
-- symbol, as the character left here is none.
unfoldable pub upper_of : ℕ → List ℕ
upper_of c =
    if leb 97 c && leb c 122
    then (c - 32) ∷ []
    else if c == 0x131
    then 73 ∷ []
    else if c == 0x17F
    then 83 ∷ []
    else if c == 0xDF
    then 83 ∷ 83 ∷ []
    else if c == 0xFB00
    then 70 ∷ 70 ∷ []
    else if c == 0xFB01
    then 70 ∷ 73 ∷ []
    else if c == 0xFB02
    then 70 ∷ 76 ∷ []
    else if c == 0xFB03
    then 70 ∷ 70 ∷ 73 ∷ []
    else if c == 0xFB04
    then 70 ∷ 70 ∷ 76 ∷ []
    else if c == 0xFB05 || c == 0xFB06
    then 83 ∷ 84 ∷ []
    else c ∷ []

-- The look-alikes O, I and L.
unfoldable pub look_alike : ℕ → ℕ
look_alike c = if c == 79 then 48 else if c == 73 || c == 76 then 49 else c

unfoldable pub clean : List ℕ → List ℕ
unfolding is_dropped upper_of look_alike
clean [] = []
clean (c ∷ cs) =
    let rest = clean cs in if is_dropped c then rest else map look_alike (upper_of c) ++ rest

-- The bytes that the values of symbols hold, and the bits that are left.
unfoldable pub from_values : ℕ → ℕ → List ℕ → List ℕ × ℕ
from_values acc bits [] = ([], acc)
from_values acc bits (v ∷ vs) =
    let all = acc * 32 + v in
    let (out, left) = from_values (all % 2 ^ (bits - 3)) (bits - 3) vs in
    let waiting = from_values (all % 2 ^ (bits + 5)) (bits + 5) vs in
    if leb 3 bits then ((all / 2 ^ (bits - 3)) % 256 ∷ out, left) else waiting

abbrev pub cons_value : Option ℕ → Option (List ℕ) → Option (List ℕ)
cons_value (some v) (some vs) = some (v ∷ vs)
cons_value (some v) none = none
cons_value none vs = none

-- The values of the symbols; `none` where one is not of the alphabet.
unfoldable pub values : List ℕ → Option (List ℕ)
unfolding index_of
values [] = some []
values (c ∷ cs) = cons_value (index_of c) (values cs)

abbrev pub whole : List ℕ × ℕ → Option (List ℕ)
whole (out, acc) = if length out == share_bytes && acc == 0 then some out else none

abbrev pub bytes_of : Option (List ℕ) → Option (List ℕ)
bytes_of none = none
bytes_of (some vs) = whole (from_values 0 0 vs)

unfoldable pub parse_share_id : List ℕ → Option (List ℕ)
unfolding clean values from_values share_symbols share_bytes
parse_share_id text =
    let symbols = clean text in
    if length symbols == share_symbols then bytes_of (values symbols) else none
