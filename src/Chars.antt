-- ===== src/Chars.antt =====
-- Character classes of the regular expressions that the program matches, over code points.
use Prim.Native.Char.{Char, code}
use kontexta.Base.{
  ℕ, suc, String, Bool, true, not, ◌&&◌, ◌||◌, leb, if◌then◌else◌, ◌==◌, nat_eq, string_eq,
}

pub is_digit : Char → Bool
is_digit c = leb 48 (code c) && leb (code c) 57

pub is_letter : Char → Bool
is_letter c = leb 65 (code c) && leb (code c) 90 || leb 97 (code c) && leb (code c) 122

-- `.` matches any character but the four line terminators.
pub is_dot : Char → Bool
is_dot c = not (code c == 10 || (code c == 13 || (code c == 0x2028 || code c == 0x2029)))

-- `\s`
unfoldable pub is_space : Char → Bool
is_space c =
    leb 9 (code c) && leb (code c) 13
    || (code c == 32
        || (code c == 160
            || (code c == 0x1680
                || (leb 0x2000 (code c) && leb (code c) 0x200A
                    || (code c == 0x2028
                        || (code c == 0x2029
                            || (code c == 0x202F
                                || (code c == 0x205F
                                    || (code c == 0x3000 || code c == 0xFEFF)))))))))

-- `length` of a text counts UTF-16 units.
pub utf16_length : String → ℕ
utf16_length String.[] = 0
utf16_length (String.◌∷◌ c s) =
    let n = utf16_length s in if leb 0x10000 (code c) then suc (suc n) else suc n

pub every_char : (Char → Bool) → String → Bool
every_char p String.[] = true
every_char p (String.◌∷◌ c s) = p c && every_char p s
