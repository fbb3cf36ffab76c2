-- ===== src/Sync/Op/GidRoundTrip.antt =====
-- A gid is read back as the parts it was made of (packages/core/src/identity/gid.ts).
use Prim.Native.Char.{char, code}
use kontexta.Base.{
  ℕ, zero, suc, ◌+◌, ◌-◌, ◌*◌, ◌/◌, ◌%◌, ◌^◌, ◌<◌, String, ◌≡◌, refl, ap, ◌∙◌, inl, inr, Bool, true,
  false, some, arith, ltb, if◌then◌else◌, ◌==◌, Bool-cases, nat_eq, string_eq,
}
use kontexta.Sync.Op.{digit, show_before, format_gid, is_digit, parse_local, parse_gid}

code-digit : (n : ℕ) → n < 10 → code (digit n) ≡ 48 + n
code-digit zero h = refl
code-digit (suc zero) h = refl
code-digit (suc (suc zero)) h = refl
code-digit (suc (suc (suc zero))) h = refl
code-digit (suc (suc (suc (suc zero)))) h = refl
code-digit (suc (suc (suc (suc (suc zero))))) h = refl
code-digit (suc (suc (suc (suc (suc (suc zero)))))) h = refl
code-digit (suc (suc (suc (suc (suc (suc (suc zero))))))) h = refl
code-digit (suc (suc (suc (suc (suc (suc (suc (suc zero)))))))) h = refl
code-digit (suc (suc (suc (suc (suc (suc (suc (suc (suc zero))))))))) h = refl
code-digit (suc (suc (suc (suc (suc (suc (suc (suc (suc (suc n)))))))))) h =
    absurd (omega (arith, h))

number : (m d c : ℕ) → c ≡ 48 + d → m * 10 + (c - 48) ≡ m * 10 + d
number m d c h = omega (arith, h)

-- Reading one more digit, and at the `@` the rest.
parse_digit :
    (m d : ℕ) (seen : Bool) (s : String)
    → d < 10
    → parse_local m seen (String.◌∷◌ (digit d) s) ≡ parse_local (m * 10 + d) true s
unfolding parse_local is_digit
parse_digit m d seen s h =
    let c = code-digit d h in
    ground (arith, c, h, ap (λ k. parse_local k true s) (number m d (code (digit d)) c))

last_digit : (m d n : ℕ) → d ≡ n → m * 10 + d ≡ m * 10 + n
last_digit m d n h = omega (arith, h)

next_digit : (m p n : ℕ) → (m * p + n / 10) * 10 + n % 10 ≡ m * (p * 10) + n
next_digit m p n = omega arith

parse-show :
    (fuel n : ℕ) (seen : Bool) (s : String)
    → n < fuel
    → (p : ℕ) × ((m : ℕ)
        → parse_local m seen (show_before fuel n s) ≡ parse_local (m * p + n) true s)
parse-show zero n seen s h = absurd (omega (arith, h))
parse-show (suc fuel) n seen s h = elim (Bool-cases (ltb n 10)) [
  | inl e ↦ (
    10,
    λ m. rw e (
        parse_digit m (n % 10) seen s (omega arith)
        ∙ ap (λ k. parse_local k true s) (last_digit m (n % 10) n (ground (arith, e)))),
  )
  | inr e ↦
      let (p, later) =
        parse-show fuel (n / 10) seen (String.◌∷◌ (digit (n % 10)) s) (ground (arith, e, h)) in
      (
        p * 10,
        λ m. rw e (
            later m
            ∙ parse_digit (m * p + n / 10) (n % 10) true s (omega arith)
            ∙ ap (λ k. parse_local k true s) (next_digit m p n)),
      )
]

at_sign :
    (k n : ℕ) (s : String)
    → (s == "") ≡ false
    → k ≡ n
    → parse_local k true (String.◌∷◌ (char b'@' tt) s)
      ≡ some (record { local_id = n; machine_id = s })
unfolding parse_local
at_sign k n s h e = ground (arith, h, e)

-- How often the separator occurs in a text.
unfoldable pub separators : String → ℕ
separators String.[] = 0
separators (String.◌∷◌ c s) = let rest = separators s in if code c == b'@' then suc rest else rest

digit-separators :
    (n : ℕ) (s : String) → n < 10 → separators (String.◌∷◌ (digit n) s) ≡ separators s
unfolding separators
digit-separators n s h = let c = code-digit n h in ground (arith, c, h)

show-separators : (fuel n : ℕ) (s : String) → separators (show_before fuel n s) ≡ separators s
show-separators zero n s = refl
show-separators (suc fuel) n s =
    let one = digit-separators (n % 10) s (omega arith) in
    elim (Bool-cases (ltb n 10)) [
      | inl e ↦ rw e one
      | inr e ↦ rw e (show-separators fuel (n / 10) (String.◌∷◌ (digit (n % 10)) s) ∙ one)
    ]

-- A gid of a safe integer (below 2^53) and a machine id that is not empty and has no `@` is parsed as
-- these two parts, and it has exactly one `@`.
pub parse-format :
    (local_id : ℕ) (machine_id : String)
    → local_id < 2 ^ 53
    → (machine_id == "") ≡ false
    → separators machine_id ≡ 0
    → (parse_gid (format_gid local_id machine_id)
        ≡ some (record { local_id = local_id; machine_id = machine_id }))
      × (separators (format_gid local_id machine_id) ≡ 1)
unfolding parse_gid format_gid parse_local separators
parse-format local_id machine_id safe h k =
    let (p, read) = parse-show (suc local_id) local_id false _ (omega arith) in
    (
      read 0 ∙ at_sign (0 * p + local_id) local_id machine_id h (omega arith),
      show-separators (suc local_id) local_id (String.◌∷◌ (char b'@' tt) machine_id) ∙ ap suc k,
    )
