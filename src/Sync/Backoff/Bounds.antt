-- ===== src/Sync/Backoff/Bounds.antt =====
-- The retry delay doubles with every failure and stays between its two bounds.
use native.Mathlib.Nat.{pow-suc}
use kontexta.Base.{
  ℕ, zero, suc, ◌*◌, ◌^◌, ◌≤◌, ◌<◌, min, ◌≡◌, refl, inl, inr, arith, ltb, if◌then◌else◌, Bool-cases,
}
use kontexta.Sync.Backoff.{backoff_delay}

pow_pos : (n : ℕ) → 1 ≤ 2 ^ n
pow_pos zero = omega arith
pow_pos (suc n) = rw pow-suc (omega (arith, pow_pos n))

scaled : (initial n : ℕ) → initial * 2 ^ suc n ≡ 2 * (initial * 2 ^ n)
scaled initial n = rw pow-suc (omega arith)

le_scaled : (initial p : ℕ) → 1 ≤ p → initial ≤ initial * p
le_scaled initial p h = grind arith

-- The delay is never above the ceiling, and never below the first delay unless the ceiling is.
pub backoff_delay_bounds :
    (failures initial top : ℕ)
    → (min initial top ≤ backoff_delay failures initial top)
      × (backoff_delay failures initial top ≤ top)
unfolding backoff_delay
backoff_delay_bounds failures initial top =
    (omega (arith, le_scaled initial (2 ^ min failures 9) (pow_pos (min failures 9))), omega arith)

-- One more failure doubles the delay up to the ceiling; from the tenth delay on it stays.
backoff_delay_step :
    (failures initial top : ℕ)
    → backoff_delay (suc failures) initial top ≡ (
        if ltb failures 9
        then min (2 * backoff_delay failures initial top) top
        else backoff_delay failures initial top)
unfolding backoff_delay
backoff_delay_step failures initial top = elim (Bool-cases (ltb failures 9)) [
  | inl e ↦
      let below : failures < 9 = ground arith in
      let here : min failures 9 ≡ failures = omega arith in
      let there : min (suc failures) 9 ≡ suc failures = omega arith in
      rw (e, here, there) (omega (arith, scaled initial failures))
  | inr e ↦
      let above : 9 ≤ failures = ground arith in
      let here : min failures 9 ≡ 9 = omega arith in
      let there : min (suc failures) 9 ≡ 9 = omega arith in rw (e, here, there) refl
]
