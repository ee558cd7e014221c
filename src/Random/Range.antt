-- ===== src/Random/Range.antt =====
-- The numbers that the generator hands out.
use c_framework_to_server.Base.{
  ℕ, ◌+◌, ◌*◌, ◌/◌, ◌%◌, ◌^◌, ◌<◌, ◌≡◌, refl, sym, ap, ◌∙◌, subst, true, false, some, arith,
}
use c_framework_to_server.Base.Int.{ℤ, pos, pos_part, ◌+ℤ◌, ◌-ℤ◌, ◌≤ℤ◌, ltb_ℤ}
use native.Mathlib.Nat.{mod-lt}
use c_framework_to_server.Random.{
  State, srand_init, srand_next, srand_get_int32, srand_get_limit_int32, int32_max,
}
use c_framework_to_server.Random.Step.{IsValid, seed, factor, srand_next-IsValid, srand_next-seed}

pub srand_init-IsValid : (n : ℕ) (s : State) → IsValid (srand_init n s)
unfolding srand_init
srand_init-IsValid n s = omega arith

top_bits : (s : State) → IsValid s → (s.x2 * 2 ^ 15 % 2 ^ 32 + s.x1 / 2) % 2 ^ 32 ≡ seed s / 2 ^ 17
top_bits s v = omega arith

top_bits-lt : (s : State) → IsValid s → seed s / 2 ^ 17 < 2 ^ 31
top_bits-lt s v = omega arith

-- On digits below 2 ^ 16 the number drawn is the top 31 bits of the next 48-bit seed, and so an
-- int32_t that is not negative; the state moves on by one step.
pub srand_get_int32_lem :
    (s : State)
    → IsValid s
    → ((srand_get_int32 s).0 ≡ (factor s * seed s + s.c) % 2 ^ 48 / 2 ^ 17)
      × ((srand_get_int32 s).0 < 2 ^ 31)
      × ((srand_get_int32 s).1 ≡ srand_next s)
unfolding srand_get_int32
srand_get_int32_lem s v =
    let w = srand_next-IsValid s v in
    let drawn = top_bits (srand_next s) w in
    (
      drawn ∙ ap (λ n. n / 2 ^ 17) (srand_next-seed s v),
      subst (λ n. n < 2 ^ 31) (sym drawn) (top_bits-lt (srand_next s) w),
      refl,
    )

size_pos : (lo hi : ℤ) → ltb_ℤ lo hi ≡ true → 0 < pos_part (hi -ℤ lo +ℤ pos 1)
unfolding ◌+ℤ◌ ◌-ℤ◌
size_pos lo hi h = ground arith

offset_bounds :
    (lo hi : ℤ) (k : ℕ)
    → k < pos_part (hi -ℤ lo +ℤ pos 1)
    → (lo ≤ℤ pos k +ℤ lo) × (pos k +ℤ lo ≤ℤ hi)
unfolding ◌+ℤ◌ ◌-ℤ◌
offset_bounds lo hi k h = ground arith

-- For lo < hi, where the size of the range is an int32_t,
-- `srand_get_limit_int32` returns a number from lo to hi, both included, and moves on by one step.
pub srand_get_limit_int32-range :
    (lo hi : ℤ) (s : State)
    → ltb_ℤ lo hi ≡ true
    → ltb_ℤ int32_max (hi -ℤ lo +ℤ pos 1) ≡ false
    → (r : ℤ) × (srand_get_limit_int32 lo hi s ≡ some (r, srand_next s)) × (lo ≤ℤ r) × (r ≤ℤ hi)
unfolding srand_get_limit_int32 srand_get_int32
srand_get_limit_int32-range lo hi s order fits =
    let size = hi -ℤ lo +ℤ pos 1 in
    let k = (srand_get_int32 s).0 % pos_part size in
    let within = offset_bounds lo hi k (mod-lt _ (size_pos lo hi order)) in
    (pos k +ℤ lo, rw (order, fits) refl, within.0, within.1)
