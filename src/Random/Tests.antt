-- ===== src/Random/Tests.antt =====
-- The generator at concrete states.
use c_framework_to_server.Base.{◌+◌, ◌*◌, ◌%◌, ◌^◌, ◌≡◌, refl, some}
use c_framework_to_server.Base.Int.{ℤ, pos, negsuc, ◌+ℤ◌, ◌-ℤ◌, ◌≤ℤ◌}
use c_framework_to_server.Random.{
  State, srand_init, srand_next, srand_get_int32, srand_get_limit_int32,
}
use c_framework_to_server.Random.Step.{seed, factor, srand_next-seed}
use c_framework_to_server.Random.Range.{srand_init-IsValid, srand_get_limit_int32-range}

-- The state of the program after srand_init(7).
abbrev start : State
start = srand_init 7 (record { x0 = 0; x1 = 0; x2 = 0; a0 = 0; a1 = 0; a2 = 0; c = 0 })

first_number : (srand_get_int32 start).0 ≡ 572184555
unfolding srand_init srand_get_int32 srand_next
first_number = refl

srand_next-seed_example : seed (srand_next start) ≡ (factor start * seed start + start.c) % 2 ^ 48
srand_next-seed_example = srand_next-seed start (srand_init-IsValid 7 _)

srand_get_limit_int32-range_example :
    (r : ℤ) × (srand_get_limit_int32 (negsuc 4) (pos 5) start ≡ some (r, srand_next start))
    × (negsuc 4 ≤ℤ r)
    × (r ≤ℤ pos 5)
unfolding ◌+ℤ◌ ◌-ℤ◌
srand_get_limit_int32-range_example = srand_get_limit_int32-range (negsuc 4) (pos 5) start refl refl
